-- ===== src/Node/Filter.antt =====
-- node/filter.go: the filters of a request and their chain. The filter that renders the response is
-- the outermost and is left out: the chain here is what it calls.
pub mod Roles
pub mod Copies
pub mod Chain
pub mod Urls
use freego.Prelude.{
  ℕ, suc, ◌-◌, ℤ, pos, negsuc, eq_ℤ, ltb, take, length, Text, String, codes, text_eq, ◌==◌, Bool,
  true, false, not, ◌&&◌, ◌||◌, Option, none, some, List, [], ◌∷◌, ◌++◌, if◌then◌else◌,
}
use freego.Jwt.{is_blank, check_ready, get_raw_bytes, Verdict, verified, rejected, verify}
use freego.Node.Context.{
  Permission, Answer, done, thrown, Handled, Context, RequestCtx, Node, Act, ◌>>=◌, pure, throw,
  refuse_if,
}
use freego.Node.Request.{read_params}

-- strings.HasSuffix(pattern, "*")
abbrev pub ends_in_star : Text → Bool
ends_in_star [] = false
ends_in_star (c ∷ []) = c == b'*'
ends_in_star (c ∷ (d ∷ s)) = ends_in_star (d ∷ s)

-- The loop of utils.MatchFilterURL. A path that is shorter than a prefix ends the loop.
unfoldable pub match_loop : Text → List Text → Bool
match_loop path [] = false
match_loop path (pattern ∷ ps) =
    let l = length pattern - 1 in
    let rest = match_loop path ps in
    if text_eq path pattern || text_eq pattern (codes "/*")
    then true
    else if ends_in_star pattern
    then (if ltb (length path) l
        then false
        else if text_eq (take l path) (take l pattern)
        then true
        else rest)
    else rest

-- utils.MatchFilterURL
unfoldable pub match_filter_url : Text → List Text → Bool
unfolding match_loop
match_filter_url path [] = true
match_filter_url path (p ∷ ps) = match_loop path (p ∷ ps)

-- Authenticated
unfoldable pub authenticated : Context → Bool
authenticated c = check_ready c.subject

-- The answer of Verify in SessionFilter, which fills the subject of the context.
session_verdict : Verdict → Act (Unit {0}) → Act (Unit {0})
session_verdict (rejected _) next c = throw 401 "token invalid or expired" c
session_verdict (verified s) next c = next (record c { subject = s })

-- SessionFilter
unfoldable pub session_filter : Node → Act (Unit {0}) → Act (Unit {0})
unfolding session_verdict
session_filter node next c =
    if c.router_config.use_rsa || c.router_config.guest
    then next c
    else if is_blank (get_raw_bytes c.subject)
    then throw 401 "token is nil" c
    else session_verdict
        (verify node.crypto node.now (get_raw_bytes c.subject) node.token_key true c.subject) next c

-- The two loops of RoleFilter: access is granted, or the pairs of equal roles were counted.
pub data Access : Type 0 where
  granted : Access
  counted : ℕ → Access

unfoldable pub need_loop : Bool → ℕ → ℤ → List ℤ → ℕ → Access
need_loop match_all need_access role [] n = counted n
need_loop match_all need_access role (need ∷ needs) n =
    let skip = need_loop match_all need_access role needs n in
    let hit = need_loop match_all need_access role needs (suc n) in
    if eq_ℤ role need
    then (if not match_all || suc n == need_access then granted else hit)
    else skip

-- The inner loop returns from the filter or goes on with its count.
abbrev pub go_on : Access → (ℕ → Access) → Access
go_on granted f = granted
go_on (counted n) f = f n

unfoldable pub has_loop : Bool → ℕ → List ℤ → List ℤ → ℕ → Access
unfolding need_loop
has_loop match_all need_access needs [] n = counted n
has_loop match_all need_access needs (role ∷ roles) n =
    go_on (need_loop match_all need_access role needs n)
      λ m. has_loop match_all need_access needs roles m

abbrev pub is_granted : Access → Bool
is_granted granted = true
is_granted (counted _) = false

-- The test of RoleFilter for the roles that the route needs and those the user has.
unfoldable pub has_access : Permission → List ℤ → Bool
unfolding has_loop
has_access need roles =
    is_granted (has_loop need.match_all (length need.need_role) need.need_role roles 0)

-- `hasRoles`
abbrev pub roles_of : Option Permission → List ℤ
roles_of none = []
roles_of (some p) = p.has_role

abbrev no_roles : List ℤ → Bool
no_roles [] = true
no_roles _ = false

-- RoleFilter: the answers of the two calls of roleRealm, and its call.
role_has : Permission → Answer (Option Permission) → Act (Unit {0}) → Act (Unit {0})
unfolding has_access
role_has need (thrown t) next c = (thrown t, c)
role_has need (done has) next c =
    if has_access need (roles_of has) then next c else throw 401 "access defined" c

role_need :
    Answer (Option Permission) → Answer (Option Permission) → Act (Unit {0}) → Act (Unit {0})
unfolding role_has
role_need (thrown t) has next c = (thrown t, c)
role_need (done none) has next c = next c
role_need (done (some need)) has next c =
    if no_roles need.need_role then next c else role_has need has next c

role_in : Option (Context → Bool → Answer (Option Permission)) → Act (Unit {0}) → Act (Unit {0})
unfolding role_need authenticated
role_in none next c = next c
role_in (some realm) next c =
    if authenticated c then role_need (realm c false) (realm c true) next c else next c

unfoldable pub role_filter : Node → Act (Unit {0}) → Act (Unit {0})
unfolding role_in
role_filter node = role_in node.role_realm

-- Handle
unfoldable pub handle : Node → Act (Unit {0})
handle node c =
    if c.post_completed
    then (done tt, c)
    else node.post_handle (record c {
      post_completed = true;
      handled =
          c.handled
          ++ record { path = c.path; subject = c.subject; data_ = c.json_body.data_ } ∷ [];
    })

-- The filters. One of the application does its work before and after its one call of the chain.
pub data Filter : Type 0 where
  gateway_rate_limiter parameter session user_rate_limiter role post_handler : Filter
  external : Act (Unit {0}) → (Answer (Unit {0}) → Act (Unit {0})) → Filter

abbrev around :
    Act (Unit {0}) → (Answer (Unit {0}) → Act (Unit {0})) → Act (Unit {0}) → Act (Unit {0})
around before after next = before >>= λ _ c. let r = next c in after r.0 r.1

unfoldable pub do_filter : Node → RequestCtx → Filter → Act (Unit {0}) → Act (Unit {0})
unfolding session_filter role_filter handle
do_filter node req gateway_rate_limiter next = next
do_filter node req parameter next = read_params node req >>= λ _. next
do_filter node req session next = session_filter node next
do_filter node req user_rate_limiter next = next
do_filter node req role next = role_filter node next
do_filter node req post_handler next = handle node >>= λ _. next
do_filter node req (external before after) next = around before after next

pub record FilterObject : Type 0 where
  pub name : Text
  pub order : ℤ
  pub filter : Option Filter
  pub match_pattern : List Text

-- One round of filterChain.DoFilter.
do_next : Node → RequestCtx → Option Filter → List Text → Act (Unit {0}) → Act (Unit {0})
unfolding do_filter match_filter_url
do_next node req none patterns next c = throw 999998 "filter is nil" c
do_next node req (some g) patterns next c =
    if match_filter_url c.path patterns then do_filter node req g next c else next c

-- filterChain.DoFilter, over the filters from `pos` on.
unfoldable pub do_chain : Node → RequestCtx → List FilterObject → Act (Unit {0})
unfolding do_next
do_chain node req [] = pure tt
do_chain node req (f ∷ fs) = do_next node req f.filter f.match_pattern (do_chain node req fs)

abbrev built_in : Text → ℤ → Filter → FilterObject
built_in name order g = record { name = name; order = order; filter = some g; match_pattern = [] }

-- filterMap in its order, without the filter that renders.
unfoldable pub default_filters : List FilterObject
default_filters =
    built_in (codes "GatewayRateLimiterFilter") (negsuc 99) gateway_rate_limiter
    ∷ (built_in (codes "ParameterFilter") (negsuc 89) parameter
        ∷ (built_in (codes "SessionFilter") (negsuc 79) session
            ∷ (built_in (codes "UserRateLimiterFilter") (negsuc 69) user_rate_limiter
                ∷ (built_in (codes "RoleFilter") (negsuc 59) role
                    ∷ (built_in (codes "PostHandleFilter") (pos 9223372036854775807) post_handler
                        ∷ [])))))
