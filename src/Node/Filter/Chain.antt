-- ===== src/Node/Filter/Chain.antt =====
-- What the chain of the built-in filters asks of a request before it is handled.
use freego.Prelude.{codes, Bool, true, false, not, ◌||◌, Option, none, some, ◌≡◌, ◌⊎◌}
use freego.Jwt.Verify.{IsGenuine}
use freego.Node.Context.{Permission, Answer, done, thrown, Context, RequestCtx, Node, Act}
use freego.Node.Request.Login.{IsChecked}
use freego.Node.Filter.{has_access, roles_of, no_roles, authenticated}

-- What the answers of roleRealm allow: no permission, none that needs a role, or the access that
-- the user's roles give.
abbrev has_allows : Permission → Answer (Option Permission) → Bool
has_allows need (thrown _) = false
has_allows need (done has) = has_access need (roles_of has)

abbrev need_allows : Answer (Option Permission) → Answer (Option Permission) → Bool
need_allows (thrown _) has = false
need_allows (done none) has = true
need_allows (done (some need)) has = no_roles need.need_role || has_allows need has

abbrev realm_allows : Option (Context → Bool → Answer (Option Permission)) → Context → Bool
realm_allows none c = true
realm_allows (some realm) c = not (authenticated c) || need_allows (realm c false) (realm c true)

-- The context e in which a request that came with the context c is handled: it was checked, the
-- token of its header is genuine, and the roles of its user are allowed the route.
pub record IsAdmitted (node : Node) (req : RequestCtx) (c e : Context) : Type 0 where
  pub read : Context
  pub checked : IsChecked node req c read
  pub genuine :
      IsGenuine node.crypto node.now node.token_key (req.header (codes "Authorization")) e.subject
  pub same : e ≡ record read { subject = e.subject }
  pub allowed : realm_allows node.role_realm e ≡ true

-- Either nothing was handled, or the rest was run on a context of which R holds.
abbrev Passes : (Context → Type 0) → Act (Unit {0}) → Context → Answer (Unit {0}) × Context → Type 0
Passes R next c r = (r.1.handled ≡ c.handled) ⊎ ((e : Context) × R e × (r ≡ next e))
