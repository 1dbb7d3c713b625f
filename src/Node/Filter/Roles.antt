-- ===== src/Node/Filter/Roles.antt =====
-- Whom RoleFilter lets pass.
use freego.Prelude.{
  ℕ, suc, ◌+◌, ◌<◌, ℤ, eq_ℤ, length, leb, ltb, ◌==◌, ◌≡◌, refl, ap, ◌∙◌, sym, arith, Bool, true,
  false, not, ◌&&◌, ◌||◌, List, [], ◌∷◌, if◌then◌else◌,
}
use freego.Node.Context.{Permission}
use freego.Node.Filter.{
  Access, granted, counted, go_on, is_granted, need_loop, has_loop, has_access,
}

abbrev pub mem : ℤ → List ℤ → Bool
mem x [] = false
mem x (y ∷ ys) = eq_ℤ x y || mem x ys

-- Some role of the user's is one of those needed.
abbrev pub any_of : List ℤ → List ℤ → Bool
any_of [] needs = false
any_of (r ∷ rs) needs = mem r needs || any_of rs needs

-- The role is one of the user's, and each role that is needed is.
abbrev pub held : ℤ → List ℤ → Bool
held x [] = false
held x (r ∷ rs) = eq_ℤ r x || held x rs

abbrev pub all_held : List ℤ → List ℤ → Bool
all_held [] roles = true
all_held (x ∷ xs) roles = held x roles && all_held xs roles

abbrev pub distinct : List ℤ → Bool
distinct [] = true
distinct (r ∷ rs) = not (mem r rs) && distinct rs

any_step :
    (b m e : Bool) (n : ℕ) (hit skip : Access)
    → skip ≡ (if m then granted else counted n)
    → (if b then (if true || e then granted else hit) else skip)
      ≡ (if b || m then granted else counted n)
any_step true m e n hit skip h = refl
any_step false m e n hit skip h = h

need_loop-any :
    (k : ℕ) (r : ℤ) (needs : List ℤ) (n : ℕ)
    → need_loop false k r needs n ≡ (if mem r needs then granted else counted n)
unfolding need_loop
need_loop-any k r [] n = refl
need_loop-any k r (x ∷ needs) n =
    any_step (eq_ℤ r x) (mem r needs) (suc n == k) n (need_loop false k r needs (suc n)) _
      (need_loop-any k r needs n)

any_go :
    (m : Bool) (n : ℕ) (f : ℕ → Access) (b : Bool)
    → is_granted (f n) ≡ b
    → is_granted (go_on (if m then granted else counted n) f) ≡ (m || b)
any_go true n f b h = refl
any_go false n f b h = h

has_loop-any :
    (k : ℕ) (needs roles : List ℤ) (n : ℕ)
    → is_granted (has_loop false k needs roles n) ≡ any_of roles needs
unfolding has_loop
has_loop-any k needs [] n = refl
has_loop-any k needs (r ∷ roles) n =
    rw (need_loop-any k r needs n) (
      any_go (mem r needs) n (λ m. has_loop false k needs roles m) _ (has_loop-any k needs roles n))

-- The pairs of equal roles.
unfoldable pub hits : ℤ → List ℤ → ℕ
hits r [] = 0
hits r (x ∷ xs) = (if eq_ℤ r x then 1 else 0) + hits r xs

unfoldable pub pairs : List ℤ → List ℤ → ℕ
pairs [] needs = 0
pairs (r ∷ rs) needs = hits r needs + pairs rs needs

-- Once the count has reached k from below, access is granted.
abbrev reached : ℕ → ℕ → ℕ → Access
reached k n m = if ltb n k && leb k (n + m) then granted else counted (n + m)

reach_one :
    (k n m : ℕ)
    → (ltb n k && leb k (n + suc m)) ≡ (suc n == k || (ltb (suc n) k && leb k (suc n + m)))
reach_one k n m = ground arith

or_reached :
    (a b : Bool) (p q : ℕ)
    → p ≡ q
    → (if a then granted else (if b then granted else counted p))
      ≡ (if a || b then granted else counted q)
or_reached true b p q h = refl
or_reached false true p q h = refl
or_reached false false p q h = ap counted h

all_step :
    (b : Bool) (k n m : ℕ)
    → (if b then (if false || suc n == k then granted else reached k (suc n) m) else reached k n m)
      ≡ reached k n ((if b then 1 else 0) + m)
all_step true k n m =
    or_reached (suc n == k) (ltb (suc n) k && leb k (suc n + m)) (suc n + m) (n + suc m)
      (omega arith)
    ∙ ap (λ t. if t then granted else counted (n + suc m)) (sym (reach_one k n m))
    ∙ (let e : suc m ≡ 1 + m = omega arith in ap (reached k n) e)
all_step false k n m = let e : m ≡ 0 + m = omega arith in ap (reached k n) e

reach_none : (k n : ℕ) → (ltb n k && leb k (n + 0)) ≡ false
reach_none k n = ground arith

need_loop-all :
    (k : ℕ) (r : ℤ) (needs : List ℤ) (n : ℕ)
    → need_loop true k r needs n ≡ reached k n (hits r needs)
unfolding need_loop hits
need_loop-all k r [] n = let e : n ≡ n + 0 = omega arith in rw (reach_none k n) (ap counted e)
need_loop-all k r (x ∷ needs) n =
    rw (need_loop-all k r needs n)
      (rw (need_loop-all k r needs (suc n)) (all_step (eq_ℤ r x) k n (hits r needs)))

-- The outer loop over a count below k.
reached_go :
    (k n m p : ℕ) (f : ℕ → Access)
    → n < k
    → (n + m < k → is_granted (f (n + m)) ≡ leb k (n + m + p))
    → is_granted (go_on (reached k n m) f) ≡ leb k (n + (m + p))
reached_go k n m p f h g = by_reach (leb k (n + m)) refl
  where
    by_reach :
        (b : Bool)
        → leb k (n + m) ≡ b
        → is_granted (go_on (if ltb n k && b then granted else counted (n + m)) f)
          ≡ leb k (n + (m + p))
    by_reach true e =
        let l : ltb n k ≡ true = ground arith in
        let q : leb k (n + (m + p)) ≡ true = ground (arith, e) in rw l (sym q)
    by_reach false e =
        let l : ltb n k ≡ true = ground arith in
        let q : n + m < k = ground (arith, e) in
        let a : n + m + p ≡ n + (m + p) = omega arith in rw l (g q ∙ ap (leb k) a)

has_loop-all :
    (k : ℕ) (needs roles : List ℤ) (n : ℕ)
    → n < k
    → is_granted (has_loop true k needs roles n) ≡ leb k (n + pairs roles needs)
unfolding has_loop pairs
has_loop-all k needs [] n h = ground arith
has_loop-all k needs (r ∷ roles) n h = rw (need_loop-all k r needs n) (
    reached_go k n (hits r needs) (pairs roles needs) (λ m. has_loop true k needs roles m) h
      (has_loop-all k needs roles (n + hits r needs)))

-- Without MatchAll, RoleFilter lets a user pass exactly if one of the roles is needed.
pub has_access-any :
    (need : Permission) (roles : List ℤ)
    → need.match_all ≡ false
    → has_access need roles ≡ any_of roles need.need_role
unfolding has_access
has_access-any need roles h = rw h (has_loop-any (length need.need_role) need.need_role roles 0)

-- With MatchAll, RoleFilter lets a user pass exactly if the pairs of a role of the user's and an
-- equal one that is needed are as many as the roles needed; a role that the user has twice counts
-- twice.
pub has_access-pairs :
    (need : Permission) (roles : List ℤ)
    → need.match_all ≡ true
    → 0 < length need.need_role
    → has_access need roles ≡ leb (length need.need_role) (pairs roles need.need_role)
unfolding has_access
has_access-pairs need roles h l =
    let e : 0 + pairs roles need.need_role ≡ pairs roles need.need_role = omega arith in
    rw h (
      has_loop-all (length need.need_role) need.need_role roles 0 l
      ∙ ap (leb (length need.need_role)) e)
