-- ===== src/Node/Filter/Copies.antt =====
-- Whom RoleFilter lets pass with MatchAll: the pairs of equal roles, counted from the roles needed.
use mathlib.Core.Path.{subst}
use freego.Prelude.{
  ℕ, suc, ◌+◌, ◌≤◌, ◌<◌, ℤ, pos, negsuc, eq_ℤ, length, leb, ◌≡◌, refl, ap, ◌∙◌, sym, arith, Bool,
  true, false, not, ◌&&◌, ◌||◌, List, [], ◌∷◌, if◌then◌else◌,
}
use freego.Node.Context.{Permission}
use freego.Node.Filter.{has_access}
use freego.Node.Filter.Roles.{mem, held, all_held, distinct, hits, pairs, has_access-pairs}

-- How many of the user's roles are the role.
unfoldable pub copies : ℤ → List ℤ → ℕ
copies x [] = 0
copies x (r ∷ rs) = (if eq_ℤ r x then 1 else 0) + copies x rs

unfoldable pub copies_of : List ℤ → List ℤ → ℕ
unfolding copies
copies_of [] roles = 0
copies_of (x ∷ xs) roles = copies x roles + copies_of xs roles

copies_of-none : (needs : List ℤ) → copies_of needs [] ≡ 0
unfolding copies_of copies
copies_of-none [] = refl
copies_of-none (x ∷ xs) = omega (arith, copies_of-none xs)

copies_of-cons :
    (needs : List ℤ) (r : ℤ) (rs : List ℤ)
    → copies_of needs (r ∷ rs) ≡ hits r needs + copies_of needs rs
unfolding copies_of copies hits
copies_of-cons [] r rs = omega arith
copies_of-cons (x ∷ xs) r rs = ground (arith, copies_of-cons xs r rs)

pairs-copies : (roles needs : List ℤ) → pairs roles needs ≡ copies_of needs roles
unfolding pairs
pairs-copies [] needs = sym (copies_of-none needs)
pairs-copies (r ∷ rs) needs = omega (arith, pairs-copies rs needs, copies_of-cons needs r rs)

eq_of_eq_ℤ : (a b : ℤ) → eq_ℤ a b ≡ true → a ≡ b
eq_of_eq_ℤ (pos a) (pos b) h = let e : a ≡ b = ground arith in ap pos e
eq_of_eq_ℤ (pos a) (negsuc b) h = ground arith
eq_of_eq_ℤ (negsuc a) (pos b) h = ground arith
eq_of_eq_ℤ (negsuc a) (negsuc b) h = let e : a ≡ b = ground arith in ap negsuc e

eq_ℤ-comm : (a b : ℤ) → eq_ℤ a b ≡ eq_ℤ b a
eq_ℤ-comm (pos a) (pos b) = ground arith
eq_ℤ-comm (pos a) (negsuc b) = ground arith
eq_ℤ-comm (negsuc a) (pos b) = ground arith
eq_ℤ-comm (negsuc a) (negsuc b) = ground arith

held-mem : (x : ℤ) (roles : List ℤ) → held x roles ≡ mem x roles
held-mem x [] = refl
held-mem x (r ∷ rs) =
    ap (λ b. b || held x rs) (eq_ℤ-comm r x) ∙ ap (λ b. eq_ℤ x r || b) (held-mem x rs)

distinct_cons : (a b : Bool) → (not a && b) ≡ true → (a ≡ false) × (b ≡ true)
distinct_cons a b h = ground arith

copies_step :
    (x r : ℤ) (rs : List ℤ)
    → mem r rs ≡ false
    → copies x rs ≡ (if held x rs then 1 else 0)
    → (b : Bool) → eq_ℤ r x ≡ b
    → (if b then 1 else 0) + copies x rs ≡ (if b || held x rs then 1 else 0)
copies_step x r rs m q false e = omega (arith, q)
copies_step x r rs m q true e =
    let n : held x rs ≡ false =
      held-mem x rs ∙ subst (λ y. mem y rs ≡ false) (eq_of_eq_ℤ r x e) m in
    let z : copies x rs ≡ 0 = q ∙ rw n refl in omega (arith, z)

copies-held :
    (x : ℤ) (roles : List ℤ)
    → distinct roles ≡ true
    → copies x roles ≡ (if held x roles then 1 else 0)
unfolding copies
copies-held x [] h = refl
copies-held x (r ∷ rs) h =
    let (m, d) = distinct_cons (mem r rs) (distinct rs) h in
    copies_step x r rs m (copies-held x rs d) (eq_ℤ r x) refl

-- The count of all is at most the number of roles, and that number exactly if all are held.
abbrev Counts : ℕ → ℕ → Bool → Type 0
Counts c l b = (c ≤ l) × (leb l c ≡ b)

Counts-step :
    (c d l : ℕ) (b all : Bool)
    → c ≡ (if b then 1 else 0)
    → Counts d l all
    → Counts (c + d) (suc l) (b && all)
Counts-step c d l true all e h = (ground (arith, e, h.0), ground (arith, e, h.0, h.1))
Counts-step c d l false all e h = (ground (arith, e, h.0), ground (arith, e, h.0))

copies_of-Counts :
    (needs roles : List ℤ)
    → distinct roles ≡ true
    → Counts (copies_of needs roles) (length needs) (all_held needs roles)
unfolding copies_of
copies_of-Counts [] roles h = (omega arith, ground arith)
copies_of-Counts (x ∷ xs) roles h =
    Counts-step (copies x roles) (copies_of xs roles) (length xs) (held x roles) (all_held xs roles)
      (copies-held x roles h) (copies_of-Counts xs roles h)

-- With MatchAll, and no role twice among the user's, RoleFilter lets a user pass exactly if each
-- role that is needed is one of the user's.
pub has_access-all :
    (need : Permission) (roles : List ℤ)
    → need.match_all ≡ true
    → 0 < length need.need_role
    → distinct roles ≡ true
    → has_access need roles ≡ all_held need.need_role roles
has_access-all need roles h l d =
    has_access-pairs need roles h l
    ∙ ap (leb (length need.need_role)) (pairs-copies roles need.need_role)
    ∙ (copies_of-Counts need.need_role roles d).1
