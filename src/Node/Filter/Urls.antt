-- ===== src/Node/Filter/Urls.antt =====
-- Which paths a filter is for.
use freego.Prelude.{
  both_true, ℕ, suc, ◌-◌, ltb, take, length, Text, codes, text_eq, ◌==◌, ◌≡◌, refl, arith, Bool,
  true, false, not, ◌&&◌, ◌||◌, List, [], ◌∷◌, if◌then◌else◌,
}
use mathlib.Core.Path.{subst}
use mathlib.Core.Bool.{false≢true}
use freego.Node.Filter.{ends_in_star, match_loop, match_filter_url}

-- The pattern is some text with a star behind it, and the path begins with this text.
abbrev pub star_match : Text → Text → Bool
star_match s [] = false
star_match s (c ∷ []) = c == b'*'
star_match [] (c ∷ (d ∷ p)) = false
star_match (a ∷ s) (c ∷ (d ∷ p)) = a == c && star_match s (d ∷ p)

abbrev pub matches : Text → Text → Bool
matches path pattern =
    (text_eq path pattern || text_eq pattern (codes "/*")) || star_match path pattern

abbrev pub is_nil {ℓ} : {A : Type ℓ} → List A → Bool
is_nil [] = true
is_nil _ = false

abbrev pub any_match : Text → List Text → Bool
any_match path [] = false
any_match path (p ∷ ps) = matches path p || any_match path ps

-- The path is as long as what stands before the star of each pattern.
abbrev pub reaches : Text → List Text → Bool
reaches path [] = true
reaches path (p ∷ ps) = not (ends_in_star p && ltb (length path) (length p - 1)) && reaches path ps

ltb-zero : (n : ℕ) → ltb n 0 ≡ false
ltb-zero n = ground arith

below_next : (m : ℕ) → ltb 0 (suc m) ≡ true
below_next m = ground arith

ltb-suc : (n m : ℕ) → ltb (suc n) (suc m) ≡ ltb n m
ltb-suc n m = ground arith

true_right : (b : Bool) → b ≡ b && true
true_right true = refl
true_right false = refl

false_right : (b : Bool) → false ≡ b && false
false_right true = refl
false_right false = refl

and_exchange : (a e n t : Bool) → a && (e && (n && t)) ≡ e && (n && (a && t))
and_exchange true e n t = refl
and_exchange false true true t = refl
and_exchange false true false t = refl
and_exchange false false n t = refl

-- What the loop computes of a pattern that ends in a star.
star_match-take :
    (s : Text) (c : ℕ) (p : Text)
    → star_match s (c ∷ p)
      ≡ ends_in_star (c ∷ p)
        && (not (ltb (length s) (length p))
            && text_eq (take (length p) s) (take (length p) (c ∷ p)))
star_match-take s c [] = rw (ltb-zero (length s)) (true_right (c == b'*'))
star_match-take [] c (d ∷ p) = rw (below_next (length p)) (false_right (ends_in_star (d ∷ p)))
star_match-take (a ∷ s) c (d ∷ p) =
    rw (ltb-suc (length s) (length p), star_match-take s d p)
      (and_exchange (a == c) (ends_in_star (d ∷ p)) (not (ltb (length s) (length p)))
        (text_eq (take (length p) s) (take (length p) (d ∷ p))))

round_cases :
    (direct star short same more loop : Bool)
    → not (star && short) ≡ true
    → loop ≡ more
    → (if direct
        then true
        else if star
        then (if short then false else if same then true else loop)
        else loop)
      ≡ (direct || (star && (not short && same))) || more
round_cases true star short same more loop h e = refl
round_cases false true true same more loop h e = absurd (false≢true h)
round_cases false true false true more loop h e = refl
round_cases false true false false more loop h e = e
round_cases false false short same more loop h e = e

less_one : (n : ℕ) → suc n - 1 ≡ n
less_one n = omega arith

-- One round of the loop, at a pattern of m bytes and one more.
match_round :
    (path : Text) (c : ℕ) (p : Text) (m : ℕ) (rest more : Bool)
    → m ≡ length p
    → not (ends_in_star (c ∷ p) && ltb (length path) m) ≡ true
    → rest ≡ more
    → (if text_eq path (c ∷ p) || text_eq (c ∷ p) (codes "/*")
        then true
        else if ends_in_star (c ∷ p)
        then (if ltb (length path) m
            then false
            else if text_eq (take m path) (take m (c ∷ p))
            then true
            else rest)
        else rest)
      ≡ matches path (c ∷ p) || more
match_round path c p m rest more e h r =
    let g = subst (λ n. not (ends_in_star (c ∷ p) && ltb (length path) n) ≡ true) e h in
    rw e (
      rw (star_match-take path c p) (
        round_cases (text_eq path (c ∷ p) || text_eq (c ∷ p) (codes "/*")) (ends_in_star (c ∷ p))
          (ltb (length path) (length p)) (text_eq (take (length p) path) (take (length p) (c ∷ p)))
          more rest g r))

empty_round :
    (direct rest more : Bool)
    → rest ≡ more
    → (if direct then true else rest) ≡ (direct || false) || more
empty_round true rest more e = refl
empty_round false rest more e = e

match_loop-any :
    (path : Text) (ps : List Text) → reaches path ps ≡ true → match_loop path ps ≡ any_match path ps
unfolding match_loop
match_loop-any path [] h = refl
match_loop-any path ([] ∷ ps) h =
    empty_round (text_eq path [] || false) _ _ (match_loop-any path ps h)
match_loop-any path ((c ∷ p) ∷ ps) h =
    let (fits, others) =
      both_true (not (ends_in_star (c ∷ p) && ltb (length path) (suc (length p) - 1)))
        (reaches path ps) h in
    match_round path c p (suc (length p) - 1) (match_loop path ps) (any_match path ps)
      (less_one (length p)) fits (match_loop-any path ps others)

-- A path that is as long as what stands before the star of each pattern is for a filter exactly if
-- the filter has no patterns or the path matches one of them: it is equal to it, the pattern is
-- "/*", or the path begins with what stands before the pattern's star.
pub match_filter_url-any :
    (path : Text) (ps : List Text)
    → reaches path ps ≡ true
    → match_filter_url path ps ≡ is_nil ps || any_match path ps
unfolding match_filter_url
match_filter_url-any path [] h = refl
match_filter_url-any path (p ∷ ps) h = match_loop-any path (p ∷ ps) h
