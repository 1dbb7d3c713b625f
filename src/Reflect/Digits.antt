-- ===== src/Reflect/Digits.antt =====
-- Reading back what strconv.FormatInt writes.
use freego.Prelude.{
  ℕ, zero, suc, ◌+◌, ◌-◌, ◌*◌, ◌/◌, ◌%◌, ◌^◌, ◌<◌, ◌≤◌, ℤ, pos, negsuc, ltb, ◌==◌, Text, digits,
  format_int, false, some, [], ◌∷◌, ◌++◌, ◌≡◌, refl, ap, ◌∙◌, arith, Bool-cases, inl, inr, ◌≤ℤ◌,
}
use mathlib.Core.Path.{subst}
use freego.Errors.{done}
use freego.Reflect.{parse_digits, new_int64, not_negative, negative}

-- A run of digits, and one digit behind it.
parse_digits-snoc :
    (s : Text) (n m d : ℕ)
    → d < 10
    → parse_digits n s ≡ some m
    → parse_digits n (s ++ (48 + d) ∷ []) ≡ some (m * 10 + d)
unfolding parse_digits
parse_digits-snoc [] n m d h e = ground arith
parse_digits-snoc (c ∷ s) n m d h e = ground (arith, parse_digits-snoc s (n * 10 + (c - 48)) m d h)

one_digit : (n : ℕ) → n < 10 → parse_digits 0 ((48 + n) ∷ []) ≡ some n
unfolding parse_digits
one_digit n h = ground arith

parse_digits-digits : (fuel n : ℕ) → n < fuel → parse_digits 0 (digits fuel n) ≡ some n
unfolding digits
parse_digits-digits zero n h = absurd (omega arith)
parse_digits-digits (suc fuel) n h = elim (Bool-cases (ltb n 10)) [
  | inl small ↦ rw small (one_digit n (ground arith))
  | inr large ↦ rw large (
      parse_digits-snoc (digits fuel (n / 10)) 0 (n / 10) (n % 10) (omega arith)
        (parse_digits-digits fuel (n / 10) (ground arith))
      ∙ ap some (omega arith))
]

snoc_cons : (s : Text) (c : ℕ) → (d : ℕ) × (t : Text) × (s ++ c ∷ [] ≡ d ∷ t)
snoc_cons [] c = (c, [], refl)
snoc_cons (x ∷ s) c = (x, s ++ c ∷ [], refl)

digits_cons : (fuel n : ℕ) → (d : ℕ) × (t : Text) × (digits (suc fuel) n ≡ d ∷ t)
unfolding digits
digits_cons fuel n = elim (Bool-cases (ltb n 10)) [
  | inl small ↦ (48 + n, [], rw small)
  | inr large ↦ rw large (snoc_cons (digits fuel (n / 10)) (48 + n % 10))
]

-- A text that starts with a digit has no sign.
not_sign :
    (d : ℕ) (t : Text) (m : ℕ)
    → parse_digits 0 (d ∷ t) ≡ some m
    → ((d == b'-') ≡ false) × ((d == b'+') ≡ false)
unfolding parse_digits
not_sign d t m h = ground arith

within : (s : Text) (n : ℕ) → n < 2 ^ 63 → not_negative s (some n) ≡ done (pos n)
unfolding not_negative
within s n h = ground arith

below : (s : Text) (n : ℕ) → suc n ≤ 2 ^ 63 → negative s (some (suc n)) ≡ done (negsuc n)
unfolding negative
below s n h = ground arith

signed :
    (s : Text) (d : ℕ) (t : Text) (n : ℕ)
    → s ≡ d ∷ t
    → parse_digits 0 s ≡ some (suc n)
    → suc n ≤ 2 ^ 63
    → new_int64 (b'-' ∷ s) ≡ done (negsuc n)
unfolding new_int64
signed s d t n e p h =
    let q = subst (λ u. parse_digits 0 u ≡ some (suc n)) e p in
    rw e (rw q (below (b'-' ∷ d ∷ t) n h))

unsigned :
    (s : Text) (d : ℕ) (t : Text) (n : ℕ)
    → s ≡ d ∷ t
    → parse_digits 0 s ≡ some n
    → n < 2 ^ 63
    → new_int64 s ≡ done (pos n)
unfolding new_int64
unsigned s d t n e p h =
    let q = subst (λ u. parse_digits 0 u ≡ some n) e p in
    let f = not_sign d t n q in rw e (rw (f.0, f.1, q) (within (d ∷ t) n h))

-- NewInt64 reads what FormatInt writes of an int64.
pub new_int64-format_int :
    (z : ℤ) → negsuc (2 ^ 63 - 1) ≤ℤ z → z ≤ℤ pos (2 ^ 63 - 1) → new_int64 (format_int z) ≡ done z
unfolding format_int
new_int64-format_int (pos n) lo hi =
    let c = digits_cons n n in
    unsigned (digits (suc n) n) c.0 c.1 n c.2 (parse_digits-digits (suc n) n (omega arith))
      (omega arith)
new_int64-format_int (negsuc n) lo hi =
    let c = digits_cons (suc n) (suc n) in
    signed (digits (suc (suc n)) (suc n)) c.0 c.1 n c.2
      (parse_digits-digits (suc (suc n)) (suc n) (omega arith)) (omega arith)
