-- ===== src/Prelude/Bytes.antt =====
-- Go strings as lists of bytes, panics, and utils.Substr.
use Prim.Native.Nat.{ℕ, suc, zero, ◌+◌, ◌-◌, ◌/◌, ◌%◌, ◌^◌, ◌≤◌, ◌<◌}
use Prim.Native.Char.{code}
use Prim.Native.String.{String}
use mathlib.Core.Path.{◌≡◌, refl, ap, ◌∙◌}
use mathlib.Core.Bool.{Bool, true, false, ◌&&◌, false≢true}
use mathlib.Core.List.{List, [], ◌∷◌, ◌++◌}
use native.Mathlib.Omega.{arith}
use freego.Prelude.Tests.{leb, ltb, ◌==◌, if◌then◌else◌, leb_of_le}
use freego.Prelude.Lists.{length, take, drop, length-append, take-append}
use freego.Prelude.Int.{ℤ, pos, negsuc, sub_ℕ, pos_part, neg_part}

abbrev pub Text : Type 0
Text = List ℕ

-- The bytes of an ASCII literal.
abbrev pub codes : String → Text
codes String.[] = []
codes (String.◌∷◌ c s) = code c ∷ codes s

abbrev pub text_eq : Text → Text → Bool
text_eq [] [] = true
text_eq (a ∷ s) (b ∷ t) = a == b && text_eq s t
text_eq _ _ = false

eq_refl : (a : ℕ) → (a == a) ≡ true
eq_refl a = ground arith

eq_of_eq : (a b : ℕ) → (a == b) ≡ true → a ≡ b
eq_of_eq a b h = ground arith

pub both_true : (a b : Bool) → (a && b) ≡ true → (a ≡ true) × (b ≡ true)
both_true a b h = ground arith

pub text_eq_refl : (s : Text) → text_eq s s ≡ true
text_eq_refl [] = refl
text_eq_refl (c ∷ s) = rw (eq_refl c) (text_eq_refl s)

pub eq_of_text_eq : (s t : Text) → text_eq s t ≡ true → s ≡ t
eq_of_text_eq [] [] h = refl
eq_of_text_eq [] (_ ∷ _) h = absurd (false≢true h)
eq_of_text_eq (_ ∷ _) [] h = absurd (false≢true h)
eq_of_text_eq (a ∷ s) (b ∷ t) h =
    let (p, q) = both_true (a == b) (text_eq s t) h in
    rw (eq_of_eq a b p) (ap (λ u. b ∷ u) (eq_of_text_eq s t q))

-- What a Go call does: it panics, or it returns.
pub data Go {ℓ} (A : Type ℓ) : Type ℓ where
  panic : Go A
  ok : A → Go A

infixl 5 ◌>>=◌
abbrev pub ◌>>=◌ {ℓ κ} : {A : Type ℓ} {B : Type κ} → Go A → (A → Go B) → Go B
panic >>= f = panic
ok a >>= f = f a

-- utils.Substr: `str[start:end]`, which panics when the bounds are not in order or not in range.
unfoldable pub substr : Text → ℤ → ℤ → Go Text
substr s (pos start) (pos stop) =
    if leb start stop && leb stop (length s) then ok (drop start (take stop s)) else panic
substr s (pos start) (negsuc n) = panic
substr s (negsuc n) stop = panic

-- `utils.Substr(s, 0, len(s)-k)`, the one way in which the SQL builders call it.
unfoldable pub trim_end : ℕ → Text → Go Text
unfolding substr
trim_end k s = substr s (pos 0) (sub_ℕ (length s) k)

substr_prefix : (s : Text) (m : ℕ) → m ≤ length s → substr s (pos 0) (pos m) ≡ ok (take m s)
unfolding substr
substr_prefix s m h = rw (leb_of_le 0 m (omega arith), leb_of_le m (length s) h)

-- Trimming the last k bytes of a text that ends in k bytes of its own.
pub trim_end-append : (k : ℕ) (s t : Text) → length t ≡ k → trim_end k (s ++ t) ≡ ok s
unfolding trim_end
trim_end-append k s t h =
    let e : sub_ℕ (length (s ++ t)) k ≡ pos (length s) = ground (arith, length-append s t) in
    ap (substr (s ++ t) (pos 0)) e
    ∙ substr_prefix (s ++ t) (length s) (omega (arith, length-append s t))
    ∙ ap ok (take-append s t)

-- A text of fewer than k bytes has no k bytes to trim.
pub trim_end-short : (k : ℕ) (s : Text) → length s < k → trim_end k s ≡ panic
unfolding trim_end
trim_end-short k s h =
    let e : sub_ℕ (length s) k ≡ negsuc (k - length s - 1) = ground arith in
    ap (substr s (pos 0)) e ∙ unfold substr in refl

-- The decimal digits of n; n / 10 ^ fuel is 0 when the fuel is n + 1.
unfoldable pub digits : ℕ → ℕ → Text
digits zero n = []
digits (suc fuel) n =
    let rest = digits fuel (n / 10) in
    if ltb n 10 then (48 + n) ∷ [] else rest ++ (48 + n % 10) ∷ []

-- strconv.FormatInt(z, 10)
unfoldable pub format_int : ℤ → Text
unfolding digits
format_int (pos n) = digits (suc n) n
format_int (negsuc n) = b'-' ∷ digits (suc (suc n)) (suc n)

-- An int64 result keeps its low 64 bits, read in two's complement.
unfoldable pub wrap64 : ℤ → ℤ
wrap64 z =
    let u = (pos_part z + (2 ^ 64 - neg_part z % 2 ^ 64)) % 2 ^ 64 in
    if ltb u (2 ^ 63) then pos u else negsuc (2 ^ 64 - u - 1)
