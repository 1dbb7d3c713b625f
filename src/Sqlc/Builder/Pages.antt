-- ===== src/Sqlc/Builder/Pages.antt =====
-- The pages of Limit, Offset and FastPage, and the statement that the MySQL dialect makes of them.
use freego.Prelude.{
  ℕ, suc, ◌+◌, ◌-◌, ◌*◌, ◌%◌, ◌^◌, ◌≤◌, ◌<◌, ℤ, pos, negsuc, pos_part, ◌≤ℤ◌, ◌-ℤ◌, ◌*ℤ◌, leb_ℤ,
  ltb_ℤ, leb, ltb, wrap64, Bool, true, false, ◌||◌, if◌then◌else◌, ◌≡◌, refl, ap, ◌∙◌, sym, arith,
}
use mathlib.Core.Path.{subst}
use native.Mathlib.Nat.{mul-le-mul_left}
use freego.Dialect.{Dialect, limit_offset}
use freego.Sqlc.Cnd.{Cnd}
use freego.Sqlc.Builder.{page_size_or_default, limit}

-- Between 1 and 5000.
abbrev pub IsPageSize : ℤ → Type 0
IsPageSize n = (pos 1 ≤ℤ n) × (n ≤ℤ pos 5000)

by_test :
    (n : ℕ) (b : Bool)
    → (leb_ℤ (pos n) (pos 0) || ltb_ℤ (pos 5000) (pos n)) ≡ b
    → IsPageSize (if b then pos 50 else pos n)
by_test n true h = (omega arith, omega arith)
by_test n false h = (ground (arith, h), ground (arith, h))

below_zero : (n : ℕ) (b : Bool) → leb_ℤ (negsuc n) (pos 0) ≡ b → b ≡ true
below_zero n b h = ground (arith, h)

pub default-IsPageSize : (n : ℤ) → IsPageSize (page_size_or_default n)
default-IsPageSize (pos n) = by_test n _ refl
default-IsPageSize (negsuc n) =
    subst (λ b. IsPageSize (if b || ltb_ℤ (pos 5000) (negsuc n) then pos 50 else negsuc n))
      (sym (below_zero n _ refl)) (omega arith, omega arith)

wrap_mod : (n : ℕ) → n < 2 ^ 63 → (n + (2 ^ 64 - 0 % 2 ^ 64)) % 2 ^ 64 ≡ n
wrap_mod n h = omega arith

pub wrap64_small : (n : ℕ) → n < 2 ^ 63 → wrap64 (pos n) ≡ pos n
unfolding wrap64
wrap64_small n h = let l : ltb n (2 ^ 63) ≡ true = ground arith in rw (wrap_mod n h) (rw l refl)

sub_one : (p : ℕ) → (pos (suc p) -ℤ pos 1) ≡ pos p
unfolding ◌-ℤ◌
sub_one p =
    let l : leb (0 + 1) (suc p + 0) ≡ true = ground arith in
    let e : suc p + 0 - (0 + 1) ≡ p = omega arith in rw l (ap pos e)

mul_pos : (p n : ℕ) → (pos p *ℤ pos n) ≡ pos (p * n)
unfolding ◌*ℤ◌
mul_pos p n =
    let a : p * 0 + 0 * n ≡ 0 = omega arith in
    let b : p * n + 0 * 0 - 0 ≡ p * n = omega arith in
    let l : leb 0 (p * n + 0 * 0) ≡ true = ground arith in rw a (rw l (ap pos b))

-- The offset of the page p + 1 of n rows each.
page_offset :
    (d : Dialect) (p n : ℕ)
    → d.is_offset ≡ false
    → d.page_no ≡ pos (suc p)
    → d.page_size ≡ pos n
    → p < 2 ^ 63
    → p * n < 2 ^ 63
    → limit_offset d ≡ pos (p * n)
unfolding limit_offset
page_offset d p n o e f k h =
    ap (λ b. if b then d.page_no else wrap64 (wrap64 (d.page_no -ℤ pos 1) *ℤ d.page_size)) o
    ∙ ap (λ x. wrap64 (wrap64 (x -ℤ pos 1) *ℤ d.page_size)) e
    ∙ ap (λ y. wrap64 (wrap64 (pos (suc p) -ℤ pos 1) *ℤ y)) f
    ∙ ap (λ x. wrap64 (wrap64 x *ℤ pos n)) (sub_one p)
    ∙ ap (λ x. wrap64 (x *ℤ pos n)) (wrap64_small p k)
    ∙ ap wrap64 (mul_pos p n)
    ∙ wrap64_small (p * n) h

rows_fit : (p n : ℕ) → p < 1844674407370955 → n ≤ 5000 → p * n < 2 ^ 63
rows_fit p n h k = omega (arith, mul-le-mul_left p k)

sized_offset :
    (d : Dialect) (p : ℕ) (size : ℤ)
    → p < 1844674407370955
    → d.is_offset ≡ false
    → d.page_no ≡ pos (suc p)
    → d.page_size ≡ size
    → IsPageSize size
    → IsPageSize d.page_size × (limit_offset d ≡ pos (p * pos_part d.page_size))
sized_offset d p (negsuc n) h o e f s = absurd (omega (arith, s.0))
sized_offset d p (pos n) h o e f s =
    let b : p < 2 ^ 63 = omega (arith, h) in
    (
      subst IsPageSize (sym f) s,
      page_offset d p n o e f b (rows_fit p n h (omega (arith, s.1)))
          ∙ ap (λ z. pos (p * pos_part z)) (sym f),
    )

page_no : (p : ℕ) → (if leb_ℤ (pos (suc p)) (pos 0) then pos 1 else pos (suc p)) ≡ pos (suc p)
page_no p = let l : leb_ℤ (pos (suc p)) (pos 0) ≡ false = ground arith in rw l refl

-- A builder limited to a page of number p + 1 has a page size between 1 and 5000, whatever size was
-- asked for, and the MySQL dialect skips p full pages: for p below 1844674407370955 its offset does
-- not overflow.
pub limit_offset-limit :
    (p : ℕ) (size : ℤ) (c : Cnd)
    → p < 1844674407370955
    → IsPageSize (limit (pos (suc p)) size c).pagination.page_size
      × (limit_offset (limit (pos (suc p)) size c).pagination
          ≡ pos (p * pos_part (limit (pos (suc p)) size c).pagination.page_size))
unfolding limit
limit_offset-limit p size c h =
    sized_offset (limit (pos (suc p)) size c).pagination p (page_size_or_default size) h refl
      (page_no p) refl (default-IsPageSize size)
