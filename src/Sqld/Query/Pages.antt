-- ===== src/Sqld/Query/Pages.antt =====
-- The number of pages of a count.
use freego.Prelude.{
  ℕ, ◌+◌, ◌*◌, ◌/◌, ◌%◌, ◌^◌, ◌≤◌, ◌<◌, pos, ◌+ℤ◌, quot_ℤ, rem_ℤ, wrap64, eq_ℤ, ◌==◌, ok, ◌≡◌, refl,
  ap, ◌∙◌, arith, Bool, true, false, if◌then◌else◌,
}
use native.Mathlib.Nat.{div-add-mod, mod-lt, mul_comm}
use freego.Sqlc.Builder.Pages.{wrap64_small}
use freego.Sqld.Query.{page_count}

-- The total fits on the pages, and no page is empty.
abbrev pub IsPageCount : ℕ → ℕ → ℕ → Type 0
IsPageCount total size n = (total ≤ n * size) × (n * size < total + size)

full_pages : (q r s t : ℕ) → s * q + r ≡ t → r ≡ 0 → 0 < s → IsPageCount t s q × (q ≤ t)
full_pages q r s t e z h = grind (arith, mul_comm s q)

part_page : (q r s t : ℕ) → s * q + r ≡ t → 0 < r → r < s → IsPageCount t s (q + 1) × (q + 1 ≤ t)
part_page q r s t e z h = grind (arith, mul_comm s q)

add_one : (q : ℕ) → (pos q +ℤ pos 1) ≡ pos (q + 1)
unfolding ◌+ℤ◌
add_one q = ground arith

page_test :
    (t s : ℕ) (b : Bool)
    → 0 < s
    → t < 2 ^ 63
    → (t % s == 0) ≡ b
    → (n : ℕ) × ((if b then pos (t / s) else pos (t / s) +ℤ pos 1) ≡ pos n)
      × (n < 2 ^ 63)
      × IsPageCount t s n
page_test t s true h l e =
    let f = full_pages (t / s) (t % s) s t (div-add-mod t s) (ground arith) h in
    (t / s, refl, omega arith, f.0)
page_test t s false h l e =
    let f = part_page (t / s) (t % s) s t (div-add-mod t s) (ground arith) (mod-lt t h) in
    (t / s + 1, add_one (t / s), omega arith, f.0)

eq_pos : (x : ℕ) → eq_ℤ (pos x) (pos 0) ≡ (x == 0)
eq_pos x = ground arith

not_zero : (x : ℕ) → 0 < x → eq_ℤ (pos x) (pos 0) ≡ false
not_zero x h = ground arith

-- For a positive size, and a total below 2 ^ 63, the pages are as many as the total fills, the last
-- of them maybe in part.
pub page_count-IsPageCount :
    (total size : ℕ)
    → 0 < size
    → total < 2 ^ 63
    → (n : ℕ) × (page_count (pos total) (pos size) ≡ ok (pos n)) × IsPageCount total size n
unfolding page_count quot_ℤ rem_ℤ
page_count-IsPageCount total size h l =
    let p = page_test total size (total % size == 0) h l refl in
    (
      p.0,
      rw (not_zero size h)
          (rw (eq_pos (total % size)) (ap ok (ap wrap64 p.1 ∙ wrap64_small p.0 p.2))),
      p.3,
    )
