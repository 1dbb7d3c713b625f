-- ===== src/Mongo/Options/Limits.antt =====
-- The skip and the limit of a MongoDB query, and the page of the relational one.
use freego.Prelude.{
  ℤ, pos, ltb_ℤ, eq_ℤ, leb_ℤ, ◌-ℤ◌, ◌*ℤ◌, wrap64, ◌≡◌, refl, Bool, true, false, ◌&&◌, if◌then◌else◌,
}
use freego.Dialect.{Dialect, limit_offset}
use freego.Sqlc.Cnd.{Cnd}
use freego.Sqld.Query.{sized}
use freego.Mongo.Options.{build_mongo_limit}

pair_if :
    (o : Bool) (p q s : ℤ) → ◌≡◌ {A = ℤ × ℤ} (if o then (p, s) else (q, s)) (if o then p else q, s)
pair_if true p q s = refl
pair_if false p q s = refl

page_case :
    (d : Dialect) (b : Bool)
    → ◌≡◌ {A = ℤ × ℤ}
        (let size = if b then pos 10 else d.page_size in
          (if d.is_offset
            then (d.page_no, size)
            else (wrap64 (wrap64 (d.page_no -ℤ pos 1) *ℤ size), size)))
        (
          limit_offset (if b then record d { page_size = pos 10 } else d),
          (if b then record d { page_size = pos 10 } else d).page_size,
        )
unfolding limit_offset
page_case d true = pair_if d.is_offset d.page_no _ (pos 10)
page_case d false = pair_if d.is_offset d.page_no _ d.page_size

after_tests :
    (s t : Bool) (a b c d : ℤ × ℤ)
    → s ≡ false
    → t ≡ false
    → c ≡ d
    → (if s then a else if t then b else c) ≡ d
after_tests true t a b c d h k e = absurd cc
after_tests false true a b c d h k e = absurd cc
after_tests false false a b c d h k e = e

-- Without a size of the result and for a page that is not (0, 0), a MongoDB query passes over as
-- many documents as the `limit` of the MySQL dialect passes over rows, and reads at most as many,
-- for pages by number and by offset and also where the product overflows.
pub build_mongo_limit-limit_offset :
    (c : Cnd)
    → ltb_ℤ (pos 0) c.limit_size ≡ false
    → (eq_ℤ c.pagination.page_no (pos 0) && eq_ℤ c.pagination.page_size (pos 0)) ≡ false
    → ◌≡◌ {A = ℤ × ℤ}
        (build_mongo_limit c)
        (limit_offset (sized c.pagination), (sized c.pagination).page_size)
unfolding build_mongo_limit sized
build_mongo_limit-limit_offset c h k =
    after_tests _ _ _ _ _ _ h k (page_case c.pagination (leb_ℤ c.pagination.page_size (pos 0)))
