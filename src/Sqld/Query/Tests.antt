-- ===== src/Sqld/Query/Tests.antt =====
-- The theorems on columns and queries at a small model.
use freego.Prelude.{
  wrap64, rem_ℤ, ◌+ℤ◌, quot_ℤ, ℕ, pos, codes, format_int, ok, ◌≡◌, refl, arith, true, false, some,
  [], ◌∷◌,
}
use freego.Errors.{done}
use freego.Sqlc.Value.{int}
use freego.Sqlc.Object.{set_field}
use freego.Sqld.Model.{int32_kind, FieldElem, get_value}
use freego.Sqld.Model.Reading.{set_value}
use freego.Sqld.Model.Columns.{set_value-get_value}
use freego.Sqld.Exec.Adds.{Adds}
use freego.Sqld.Query.{page_count, read_fields}
use freego.Sqld.Query.Count.{count, exists}
use freego.Sqld.Query.Find.{slice, find_one, find_list}
use freego.Sqld.Query.Selections.{IsQuery, count-exists-IsQuery}
use freego.Sqld.Query.Listings.{IsTopRow, find_one-IsTopRow}
use freego.Sqld.Query.Lists.{IsListing, find_list-IsListing}
use freego.Sqld.Query.Pages.{IsPageCount, page_count-IsPageCount}
use freego.Sqld.Query.Fields.{assign, Fails, read_fields-all, ignored_field-Fails}
use freego.Sqld.Tests.{test_env, test_runtime, user, user_cnd, listing, id_elem, name_elem}

abbrev age_elem : FieldElem
age_elem = record id_elem { field_kind = int32_kind }

set_value-get_value_example :
    (get_value test_runtime user age_elem ≡ done (int (pos 3)))
    × (set_value test_runtime user age_elem (some (format_int (pos 3)))
        ≡ done (set_field user 0 (int (pos 3))))
set_value-get_value_example =
    set_value-get_value test_runtime user user age_elem (pos 3) refl refl (omega arith, omega arith)

count-exists-IsQuery_example :
    Adds (IsQuery (codes "select count(1) from ") [] test_env user_cnd) (count test_env user_cnd)
    × Adds
        (IsQuery
          (codes "select exists(select 1 from ")
          (codes " limit 1  ) as pub_exists")
          test_env
          user_cnd)
        (exists test_env user_cnd)
count-exists-IsQuery_example = count-exists-IsQuery test_env user_cnd

find_one-IsFirst_example :
    Adds (IsTopRow test_env user_cnd user) (find_one test_env user_cnd (some user))
find_one-IsFirst_example = find_one-IsTopRow test_env user_cnd user

find_list-IsListing_example :
    Adds (IsListing test_env listing) (find_list test_env listing (slice []))
find_list-IsListing_example = find_list-IsListing test_env listing (slice [])

page_count-IsPageCount_example :
    (n : ℕ) × (page_count (pos 41) (pos 20) ≡ ok (pos n)) × IsPageCount 41 20 n
page_count-IsPageCount_example = page_count-IsPageCount 41 20 (omega arith) (omega arith)

three_pages : page_count (pos 41) (pos 20) ≡ ok (pos 3)
unfolding page_count wrap64 rem_ℤ ◌+ℤ◌ quot_ℤ
three_pages = refl

read_fields-all_example :
    read_fields test_runtime false
      (some (codes "3") ∷ (some (codes "ann") ∷ []))
      (id_elem ∷ (name_elem ∷ []))
      0
      user
    ≡ ok (
        assign test_runtime false
          (id_elem ∷ (name_elem ∷ []))
          (some (codes "3") ∷ (some (codes "ann") ∷ []))
          user)
read_fields-all_example =
    read_fields-all test_runtime false (some (codes "3") ∷ (some (codes "ann") ∷ []))
      (id_elem ∷ (name_elem ∷ [])) user refl refl

abbrev ignored_elem : FieldElem
ignored_elem = record id_elem { ignore = true }

ignored_field-Fails_example : Fails (
    read_fields test_runtime false
      (some (codes "ann") ∷ [])
      (ignored_elem ∷ (name_elem ∷ []))
      0
      user)
ignored_field-Fails_example =
    ignored_field-Fails test_runtime false (some (codes "ann") ∷ [])
      (ignored_elem ∷ (name_elem ∷ [])) user refl refl refl
