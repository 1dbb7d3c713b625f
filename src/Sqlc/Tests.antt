-- ===== src/Sqlc/Tests.antt =====
-- Calls of a builder, and the theorems at these inputs.
use freego.Prelude.{
  ◌*◌, pos, pos_part, length, Text, codes, ◌==◌, ◌≡◌, arith, not, ◌||◌, none, List, [], ◌∷◌,
  if◌then◌else◌,
}
use freego.Dialect.{limit_offset}
use freego.Sqlc.Value.{Value, int}
use freego.Sqlc.Cnd.{new_cnd}
use freego.Sqlc.Builder.{limit, upset}
use freego.Sqlc.Builder.Upsets.{lookup, last_given, or_old, lookup-upset}
use freego.Sqlc.Builder.Pages.{IsPageSize, limit_offset-limit}

-- Asked for 9000 rows, the page has 50.
limit_offset-limit_example :
    IsPageSize (limit (pos 3) (pos 9000) (new_cnd none)).pagination.page_size
    × (limit_offset (limit (pos 3) (pos 9000) (new_cnd none)).pagination
        ≡ pos (2 * pos_part (limit (pos 3) (pos 9000) (new_cnd none)).pagination.page_size))
limit_offset-limit_example = limit_offset-limit 2 (pos 9000) (new_cnd none) (omega arith)

abbrev keys : List Text
keys = codes "a" ∷ (codes "b" ∷ (codes "a" ∷ []))

abbrev values : List Value
values = int (pos 1) ∷ (int (pos 2) ∷ (int (pos 3) ∷ []))

lookup-upset_example : lookup (codes "a") (upset keys values (new_cnd none)).upsets ≡ (
    if length values == 0 || (length keys == 0 || not (length keys == length values))
    then lookup (codes "a") (new_cnd none).upsets
    else or_old (last_given (codes "a") keys values) (lookup (codes "a") (new_cnd none).upsets))
lookup-upset_example = lookup-upset (codes "a") keys values (new_cnd none)
