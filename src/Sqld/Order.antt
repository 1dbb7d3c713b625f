-- ===== src/Sqld/Order.antt =====
-- ormx/sqld/base_manager.go: BuildGroupBy and BuildSortBy of RDBManager.
pub mod Texts
use freego.Prelude.{
  pos, eq_ℤ, Text, codes, Go, ok, trim_end, Bool, true, false, Option, none, some, List, [], ◌∷◌,
  ◌++◌, if◌then◌else◌,
}
use freego.Sqlc.Value.{Value, int, Condition, condit}
use freego.Sqlc.Cnd.{Cnd}
use freego.Sqld.Delete.{is_empty}

-- One field, behind a space, in backquotes if the builder escapes.
unfoldable pub field_key : Bool → Text → Text
field_key escape v = if escape then codes " `" ++ (v ++ codes "`") else codes " " ++ v

-- The loop of BuildGroupBy, which passes over empty names.
unfoldable pub group_loop : Bool → List Text → Text
unfolding field_key
group_loop escape [] = []
group_loop escape (v ∷ vs) =
    let rest = group_loop escape vs in
    if is_empty v then rest else (field_key escape v ++ codes ",") ++ rest

-- BuildGroupBy
unfoldable pub build_group_by : Option Cnd → Go Text
unfolding group_loop
build_group_by none = ok []
build_group_by (some c) =
    if is_empty c.groupbys
    then ok []
    else trim_end 1 (codes " group by" ++ group_loop c.escape c.groupbys)

-- What is written behind the field for DESC_ and ASC_; nothing for another value.
unfoldable pub direction : Value → Text
direction (int n) =
    if eq_ℤ n (pos 2) then codes " desc," else if eq_ℤ n (pos 1) then codes " asc," else []
direction _ = []

-- The loop of BuildSortBy.
unfoldable pub sort_loop : Bool → List Condition → Text
unfolding field_key direction
sort_loop escape [] = []
sort_loop escape (condit logic key v values alias ∷ vs) =
    (field_key escape key ++ direction v) ++ sort_loop escape vs

-- BuildSortBy
unfoldable pub build_sort_by : Option Cnd → Go Text
unfolding sort_loop
build_sort_by none = ok []
build_sort_by (some c) =
    if is_empty c.orderbys
    then ok []
    else trim_end 1 (codes " order by" ++ sort_loop c.escape c.orderbys)
