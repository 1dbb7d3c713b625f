-- ===== src/Sqlc/Builder.antt =====
-- ormx/sqlc/cnd.go: the methods of Cnd. A method returns its receiver after mutating it.
pub mod Upsets
pub mod Pages
use freego.Prelude.{
  ◌>>=◌, ℤ, pos, Text, codes, text_eq, Go, panic, ok, Bool, true, false, not, ◌||◌, Option, none,
  some, List, [], ◌∷◌, ◌++◌, length, ◌==◌, eq_ℤ, leb_ℤ, ltb_ℤ, if◌then◌else◌,
}
use freego.Dialect.{zero_dialect, PageResult, get_result}
use freego.Sqlc.Value.{
  Logic, eq, not_eq, lt, lte, gt, gte, is_null, is_not_null, between, between2, not_between, in_,
  not_in, like, not_like, or_, order_by, Value, nil, int, Values, no_value, value, Condition,
  condit, is_nil, append_condition,
}
use freego.Sqlc.Cnd.{Cnd, Collation, CacheConfig}

-- addDefaultCondit
unfoldable pub add_default_condit : Cnd → Condition → Cnd
add_default_condit c d = record c { conditions = append_condition c.conditions d }

unfoldable pub un_escape : Cnd → Cnd
un_escape c = record c { escape = false }

-- The shared body of Eq, NotEq, Lt, Lte, Gt, Gte, Like and NotLike.
unfoldable pub compare_condit : Logic → Text → Value → Cnd → Cnd
unfolding add_default_condit
compare_condit logic key v c =
    if is_nil v then c else add_default_condit c (condit logic key v no_value [])

module _ (key : Text) (v : Value) where
  unfoldable pub eq_condit : Cnd → Cnd
  unfolding compare_condit
  eq_condit = compare_condit eq key v

  unfoldable pub not_eq_condit : Cnd → Cnd
  unfolding compare_condit
  not_eq_condit = compare_condit not_eq key v

  unfoldable pub lt_condit : Cnd → Cnd
  unfolding compare_condit
  lt_condit = compare_condit lt key v

  unfoldable pub lte_condit : Cnd → Cnd
  unfolding compare_condit
  lte_condit = compare_condit lte key v

  unfoldable pub gt_condit : Cnd → Cnd
  unfolding compare_condit
  gt_condit = compare_condit gt key v

  unfoldable pub gte_condit : Cnd → Cnd
  unfolding compare_condit
  gte_condit = compare_condit gte key v

  unfoldable pub like_condit : Cnd → Cnd
  unfolding compare_condit
  like_condit = compare_condit like key v

  unfoldable pub not_like_condit : Cnd → Cnd
  unfolding compare_condit
  not_like_condit = compare_condit not_like key v

unfoldable pub is_null_condit : Text → Cnd → Cnd
unfolding add_default_condit
is_null_condit key = λ c. add_default_condit c (condit is_null key nil no_value [])

unfoldable pub is_not_null_condit : Text → Cnd → Cnd
unfolding add_default_condit
is_not_null_condit key = λ c. add_default_condit c (condit is_not_null key nil no_value [])

-- The shared body of Between, InDate and NotBetween.
unfoldable pub range_condit : Logic → Text → Value → Value → Cnd → Cnd
unfolding add_default_condit
range_condit logic key value1 value2 c =
    if is_nil value1 || is_nil value2
    then c
    else add_default_condit c (condit logic key nil (value value1 (value value2 no_value)) [])

unfoldable pub between_condit : Text → Value → Value → Cnd → Cnd
unfolding range_condit
between_condit = range_condit between

unfoldable pub in_date : Text → Value → Value → Cnd → Cnd
unfolding range_condit
in_date = range_condit between2

unfoldable pub not_between_condit : Text → Value → Value → Cnd → Cnd
unfolding range_condit
not_between_condit = range_condit not_between

-- `values == nil || len(values) == 0`
abbrev pub no_values : Values → Bool
no_values no_value = true
no_values _ = false

-- The shared body of In, NotIn and Or.
unfoldable pub list_condit : Logic → Text → Values → Cnd → Cnd
unfolding add_default_condit
list_condit logic key values c =
    if no_values values then c else add_default_condit c (condit logic key nil values [])

unfoldable pub in_condit : Text → Values → Cnd → Cnd
unfolding list_condit
in_condit = list_condit in_

unfoldable pub not_in_condit : Text → Values → Cnd → Cnd
unfolding list_condit
not_in_condit = list_condit not_in

unfoldable pub or_condit : Values → Cnd → Cnd
unfolding list_condit
or_condit = list_condit or_ []

abbrev is_empty : Text → Bool
is_empty [] = true
is_empty _ = false

unfoldable pub add_other : Text → Cnd → Cnd
add_other part c =
    if is_empty part then c else record c { condit_part = c.condit_part ++ part ∷ [] }

unfoldable pub from : Text → Cnd → Cnd
from table c = record c { from_cond = some (record { table = table; alias = [] }) }

unfoldable pub join : Logic → Text → Text → Cnd → Cnd
join type table on c = if is_empty table || is_empty on then c else record c {
  join_cond = c.join_cond ++ record { type = type; table = table; alias = []; on = on } ∷ [];
}

-- Collation; an empty locale of the argument is set to "zh".
unfoldable pub collation : Option Collation → Cnd → Cnd
collation none c = c
collation (some co) c = record c {
  collation_config = some (if is_empty co.locale then record co { locale = codes "zh" } else co);
}

-- `size <= 0 || size > 5000` gives 50.
abbrev pub page_size_or_default : ℤ → ℤ
page_size_or_default n = if leb_ℤ n (pos 0) || ltb_ℤ (pos 5000) n then pos 50 else n

unfoldable pub limit : ℤ → ℤ → Cnd → Cnd
limit page_no page_size c = record c {
  pagination = record zero_dialect {
    page_no = if leb_ℤ page_no (pos 0) then pos 1 else page_no;
    page_size = page_size_or_default page_size;
    spilled = true;
    is_page = true;
  };
}

unfoldable pub offset : ℤ → ℤ → Cnd → Cnd
offset start count c = record c {
  pagination = record zero_dialect {
    page_no = if leb_ℤ start (pos 0) then pos 0 else start;
    page_size = page_size_or_default count;
    spilled = true;
    is_offset = true;
    is_page = true;
  };
}

-- The loop of Distinct and Groupby, which skips empty keys.
unfoldable pub append_keys : List Text → List Text → List Text
append_keys acc [] = acc
append_keys acc (v ∷ vs) = append_keys (if is_empty v then acc else acc ++ v ∷ []) vs

unfoldable pub distinct : List Text → Cnd → Cnd
unfolding append_keys
distinct keys c = record c { distincts = append_keys c.distincts keys }

unfoldable pub groupby : List Text → Cnd → Cnd
unfolding append_keys
groupby keys c = record c { groupbys = append_keys c.groupbys keys }

-- Agg. `none` is a nil alias slice; an empty one that is not nil is indexed all the same.
agg_alias : Text → Option (List Text) → Go Text
agg_alias key none = ok key
agg_alias key (some []) = panic
agg_alias key (some (a ∷ _)) = ok a

unfoldable pub agg : Logic → Text → Option (List Text) → Cnd → Go Cnd
unfolding agg_alias
agg logic key alias c = if is_empty key then ok c else do
  ali ← agg_alias key alias
  ok (record c { aggregates = c.aggregates ++ condit logic key nil no_value ali ∷ [] })

unfoldable pub sort_condit : Text → ℤ → Condition
sort_condit key sortby = condit order_by key (int sortby) no_value []

-- Orderby panics unless the order is ASC_ or DESC_.
unfoldable pub orderby : Text → ℤ → Cnd → Go Cnd
unfolding sort_condit
orderby key sortby c =
    if eq_ℤ sortby (pos 1) || eq_ℤ sortby (pos 2)
    then ok (record c { orderbys = c.orderbys ++ sort_condit key sortby ∷ [] })
    else panic

-- The loop of Asc and Desc.
unfoldable pub append_sorts : ℤ → List Condition → List Text → List Condition
unfolding sort_condit
append_sorts sortby acc [] = acc
append_sorts sortby acc (v ∷ vs) = append_sorts sortby (acc ++ sort_condit v sortby ∷ []) vs

unfoldable pub asc : List Text → Cnd → Cnd
unfolding append_sorts
asc keys c = record c { orderbys = append_sorts (pos 1) c.orderbys keys }

unfoldable pub desc : List Text → Cnd → Cnd
unfolding append_sorts
desc keys c = record c { orderbys = append_sorts (pos 2) c.orderbys keys }

unfoldable pub fields : List Text → Cnd → Cnd
fields keys c = record c { any_fields = c.any_fields ++ keys }

unfoldable pub not_fields : List Text → Cnd → Cnd
not_fields keys c = record c { any_not_fields = c.any_not_fields ++ keys }

unfoldable pub sample : ℤ → Cnd → Cnd
sample size c =
    if leb_ℤ size (pos 0)
    then c
    else record c { sample_size = if ltb_ℤ (pos 2000) size then pos 10 else size }

unfoldable pub result_size : ℤ → Cnd → Cnd
result_size size c = record c { limit_size = page_size_or_default size }

-- `queryCount`: the first of the optional arguments.
abbrev first_flag : List Bool → Bool
first_flag [] = false
first_flag (b ∷ _) = b

unfoldable pub fast_page : Text → ℤ → ℤ → ℤ → ℤ → List Bool → Cnd → Go Cnd
fast_page key sort prev_id last_id page_size count_q c =
    if is_empty key
    then panic
    else ok (record c {
      pagination = record zero_dialect {
        page_size = page_size_or_default page_size;
        is_fast_page = true;
        fast_page_key = key;
        fast_page_sort = sort;
        fast_page_param = prev_id ∷ last_id ∷ [];
        fast_page_sort_count_q = first_flag count_q;
      };
    })

unfoldable pub cache : CacheConfig → Cnd → Cnd
cache config c = record c { cache_config = record config { is_open = true } }

-- `m[key] = value`: an old entry keeps its place, a new one goes last.
unfoldable pub put_entry : Text → Value → List (Text × Value) → List (Text × Value)
put_entry k v [] = (k, v) ∷ []
put_entry k v ((j, w) ∷ m) = if text_eq j k then (j, v) ∷ m else (j, w) ∷ put_entry k v m

unfoldable pub put_entries : List Text → List Value → List (Text × Value) → List (Text × Value)
unfolding put_entry
put_entries (k ∷ ks) (v ∷ vs) m = put_entries ks vs (put_entry k v m)
put_entries _ _ m = m

-- Upset ignores a call without values or with another number of keys.
unfoldable pub upset : List Text → List Value → Cnd → Cnd
unfolding put_entries
upset keys values c =
    if length values == 0 || (length keys == 0 || not (length keys == length values))
    then c
    else record c { upsets = put_entries keys values c.upsets }

unfoldable pub get_page_result : Cnd → PageResult
unfolding get_result
get_page_result c = get_result c.pagination
