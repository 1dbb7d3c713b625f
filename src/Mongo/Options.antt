-- ===== src/Mongo/Options.antt =====
-- ormx/sqld/mongo_manager.go: the options of a query: buildMongoProject, buildMongoSortBy,
-- buildMongoLimit, buildQueryOptions and buildQueryOneOptions.
pub mod Limits
use freego.Prelude.{
  ℤ, pos, negsuc, ◌-ℤ◌, ◌*ℤ◌, wrap64, eq_ℤ, ltb_ℤ, leb_ℤ, Text, text_eq, Bool, true, false, ◌&&◌,
  ◌||◌, Option, none, some, List, [], ◌∷◌, ◌++◌, if◌then◌else◌,
}
use freego.Dialect.{Dialect}
use freego.Sqlc.Value.{Value, int, Condition, condit}
use freego.Sqlc.Cnd.{Cnd, Collation}
use freego.Mongo.Match.{get_key}

-- `project[key] = n`
unfoldable pub set_flag : Text → ℤ → List (Text × ℤ) → List (Text × ℤ)
set_flag k n [] = (k, n) ∷ []
set_flag k n ((j, m) ∷ p) = if text_eq j k then (j, n) ∷ p else (j, m) ∷ set_flag k n p

unfoldable pub flag_fields : ℤ → List Text → List (Text × ℤ) → List (Text × ℤ)
unfolding set_flag get_key
flag_fields n [] p = p
flag_fields n (v ∷ vs) p = flag_fields n vs (set_flag (get_key v) n p)

-- buildMongoProject; an empty list is a nil or an empty map.
unfoldable pub build_mongo_project : Cnd → List (Text × ℤ)
unfolding flag_fields
build_mongo_project c = flag_fields (pos 0) c.any_not_fields (flag_fields (pos 1) c.any_fields [])

pub record SortBy : Type 0 where
  pub key : Text
  pub sort : ℤ

-- `v == sqlc.DESC_`, with the order that it stands for.
abbrev pub order_of : Value → ℤ
order_of (int n) = if eq_ℤ n (pos 2) then negsuc 0 else pos 1
order_of _ = pos 1

-- The loop over the orders, which passes over the key of the fast page.
unfoldable pub sort_by_loop : Text → List Condition → List SortBy
unfolding get_key
sort_by_loop page_key [] = []
sort_by_loop page_key (condit _ key v _ _ ∷ cs) =
    let rest = sort_by_loop page_key cs in
    if text_eq (get_key key) (get_key page_key)
    then rest
    else record { key = get_key key; sort = order_of v } ∷ rest

-- buildMongoSortBy
unfoldable pub build_mongo_sort_by : Cnd → List SortBy
unfolding get_key sort_by_loop
build_mongo_sort_by c =
    let p = c.pagination in
    (if p.is_fast_page
      then record { key = get_key p.fast_page_key; sort = order_of (int p.fast_page_sort_param) }
        ∷ []
      else [])
    ++ sort_by_loop p.fast_page_key c.orderbys

-- buildMongoLimit: how many documents are passed over, and how many are read at most.
unfoldable pub build_mongo_limit : Cnd → ℤ × ℤ
build_mongo_limit c =
    let p = c.pagination in
    let size = if leb_ℤ p.page_size (pos 0) then pos 10 else p.page_size in
    if ltb_ℤ (pos 0) c.limit_size
    then (pos 0, c.limit_size)
    else if eq_ℤ p.page_no (pos 0) && eq_ℤ p.page_size (pos 0)
    then (pos 0, pos 0)
    else if p.is_offset
    then (p.page_no, size)
    else (wrap64 (wrap64 (p.page_no -ℤ pos 1) *ℤ size), size)

-- The options of a query, in the order in which they are given to the driver.
pub data QueryOption : Type 0 where
  projection : List (Text × ℤ) → QueryOption
  sorting : Option Collation → List SortBy → QueryOption
  paging : Option ℤ → Option ℤ → QueryOption

abbrev if_any {ℓ} : {A : Type ℓ} → List A → QueryOption → List QueryOption
if_any [] o = []
if_any (_ ∷ _) o = o ∷ []

abbrev if_positive : ℤ → Option ℤ
if_positive n = if ltb_ℤ (pos 0) n then some n else none

-- buildQueryOneOptions
unfoldable pub build_query_one_options : Cnd → List QueryOption
unfolding build_mongo_project build_mongo_sort_by
build_query_one_options c =
    if_any (build_mongo_project c) (projection (build_mongo_project c))
    ++ if_any (build_mongo_sort_by c) (sorting c.collation_config (build_mongo_sort_by c))

page_option : ℤ × ℤ → List QueryOption
page_option (skip, limit) =
    if ltb_ℤ (pos 0) skip || ltb_ℤ (pos 0) limit
    then paging (if_positive skip) (if_positive limit) ∷ []
    else []

-- buildQueryOptions
unfoldable pub build_query_options : Cnd → List QueryOption
unfolding build_mongo_project build_mongo_sort_by build_mongo_limit page_option
build_query_options c =
    if_any (build_mongo_project c) (projection (build_mongo_project c))
    ++ (if_any (build_mongo_sort_by c) (sorting c.collation_config (build_mongo_sort_by c))
        ++ page_option (build_mongo_limit c))
