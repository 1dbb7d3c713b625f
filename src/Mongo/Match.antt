-- ===== src/Mongo/Match.antt =====
-- ormx/sqld/mongo_manager.go: buildMongoMatch and buildMongoUpset.
pub mod Lookup
pub mod Upsets
use freego.Prelude.{
  Text, String, codes, text_eq, Go, panic, ok, ◌>>=◌, Bool, true, false, ◌||◌, Option, none, some,
  List, [], ◌∷◌, if◌then◌else◌,
}
use freego.Sqlc.Value.{
  Logic, eq, not_eq, lt, lte, gt, gte, is_null, is_not_null, between, between2, not_between, in_,
  not_in, like, not_like, or_, Value, nil_cnd, cnd, Values, no_value, value, Condition, condit,
  Conditions, no_condition, condition,
}
use freego.Sqlc.Cnd.{Cnd}
use freego.Sqld.Where.{two_values}

-- A bson.M of a query: what it asks of each key. `is` stands for the value itself, `test` for
-- `{op: v}`, `range` for `{op: v, op: w}`, `among` for `{op: values}` and `any_of` for the array
-- of `$or`. The map of an empty builder is nil.
mutual
  pub data Test : Type 0 where
    is : Value → Test
    absent : Test
    test : String → Value → Test
    range : String → Value → String → Value → Test
    among : String → Values → Test
    any_of : Queries → Test

  pub data Entries : Type 0 where
    no_entry : Entries
    entry : Text → Test → Entries → Entries

  pub data Query : Type 0 where
    nil_query : Query
    bson_m : Entries → Query

  pub data Queries : Type 0 where
    no_query : Queries
    queries : Query → Queries → Queries

-- `query[key] = test`
unfoldable pub put_test : Text → Test → Entries → Entries
put_test k t no_entry = entry k t no_entry
put_test k t (entry j u q) = if text_eq j k then entry j t q else entry j u (put_test k t q)

unfoldable pub append_query : Queries → Query → Queries
append_query no_query q = queries q no_query
append_query (queries p ps) q = queries p (append_query ps q)

-- JID and BID
abbrev pub jid : Text
jid = codes "id"

abbrev pub bid : Text
bid = codes "_id"

-- `if key == JID { key = BID }`, which is getKey.
unfoldable pub get_key : Text → Text
get_key key = if text_eq key jid then bid else key

abbrev pub Tested : Type 0
Tested = Option (Text × Test)

unfoldable pub between_values : Text → String → String → Values → Go Tested
unfolding two_values
between_values key low high (value a (value b _)) = ok (some (key, range low a high b))
between_values key low high _ = panic

unfoldable pub put_tested : Tested → Entries → Entries
unfolding put_test
put_tested none q = q
put_tested (some (k, t)) q = put_test k t q

-- buildMongoMatch of a builder with these conditions.
unfoldable mutual
  unfolding get_key between_values put_tested append_query

  -- The `switch v.Logic`: the entry that a condition makes; the unsupported ones make none.
  pub tested : Condition → Go Tested
  tested (condit eq key v vs _) = ok (some (get_key key, is v))
  tested (condit not_eq key v vs _) = ok (some (get_key key, test "$ne" v))
  tested (condit lt key v vs _) = ok (some (get_key key, test "$lt" v))
  tested (condit lte key v vs _) = ok (some (get_key key, test "$lte" v))
  tested (condit gt key v vs _) = ok (some (get_key key, test "$gt" v))
  tested (condit gte key v vs _) = ok (some (get_key key, test "$gte" v))
  tested (condit is_null key v vs _) = ok (some (get_key key, absent))
  tested (condit between key v vs _) = between_values (get_key key) "$gte" "$lte" vs
  tested (condit between2 key v vs _) = between_values (get_key key) "$gte" "$lt" vs
  tested (condit in_ key v vs _) = ok (some (get_key key, among "$in" vs))
  tested (condit not_in key v vs _) = ok (some (get_key key, among "$nin" vs))
  tested (condit like key v vs _) = ok (some (get_key key, test "$regex" v))
  tested (condit or_ key v no_value _) = ok none
  tested (condit or_ key v (value w ws) _) =
      or_queries no_query (value w ws) >>= λ array. ok (some (codes "$or", any_of array))
  tested _ = ok none

  -- The loop of OR_; a value that is no *Cnd is passed over, and a nil *Cnd panics.
  pub or_queries : Queries → Values → Go Queries
  or_queries array no_value = ok array
  or_queries array (value v vs) = or_query array v >>= λ array'. or_queries array' vs

  pub or_query : Queries → Value → Go Queries
  or_query array nil_cnd = panic
  or_query array (cnd escape no_condition) = ok (append_query array nil_query)
  or_query array (cnd escape (condition c cs)) =
      match_entries no_entry (condition c cs) >>= λ q. ok (append_query array (bson_m q))
  or_query array _ = ok array

  pub match_entries : Entries → Conditions → Go Entries
  match_entries q no_condition = ok q
  match_entries q (condition c cs) = tested c >>= λ t. match_entries (put_tested t q) cs

-- buildMongoMatch
unfoldable pub build_mongo_match : Conditions → Go Query
unfolding match_entries
build_mongo_match no_condition = ok nil_query
build_mongo_match (condition c cs) = match_entries no_entry (condition c cs) >>= λ q. ok (bson_m q)

-- `match == nil || len(match) == 0`
abbrev pub is_empty_query : Query → Bool
is_empty_query nil_query = true
is_empty_query (bson_m no_entry) = true
is_empty_query (bson_m (entry _ _ _)) = false

-- The loop of buildMongoUpset, which passes over the ids.
unfoldable pub upset_loop : List (Text × Value) → Entries → Entries
unfolding put_test
upset_loop [] q = q
upset_loop ((k, v) ∷ m) q =
    upset_loop m (if text_eq k jid || text_eq k bid then q else put_test k (is v) q)

-- buildMongoUpset; the map under `$set`, or nil.
unfoldable pub build_mongo_upset : Cnd → Query
unfolding upset_loop
build_mongo_upset c = elim (upset_loop c.upsets no_entry) [
  | no_entry ↦ nil_query
  | entry k t q ↦ bson_m (entry k t q)
]
