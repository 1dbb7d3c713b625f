-- ===== src/Mongo/Reads.antt =====
-- ormx/sqld/mongo_manager.go: Count, Exists, FindOne, FindOneComplex, FindList and FindListComplex of
-- MGOManager.
pub mod Cursors
use freego.Prelude.{
  ◌>>=◌ as go_bind, ℤ, pos, eq_ℤ, ltb_ℤ, Text, Go, panic, ok, Bool, true, false, not, ◌&&◌, Option,
  none, some, List, [], ◌∷◌, if◌then◌else◌,
}
use freego.Errors.{lit, Result, done}
use freego.Sqlc.Value.{int}
use freego.Sqlc.Object.{Object}
use freego.Sqlc.Builder.{gt_condit, lt_condit, orderby, result_size}
use freego.Sqlc.Cnd.{Cnd}
use freego.Sqld.Query.{page_count, set_totals}
use freego.Mongo.Match.{Query, build_mongo_match, is_empty_query}
use freego.Mongo.Options.{build_query_options, build_query_one_options}
use freego.Mongo.Session.{
  Op, count_documents, estimated_count, find_op, find_one_op, Found, found, no_documents, broken,
  Env, Exec, ◌>>=◌, ◌>>◌, pure, mongo_error, lift, or_record, open_collection, run_op, call_of,
  called,
}

-- The pages of the total, if both the total and the size are positive.
unfoldable pub document_pages : ℤ → Cnd → Go Cnd
unfolding page_count set_totals
document_pages total c =
    if ltb_ℤ (pos 0) total && ltb_ℤ (pos 0) c.pagination.page_size
    then go_bind (page_count total c.pagination.page_size) (λ n. ok (set_totals total n c))
    else ok (set_totals total (pos 0) c)

count_op : Query → Op
count_op pipe = if is_empty_query pipe then estimated_count else count_documents pipe

count_in : Env → Cnd → Option Object → Exec (ℤ × Cnd)
unfolding mongo_error open_collection run_op or_record document_pages count_op
count_in env c none = mongo_error (lit "[Mongo.Count] data model is nil" ∷ [])
count_in env c (some model) = do
  open_collection env model.table
  pipe ← lift (build_mongo_match c.conditions)
  r ← run_op env model.table (count_op pipe)
  total ← or_record (lit "[Mongo.Count] count failed: " ∷ []) r
  counted ← lift (document_pages total c)
  pure (total, counted)

-- Count; it leaves the totals in the builder.
unfoldable pub mongo_count : Env → Cnd → Exec (ℤ × Cnd)
unfolding count_in
mongo_count env c = count_in env c c.model

-- Exists
unfoldable pub mongo_exists : Env → Cnd → Exec Bool
unfolding mongo_count
mongo_exists env c = mongo_count env c >>= λ counted. pure (ltb_ℤ (pos 0) counted.0)

-- db.FindOne and Decode; db.Find and All, whose cursor may fail to open.
decode_op : Env → Text → Op → Exec (Found Object)
decode_op env table op s =
    let c = call_of s table op in ok (done (env.client.decode s.history c), called s c)

unfoldable pub all_op : Env → Text → Op → Exec (Result (Found (List Object)))
all_op env table op s =
    let c = call_of s table op in ok (done (env.client.all s.history c), called s c)

-- What is read, or the old data if there are no documents.
unfoldable pub decoded : {A : Type 0} → A → Found A → Exec A
unfolding mongo_error
decoded old (found new) = pure new
decoded old no_documents = pure old
decoded old (broken e) = mongo_error e

-- FindOne and FindOneComplex
unfoldable pub mongo_find_one : Env → Cnd → Option Object → Exec Object
unfolding mongo_error open_collection decode_op decoded
mongo_find_one env c none = mongo_error (lit "[Mongo.FindOne] data is nil" ∷ [])
mongo_find_one env c (some o) = do
  open_collection env o.table
  pipe ← lift (build_mongo_match c.conditions)
  r ← decode_op env o.table (find_one_op pipe (build_query_one_options c))
  decoded o r

unfoldable pub set_sort_param : ℤ → Cnd → Cnd
set_sort_param sort c = record c {
  pagination = record c.pagination { fast_page_sort_param = sort };
}

-- `if id > 0 { cnd.Gt(key, id) … }` and the same with Lt.
unfoldable pub beyond : Bool → Text → ℤ → Cnd → Cnd
unfolding set_sort_param
beyond up key id c =
    if ltb_ℤ (pos 0) id
    then set_sort_param (if up then pos 1 else pos 2)
        (if up then gt_condit key (int id) c else lt_condit key (int id) c)
    else c

-- The two ids of the fast page.
unfoldable pub cursor_conditions : Text → ℤ → ℤ → ℤ → Cnd → Go Cnd
unfolding beyond
cursor_conditions key sort prev_id last_id c =
    if eq_ℤ sort (pos 2)
    then ok (beyond false key last_id (beyond true key prev_id c))
    else if eq_ℤ sort (pos 1)
    then ok (beyond true key last_id (beyond false key prev_id c))
    else panic

unfoldable pub first_page : Text → ℤ → ℤ → ℤ → Cnd → Go Cnd
unfolding set_sort_param
first_page key sort prev_id last_id c =
    if eq_ℤ prev_id (pos 0) && eq_ℤ last_id (pos 0)
    then go_bind (orderby key sort c) (λ d. ok (set_sort_param sort d))
    else ok c

unfoldable pub fast_params : Cnd → List ℤ → Go Cnd
unfolding cursor_conditions first_page
fast_params c (prev_id ∷ last_id ∷ _) =
    let p = c.pagination in
    go_bind
      (first_page p.fast_page_key p.fast_page_sort prev_id last_id (result_size p.page_size c))
      (cursor_conditions p.fast_page_key p.fast_page_sort prev_id last_id)
fast_params c _ = panic

-- The fast page of FindList, behind the count.
unfoldable pub fast_cursor : Cnd → Go Cnd
unfolding fast_params
fast_cursor c = fast_params c c.pagination.fast_page_param

-- `if …  { if _, err := self.Count(cnd); … }`
count_if : Env → Bool → Cnd → Exec Cnd
unfolding mongo_count
count_if env b c = if b then (mongo_count env c >>= λ counted. pure counted.1) else pure c

unfoldable pub paged : Env → Cnd → Exec Cnd
unfolding count_if fast_cursor
paged env c =
    (if c.pagination.is_fast_page
      then (count_if env c.pagination.fast_page_sort_count_q c >>= λ d. lift (fast_cursor d))
      else pure c)
    >>= λ d. count_if env (not d.pagination.is_offset && d.pagination.is_page) d

list_in : Env → Cnd → List Object → Option Object → Exec (List Object × Cnd)
unfolding mongo_error open_collection paged all_op or_record decoded
list_in env c old none = mongo_error (lit "[Mongo.FindList] data model is nil" ∷ [])
list_in env c old (some model) = do
  open_collection env model.table
  d ← paged env c
  pipe ← lift (build_mongo_match d.conditions)
  r ← all_op env model.table (find_op pipe (build_query_options d))
  cursor ← or_record (lit "[Mongo.FindList] query failed: " ∷ []) r
  os ← decoded old cursor
  pure (os, d)

-- FindList and FindListComplex; data is the slice that is filled.
unfoldable pub mongo_find_list : Env → Cnd → Option (List Object) → Exec (List Object × Cnd)
unfolding mongo_error list_in
mongo_find_list env c none = mongo_error (lit "[Mongo.FindList] data is nil" ∷ [])
mongo_find_list env c (some old) = list_in env c old c.model
