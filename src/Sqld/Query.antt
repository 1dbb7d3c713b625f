-- ===== src/Sqld/Query.antt =====
-- ormx/sqld/base_manager.go: what the queries of RDBManager share, and BuildPagination.
mod Tests
pub mod Find
pub mod Count
pub mod Complex
pub mod Pages
pub mod Selections
pub mod Listings
pub mod Paging
pub mod Lists
pub mod Fields
use freego.Prelude.{
  ℕ, suc, ℤ, pos, ◌+ℤ◌, quot_ℤ, rem_ℤ, wrap64, eq_ℤ, leb_ℤ, ltb_ℤ, Text, String, codes, text_eq, Go,
  panic, ok, trim_end, Bool, true, false, not, ◌&&◌, Option, none, some, List, [], ◌∷◌, ◌++◌,
  get_elem?, if◌then◌else◌,
}
use freego.Dialect.{Dialect, mysql, Reply, reply, refuse, get_count_sql, get_limit_sql}
use freego.Errors.{lit, text, Err, Result, done, failed}
use freego.Sqlc.Value.{Value}
use freego.Sqlc.Object.{Object}
use freego.Sqlc.Cnd.{Cnd}
use freego.Sqld.Model.{FieldElem, MdlDriver, Runtime}
use freego.Sqld.Model.Reading.{Cell, set_value}
use freego.Sqld.Exec.{
  Rows, QueryReply, query_failed, queried, Env, Exec, ◌>>=◌, pure, throw, error, lift, query,
}
use freego.Sqld.Delete.{is_empty, where_text}

-- `v[i] == nil`
abbrev pub is_null_cell : Cell → Bool
is_null_cell none = true
is_null_cell (some _) = false

abbrev pub Row : Type 0
Row = List Cell

-- The loop of OutDest over the rows, and the test of rows.Err.
unfoldable pub out_rows : List Row → Option Text → List (Result Row) → Result (List Row)
out_rows out none [] = done out
out_rows out (some e) [] = failed (lit "rows.Err(): " ∷ text e ∷ [])
out_rows out e (failed err ∷ rs) = failed (lit "rows scan failed: " ∷ err)
out_rows out e (done r ∷ rs) = out_rows (out ++ r ∷ []) e rs

-- OutDest
unfoldable pub out_dest : Rows → Result (List Row)
unfolding out_rows
out_dest rows = out_rows [] rows.err rows.scanned

-- A result whose error is recorded behind a message.
unfoldable pub or_error : {A : Type 0} → String → Result A → Exec A
unfolding error
or_error label (failed e) = error (lit label ∷ e)
or_error label (done a) = pure a

-- `stmt.QueryContext`, with a recorded error.
unfoldable pub query_rows : String → QueryReply → Exec Rows
unfolding error
query_rows label (query_failed e) = error (lit label ∷ text e ∷ [])
query_rows label (queried rows) = pure rows

-- The same with an error that is not recorded.
unfoldable pub query_totals : String → QueryReply → Exec Rows
query_totals label (query_failed e) = throw (lit label ∷ text e ∷ [])
query_totals label (queried rows) = pure rows

-- The loop that scans each row into one int64, and the test of rows.Err.
unfoldable pub scan_total : String → String → ℤ → Option Text → List (Result ℤ) → Exec ℤ
unfolding error
scan_total scan_msg err_msg n none [] = pure n
scan_total scan_msg err_msg n (some e) [] = error (lit err_msg ∷ text e ∷ [])
scan_total scan_msg err_msg n e (failed err ∷ rs) = error (lit scan_msg ∷ err)
scan_total scan_msg err_msg n e (done m ∷ rs) = scan_total scan_msg err_msg m e rs

-- The fields of a model that are not ignored, each in backquotes and with a comma behind it.
unfoldable pub field_names : List FieldElem → Text
field_names [] = []
field_names (e ∷ es) =
    let rest = field_names es in
    if e.ignore then rest else codes "`" ++ (e.field_json_name ++ (codes "`," ++ rest))

-- The text of the where clause behind the table; nothing without a clause.
unfoldable pub where_tail : Text → Go Text
unfolding where_text
where_tail part = if is_empty part then ok [] else where_text "where" part

-- The loop of FindById, FindOne and FindList over the fields: the column of a field has the field's
-- place in the model. FindList passes over a date that is NULL.
unfoldable pub read_fields : Runtime → Bool → Row → List FieldElem → ℕ → Object → Go (Result Object)
read_fields rt skip_dates row [] i o = ok (done o)
read_fields rt skip_dates row (e ∷ es) i o =
    let ignored = read_fields rt skip_dates row es (suc i) o in
    if e.ignore then ignored else elim (get_elem? row i) [
      | none ↦ panic
      | some c ↦
          if e.is_date && skip_dates && is_null_cell c then ignored else elim (set_value rt o e c) [
            | failed err ↦ ok (failed err)
            | done o' ↦ read_fields rt skip_dates row es (suc i) o'
          ]
    ]

-- `return self.Error(err)` for an error of SetValue.
unfoldable pub filled : {A : Type 0} → Go (Result A) → Exec A
unfolding error
filled panic = lift panic
filled (ok (failed e)) = error e
filled (ok (done a)) = pure a

-- `self.Error(err)` for an error that a call has returned.
unfoldable pub record_again : {A : Type 0} → Exec A → Exec A
unfolding error
record_again m s = elim (m s) [
  | panic ↦ panic
  | ok (failed e, t) ↦ error e t
  | ok (done a, t) ↦ ok (done a, t)
]

-- The number of pages; a size of 0 panics.
unfoldable pub page_count : ℤ → ℤ → Go ℤ
page_count total size =
    if eq_ℤ size (pos 0)
    then panic
    else ok (
        wrap64 (
          if eq_ℤ (rem_ℤ total size) (pos 0)
          then quot_ℤ total size
          else quot_ℤ total size +ℤ pos 1))

unfoldable pub set_totals : ℤ → ℤ → Cnd → Cnd
set_totals total count c = record c {
  pagination = record c.pagination { page_total = total; page_count = count };
}

-- The count query of BuildPagination.
unfoldable pub count_page : Env → Cnd → List Value → Text → Text → Exec (Text × Cnd)
unfolding query query_rows scan_total page_count set_totals
count_page env c values limit_sql count_sql = do
  r ← query env count_sql values
  rows ← query_rows "count query failed: " r
  total ← scan_total "rows scan failed: " "rows.Err(): " (pos 0) rows.err rows.totals
  count ← lift (page_count total c.pagination.page_size)
  pure (limit_sql, set_totals total count c)

or_refuse : {A : Type 0} → Reply Text → (Text → Exec A) → Exec A
or_refuse (refuse e) f = throw (lit e ∷ [])
or_refuse (reply t) f = f t

-- The pagination with the size that the dialect uses.
unfoldable pub sized : Dialect → Dialect
sized d = if leb_ℤ d.page_size (pos 0) then record d { page_size = pos 10 } else d

-- BuildPagination of a builder that is not nil.
unfoldable pub build_pagination : Env → Cnd → Text → List Value → Exec (Text × Cnd)
unfolding or_refuse sized count_page
build_pagination env c sql values =
    if eq_ℤ c.pagination.page_no (pos 0) && eq_ℤ c.pagination.page_size (pos 0)
    then pure (sql, c)
    else or_refuse (get_limit_sql mysql (sized c.pagination) sql) λ limit_sql.
      if not c.pagination.is_page
      then pure (limit_sql, c)
      else if not c.pagination.is_offset
      then or_refuse (get_count_sql mysql sql) (count_page env c values limit_sql)
      else pure (limit_sql, c)
