-- ===== src/Sqld/Query/Complex.antt =====
-- ormx/sqld/base_manager.go: FindListComplex and FindOneComplex of RDBManager.
use freego.Prelude.{
  ℕ, suc, pos, ◌==◌, Text, String, codes, text_eq, Go, panic, ok, trim_end, Bool, ◌||◌, Option,
  none, some, List, [], ◌∷◌, ◌++◌, length, get_elem?, if◌then◌else◌,
}
use freego.Errors.{lit, Result, done, failed}
use freego.Sqlc.Value.{Logic, left, right, inner, Value}
use freego.Sqlc.Object.{Object}
use freego.Sqlc.Builder.{offset}
use freego.Sqlc.Cnd.{Cnd, FromCond, JoinCond}
use freego.Sqld.Where.{Part}
use freego.Sqld.Model.{FieldElem, MdlDriver, Runtime}
use freego.Sqld.Model.Reading.{set_value}
use freego.Sqld.Exec.{Env, Exec, ◌>>=◌, pure, error, lift, prepare, query, find_model}
use freego.Sqld.Delete.{is_empty, where_of}
use freego.Sqld.Order.{build_group_by, build_sort_by}
use freego.Sqld.Query.{
  Row, out_dest, or_error, query_rows, where_tail, filled, record_again, build_pagination,
}
use freego.Sqld.Query.Find.{Target, no_target, fill_list}

-- The fields that the query names.
unfoldable pub any_fields_text : Bool → List Text → Text
any_fields_text escape [] = []
any_fields_text escape (v ∷ vs) =
    (if escape then codes "`" ++ (v ++ codes "`,") else v ++ codes ",") ++ any_fields_text escape vs

abbrev pub join_word : Logic → Option String
join_word left = some " left join "
join_word right = some " right join "
join_word inner = some " inner join "
join_word _ = none

-- The loop over cnd.JoinCond.
unfoldable pub join_text : List JoinCond → Text
join_text [] = []
join_text (v ∷ vs) =
    if is_empty v.table || is_empty v.on then join_text vs else elim (join_word v.type) [
      | none ↦ join_text vs
      | some word ↦
          codes word ++ (v.table ++ (codes " on " ++ (v.on ++ (codes " " ++ join_text vs))))
    ]

unfoldable pub complex_sql : FromCond → Text → Text → Text → Text → Text → Text
complex_sql from fields joins tail groupby sortby =
    codes "select "
    ++ (fields
        ++ (codes " from "
            ++ (from.table
                ++ (codes " "
                    ++ (from.alias ++ (codes " " ++ (joins ++ (tail ++ (groupby ++ sortby)))))))))

-- The statement of a query on these tables, without its limit.
unfoldable pub complex_text : Cnd → FromCond → Text → Exec Text
unfolding any_fields_text where_tail build_group_by build_sort_by join_text
complex_text cnd from case_part = do
  tail ← lift (where_tail case_part)
  groupby ← lift (build_group_by (some cnd))
  sortby ← lift (build_sort_by (some cnd))
  fields ← lift (trim_end 1 (any_fields_text cnd.escape cnd.any_fields))
  pure (complex_sql from fields (join_text cnd.join_cond) tail groupby sortby)

-- The first field of the model with this column's name.
unfoldable pub find_elem : Text → List FieldElem → Option FieldElem
find_elem name [] = none
find_elem name (e ∷ es) = if text_eq e.field_json_name name then some e else find_elem name es

-- The loops over the columns: a column without a field is passed over.
unfoldable pub read_columns :
    Runtime → List FieldElem → Row → List Text → ℕ → Object → Go (Result Object)
unfolding find_elem
read_columns rt es row [] i o = ok (done o)
read_columns rt es row (name ∷ names) i o = elim (find_elem name es) [
  | none ↦ read_columns rt es row names (suc i) o
  | some e ↦ elim (get_elem? row i) [
    | none ↦ panic
    | some c ↦ elim (set_value rt o e c) [
      | failed err ↦ ok (failed err)
      | done o' ↦ read_columns rt es row names (suc i) o'
    ]
  ]
]

unfoldable pub column_models :
    Runtime
    → List FieldElem
    → List Text
    → Object
    → List Object
    → List Row
    → Go (Result (List Object))
unfolding read_columns
column_models rt es cols new acc [] = ok (done acc)
column_models rt es cols new acc (row ∷ rows) = elim (read_columns rt es row cols 0 new) [
  | panic ↦ panic
  | ok (failed e) ↦ ok (failed e)
  | ok (done o) ↦ column_models rt es cols new (acc ++ o ∷ []) rows
]

-- The columns of the result, which are to be as many as the fields that the query names.
unfoldable pub checked_columns : String → Cnd → List Text → Exec (List Text)
unfolding error
checked_columns label cnd cols =
    if length cols == length cnd.any_fields then pure cols else error (lit label ∷ [])

unfoldable pub run_list_complex :
    Env
    → Cnd
    → Target
    → Object
    → MdlDriver
    → List Value
    → Text × Cnd
    → Exec (Option (List Object) × Cnd)
unfolding prepare query query_rows or_error checked_columns out_dest column_models fill_list
run_list_complex env cnd dest model obv params (sql, c) =
    prepare env "[Mysql.FindListComplex] [ " sql do
      r ← query env sql params
      rows ← query_rows "[Mysql.FindListComplex] query failed: " r
      names ← or_error "[Mysql.FindListComplex] read columns failed: " rows.columns
      cols ← checked_columns "[Mysql.FindListComplex] read columns length invalid" cnd names
      out ← or_error "[Mysql.FindListComplex] read result failed: " (out_dest rows)
      fill_list dest out
          (λ olds. column_models env.runtime obv.field_elem cols (env.new_object model) olds out) c

unfoldable pub list_complex_where :
    Env → Cnd → Target → Object → FromCond → MdlDriver → Part → Exec (Option (List Object) × Cnd)
unfolding complex_text build_pagination record_again run_list_complex
list_complex_where env cnd dest model from obv (case_part, case_arg) = do
  sql ← complex_text cnd from case_part
  page ← record_again (build_pagination env cnd sql case_arg)
  run_list_complex env cnd dest model obv case_arg page

unfoldable pub list_complex_from :
    Env → Cnd → Target → Object → Option FromCond → Exec (Option (List Object) × Cnd)
unfolding error find_model where_of list_complex_where
list_complex_from env cnd dest model none =
    error (lit "[Mysql.FindListComplex] from table is nil" ∷ [])
list_complex_from env cnd dest model (some from) =
    if is_empty from.table
    then error (lit "[Mysql.FindListComplex] from table is nil" ∷ [])
    else if is_empty cnd.any_fields
    then error (lit "[Mysql.FindListComplex] any fields is nil" ∷ [])
    else (find_model env "[Mysql.FindListComplex] " model.table >>= λ obv.
        where_of cnd >>= list_complex_where env cnd dest model from obv)

unfoldable pub list_complex_model :
    Env → Cnd → Target → Option Object → Exec (Option (List Object) × Cnd)
unfolding error list_complex_from
list_complex_model env cnd dest none = error (lit "[Mysql.FindListComplex] model is nil" ∷ [])
list_complex_model env cnd dest (some model) = list_complex_from env cnd dest model cnd.from_cond

-- FindListComplex
unfoldable pub find_list_complex : Env → Cnd → Target → Exec (Option (List Object) × Cnd)
unfolding error list_complex_model
find_list_complex env cnd no_target = error (lit "[Mysql.FindListComplex] data is nil" ∷ [])
find_list_complex env cnd dest = list_complex_model env cnd dest cnd.model

-- The first row is read into the object.
unfoldable pub read_first_columns :
    Runtime → List FieldElem → List Text → Object → List Row → Exec Object
unfolding read_columns filled
read_first_columns rt es cols o [] = pure o
read_first_columns rt es cols o (first ∷ _) = filled (read_columns rt es first cols 0 o)

unfoldable pub run_one_complex : Env → Cnd → Object → MdlDriver → List Value → Text → Exec Object
unfolding prepare query query_rows or_error checked_columns out_dest read_first_columns
run_one_complex env cnd o obv params sql = prepare env "[Mysql.FindOneComplex] [ " sql do
  r ← query env sql params
  rows ← query_rows "[Mysql.FindOneComplex] query failed: " r
  names ← or_error "[Mysql.FindOneComplex] read columns failed: " rows.columns
  cols ← checked_columns "[Mysql.FindOneComplex] read columns length invalid" cnd names
  out ← or_error "[Mysql.FindOneComplex] read result failed: " (out_dest rows)
  read_first_columns env.runtime obv.field_elem cols o out

unfoldable pub one_complex_where : Env → Cnd → Object → FromCond → MdlDriver → Part → Exec Object
unfolding complex_text run_one_complex
one_complex_where env cnd o from obv (case_part, case_arg) = do
  sql ← complex_text cnd from case_part
  run_one_complex env cnd o obv case_arg (sql ++ codes " limit 1")

unfoldable pub one_complex_from : Env → Cnd → Object → Option FromCond → Exec (Object × Cnd)
unfolding error find_model where_of offset one_complex_where
one_complex_from env cnd o none = error (lit "[Mysql.FindOneComplex] from table is nil" ∷ [])
one_complex_from env cnd o (some from) =
    if is_empty from.table
    then error (lit "[Mysql.FindOneComplex] from table is nil" ∷ [])
    else if is_empty cnd.any_fields
    then error (lit "[Mysql.FindOneComplex] any fields is nil" ∷ [])
    else (find_model env "[Mysql.FindOneComplex] " o.table >>= λ obv.
        where_of (offset (pos 0) (pos 1) cnd) >>= λ part.
        one_complex_where env (offset (pos 0) (pos 1) cnd) o from obv part >>= λ o'.
        pure (o', offset (pos 0) (pos 1) cnd))

-- FindOneComplex; it leaves the builder with the page of cnd.Offset(0, 1).
unfoldable pub find_one_complex : Env → Cnd → Option Object → Exec (Object × Cnd)
unfolding error one_complex_from
find_one_complex env cnd none = error (lit "[Mysql.FindOneComplex] data is nil" ∷ [])
find_one_complex env cnd (some o) = one_complex_from env cnd o cnd.from_cond
