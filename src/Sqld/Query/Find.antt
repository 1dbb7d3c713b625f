-- ===== src/Sqld/Query/Find.antt =====
-- ormx/sqld/base_manager.go: FindById, FindOne and FindList of RDBManager.
use freego.Prelude.{
  pos, eq_ℤ, Text, String, codes, Go, panic, ok, trim_end, true, false, Option, none, some, List,
  [], ◌∷◌, ◌++◌, length, take, if◌then◌else◌,
}
use freego.Errors.{lit, Result, done, failed}
use freego.Sqlc.Value.{Value, int, str}
use freego.Sqlc.Object.{Object}
use freego.Sqlc.Builder.{offset}
use freego.Sqlc.Cnd.{Cnd}
use freego.Sqld.Where.{Part}
use freego.Sqld.Model.{
  FieldKind, int64_kind, string_kind, MdlDriver, Runtime, get_int64, get_string,
}
use freego.Sqld.Exec.{
  Env, Exec, ◌>>=◌, pure, throw, error, lift, prepare, prepare_in, query, find_model,
}
use freego.Sqld.Delete.{is_empty, where_of}
use freego.Sqld.Order.{build_group_by, build_sort_by}
use freego.Sqld.Query.{
  Row, out_dest, or_error, query_rows, field_names, where_tail, read_fields, filled, record_again,
  set_totals, build_pagination,
}

abbrev id_nil : String
id_nil = "[Mysql.FindById] data object id is nil"

-- The argument of FindById; none for a key that is neither Int64 nor String.
unfoldable pub id_param : MdlDriver → Object → FieldKind → Exec (List Value)
unfolding error
id_param obv o int64_kind =
    let id = get_int64 (o.field obv.pk_offset) in
    if eq_ℤ id (pos 0) then error (lit id_nil ∷ []) else pure (int id ∷ [])
id_param obv o string_kind =
    let id = get_string (o.field obv.pk_offset) in
    if is_empty id then error (lit id_nil ∷ []) else pure (str id ∷ [])
id_param obv o _ = pure []

unfoldable pub find_by_id_sql : MdlDriver → Text → Text
find_by_id_sql obv fields =
    codes "select "
    ++ (fields
        ++ (codes " from "
            ++ (obv.table_name ++ (codes " where `" ++ (obv.pk_name ++ codes "` = ? limit 1")))))

-- The first row, if there is one, is read into the object.
unfoldable pub read_first : Runtime → MdlDriver → Object → List Row → Exec Object
unfolding read_fields filled
read_first rt obv o [] = pure o
read_first rt obv o (first ∷ _) = filled (read_fields rt false first obv.field_elem 0 o)

-- The end of FindById, behind the construction of the fields.
unfoldable pub run_find_by_id : Env → MdlDriver → Object → List Value → Text → Exec Object
unfolding prepare_in query query_rows or_error out_dest read_first
run_find_by_id env obv o params fields =
    prepare_in env "[Mysql.FindById] [" "] prepare failed: " (find_by_id_sql obv fields) do
      r ← query env (find_by_id_sql obv fields) params
      rows ← query_rows "[Mysql.FindById] query failed: " r
      cols ← or_error "[Mysql.FindById] read columns failed: " rows.columns
      out ← or_error "[Mysql.FindById] read result failed: " (out_dest rows)
      read_first env.runtime obv o out

unfoldable pub find_by_id_checked : Env → Object → MdlDriver → Exec Object
unfolding id_param field_names run_find_by_id
find_by_id_checked env o obv =
    if is_empty obv.pk_name
    then throw (lit "PK field not fond, you can use [findOne] or [findList]" ∷ [])
    else (id_param obv o obv.pk_kind >>= λ params.
        lift (trim_end 1 (field_names obv.field_elem)) >>= run_find_by_id env obv o params)

-- FindById; `none` is a nil object.
unfoldable pub find_by_id : Env → Option Object → Exec Object
unfolding error find_model find_by_id_checked
find_by_id env none = error (lit "[Mysql.FindById] data is nil" ∷ [])
find_by_id env (some o) = find_model env "[Mysql.FindById] " o.table >>= find_by_id_checked env o

unfoldable pub find_one_sql : MdlDriver → Text → Text → Text → Text
find_one_sql obv fields tail sortby =
    codes "select "
    ++ (fields
        ++ (codes " from "
            ++ (obv.table_name ++ (codes " " ++ (tail ++ (sortby ++ codes " limit 1"))))))

-- The end of FindOne, behind the construction of the statement.
unfoldable pub run_find_one : Env → MdlDriver → Object → List Value → Text → Exec Object
unfolding prepare query query_rows or_error out_dest read_first
run_find_one env obv o params sql = prepare env "[Mysql.FindOne] [ " sql do
  r ← query env sql params
  rows ← query_rows "[Mysql.FindOne] query failed: " r
  cols ← or_error "[Mysql.FindOne] read columns failed: " rows.columns
  out ← or_error "[Mysql.FindOne] read result failed: " (out_dest rows)
  read_first env.runtime obv o out

unfoldable pub find_one_where : Env → Cnd → Object → MdlDriver → Part → Exec Object
unfolding where_tail build_sort_by field_names run_find_one
find_one_where env cnd o obv (case_part, case_arg) = do
  tail ← lift (where_tail case_part)
  sortby ← lift (build_sort_by (some cnd))
  fields ← lift (trim_end 1 (field_names obv.field_elem))
  run_find_one env obv o case_arg (find_one_sql obv fields tail sortby)

-- FindOne; it leaves the builder with the page of cnd.Offset(0, 1).
unfoldable pub find_one : Env → Cnd → Option Object → Exec (Object × Cnd)
unfolding error find_model offset where_of find_one_where
find_one env cnd none = error (lit "[Mysql.FindOne] data is nil" ∷ [])
find_one env cnd (some o) = do
  obv ← find_model env "[Mysql.FindOne] " o.table
  let paged = offset (pos 0) (pos 1) cnd
  part ← where_of paged
  o' ← find_one_where env paged o obv part
  pure (o', paged)

-- What `data` of FindList may be: nil, no pointer, a pointer to no slice, or a pointer to a slice,
-- with its elements up to its capacity.
pub data Target : Type 0 where
  no_target not_pointer not_slice : Target
  slice : List Object → Target

unfoldable pub list_sql : MdlDriver → Text → Text → Text → Text → Text
list_sql obv fields tail groupby sortby =
    codes "select "
    ++ (fields
        ++ (codes " from " ++ (obv.table_name ++ (codes " " ++ (tail ++ (groupby ++ sortby))))))

-- The loop of FindList over the rows.
unfoldable pub read_models :
    Runtime → MdlDriver → Object → List Object → List Row → Go (Result (List Object))
unfolding read_fields
read_models rt obv new acc [] = ok (done acc)
read_models rt obv new acc (row ∷ rows) = elim (read_fields rt true row obv.field_elem 0 new) [
  | panic ↦ panic
  | ok (failed e) ↦ ok (failed e)
  | ok (done o) ↦ read_models rt obv new (acc ++ o ∷ []) rows
]

-- Rows are put behind the slice, and the slice is then cut to the number of rows.
unfoldable pub fill_target :
    Target → List Row → (List Object → Go (Result (List Object))) → Exec (List Object)
unfolding error filled
fill_target (slice olds) out read = filled (read olds) >>= λ all. pure (take (length out) all)
fill_target not_pointer out read = error (lit "[Mysql.FindList] target value kind not ptr" ∷ [])
fill_target _ out read = error (lit "[Mysql.FindList] target value kind not slice" ∷ [])

-- The end of FindList and FindListComplex: without a row the slice stays as it is.
unfoldable pub fill_list :
    Target
    → List Row
    → (List Object → Go (Result (List Object)))
    → Cnd
    → Exec (Option (List Object) × Cnd)
unfolding fill_target set_totals
fill_list dest [] read c =
    pure (none, if c.pagination.is_page then set_totals (pos 0) (pos 0) c else c)
fill_list dest (row ∷ rows) read c =
    fill_target dest (row ∷ rows) read >>= λ objects. pure (some objects, c)

-- The end of FindList, behind BuildPagination.
unfoldable pub run_find_list :
    Env → Target → Object → MdlDriver → List Value → Text × Cnd → Exec (Option (List Object) × Cnd)
unfolding prepare query query_rows or_error out_dest read_models fill_list
run_find_list env dest model obv params (sql, c) = prepare env "[Mysql.FindList] [ " sql do
  r ← query env sql params
  rows ← query_rows "[Mysql.FindList] query failed: " r
  cols ← or_error "[Mysql.FindList] read columns failed: " rows.columns
  out ← or_error "[Mysql.FindList] read result failed: " (out_dest rows)
  fill_list dest out (λ olds. read_models env.runtime obv (env.new_object model) olds out) c

unfoldable pub find_list_where :
    Env → Cnd → Target → Object → MdlDriver → Part → Exec (Option (List Object) × Cnd)
unfolding where_tail build_group_by build_sort_by field_names build_pagination record_again
    run_find_list
find_list_where env cnd dest model obv (case_part, case_arg) = do
  tail ← lift (where_tail case_part)
  groupby ← lift (build_group_by (some cnd))
  sortby ← lift (build_sort_by (some cnd))
  fields ← lift (trim_end 1 (field_names obv.field_elem))
  page ← record_again (build_pagination env cnd (list_sql obv fields tail groupby sortby) case_arg)
  run_find_list env dest model obv case_arg page

unfoldable pub find_list_model :
    Env → Cnd → Target → Option Object → Exec (Option (List Object) × Cnd)
unfolding error find_model where_of find_list_where
find_list_model env cnd dest none = error (lit "[Mysql.FindList] model is nil" ∷ [])
find_list_model env cnd dest (some model) = do
  obv ← find_model env "[Mysql.FindList] " model.table
  part ← where_of cnd
  find_list_where env cnd dest model obv part

-- FindList gives what its slice becomes, or none if it stays.
unfoldable pub find_list : Env → Cnd → Target → Exec (Option (List Object) × Cnd)
unfolding error find_list_model
find_list env cnd no_target = error (lit "[Mysql.FindList] data is nil" ∷ [])
find_list env cnd dest = find_list_model env cnd dest cnd.model
