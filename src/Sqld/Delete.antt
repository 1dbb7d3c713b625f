-- ===== src/Sqld/Delete.antt =====
-- ormx/sqld/base_manager.go: Delete, DeleteById and DeleteByCnd of RDBManager.
pub mod WhereText
pub mod Safety
pub mod Runs
pub mod Obeys
pub mod ById
pub mod Ids
use freego.Prelude.{
  ◌>>=◌ as go_bind, ℕ, ℤ, pos, Text, String, codes, Go, panic, ok, trim_end, leb_ℤ, eq_ℤ, ltb, Bool,
  true, false, not, ◌||◌, Option, none, some, List, [], ◌∷◌, ◌++◌, length, if◌then◌else◌,
}
use freego.Sqlc.Value.{Value, int, str, Conditions}
use freego.Sqlc.Object.{Object}
use freego.Sqlc.Cnd.{Cnd}
use freego.Sqld.Where.{Part, build_where_case}
use freego.Sqld.Model.{
  Arg, lit, text, num, Err, Result, done, failed, FieldKind, int64_kind, string_kind, MdlDriver,
  get_int64, get_string,
}
use freego.Sqld.Exec.{
  CacheOption, delete, MgoSyncData, Stmt, ExecReply, Env, Rdb, Exec, ◌>>=◌, ◌>>◌, pure, throw,
  error, lift, prepare, exec, rows_affected, add_sync, find_model,
}

abbrev pub is_empty {ℓ} : {A : Type ℓ} → List A → Bool
is_empty [] = true
is_empty _ = false

-- `part[0 : len(part)-3]` behind the word, and the result without its last byte.
unfoldable pub where_text : String → Text → Go Text
where_text word part = go_bind (trim_end 3 part) (λ s. trim_end 1 (codes word ++ s))

-- BuildWhereCase of a builder.
unfoldable pub where_of : Cnd → Exec Part
where_of c = lift (build_where_case c.escape c.conditions)

-- The two loops over the data: the placeholders, and the ids. A key that is neither Int64 nor
-- String gives a placeholder and no argument.
unfoldable pub id_marks : {A : Type 0} → List A → Text
id_marks [] = []
id_marks (_ ∷ ds) = codes "?," ++ id_marks ds

abbrev id_nil : Err
id_nil = lit "[Mysql.Delete] data object id is nil" ∷ []

unfoldable pub id_params : MdlDriver → FieldKind → List Value → List Object → Exec (List Value)
unfolding error
id_params obv kind acc [] = pure acc
id_params obv int64_kind acc (o ∷ os) =
    let id = get_int64 (o.field obv.pk_offset) in
    let rest = id_params obv int64_kind (acc ++ int id ∷ []) os in
    if eq_ℤ id (pos 0) then error id_nil else rest
id_params obv string_kind acc (o ∷ os) =
    let id = get_string (o.field obv.pk_offset) in
    let rest = id_params obv string_kind (acc ++ str id ∷ []) os in
    if is_empty id then error id_nil else rest
id_params obv kind acc (o ∷ os) = id_params obv kind acc os

-- The placeholders are never an empty text here, so "where case is nil" is not reached.
-- `delete from T where `pk` in (?,?)`
unfoldable pub delete_in_sql : MdlDriver → Text → Text
delete_in_sql obv marks =
    codes "delete from "
    ++ (obv.table_name
        ++ (codes " where `" ++ (obv.pk_name ++ (codes "` in (" ++ (marks ++ codes ")")))))

-- The end of Delete, behind the construction of the placeholders.
run_delete_in : Env → MdlDriver → Object → List Object → List Value → Text → Exec (Unit {0})
unfolding error prepare exec rows_affected add_sync
run_delete_in env obv o os params marks =
    prepare env "[Mysql.Delete] [ " (delete_in_sql obv marks) do
      r ← exec env (delete_in_sql obv marks) params
      n ← rows_affected "[Mysql.Delete] delete failed: " "[Mysql.Delete] affected rows failed: " r
      if leb_ℤ n.0 (pos 0)
          then pure tt
          else add_sync obv.to_mongo (record {
            cache_option = delete;
            cache_model = o;
            cache_cnd = none;
            cache_object = o ∷ os;
          })

unfoldable pub delete_checked : Env → Object → List Object → MdlDriver → Exec (Unit {0})
unfolding id_params run_delete_in
delete_checked env o os obv =
    if is_empty obv.pk_name
    then throw (lit "PK field not fond, you can use [deleteByCnd]" ∷ [])
    else (id_params obv obv.pk_kind [] (o ∷ os) >>= λ params.
        lift (trim_end 1 (id_marks (o ∷ os))) >>= run_delete_in env obv o os params)

-- Delete
unfoldable pub delete_objects : Env → List Object → Exec (Unit {0})
unfolding error find_model delete_checked
delete_objects env [] = error (lit "[Mysql.Delete] data is nil" ∷ [])
delete_objects env (o ∷ os) =
    if ltb 2000 (length (o ∷ os))
    then error (lit "[Mysql.Delete] data length > 2000" ∷ [])
    else (find_model env "[Mysql.Delete] " o.table >>= delete_checked env o os)

-- DeleteById; a deletion by id is not passed on to MongoDB.
run_delete_by_id : Env → MdlDriver → List Value → Text → Exec ℤ
unfolding error prepare exec rows_affected
run_delete_by_id env obv ids marks =
    prepare env "[Mysql.DeleteById] [ " (delete_in_sql obv marks) do
      r ← exec env (delete_in_sql obv marks) ids
      n ←
          rows_affected "[Mysql.DeleteById] delete failed: "
            "[Mysql.DeleteById] affected rows failed: " r
      pure (if leb_ℤ n.0 (pos 0) then pos 0 else n.0)

unfoldable pub delete_by_id_checked : Env → List Value → MdlDriver → Exec ℤ
unfolding run_delete_by_id
delete_by_id_checked env ids obv =
    if is_empty obv.pk_name
    then throw (lit "PK field not fond, you can use [deleteByCnd]" ∷ [])
    else (lift (trim_end 1 (id_marks ids)) >>= run_delete_by_id env obv ids)

unfoldable pub delete_by_id : Env → Object → List Value → Exec ℤ
unfolding error find_model delete_by_id_checked
delete_by_id env object [] = error (lit "[Mysql.DeleteById] data is nil" ∷ [])
delete_by_id env object (v ∷ vs) =
    if ltb 2000 (length (v ∷ vs))
    then error (lit "[Mysql.DeleteById] data length > 2000" ∷ [])
    else (find_model env "[Mysql.DeleteById] " object.table >>= delete_by_id_checked env (v ∷ vs))

-- The end of DeleteByCnd, behind the construction of the where clause.
run_delete : Env → Cnd → Object → MdlDriver → List Value → Text → Exec ℤ
unfolding error prepare exec rows_affected add_sync
run_delete env cnd model obv case_arg str2 =
    let sql = codes "delete from " ++ (obv.table_name ++ str2) in
    prepare env "[Mysql.DeleteByCnd] [ " sql do
      r ← exec env sql case_arg
      n ←
          rows_affected "[Mysql.DeleteByCnd] update failed: "
            "[Mysql.DeleteByCnd] affected rows failed: " r
      if leb_ℤ n.0 (pos 0) then pure (pos 0) else do
        add_sync obv.to_mongo (record {
          cache_option = delete;
          cache_model = model;
          cache_cnd = some cnd;
          cache_object = [];
        })
        pure n.0

delete_where : Env → Cnd → Object → MdlDriver → Part → Exec ℤ
unfolding error where_text run_delete
delete_where env cnd model obv (case_part, case_arg) =
    if is_empty case_part || is_empty case_arg
    then error (lit "[Mysql.DeleteByCnd] update WhereCase is nil" ∷ [])
    else (lift (where_text " where" case_part) >>= run_delete env cnd model obv case_arg)

delete_by_model : Env → Cnd → Option Object → Exec ℤ
unfolding error find_model where_of delete_where
delete_by_model env cnd none = error (lit "[Mysql.DeleteByCnd] data is nil" ∷ [])
delete_by_model env cnd (some model) = do
  obv ← find_model env "[Mysql.DeleteByCnd] " model.table
  part ← where_of cnd
  delete_where env cnd model obv part

unfoldable pub delete_by_cnd : Env → Cnd → Exec ℤ
unfolding delete_by_model
delete_by_cnd env cnd = delete_by_model env cnd cnd.model
