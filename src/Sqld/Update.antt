-- ===== src/Sqld/Update.antt =====
-- ormx/sqld/base_manager.go: Update and UpdateByCnd of RDBManager.
pub mod Safety
pub mod Obeys
use freego.Prelude.{
  ℕ, ℤ, pos, Text, String, codes, Go, panic, ok, trim_end, leb_ℤ, eq_ℤ, Bool, true, false, ◌&&◌,
  ◌||◌, Option, none, some, List, [], ◌∷◌, ◌++◌, if◌then◌else◌,
}
use freego.Sqlc.Value.{Value, nil, int, str}
use freego.Sqlc.Object.{Object}
use freego.Sqlc.Cnd.{Cnd}
use freego.Sqld.Where.{Part, build_cond_key}
use freego.Sqld.Model.{
  Arg, lit, text, Err, Result, done, failed, FieldKind, int64_kind, string_kind, FieldElem,
  MdlDriver, get_int64, get_string, is_blank, get_value,
}
use freego.Sqld.Exec.{
  update, update_by_cnd, Env, Rdb, Exec, ◌>>=◌, ◌>>◌, pure, throw, error, lift, prepare, exec,
  rows_affected, add_sync, find_model,
}
use freego.Sqld.Delete.{is_empty, where_text, where_of}

-- The loop of Update over the fields: fpart, the arguments so far, and lastInsertId.
pub record SetState : Type 0 where
  pub fpart : Text
  pub parameter : List Value
  pub last_id : Value

abbrev no_id : Err
no_id = lit "[Mysql.Update] data object id is nil" ∷ []

-- The primary key of the object is not set: it is remembered for the where clause.
primary_id : FieldKind → Value → Exec Value
unfolding error
primary_id int64_kind v =
    if eq_ℤ (get_int64 v) (pos 0) then error no_id else pure (int (get_int64 v))
primary_id string_kind v =
    if is_empty (get_string v) then error no_id else pure (str (get_string v))
primary_id _ v = throw (lit "only Int64 and string type IDs are supported" ∷ [])

-- ` `name` = ?,`
set_field_text : Text → Text
set_field_text name = codes " `" ++ (name ++ codes "` = ?,")

set_elem_value : FieldElem → SetState → Result Value → Exec SetState
unfolding set_field_text
set_elem_value e st (failed err) = throw err
set_elem_value e st (done v) = pure (
    if e.is_date && is_blank v then st else record st {
      fpart = st.fpart ++ set_field_text e.field_json_name;
      parameter = st.parameter ++ v ∷ [];
    })

set_elem : Env → MdlDriver → Object → FieldElem → SetState → Exec SetState
unfolding primary_id set_elem_value
set_elem env obv o e st =
    if e.ignore
    then pure st
    else if e.primary
    then (do id ← primary_id obv.pk_kind (o.field obv.pk_offset); pure (record st { last_id = id }))
    else set_elem_value e st (get_value env.runtime o e)

set_elems : Env → MdlDriver → Object → List FieldElem → SetState → Exec SetState
unfolding set_elem
set_elems env obv o [] st = pure st
set_elems env obv o (e ∷ es) st = set_elem env obv o e st >>= λ st'. set_elems env obv o es st'

unfoldable pub update_sql : MdlDriver → Text → Text
update_sql obv sets =
    codes "update "
    ++ (obv.table_name
        ++ (codes " set " ++ (sets ++ (codes " where `" ++ (obv.pk_name ++ codes "` = ?")))))

unfoldable pub update_object : Env → Object → MdlDriver → Exec (Unit {0})
unfolding prepare exec rows_affected add_sync set_elems
update_object env o obv =
    if is_empty obv.pk_name
    then throw (lit "PK field not fond, you can use [updateByCnd]" ∷ [])
    else do
      st ← set_elems env obv o obv.field_elem (record { fpart = []; parameter = []; last_id = nil })
      sets ← lift (trim_end 1 st.fpart)
      prepare env "[Mysql.Update] [ " (update_sql obv sets) do
        r ← exec env (update_sql obv sets) (st.parameter ++ st.last_id ∷ [])
        n ← rows_affected "[Mysql.Update] update failed: " "[Mysql.Update] affected rows failed: " r
        if leb_ℤ n.0 (pos 0)
            then pure tt
            else add_sync obv.to_mongo (record {
              cache_option = update;
              cache_model = o;
              cache_cnd = none;
              cache_object = [];
            })

-- Update
unfoldable pub update_objects : Env → List Object → Exec (Unit {0})
unfolding error find_model update_object
update_objects env [] = error (lit "[Mysql.Update] data is nil" ∷ [])
update_objects env (o ∷ []) =
    find_model env "[Mysql.Update] " o.table >>= λ obv. update_object env o obv
update_objects env (o ∷ (_ ∷ _)) = error (lit "[Mysql.Update] data length must 1" ∷ [])

-- The loop of UpdateByCnd over the upset fields.
upset_text : Bool → List (Text × Value) → Text
upset_text escape [] = []
upset_text escape ((k, v) ∷ m) =
    (if escape then codes " `" ++ (k ++ codes "` = ?,") else codes " " ++ (k ++ codes " = ?,"))
    ++ upset_text escape m

unfoldable pub upset_args : List (Text × Value) → List Value
upset_args [] = []
upset_args ((k, v) ∷ m) = v ∷ upset_args m

unfoldable pub update_by_cnd_sql : MdlDriver → Text → Text → Text
update_by_cnd_sql obv sets str2 =
    codes "update " ++ (obv.table_name ++ (codes " set " ++ (sets ++ (codes " " ++ str2))))

-- The end of UpdateByCnd, behind the construction of the where clause.
run_update : Env → Cnd → Object → MdlDriver → List Value → Text → Exec ℤ
unfolding error prepare exec rows_affected add_sync upset_text upset_args
run_update env cnd model obv case_arg str2 = do
  sets ← lift (trim_end 1 (upset_text cnd.escape cnd.upsets))
  let sql = update_by_cnd_sql obv sets str2
  prepare env "[Mysql.UpdateByCnd] [ " sql do
    r ← exec env sql (upset_args cnd.upsets ++ case_arg)
    n ←
        rows_affected "[Mysql.UpdateByCnd] update failed: "
          "[Mysql.UpdateByCnd] affected rows failed: " r
    if leb_ℤ n.0 (pos 0) then pure (pos 0) else do
      add_sync obv.to_mongo (record {
        cache_option = update_by_cnd;
        cache_model = model;
        cache_cnd = some cnd;
        cache_object = [];
      })
      pure n.0

update_where : Env → Cnd → Object → MdlDriver → Part → Exec ℤ
unfolding error where_text run_update
update_where env cnd model obv (case_part, case_arg) =
    if is_empty case_part || is_empty case_arg
    then error (lit "[Mysql.UpdateByCnd] update WhereCase is nil" ∷ [])
    else (lift (where_text "where" case_part) >>= run_update env cnd model obv case_arg)

update_by_model : Env → Cnd → Option Object → Exec ℤ
unfolding error find_model where_of update_where
update_by_model env cnd none = error (lit "[Mysql.UpdateByCnd] data is nil" ∷ [])
update_by_model env cnd (some model) =
    if is_empty cnd.upsets then error (lit "[Mysql.UpdateByCnd] upset fields is nil" ∷ []) else do
      obv ← find_model env "[Mysql.UpdateByCnd] " model.table
      part ← where_of cnd
      update_where env cnd model obv part

-- UpdateByCnd
unfoldable pub update_with_cnd : Env → Cnd → Exec ℤ
unfolding update_by_model
update_with_cnd env cnd = update_by_model env cnd cnd.model
