-- ===== src/Sqld/Save.antt =====
-- ormx/sqld/base_manager.go: Save of RDBManager.
pub mod Obeys
pub mod Entries
pub mod Rows
pub mod Objects
pub mod Safety
use freego.Prelude.{
  ℕ, suc, ℤ, pos, Text, String, codes, Go, panic, ok, trim_end, leb_ℤ, eq_ℤ, ltb, ◌==◌, Bool, true,
  false, not, ◌&&◌, Option, none, some, List, [], ◌∷◌, ◌++◌, length, if◌then◌else◌,
}
use freego.Sqlc.Value.{Value, nil, int, str}
use freego.Sqlc.Object.{Object, set_field}
use freego.Sqld.Model.{
  Arg, lit, text, num, Err, Result, done, failed, FieldKind, int64_kind, string_kind, FieldElem,
  MdlDriver, get_int64, get_string, is_blank, get_value,
}
use freego.Sqld.Exec.{
  save, Env, Rdb, Exec, ◌>>=◌, ◌>>◌, pure, throw, error, lift, get_state, prepare, exec,
  rows_affected, add_sync, find_model,
}
use freego.Sqld.Delete.{is_empty}

-- The loop over the fields of one object: the object, the columns, the placeholders of its row,
-- and the arguments of all rows so far.
pub record RowState : Type 0 where
  pub object : Object
  pub fpart : Text
  pub vpart : Text
  pub parameter : List Value

-- utils.NextIID() and utils.NextSID()
next_iid : Env → Exec ℤ
next_iid env s = ok (done (env.runtime.next_iid s.drawn), record s { drawn = suc s.drawn })

next_sid : Env → Exec Text
next_sid env s = ok (done (env.runtime.next_sid s.drawn), record s { drawn = suc s.drawn })

-- The end of a round: the column, until the first row is complete (`fready`), and a placeholder.
add_column : Bool → FieldElem → Value → RowState → RowState
add_column fready e v st = record st {
  fpart = if fready then st.fpart else st.fpart ++ (codes "`" ++ (e.field_json_name ++ codes "`,"));
  vpart = st.vpart ++ codes "?,";
  parameter = st.parameter ++ v ∷ [];
}

-- The primary key. Without an id the database draws one if the model says so, else the
-- snowflake node does. The string id that is drawn is a variable of its own in the source: the
-- argument stays the empty text.
primary_column : Env → Bool → MdlDriver → FieldElem → RowState → FieldKind → Exec RowState
unfolding next_iid next_sid add_column
primary_column env fready obv e st int64_kind =
    let id = get_int64 (st.object.field obv.pk_offset) in
    if not (eq_ℤ id (pos 0))
    then pure (add_column fready e (int id) st)
    else if obv.auto_id
    then pure st
    else (do
      new ← next_iid env
      pure (
          add_column fready e (int new)
            (record st { object = set_field st.object e.field_offset (int new) })))
primary_column env fready obv e st string_kind =
    let id = get_string (st.object.field obv.pk_offset) in
    if not (is_empty id)
    then pure (add_column fready e (str id) st)
    else if obv.auto_id
    then pure st
    else (do
      new ← next_sid env
      pure (
          add_column fready e (str [])
            (record st { object = set_field st.object e.field_offset (str new) })))
primary_column env fready obv e st _ =
    throw (lit "only Int64 and string type IDs are supported" ∷ [])

-- Any other field; one whose value cannot be had is logged and left out.
value_column : Env → Bool → FieldElem → RowState → Result Value → RowState
unfolding add_column
value_column env fready e st (failed err) = st
value_column env fready e st (done v) =
    add_column fready e (if e.is_date && is_blank v then str env.runtime.now_text else v) st

column : Env → Bool → Bool → MdlDriver → FieldElem → RowState → Exec RowState
unfolding primary_column value_column
column env auto_id fready obv e st =
    if e.ignore
    then pure st
    else if e.primary
    then (if auto_id then pure st else primary_column env fready obv e st e.field_kind)
    else pure (value_column env fready e st (get_value env.runtime st.object e))

unfoldable pub columns : Env → Bool → Bool → MdlDriver → List FieldElem → RowState → Exec RowState
unfolding column
columns env auto_id fready obv [] st = pure st
columns env auto_id fready obv (e ∷ es) st =
    column env auto_id fready obv e st >>= λ st'. columns env auto_id fready obv es st'

-- The loop over the objects: the columns, all rows, the arguments, and the objects with the ids
-- that they were given.
pub record SaveState : Type 0 where
  pub columns : Text
  pub rows : Text
  pub params : List Value
  pub objects : List Object

unfoldable pub rows_of : Env → Bool → Bool → MdlDriver → List Object → SaveState → Exec SaveState
unfolding columns
rows_of env auto_id fready obv [] st = pure st
rows_of env auto_id fready obv (o ∷ os) st = do
  row ←
      columns env auto_id fready obv obv.field_elem
        (record { object = o; fpart = st.columns; vpart = codes " ("; parameter = st.params })
  vstr ← lift (trim_end 1 row.vpart)
  rows_of env auto_id true obv os (record {
    columns = row.fpart;
    rows = st.rows ++ (vstr ++ codes "),");
    params = row.parameter;
    objects = st.objects ++ row.object ∷ [];
  })

unfoldable pub insert_sql : MdlDriver → Text → Text → Text
insert_sql obv cols rows =
    codes "insert into "
    ++ (obv.table_name ++ (codes " (" ++ (cols ++ (codes ")" ++ (codes " values " ++ rows)))))

-- With AutoID, the id of the row is written to the first primary field.
set_last_id : List FieldElem → ℤ → Object → Object
set_last_id [] id o = o
set_last_id (e ∷ es) id o =
    if e.primary then set_field o e.field_offset (int id) else set_last_id es id o

last_insert_id : MdlDriver → List Object → Result ℤ → Exec (List Object)
unfolding error set_last_id
last_insert_id obv os (failed e) = error (lit "[Mysql.Save] save get last id failed: " ∷ e)
last_insert_id obv [] (done id) = pure []
last_insert_id obv (o ∷ os) (done id) = pure (set_last_id obv.field_elem id o ∷ os)

-- `data[0]`, which is the same object after it was given an id.
abbrev first_object {ℓ} : {A : Type ℓ} → A → List A → A
first_object a [] = a
first_object a (x ∷ _) = x

-- The end of Save, with the columns and the rows that it cut out of its buffers.
insert_rows : Env → Object → MdlDriver → Rdb → SaveState → Text → Text → Exec (List Object)
unfolding error prepare exec rows_affected add_sync last_insert_id
insert_rows env o obv self st cols rows =
    prepare env "[Mysql.Save] [ " (insert_sql obv cols rows) do
      r ← exec env (insert_sql obv cols rows) st.params
      n ← rows_affected "[Mysql.Save] save failed: " "[Mysql.Save] affected rows failed: " r
      if leb_ℤ n.0 (pos 0)
          then error (lit "[Mysql.Save] affected rows <= 0: " ∷ num n.0 ∷ [])
          else do
            saved ← (if self.auto_id then last_insert_id obv st.objects n.1 else pure st.objects)
            add_sync obv.to_mongo (record {
              cache_option = save;
              cache_model = first_object o saved;
              cache_cnd = none;
              cache_object = saved;
            })
            pure saved

insert_all : Env → Object → MdlDriver → Rdb → SaveState → Exec (List Object)
unfolding insert_rows
insert_all env o obv self st = lift (trim_end 1 st.columns) >>= λ cols.
    lift (trim_end 1 st.rows) >>= insert_rows env o obv self st cols

-- Save returns the objects, which the caller holds by pointer.
save_objects : Env → Object → List Object → MdlDriver → Rdb → Exec (List Object)
unfolding rows_of insert_all
save_objects env o os obv self =
    rows_of env self.auto_id false obv (o ∷ os)
      (record { columns = []; rows = []; params = []; objects = [] })
    >>= insert_all env o obv self

save_checked : Env → Object → List Object → Rdb → Exec (List Object)
unfolding error find_model save_objects
save_checked env o os self =
    if ltb 2000 (length (o ∷ os))
    then error (lit "[Mysql.Save] data length > 2000" ∷ [])
    else if self.auto_id && not (is_empty os)
    then error (lit "[Mysql.Save] auto ID unsupported many object" ∷ [])
    else (find_model env "[Mysql.Save] " o.table >>= λ obv. save_objects env o os obv self)

unfoldable pub save_all : Env → List Object → Exec (List Object)
unfolding error save_checked
save_all env [] = error (lit "[Mysql.Save] data is nil" ∷ [])
save_all env (o ∷ os) = get_state >>= λ self. save_checked env o os self
