-- ===== src/Sqld/Save/Obeys.antt =====
-- Save obeys every framed relation that allows for an unrecorded error.
use freego.Prelude.{ℤ, Bool, true, List, [], ◌∷◌}
use freego.Sqlc.Object.{Object}
use freego.Sqld.Model.{
  Result, done, failed, FieldKind, int64_kind, string_kind, FieldElem, MdlDriver,
}
use freego.Sqld.Exec.{Env, Rdb, get_state}
use freego.Sqld.Exec.Obeys.{
  Relation, Frame, Obeys, obeys_rules, Obeys-bind, Obeys-error, Obeys-lift, Obeys-pure, Obeys-throw,
}
use freego.Sqld.Save.{
  RowState, next_iid, next_sid, primary_column, column, columns, SaveState, rows_of, last_insert_id,
  insert_rows, insert_all, save_objects, save_checked, save_all,
}

module _ {R : Relation} (fr : Frame R) (thrown : (s : Rdb) → R s true s) (env : Env) where
  next_iid-Obeys : Obeys R (next_iid env)
  unfolding next_iid
  next_iid-Obeys = record { at = λ s. fr.drew s _ }

  next_sid-Obeys : Obeys R (next_sid env)
  unfolding next_sid
  next_sid-Obeys = record { at = λ s. fr.drew s _ }

  primary_column-Obeys :
      (fready : Bool) (obv : MdlDriver) (e : FieldElem) (st : RowState) (k : FieldKind)
      → Obeys R (primary_column env fready obv e st k)
  unfolding primary_column
  primary_column-Obeys fready obv e st int64_kind =
      search (obeys_rules, fr, next_iid-Obeys) depth 12
  primary_column-Obeys fready obv e st string_kind =
      search (obeys_rules, fr, next_sid-Obeys) depth 12
  primary_column-Obeys fready obv e st _ = Obeys-throw thrown _

  column-Obeys :
      (auto_id fready : Bool) (obv : MdlDriver) (e : FieldElem) (st : RowState)
      → Obeys R (column env auto_id fready obv e st)
  unfolding column
  column-Obeys auto_id fready obv e st = search (obeys_rules, fr, primary_column-Obeys) depth 12

  columns-Obeys :
      (auto_id fready : Bool) (obv : MdlDriver) (es : List FieldElem) (st : RowState)
      → Obeys R (columns env auto_id fready obv es st)
  unfolding columns
  columns-Obeys auto_id fready obv [] st = Obeys-pure fr st
  columns-Obeys auto_id fready obv (e ∷ es) st =
      Obeys-bind fr _ _ (column-Obeys auto_id fready obv e st)
        (λ st'. columns-Obeys auto_id fready obv es st')

  rows_of-Obeys :
      (auto_id fready : Bool) (obv : MdlDriver) (os : List Object) (st : SaveState)
      → Obeys R (rows_of env auto_id fready obv os st)
  unfolding rows_of
  rows_of-Obeys auto_id fready obv [] st = Obeys-pure fr st
  rows_of-Obeys auto_id fready obv (o ∷ os) st =
      Obeys-bind fr _ _ (columns-Obeys auto_id fready obv obv.field_elem _)
        (λ row. Obeys-bind fr _ _ (Obeys-lift fr _) (λ vstr. rows_of-Obeys auto_id true obv os _))

  last_insert_id-Obeys :
      (obv : MdlDriver) (os : List Object) (r : Result ℤ) → Obeys R (last_insert_id obv os r)
  unfolding last_insert_id
  last_insert_id-Obeys obv os (failed e) = Obeys-error fr _
  last_insert_id-Obeys obv [] (done id) = Obeys-pure fr _
  last_insert_id-Obeys obv (o ∷ os) (done id) = Obeys-pure fr _

  save_objects-Obeys :
      (o : Object) (os : List Object) (obv : MdlDriver) (self : Rdb)
      → Obeys R (save_objects env o os obv self)
  unfolding save_objects insert_all insert_rows
  save_objects-Obeys o os obv self =
      search (obeys_rules, fr, rows_of-Obeys, last_insert_id-Obeys) depth 25

  save_checked-Obeys :
      (o : Object) (os : List Object) (self : Rdb) → Obeys R (save_checked env o os self)
  unfolding save_checked
  save_checked-Obeys o os self = search (obeys_rules, fr, save_objects-Obeys) depth 12

  pub save_all-Obeys : (os : List Object) → Obeys R (save_all env os)
  unfolding save_all
  save_all-Obeys [] = Obeys-error fr _
  save_all-Obeys (o ∷ os) =
      Obeys-bind fr get_state _ (record { at = λ s. fr.same s })
        (λ self. save_checked-Obeys o os self)
