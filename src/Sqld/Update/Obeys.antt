-- ===== src/Sqld/Update/Obeys.antt =====
-- UpdateByCnd obeys every framed relation, unless they return an error that they do
-- not record.
use freego.Prelude.{Text, true, Option, none, some, List, [], ◌∷◌, ◌||◌}
use freego.Sqlc.Value.{Value}
use freego.Sqlc.Object.{Object}
use freego.Sqlc.Cnd.{Cnd}
use freego.Sqld.Where.{Part}
use freego.Sqld.Model.{
  Result, done, failed, FieldKind, int64_kind, string_kind, FieldElem, MdlDriver,
}
use freego.Sqld.Exec.{Env, Rdb}
use freego.Sqld.Exec.Obeys.{
  Relation, Frame, Obeys, Obeys-if, obeys_rules, Obeys-bind, Obeys-error, Obeys-lift, Obeys-pure,
  Obeys-throw, Obeys-find_model,
}
use freego.Sqld.Delete.{is_empty}
use freego.Sqld.Update.{
  run_update, update_where, update_by_model, update_with_cnd, SetState, primary_id, set_elem_value,
  set_elem, set_elems, update_object, update_objects,
}

module _ {R : Relation} (fr : Frame R) (env : Env) (cnd : Cnd) where
  run_update-Obeys :
      (model : Object) (obv : MdlDriver) (vs : List Value) (str2 : Text)
      → Obeys R (run_update env cnd model obv vs str2)
  unfolding run_update
  run_update-Obeys model obv vs str2 = search (obeys_rules, fr) depth 14

  update_where-Obeys :
      (model : Object) (obv : MdlDriver) (part : Part)
      → Obeys R (update_where env cnd model obv part)
  unfolding update_where
  update_where-Obeys model obv (case_part, case_arg) =
      Obeys-if (is_empty case_part || is_empty case_arg) _ _ (Obeys-error fr _)
        (Obeys-bind fr _ _ (Obeys-lift fr _) (run_update-Obeys model obv case_arg))

  by_model-Obeys : (m : Option Object) → Obeys R (update_by_model env cnd m)
  unfolding update_by_model
  by_model-Obeys none = Obeys-error fr _
  by_model-Obeys (some model) = Obeys-if (is_empty cnd.upsets) _ _ (Obeys-error fr _) (
      Obeys-bind fr _ _ (Obeys-find_model fr env _ _)
        (λ obv. Obeys-bind fr _ _ (Obeys-lift fr _) (update_where-Obeys model obv)))

  pub update_with_cnd-Obeys : Obeys R (update_with_cnd env cnd)
  unfolding update_with_cnd
  update_with_cnd-Obeys = by_model-Obeys cnd.model

module _ {R : Relation} (fr : Frame R) (thrown : (s : Rdb) → R s true s) (env : Env) where
  primary_id-Obeys : (k : FieldKind) (v : Value) → Obeys R (primary_id k v)
  unfolding primary_id
  primary_id-Obeys int64_kind v = search (obeys_rules, fr)
  primary_id-Obeys string_kind v = search (obeys_rules, fr)
  primary_id-Obeys _ v = Obeys-throw thrown _

  set_elem_value-Obeys :
      (e : FieldElem) (st : SetState) (r : Result Value) → Obeys R (set_elem_value e st r)
  unfolding set_elem_value
  set_elem_value-Obeys e st (failed err) = Obeys-throw thrown err
  set_elem_value-Obeys e st (done v) = Obeys-pure fr _

  set_elem-Obeys :
      (obv : MdlDriver) (o : Object) (e : FieldElem) (st : SetState)
      → Obeys R (set_elem env obv o e st)
  unfolding set_elem
  set_elem-Obeys obv o e st =
      search (obeys_rules, fr, primary_id-Obeys, set_elem_value-Obeys) depth 10

  set_elems-Obeys :
      (obv : MdlDriver) (o : Object) (es : List FieldElem) (st : SetState)
      → Obeys R (set_elems env obv o es st)
  unfolding set_elems
  set_elems-Obeys obv o [] st = Obeys-pure fr st
  set_elems-Obeys obv o (e ∷ es) st =
      Obeys-bind fr _ _ (set_elem-Obeys obv o e st) (λ st'. set_elems-Obeys obv o es st')

  update_object-Obeys : (o : Object) (obv : MdlDriver) → Obeys R (update_object env o obv)
  unfolding update_object
  update_object-Obeys o obv = search (obeys_rules, fr, thrown, set_elems-Obeys) depth 20

  pub update_objects-Obeys : (os : List Object) → Obeys R (update_objects env os)
  unfolding update_objects
  update_objects-Obeys [] = Obeys-error fr _
  update_objects-Obeys (o ∷ []) =
      Obeys-bind fr _ _ (Obeys-find_model fr env _ _) (λ obv. update_object-Obeys o obv)
  update_objects-Obeys (o ∷ (p ∷ os)) = Obeys-error fr _
