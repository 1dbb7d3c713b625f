-- ===== src/Sqld/Delete/Obeys.antt =====
-- The methods that delete obey every framed relation, unless they return an error that they do
-- not record.
use freego.Prelude.{pos, eq_ℤ, ◌++◌, Text, true, Option, none, some, List, [], ◌∷◌, ◌||◌}
use freego.Sqlc.Value.{Value, int, str}
use freego.Sqlc.Object.{Object}
use freego.Sqlc.Cnd.{Cnd}
use freego.Sqld.Where.{Part}
use freego.Sqld.Model.{FieldKind, int64_kind, string_kind, MdlDriver, get_int64, get_string}
use freego.Sqld.Exec.{Env, Rdb}
use freego.Sqld.Exec.Obeys.{
  Relation, Frame, Obeys, Obeys-if, obeys_rules, Obeys-bind, Obeys-error, Obeys-lift, Obeys-pure,
  Obeys-find_model,
}
use freego.Sqld.Delete.{
  is_empty, run_delete, delete_where, delete_by_model, delete_by_cnd, id_params, delete_objects,
  delete_by_id, delete_checked, run_delete_in, delete_by_id_checked, run_delete_by_id,
}

module _ {R : Relation} (fr : Frame R) (env : Env) (cnd : Cnd) where
  run_delete-Obeys :
      (model : Object) (obv : MdlDriver) (vs : List Value) (str2 : Text)
      → Obeys R (run_delete env cnd model obv vs str2)
  unfolding run_delete
  run_delete-Obeys model obv vs str2 = search (obeys_rules, fr) depth 14

  delete_where-Obeys :
      (model : Object) (obv : MdlDriver) (part : Part)
      → Obeys R (delete_where env cnd model obv part)
  unfolding delete_where
  delete_where-Obeys model obv (case_part, case_arg) =
      Obeys-if (is_empty case_part || is_empty case_arg) _ _ (Obeys-error fr _)
        (Obeys-bind fr _ _ (Obeys-lift fr _) (run_delete-Obeys model obv case_arg))

  by_model-Obeys : (m : Option Object) → Obeys R (delete_by_model env cnd m)
  unfolding delete_by_model
  by_model-Obeys none = Obeys-error fr _
  by_model-Obeys (some model) =
      Obeys-bind fr _ _ (Obeys-find_model fr env _ _)
        (λ obv. Obeys-bind fr _ _ (Obeys-lift fr _) (delete_where-Obeys model obv))

  pub delete_by_cnd-Obeys : Obeys R (delete_by_cnd env cnd)
  unfolding delete_by_cnd
  delete_by_cnd-Obeys = by_model-Obeys cnd.model

module _ {R : Relation} (fr : Frame R) (thrown : (s : Rdb) → R s true s) (env : Env) where
  id_params-Obeys :
      (obv : MdlDriver) (kind : FieldKind) (acc : List Value) (os : List Object)
      → Obeys R (id_params obv kind acc os)
  unfolding id_params
  id_params-Obeys obv int64_kind acc [] = Obeys-pure fr acc
  id_params-Obeys obv int64_kind acc (o ∷ os) =
      Obeys-if (eq_ℤ (get_int64 (o.field obv.pk_offset)) (pos 0)) _ _ (Obeys-error fr _)
        (id_params-Obeys obv int64_kind (acc ++ int (get_int64 (o.field obv.pk_offset)) ∷ []) os)
  id_params-Obeys obv string_kind acc [] = Obeys-pure fr acc
  id_params-Obeys obv string_kind acc (o ∷ os) =
      Obeys-if (is_empty (get_string (o.field obv.pk_offset))) _ _ (Obeys-error fr _)
        (id_params-Obeys obv string_kind (acc ++ str (get_string (o.field obv.pk_offset)) ∷ []) os)
  id_params-Obeys obv kind acc [] = Obeys-pure fr acc
  id_params-Obeys obv kind acc (o ∷ os) = id_params-Obeys obv kind acc os

  pub delete_objects-Obeys : (os : List Object) → Obeys R (delete_objects env os)
  unfolding delete_objects delete_checked run_delete_in
  delete_objects-Obeys [] = Obeys-error fr _
  delete_objects-Obeys (o ∷ os) = search (obeys_rules, fr, id_params-Obeys) depth 24

  pub delete_by_id-Obeys : (o : Object) (vs : List Value) → Obeys R (delete_by_id env o vs)
  unfolding delete_by_id delete_by_id_checked run_delete_by_id
  delete_by_id-Obeys o [] = Obeys-error fr _
  delete_by_id-Obeys o (v ∷ vs) = search (obeys_rules, fr) depth 24
