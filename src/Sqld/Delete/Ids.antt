-- ===== src/Sqld/Delete/Ids.antt =====
-- What Delete sends to the database.
use freego.Prelude.{
  pos, eq_ℤ, ltb, Text, codes, trim_end, ◌≡◌, refl, ap, ◌∙◌, sym, Bool, false, some, List, [], ◌∷◌,
  ◌++◌, length,
}
use mathlib.Core.List.{append_assoc, append-nil}
use freego.Sqlc.Value.{Value, int, str}
use freego.Sqlc.Object.{Object}
use freego.Sqld.Where.Clauses.{join}
use freego.Sqld.Model.{FieldKind, int64_kind, string_kind, MdlDriver, get_int64, get_string}
use freego.Sqld.Exec.{Stmt, Env, lift, ◌>>=◌}
use freego.Sqld.Exec.Adds.{
  All, Adds, Adds-exec, Adds-error, Adds-guard, Adds-pure, Adds-throw, Adds-if, Adds-lift-bind,
  Adds-find_model-bind, adds_rules,
}
use freego.Sqld.Exec.Yields.{Yields, Yields-pure, Yields-guard, Yields-map, Adds-Yields-bind}
use freego.Sqld.Delete.ById.{cut_id_marks, delete_in_sql-marks}
use freego.Sqld.Where.Cuts.{questions}
use freego.Sqld.Delete.{
  is_empty, id_marks, id_params, delete_in_sql, run_delete_in, delete_checked, delete_objects,
}

-- The keys that stand for the objects, if the key is an Int64 or a String.
abbrev pub keys : MdlDriver → FieldKind → List Object → List Value
keys obv int64_kind [] = []
keys obv int64_kind (o ∷ os) = int (get_int64 (o.field obv.pk_offset)) ∷ keys obv int64_kind os
keys obv string_kind [] = []
keys obv string_kind (o ∷ os) = str (get_string (o.field obv.pk_offset)) ∷ keys obv string_kind os
keys obv _ os = []

-- The key is the zero value of its kind.
abbrev pub nil_id : MdlDriver → FieldKind → Object → Bool
nil_id obv int64_kind o = eq_ℤ (get_int64 (o.field obv.pk_offset)) (pos 0)
nil_id obv string_kind o = is_empty (get_string (o.field obv.pk_offset))
nil_id obv _ o = false

-- The loop collects the keys behind the ones it has, and has seen no nil one.
pub record Collected (obv : MdlDriver) (k : FieldKind) (acc : List Value) (os : List Object)
    (r : List Value) : Type 0 where
  pub all : r ≡ acc ++ keys obv k os
  pub set : All (λ o. nil_id obv k o ≡ false) os

-- One more key, put in front of the others.
Collected-more :
    {obv : MdlDriver} {k : FieldKind} {acc r : List Value} {v : Value} {o : Object}
    {os : List Object}
    → keys obv k (o ∷ os) ≡ v ∷ keys obv k os
    → nil_id obv k o ≡ false
    → Collected obv k (acc ++ v ∷ []) os r
    → Collected obv k acc (o ∷ os) r
Collected-more {obv = obv} {k = k} {acc = acc} {v = v} {os = os} e n c = record {
  all = c.all ∙ append_assoc acc (v ∷ []) (keys obv k os) ∙ ap (λ l. acc ++ l) (sym e);
  set = (n, c.set);
}

id_params-Yields :
    (obv : MdlDriver) (k : FieldKind) (acc : List Value) (os : List Object)
    → Yields (Collected obv k acc os) (id_params obv k acc os)
unfolding id_params
id_params-Yields obv int64_kind acc [] =
    Yields-pure acc (record { all = sym (append-nil acc); set = tt })
id_params-Yields obv int64_kind acc (o ∷ os) =
    Yields-guard (nil_id obv int64_kind o) _ _
      (λ n. Yields-map (λ r c. Collected-more refl n c) (id_params-Yields obv int64_kind _ os))
id_params-Yields obv string_kind acc [] =
    Yields-pure acc (record { all = sym (append-nil acc); set = tt })
id_params-Yields obv string_kind acc (o ∷ os) =
    Yields-guard (nil_id obv string_kind o) _ _
      (λ n. Yields-map (λ r c. Collected-more refl n c) (id_params-Yields obv string_kind _ os))
id_params-Yields obv kind acc [] = Yields-pure acc (record { all = sym (append-nil acc); set = tt })
id_params-Yields obv kind acc (o ∷ os) =
    Yields-map (λ r c. record { all = c.all; set = (refl, c.set) })
      (id_params-Yields obv kind acc os)

id_params-Adds :
    {M : Stmt → Type 0} (obv : MdlDriver) (k : FieldKind) (acc : List Value) (os : List Object)
    → Adds M (id_params obv k acc os)
unfolding id_params
id_params-Adds obv int64_kind acc [] = Adds-pure acc
id_params-Adds obv int64_kind acc (o ∷ os) =
    Adds-guard (nil_id obv int64_kind o) _ _ (λ _. id_params-Adds obv int64_kind _ os)
id_params-Adds obv string_kind acc [] = Adds-pure acc
id_params-Adds obv string_kind acc (o ∷ os) =
    Adds-guard (nil_id obv string_kind o) _ _ (λ _. id_params-Adds obv string_kind _ os)
id_params-Adds obv kind acc [] = Adds-pure acc
id_params-Adds obv kind acc (o ∷ os) = id_params-Adds obv kind acc os

-- The arguments for a key of this kind: the keys of all objects, in order, of which none is zero or
-- empty, if it is an Int64 or a String; a key of another kind has no arguments at all.
abbrev pub IsKeyed : MdlDriver → FieldKind → List Object → List Value → Type 0
IsKeyed obv int64_kind os vs =
    (vs ≡ keys obv int64_kind os)
    × All (λ o. eq_ℤ (get_int64 (o.field obv.pk_offset)) (pos 0) ≡ false) os
IsKeyed obv string_kind os vs =
    (vs ≡ keys obv string_kind os)
    × All (λ o. is_empty (get_string (o.field obv.pk_offset)) ≡ false) os
IsKeyed obv _ os vs = vs ≡ []

Collected-keys :
    (obv : MdlDriver) (k : FieldKind) (os : List Object) (vs : List Value)
    → Collected obv k [] os vs
    → IsKeyed obv k os vs
Collected-keys obv int64_kind os vs c = (c.all, c.set)
Collected-keys obv string_kind os vs c = (c.all, c.set)
Collected-keys obv _ os vs c = c.all

-- The statement is ``delete from T where `k` in (?,…)``: T is the table of the first object's
-- registered model and k the name of its key, which is not empty. There is a placeholder for each
-- object, of which there are at most 2000.
pub record IsDeletionOf (env : Env) (o : Object) (os : List Object) (t : Stmt) : Type 0 where
  pub obv : MdlDriver
  pub registered : env.model_drivers o.table ≡ some obv
  pub has_key : is_empty obv.pk_name ≡ false
  pub text :
      t.sql
      ≡ codes "delete from "
        ++ (obv.table_name
            ++ (codes " where `"
                ++ (obv.pk_name
                    ++ (codes "` in (" ++ (join (codes ",") (questions (o ∷ os)) ++ codes ")")))))
  pub keyed : IsKeyed obv obv.pk_kind (o ∷ os) t.params
  pub few : ltb 2000 (length (o ∷ os)) ≡ false

run_delete_in-Adds :
    {M : Stmt → Type 0} (env : Env) (obv : MdlDriver) (o : Object) (os : List Object)
    (params : List Value) (marks : Text)
    → ((t : Bool) → M (record { in_tx = t; sql = delete_in_sql obv marks; params = params }))
    → Adds M (run_delete_in env obv o os params marks)
unfolding run_delete_in
run_delete_in-Adds env obv o os params marks k = search (adds_rules, Adds-exec) depth 14

module _ (env : Env) (o : Object) (os : List Object) (obv : MdlDriver)
    (few : ltb 2000 (length (o ∷ os)) ≡ false) (reg : env.model_drivers o.table ≡ some obv) where
  marked-Adds :
      is_empty obv.pk_name ≡ false
      → (params : List Value) → Collected obv obv.pk_kind [] (o ∷ os) params
      → Adds
          (IsDeletionOf env o os)
          (lift (trim_end 1 (id_marks (o ∷ os))) >>= run_delete_in env obv o os params)
  marked-Adds key params c =
      Adds-lift-bind (trim_end 1 (id_marks (o ∷ os))) (run_delete_in env obv o os params)
        (λ marks e. run_delete_in-Adds env obv o os params marks (λ t. record {
          obv = obv;
          registered = reg;
          has_key = key;
          text = delete_in_sql-marks obv marks _ (cut_id_marks (o ∷ os) marks e);
          keyed = Collected-keys obv obv.pk_kind (o ∷ os) params c;
          few = few;
        }))

  delete_checked-Adds : Adds (IsDeletionOf env o os) (delete_checked env o os obv)
  unfolding delete_checked
  delete_checked-Adds =
      Adds-if (is_empty obv.pk_name) _ _ (λ _. Adds-throw _)
        (λ key.
          Adds-Yields-bind (id_params obv obv.pk_kind [] (o ∷ os)) _
            (id_params-Adds obv obv.pk_kind [] (o ∷ os))
            (id_params-Yields obv obv.pk_kind [] (o ∷ os)) (marked-Adds key))

-- Every statement that Delete runs is a deletion by the key of the first object's table, with a
-- placeholder for each object. If the key is an Int64 or a String, the arguments are the keys of all
-- objects, in order, and none is zero or empty; if it is of another kind, there are no arguments.
pub delete_objects-IsDeletionOf :
    (env : Env) (o : Object) (os : List Object)
    → Adds (IsDeletionOf env o os) (delete_objects env (o ∷ os))
unfolding delete_objects
delete_objects-IsDeletionOf env o os =
    Adds-if (ltb 2000 (length (o ∷ os))) _ _ (λ _. Adds-error _)
      (λ few.
        Adds-find_model-bind env "[Mysql.Delete] " o.table (delete_checked env o os)
          (λ obv reg. delete_checked-Adds env o os obv few reg))
