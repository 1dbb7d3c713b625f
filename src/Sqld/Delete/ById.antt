-- ===== src/Sqld/Delete/ById.antt =====
-- What DeleteById and Delete send to the database.
use freego.Prelude.{
  ltb, Text, codes, ok, trim_end, ◌≡◌, refl, ap, ◌∙◌, sym, Bool, false, some, List, [], ◌∷◌, ◌++◌,
  length,
}
use freego.Sqlc.Value.{Value}
use freego.Sqlc.Object.{Object}
use freego.Sqld.Where.Clauses.{join, flat}
use freego.Sqld.Where.Cuts.{questions, cut_flat}
use freego.Sqld.Model.{MdlDriver}
use freego.Sqld.Exec.{Stmt, Env}
use freego.Sqld.Exec.Adds.{
  Adds, Adds-exec, Adds-error, Adds-throw, Adds-if, Adds-lift-bind, Adds-find_model-bind,
  adds_rules,
}
use freego.Sqld.Delete.{
  is_empty, id_marks, delete_in_sql, run_delete_by_id, delete_by_id_checked, delete_by_id,
}

id_marks-flat : {A : Type 0} (ds : List A) → id_marks ds ≡ flat (codes ",") (questions ds)
unfolding id_marks flat
id_marks-flat [] = refl
id_marks-flat (_ ∷ ds) = ap (λ l. codes "?," ++ l) (id_marks-flat ds)

pub cut_id_marks :
    {A : Type 0} (ds : List A) (marks : Text)
    → trim_end 1 (id_marks ds) ≡ ok marks
    → marks ≡ join (codes ",") (questions ds)
cut_id_marks ds marks e =
    cut_flat (questions ds) marks (ap (trim_end 1) (sym (id_marks-flat ds)) ∙ e)

-- The deletion with these placeholders, written out.
pub delete_in_sql-marks :
    (obv : MdlDriver) (marks want : Text)
    → marks ≡ want
    → delete_in_sql obv marks
      ≡ codes "delete from "
        ++ (obv.table_name
            ++ (codes " where `" ++ (obv.pk_name ++ (codes "` in (" ++ (want ++ codes ")")))))
unfolding delete_in_sql
delete_in_sql-marks obv marks want e = rw e refl

-- The statement is ``delete from T where `k` in (?,…)``: T is the table of the object's registered
-- model and k the name of its key, which is not empty. There is a placeholder for each of the ids,
-- of which there are at most 2000, and they are the arguments.
pub record IsDeletionById (env : Env) (o : Object) (ids : List Value) (t : Stmt) : Type 0 where
  pub obv : MdlDriver
  pub registered : env.model_drivers o.table ≡ some obv
  pub has_key : is_empty obv.pk_name ≡ false
  pub text :
      t.sql
      ≡ codes "delete from "
        ++ (obv.table_name
            ++ (codes " where `"
                ++ (obv.pk_name
                    ++ (codes "` in (" ++ (join (codes ",") (questions ids) ++ codes ")")))))
  pub params : t.params ≡ ids
  pub few : ltb 2000 (length ids) ≡ false

run_delete_by_id-Adds :
    {M : Stmt → Type 0} (env : Env) (obv : MdlDriver) (ids : List Value) (marks : Text)
    → ((t : Bool) → M (record { in_tx = t; sql = delete_in_sql obv marks; params = ids }))
    → Adds M (run_delete_by_id env obv ids marks)
unfolding run_delete_by_id
run_delete_by_id-Adds env obv ids marks k = search (adds_rules, Adds-exec) depth 14

delete_by_id_checked-Adds :
    (env : Env) (o : Object) (v : Value) (vs : List Value) (obv : MdlDriver)
    → ltb 2000 (length (v ∷ vs)) ≡ false
    → env.model_drivers o.table ≡ some obv
    → Adds (IsDeletionById env o (v ∷ vs)) (delete_by_id_checked env (v ∷ vs) obv)
unfolding delete_by_id_checked
delete_by_id_checked-Adds env o v vs obv few reg =
    Adds-if (is_empty obv.pk_name) _ _ (λ _. Adds-throw _)
      (λ key.
        Adds-lift-bind (trim_end 1 (id_marks (v ∷ vs))) (run_delete_by_id env obv (v ∷ vs))
          (λ marks e. run_delete_by_id-Adds env obv (v ∷ vs) marks (λ t. record {
            obv = obv;
            registered = reg;
            has_key = key;
            text = delete_in_sql-marks obv marks _ (cut_id_marks (v ∷ vs) marks e);
            params = refl;
            few = few;
          })))

-- Every statement that DeleteById runs is a deletion by the key of the object's table, with the
-- ids for arguments and a placeholder for each of them.
pub delete_by_id-IsDeletionById :
    (env : Env) (o : Object) (ids : List Value)
    → Adds (IsDeletionById env o ids) (delete_by_id env o ids)
unfolding delete_by_id
delete_by_id-IsDeletionById env o [] = Adds-error _
delete_by_id-IsDeletionById env o (v ∷ vs) =
    Adds-if (ltb 2000 (length (v ∷ vs))) _ _ (λ _. Adds-error _)
      (λ few.
        Adds-find_model-bind env "[Mysql.DeleteById] " o.table (delete_by_id_checked env (v ∷ vs))
          (λ obv reg. delete_by_id_checked-Adds env o v vs obv few reg))
