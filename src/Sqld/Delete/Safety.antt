-- ===== src/Sqld/Delete/Safety.antt =====
-- What DeleteByCnd, Delete and DeleteById send to the database.
use freego.Prelude.{
  Text, codes, ◌≡◌, refl, sym, Bool, true, false, ◌||◌, Option, none, some, List, [], ◌∷◌, ◌++◌,
}
use mathlib.Core.Path.{subst}
use mathlib.Core.Bool.{false≢true}
use freego.Sqlc.Value.{Value}
use freego.Sqlc.Object.{Object}
use freego.Sqlc.Cnd.{Cnd}
use freego.Sqld.Where.{build_where_case}
use freego.Sqld.Where.Clauses.{join, flat, none_in, clauses, args}
use freego.Sqld.Where.Placeholders.{build_where_case-ok}
use freego.Sqld.Model.{MdlDriver}
use freego.Sqld.Exec.{Stmt, Env, lift, ◌>>=◌}
use freego.Sqld.Exec.Adds.{
  Adds, Adds-exec, Adds-guard, Adds-error, Adds-lift-bind, Adds-find_model-bind, adds_rules,
}
use freego.Sqld.Delete.{
  is_empty, where_text, where_of, run_delete, delete_where, delete_by_model, delete_by_cnd,
}
use freego.Sqld.Delete.WhereText.{where_text-flat, ||-false}

-- The statement is `delete from T where c1 and c2 …`: T is the table of the builder's registered
-- model, the c's are the clauses of its conditions, of which there is one at least, and the
-- arguments are theirs, of which there is one at least.
pub record IsDeletion (env : Env) (cnd : Cnd) (t : Stmt) : Type 0 where
  pub model : Object
  pub obv : MdlDriver
  pub of_model : cnd.model ≡ some model
  pub registered : env.model_drivers model.table ≡ some obv
  pub text :
      t.sql
      ≡ codes "delete from "
        ++ (obv.table_name
            ++ (codes " where" ++ join (codes " and") (clauses cnd.escape cnd.conditions)))
  pub params : t.params ≡ args cnd.conditions
  pub has_clause : none_in (clauses cnd.escape cnd.conditions) ≡ false
  pub has_arg : none_in (args cnd.conditions) ≡ false

module _ (env : Env) (cnd : Cnd) (model : Object) (obv : MdlDriver) {M : Stmt → Type 0} where
  run_delete-Adds :
      (vs : List Value) (str2 : Text)
      → ((t : Bool)
          → M (record {
            in_tx = t;
            sql = codes "delete from " ++ (obv.table_name ++ str2);
            params = vs;
          }))
      → Adds M (run_delete env cnd model obv vs str2)
  unfolding run_delete
  run_delete-Adds vs str2 k = search (adds_rules, Adds-exec) depth 12

  cut_where-Adds :
      (x : Text) (xs : List Text) (vs : List Value)
      → Adds M (run_delete env cnd model obv vs (codes " where" ++ join (codes " and") (x ∷ xs)))
      → Adds M (
          lift (where_text " where" (flat (codes " and") (x ∷ xs)))
          >>= run_delete env cnd model obv vs)
  cut_where-Adds x xs vs k = rw (where_text-flat " where" x xs) k

  delete_where-Adds :
      (cls : List Text) (vs : List Value)
      → (none_in cls ≡ false
          → none_in vs ≡ false
          → (t : Bool)
          → M (record {
            in_tx = t;
            sql =
                codes "delete from "
                ++ (obv.table_name ++ (codes " where" ++ join (codes " and") cls));
            params = vs;
          }))
      → Adds M (delete_where env cnd model obv (flat (codes " and") cls, vs))
  unfolding delete_where
  delete_where-Adds [] vs k = unfold flat in search adds_rules
  delete_where-Adds (x ∷ xs) [] k =
      let part = is_empty (flat (codes " and") (x ∷ xs)) in
      Adds-guard (part || true) _
        (lift (where_text " where" (flat (codes " and") (x ∷ xs)))
          >>= run_delete env cnd model obv [])
        (λ h. absurd (false≢true (sym (||-false part true h).1)))
  delete_where-Adds (x ∷ xs) (v ∷ vs) k =
      Adds-guard (is_empty (flat (codes " and") (x ∷ xs)) || false) _
        (lift (where_text " where" (flat (codes " and") (x ∷ xs)))
          >>= run_delete env cnd model obv (v ∷ vs))
        (λ _. cut_where-Adds x xs (v ∷ vs) (run_delete-Adds (v ∷ vs) _ (k refl refl)))

module _ (env : Env) (cnd : Cnd) (model : Object) (obv : MdlDriver) where
  where_of-Adds :
      cnd.model ≡ some model
      → env.model_drivers model.table ≡ some obv
      → Adds (IsDeletion env cnd) (where_of cnd >>= delete_where env cnd model obv)
  unfolding where_of
  where_of-Adds m reg =
      Adds-lift-bind (build_where_case cnd.escape cnd.conditions) (delete_where env cnd model obv)
        λ p h.
          subst (λ part. Adds (IsDeletion env cnd) (delete_where env cnd model obv part))
            (build_where_case-ok cnd.escape cnd.conditions p h).1
            (delete_where-Adds env cnd model obv (clauses cnd.escape cnd.conditions)
              (args cnd.conditions)
              (λ c a t. record {
                model = model;
                obv = obv;
                of_model = m;
                registered = reg;
                text = refl;
                params = refl;
                has_clause = c;
                has_arg = a;
              }))

-- Every statement that DeleteByCnd runs is a deletion with a where clause: it is never reached
-- without a clause or without an argument.
pub delete_by_cnd-IsDeletion :
    (env : Env) (cnd : Cnd) → Adds (IsDeletion env cnd) (delete_by_cnd env cnd)
unfolding delete_by_cnd
delete_by_cnd-IsDeletion env cnd = by_model cnd.model refl
  where
    by_model :
        (m : Option Object) → cnd.model ≡ m → Adds (IsDeletion env cnd) (delete_by_model env cnd m)
    by_model none e = Adds-error _
    by_model (some model) e =
        Adds-find_model-bind env "[Mysql.DeleteByCnd] " model.table
          (λ obv. where_of cnd >>= delete_where env cnd model obv)
          (λ obv reg. where_of-Adds env cnd model obv e reg)
