-- ===== src/Sqld/Update/Safety.antt =====
-- What UpdateByCnd sends to the database.
use mathlib.Core.Path.{subst}
use mathlib.Core.Bool.{false≢true}
use mathlib.Core.List.{append_assoc}
use freego.Prelude.{
  Text, codes, ok, trim_end, trim_end-append, ◌≡◌, refl, ap, ◌∙◌, sym, Bool, true, false, ◌||◌,
  Option, none, some, List, [], ◌∷◌, ◌++◌,
}
use freego.Sqlc.Value.{Value}
use freego.Sqlc.Object.{Object}
use freego.Sqlc.Cnd.{Cnd}
use freego.Sqld.Where.{build_cond_key, build_where_case}
use freego.Sqld.Where.Clauses.{join, flat, none_in, clauses, args}
use freego.Sqld.Where.Refinement.{flat-join}
use freego.Sqld.Where.Placeholders.{build_where_case-ok}
use freego.Sqld.Model.{MdlDriver}
use freego.Sqld.Exec.{Stmt, Env, lift, ◌>>=◌}
use freego.Sqld.Exec.Adds.{
  Adds, Adds-exec, Adds-guard, Adds-error, Adds-lift-bind, Adds-find_model-bind, adds_rules,
}
use freego.Sqld.Delete.{is_empty, where_text, where_of}
use freego.Sqld.Delete.WhereText.{where_text-flat, ||-false}
use freego.Sqld.Update.{
  upset_text, upset_args, update_by_cnd_sql, run_update, update_where, update_by_model,
  update_with_cnd,
}

-- The assignments ` `k` = ?`, one for each upset field.
unfoldable pub assignments : Bool → List (Text × Value) → List Text
unfolding build_cond_key
assignments e [] = []
assignments e ((k, v) ∷ m) = (build_cond_key e k ++ codes " = ?") ∷ assignments e m

upset_text-flat :
    (e : Bool) (m : List (Text × Value)) → upset_text e m ≡ flat (codes ",") (assignments e m)
unfolding upset_text flat assignments
upset_text-flat e [] = refl
upset_text-flat true ((k, v) ∷ m) = simp (upset_text-flat true m, append_assoc)
upset_text-flat false ((k, v) ∷ m) = simp (upset_text-flat false m, append_assoc)

trim_upset :
    (e : Bool) (k : Text) (v : Value) (m : List (Text × Value))
    → trim_end 1 (upset_text e ((k, v) ∷ m)) ≡ ok (join (codes ",") (assignments e ((k, v) ∷ m)))
unfolding assignments
trim_upset e k v m =
    let all = assignments e ((k, v) ∷ m) in
    ap (trim_end 1) (
      upset_text-flat e ((k, v) ∷ m)
      ∙ flat-join (codes ",") (build_cond_key e k ++ codes " = ?") (assignments e m))
    ∙ trim_end-append 1 (join (codes ",") all) (codes ",") refl

-- The values of the upset fields.
abbrev pub values : List (Text × Value) → List Value
values [] = []
values ((k, v) ∷ m) = v ∷ values m

upset_args-values : (m : List (Text × Value)) → upset_args m ≡ values m
unfolding upset_args
upset_args-values [] = refl
upset_args-values ((k, v) ∷ m) = ap (λ l. v ∷ l) (upset_args-values m)

-- The statement is `update T set a1,a2 where c1 and c2 …`: T is the table of the builder's
-- registered model; there is an assignment for each upset field, of
-- which there is one at least, and one clause at least; the arguments are the upset values, then
-- those of the clauses, of which there is one at least.
pub record IsUpdate (env : Env) (cnd : Cnd) (t : Stmt) : Type 0 where
  pub model : Object
  pub obv : MdlDriver
  pub of_model : cnd.model ≡ some model
  pub registered : env.model_drivers model.table ≡ some obv
  pub text :
      t.sql
      ≡ codes "update "
        ++ (obv.table_name
            ++ (codes " set "
                ++ (join (codes ",") (assignments cnd.escape cnd.upsets)
                    ++ (codes " where"
                        ++ join (codes " and") (clauses cnd.escape cnd.conditions)))))
  pub params : t.params ≡ values cnd.upsets ++ args cnd.conditions
  pub has_field : is_empty cnd.upsets ≡ false
  pub has_clause : none_in (clauses cnd.escape cnd.conditions) ≡ false
  pub has_arg : none_in (args cnd.conditions) ≡ false

module _ (env : Env) (cnd : Cnd) (model : Object) (obv : MdlDriver) {M : Stmt → Type 0} where
  run_update-Adds :
      (vs : List Value) (str2 sets : Text)
      → trim_end 1 (upset_text cnd.escape cnd.upsets) ≡ ok sets
      → ((t : Bool)
          → M (record {
            in_tx = t;
            sql = update_by_cnd_sql obv sets str2;
            params = upset_args cnd.upsets ++ vs;
          }))
      → Adds M (run_update env cnd model obv vs str2)
  unfolding run_update
  run_update-Adds vs str2 sets e k = rw e (search (adds_rules, Adds-exec) depth 12)

  cut_where-Adds :
      (x : Text) (xs : List Text) (vs : List Value)
      → Adds M (run_update env cnd model obv vs (codes "where" ++ join (codes " and") (x ∷ xs)))
      → Adds M (
          lift (where_text "where" (flat (codes " and") (x ∷ xs)))
          >>= run_update env cnd model obv vs)
  cut_where-Adds x xs vs k = rw (where_text-flat "where" x xs) k

  update_where-Adds :
      (cls : List Text) (vs : List Value) (sets : Text)
      → trim_end 1 (upset_text cnd.escape cnd.upsets) ≡ ok sets
      → (none_in cls ≡ false
          → none_in vs ≡ false
          → (t : Bool)
          → M (record {
            in_tx = t;
            sql = update_by_cnd_sql obv sets (codes "where" ++ join (codes " and") cls);
            params = upset_args cnd.upsets ++ vs;
          }))
      → Adds M (update_where env cnd model obv (flat (codes " and") cls, vs))
  unfolding update_where
  update_where-Adds [] vs sets e k = unfold flat in search adds_rules
  update_where-Adds (x ∷ xs) [] sets e k =
      let part = is_empty (flat (codes " and") (x ∷ xs)) in
      Adds-guard (part || true) _
        (lift (where_text "where" (flat (codes " and") (x ∷ xs)))
          >>= run_update env cnd model obv [])
        (λ h. absurd (false≢true (sym (||-false part true h).1)))
  update_where-Adds (x ∷ xs) (v ∷ vs) sets e k =
      Adds-guard (is_empty (flat (codes " and") (x ∷ xs)) || false) _
        (lift (where_text "where" (flat (codes " and") (x ∷ xs)))
          >>= run_update env cnd model obv (v ∷ vs))
        (λ _. cut_where-Adds x xs (v ∷ vs) (run_update-Adds (v ∷ vs) _ sets e (k refl refl)))

module _ (env : Env) (cnd : Cnd) (model : Object) (obv : MdlDriver) where
  update_text :
      (sets want w : Text)
      → sets ≡ want
      → update_by_cnd_sql obv sets (codes "where" ++ w)
        ≡ codes "update " ++ (obv.table_name ++ (codes " set " ++ (want ++ (codes " where" ++ w))))
  unfolding update_by_cnd_sql
  update_text sets want w e = rw e refl

  where_of-Adds :
      (sets : Text)
      → trim_end 1 (upset_text cnd.escape cnd.upsets) ≡ ok sets
      → sets ≡ join (codes ",") (assignments cnd.escape cnd.upsets)
      → is_empty cnd.upsets ≡ false
      → cnd.model ≡ some model
      → env.model_drivers model.table ≡ some obv
      → Adds (IsUpdate env cnd) (where_of cnd >>= update_where env cnd model obv)
  unfolding where_of
  where_of-Adds sets e se f m reg =
      Adds-lift-bind (build_where_case cnd.escape cnd.conditions) (update_where env cnd model obv)
        λ p h.
          subst (λ part. Adds (IsUpdate env cnd) (update_where env cnd model obv part))
            (build_where_case-ok cnd.escape cnd.conditions p h).1
            (update_where-Adds env cnd model obv (clauses cnd.escape cnd.conditions)
              (args cnd.conditions) sets e
              (λ c a t. record {
                model = model;
                obv = obv;
                of_model = m;
                registered = reg;
                text = update_text _ _ _ se;
                params = ap (λ l. l ++ args cnd.conditions) (upset_args-values cnd.upsets);
                has_field = f;
                has_clause = c;
                has_arg = a;
              }))

upsets_trimmed :
    (e : Bool) (m : List (Text × Value))
    → is_empty m ≡ false
    → trim_end 1 (upset_text e m) ≡ ok (join (codes ",") (assignments e m))
upsets_trimmed e [] h = cc
upsets_trimmed e ((k, v) ∷ m) h = trim_upset e k v m

-- Every statement that UpdateByCnd runs is an update of the upset fields, each with its value, of
-- the rows that satisfy all clauses of the builder: it is never reached without an upset field,
-- without a clause or without an argument.
pub update_with_cnd-IsUpdate :
    (env : Env) (cnd : Cnd) → Adds (IsUpdate env cnd) (update_with_cnd env cnd)
unfolding update_with_cnd
update_with_cnd-IsUpdate env cnd = by_model cnd.model refl
  where
    by_model :
        (m : Option Object) → cnd.model ≡ m → Adds (IsUpdate env cnd) (update_by_model env cnd m)
    by_model none e = Adds-error _
    by_model (some model) e = Adds-guard (is_empty cnd.upsets) _ _ (λ f.
        Adds-find_model-bind env "[Mysql.UpdateByCnd] " model.table
          (λ obv. where_of cnd >>= update_where env cnd model obv)
          (λ obv reg.
            where_of-Adds env cnd model obv _ (upsets_trimmed cnd.escape cnd.upsets f) refl f e
              reg))
