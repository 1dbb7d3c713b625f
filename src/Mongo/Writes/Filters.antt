-- ===== src/Mongo/Writes/Filters.antt =====
-- What UpdateByCnd and DeleteByCnd ask the database.
use freego.Prelude.{ℤ, Text, ok, ◌≡◌, refl, ap, ◌∙◌, sym, false, Option, none, some}
use freego.Errors.{Err, Result, done, failed}
use freego.Sqlc.Object.{Object}
use freego.Sqlc.Cnd.{Cnd}
use freego.Mongo.Match.{
  Query, Entries, bson_m, build_mongo_match, build_mongo_upset, is_empty_query,
}
use freego.Mongo.Match.Upsets.{IsUpset, build_mongo_upset-IsUpset}
use freego.Mongo.Session.{update_many, delete_many, Op, MongoCall, Env, Mgo, ◌>>=◌, call_of, run_op}
use freego.Mongo.Session.Runs.{
  Holds, Runs, Runs-pure, Runs-error, Runs-guard, Runs-or_record, Runs-bind, Runs-lift,
  Runs-get_database, Runs-run_op,
}
use freego.Mongo.Writes.{
  changed, update_failed, no_update, delete_failed, no_deletion, update_matched, update_model,
  mongo_update_with_cnd, delete_matched, delete_model, mongo_delete_by_cnd,
}

-- A query that is made of the builder's conditions and is not empty.
abbrev pub IsFilterOf : Cnd → Query → Type 0
IsFilterOf c q = (build_mongo_match c.conditions ≡ ok q) × (is_empty_query q ≡ false)

-- A deletion in the table of the builder's model by a query of its conditions.
abbrev pub IsDeletion : Cnd → MongoCall → Type 0
IsDeletion c call =
    (model : Object) × (q : Query) × (c.model ≡ some model)
    × (call.table ≡ model.table)
    × (call.op ≡ delete_many q)
    × IsFilterOf c q

-- A change of the builder's upset fields but for the ids, one at least, by a query of its conditions.
abbrev pub IsChange : Cnd → MongoCall → Type 0
IsChange c call =
    (model : Object) × (q : Query) × (es : Entries) × (c.model ≡ some model)
    × (call.table ≡ model.table)
    × (call.op ≡ update_many q (bson_m es))
    × IsFilterOf c q
    × (build_mongo_upset c ≡ bson_m es)
    × (is_empty_query (bson_m es) ≡ false)
    × IsUpset c es

changed-Runs :
    (M : MongoCall → Type 0) (e z : Err) (r : Result ℤ) → Runs M (λ _. Unit {0}) (changed e z r)
unfolding changed
changed-Runs M e z r =
    Runs-bind _ _ (Runs-or_record e r (any r)) λ n _. Runs-guard _ z _ λ _. Runs-pure n tt
  where
    any : (r : Result ℤ) → Holds (λ _. Unit {0}) r
    any (failed e) = tt
    any (done n) = tt

run_changed-Runs :
    (M : MongoCall → Type 0) (env : Env) (table : Text) (op : Op) (e z : Err)
    → ((s : Mgo) → M (call_of s table op))
    → Runs M (λ _. Unit {0}) (run_op env table op >>= changed e z)
run_changed-Runs M env table op e z k =
    Runs-bind (run_op env table op) (changed e z) (Runs-run_op env table op k)
      λ r _. changed-Runs M e z r

-- Every operation that DeleteByCnd runs deletes by the query of the builder's conditions, which is
-- not empty, in the table of the builder's model.
pub mongo_delete_by_cnd-IsDeletion :
    (env : Env) (c : Cnd) → Runs (IsDeletion c) (λ _. Unit {0}) (mongo_delete_by_cnd env c)
unfolding mongo_delete_by_cnd delete_model delete_matched
mongo_delete_by_cnd-IsDeletion env c = model_case c.model refl
  where
    model_case :
        (o : Option Object)
        → c.model ≡ o
        → Runs (IsDeletion c) (λ _. Unit {0}) (delete_model env o c)
    model_case none h = Runs-error _
    model_case (some model) h = Runs-bind _ _ (Runs-get_database env model.table) λ _ _.
        Runs-bind _ _ (Runs-lift (build_mongo_match c.conditions)) λ q e.
          Runs-guard (is_empty_query q) _ _ λ full.
            run_changed-Runs _ env model.table (delete_many q) delete_failed no_deletion
              λ s. (model, q, h, refl, refl, (e, full))

-- Every operation that UpdateByCnd runs sets the builder's upset fields but for the ids, one at
-- least, to the values given last, in the documents of the query of the builder's conditions, which
-- is not empty, in the table of the builder's model.
pub mongo_update_with_cnd-IsChange :
    (env : Env) (c : Cnd) → Runs (IsChange c) (λ _. Unit {0}) (mongo_update_with_cnd env c)
unfolding mongo_update_with_cnd update_model update_matched
mongo_update_with_cnd-IsChange env c = model_case c.model refl
  where
    model_case :
        (o : Option Object) → c.model ≡ o → Runs (IsChange c) (λ _. Unit {0}) (update_model env c o)
    model_case none h = Runs-error _
    model_case (some model) h = Runs-bind _ _ (Runs-get_database env model.table) λ _ _.
        Runs-bind _ _ (Runs-lift (build_mongo_match c.conditions)) λ q e.
          Runs-guard (is_empty_query q) _ _ λ full.
            Runs-guard (is_empty_query (build_mongo_upset c)) _ _ λ some_field.
              let (es, same, upset) = build_mongo_upset-IsUpset c some_field in
              run_changed-Runs _ env model.table (update_many q (build_mongo_upset c)) update_failed
                no_update
                λ s. (
                  model,
                  q,
                  es,
                  h,
                  refl,
                  ap (update_many q) same,
                  (e, full),
                  same,
                  sym (ap is_empty_query same) ∙ some_field,
                  upset,
                )

-- Every operation that DeleteByCnd runs deletes by the query of the builder's conditions, and every
-- operation that UpdateByCnd runs sets the builder's upset fields but for the ids, one at least, to
-- the values given last, in the documents of that query; the query is not empty, and the table is
-- that of the builder's model.
pub mongo_by_cnd-IsFiltered :
    (env : Env) (c : Cnd)
    → Runs (IsDeletion c) (λ _. Unit {0}) (mongo_delete_by_cnd env c)
      × Runs (IsChange c) (λ _. Unit {0}) (mongo_update_with_cnd env c)
mongo_by_cnd-IsFiltered env c =
    (mongo_delete_by_cnd-IsDeletion env c, mongo_update_with_cnd-IsChange env c)
