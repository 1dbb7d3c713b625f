-- ===== src/Sqld/Delete/Runs.antt =====
-- DeleteByCnd reaches the database.
use freego.Prelude.{
  ℤ, pos, leb_ℤ, Text, String, codes, Go, ok, ◌≡◌, refl, ap, sym, Bool, true, false, ◌&&◌, Option,
  none, some, List, [], ◌∷◌, ◌++◌, if◌then◌else◌,
}
use mathlib.Core.Bool.{false≢true}
use freego.Sqlc.Value.{Value}
use freego.Sqlc.Object.{Object}
use freego.Sqlc.Cnd.{Cnd}
use freego.Sqld.Where.Clauses.{join, flat, none_in, clauses, args, sound}
use freego.Sqld.Where.Refinement.{build_where_case_lem}
use freego.Sqld.Model.{lit, text, Result, done, failed, MdlDriver}
use freego.Sqld.Exec.{
  MgoSyncData, Stmt, ExecReply, exec_failed, no_count, affected, Env, Rdb, Exec, pure, ◌>>=◌, ◌>>◌,
  prepare, prepare_error, exec, rows_affected, add_sync, find_model, error,
}
use freego.Sqld.Delete.{is_empty, where_of, run_delete, delete_where, delete_by_cnd}
use freego.Sqld.Delete.WhereText.{where_text-flat}

-- `delete from T where c1 and c2 …`
unfoldable pub deletion : Cnd → MdlDriver → Bool → Stmt
unfolding join clauses
deletion cnd obv in_tx = record {
  in_tx = in_tx;
  sql =
      codes "delete from "
      ++ (obv.table_name
          ++ (codes " where" ++ join (codes " and") (clauses cnd.escape cnd.conditions)));
  params = args cnd.conditions;
}

-- The number that DeleteByCnd returns for an answer of the driver; none for an error.
unfoldable pub deleted : ExecReply → Option ℤ
deleted (affected n _) = some (if leb_ℤ n (pos 0) then pos 0 else n)
deleted _ = none

-- The call returned this number or, for none, an error that it recorded; it ran the statement.
abbrev pub Ends : Rdb → Stmt → Option ℤ → Go (Result ℤ × Rdb) → Type 0
Ends s t (some n) (ok (done m, u)) =
    (m ≡ n) × (u.history ≡ s.history ++ t ∷ []) × (u.errors ≡ s.errors)
Ends s t none (ok (failed e, u)) =
    (u.history ≡ s.history ++ t ∷ []) × (u.errors ≡ s.errors ++ e ∷ [])
Ends s t _ _ = ⊥

module _ (s u : Rdb) (t : Stmt) (h : u.history ≡ s.history ++ t ∷ [])
    (e : u.errors ≡ s.errors) where
  reply-Ends :
      (a b : String) (k : ℤ × Result ℤ → Exec ℤ) (r : ExecReply)
      → ((n : ℤ) (l : Result ℤ) → Ends s t (deleted (affected n l)) (k (n, l) u))
      → Ends s t (deleted r) ((rows_affected a b r >>= k) u)
  unfolding rows_affected deleted error
  reply-Ends a b k (exec_failed m) f = (h, ap (λ x. x ++ (lit a ∷ text m ∷ []) ∷ []) e)
  reply-Ends a b k (no_count m) f = (h, ap (λ x. x ++ (lit b ∷ text m ∷ []) ∷ []) e)
  reply-Ends a b k (affected n l) f = f n l

  count-Ends :
      (to_mongo : Bool) (d : MgoSyncData) (n : ℤ) (b : Bool)
      → Ends s t
          (some (if b then pos 0 else n))
          ((if b then pure (pos 0) else (add_sync to_mongo d >> pure n)) u)
  unfolding add_sync
  count-Ends to_mongo d n true = (refl, h, e)
  count-Ends to_mongo d n false = by_sync (u.mongo_sync && to_mongo)
    where
      by_sync :
          (b : Bool)
          → Ends s t
              (some n)
              (ok (done n, if b then record u { mgo_sync_data = u.mgo_sync_data ++ d ∷ [] } else u))
      by_sync true = (refl, h, e)
      by_sync false = (refl, h, e)

flat-filled : (x : Text) (xs : List Text) → is_empty (flat (codes " and") (x ∷ xs)) ≡ false
unfolding flat
flat-filled [] xs = refl
flat-filled (c ∷ x) xs = refl

module _ (env : Env) (cnd : Cnd) (model : Object) (obv : MdlDriver) where
  run_delete-Ends :
      (s : Rdb) (str2 : Text) (vs : List Value)
      → env.driver.prepare s.history s.open_tx (codes "delete from " ++ (obv.table_name ++ str2))
        ≡ none
      → Ends s
          (record {
            in_tx = s.open_tx;
            sql = codes "delete from " ++ (obv.table_name ++ str2);
            params = vs;
          })
          (deleted (
            env.driver.exec s.history (record {
              in_tx = s.open_tx;
              sql = codes "delete from " ++ (obv.table_name ++ str2);
              params = vs;
            })))
          (run_delete env cnd model obv vs str2 s)
  unfolding run_delete prepare prepare_error exec
  run_delete-Ends s str2 vs h = rw h (
      reply-Ends s _ _ refl refl _ _ _ _
        (λ n l. unfold deleted in count-Ends s _ _ refl refl obv.to_mongo _ n (leb_ℤ n (pos 0))))

  delete_where-Ends :
      (s : Rdb) (cls : List Text) (vs : List Value)
      → none_in cls ≡ false
      → none_in vs ≡ false
      → env.driver.prepare s.history s.open_tx
          (codes "delete from " ++ (obv.table_name ++ (codes " where" ++ join (codes " and") cls)))
        ≡ none
      → Ends s
          (record {
            in_tx = s.open_tx;
            sql =
                codes "delete from "
                ++ (obv.table_name ++ (codes " where" ++ join (codes " and") cls));
            params = vs;
          })
          (deleted (
            env.driver.exec s.history (record {
              in_tx = s.open_tx;
              sql =
                  codes "delete from "
                  ++ (obv.table_name ++ (codes " where" ++ join (codes " and") cls));
              params = vs;
            })))
          (delete_where env cnd model obv (flat (codes " and") cls, vs) s)
  unfolding delete_where
  delete_where-Ends s [] vs c a h = absurd (false≢true (sym c))
  delete_where-Ends s (x ∷ xs) [] c a h = absurd (false≢true (sym a))
  delete_where-Ends s (x ∷ xs) (v ∷ vs) c a h =
      rw (flat-filled x xs) (rw (where_text-flat " where" x xs) (run_delete-Ends s _ (v ∷ vs) h))

-- DeleteByCnd deletes: for a registered model and sound conditions with a clause and an argument,
-- when the statement can be prepared, it runs the one deletion that they describe, returns the
-- number of rows that the database reports, or 0 if that is negative, and records no error; an
-- error of the database it records and returns.
pub delete_by_cnd-Ends :
    (env : Env) (cnd : Cnd) (model : Object) (obv : MdlDriver) (s : Rdb)
    → cnd.model ≡ some model
    → env.model_drivers model.table ≡ some obv
    → sound cnd.conditions ≡ true
    → none_in (clauses cnd.escape cnd.conditions) ≡ false
    → none_in (args cnd.conditions) ≡ false
    → env.driver.prepare s.history s.open_tx (deletion cnd obv s.open_tx).sql ≡ none
    → Ends s
        (deletion cnd obv s.open_tx)
        (deleted (env.driver.exec s.history (deletion cnd obv s.open_tx)))
        (delete_by_cnd env cnd s)
unfolding delete_by_cnd where_of find_model deletion
delete_by_cnd-Ends env cnd model obv s m reg snd c a h = rw m (
    rw reg (
      rw (build_where_case_lem cnd.escape cnd.conditions)
        (rw snd (delete_where-Ends env _ model obv s _ _ c a h))))
