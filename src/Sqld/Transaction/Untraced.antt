-- ===== src/Sqld/Transaction/Untraced.antt =====
-- The errors of Update, Delete and DeleteById that are returned but not recorded in Errors.
use freego.Prelude.{
  Go, panic, ok, ◌>>=◌, ltb, length, ◌≡◌, refl, ap, ◌∙◌, Bool, true, false, ◌||◌, some, List, [],
  ◌∷◌, ◌++◌, if◌then◌else◌,
}
use freego.Sqlc.Object.{Object}
use freego.Sqld.Model.{MdlDriver}
use freego.Sqld.Exec.{Env, Rdb, find_model}
use freego.Sqld.Exec.Adds.{All}
use freego.Sqld.Exec.Obeys.{is_empty}
use freego.Sqld.Delete.{delete_objects, delete_checked, delete_by_id, delete_by_id_checked}
use freego.Sqld.Update.{update_objects, update_object}
use freego.Sqld.Session.{commit, rollback, sync, close}
use freego.Sqld.Transaction.{
  Call, save_call, update_call, delete_call, update_by_cnd_call, delete_by_cnd_call,
  delete_by_id_call, run_call, run_calls,
}
use freego.Sqld.Transaction.Close.{IsByCnd, transaction_close}

-- The table of the object is registered with a model that names no primary key.
abbrev pub HasNoKey : Env → Object → Type 0
HasNoKey env o = (obv : MdlDriver) × (env.model_drivers o.table ≡ some obv) × (obv.pk_name ≡ [])

-- An Update of one object, or a Delete or DeleteById of one to 2000, in a table without a key.
abbrev pub IsKeyless : Env → Call → Type 0
IsKeyless env (update_call (o ∷ [])) = HasNoKey env o
IsKeyless env (delete_call (o ∷ os)) = HasNoKey env o × (ltb 2000 (length (o ∷ os)) ≡ false)
IsKeyless env (delete_by_id_call o (v ∷ vs)) = HasNoKey env o × (ltb 2000 (length (v ∷ vs)) ≡ false)
IsKeyless env _ = ⊥

-- Such a call fails, and leaves the manager as it was.
keyless-run_call :
    (env : Env) (k : Call) (s : Rdb) → IsKeyless env k → run_call env k s ≡ ok (true, s)
unfolding run_call delete_objects delete_checked delete_by_id delete_by_id_checked update_objects
    update_object find_model
keyless-run_call env (save_call os) s h = absurd h
keyless-run_call env (update_call []) s h = absurd h
keyless-run_call env (update_call (o ∷ [])) s (obv, m, p) = rw m (rw p refl)
keyless-run_call env (update_call (o ∷ (o' ∷ os))) s h = absurd h
keyless-run_call env (delete_call []) s h = absurd h
keyless-run_call env (delete_call (o ∷ os)) s ((obv, m, p), few) = rw few (rw m (rw p refl))
keyless-run_call env (update_by_cnd_call c) s h = absurd h
keyless-run_call env (delete_by_cnd_call c) s h = absurd h
keyless-run_call env (delete_by_id_call o []) s h = absurd h
keyless-run_call env (delete_by_id_call o (v ∷ vs)) s ((obv, m, p), few) = rw few (rw m (rw p refl))

-- The same session, with a call that failed.
abbrev with_failure : Go (Bool × Rdb) → Go (Bool × Rdb)
with_failure panic = panic
with_failure (ok (b, t)) = ok (true, t)

failed_after :
    (b : Bool) (g : Go (Bool × Rdb))
    → (with_failure g >>= λ q. ok (b || q.0, q.1)) ≡ with_failure (g >>= λ q. ok (b || q.0, q.1))
failed_after b panic = refl
failed_after true (ok (c, t)) = refl
failed_after false (ok (c, t)) = refl

module _ (env : Env) (k : Call) (bs : List Call) (h : IsKeyless env k) where
  round :
      (g : Go (Bool × Rdb)) (f f' : Rdb → Go (Bool × Rdb))
      → ((t : Rdb) → f' t ≡ with_failure (f t))
      → (g >>= λ r. f' r.1 >>= λ q. ok (r.0 || q.0, q.1))
        ≡ with_failure (g >>= λ r. f r.1 >>= λ q. ok (r.0 || q.0, q.1))
  round panic f f' e = refl
  round (ok (b, t)) f f' e = ap (λ g. g >>= λ q. ok (b || q.0, q.1)) (e t) ∙ failed_after b (f t)

  first : (g : Go (Bool × Rdb)) → (g >>= λ q. ok (true || q.0, q.1)) ≡ with_failure g
  first panic = refl
  first (ok (b, t)) = refl

  run_calls-keyless :
      (cs : List Call) (s : Rdb)
      → run_calls env (cs ++ k ∷ bs) s ≡ with_failure (run_calls env (cs ++ bs) s)
  unfolding run_calls
  run_calls-keyless [] s =
      ap (λ g. g >>= λ r. run_calls env bs r.1 >>= λ q. ok (r.0 || q.0, q.1))
        (keyless-run_call env k s h)
      ∙ first (run_calls env bs s)
  run_calls-keyless (a ∷ cs) s =
      round (run_call env a s) (run_calls env (cs ++ bs)) (run_calls env (cs ++ k ∷ bs))
        (run_calls-keyless cs)

-- An Update of one object, or a Delete or DeleteById of one to 2000, in a table that is registered
-- without a primary key fails and leaves no trace: put anywhere into a transaction of updates and
-- deletions by condition, begun without errors, it leaves the manager that is left without it, so
-- that Close rolls back if one of the other calls failed, and commits otherwise.
pub keyless_call-close :
    (env : Env) (k : Call) (cs bs : List Call) (s t : Rdb) (some_failed : Bool)
    → IsKeyless env k
    → All IsByCnd (cs ++ bs)
    → is_empty s.errors ≡ true
    → s.open_tx ≡ true
    → s.tx ≡ true
    → run_calls env (cs ++ bs) s ≡ ok (some_failed, t)
    → (run_calls env (cs ++ k ∷ bs) s ≡ ok (true, t))
      × (close true t ≡ (if some_failed then rollback ∷ [] else commit ∷ sync t))
keyless_call-close env k cs bs s t b h c e o x r = (
  run_calls-keyless env k bs h cs s ∙ ap with_failure r,
  transaction_close env (cs ++ bs) s t b c e o x r,
)
