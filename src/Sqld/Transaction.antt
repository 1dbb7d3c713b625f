-- ===== src/Sqld/Transaction.antt =====
-- A session of RDBManager: calls of its writing methods, whatever each returns, and then Close.
pub mod Close
pub mod Sync
pub mod Untraced
use freego.Prelude.{Go, panic, ok, ◌>>=◌, Bool, true, false, ◌||◌, List, [], ◌∷◌}
use freego.Sqlc.Value.{Value}
use freego.Sqlc.Object.{Object}
use freego.Sqlc.Cnd.{Cnd}
use freego.Sqld.Model.{Result, done, failed}
use freego.Sqld.Exec.{Env, Rdb}
use freego.Sqld.Delete.{delete_objects, delete_by_id, delete_by_cnd}
use freego.Sqld.Update.{update_objects, update_with_cnd}
use freego.Sqld.Save.{save_all}

pub data Call : Type 0 where
  save_call update_call delete_call : List Object → Call
  update_by_cnd_call delete_by_cnd_call : Cnd → Call
  delete_by_id_call : Object → List Value → Call

-- Whether the method returned an error, and the manager it left.
abbrev pub outcome : {A : Type 0} → Go (Result A × Rdb) → Go (Bool × Rdb)
outcome panic = panic
outcome (ok (done a, t)) = ok (false, t)
outcome (ok (failed e, t)) = ok (true, t)

unfoldable pub run_call : Env → Call → Rdb → Go (Bool × Rdb)
run_call env (save_call os) s = outcome (save_all env os s)
run_call env (update_call os) s = outcome (update_objects env os s)
run_call env (delete_call os) s = outcome (delete_objects env os s)
run_call env (update_by_cnd_call c) s = outcome (update_with_cnd env c s)
run_call env (delete_by_cnd_call c) s = outcome (delete_by_cnd env c s)
run_call env (delete_by_id_call o ids) s = outcome (delete_by_id env o ids s)

-- The calls in turn; the flag tells whether one of them returned an error.
unfoldable pub run_calls : Env → List Call → Rdb → Go (Bool × Rdb)
run_calls env [] s = ok (false, s)
run_calls env (c ∷ cs) s =
    run_call env c s >>= λ r. run_calls env cs r.1 >>= λ q. ok (r.0 || q.0, q.1)
