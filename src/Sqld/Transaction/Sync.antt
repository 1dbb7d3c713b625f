-- ===== src/Sqld/Transaction/Sync.antt =====
-- What a session passes on to MongoDB.
use freego.Prelude.{
  ◌≡◌, refl, ok, Bool, true, false, ◌&&◌, Option, List, [], ◌∷◌, if◌then◌else◌, ◌⊎◌, inl, inr,
}
use freego.Sqlc.Object.{Object}
use freego.Sqlc.Cnd.{Cnd}
use freego.Sqld.Exec.{MgoSyncData, CacheOption, save, update, delete, update_by_cnd, Env, Rdb}
use freego.Sqld.Exec.Adds.{All, All-append}
use freego.Sqld.Exec.Obeys.{Frame, IsPassedOn, is_empty}
use freego.Sqld.Delete.Obeys.{delete_objects-Obeys, delete_by_id-Obeys, delete_by_cnd-Obeys}
use freego.Sqld.Update.Obeys.{update_objects-Obeys, update_with_cnd-Obeys}
use freego.Sqld.Save.Obeys.{save_all-Obeys}
use freego.Sqld.Session.{
  Action, commit, rollback, mongo_update, mongo_update_by_cnd, sync, sync_all, mongo_sync_data,
  close,
}
use freego.Sqld.Transaction.{
  Call, save_call, update_call, delete_call, update_by_cnd_call, delete_by_cnd_call,
  delete_by_id_call, run_call, run_calls,
}
use freego.Sqld.Transaction.Close.{Ran, outcome-Ran, calls-Ran, from_Ran}

-- Every entry that Close may pass on stands for a save or a deletion.
abbrev Passes : Rdb → Bool → Rdb → Type 0
Passes s b t = All IsPassedOn s.mgo_sync_data → All IsPassedOn t.mgo_sync_data

Passes-Frame : Frame Passes
Passes-Frame = record {
  same = λ s h. h;
  then_ = λ s t u b f g h. g (f h);
  recorded = λ s e h. h;
  ran = λ s l h. h;
  drew = λ s n h. h;
  synced = λ s d p h. All-append IsPassedOn s.mgo_sync_data (d ∷ []) h (p, tt);
}

call-Passes : (env : Env) (c : Call) (s : Rdb) → Ran Passes s (run_call env c s)
unfolding run_call
call-Passes env (save_call os) s =
    outcome-Ran Passes s _ ((save_all-Obeys Passes-Frame (λ t h. h) env os).at s)
call-Passes env (update_call os) s =
    outcome-Ran Passes s _ ((update_objects-Obeys Passes-Frame (λ t h. h) env os).at s)
call-Passes env (delete_call os) s =
    outcome-Ran Passes s _ ((delete_objects-Obeys Passes-Frame (λ t h. h) env os).at s)
call-Passes env (update_by_cnd_call c) s =
    outcome-Ran Passes s _ ((update_with_cnd-Obeys Passes-Frame env c).at s)
call-Passes env (delete_by_cnd_call c) s =
    outcome-Ran Passes s _ ((delete_by_cnd-Obeys Passes-Frame env c).at s)
call-Passes env (delete_by_id_call o vs) s =
    outcome-Ran Passes s _ ((delete_by_id-Obeys Passes-Frame (λ t h. h) env o vs).at s)

calls-Passes :
    (env : Env) (cs : List Call) → All (λ c. (s : Rdb) → Ran Passes s (run_call env c s)) cs
calls-Passes env [] = tt
calls-Passes env (c ∷ cs) = (call-Passes env c, calls-Passes env cs)

-- The action is no update of MongoDB.
abbrev pub IsNoUpdate : Action → Type 0
IsNoUpdate (mongo_update _) = ⊥
IsNoUpdate (mongo_update_by_cnd _) = ⊥
IsNoUpdate _ = Unit

entry-IsNoUpdate :
    (o : CacheOption) (m : Object) (c : Option Cnd) (os : List Object)
    → (o ≡ save) ⊎ (o ≡ delete)
    → All IsNoUpdate (
        mongo_sync_data
          (record { cache_option = o; cache_model = m; cache_cnd = c; cache_object = os }))
unfolding mongo_sync_data
entry-IsNoUpdate save m c os h = (tt, tt)
entry-IsNoUpdate delete m c os h = (tt, tt)
entry-IsNoUpdate update m c os (inl h) = cc h
entry-IsNoUpdate update m c os (inr h) = cc h
entry-IsNoUpdate update_by_cnd m c os (inl h) = cc h
entry-IsNoUpdate update_by_cnd m c os (inr h) = cc h

passed_entry :
    (d : MgoSyncData) (b : Bool)
    → is_empty d.cache_object ≡ b
    → IsPassedOn d
    → All IsNoUpdate (if b then [] else mongo_sync_data d)
passed_entry d true e h = tt
passed_entry d false e (inl h) = cc
passed_entry d false e (inr h) =
    entry-IsNoUpdate d.cache_option d.cache_model d.cache_cnd d.cache_object h

sync_all-IsNoUpdate : (ds : List MgoSyncData) → All IsPassedOn ds → All IsNoUpdate (sync_all ds)
unfolding sync_all
sync_all-IsNoUpdate [] h = tt
sync_all-IsNoUpdate (d ∷ ds) h =
    All-append IsNoUpdate _ (sync_all ds) (passed_entry d _ refl h.0) (sync_all-IsNoUpdate ds h.1)

sync-IsNoUpdate :
    (t : Rdb) (b : Bool)
    → All IsPassedOn t.mgo_sync_data
    → All IsNoUpdate (if b then sync_all t.mgo_sync_data else [])
sync-IsNoUpdate t true h = sync_all-IsNoUpdate t.mgo_sync_data h
sync-IsNoUpdate t false h = tt

close_cases :
    (l : List Action) (a b c : Bool)
    → All IsNoUpdate l
    → All IsNoUpdate
        (if a then (if b then (if c then commit ∷ l else commit ∷ []) else rollback ∷ []) else l)
close_cases l true true true h = (tt, h)
close_cases l true true false h = (tt, tt)
close_cases l true false c h = (tt, tt)
close_cases l false b c h = h

-- A session that begins with nothing to pass on never updates MongoDB when it is closed, whatever
-- its calls are: what Update and UpdateByCnd collect has no objects, and Close passes over it.
pub close-IsNoUpdate :
    (env : Env) (cs : List Call) (s t : Rdb) (some_failed committed : Bool)
    → s.mgo_sync_data ≡ []
    → run_calls env cs s ≡ ok (some_failed, t)
    → All IsNoUpdate (close committed t)
unfolding close sync
close-IsNoUpdate env cs s t b committed e r =
    let carried =
      from_Ran Passes s t b (run_calls env cs s)
        (calls-Ran Passes Passes-Frame env cs (λ x y z p q f g h. g (f h)) (calls-Passes env cs) s)
        r in
    close_cases (sync t) (t.open_tx && t.tx) (is_empty t.errors) committed
      (sync-IsNoUpdate t _ (carried (rw e tt)))
