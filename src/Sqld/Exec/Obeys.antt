-- ===== src/Sqld/Exec/Obeys.antt =====
-- Relations between the states before and after a method of RDBManager, one rule for each way to
-- build a method.
use freego.Prelude.{
  ℕ, Text, String, Go, ◌⊎◌, inl, inr, panic, ok, ◌≡◌, refl, Bool, true, false, ◌&&◌, Option, none,
  some, List, [], ◌∷◌, ◌++◌, if◌then◌else◌,
}
use freego.Sqlc.Value.{Value}
use freego.Sqlc.Object.{Object}
use freego.Sqlc.Cnd.{Cnd}
use freego.Sqld.Model.{Err, Result, done, failed, MdlDriver}
use freego.Sqld.Exec.{
  CacheOption, save, delete, MgoSyncData, Stmt, ExecReply, exec_failed, no_count, affected, Env,
  Rdb, Exec, ◌>>=◌, pure, throw, error, lift, prepare, prepare_in, exec, query, rows_affected,
  add_sync, find_model, found_model, prepare_error, continue,
}

abbrev pub is_empty {ℓ} : {A : Type ℓ} → List A → Bool
is_empty [] = true
is_empty _ = false

-- A relation between the states; the flag says that the method failed.
abbrev pub Relation : Type 1
Relation = Rdb → Bool → Rdb → Type 0

abbrev pub Obeyed : {A : Type 0} → Relation → Rdb → Go (Result A × Rdb) → Type 0
Obeyed R s panic = Unit
Obeyed R s (ok (failed e, t)) = R s true t
Obeyed R s (ok (done a, t)) = R s false t

-- Every call that returns stands in the relation.
pub record Obeys {A : Type 0} (R : Relation) (m : Exec A) : Type 0 where
  pub at : (s : Rdb) → Obeyed R s (m s)

-- Close passes the entry on to MongoDB, if at all, as a save or as a deletion.
abbrev pub IsPassedOn : MgoSyncData → Type 0
IsPassedOn d =
    (is_empty d.cache_object ≡ true) ⊎ ((d.cache_option ≡ save) ⊎ (d.cache_option ≡ delete))

pub passed_empty :
    (o : CacheOption) (m : Object) (c : Option Cnd)
    → IsPassedOn (record { cache_option = o; cache_model = m; cache_cnd = c; cache_object = [] })
passed_empty o m c = inl refl

pub passed_save :
    (m : Object) (c : Option Cnd) (os : List Object)
    → IsPassedOn (record { cache_option = save; cache_model = m; cache_cnd = c; cache_object = os })
passed_save m c os = inr (inl refl)

pub passed_delete :
    (m : Object) (c : Option Cnd) (os : List Object)
    → IsPassedOn
        (record { cache_option = delete; cache_model = m; cache_cnd = c; cache_object = os })
passed_delete m c os = inr (inr refl)

-- What a relation needs so that the parts of a method compose.
pub record Frame (R : Relation) : Type 0 where
  pub same : (s : Rdb) → R s false s
  pub then_ : (s t u : Rdb) (b : Bool) → R s false t → R t b u → R s b u
  pub recorded : (s : Rdb) (e : Err) → R s true (record s { errors = s.errors ++ e ∷ [] })
  pub ran : (s : Rdb) (h : List Stmt) → R s false (record s { history = h })
  pub drew : (s : Rdb) (n : ℕ) → R s false (record s { drawn = n })
  pub synced :
      (s : Rdb) (d : MgoSyncData)
      → IsPassedOn d
      → R s false (record s { mgo_sync_data = s.mgo_sync_data ++ d ∷ [] })

chain :
    {B : Type 0} (R : Relation) (f : Frame R) (s t : Rdb) (g : Go (Result B × Rdb))
    → R s false t
    → Obeyed R t g
    → Obeyed R s g
chain R f s t panic h k = tt
chain R f s t (ok (failed e, u)) h k = f.then_ s t u true h k
chain R f s t (ok (done b, u)) h k = f.then_ s t u false h k

continue_case :
    {A B : Type 0} (R : Relation) (fr : Frame R) (s : Rdb) (g : Go (Result A × Rdb))
    (f : A → Exec B)
    → Obeyed R s g
    → ((a : A) → Obeys R (f a))
    → Obeyed R s (elim g [ panic ↦ panic | ok r ↦ continue r f ])
continue_case R fr s panic f h k = tt
continue_case R fr s (ok (failed e, t)) f h k = h
continue_case R fr s (ok (done a, t)) f h k = chain R fr s t (f a t) h ((k a).at t)

lift_case : {A : Type 0} (R : Relation) (fr : Frame R) (g : Go A) (s : Rdb) → Obeyed R s (lift g s)
lift_case R fr panic s = tt
lift_case R fr (ok a) s = fr.same s

module _ {R : Relation} (fr : Frame R) where
  pub Obeys-pure : {A : Type 0} (a : A) → Obeys R (pure a)
  Obeys-pure a = record { at = λ s. fr.same s }

  pub Obeys-error : {A : Type 0} (e : Err) → Obeys R (error {A = A} e)
  unfolding error
  Obeys-error e = record { at = λ s. fr.recorded s e }

  pub Obeys-lift : {A : Type 0} (g : Go A) → Obeys R (lift g)
  Obeys-lift g = record { at = λ s. lift_case R fr g s }

  pub Obeys-bind :
      {A B : Type 0} (m : Exec A) (f : A → Exec B)
      → Obeys R m
      → ((a : A) → Obeys R (f a))
      → Obeys R (m >>= f)
  Obeys-bind m f km kf = record { at = λ s. continue_case R fr s (m s) f (km.at s) kf }

  found_case :
      (label : String) (table : Text) (o : Option MdlDriver) → Obeys R (found_model label table o)
  unfolding found_model
  found_case label table none = Obeys-error _
  found_case label table (some obv) = Obeys-pure obv

  pub Obeys-find_model :
      (env : Env) (label : String) (table : Text) → Obeys R (find_model env label table)
  unfolding find_model
  Obeys-find_model env label table = found_case label table (env.model_drivers table)

  prepare_case :
      {B : Type 0} (label close : String) (sql : Text) (o : Option Text) (next : Exec B)
      → Obeys R next
      → Obeys R (prepare_error label close sql o next)
  unfolding prepare_error
  prepare_case label close sql none next k = k
  prepare_case label close sql (some e) next k = Obeys-error _

  pub Obeys-prepare_in :
      (env : Env) {B : Type 0} (label close : String) (sql : Text) (next : Exec B)
      → Obeys R next
      → Obeys R (prepare_in env label close sql next)
  unfolding prepare_in
  Obeys-prepare_in env label close sql next k = record {
    at = λ s.
        (prepare_case label close sql (env.driver.prepare s.history s.open_tx sql) next k).at s;
  }

  pub Obeys-prepare :
      (env : Env) {B : Type 0} (label : String) (sql : Text) (next : Exec B)
      → Obeys R next
      → Obeys R (prepare env label sql next)
  unfolding prepare
  Obeys-prepare env label sql next k = Obeys-prepare_in env label " ] prepare failed: " sql next k

  pub Obeys-exec : (env : Env) (sql : Text) (params : List Value) → Obeys R (exec env sql params)
  unfolding exec
  Obeys-exec env sql params = record { at = λ s. fr.ran s _ }

  pub Obeys-query : (env : Env) (sql : Text) (params : List Value) → Obeys R (query env sql params)
  unfolding query
  Obeys-query env sql params = record { at = λ s. fr.ran s _ }

  pub Obeys-rows_affected :
      (failed_msg count_msg : String) (r : ExecReply)
      → Obeys R (rows_affected failed_msg count_msg r)
  unfolding rows_affected
  Obeys-rows_affected failed_msg count_msg (exec_failed e) = Obeys-error _
  Obeys-rows_affected failed_msg count_msg (no_count e) = Obeys-error _
  Obeys-rows_affected failed_msg count_msg (affected n l) = Obeys-pure (n, l)

pub Obeys-if :
    {A : Type 0} {R : Relation} (b : Bool) (m n : Exec A)
    → Obeys R m
    → Obeys R n
    → Obeys R (if b then m else n)
Obeys-if true m n km kn = km
Obeys-if false m n km kn = kn

sync_case :
    (R : Relation) (fr : Frame R) (s : Rdb) (d : MgoSyncData) (b : Bool)
    → R s false (record s { mgo_sync_data = s.mgo_sync_data ++ d ∷ [] })
    → R s false (if b then record s { mgo_sync_data = s.mgo_sync_data ++ d ∷ [] } else s)
sync_case R fr s d true k = k
sync_case R fr s d false k = fr.same s

pub Obeys-add_sync :
    {R : Relation} (fr : Frame R) (to_mongo : Bool) (d : MgoSyncData)
    → IsPassedOn d
    → Obeys R (add_sync to_mongo d)
unfolding add_sync
Obeys-add_sync {R} fr to_mongo d k = record {
  at = λ s. sync_case R fr s d (s.mongo_sync && to_mongo) (fr.synced s d k);
}

-- An error that is returned and not recorded.
pub Obeys-throw :
    {A : Type 0} {R : Relation} → ((s : Rdb) → R s true s) → (e : Err) → Obeys R (throw {A = A} e)
Obeys-throw thrown e = record { at = thrown }

pub ruleset obeys_rules = (
  Obeys-pure, Obeys-error, Obeys-lift, Obeys-if, Obeys-bind, Obeys-find_model, Obeys-prepare,
  Obeys-prepare_in, Obeys-exec, Obeys-query, Obeys-rows_affected, Obeys-add_sync, Obeys-throw,
  passed_empty, passed_save, passed_delete,
)
