-- ===== src/Sqld/Exec/Adds.antt =====
-- Which statements a method of RDBManager can run, one rule for each way to build a method.
use mathlib.Core.List.{append-nil, append_assoc}
use freego.Prelude.{
  Text, String, Go, panic, ok, ◌≡◌, refl, sym, ap, ◌∙◌, Bool, true, false, ◌&&◌, Option, none, some,
  List, [], ◌∷◌, ◌++◌, if◌then◌else◌,
}
use freego.Sqlc.Value.{Value}
use freego.Sqld.Model.{Err, Result, done, failed, MdlDriver}
use freego.Sqld.Exec.{
  MgoSyncData, Stmt, ExecReply, exec_failed, no_count, affected, Env, Rdb, Exec, ◌>>=◌, pure, throw,
  error, lift, prepare, prepare_in, exec, query, rows_affected, add_sync, find_model, found_model,
  prepare_error, continue,
}

abbrev pub All {ℓ κ} : {A : Type ℓ} → (A → Type κ) → List A → Type κ
All P [] = Unit
All P (x ∷ xs) = P x × All P xs

pub All-append {ℓ κ} :
    {A : Type ℓ} (P : A → Type κ) (xs ys : List A) → All P xs → All P ys → All P (xs ++ ys)
All-append P [] ys h k = k
All-append P (x ∷ xs) ys h k = (h.0, All-append P xs ys h.1 k)

pub All-map {ℓ κ ι} :
    {A : Type ℓ} (P : A → Type κ) (Q : A → Type ι) (xs : List A)
    → ((x : A) → P x → Q x)
    → All P xs
    → All Q xs
All-map P Q [] f h = tt
All-map P Q (x ∷ xs) f h = (f x h.0, All-map P Q xs f h.1)

-- A call that returns has run some more statements, all of which satisfy M.
abbrev pub Added : {A : Type 0} → (Stmt → Type 0) → Rdb → Go (Result A × Rdb) → Type 0
Added M s panic = Unit
Added M s (ok r) = (new : List Stmt) × (r.1.history ≡ s.history ++ new) × All M new

-- Every statement that the method runs satisfies M.
pub record Adds {A : Type 0} (M : Stmt → Type 0) (m : Exec A) : Type 0 where
  pub at : (s : Rdb) → Added M s (m s)

same : (M : Stmt → Type 0) (h : List Stmt) → (new : List Stmt) × (h ≡ h ++ new) × All M new
same M h = ([], sym (append-nil h), tt)

lift_case : {A : Type 0} (M : Stmt → Type 0) (g : Go A) (s : Rdb) → Added M s (lift g s)
lift_case M panic s = tt
lift_case M (ok a) s = same M s.history

module _ {A : Type 0} {M : Stmt → Type 0} where
  pub Adds-pure : (a : A) → Adds M (pure a)
  Adds-pure a = record { at = λ s. same M s.history }

  pub Adds-throw : (e : Err) → Adds M (throw {A = A} e)
  Adds-throw e = record { at = λ s. same M s.history }

  pub Adds-error : (e : Err) → Adds M (error {A = A} e)
  unfolding error
  Adds-error e = record { at = λ s. same M s.history }

  pub Adds-lift : (g : Go A) → Adds M (lift g)
  Adds-lift g = record { at = λ s. lift_case M g s }

  pub Adds-if :
      (b : Bool) (m n : Exec A)
      → (b ≡ true → Adds M m)
      → (b ≡ false → Adds M n)
      → Adds M (if b then m else n)
  Adds-if true m n km kn = km refl
  Adds-if false m n km kn = kn refl

pub extend :
    {B : Type 0} (M : Stmt → Type 0) (s t : Rdb) (new : List Stmt) (g : Go (Result B × Rdb))
    → t.history ≡ s.history ++ new
    → All M new
    → Added M t g
    → Added M s g
extend M s t new panic h k a = tt
extend M s t new (ok r) h k (more, p, q) = (
  new ++ more,
  p ∙ ap (λ l. l ++ more) h ∙ append_assoc s.history new more,
  All-append M new more k q,
)

module _ {A : Type 0} {M : Stmt → Type 0} where
  -- An early `return self.Error(...)`.
  pub Adds-guard :
      (b : Bool) (e : Err) (m : Exec A) → (b ≡ false → Adds M m) → Adds M (if b then error e else m)
  Adds-guard b e m k = Adds-if b (error e) m (λ _. Adds-error e) k

module _ {A B : Type 0} {M : Stmt → Type 0} where
  continue_case :
      (s : Rdb) (r : Result A × Rdb) (f : A → Exec B)
      → Added M s (ok r)
      → ((a : A) → r.0 ≡ done a → Adds M (f a))
      → Added M s (continue r f)
  continue_case s (failed e, t) f h k = h
  continue_case s (done a, t) f (new, p, q) k = extend M s t new (f a t) p q ((k a refl).at t)

  bind_case :
      (s : Rdb) (g : Go (Result A × Rdb)) (f : A → Exec B)
      → Added M s g
      → ((a : A) → Adds M (f a))
      → Added M s (elim g [ panic ↦ panic | ok r ↦ continue r f ])
  bind_case s panic f h k = tt
  bind_case s (ok r) f h k = continue_case s r f h (λ a _. k a)

  pub Adds-bind :
      (m : Exec A) (f : A → Exec B) → Adds M m → ((a : A) → Adds M (f a)) → Adds M (m >>= f)
  Adds-bind m f km kf = record { at = λ s. bind_case s (m s) f (km.at s) kf }

  -- The rest of the block may use that the call returned this value.
  lift_bind_case :
      (g : Go A) (f : A → Exec B) (s : Rdb)
      → ((a : A) → g ≡ ok a → Adds M (f a))
      → Added M s (elim (lift g s) [ panic ↦ panic | ok r ↦ continue r f ])
  lift_bind_case panic f s k = tt
  lift_bind_case (ok a) f s k = (k a refl).at s

  pub Adds-lift-bind :
      (g : Go A) (f : A → Exec B) → ((a : A) → g ≡ ok a → Adds M (f a)) → Adds M (lift g >>= f)
  Adds-lift-bind g f k = record { at = λ s. lift_bind_case g f s k }

module _ {B : Type 0} {M : Stmt → Type 0} (env : Env) where
  model_case :
      (label : String) (table : Text) (o : Option MdlDriver) (f : MdlDriver → Exec B) (s : Rdb)
      → ((obv : MdlDriver) → o ≡ some obv → Adds M (f obv))
      → Added M s (elim (found_model label table o s) [ panic ↦ panic | ok r ↦ continue r f ])
  unfolding found_model error
  model_case label table none f s k = same M s.history
  model_case label table (some obv) f s k = (k obv refl).at s

  pub Adds-find_model-bind :
      (label : String) (table : Text) (f : MdlDriver → Exec B)
      → ((obv : MdlDriver) → env.model_drivers table ≡ some obv → Adds M (f obv))
      → Adds M (find_model env label table >>= f)
  unfolding find_model
  Adds-find_model-bind label table f k = record {
    at = λ s. model_case label table (env.model_drivers table) f s k;
  }

  prepare_case :
      (label close : String) (sql : Text) (o : Option Text) (next : Exec B) (s : Rdb)
      → Adds M next
      → Added M s (prepare_error label close sql o next s)
  unfolding prepare_error error
  prepare_case label close sql none next s k = k.at s
  prepare_case label close sql (some e) next s k = same M s.history

  pub Adds-prepare_in :
      (label close : String) (sql : Text) (next : Exec B)
      → Adds M next
      → Adds M (prepare_in env label close sql next)
  unfolding prepare_in
  Adds-prepare_in label close sql next k = record {
    at = λ s. prepare_case label close sql (env.driver.prepare s.history s.open_tx sql) next s k;
  }

module _ {B : Type 0} {M : Stmt → Type 0} (env : Env) where
  pub Adds-prepare :
      (label : String) (sql : Text) (next : Exec B)
      → Adds M next
      → Adds M (prepare env label sql next)
  unfolding prepare
  Adds-prepare label sql next k = Adds-prepare_in env label " ] prepare failed: " sql next k

sync_case :
    (s : Rdb) (d : MgoSyncData) (b : Bool)
    → (if b then record s { mgo_sync_data = s.mgo_sync_data ++ d ∷ [] } else s).history ≡ s.history
sync_case s d true = refl
sync_case s d false = refl

module _ {M : Stmt → Type 0} where
  pub Adds-exec :
      (env : Env) (sql : Text) (params : List Value)
      → ((t : Bool) → M (record { in_tx = t; sql = sql; params = params }))
      → Adds M (exec env sql params)
  unfolding exec
  Adds-exec env sql params k = record {
    at = λ s.
        (record { in_tx = s.open_tx; sql = sql; params = params } ∷ [], refl, (k s.open_tx, tt));
  }

  pub Adds-query :
      (env : Env) (sql : Text) (params : List Value)
      → ((t : Bool) → M (record { in_tx = t; sql = sql; params = params }))
      → Adds M (query env sql params)
  unfolding query
  Adds-query env sql params k = record {
    at = λ s.
        (record { in_tx = s.open_tx; sql = sql; params = params } ∷ [], refl, (k s.open_tx, tt));
  }

  pub Adds-rows_affected :
      (failed_msg count_msg : String) (r : ExecReply)
      → Adds M (rows_affected failed_msg count_msg r)
  unfolding rows_affected
  Adds-rows_affected failed_msg count_msg (exec_failed e) = Adds-error _
  Adds-rows_affected failed_msg count_msg (no_count e) = Adds-error _
  Adds-rows_affected failed_msg count_msg (affected n l) = Adds-pure (n, l)

  pub Adds-add_sync : (to_mongo : Bool) (d : MgoSyncData) → Adds M (add_sync to_mongo d)
  unfolding add_sync
  Adds-add_sync to_mongo d = record {
    at = λ s. ([], sync_case s d (s.mongo_sync && to_mongo) ∙ sym (append-nil s.history), tt);
  }

pub ruleset adds_rules = (
  Adds-pure, Adds-throw, Adds-error, Adds-lift, Adds-if, Adds-bind, Adds-prepare, Adds-prepare_in,
  Adds-rows_affected, Adds-add_sync,
)
