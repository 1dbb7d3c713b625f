-- ===== src/Cache/Lock/Commands.antt =====
-- The attempts to lock and the script of unlock, seen from the other processes.
use freego.Prelude.{
  ℕ, suc, ℤ, Text, text_eq, eq_of_text_eq, arith, ◌≡◌, refl, sym, ap, ◌∙◌, Bool, true, false,
  Option, none, some, List, [], if◌then◌else◌,
}
use freego.Errors.{Result, done, failed}
use freego.Cache.Lock.{
  SetReply, set_ok, key_exists, set_failed, Redis, Lock, lock_key, acquired, not_acquired,
  attempt_failed, try_lock, get_lock, if_own, unlock, Phase, World, attempted,
}
use freego.Cache.Lock.Phases.{RedisLaws, NoCall, IsSafe, leave, enter}

module _ {S : Type 0} (redis : Redis S) (next_sid : ℕ → Text)
    (unique : (m n : ℕ) → next_sid m ≡ next_sid n → m ≡ n) (laws : RedisLaws redis) where
  attempt_case :
      (H : ℕ → Type 0) (w : World S) (p : ℕ) (otherwise : Phase) (k : Lock) (r : SetReply S)
      → IsSafe redis next_sid H w
      → NoCall otherwise
      → k.token ≡ next_sid w.drawn
      → redis.set_nx w.redis_state (lock_key k) k.token k.exp ≡ r
      → IsSafe redis next_sid H (
          attempted p otherwise
            (elim r [
              | set_ok t ↦ acquired k t
              | key_exists ↦ not_acquired w.redis_state
              | set_failed m t ↦ attempt_failed m t
            ])
            w)
  unfolding attempted
  attempt_case H w p otherwise k (set_ok t) safe none_called e h =
      enter redis next_sid unique H w p k t safe e (laws.set-get _ t _ _ _ h)
        (laws.set-keeps _ t _ _ _ h)
  attempt_case H w p otherwise k key_exists safe none_called e h =
      leave redis next_sid H w p (suc w.drawn) otherwise w.redis_state safe none_called
        (omega arith) λ q m _ _ held. held
  attempt_case H w p otherwise k (set_failed m t) safe none_called e h =
      leave redis next_sid H w p (suc w.drawn) otherwise t safe none_called (omega arith)
        λ q m' _ _ held. laws.failed-keeps _ t _ _ m _ h _ _ held

  pub get_lock-IsSafe :
      (H : ℕ → Type 0) (w : World S) (p : ℕ) (otherwise : Phase) (resource : Text) (exp : ℤ)
      (spin : Bool)
      → IsSafe redis next_sid H w
      → NoCall otherwise
      → IsSafe redis next_sid H (
          attempted p otherwise
            (get_lock redis (next_sid w.drawn) resource exp spin w.redis_state)
            w)
  unfolding get_lock try_lock
  get_lock-IsSafe H w p otherwise resource exp spin safe none_called =
      attempt_case H w p otherwise _ _ safe none_called refl refl

  pub check_case :
      (H : ℕ → Type 0) (w x : World S) (r : Result (Unit {0}))
      → IsSafe redis next_sid H w
      → IsSafe redis next_sid H x
      → IsSafe redis next_sid H (elim r [ failed e ↦ w | done _ ↦ x ])
  check_case H w x (failed e) h k = h
  check_case H w x (done _) h k = k

  own_case :
      (l : Lock) (s : S) (j x held : Text) (told : List Text) (c : Bool)
      → text_eq held l.token ≡ c
      → (text_eq j (lock_key l) ≡ true → l.token ≡ held → ⊥)
      → redis.get s j ≡ some x
      → redis.get (if◌then◌else◌ {A = S × List Text} c (redis.del s (lock_key l), told) (s, [])).0 j
        ≡ some x
  own_case l s j x held told true e apart h = del_case (text_eq j (lock_key l)) refl
    where
      del_case :
          (c : Bool) → text_eq j (lock_key l) ≡ c → redis.get (redis.del s (lock_key l)) j ≡ some x
      del_case true f = absurd (apart f (sym (eq_of_text_eq held l.token e)))
      del_case false f = laws.del-keeps s j (lock_key l) f ∙ h
  own_case l s j x held told false e apart h = h

  unlock_found :
      (l m : Lock) (s : S) (o : Option Text)
      → redis.get s (lock_key l) ≡ o
      → (l.token ≡ m.token → ⊥)
      → redis.get s (lock_key m) ≡ some m.token
      → redis.get (if_own redis l s o).0 (lock_key m) ≡ some m.token
  unfolding if_own
  unlock_found l m s none e apart h = h
  unlock_found l m s (some held) e apart h =
      own_case l s (lock_key m) m.token held _ (text_eq held l.token) refl
        (λ same f.
          apart (f ∙ token_of (sym e ∙ ap (redis.get s) (sym (eq_of_text_eq _ _ same)) ∙ h)))
        h
    where
      token_of : {a b : Text} → some a ≡ some b → a ≡ b
      token_of g = cc

  -- The script never deletes the key of a lock with another token.
  pub unlock-keeps :
      (l m : Lock) (s : S)
      → (l.token ≡ m.token → ⊥)
      → redis.get s (lock_key m) ≡ some m.token
      → redis.get (unlock redis l s).0 (lock_key m) ≡ some m.token
  unfolding unlock
  unlock-keeps l m s apart h = unlock_found l m s (redis.get s (lock_key l)) refl apart h
