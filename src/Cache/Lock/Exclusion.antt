-- ===== src/Cache/Lock/Exclusion.antt =====
-- The calls under one lock exclude each other.
use freego.Prelude.{
  ℕ, ◌==◌, ℤ, Text, codes, ◌++◌, arith, ◌≡◌, refl, sym, ap, ◌∙◌, Bool, true, false, some,
}
use mathlib.Core.Path.{subst}
use freego.Cache.Lock.{
  Redis, Lock, lock_key, unlock, check_parameters, idle, waiting, calling, World, try_start,
  spin_start, spin_message, finish, Step, try_step, spin_step, message_step, timeout_step,
  finish_step, lost_step, expire_step, Steps, start, next,
}
use freego.Cache.Lock.Phases.{RedisLaws, NoCall, lock_of, IsSafe, leave}
use freego.Cache.Lock.Commands.{get_lock-IsSafe, check_case, unlock-keeps}

module _ {S : Type 0} (redis : Redis S) (next_sid : ℕ → Text)
    (unique : (m n : ℕ) → next_sid m ≡ next_sid n → m ≡ n) (laws : RedisLaws redis) where
  not_same : (q p : ℕ) → (q == p) ≡ false → p ≡ q → ⊥
  not_same q p h e = ground arith

  no_idle : NoCall idle
  no_idle l h = absurd cc

  no_waiting : (resource : Text) (exp : ℤ) → NoCall (waiting resource exp)
  no_waiting resource exp l h = absurd cc

  Step-IsSafe :
      (b : Bool) (H : ℕ → Type 0) (w x : World S)
      → (b ≡ true → (p : ℕ) → H p → ⊥)
      → IsSafe redis next_sid H w
      → Step redis next_sid b w x
      → IsSafe redis next_sid H x
  unfolding try_start spin_start spin_message finish
  Step-IsSafe b H w x none_expires safe (try_step _ p resource exp call h) =
      check_case redis next_sid unique laws H w _ (check_parameters resource exp exp call) safe
        (get_lock-IsSafe redis next_sid unique laws H w p idle resource exp false safe no_idle)
  Step-IsSafe b H w x none_expires safe (spin_step _ p resource try_second exp call h) =
      check_case redis next_sid unique laws H w _ (check_parameters resource try_second exp call)
        safe
        (get_lock-IsSafe redis next_sid unique laws H w p (waiting resource exp) resource exp true
          safe (no_waiting resource exp))
  Step-IsSafe b H w x none_expires safe (message_step _ p resource exp h) =
      get_lock-IsSafe redis next_sid unique laws H w p (waiting resource exp) resource exp true safe
        (no_waiting resource exp)
  Step-IsSafe b H w x none_expires safe (timeout_step _ p resource exp h) =
      leave redis next_sid H w p w.drawn idle w.redis_state safe no_idle (omega arith)
        λ q m _ _ k. k
  Step-IsSafe b H w x none_expires safe (lost_step _ p l h) =
      leave redis next_sid H w p w.drawn idle w.redis_state safe no_idle (omega arith)
        λ q m _ _ k. k
  Step-IsSafe b H w x none_expires safe (finish_step _ p l h) =
      leave redis next_sid H w p w.drawn idle (unlock redis l w.redis_state).0 safe no_idle
        (omega arith)
        λ q m other j k.
          unlock-keeps redis next_sid unique laws l m w.redis_state
            (λ same. not_same q p other (safe.distinct p q l m h j same)) k
  Step-IsSafe b H w x none_expires safe (expire_step _ key e) = record {
    tokens = safe.tokens;
    distinct = safe.distinct;
    held = λ p l no h. absurd (none_expires e p no);
  }

  start-IsSafe :
      (H : ℕ → Type 0) (w : World S) → ((p : ℕ) → w.phase p ≡ idle) → IsSafe redis next_sid H w
  start-IsSafe H w h = record {
    tokens = λ p l k. absurd (no_idle l (sym (h p) ∙ k));
    distinct = λ p q l m k _ _. absurd (no_idle l (sym (h p) ∙ k));
    held = λ p l _ k. absurd (no_idle l (sym (h p) ∙ k));
  }

  Steps-IsSafe :
      (b : Bool) (H : ℕ → Type 0) (v w : World S)
      → (b ≡ true → (p : ℕ) → H p → ⊥)
      → ((p : ℕ) → v.phase p ≡ idle)
      → Steps redis next_sid b v w
      → IsSafe redis next_sid H w
  Steps-IsSafe b H v w none_expires h start = start-IsSafe H v h
  Steps-IsSafe b H v w none_expires h (next u _ before step) =
      Step-IsSafe b H u w none_expires (Steps-IsSafe b H v u none_expires h before) step

-- If tokens are unique and no lock expires, of the processes that began without a lock no two are in
-- the functions that they run under one lock, in whatever order their steps are taken and whichever
-- commands fail.
pub calls_exclude :
    {S : Type 0} (redis : Redis S) (next_sid : ℕ → Text)
    → ((m n : ℕ) → next_sid m ≡ next_sid n → m ≡ n)
    → RedisLaws redis
    → (v w : World S) → ((p : ℕ) → v.phase p ≡ idle)
    → Steps redis next_sid false v w
    → (p q : ℕ) (l m : Lock) → w.phase p ≡ calling l
    → w.phase q ≡ calling m
    → l.resource ≡ m.resource
    → p ≡ q
unfolding lock_key
calls_exclude redis next_sid unique laws v w h steps p q l m i j same =
    let safe : IsSafe redis next_sid (λ _. Unit) w =
      Steps-IsSafe redis next_sid unique laws false (λ _. Unit) v w (λ e. absurd cc) h steps in
    safe.distinct p q l m i j (
      token_of (
        sym (safe.held p l tt i)
        ∙ ap (λ k. redis.get w.redis_state k) (ap (λ r. codes "redis:lock:" ++ r) same)
        ∙ safe.held q m tt j))
  where
    token_of : {a b : Text} → some a ≡ some b → a ≡ b
    token_of g = cc

-- If tokens are unique, a process that is in its function and whose key holds its token still has
-- both after any step of the processes but the end of its own call, whatever locks expired before: no
-- step of another process frees the lock.
pub lock_kept :
    {S : Type 0} (redis : Redis S) (next_sid : ℕ → Text)
    → ((m n : ℕ) → next_sid m ≡ next_sid n → m ≡ n)
    → RedisLaws redis
    → (v w x : World S) → ((p : ℕ) → v.phase p ≡ idle)
    → Steps redis next_sid true v w
    → Step redis next_sid false w x
    → (q : ℕ) (l m : Lock) → w.phase q ≡ calling l
    → redis.get w.redis_state (lock_key l) ≡ some l.token
    → x.phase q ≡ calling m
    → redis.get x.redis_state (lock_key m) ≡ some m.token
lock_kept redis next_sid unique laws v w x h steps step q l m i got j =
    (Step-IsSafe redis next_sid unique laws false (λ p. p ≡ q) w x (λ e. absurd cc) safe step).held
      q m refl j
  where
    old : IsSafe redis next_sid (λ _. ⊥) w
    old = Steps-IsSafe redis next_sid unique laws true (λ _. ⊥) v w (λ _ _ e. e) h steps

    safe : IsSafe redis next_sid (λ p. p ≡ q) w
    safe = record {
      tokens = old.tokens;
      distinct = old.distinct;
      held = λ p k e f.
          subst (λ n. redis.get w.redis_state (lock_key n) ≡ some n.token)
            (ap (lock_of l) (sym i ∙ ap w.phase (sym e) ∙ f)) got;
    }
