-- ===== src/Cache/Lock.antt =====
-- cache/redis_lock.go: the lock of a resource in Redis, which several processes ask for.
pub mod Phases
pub mod Commands
pub mod Exclusion
use freego.Prelude.{
  ℕ, suc, ltb, ◌==◌, ℤ, pos, ltb_ℤ, Text, String, codes, text_eq, Bool, true, false, not, ◌||◌,
  Option, none, some, List, [], ◌∷◌, ◌++◌, length, if◌then◌else◌, ◌≡◌,
}
use freego.Errors.{lit, text, num, Err, Result, done, failed}

-- What `SET key token EX exp NX` answers: "OK", nil for a key that exists, or an error. An error may
-- come from a command that was run.
pub data SetReply (S : Type 0) : Type 0 where
  set_ok : S → SetReply S
  key_exists : SetReply S
  set_failed : Text → S → SetReply S

-- A Redis server; `get` and `del` are called by the script.
pub record Redis (S : Type 0) : Type 0 where
  pub get : S → Text → Option Text
  pub set_nx : S → Text → Text → ℤ → SetReply S
  pub del : S → Text → S

-- Lock, without its connection.
pub record Lock : Type 0 where
  pub resource : Text
  pub token : Text
  pub exp : ℤ
  pub spin : Bool

unfoldable pub lock_key : Lock → Text
lock_key l = codes "redis:lock:" ++ l.resource

abbrev pub subscribe_key : Text
subscribe_key = codes "redis:subscribe:lock:"

unfoldable pub subscribe_data : Lock → Text
subscribe_data l = subscribe_key ++ l.resource

pub data Attempt (S : Type 0) : Type 0 where
  acquired : Lock → S → Attempt S
  not_acquired : S → Attempt S
  attempt_failed : Text → S → Attempt S

module _ {S : Type 0} (redis : Redis S) where
  -- tryLock
  unfoldable pub try_lock : Lock → S → Attempt S
  unfolding lock_key
  try_lock l s = elim (redis.set_nx s (lock_key l) l.token l.exp) [
    | set_ok t ↦ acquired l t
    | key_exists ↦ not_acquired s
    | set_failed e t ↦ attempt_failed e t
  ]

  -- getLockWithTimeout, with the token that utils.NextSID gives.
  unfoldable pub get_lock : Text → Text → ℤ → Bool → S → Attempt S
  unfolding try_lock
  get_lock token resource exp spin s =
      try_lock (record { resource = resource; token = token; exp = exp; spin = spin }) s

  unfoldable pub if_own : Lock → S → Option Text → S × List Text
  unfolding subscribe_data lock_key
  if_own l s none = (s, [])
  if_own l s (some held) =
      if text_eq held l.token
      then (redis.del s (lock_key l), (if l.spin then subscribe_data l ∷ [] else []))
      else (s, [])

  -- unlockScript: the key is deleted if it holds the token, and the waiting processes are told of it
  -- if the lock spins.
  unfoldable pub unlock : Lock → S → S × List Text
  unfolding if_own lock_key
  unlock l s = if_own l s (redis.get s (lock_key l))

-- checkParameters; `call` says that there is a function to call.
unfoldable pub check_parameters : Text → ℤ → ℤ → Bool → Result (Unit {0})
check_parameters resource try_second exp_second call =
    if length resource == 0 || ltb 100 (length resource)
    then failed (lit "redis lock key invalid: " ∷ text resource ∷ [])
    else if ltb_ℤ exp_second (pos 3) || ltb_ℤ (pos 600) exp_second
    then failed (lit "redis lock exp range [3-600s]: " ∷ num exp_second ∷ [])
    else if ltb_ℤ try_second (pos 3) || (ltb_ℤ (pos 600) try_second || ltb_ℤ exp_second try_second)
    then failed (lit "redis lock try range [3-600s]: " ∷ num try_second ∷ [])
    else if not call
    then failed (lit "redis lock call function nil" ∷ [])
    else done tt

-- Where a process stands: it has no lock, it waits for the message of a lock's release, or it is in
-- the function that it runs under the lock.
pub data Phase : Type 0 where
  idle : Phase
  waiting : Text → ℤ → Phase
  calling : Lock → Phase

-- The server, the processes, and the number of tokens drawn.
pub record World (S : Type 0) : Type 0 where
  pub redis_state : S
  pub phase : ℕ → Phase
  pub drawn : ℕ

abbrev pub set_phase : {S : Type 0} → ℕ → Phase → World S → World S
set_phase p ph w = record w { phase = λ q. if q == p then ph else w.phase q }

module _ {S : Type 0} where
  -- What becomes of a process after an attempt: it calls, waits, or returns an error.
  unfoldable pub attempted : ℕ → Phase → Attempt S → World S → World S
  attempted p otherwise (acquired l s) w =
      set_phase p (calling l) (record w { redis_state = s; drawn = suc w.drawn })
  attempted p otherwise (not_acquired s) w =
      set_phase p otherwise (record w { redis_state = s; drawn = suc w.drawn })
  attempted p otherwise (attempt_failed e s) w =
      set_phase p otherwise (record w { redis_state = s; drawn = suc w.drawn })

module _ {S : Type 0} (redis : Redis S) (next_sid : ℕ → Text) where
  -- TryLockWithTimeout before the call; without the lock it returns an error.
  unfoldable pub try_start : ℕ → Text → ℤ → Bool → World S → World S
  unfolding get_lock attempted check_parameters
  try_start p resource exp call w = elim (check_parameters resource exp exp call) [
    | failed e ↦ w
    | done _ ↦
        attempted p idle (get_lock redis (next_sid w.drawn) resource exp false w.redis_state) w
  ]

  -- SpinLockWithTimeout before the call; without the lock it subscribes.
  unfoldable pub spin_start : ℕ → Text → ℤ → ℤ → Bool → World S → World S
  unfolding get_lock attempted check_parameters
  spin_start p resource try_second exp call w =
      elim (check_parameters resource try_second exp call) [
        | failed e ↦ w
        | done _ ↦
            attempted p (waiting resource exp)
              (get_lock redis (next_sid w.drawn) resource exp true w.redis_state) w
      ]

  -- The handler of the subscription, for the message of this lock. Subscribe goes on without a lock,
  -- also behind an error.
  unfoldable pub spin_message : ℕ → Text → ℤ → World S → World S
  unfolding get_lock attempted
  spin_message p resource exp w =
      attempted p (waiting resource exp)
        (get_lock redis (next_sid w.drawn) resource exp true w.redis_state) w

  -- The end of both methods, behind the call; the error of the script is logged only.
  unfoldable pub finish : ℕ → Lock → World S → World S
  unfolding unlock
  finish p l w = set_phase p idle (record w { redis_state = (unlock redis l w.redis_state).0 })

  -- One step of one process. The last but one is an unlock whose script was not run, and the last
  -- one, which b allows, the expiry of a key.
  pub data Step (b : Bool) : World S → World S → Type 0 where
    try_step :
        (w : World S) (p : ℕ) (resource : Text) (exp : ℤ) (call : Bool)
        → w.phase p ≡ idle
        → Step b w (try_start p resource exp call w)
    spin_step :
        (w : World S) (p : ℕ) (resource : Text) (try_second exp : ℤ) (call : Bool)
        → w.phase p ≡ idle
        → Step b w (spin_start p resource try_second exp call w)
    message_step :
        (w : World S) (p : ℕ) (resource : Text) (exp : ℤ)
        → w.phase p ≡ waiting resource exp
        → Step b w (spin_message p resource exp w)
    timeout_step :
        (w : World S) (p : ℕ) (resource : Text) (exp : ℤ)
        → w.phase p ≡ waiting resource exp
        → Step b w (set_phase p idle w)
    finish_step : (w : World S) (p : ℕ) (l : Lock) → w.phase p ≡ calling l → Step b w (finish p l w)
    lost_step :
        (w : World S) (p : ℕ) (l : Lock) → w.phase p ≡ calling l → Step b w (set_phase p idle w)
    expire_step :
        (w : World S) (key : Text)
        → b ≡ true
        → Step b w (record w { redis_state = redis.del w.redis_state key })

  pub data Steps (b : Bool) (v : World S) : World S → Type 0 where
    start : Steps b v v
    next : (w x : World S) → Steps b v w → Step b w x → Steps b v x
