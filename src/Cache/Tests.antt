-- ===== src/Cache/Tests.antt =====
-- A Redis server in memory, and the theorems on locks at two processes.
use freego.Prelude.{
  ℕ, pos, Text, codes, text_eq, text_eq_refl, eq_of_text_eq, ◌≡◌, refl, sym, ap, ◌∙◌, Bool, true,
  false, Option, none, some, [], ◌∷◌, if◌then◌else◌,
}
use freego.Cache.Lock.{
  SetReply, set_ok, key_exists, set_failed, waiting, Redis, Lock, lock_key, try_lock, get_lock,
  check_parameters, idle, calling, World, attempted, try_start, spin_start, try_step, spin_step,
  Step, Steps, start, next,
}
use freego.Cache.Lock.Phases.{RedisLaws}
use freego.Cache.Lock.Exclusion.{calls_exclude, lock_kept}

abbrev Memory : Type 0
Memory = Text → Option Text

abbrev set_new : Memory → Text → Text → Option Text → SetReply Memory
set_new s k v none = set_ok (λ j. if text_eq j k then some v else s j)
set_new s k v (some _) = key_exists

abbrev memory : Redis Memory
memory = record {
  get = λ s k. s k;
  set_nx = λ s k v e. set_new s k v (s k);
  del = λ s k j. if text_eq j k then none else s j;
}

abbrev state_of : Memory → SetReply Memory → Memory
state_of s (set_ok t) = t
state_of s _ = s

set_case : (s t : Memory) (k v : Text) (o : Option Text) → set_new s k v o ≡ set_ok t → t k ≡ some v
set_case s t k v none h = ap (λ m. m k) (sym (ap (state_of s) h)) ∙ rw (text_eq_refl k) refl
set_case s t k v (some _) h = absurd cc

keep_case :
    (s t : Memory) (k v : Text) (o : Option Text)
    → s k ≡ o
    → set_new s k v o ≡ set_ok t
    → (j x : Text) → s j ≡ some x
    → t j ≡ some x
keep_case s t k v none e h j x g =
    ap (λ m. m j) (sym (ap (state_of s) h)) ∙ test_case (text_eq j k) refl
  where
    test_case : (c : Bool) → text_eq j k ≡ c → (if c then some v else s j) ≡ some x
    test_case true f =
        let same : s j ≡ none = ap s (eq_of_text_eq j k f) ∙ e in
        let wrong : some x ≡ none = sym g ∙ same in absurd cc
    test_case false f = g
keep_case s t k v (some _) e h j x g = absurd cc

fail_case : (s t : Memory) (k v m : Text) (o : Option Text) → set_new s k v o ≡ set_failed m t → ⊥
fail_case s t k v m none h = cc
fail_case s t k v m (some _) h = cc

memory_laws : RedisLaws memory
memory_laws = record {
  set-get = λ s t k v e h. set_case s t k v (s k) h;
  set-keeps = λ s t k v e h. keep_case s t k v (s k) refl h;
  failed-keeps = λ s t k v m e h. absurd (fail_case s t k v m (s k) h);
  del-keeps = λ s j k h. rw h refl;
}

abbrev token : ℕ → Text
token n = n ∷ []

token_unique : (m n : ℕ) → token m ≡ token n → m ≡ n
token_unique m n h = cc

abbrev no_locks : World Memory
no_locks = record { redis_state = λ k. none; phase = λ p. idle; drawn = 0 }

abbrev first_lock : Lock
first_lock = record { resource = codes "a"; token = token 0; exp = pos 10; spin = false }

abbrev locked : World Memory
locked = try_start memory token 0 (codes "a") (pos 10) true no_locks

abbrev both : World Memory
both = spin_start memory token 1 (codes "a") (pos 5) (pos 10) true locked

locked_phase : locked.phase 0 ≡ calling first_lock
unfolding try_start attempted get_lock try_lock check_parameters lock_key
locked_phase = refl

both_phase : both.phase 0 ≡ calling first_lock
unfolding try_start spin_start attempted get_lock try_lock check_parameters lock_key
both_phase = refl

-- The second process waits.
waiting_phase : both.phase 1 ≡ waiting (codes "a") (pos 10)
unfolding try_start spin_start attempted get_lock try_lock check_parameters lock_key
waiting_phase = refl

locked_key : memory.get locked.redis_state (lock_key first_lock) ≡ some (token 0)
unfolding try_start attempted get_lock try_lock check_parameters lock_key
locked_key = refl

begun_first : (b : Bool) → Steps memory token b no_locks locked
begun_first b = next no_locks locked start (try_step no_locks 0 (codes "a") (pos 10) true refl)

begun_second : Step memory token false locked both
unfolding try_start attempted get_lock try_lock check_parameters lock_key
begun_second = spin_step locked 1 (codes "a") (pos 5) (pos 10) true refl

calls_exclude_example : ◌≡◌ {A = ℕ} 0 0
calls_exclude_example =
    calls_exclude memory token token_unique memory_laws no_locks both (λ p. refl)
      (next locked both (begun_first false) begun_second) 0 0 first_lock first_lock both_phase
      both_phase refl

lock_kept_example : memory.get both.redis_state (lock_key first_lock) ≡ some (token 0)
lock_kept_example =
    lock_kept memory token token_unique memory_laws no_locks locked both (λ p. refl)
      (begun_first true) begun_second 0 first_lock first_lock locked_phase locked_key both_phase
