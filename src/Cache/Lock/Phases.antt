-- ===== src/Cache/Lock/Phases.antt =====
-- What a process may do to its phase and the server without breaking the locks of the others.
use freego.Prelude.{
  ℕ, suc, ◌==◌, ◌<◌, ◌≤◌, ℤ, Text, text_eq, arith, ◌≡◌, refl, sym, ap, ◌∙◌, ◌⊎◌, inl, inr, Bool,
  true, false, some, if◌then◌else◌,
}
use mathlib.Core.Path.{subst}
use freego.Cache.Lock.{set_ok, set_failed, Redis, Lock, lock_key, Phase, calling, World, set_phase}

-- What Redis promises of its commands: `SET … NX` sets a key that did not exist and changes no other
-- key, and `DEL` deletes one key. A command that failed may have set its key, but changed no key that
-- existed.
pub record RedisLaws {S : Type 0} (redis : Redis S) : Type 0 where
  pub set-get :
      (s t : S) (k v : Text) (e : ℤ) → redis.set_nx s k v e ≡ set_ok t → redis.get t k ≡ some v
  pub set-keeps :
      (s t : S) (k v : Text) (e : ℤ)
      → redis.set_nx s k v e ≡ set_ok t
      → (j x : Text) → redis.get s j ≡ some x
      → redis.get t j ≡ some x
  pub failed-keeps :
      (s t : S) (k v m : Text) (e : ℤ)
      → redis.set_nx s k v e ≡ set_failed m t
      → (j x : Text) → redis.get s j ≡ some x
      → redis.get t j ≡ some x
  pub del-keeps :
      (s : S) (j k : Text) → text_eq j k ≡ false → redis.get (redis.del s k) j ≡ redis.get s j

eq_of_test : (a b : ℕ) → (a == b) ≡ true → a ≡ b
eq_of_test a b h = ground arith

abbrev pub NoCall : Phase → Type 0
NoCall ph = (l : Lock) → ph ≡ calling l → ⊥

still :
    (c : Bool) (ph other : Phase) (l : Lock)
    → NoCall ph
    → (if c then ph else other) ≡ calling l
    → (c ≡ false) × (other ≡ calling l)
still true ph other l n h = absurd (n l h)
still false ph other l n h = (refl, h)

abbrev pub lock_of : Lock → Phase → Lock
lock_of d (calling l) = l
lock_of d _ = d

now :
    (c : Bool) (other : Phase) (k l : Lock)
    → (if c then calling k else other) ≡ calling l
    → ((c ≡ true) × (k ≡ l)) ⊎ ((c ≡ false) × (other ≡ calling l))
now true other k l h = inl (refl, ap (lock_of k) h)
now false other k l h = inr (refl, h)

module _ {S : Type 0} (redis : Redis S) (next_sid : ℕ → Text) where
  -- Each process that calls has a token of its own that was drawn; and the key of each process in H
  -- holds its token.
  pub record IsSafe (H : ℕ → Type 0) (w : World S) : Type 0 where
    pub tokens :
        (p : ℕ) (l : Lock)
        → w.phase p ≡ calling l
        → (n : ℕ) × (n < w.drawn) × (l.token ≡ next_sid n)
    pub distinct :
        (p q : ℕ) (l m : Lock)
        → w.phase p ≡ calling l
        → w.phase q ≡ calling m
        → l.token ≡ m.token
        → p ≡ q
    pub held :
        (p : ℕ) (l : Lock)
        → H p
        → w.phase p ≡ calling l
        → redis.get w.redis_state (lock_key l) ≡ some l.token

  abbrev Remains : S → S → Text → Text → Type 0
  Remains s t j x = redis.get s j ≡ some x → redis.get t j ≡ some x

  -- A process leaves its phase for one without a call.
  pub leave :
      (H : ℕ → Type 0) (w : World S) (p d : ℕ) (ph : Phase) (t : S)
      → IsSafe H w
      → NoCall ph
      → w.drawn ≤ d
      → ((q : ℕ) (m : Lock)
          → (q == p) ≡ false
          → w.phase q ≡ calling m
          → Remains w.redis_state t (lock_key m) m.token)
      → IsSafe H (set_phase p ph (record w { redis_state = t; drawn = d }))
  leave H w p d ph t safe none_called more keep = record {
    tokens = λ q l h.
        let old = still (q == p) ph _ l none_called h in
        let own = safe.tokens q l old.1 in (own.0, omega (arith, own.1, more), own.2);
    distinct = λ q r l m h k e.
        safe.distinct q r l m (still (q == p) ph _ l none_called h).1
          (still (r == p) ph _ m none_called k).1 e;
    held = λ q l no h.
        let old = still (q == p) ph _ l none_called h in
        keep q l old.0 old.1 (safe.held q l no old.1);
  }

  module _ (unique : (m n : ℕ) → next_sid m ≡ next_sid n → m ≡ n) where
    fresh :
        (H : ℕ → Type 0) (w : World S) (k : Lock) (q : ℕ) (m : Lock)
        → IsSafe H w
        → k.token ≡ next_sid w.drawn
        → w.phase q ≡ calling m
        → k.token ≡ m.token
        → ⊥
    fresh H w k q m safe e h same =
        let own = safe.tokens q m h in
        let drawn : w.drawn ≡ own.0 = unique _ _ (sym e ∙ same ∙ own.2) in
        omega (arith, own.1, drawn)

    -- A process begins its call with a lock whose token was just drawn.
    pub enter :
        (H : ℕ → Type 0) (w : World S) (p : ℕ) (k : Lock) (t : S)
        → IsSafe H w
        → k.token ≡ next_sid w.drawn
        → redis.get t (lock_key k) ≡ some k.token
        → ((j x : Text) → Remains w.redis_state t j x)
        → IsSafe H (set_phase p (calling k) (record w { redis_state = t; drawn = suc w.drawn }))
    enter H w p k t safe e got keep = record {
      tokens = λ q l h. elim (now (q == p) (w.phase q) k l h) [
        | inl (c, same) ↦ (w.drawn, omega arith, ap (λ x. x.token) (sym same) ∙ e)
        | inr (c, old) ↦ let own = safe.tokens q l old in (own.0, omega (arith, own.1), own.2)
      ];
      distinct = λ q r l m h j same. elim (now (q == p) (w.phase q) k l h) [
        | inl (c, mine) ↦ elim (now (r == p) (w.phase r) k m j) [
          | inl (c', _) ↦ eq_of_test q p c ∙ sym (eq_of_test r p c')
          | inr (c', old) ↦ absurd (fresh H w k r m safe e old (ap (λ x. x.token) mine ∙ same))
        ]
        | inr (c, old) ↦ elim (now (r == p) (w.phase r) k m j) [
          | inl (c', mine) ↦ absurd (fresh H w k q l safe e old (ap (λ x. x.token) mine ∙ sym same))
          | inr (c', older) ↦ safe.distinct q r l m old older same
        ]
      ];
      held = λ q l no h. elim (now (q == p) (w.phase q) k l h) [
        | inl (c, mine) ↦ subst (λ x. redis.get t (lock_key x) ≡ some x.token) mine got
        | inr (c, old) ↦ keep (lock_key l) l.token (safe.held q l no old)
      ];
    }
