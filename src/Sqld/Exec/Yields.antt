-- ===== src/Sqld/Exec/Yields.antt =====
-- What the values are that a method of RDBManager returns, one rule for each way to build it.
use freego.Prelude.{Go, panic, ok, ◌≡◌, refl, Bool, true, false, if◌then◌else◌}
use freego.Sqld.Model.{Err, Result, done, failed}
use freego.Sqld.Exec.{Stmt, Rdb, Exec, ◌>>=◌, continue, pure, throw, error, lift}
use freego.Sqld.Exec.Adds.{Adds, Added, extend}

abbrev pub Yielded : {A : Type 0} → (A → Type 0) → Go (Result A × Rdb) → Type 0
Yielded P panic = Unit
Yielded P (ok (failed e, s)) = Unit
Yielded P (ok (done a, s)) = P a

-- Every value that the method returns satisfies P.
pub record Yields {A : Type 0} (P : A → Type 0) (m : Exec A) : Type 0 where
  pub at : (s : Rdb) → Yielded P (m s)

module _ {A : Type 0} {P : A → Type 0} where
  pub Yields-pure : (a : A) → P a → Yields P (pure a)
  Yields-pure a h = record { at = λ s. h }

  pub Yields-throw : (e : Err) → Yields P (throw e)
  Yields-throw e = record { at = λ s. tt }

  pub Yields-error : (e : Err) → Yields P (error e)
  unfolding error
  Yields-error e = record { at = λ s. tt }

  pub Yields-if :
      (b : Bool) (m n : Exec A) → Yields P m → Yields P n → Yields P (if b then m else n)
  Yields-if true m n h k = h
  Yields-if false m n h k = k

  pub Yields-cases :
      (b : Bool) (m n : Exec A)
      → (b ≡ true → Yields P m)
      → (b ≡ false → Yields P n)
      → Yields P (if b then m else n)
  Yields-cases true m n h k = h refl
  Yields-cases false m n h k = k refl

  -- An early `return self.Error(...)`.
  pub Yields-guard :
      (b : Bool) (e : Err) (m : Exec A)
      → (b ≡ false → Yields P m)
      → Yields P (if b then error e else m)
  Yields-guard true e m k = Yields-error e
  Yields-guard false e m k = k refl

yield_map :
    {A : Type 0} (P Q : A → Type 0) (g : Go (Result A × Rdb))
    → ((a : A) → P a → Q a)
    → Yielded P g
    → Yielded Q g
yield_map P Q panic f h = tt
yield_map P Q (ok (failed e, s)) f h = tt
yield_map P Q (ok (done a, s)) f h = f a h

pub Yields-map :
    {A : Type 0} {P Q : A → Type 0} {m : Exec A} → ((a : A) → P a → Q a) → Yields P m → Yields Q m
Yields-map {P = P} {Q = Q} {m = m} f h = record { at = λ s. yield_map P Q (m s) f (h.at s) }

module _ {A B : Type 0} {P : A → Type 0} {Q : B → Type 0} where
  yield_case :
      (g : Go (Result A × Rdb)) (f : A → Exec B)
      → Yielded P g
      → ((a : A) → P a → Yields Q (f a))
      → Yielded Q (elim g [ panic ↦ panic | ok r ↦ continue r f ])
  yield_case panic f h k = tt
  yield_case (ok (failed e, s)) f h k = tt
  yield_case (ok (done a, s)) f h k = (k a h).at s

  pub Yields-bind :
      (m : Exec A) (f : A → Exec B)
      → Yields P m
      → ((a : A) → P a → Yields Q (f a))
      → Yields Q (m >>= f)
  Yields-bind m f h k = record { at = λ s. yield_case (m s) f (h.at s) k }

any_value : {A : Type 0} (g : Go (Result A × Rdb)) → Yielded (λ _. Unit {0}) g
any_value panic = tt
any_value (ok (failed e, s)) = tt
any_value (ok (done a, s)) = tt

-- Whatever the first call returns.
pub Yields-then :
    {A B : Type 0} {Q : B → Type 0} (m : Exec A) (f : A → Exec B)
    → ((a : A) → Yields Q (f a))
    → Yields Q (m >>= f)
Yields-then m f k =
    Yields-bind {P = λ _. Unit {0}} m f (record { at = λ s. any_value (m s) }) (λ a _. k a)

module _ {B : Type 0} {Q : B → Type 0} where
  lift_case :
      {A : Type 0} (g : Go A) (f : A → Exec B) (s : Rdb)
      → ((a : A) → g ≡ ok a → Yields Q (f a))
      → Yielded Q (elim (lift g s) [ panic ↦ panic | ok r ↦ continue r f ])
  lift_case panic f s k = tt
  lift_case (ok a) f s k = (k a refl).at s

  -- The rest of the block may use that the call returned this value.
  pub Yields-lift-bind :
      {A : Type 0} (g : Go A) (f : A → Exec B)
      → ((a : A) → g ≡ ok a → Yields Q (f a))
      → Yields Q (lift g >>= f)
  Yields-lift-bind g f k = record { at = λ s. lift_case g f s k }

module _ {A B : Type 0} {P : A → Type 0} {M : Stmt → Type 0} where
  Adds-case :
      (s : Rdb) (g : Go (Result A × Rdb)) (f : A → Exec B)
      → Added M s g
      → Yielded P g
      → ((a : A) → P a → Adds M (f a))
      → Added M s (elim g [ panic ↦ panic | ok r ↦ continue r f ])
  Adds-case s panic f h y k = tt
  Adds-case s (ok (failed e, t)) f h y k = h
  Adds-case s (ok (done a, t)) f (new, p, q) y k = extend M s t new (f a t) p q ((k a y).at t)

  -- The statements of a block whose first call returns a value of which P holds.
  pub Adds-Yields-bind :
      (m : Exec A) (f : A → Exec B)
      → Adds M m
      → Yields P m
      → ((a : A) → P a → Adds M (f a))
      → Adds M (m >>= f)
  Adds-Yields-bind m f h y k = record { at = λ s. Adds-case s (m s) f (h.at s) (y.at s) k }
