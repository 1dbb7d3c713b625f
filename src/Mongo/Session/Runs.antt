-- ===== src/Mongo/Session/Runs.antt =====
-- Which operations a method of MGOManager runs, and what it returns: one rule for each way to build
-- a method.
use mathlib.Core.List.{append-nil, append_assoc}
use freego.Prelude.{
  ℕ, Text, String, Go, panic, ok, ltb, ◌≡◌, refl, sym, ap, ◌∙◌, Bool, true, false, Option, none,
  some, List, [], ◌∷◌, ◌++◌, length, if◌then◌else◌,
}
use freego.Errors.{Err, Result, done, failed}
use freego.Sqlc.Object.{Object}
use freego.Sqld.Model.{MdlDriver}
use freego.Sqld.Exec.Adds.{All, All-append}
use freego.Mongo.Session.{
  Op, MongoCall, Env, Mgo, Exec, ◌>>=◌, pure, mongo_error, lift, or_record, get_database,
  open_collection, call_of, run_op, sync_model, driver_of, checked_model, checked_data, continue,
}

-- t has run some more operations than s, all of which satisfy M.
abbrev pub Grown : (MongoCall → Type 0) → Mgo → Mgo → Type 0
Grown M s t = (new : List MongoCall) × (t.history ≡ s.history ++ new) × All M new

abbrev pub Holds : {A : Type 0} → (A → Type 0) → Result A → Type 0
Holds P (failed e) = Unit
Holds P (done a) = P a

abbrev pub Ran :
    {A : Type 0} → (MongoCall → Type 0) → (A → Type 0) → Mgo → Go (Result A × Mgo) → Type 0
Ran M P s panic = Unit
Ran M P s (ok r) = Grown M s r.1 × Holds P r.0

-- Every operation that the method runs satisfies M, and what it returns without an error, P.
pub record Runs {A : Type 0} (M : MongoCall → Type 0) (P : A → Type 0) (m : Exec A) : Type 0 where
  pub at : (s : Mgo) → Ran M P s (m s)

same :
    (M : MongoCall → Type 0) (s : Mgo) (h : List MongoCall)
    → h ≡ s.history
    → (new : List MongoCall) × (h ≡ s.history ++ new) × All M new
same M s h e = ([], e ∙ sym (append-nil s.history), tt)

more :
    {B : Type 0} (Q : B → Type 0) (M : MongoCall → Type 0) (s t : Mgo) (g : Go (Result B × Mgo))
    → Grown M s t
    → Ran M Q t g
    → Ran M Q s g
more Q M s t panic h k = tt
more Q M s t (ok r) (new, p, k) ((next, q, l), e) = (
  (
    new ++ next,
    q ∙ ap (λ h. h ++ next) p ∙ append_assoc s.history new next,
    All-append M new next k l,
  ),
  e,
)

module _ {A : Type 0} {M : MongoCall → Type 0} {P : A → Type 0} where
  pub Runs-pure : (a : A) → P a → Runs M P (pure a)
  Runs-pure a p = record { at = λ s. (same M s s.history refl, p) }

  pub Runs-error : (e : Err) → Runs M P (mongo_error e)
  unfolding mongo_error
  Runs-error e = record { at = λ s. (same M s s.history refl, tt) }

  pub Runs-if :
      (b : Bool) (m n : Exec A)
      → (b ≡ true → Runs M P m)
      → (b ≡ false → Runs M P n)
      → Runs M P (if b then m else n)
  Runs-if true m n k l = k refl
  Runs-if false m n k l = l refl

  -- An early `return self.Error(...)`.
  pub Runs-guard :
      (b : Bool) (e : Err) (m : Exec A)
      → (b ≡ false → Runs M P m)
      → Runs M P (if b then mongo_error e else m)
  Runs-guard b e m k = Runs-if b (mongo_error e) m (λ _. Runs-error e) k

  pub Runs-or_record : (label : Err) (r : Result A) → Holds P r → Runs M P (or_record label r)
  unfolding or_record
  Runs-or_record label (failed e) h = Runs-error (label ++ e)
  Runs-or_record label (done a) h = Runs-pure a h

module _ {A B : Type 0} {M : MongoCall → Type 0} {P : A → Type 0} {Q : B → Type 0} where
  bind_case :
      (s : Mgo) (g : Go (Result A × Mgo)) (f : A → Exec B)
      → Ran M P s g
      → ((a : A) → P a → Runs M Q (f a))
      → Ran M Q s (elim g [ panic ↦ panic | ok r ↦ continue r f ])
  bind_case s panic f h k = tt
  bind_case s (ok (failed e, t)) f h k = h
  bind_case s (ok (done a, t)) f h k = more Q M s t (f a t) h.0 ((k a h.1).at t)

  pub Runs-bind :
      (m : Exec A) (f : A → Exec B)
      → Runs M P m
      → ((a : A) → P a → Runs M Q (f a))
      → Runs M Q (m >>= f)
  Runs-bind m f k l = record { at = λ s. bind_case s (m s) f (k.at s) l }

lift_case :
    {A : Type 0} (M : MongoCall → Type 0) (g : Go A) (s : Mgo) → Ran M (λ a. g ≡ ok a) s (lift g s)
lift_case M panic s = tt
lift_case M (ok a) s = (same M s s.history refl, refl)

open_case :
    (M : MongoCall → Type 0) (b : Bool) (m n : Exec (Unit {0})) (s : Mgo)
    → Ran M (λ _. Unit {0}) s (m s)
    → Ran M (λ _. Unit {0}) s (n s)
    → Ran M (λ _. Unit {0}) s ((if b then m else n) s)
open_case M true m n s h k = h
open_case M false m n s h k = k

module _ {A B : Type 0} {M : MongoCall → Type 0} {Q : B → Type 0} where
  pub Runs-or_record-bind :
      (label : Err) (r : Result A) (f : A → Exec B)
      → ((a : A) → Runs M Q (f a))
      → Runs M Q (or_record label r >>= f)
  unfolding or_record mongo_error
  Runs-or_record-bind label (failed e) f k = record { at = λ s. (same M s s.history refl, tt) }
  Runs-or_record-bind label (done a) f k = record { at = λ s. (k a).at s }

module _ {A : Type 0} {M : MongoCall → Type 0} where
  pub Runs-lift : (g : Go A) → Runs M (λ a. g ≡ ok a) (lift g)
  Runs-lift g = record { at = λ s. lift_case M g s }

module _ {M : MongoCall → Type 0} where
  pub Runs-get_database :
      (env : Env) (table : Text) → Runs M (λ _. Unit {0}) (get_database env table)
  unfolding get_database
  Runs-get_database env table =
      Runs-if (env.client.has_collection table) _ _ (λ _. Runs-pure tt tt) (λ _. Runs-error _)

  pub Runs-open_collection :
      (env : Env) (table : Text) → Runs M (λ _. Unit {0}) (open_collection env table)
  unfolding open_collection mongo_error
  Runs-open_collection env table = record {
    at = λ s.
        open_case M (env.client.has_collection table) _ _ s (same M s s.history refl, tt)
          (same M s s.history refl, tt);
  }

  pub Runs-run_op :
      (env : Env) (table : Text) (op : Op)
      → ((s : Mgo) → M (call_of s table op))
      → Runs M (λ _. Unit {0}) (run_op env table op)
  unfolding run_op
  Runs-run_op env table op k = record { at = λ s. ((call_of s table op ∷ [], refl, (k s, tt)), tt) }

  pub Runs-driver_of :
      (label : String) (table : Text) (o : Option MdlDriver)
      → Runs M (λ obv. o ≡ some obv) (driver_of label table o)
  unfolding driver_of
  Runs-driver_of label table none = Runs-error _
  Runs-driver_of label table (some obv) = Runs-pure obv refl

  pub Runs-sync_model : (o : Object) → Runs M (λ _. Unit {0}) (sync_model o)
  unfolding sync_model
  Runs-sync_model o = record { at = λ s. (same M s s.history refl, tt) }

module _ {A : Type 0} {M : MongoCall → Type 0} {P : A → Type 0} (env : Env) where
  pub Runs-checked_model :
      (label : String) (n : ℕ) (o : Object) (f : MdlDriver → Text → Exec A)
      → ((obv : MdlDriver) (table : Text)
          → env.model_drivers table ≡ some obv
          → Runs M P (f obv table))
      → Runs M P (checked_model env label n o f)
  unfolding checked_model
  Runs-checked_model label n o f k = Runs-guard (ltb 2000 n) _ _ λ _.
      Runs-bind _ _ (Runs-sync_model o) λ d _.
        Runs-bind _ _ (Runs-driver_of label d.table _)
          λ obv h. Runs-bind _ _ (Runs-open_collection env d.table) λ _ _. k obv d.table h

  pub Runs-checked_data :
      (label : String) (os : List Object) (f : MdlDriver → Text → Exec A)
      → ((obv : MdlDriver) (table : Text)
          → env.model_drivers table ≡ some obv
          → Runs M P (f obv table))
      → Runs M P (checked_data env label os f)
  unfolding checked_data
  Runs-checked_data label [] f k = Runs-error _
  Runs-checked_data label (o ∷ os) f k = Runs-checked_model label (length (o ∷ os)) o f k
