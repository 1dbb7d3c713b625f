-- ===== src/Sqld/Transaction/Close.antt =====
-- What Close does after a session.
use freego.Prelude.{
  ◌≡◌, refl, arith, Go, panic, ok, ◌>>=◌, Bool, true, false, not, ◌&&◌, ◌||◌, List, [], ◌∷◌, ◌++◌,
  if◌then◌else◌,
}
use mathlib.Core.Path.{subst}
use freego.Sqld.Model.{Result, done, failed}
use freego.Sqld.Exec.{Env, Rdb}
use freego.Sqld.Exec.Adds.{All}
use freego.Sqld.Exec.Obeys.{Relation, Obeyed, Frame, is_empty}
use freego.Sqld.Delete.Obeys.{delete_by_cnd-Obeys}
use freego.Sqld.Update.Obeys.{update_with_cnd-Obeys}
use freego.Sqld.Session.{commit, rollback, sync, close}
use freego.Sqld.Transaction.{
  Call, save_call, update_call, delete_call, update_by_cnd_call, delete_by_cnd_call,
  delete_by_id_call, outcome, run_call, run_calls,
}

abbrev pub Ran : Relation → Rdb → Go (Bool × Rdb) → Type 0
Ran R s panic = Unit
Ran R s (ok (b, t)) = R s b t

pub outcome-Ran :
    {A : Type 0} (R : Relation) (s : Rdb) (g : Go (Result A × Rdb))
    → Obeyed R s g
    → Ran R s (outcome g)
outcome-Ran R s panic h = tt
outcome-Ran R s (ok (done a, t)) h = h
outcome-Ran R s (ok (failed e, t)) h = h

-- The relation also holds across a call that failed.
abbrev pub Carries : Relation → Type 0
Carries R = (s t u : Rdb) (a b : Bool) → R s a t → R t b u → R s (a || b) u

join_case :
    (R : Relation) (s t : Rdb) (a : Bool) (g : Go (Bool × Rdb))
    → Carries R
    → R s a t
    → Ran R t g
    → Ran R s (g >>= λ q. ok (a || q.0, q.1))
join_case R s t a panic c h k = tt
join_case R s t a (ok (b, u)) c h k = c s t u a b h k

calls_case :
    (R : Relation) (env : Env) (cs : List Call) (s : Rdb) (g : Go (Bool × Rdb))
    → Carries R
    → Ran R s g
    → ((t : Rdb) → Ran R t (run_calls env cs t))
    → Ran R s (g >>= λ r. run_calls env cs r.1 >>= λ q. ok (r.0 || q.0, q.1))
calls_case R env cs s panic c h k = tt
calls_case R env cs s (ok (a, t)) c h k = join_case R s t a (run_calls env cs t) c h (k t)

pub calls-Ran :
    (R : Relation) (fr : Frame R) (env : Env) (cs : List Call)
    → Carries R
    → All (λ c. (s : Rdb) → Ran R s (run_call env c s)) cs
    → (s : Rdb) → Ran R s (run_calls env cs s)
unfolding run_calls
calls-Ran R fr env [] c h s = fr.same s
calls-Ran R fr env (d ∷ cs) c h s =
    calls_case R env cs s (run_call env d s) c (h.0 s) (calls-Ran R fr env cs c h.1)

-- The errors are empty afterwards exactly if they were before and the call did not fail; the
-- transaction stays.
pub record Tracks (s : Rdb) (b : Bool) (t : Rdb) : Type 0 where
  pub errors : is_empty t.errors ≡ (is_empty s.errors && not b)
  pub open_tx : t.open_tx ≡ s.open_tx
  pub tx : t.tx ≡ s.tx

is_empty-snoc {ℓ} :
    {A : Type ℓ} (xs : List A) (x : A) → is_empty (xs ++ x ∷ []) ≡ (is_empty xs && false)
is_empty-snoc [] x = refl
is_empty-snoc (y ∷ xs) x = refl

Tracks-carries : Carries Tracks
Tracks-carries s t u a b h k = ground (arith, h.errors, k.errors)

&&-true : (b : Bool) → b ≡ (b && true)
&&-true b = ground arith

Tracks-Frame : Frame Tracks
Tracks-Frame = record {
  same = λ s. record { errors = &&-true (is_empty s.errors); open_tx = refl; tx = refl };
  then_ = λ s t u b h k. Tracks-carries s t u false b h k;
  recorded = λ s e. record { errors = is_empty-snoc s.errors e; open_tx = refl; tx = refl };
  ran = λ s h. record { errors = &&-true (is_empty s.errors); open_tx = refl; tx = refl };
  drew = λ s n. record { errors = &&-true (is_empty s.errors); open_tx = refl; tx = refl };
  synced = λ s d p. record { errors = &&-true (is_empty s.errors); open_tx = refl; tx = refl };
}

-- The methods that take their rows from a builder.
abbrev pub IsByCnd : Call → Type 0
IsByCnd (update_by_cnd_call _) = Unit
IsByCnd (delete_by_cnd_call _) = Unit
IsByCnd _ = ⊥

by_cnd-Ran :
    (env : Env) (cs : List Call)
    → All IsByCnd cs
    → All (λ c. (s : Rdb) → Ran Tracks s (run_call env c s)) cs
by_cnd-Ran env [] h = tt
by_cnd-Ran env (update_by_cnd_call c ∷ cs) h = (
  unfold run_call in λ s. outcome-Ran Tracks s _ ((update_with_cnd-Obeys Tracks-Frame env c).at s),
  by_cnd-Ran env cs h.1,
)
by_cnd-Ran env (delete_by_cnd_call c ∷ cs) h = (
  unfold run_call in λ s. outcome-Ran Tracks s _ ((delete_by_cnd-Obeys Tracks-Frame env c).at s),
  by_cnd-Ran env cs h.1,
)
by_cnd-Ran env (save_call os ∷ cs) h = absurd h.0
by_cnd-Ran env (update_call os ∷ cs) h = absurd h.0
by_cnd-Ran env (delete_call os ∷ cs) h = absurd h.0
by_cnd-Ran env (delete_by_id_call o vs ∷ cs) h = absurd h.0

pub from_Ran :
    (R : Relation) (s t : Rdb) (b : Bool) (g : Go (Bool × Rdb))
    → Ran R s g
    → g ≡ ok (b, t)
    → R s b t
from_Ran R s t b g h e = subst (Ran R s) e h

close_tracked :
    (s t : Rdb) (b : Bool)
    → Tracks s b t
    → is_empty s.errors ≡ true
    → s.open_tx ≡ true
    → s.tx ≡ true
    → close true t ≡ (if b then rollback ∷ [] else commit ∷ sync t)
unfolding close
close_tracked s t b h e o x = ground (arith, h.errors, h.open_tx, h.tx)

-- A transaction of updates and deletions by condition, begun without errors, is committed by Close
-- exactly if none of its calls returned an error; otherwise it is rolled back, and nothing is
-- passed on to MongoDB.
pub transaction_close :
    (env : Env) (cs : List Call) (s t : Rdb) (some_failed : Bool)
    → All IsByCnd cs
    → is_empty s.errors ≡ true
    → s.open_tx ≡ true
    → s.tx ≡ true
    → run_calls env cs s ≡ ok (some_failed, t)
    → close true t ≡ (if some_failed then rollback ∷ [] else commit ∷ sync t)
transaction_close env cs s t b h e o x r =
    close_tracked s t b
      (from_Ran Tracks s t b (run_calls env cs s)
        (calls-Ran Tracks Tracks-Frame env cs Tracks-carries (by_cnd-Ran env cs h) s) r)
      e o x
