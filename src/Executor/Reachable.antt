-- ===== src/Executor/Reachable.antt =====
-- What users of Executor (src/executor/include/primitives/executor.h) can rely on in every state that
-- its threads and users reach.
use primitives.Prelude.{
  ◌+◌, zero, suc, ℕ, ◌≤◌, ◌≡◌, ◌≢◌, refl, Bool, true, false, Option, none, some, throw, arith, All,
  replicate, bad_function_call,
}
use primitives.Executor.{Task, get_elem?}
use primitives.Executor.Loop.{seeks, holds, check}
use primitives.Executor.Bags.{queued, All-get_elem?, count, total}
use primitives.Executor.Closing.{Closed}
use primitives.Executor.System.{System, Reach, start, later, held, IsSound, new_thread}
use primitives.Executor.Safety.{Step-IsSound, EmptyHeld}

module _ {A : Type 0} where
  All-replicate : (P : A → Type 0) (n : ℕ) (x : A) → P x → All P (replicate n x)
  All-replicate P zero x h = tt
  All-replicate P (suc n) x h = (h, All-replicate P n x h)

  total-replicate : (f : A → ℕ) (n : ℕ) (x : A) → f x ≡ 0 → total f (replicate n x) ≡ 0
  total-replicate f zero x h = refl
  total-replicate f (suc n) x h = omega (arith, h, total-replicate f n x h)

reach-IsSound : {n : ℕ} {s : System} → Reach n s → IsSound s
reach-IsSound {n = n} start = record {
  conserved = λ u. omega (
    arith,
    total-replicate (λ w. count u w.queue.q) n new_thread refl,
    total-replicate (held u) n seeks refl,
  );
  kept = λ _ u. omega (
    arith,
    total-replicate (λ w. count u w.queue.q) n new_thread refl,
    total-replicate (held u) n seeks refl,
  );
  closed = All-replicate (Closed false) n new_thread (λ e. cc);
  empty_held = All-replicate (EmptyHeld false) n seeks (λ e. cc);
}
reach-IsSound (later r x) = Step-IsSound x (reach-IsSound r)

-- In every state that threads and users reach, each task has been called at most as often as it was
-- pushed: no task is called twice, and none that nobody pushed.
pub called_le : {n : ℕ} {s : System} (u : Task) → Reach n s → count u s.called ≤ count u s.pushed
called_le u r = omega (arith, (reach-IsSound r).conserved u)

-- As long as stop is not called, no task is lost: each is queued, in the hands of a thread or
-- called, in all as often as it was pushed.
pub kept_lem :
    {n : ℕ} {s : System} (u : Task)
    → Reach n s
    → s.stopped ≡ false
    → queued u s.thread_pool + total (held u) s.phases + count u s.called ≡ count u s.pushed
kept_lem u r e = (reach-IsSound r).kept e u

check-ok :
    (stopped : Bool) (o : Option Task)
    → (o ≡ none → stopped ≡ true)
    → check stopped o ≢ throw bad_function_call
unfolding check
check-ok true o h e = cc
check-ok false none h e = let f = h refl in cc
check-ok false (some t) h e = cc

-- In every state that is reached, a thread that has come back from get_task with an empty function
-- does not call it: stopped_ is set by then.
pub check-defined :
    {n : ℕ} {s : System} (i : ℕ) (o : Option Task)
    → Reach n s
    → get_elem? s.phases i ≡ some (holds o)
    → check s.stopped o ≢ throw bad_function_call
check-defined {s = s} i o r a = check-ok s.stopped o (λ e.
    All-get_elem? (EmptyHeld s.stopped) s.phases i (holds o) ((reach-IsSound r).empty_held) a
      (rw e refl))
