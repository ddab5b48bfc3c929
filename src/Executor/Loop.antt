-- ===== src/Executor/Loop.antt =====
-- The loop of a thread of Executor (src/executor/include/primitives/executor.h): get_task, run_task
-- and the check of stopped_ between them.
use primitives.Prelude.{
  ℕ, Bool, true, false, Option, none, some, if◌then◌else◌, Outcome, ok, throw, undefined,
  bad_function_call, ◌>>=◌,
}
use primitives.Executor.{
  Task, Thread, Threads, Popped, waits, fails, pops, pop, try_pop, get_elem?, set_queue, set_busy,
  close,
}

-- What get_task comes to: the caller waits on its own queue, or has a task or an empty one.
pub data Got : Type 0 where
  blocked : Got
  got : Option Task → Threads → Got

abbrev pub of_pop : ℕ → Threads → Thread → Popped → Got
of_pop i p w waits = blocked
of_pop i p w fails = got none p
of_pop i p w (pops t c) = got (some t) (set_busy (set_queue p i w c) i true)

-- get_task_non_stealing(i)
unfoldable pub pop_own : ℕ → Threads → Outcome Got
unfolding pop
pop_own i p = elim (get_elem? p i) [ none ↦ undefined | some w ↦ ok (of_pop i p w (pop w.queue)) ]

-- get_task(i), its two stages without a step of another thread between them.
unfoldable pub get_task : (ℕ → Bool) → ℕ → Threads → Outcome Got
unfolding try_pop pop_own
get_task free i p =
    try_pop free i p >>= λ r. elim r [ some (t, q) ↦ ok (got (some t) q) | none ↦ pop_own i p ]

-- What a thread is about: to look for a task, to check stopped_ with what it has, to call a task, or
-- nothing more.
pub data Phase : Type 0 where
  seeks : Phase
  holds : Option Task → Phase
  calls : Task → Phase
  returns : Phase

-- The check of stopped_ behind get_task, and the call: of an empty function it is an exception.
unfoldable pub check : Bool → Option Task → Outcome Phase
check stopped o =
    if stopped
    then ok returns
    else elim o [ none ↦ throw bad_function_call | some t ↦ ok (calls t) ]

-- The end of run_task(i, t).
unfoldable pub finish : ℕ → Threads → Threads
finish i p = set_busy p i false

-- One turn of the loop of stop(), once stopped_ is set.
unfoldable pub close_at : ℕ → Threads → Threads
unfolding close
close_at k p = elim (get_elem? p k) [ none ↦ p | some w ↦ set_queue p k w (close w.queue) ]
