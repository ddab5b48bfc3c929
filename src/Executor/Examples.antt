-- ===== src/Executor/Examples.antt =====
-- The theorems on Executor at concrete inputs.
use primitives.Prelude.{◌+◌, ◌≤◌, ◌≡◌, refl, true, false, [], ◌∷◌, List, ok, none, some, arith}
use primitives.Executor.{push_attempt, Task, Thread, Threads, place, try_pop, pop_attempt}
use primitives.Executor.Loop.{close_at, pop_own, check, seeks, holds, calls}
use primitives.Executor.Bags.{total, count, one, queued}
use primitives.Executor.Push.{place-queued}
use primitives.Executor.Steal.{Found, try_pop-finds}
use primitives.Executor.System.{
  held, System, Reach, start, later, tries, steals, checks, stops, closes, pops,
}
use primitives.Executor.Reachable.{kept_lem, called_le}

abbrev thread_with : List Task → Thread
thread_with q = record { queue = record { q = q; done = false }; busy = false }

abbrev pool : Threads
pool = thread_with [] ∷ thread_with (4 ∷ 5 ∷ []) ∷ []

place-queued_example :
    (r : Threads) × ((place (λ _. false) 3 9 pool ≡ ok r)
      × ((u : Task) → queued u r ≡ queued u pool + one u 9))
place-queued_example = place-queued (λ _. false) 3 9 pool (omega arith) (refl, (refl, tt))

try_pop-finds_example : Found 0 pool (try_pop (λ _. true) 0 pool)
try_pop-finds_example =
    try_pop-finds 0 1 pool (thread_with (4 ∷ 5 ∷ [])) 4 (5 ∷ []) (omega arith) (omega arith)
      (omega arith) refl refl refl

-- Task 9 is pushed to queue 1, stolen by thread 0 and called.
abbrev called_once : System
called_once = record {
  thread_pool =
      record { queue = record { q = []; done = false }; busy = true } ∷ thread_with [] ∷ [];
  stopped = false;
  phases = calls 9 ∷ seeks ∷ [];
  pushed = 9 ∷ [];
  called = 9 ∷ [];
}

ran : Reach 2 called_once
unfolding push_attempt pop_attempt check
ran =
    later (later (later start (tries true 1 9 refl)) (steals true 0 1 refl refl))
      (checks 0 (some 9) refl refl)

called_le_example : count 9 (9 ∷ []) ≤ count 9 (9 ∷ [])
called_le_example = called_le 9 ran

-- The pool is stopped, and thread 1 comes back from its closed queue with nothing.
abbrev stopped_pool : System
stopped_pool = record {
  thread_pool =
      thread_with [] ∷ record { queue = record { q = []; done = true }; busy = false } ∷ [];
  stopped = true;
  phases = seeks ∷ holds none ∷ [];
  pushed = [];
  called = [];
}

closed : Reach 2 stopped_pool
unfolding pop_own close_at
closed = later (later (later start stops) (closes 1 refl)) (pops 1 refl refl)

kept_lem_example :
    queued 9 called_once.thread_pool
      + total (held 9) called_once.phases
      + count 9 called_once.called
    ≡ count 9 called_once.pushed
kept_lem_example = kept_lem 9 ran refl
