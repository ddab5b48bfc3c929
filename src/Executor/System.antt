-- ===== src/Executor/System.antt =====
-- The threads of Executor (src/executor/include/primitives/executor.h) and its users, interleaved at
-- the operations under the mutexes of the queues: Executor::push is a sequence of `tries` and a
-- `waits_for`, get_task one of `steals` and a `pops`.
use primitives.Prelude.{
  replicate, ℕ, ◌+◌, ◌≤◌, ◌≡◌, Bool, true, false, List, [], ◌∷◌, Option, none, some, ok, All,
}
use primitives.Executor.{
  Task, Thread, Threads, get_elem?, store, push_attempt, push_own, pop_attempt,
}
use primitives.Executor.Loop.{
  got, pop_own, Phase, seeks, holds, calls, returns, check, finish, close_at,
}
use primitives.Executor.Bags.{count, one, queued, total}

-- `pushed` and `called` are the tasks that users gave to the pool and that threads called.
pub record System : Type 0 where
  pub thread_pool : Threads
  pub stopped : Bool
  pub phases : List Phase
  pub pushed : List Task
  pub called : List Task

abbrev pub at : System → ℕ → Phase → System
at s i h = record s { phases = store s.phases i h }

abbrev pub started : Phase → List Task → List Task
started (calls t) c = t ∷ c
started seeks c = c
started (holds o) c = c
started returns c = c

pub data Step (s : System) : System → Type 0 where
  tries :
      (free : Bool) (k : ℕ) (t : Task) {p : Threads}
      → push_attempt free k t s.thread_pool ≡ ok (some p)
      → Step s (record s { thread_pool = p; pushed = t ∷ s.pushed })
  waits_for :
      (k : ℕ) (t : Task) {p : Threads}
      → push_own k t s.thread_pool ≡ ok p
      → Step s (record s { thread_pool = p; pushed = t ∷ s.pushed })
  steals :
      (free : Bool) (i k : ℕ) {t : Task} {p : Threads}
      → get_elem? s.phases i ≡ some seeks
      → pop_attempt free i k s.thread_pool ≡ ok (some (t, p))
      → Step s (at (record s { thread_pool = p }) i (holds (some t)))
  pops :
      (i : ℕ) {o : Option Task} {p : Threads}
      → get_elem? s.phases i ≡ some seeks
      → pop_own i s.thread_pool ≡ ok (got o p)
      → Step s (at (record s { thread_pool = p }) i (holds o))
  checks :
      (i : ℕ) (o : Option Task) {h : Phase}
      → get_elem? s.phases i ≡ some (holds o)
      → check s.stopped o ≡ ok h
      → Step s (at (record s { called = started h s.called }) i h)
  finishes :
      (i : ℕ) (t : Task)
      → get_elem? s.phases i ≡ some (calls t)
      → Step s (at (record s { thread_pool = finish i s.thread_pool }) i seeks)
  leaves : (i : ℕ) → get_elem? s.phases i ≡ some seeks → s.stopped ≡ true → Step s (at s i returns)
  stops : Step s (record s { stopped = true })
  closes : (k : ℕ) → s.stopped ≡ true → Step s (record s { thread_pool = close_at k s.thread_pool })

-- The constructor with n threads: its queues are empty and open.
abbrev pub new_thread : Thread
new_thread = record { queue = record { q = []; done = false }; busy = false }

abbrev pub init : ℕ → System
init n = record {
  thread_pool = replicate n new_thread;
  stopped = false;
  phases = replicate n seeks;
  pushed = [];
  called = [];
}

pub data Reach (n : ℕ) : System → Type 0 where
  start : Reach n (init n)
  later : {s u : System} → Reach n s → Step s u → Reach n u

-- How often a task is in the hands of a thread that has not called it.
abbrev pub held : Task → Phase → ℕ
held u (holds (some t)) = one u t
held u (holds none) = 0
held u seeks = 0
held u (calls t) = 0
held u returns = 0

pub record IsSound (s : System) : Type 0 where
  pub conserved :
      (u : Task)
      → queued u s.thread_pool + total (held u) s.phases + count u s.called ≤ count u s.pushed
  pub kept :
      s.stopped ≡ false
      → (u : Task)
      → queued u s.thread_pool + total (held u) s.phases + count u s.called ≡ count u s.pushed
  pub closed : All (λ w. w.queue.done ≡ true → s.stopped ≡ true) s.thread_pool
  pub empty_held : All (λ h. h ≡ holds none → s.stopped ≡ true) s.phases
