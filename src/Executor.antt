-- ===== src/Executor.antt =====
-- The thread pool of src/executor/include/primitives/executor.h: TaskQueue, and Executor's push,
-- stealing, workers and stop. What happens under a queue's mutex is one operation; whether a
-- try_lock finds the mutex free is an argument. A std::function is the number of its closure, and an
-- empty one is `none`.
mod Loop
mod Bags
mod Push
mod Steal
mod System
mod Inversion
mod Closing
mod Safety
mod Reachable
mod Examples
use primitives.Prelude.{
  ℕ, zero, suc, ◌+◌, ◌*◌, ◌%◌, ◌^◌, ◌-◌, ltb, Bool, true, false, not, ◌&&◌, ◌||◌, List, [], ◌∷◌,
  ◌++◌, Option, none, some, length, if◌then◌else◌, Outcome, ok, throw, undefined, rejected,
  bad_function_call, ◌>>=◌,
}

abbrev pub Task : Type 0
Task = ℕ

pub record TaskQueue : Type 0 where
  pub q : List Task
  pub done : Bool

pub record Thread : Type 0 where
  pub queue : TaskQueue
  pub busy : Bool

abbrev pub Threads : Type 0
Threads = List Thread

pub data WaitStatus : Type 0 where
  running : WaitStatus
  allow_incoming : WaitStatus
  block_incoming : WaitStatus
  reject_incoming : WaitStatus

-- nThreads is the length of thread_pool, which the constructor makes.
pub record Executor : Type 0 where
  pub thread_pool : Threads
  pub index : ℕ
  pub stopped : Bool
  pub waiting : WaitStatus

-- TaskQueue::try_push; `none` for false.
unfoldable pub try_push : Bool → Task → TaskQueue → Option TaskQueue
try_push free t w =
    if w.done then none else if free then some (record w { q = w.q ++ (t ∷ []) }) else none

-- TaskQueue::push
unfoldable pub push_back : Task → TaskQueue → TaskQueue
push_back t w = if w.done then w else record w { q = w.q ++ (t ∷ []) }

abbrev pub pop_front : TaskQueue → Option (Task × TaskQueue)
pop_front w = elim w.q [
  | [] ↦ none
  | t ∷ rest ↦ if w.done then none else some (t, record w { q = rest })
]

-- TaskQueue::try_pop
unfoldable pub try_pop_front : Bool → TaskQueue → Option (Task × TaskQueue)
try_pop_front free w = if free then pop_front w else none

-- TaskQueue::pop: `waits` while the caller is blocked on the condition variable.
pub data Popped : Type 0 where
  waits : Popped
  fails : Popped
  pops : Task → TaskQueue → Popped

unfoldable pub pop : TaskQueue → Popped
pop w = elim w.q [
  | [] ↦ if w.done then fails else waits
  | t ∷ rest ↦ if w.done then fails else pops t (record w { q = rest })
]

-- TaskQueue::done
unfoldable pub close : TaskQueue → TaskQueue
close w = record w { done = true }

module _ {ℓ} {A : Type ℓ} where
  abbrev pub get_elem? : List A → ℕ → Option A
  get_elem? [] k = none
  get_elem? (w ∷ p) zero = some w
  get_elem? (w ∷ p) (suc k) = get_elem? p k

  -- p[k] = v
  abbrev pub store : List A → ℕ → A → List A
  store [] k v = []
  store (w ∷ p) zero v = v ∷ p
  store (w ∷ p) (suc k) v = w ∷ store p k v

abbrev pub set_queue : Threads → ℕ → Thread → TaskQueue → Threads
set_queue p k w c = store p k (record w { queue = c })

-- The k of the n-th attempt from i, a size_t.
abbrev pub slot : ℕ → ℕ → ℕ → ℕ
slot threads i n = (i + n) % 2 ^ 64 % threads

-- One try_push of the loop; `none` for false.
unfoldable pub push_attempt : Bool → ℕ → Task → Threads → Outcome (Option Threads)
unfolding try_push
push_attempt free k t p = elim (get_elem? p k) [
  | none ↦ undefined
  | some w ↦ ok (elim (try_push free t w.queue) [ none ↦ none | some c ↦ some (set_queue p k w c) ])
]

-- The loop of Executor::push, with `left` attempts to go.
unfoldable pub push_loop : (ℕ → Bool) → ℕ → ℕ → ℕ → Task → Threads → Outcome (Option Threads)
unfolding push_attempt
push_loop free i n zero t p = ok none
push_loop free i n (suc left) t p = push_attempt (free n) (slot (length p) i n) t p >>= λ r.
    elim r [ some q ↦ ok (some q) | none ↦ push_loop free i (n + 1) left t p ]

-- The push that waits for the mutex, when no attempt got one.
unfoldable pub push_own : ℕ → Task → Threads → Outcome Threads
unfolding push_back
push_own k t p = elim (get_elem? p k) [
  | none ↦ undefined
  | some w ↦ ok (set_queue p k w (push_back t w.queue))
]

unfoldable pub place : (ℕ → Bool) → ℕ → Task → Threads → Outcome Threads
unfolding push_loop push_own
place free i t p = push_loop free i 0 (length p) t p >>= λ r. elim r [
  | some q ↦ ok q
  | none ↦ push_own (i % length p) t p
]

-- Executor::push(Task &&); `none` when the caller is blocked until `waiting` is Running, to do it then.
unfoldable pub push : (ℕ → Bool) → Task → Executor → Outcome (Option Executor)
unfolding place
push free t e = elim e.waiting [
  | reject_incoming ↦ throw rejected
  | block_incoming ↦ ok none
  | _ ↦ place free e.index t e.thread_pool >>= λ p.
      ok (some (record e { thread_pool = p; index = (e.index + 1) % 2 ^ 64 }))
]

abbrev pub set_busy : Threads → ℕ → Bool → Threads
set_busy p i b = elim (get_elem? p i) [ none ↦ p | some w ↦ store p i (record w { busy = b }) ]

-- One try_pop of thread i's loop, on the queue of k; `none` for false.
unfoldable pub pop_attempt : Bool → ℕ → ℕ → Threads → Outcome (Option (Task × Threads))
unfolding try_pop_front
pop_attempt free i k p = elim (get_elem? p k) [
  | none ↦ undefined
  | some w ↦ ok (elim (try_pop_front free w.queue) [
    | none ↦ none
    | some (t, c) ↦ some (t, set_busy (set_queue p k w c) i true)
  ])
]

-- The loop's n is an int, which is compared with the size_t spin_count.
unfoldable pub pop_loop : (ℕ → Bool) → ℕ → ℕ → ℕ → Threads → Outcome (Option (Task × Threads))
unfolding pop_attempt
pop_loop free i n zero p = ok none
pop_loop free i n (suc left) p = pop_attempt (free n) i (slot (length p) i n) p >>= λ r. elim r [
  | some x ↦ ok (some x)
  | none ↦ elim (ltb n (2 ^ 31 - 1)) [ true ↦ pop_loop free i (n + 1) left p | false ↦ undefined ]
]

-- Executor::try_pop(i)
unfoldable pub try_pop : (ℕ → Bool) → ℕ → Threads → Outcome (Option (Task × Threads))
unfolding pop_loop
try_pop free i p = pop_loop free i 0 (length p * 4 % 2 ^ 64) p
