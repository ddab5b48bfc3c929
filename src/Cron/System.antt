-- ===== src/Cron/System.antt =====
-- Cron (src/cron/include/primitives/cron.h) with its users: the thread's steps and the calls, in any
-- order, and what holds in every state they reach.
use primitives.Prelude.{◌≡◌, ◌≢◌, Bool, true, ◌&&◌, ◌||◌, List, [], ◌∷◌, arith, All, any, ok, ◌==◌}
use primitives.Cron.{
  emplace, need_repeat, fires, ℤ, TimePoint, Task, Repeat, CronTask, Cron, TaskQueue, looping,
  sleeping, push_repeated, stop, iterate, can_wake, of_executor,
}
use primitives.Cron.Order.{emplace-IsSorted, IsSorted}

pub data Step (s : Cron) : Cron → Type 0 where
  calls_push :
      (p : TimePoint) (t : Task) (r : Repeat) (skip : ℤ) → Step s (push_repeated s p t r skip)
  calls_stop : Step s (stop s)
  iterates :
      (now then_now : TimePoint) (accepts : Bool) {u : Cron}
      → s.thread ≡ looping
      → iterate now then_now accepts s ≡ ok u
      → Step s u
  wakes :
      (now : TimePoint)
      → s.thread ≡ sleeping
      → can_wake now s ≡ ok true
      → Step s (record s { thread = looping })

-- The tasks that the calls of push bring.
abbrev pub added : {s u : Cron} → Step s u → List CronTask → List CronTask
added (calls_push p t r skip) c = record { task = t; repeat = r; skip = skip } ∷ c
added calls_stop c = c
added (iterates now then_now accepts h e) c = c
added (wakes now h e) c = c

pub data Reach : List CronTask → Cron → Type 0 where
  start : Reach [] of_executor
  later : {c : List CronTask} {s u : Cron} → Reach c s → (x : Step s u) → Reach (added x c) u

-- Some push of task t either fires at its first visit or is repeated.
unfoldable pub may_fire : CronTask → Bool
unfolding fires need_repeat
may_fire t = fires t || need_repeat t.repeat

abbrev pub is_owed : List CronTask → Task → Bool
is_owed c t = any (λ k. (k.task == t) && may_fire k) c

abbrev pub AreOwed : List CronTask → TaskQueue → Type 0
AreOwed c = All (λ e. may_fire (e.1) ≡ true → is_owed c ((e.1).task) ≡ true)

abbrev pub AreDue : List CronTask → List Task → Type 0
AreDue c = All (λ t. is_owed c t ≡ true)

pub record IsSound (c : List CronTask) (s : Cron) : Type 0 where
  pub in_order : IsSorted s.tasks
  pub awaited : s.thread ≡ sleeping → s.tasks ≢ []
  pub owed : AreOwed c s.tasks
  pub due : AreDue c s.fired

AreOwed-cons : (k : CronTask) (c : List CronTask) (s : TaskQueue) → AreOwed c s → AreOwed (k ∷ c) s
AreOwed-cons k c [] h = tt
AreOwed-cons k c (e ∷ s) (h, hs) = (λ f. ground (arith, h f), AreOwed-cons k c s hs)

AreDue-cons : (k : CronTask) (c : List CronTask) (s : List Task) → AreDue c s → AreDue (k ∷ c) s
AreDue-cons k c [] h = tt
AreDue-cons k c (t ∷ s) (h, hs) = (ground (arith, h), AreDue-cons k c s hs)

pub emplace-AreOwed :
    (c : List CronTask) (p : TimePoint) (t : CronTask) (s : TaskQueue)
    → (may_fire t ≡ true → is_owed c t.task ≡ true)
    → AreOwed c s
    → AreOwed c (emplace p t s)
unfolding emplace
emplace-AreOwed c p t [] h hs = (h, tt)
emplace-AreOwed c p t ((q, u) ∷ rest) h (hu, hs) = ground (arith, emplace-AreOwed c p t rest h hs)

emplace-ne-nil : (p : TimePoint) (t : CronTask) (s : TaskQueue) → emplace p t s ≢ []
unfolding emplace
emplace-ne-nil p t [] = ground arith
emplace-ne-nil p t ((q, u) ∷ rest) = ground arith

pub push-IsSound :
    (c : List CronTask) (s : Cron) (p : TimePoint) (t : CronTask)
    → IsSound c s
    → IsSound (t ∷ c) (record s { tasks = emplace p t s.tasks })
push-IsSound c s p t h = record {
  in_order = emplace-IsSorted p t s.tasks h.in_order;
  awaited = λ _. emplace-ne-nil p t s.tasks;
  owed = emplace-AreOwed (t ∷ c) p t s.tasks (ground arith) (AreOwed-cons t c s.tasks h.owed);
  due = AreDue-cons t c s.fired h.due;
}
