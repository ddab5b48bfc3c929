-- ===== src/Cron/Fired.antt =====
-- What the thread of Cron (src/cron/include/primitives/cron.h) may give to the executor, whatever its
-- users do and the clock shows.
use mathlib.Core.Path.{subst}
use primitives.Prelude.{
  ◌≡◌, ◌≢◌, inl, inr, refl, Bool, true, false, List, [], ◌∷◌, Outcome, ok, throw, undefined, ◌>>=◌,
  Bool-cases,
}
use primitives.Cron.{
  can_wake, ltb_ℤ, visit, hand_over, Stage, reschedule, TimePoint, Task, CronTask, Cron, TaskQueue,
  looping, sleeping, stopped, push_repeated, stop, iterate, of_executor,
}
use primitives.Cron.Order.{IsSorted}
use primitives.Cron.System.{
  Step, calls_push, calls_stop, iterates, wakes, added, Reach, start, later, IsSound, AreOwed,
  AreDue, push-IsSound,
}
use primitives.Cron.Sound.{
  looping-ne-sleeping, reschedule-IsSorted, reschedule-AreOwed, wait_next-IsSound,
  hand_over-IsSound,
}

visit-IsSound :
    (c : List CronTask) (now then_now : TimePoint) (accepts : Bool) (s u : Cron) (p : TimePoint)
    (t : CronTask) (rest : TaskQueue)
    → visit now then_now accepts s p t rest ≡ ok u
    → s.thread ≡ looping
    → s.tasks ≡ (p, t) ∷ rest
    → IsSound c s
    → IsSound c u
unfolding visit
visit-IsSound c now then_now accepts s u p t rest e l q h = elim (Bool-cases (ltb_ℤ now p)) [
  | inl y ↦ wait_next-IsSound c s u (rw y at e) l h.in_order h.owed h.due
  | inr n ↦ handed (reschedule-ok (reschedule then_now t rest) (rw n at e))
]
  where
    sorted : IsSorted ((p, t) ∷ rest)
    sorted = subst IsSorted q h.in_order

    owed : AreOwed c ((p, t) ∷ rest)
    owed = subst (AreOwed c) q h.owed

    reschedule-ok :
        (o : Outcome TaskQueue)
        → (o >>= λ left. hand_over accepts s t left) ≡ ok u
        → (left : TaskQueue) × ((o ≡ ok left) × (hand_over accepts s t left ≡ ok u))
    reschedule-ok (ok left) f = (left, (refl, f))
    reschedule-ok (throw x) f = cc
    reschedule-ok undefined f = cc

    handed :
        ((left : TaskQueue) × ((reschedule then_now t rest ≡ ok left)
            × (hand_over accepts s t left ≡ ok u)))
        → IsSound c u
    handed (left, (r, f)) =
        hand_over-IsSound c accepts s u t left f l
          (reschedule-IsSorted then_now t rest left r (sorted.1)) (owed.0)
          (reschedule-AreOwed c then_now t rest left r (owed.0) (owed.1)) h.due

iterate-IsSound :
    (c : List CronTask) (now then_now : TimePoint) (accepts : Bool) (s u : Cron)
    → iterate now then_now accepts s ≡ ok u
    → s.thread ≡ looping
    → IsSound c s
    → IsSound c u
unfolding iterate
iterate-IsSound c now then_now accepts s u e l h = go s.done s.tasks refl refl
  where
    moved : (n : Stage) → n ≢ sleeping → record s { thread = n } ≡ u → IsSound c u
    moved n ne q =
        subst (IsSound c) q (record {
          in_order = h.in_order;
          awaited = λ f. absurd (ne f);
          owed = h.owed;
          due = h.due;
        })

    go : (d : Bool) (q : TaskQueue) → s.done ≡ d → s.tasks ≡ q → IsSound c u
    go true q ed eq = let f = rw ed at e in moved stopped (λ g. cc) cc
    go false [] ed eq = let f = rw (ed, eq) at e in moved looping looping-ne-sleeping cc
    go false ((p, t) ∷ rest) ed eq =
        visit-IsSound c now then_now accepts s u p t rest (rw (ed, eq) at e) l eq h

pub Step-IsSound :
    {c : List CronTask} {s u : Cron} (x : Step s u) → IsSound c s → IsSound (added x c) u
unfolding push_repeated stop
Step-IsSound (calls_push p t r skip) h = push-IsSound _ _ p _ h
Step-IsSound calls_stop h = record {
  in_order = h.in_order;
  awaited = h.awaited;
  owed = h.owed;
  due = h.due;
}
Step-IsSound (iterates now then_now accepts l e) h =
    iterate-IsSound _ now then_now accepts _ _ e l h
Step-IsSound (wakes now l e) h = record {
  in_order = h.in_order;
  awaited = λ f. absurd (looping-ne-sleeping f);
  owed = h.owed;
  due = h.due;
}

pub reach-IsSound : {c : List CronTask} {s : Cron} → Reach c s → IsSound c s
unfolding of_executor
reach-IsSound start = record {
  in_order = tt;
  awaited = λ f. absurd (looping-ne-sleeping f);
  owed = tt;
  due = tt;
}
reach-IsSound (later r x) = Step-IsSound x (reach-IsSound r)

-- In every state that the calls and the thread's steps reach, the executor has only been given tasks
-- that some call of push brought with a skip that is not positive or with a repeat.
pub fired_lem : {c : List CronTask} {s : Cron} → Reach c s → AreDue c s.fired
fired_lem r = (reach-IsSound r).due

can_wake-ok :
    (q : TaskQueue) (d : Bool) (n : Stage) (f : List Task) (now : TimePoint)
    → q ≢ []
    → can_wake now (record { tasks = q; done = d; thread = n; fired = f }) ≢ undefined
unfolding can_wake
can_wake-ok [] d n f now ne e = ne refl
can_wake-ok (x ∷ q) d n f now ne e = cc

-- In every state that is reached with the thread in wait_until, its predicate does not read past the
-- end of the map, whatever the clock shows.
pub can_wake-defined :
    {c : List CronTask} {s : Cron} (now : TimePoint)
    → Reach c s
    → s.thread ≡ sleeping
    → can_wake now s ≢ undefined
can_wake-defined {s = s} now r e =
    can_wake-ok s.tasks s.done s.thread s.fired now ((reach-IsSound r).awaited e)
