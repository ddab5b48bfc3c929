-- ===== src/Cron/Sound.antt =====
-- What the operations of the loop of Cron (src/cron/include/primitives/cron.h) do to its invariant.
use mathlib.Core.List.{cons-ne-nil}
use primitives.Prelude.{
  ◌∙◌, ◌≡◌, ◌≢◌, ◌⊎◌, inl, inr, sym, refl, Bool, true, false, ◌&&◌, ◌||◌, List, [], ◌∷◌, Outcome,
  ok, throw, undefined, if◌then◌else◌, ◌>>=◌, not, Bool-cases,
}
use primitives.Cron.{
  negsuc, ◌+ℤ◌, fires, hand_over, Stage, wait_next, next_repeat, skipped, need_repeat, reschedule,
  emplace, TimePoint, Task, CronTask, Cron, TaskQueue, looping, sleeping,
}
use primitives.Cron.Order.{emplace-IsSorted, IsSorted}
use primitives.Cron.System.{IsSound, AreOwed, AreDue, may_fire, is_owed, emplace-AreOwed}

next_repeat-cases :
    (o : Outcome TimePoint) (t : CronTask) (rest left : TaskQueue)
    → (o >>= λ p. ok (emplace p t rest)) ≡ ok left
    → (p : TimePoint) × (left ≡ emplace p t rest)
next_repeat-cases (ok p) t rest left e = (p, cc)
next_repeat-cases (throw x) t rest left e = cc
next_repeat-cases undefined t rest left e = cc

reschedule-cases :
    (now : TimePoint) (t : CronTask) (rest left : TaskQueue)
    → reschedule now t rest ≡ ok left
    → (left ≡ rest)
      ⊎ ((need_repeat t.repeat ≡ true) × ((p : TimePoint) × (left ≡ emplace p (skipped t) rest)))
unfolding reschedule
reschedule-cases now t rest left e = elim (Bool-cases (need_repeat t.repeat)) [
  | inl y ↦ inr (y, next_repeat-cases (next_repeat t.repeat now) (skipped t) rest left (rw y at e))
  | inr n ↦ (let f = rw n at e in inl cc)
]

pub reschedule-IsSorted :
    (now : TimePoint) (t : CronTask) (rest left : TaskQueue)
    → reschedule now t rest ≡ ok left
    → IsSorted rest
    → IsSorted left
reschedule-IsSorted now t rest left e h = elim (reschedule-cases now t rest left e) [
  | inl q ↦ rw q h
  | inr (y, (p, q)) ↦ rw q (emplace-IsSorted p (skipped t) rest h)
]

skipped-task : (t : CronTask) → (skipped t).task ≡ t.task
unfolding skipped
skipped-task t =
    elim (fires t)
      as (λ b. (if b then t else record t { skip = t.skip +ℤ negsuc 0 }).task ≡ t.task) [
        | true ↦ refl
        | false ↦ refl
      ]

may_fire-need_repeat : (t : CronTask) → need_repeat t.repeat ≡ true → may_fire t ≡ true
unfolding may_fire
may_fire-need_repeat t y =
    rw y (elim (fires t) as (λ b. (b || true) ≡ true) [ true ↦ refl | false ↦ refl ])

may_fire-fires : (t : CronTask) → fires t ≡ true → may_fire t ≡ true
unfolding may_fire
may_fire-fires t y = rw y

pub reschedule-AreOwed :
    (c : List CronTask) (now : TimePoint) (t : CronTask) (rest left : TaskQueue)
    → reschedule now t rest ≡ ok left
    → (may_fire t ≡ true → is_owed c t.task ≡ true)
    → AreOwed c rest
    → AreOwed c left
reschedule-AreOwed c now t rest left e h hs = elim (reschedule-cases now t rest left e) [
  | inl q ↦ rw q hs
  | inr (y, (p, q)) ↦ rw q (
      emplace-AreOwed c p (skipped t) rest (λ _. rw (skipped-task t) (h (may_fire-need_repeat t y)))
        hs)
]

wait_next-cases :
    (q : TaskQueue) (d : Bool) (n : Stage) (f : List Task) (u : Cron)
    → wait_next (record { tasks = q; done = d; thread = n; fired = f }) ≡ ok u
    → ((q ≢ []) × (u ≡ record { tasks = q; done = d; thread = sleeping; fired = f }))
      ⊎ ((d ≡ true) × (u ≡ record { tasks = q; done = d; thread = n; fired = f }))
unfolding wait_next
wait_next-cases [] true n f u e = inr (refl, cc)
wait_next-cases [] false n f u e = cc
wait_next-cases (e ∷ q) true n f u h = inl (cons-ne-nil _ _, cc)
wait_next-cases (e ∷ q) false n f u h = inl (cons-ne-nil _ _, cc)

pub looping-ne-sleeping : looping ≢ sleeping
looping-ne-sleeping e = cc

AreDue-fires :
    (c : List CronTask) (t : CronTask) (f : List Task)
    → (may_fire t ≡ true → is_owed c t.task ≡ true)
    → AreDue c f
    → AreDue c (if fires t then t.task ∷ f else f)
AreDue-fires c t f h hd = elim (Bool-cases (fires t)) [
  | inl y ↦ rw y (h (may_fire-fires t y), hd)
  | inr n ↦ rw n hd
]

pub wait_next-IsSound :
    (c : List CronTask) (s u : Cron)
    → wait_next s ≡ ok u
    → s.thread ≡ looping
    → IsSorted s.tasks
    → AreOwed c s.tasks
    → AreDue c s.fired
    → IsSound c u
wait_next-IsSound c s u e l hs ho hd = elim (wait_next-cases s.tasks s.done s.thread s.fired u e) [
  | inl (ne, q) ↦ rw q (record { in_order = hs; awaited = λ _. ne; owed = ho; due = hd })
  | inr (y, q) ↦ rw q (record {
    in_order = hs;
    awaited = λ f. absurd (looping-ne-sleeping (sym l ∙ f));
    owed = ho;
    due = hd;
  })
]

pub hand_over-IsSound :
    (c : List CronTask) (accepts : Bool) (s u : Cron) (t : CronTask) (left : TaskQueue)
    → hand_over accepts s t left ≡ ok u
    → s.thread ≡ looping
    → IsSorted left
    → (may_fire t ≡ true → is_owed c t.task ≡ true)
    → AreOwed c left
    → AreDue c s.fired
    → IsSound c u
unfolding hand_over
hand_over-IsSound c accepts s u t left e l hs h ho hd = elim (Bool-cases (fires t && not accepts)) [
  | inl y ↦
      rw (back y) (record {
        in_order = hs;
        awaited = λ f. absurd (looping-ne-sleeping f);
        owed = ho;
        due = hd;
      })
  | inr n ↦
      wait_next-IsSound c (record s { tasks = left; fired = given }) u (rw n at e) l hs ho
        (AreDue-fires c t s.fired h hd)
]
  where
    back : (fires t && not accepts) ≡ true → u ≡ record s { tasks = left; thread = looping }
    back y = let f = rw y at e in cc

    given : List Task
    given = if fires t then t.task ∷ s.fired else s.fired
