-- ===== src/Cron/Due.antt =====
-- The visits that the thread of Cron (src/cron/include/primitives/cron.h) pays to a task, and what is
-- left of it when it is not repeated.
use primitives.Prelude.{
  ◌&&◌, zero, suc, ◌≡◌, refl, true, false, List, [], ◌∷◌, ◌++◌, arith, Outcome, ok, if◌then◌else◌,
  ◌>>=◌, replicate, length, ◌-◌,
}
use primitives.Cron.{
  undefined, not, Bool, negsuc, ◌+ℤ◌, positive, need_repeat, emplace, fires, skipped, wait_next,
  hand_over, reschedule, visit, pos, ℕ, next_repeat, ltb_ℤ, TimePoint, Task, Repeat, CronTask, Cron,
  looping, sleeping, iterate, can_wake,
}

-- The thread in wait_until is woken, if the clock allows it, and goes through the loop once.
abbrev pub awake : TimePoint → Cron → Outcome Cron
awake now s = can_wake now s >>= λ b. ok (if b then record s { thread = looping } else s)

-- At the pairs of clock readings in the list, the second one at next_repeat.
abbrev pub rounds : List (TimePoint × TimePoint) → Cron → Outcome Cron
rounds [] s = ok s
rounds ((now, then_now) ∷ clock) s =
    awake now s >>= λ u. iterate now then_now true u >>= λ v. rounds clock v

-- Each reading is not before the time that the task then has.
abbrev pub OnTime : Repeat → TimePoint → List (TimePoint × TimePoint) → Type 0
OnTime r p [] = Unit
OnTime r p ((now, then_now) ∷ clock) =
    (ltb_ℤ now p ≡ false) × ((q : TimePoint) × ((next_repeat r then_now ≡ ok q) × OnTime r q clock))

-- The thread asleep over a map with one task.
abbrev pub asleep : TimePoint → CronTask → List Task → Cron
asleep p t f = record { tasks = (p, t) ∷ []; done = false; thread = sleeping; fired = f }

abbrev pub skipping : Task → Repeat → ℕ → CronTask
skipping t r k = record { task = t; repeat = r; skip = pos k }

replicate-append-cons :
    (n : ℕ) (t : Task) (f : List Task) → replicate n t ++ (t ∷ f) ≡ t ∷ (replicate n t ++ f)
replicate-append-cons zero t f = refl
replicate-append-cons (suc n) t f = rw (replicate-append-cons n t f)

-- The executor's tasks after a visit.
abbrev given : ℕ → Task → List Task → List Task
given zero t f = t ∷ f
given (suc k) t f = f

awake-asleep :
    (p now : TimePoint) (t : CronTask) (f : List Task)
    → ltb_ℤ now p ≡ false
    → awake now (asleep p t f) ≡ ok (record (asleep p t f) { thread = looping })
unfolding can_wake
awake-asleep p now t f h = rw h

positive-suc : (k : ℕ) → positive (pos (suc k)) ≡ true
positive-suc k = ground arith

decrement_lem : (k : ℕ) → pos (suc k) +ℤ negsuc 0 ≡ pos (suc k - 1)
decrement_lem k = ground arith

iterate-asleep :
    (p q now then_now : TimePoint) (t : Task) (r : Repeat) (k : ℕ) (f : List Task)
    → need_repeat r ≡ true
    → ltb_ℤ now p ≡ false
    → next_repeat r then_now ≡ ok q
    → iterate now then_now true (record (asleep p (skipping t r k) f) { thread = looping })
      ≡ ok (asleep q (skipping t r (k - 1)) (given k t f))
unfolding iterate visit reschedule hand_over wait_next skipped fires emplace
iterate-asleep p q now then_now t r zero f y h e = rw (h, y, e) refl
iterate-asleep p q now then_now t r (suc k) f y h e =
    rw (h, y, e, positive-suc k, decrement_lem k) refl

given_lem :
    (n k : ℕ) (t : Task) (f : List Task)
    → replicate (n - (k - 1)) t ++ given k t f ≡ replicate (suc n - k) t ++ f
given_lem n zero t f =
    let a : n - (0 - 1) ≡ n = omega arith in
    let b : suc n - 0 ≡ suc n = omega arith in rw (a, b) (replicate-append-cons n t f)
given_lem n (suc k) t f = let e : n - (suc k - 1) ≡ suc n - suc k = omega arith in rw e

-- A task that is repeated, alone in the map and to be skipped k times: when each reading of the
-- clock is not before its time and its next times can be computed, the rounds give it to the
-- executor at each visit after the first k, and leave it in the map with the thread asleep over it.
pub rounds-asleep :
    (t : Task) (r : Repeat)
    → need_repeat r ≡ true
    → (clock : List (TimePoint × TimePoint)) (p : TimePoint) (k : ℕ) (f : List Task)
    → OnTime r p clock
    → (q : TimePoint) × (rounds clock (asleep p (skipping t r k) f)
        ≡ ok (asleep q (skipping t r (k - length clock)) (replicate (length clock - k) t ++ f)))
rounds-asleep t r y [] p k f h =
    let a : k - 0 ≡ k = omega arith in let b : 0 - k ≡ 0 = omega arith in (p, rw (a, b) refl)
rounds-asleep t r y ((now, then_now) ∷ clock) p k f (h, (q, (e, hs))) =
    let (z, g) = rounds-asleep t r y clock q (k - 1) (given k t f) hs in
    let a : k - 1 - length clock ≡ k - suc (length clock) = omega arith in
    (
      z,
      rw
          (
            awake-asleep p now (skipping t r k) f h,
            iterate-asleep p q now then_now t r k f y h e,
            g,
            a,
            given_lem (length clock) k t f,
          )
          refl,
    )

-- When the last task in the map is not repeated and its time has come, the iteration runs into the
-- first node of the empty map, unless executor.push throws.
pub iterate-last :
    (p now then_now : TimePoint) (accepts : Bool) (t : CronTask) (f : List Task)
    → need_repeat t.repeat ≡ false
    → ltb_ℤ now p ≡ false
    → iterate now then_now accepts (record (asleep p t f) { thread = looping }) ≡ (
        if fires t && not accepts
        then ok (record (asleep p t f) { tasks = []; thread = looping })
        else undefined)
unfolding iterate visit reschedule hand_over wait_next
iterate-last p now then_now accepts t f n h = rw (h, n) refl
