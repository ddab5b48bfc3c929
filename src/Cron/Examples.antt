-- ===== src/Cron/Examples.antt =====
-- The theorems on Cron at concrete inputs.
use primitives.Prelude.{
  ◌+◌, ◌*◌, ◌≡◌, refl, true, false, [], ◌∷◌, ◌++◌, ok, undefined, not, ◌&&◌, if◌then◌else◌,
  replicate, ◌-◌, length, List,
}
use primitives.Prelude.Int.{pos}
use primitives.Cron.{
  skipped, next_repeat, need_repeat, ℕ, TimePoint, CronTask, Cron, Repeat, looping, sleeping, once,
  of_executor, push_repeated, push, iterate, default_skip, emplace, fires,
}
use primitives.Cron.Due.{asleep, skipping, rounds, rounds-asleep, iterate-last}
use primitives.Cron.System.{Reach, start, later, calls_push, iterates, AreDue}
use primitives.Cron.Fired.{fired_lem}

abbrev second : ℕ
second = 1000000000

-- Every two seconds.
abbrev often : Repeat
often = record { day = pos 0; hour = pos 0; minute = pos 0; second = pos 2 }

abbrev at_five : CronTask
at_five = record { task = 7; repeat = often; skip = pos 0 }

-- Task 8 is pushed by push(p, t) alone.
abbrev at_nine : CronTask
at_nine = record { task = 8; repeat = once; skip = default_skip }

abbrev calls : List CronTask
calls = at_five ∷ at_nine ∷ []

abbrev clock : List (TimePoint × TimePoint)
clock =
    (pos 5, pos 6)
    ∷ (pos (2 * second + 6), pos (2 * second + 7))
    ∷ (pos (5 * second), pos (5 * second))
    ∷ []

pushed_twice : Reach calls (push_repeated (push of_executor (pos 9) 8) (pos 5) 7 often (pos 0))
unfolding push
pushed_twice =
    later (later start (calls_push (pos 9) 8 once default_skip))
      (calls_push (pos 5) 7 often (pos 0))

abbrev after_visit : Cron
after_visit = record {
  tasks = (pos 9, at_nine) ∷ (pos (2 * second + 6), at_five) ∷ [];
  done = false;
  thread = sleeping;
  fired = 7 ∷ [];
}

visited_once : Reach calls after_visit
unfolding push push_repeated emplace of_executor iterate skipped
visited_once = later pushed_twice (iterates (pos 6) (pos 6) true refl refl)

fired_lem_example : AreDue calls (7 ∷ [])
fired_lem_example = fired_lem visited_once

rounds-asleep_example :
    (q : TimePoint) × (rounds clock (asleep (pos 5) (skipping 7 often 1) [])
      ≡ ok (asleep q (skipping 7 often (1 - length clock)) (replicate (length clock - 1) 7 ++ [])))
unfolding need_repeat next_repeat
rounds-asleep_example = rounds-asleep 7 often refl clock (pos 5) 1 [] (
  refl,
  (
    pos (2 * second + 6),
    (refl, (refl, (pos (4 * second + 7), (refl, (refl, (pos (7 * second), (refl, tt))))))),
  ),
)

iterate-last_example :
    iterate (pos 9) (pos 9) true (record (asleep (pos 9) at_nine []) { thread = looping }) ≡ (
      if fires at_nine && not true
      then ok (record (asleep (pos 9) at_nine []) { tasks = []; thread = looping })
      else undefined)
unfolding need_repeat
iterate-last_example = iterate-last (pos 9) (pos 9) (pos 9) true at_nine [] refl refl
