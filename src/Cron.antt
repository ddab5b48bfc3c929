-- ===== src/Cron.antt =====
-- The scheduler of src/cron/include/primitives/cron.h: its map of tasks, the calls of its users, and
-- the loop of its thread. Each stretch of code under the mutex is one operation; Clock::now() and
-- whether executor.push returns are arguments. A std::function is the number of its closure, and a
-- TimePoint counts the nanoseconds of libstdc++'s system_clock.
mod Order
mod Due
mod System
mod Sound
mod Fired
mod Examples
use primitives.Prelude.{
  ℕ, ◌+◌, ◌*◌, ◌^◌, ◌≡◌, Bool, true, false, not, ◌&&◌, ◌||◌, List, [], ◌∷◌, Option, none, some, ltb,
  leb, if◌then◌else◌, Outcome, ok, undefined, ◌>>=◌,
}
use primitives.Prelude.Int.{ℤ, pos, negsuc, pos_part, neg_part, sub_ℕ, ◌+ℤ◌, ltb_ℤ}

abbrev pub Task : Type 0
Task = ℕ

abbrev pub TimePoint : Type 0
TimePoint = ℤ

pub record Repeat : Type 0 where
  pub day : ℤ
  pub hour : ℤ
  pub minute : ℤ
  pub second : ℤ

pub record CronTask : Type 0 where
  pub task : Task
  pub repeat : Repeat
  pub skip : ℤ

-- std::map<TimePoint, CronTask>: its nodes in the order of their keys.
abbrev pub TaskQueue : Type 0
TaskQueue = List (TimePoint × CronTask)

-- Where the thread is: before an iteration (or blocked in `wait` for a task), in `wait_until`, or out
-- of the loop.
pub data Stage : Type 0 where
  looping : Stage
  sleeping : Stage
  stopped : Stage

-- `fired` are the tasks the executor has been given, the last first.
pub record Cron : Type 0 where
  pub tasks : TaskQueue
  pub done : Bool
  pub thread : Stage
  pub fired : List Task

abbrev pub positive : ℤ → Bool
positive a = ltb_ℤ (pos 0) a

unfoldable pub need_repeat : Repeat → Bool
need_repeat r = positive r.second || (positive r.minute || (positive r.hour || positive r.day))

-- k * a
abbrev pub scale : ℕ → ℤ → ℤ
scale k a = sub_ℕ (k * pos_part a) (k * neg_part a)

-- a, if it is a value of a signed type of w + 1 bits; past the ends the behaviour is undefined.
abbrev pub signed : ℕ → ℤ → Outcome ℤ
signed w a = if ltb (pos_part a) (2 ^ w) && leb (neg_part a) (2 ^ w) then ok a else undefined

-- `24 * day` is an int. The sum counts seconds, in 64 bits that it cannot leave.
abbrev pub repeat_seconds : Repeat → ℤ → ℤ
repeat_seconds r day_hours =
    scale 3600 day_hours +ℤ scale 3600 r.hour +ℤ scale 60 r.minute +ℤ r.second

unfoldable pub next_repeat : Repeat → TimePoint → Outcome TimePoint
next_repeat r from = do
  day_hours ← signed 31 (scale 24 r.day)
  added ← signed 63 (scale 1000000000 (repeat_seconds r day_hours))
  signed 63 (from +ℤ added)

-- std::map::emplace: a key that is there keeps its task.
unfoldable pub emplace : TimePoint → CronTask → TaskQueue → TaskQueue
emplace p t [] = (p, t) ∷ []
emplace p t ((q, u) ∷ rest) =
    let later = emplace p t rest in
    if ltb_ℤ p q
    then (p, t) ∷ (q, u) ∷ rest
    else if ltb_ℤ q p
    then (q, u) ∷ later
    else (q, u) ∷ rest

unfoldable pub push_repeated : Cron → TimePoint → Task → Repeat → ℤ → Cron
unfolding emplace
push_repeated s p t r skip = record s {
  tasks = emplace p (record { task = t; repeat = r; skip = skip }) s.tasks;
}

abbrev pub default_skip : ℤ
default_skip = pos 1

abbrev pub once : Repeat
once = record { day = pos 0; hour = pos 0; minute = pos 0; second = pos 0 }

unfoldable pub push : Cron → TimePoint → Task → Cron
unfolding push_repeated
push s p t = push_repeated s p t once default_skip

unfoldable pub stop : Cron → Cron
stop s = record s { done = true }

unfoldable pub fires : CronTask → Bool
fires t = not (positive t.skip)

unfoldable pub skipped : CronTask → CronTask
unfolding fires
skipped t = if fires t then t else record t { skip = t.skip +ℤ negsuc 0 }

-- What is left in the map when the first task's time has come: `now` is the clock at next_repeat.
unfoldable pub reschedule : TimePoint → CronTask → TaskQueue → Outcome TaskQueue
unfolding need_repeat next_repeat emplace fires
reschedule now t rest =
    if need_repeat t.repeat
    then (do p ← next_repeat t.repeat now; ok (emplace p (skipped t) rest))
    else ok rest

-- `if (!tasks.empty() || !done) cv.wait_until(lock, tasks.begin()->first, ...)`.
unfoldable pub wait_next : Cron → Outcome Cron
wait_next s =
    if not (elim s.tasks [ [] ↦ true | _ ↦ false ]) || not s.done
    then elim s.tasks [ [] ↦ undefined | _ ↦ ok (record s { thread = sleeping }) ]
    else ok s

-- The task is given to the executor, when it fires. When executor.push throws, the catch clause
-- ends the iteration.
unfoldable pub hand_over : Bool → Cron → CronTask → TaskQueue → Outcome Cron
unfolding wait_next fires
hand_over accepts s t left =
    if fires t && not accepts
    then ok (record s { tasks = left; thread = looping })
    else wait_next
        (record s { tasks = left; fired = if fires t then t.task ∷ s.fired else s.fired })

-- The first task's turn: `now` is the clock at the test, `later` at next_repeat.
unfoldable pub visit :
    TimePoint → TimePoint → Bool → Cron → TimePoint → CronTask → TaskQueue → Outcome Cron
unfolding reschedule wait_next hand_over
visit now later accepts s p t rest =
    if ltb_ℤ now p
    then wait_next s
    else reschedule later t rest >>= λ left. hand_over accepts s t left

-- An iteration of the loop; an empty map leaves the thread in `wait`, where it does the same when it
-- is woken.
unfoldable pub iterate : TimePoint → TimePoint → Bool → Cron → Outcome Cron
unfolding visit
iterate now later accepts s = if s.done then ok (record s { thread = stopped }) else elim s.tasks [
  | [] ↦ ok (record s { thread = looping })
  | (p, t) ∷ rest ↦ visit now later accepts s p t rest
]

-- The predicate of wait_until, which also holds when its time is over.
unfoldable pub can_wake : TimePoint → Cron → Outcome Bool
can_wake now s = elim s.tasks [ [] ↦ undefined | (p, t) ∷ rest ↦ ok (not (ltb_ℤ now p) || s.done) ]

unfoldable pub of_executor : Cron
of_executor = record { tasks = []; done = false; thread = looping; fired = [] }
