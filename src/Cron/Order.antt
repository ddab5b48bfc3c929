-- ===== src/Cron/Order.antt =====
-- The map of Cron (src/cron/include/primitives/cron.h) as a map: its nodes stay in the order of their
-- keys, and std::map::emplace changes what one key holds.
use primitives.Prelude.{
  ◌≡◌, refl, true, [], ◌∷◌, Option, none, some, arith, All, if◌then◌else◌, ◌||◌,
}
use primitives.Prelude.Int.{ltb_ℤ, ltb_ℤ_trans, ltb_ℤ_total}
use primitives.Cron.{TimePoint, CronTask, TaskQueue, emplace}

abbrev pub IsBefore : TimePoint → TaskQueue → Type 0
IsBefore p = All (λ e. ltb_ℤ p (e.0) ≡ true)

abbrev pub IsSorted : TaskQueue → Type 0
IsSorted [] = Unit
IsSorted ((p, t) ∷ rest) = IsBefore p rest × IsSorted rest

-- What the map holds at a key.
abbrev pub find : TaskQueue → TimePoint → Option CronTask
find [] k = none
find ((q, u) ∷ rest) k = if ltb_ℤ k q || ltb_ℤ q k then find rest k else some u

abbrev pub or_else : Option CronTask → CronTask → CronTask
or_else none t = t
or_else (some u) t = u

emplace-IsBefore :
    (k p : TimePoint) (t : CronTask) (s : TaskQueue)
    → ltb_ℤ k p ≡ true
    → IsBefore k s
    → IsBefore k (emplace p t s)
unfolding emplace
emplace-IsBefore k p t [] h b = (h, tt)
emplace-IsBefore k p t ((q, u) ∷ rest) h (hq, b) = ground (arith, emplace-IsBefore k p t rest)

IsBefore-trans : (k p : TimePoint) (s : TaskQueue) → ltb_ℤ k p ≡ true → IsBefore p s → IsBefore k s
IsBefore-trans k p [] h b = tt
IsBefore-trans k p ((q, u) ∷ rest) h (hq, b) = (ltb_ℤ_trans k p q h hq, IsBefore-trans k p rest h b)

pub emplace-IsSorted :
    (p : TimePoint) (t : CronTask) (s : TaskQueue) → IsSorted s → IsSorted (emplace p t s)
unfolding emplace
emplace-IsSorted p t [] h = (tt, tt)
emplace-IsSorted p t ((q, u) ∷ rest) (b, h) =
    ground (arith, emplace-IsSorted p t rest, emplace-IsBefore q p t rest, IsBefore-trans p q rest)

pub find-IsBefore : (k : TimePoint) (s : TaskQueue) → IsBefore k s → find s k ≡ none
find-IsBefore k [] h = refl
find-IsBefore k ((q, u) ∷ rest) (hq, b) = rw hq (find-IsBefore k rest b)

-- std::map::emplace keeps what a key of the map holds, adds the task under a new key, and changes no
-- other key.
pub find-emplace :
    (p : TimePoint) (t : CronTask) (s : TaskQueue)
    → IsSorted s
    → (k : TimePoint)
    → find (emplace p t s) k
      ≡ (if ltb_ℤ k p || ltb_ℤ p k then find s k else some (or_else (find s p) t))
unfolding emplace
find-emplace p t [] h k = ground arith
find-emplace p t ((q, u) ∷ rest) (b, h) k = ground (
  arith,
  find-emplace p t rest h k,
  find-IsBefore p rest,
  ltb_ℤ_total p q,
  IsBefore-trans p q rest,
)
