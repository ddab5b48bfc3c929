-- ===== src/Range/Examples.antt =====
-- The theorems on ranges at concrete inputs, and runs of the definitions.
use primitives.Prelude.{sym, ◌∙◌, ℕ, ◌≡◌, refl, true, false, List, [], ◌∷◌, ◌&&◌, ◌||◌, some}
use primitives.Prelude.Int.{pos}
use primitives.Version.{gt, Version, lt}
use primitives.Range.{min_side, side_lt, max_side, touch, Side, RangePair, contains, join}
use primitives.Range.Sides.{Agree}
use primitives.Range.Sets.{add_pair, add_range, intersect, contains_version}
use primitives.Range.Sets.Members.{contains-add_pair, contains-add_range, contains-intersect}
use primitives.Prelude.{ok}
use primitives.Version.{minimum, maximum}
use primitives.Range.Grammar.{not_equal, compare_with}
use primitives.Range.Grammar.Comparisons.{compare_with_lem, satisfies}

abbrev major : ℕ → Version
major n = record { numbers = pos n ∷ []; extra = record { values = [] } }

-- [a, b) and [a, b].
abbrev half_open : ℕ → ℕ → RangePair
half_open a b = record {
  first = record { v = major a; strong = false };
  second = record { v = major b; strong = true };
}

abbrev closed : ℕ → ℕ → RangePair
closed a b = record {
  first = record { v = major a; strong = false };
  second = record { v = major b; strong = false };
}

-- Intervals whose right sides are open agree with one another.
abbrev IsOpen : Side → Type 0
IsOpen s = s.strong ≡ true

IsOpen-Agree : (s t : Side) → IsOpen s → IsOpen t → Agree s t
IsOpen-Agree s t h k e = h ∙ sym k

joined : join (half_open 1 3) (half_open 2 4) ≡ some (half_open 1 4)
unfolding join touch lt max_side side_lt min_side
joined = refl

joined_end : join (half_open 1 3) (closed 2 3) ≡ some (half_open 1 3)
unfolding join touch lt max_side side_lt min_side
joined_end = refl

abbrev some_ranges : List RangePair
some_ranges = half_open 1 2 ∷ half_open 5 6 ∷ []

contains-add_pair_example :
    contains_version (add_pair some_ranges (half_open 3 4)) (major 3)
    ≡ (contains_version some_ranges (major 3) || contains (half_open 3 4) (major 3))
contains-add_pair_example =
    contains-add_pair IsOpen IsOpen-Agree (major 3) some_ranges (half_open 3 4) (refl, (refl, tt))
      refl

contains-add_range_example :
    contains_version (add_range some_ranges (half_open 2 5 ∷ [])) (major 3)
    ≡ (contains_version some_ranges (major 3) || contains_version (half_open 2 5 ∷ []) (major 3))
contains-add_range_example =
    contains-add_range IsOpen IsOpen-Agree (major 3) some_ranges (half_open 2 5 ∷ [])
      (refl, (refl, tt)) (refl, tt)

contains-intersect_example :
    contains_version (intersect some_ranges (half_open 0 9 ∷ [])) (major 5)
    ≡ (contains_version some_ranges (major 5) && contains_version (half_open 0 9 ∷ []) (major 5))
contains-intersect_example =
    contains-intersect IsOpen IsOpen-Agree (major 5) some_ranges (half_open 0 9 ∷ [])
      (refl, (refl, tt)) (refl, tt)

inserted_twice :
    add_pair (half_open 3 4 ∷ []) (half_open 1 2)
    ≡ half_open 1 2 ∷ half_open 3 4 ∷ half_open 1 2 ∷ []
unfolding add_pair lt gt
inserted_twice = refl

compare_with_lem_example :
    (r : List RangePair) × (compare_with not_equal (major 3) ≡ ok r)
    × ((x : Version)
        → lt minimum x ≡ true
        → lt x maximum ≡ true
        → contains_version r x ≡ satisfies not_equal x (major 3))
unfolding lt minimum maximum
compare_with_lem_example = compare_with_lem not_equal (major 3) refl refl
