-- ===== src/Range/Sets.antt =====
-- A set of versions as a vector of intervals: VersionRange (src/version/include/primitives/version_range.h,
-- src/version/src/version_range.cpp). An iterator is the part of the vector from it on.
pub mod Members
pub mod Front
use primitives.Prelude.{
  ℕ, zero, suc, Bool, true, false, not, ◌&&◌, ◌||◌, List, [], ◌∷◌, ◌++◌, Option, none, some, any,
  length, if◌then◌else◌,
}
use primitives.Version.{Version, lt, gt}
use primitives.Range.{RangePair, contains, pair_eq, meet, join, pair_to_version}

-- The loop of operator|=(const RangePair &) once the pair is added: `current` is *(i - 1).
unfoldable pub settle : RangePair → List RangePair → List RangePair
settle current [] = current ∷ []
settle current (i ∷ rest) = elim (lt current.second.v i.first.v) [
  | true ↦ current ∷ i ∷ rest
  | false ↦ elim (join current i) [ some u ↦ settle u rest | none ↦ current ∷ settle i rest ]
]

-- operator|=(const RangePair &). Behind an insertion before the current pair the loop ends with
-- `added` unset, so the pair is pushed to the back too.
unfoldable pub add_pair : List RangePair → RangePair → List RangePair
unfolding settle
add_pair [] p = p ∷ []
add_pair (i ∷ rest) p = elim (lt i.second.v p.first.v) [
  | true ↦ i ∷ add_pair rest p
  | false ↦ elim (gt i.first.v p.second.v) [
    | true ↦ p ∷ i ∷ (rest ++ p ∷ [])
    | false ↦ elim (join i p) [ some u ↦ settle u rest | none ↦ i ∷ settle p rest ]
  ]
]

-- operator|=(const VersionRange &), and operator| on a copy.
unfoldable pub add_range : List RangePair → List RangePair → List RangePair
add_range r [] = r
add_range r (p ∷ ps) = add_range (add_pair r p) ps

-- The inner loop of operator&=.
unfoldable pub meet_row : RangePair → List RangePair → List RangePair → List RangePair
meet_row p [] vr = vr
meet_row p (q ∷ qs) vr = meet_row p qs (elim (meet p q) [ some o ↦ add_pair vr o | none ↦ vr ])

meet_rows : List RangePair → List RangePair → List RangePair → List RangePair
meet_rows [] qs vr = vr
meet_rows (p ∷ ps) qs vr = meet_rows ps qs (meet_row p qs vr)

-- operator&=, and operator& on a copy.
unfoldable pub intersect : List RangePair → List RangePair → List RangePair
unfolding meet_rows
intersect ps qs = meet_rows ps qs []

unfoldable pub contains_version : List RangePair → Version → Bool
contains_version r x = any (λ p. contains p x) r

-- operator== compares the vectors.
unfoldable pub range_eq : List RangePair → List RangePair → Bool
range_eq [] [] = true
range_eq [] (q ∷ qs) = false
range_eq (p ∷ ps) [] = false
range_eq (p ∷ ps) (q ∷ qs) = pair_eq p q && range_eq ps qs

-- contains(const VersionRange &).
unfoldable pub contains_range : List RangePair → List RangePair → Bool
contains_range r s = range_eq (intersect r s) s

unfoldable pub range_to_version : List RangePair → Option Version
range_to_version [] = none
range_to_version (p ∷ []) = pair_to_version p
range_to_version (p ∷ q ∷ r) = none
