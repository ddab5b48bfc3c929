-- ===== src/Range/Grammar/Comparisons.antt =====
-- The comparisons of a range, such as `>= 1.2`, as sets of versions.
use primitives.Prelude.{◌&&◌, ◌||◌, ◌≡◌, refl, Bool, true, false, not, List, [], ◌∷◌, arith, ok}
use primitives.Version.{Version, lt, gt, le, ge, eq, minimum, maximum}
use primitives.Version.Order.{le-lt, gt-lt, ge-lt, eq-lt, lt_irrefl, lt_trans}
use primitives.Range.{Side, RangePair, range_pair, contains}
use primitives.Range.Sides.{Agree, before_lem, after_lem, facts}
use primitives.Range.Sets.{add_pair, contains_version}
use primitives.Range.Sets.Members.{contains-add_pair}
use primitives.Range.Grammar.{
  range_of, Comparison, less, less_equal, greater, greater_equal, equal, not_equal, compare_with,
}

-- The comparison that an operator of the grammar stands for.
abbrev pub satisfies : Comparison → Version → Version → Bool
satisfies less x v = lt x v
satisfies less_equal x v = le x v
satisfies greater x v = gt x v
satisfies greater_equal x v = ge x v
satisfies equal x v = eq x v
satisfies not_equal x v = not (eq x v)

abbrev between : Version → Bool → Version → Bool → RangePair
between v1 strong1 v2 strong2 = record {
  first = record { v = v1; strong = strong1 };
  second = record { v = v2; strong = strong2 };
}

range_pair-between :
    (v1 v2 : Version) (strong1 strong2 : Bool)
    → lt v1 v2 ≡ true
    → range_pair v1 strong1 v2 strong2 ≡ ok (between v1 strong1 v2 strong2)
unfolding range_pair
range_pair-between v1 v2 strong1 strong2 h =
    ground (arith, gt-lt v1 v2, eq-lt v1 v2, lt_trans v1 v2 v1, lt_irrefl v1)

range_of-between :
    (v1 v2 : Version) (strong1 strong2 : Bool)
    → lt v1 v2 ≡ true
    → range_of v1 strong1 v2 strong2 ≡ ok (between v1 strong1 v2 strong2 ∷ [])
unfolding range_of add_pair
range_of-between v1 v2 strong1 strong2 h = rw (range_pair-between v1 v2 strong1 strong2 h) refl

contains-between :
    (v1 v2 x : Version) (strong1 strong2 : Bool)
    → contains_version (between v1 strong1 v2 strong2 ∷ []) x
      ≡ ((lt v1 x || (not strong1 && not (lt x v1))) && (lt x v2 || (not strong2 && not (lt v2 x))))
unfolding contains_version contains
contains-between v1 v2 x strong1 strong2 = ground (
  arith,
  before_lem (record { v = v1; strong = strong1 }) x,
  after_lem (record { v = v2; strong = strong2 }) x,
)

range_of-same : (v : Version) → range_of v false v false ≡ ok (between v false v false ∷ [])
unfolding range_of range_pair add_pair
range_of-same v = ground (arith, gt-lt v v, eq-lt v v, lt_irrefl v)

both_open : (s t : Side) → s.strong ≡ true → t.strong ≡ true → Agree s t
both_open s t h k e = ground arith

contains_one : (p : RangePair) (x : Version) → contains_version (p ∷ []) x ≡ contains p x
unfolding contains_version
contains_one p x = ground arith

-- A comparison with a version between the least one and the bound gives a range, and of the
-- versions between these two, the range contains exactly those that compare so.
pub compare_with_lem :
    (op : Comparison) (v : Version)
    → lt minimum v ≡ true
    → lt v maximum ≡ true
    → (r : List RangePair) × (compare_with op v ≡ ok r)
      × ((x : Version)
          → lt minimum x ≡ true
          → lt x maximum ≡ true
          → contains_version r x ≡ satisfies op x v)
unfolding compare_with add_pair
compare_with_lem less v low high = (
  between minimum true v true ∷ [],
  range_of-between minimum v true true low,
  λ x h k. ground (
    arith,
    contains-between minimum v x true true,
    facts minimum v x,
    lt_trans x v x,
    lt_irrefl x,
  ),
)
compare_with_lem less_equal v low high = (
  between minimum true v false ∷ [],
  range_of-between minimum v true false low,
  λ x h k. ground (
    arith,
    contains-between minimum v x true false,
    le-lt x v,
    facts minimum v x,
    lt_trans x v x,
    lt_irrefl x,
  ),
)
compare_with_lem greater v low high = (
  between v true maximum true ∷ [],
  range_of-between v maximum true true high,
  λ x h k. ground (
    arith,
    contains-between v maximum x true true,
    gt-lt x v,
    facts v maximum x,
    lt_trans x v x,
    lt_irrefl x,
  ),
)
compare_with_lem greater_equal v low high = (
  between v false maximum true ∷ [],
  range_of-between v maximum false true high,
  λ x h k. ground (
    arith,
    contains-between v maximum x false true,
    ge-lt x v,
    facts v maximum x,
    lt_trans x v x,
    lt_irrefl x,
  ),
)
compare_with_lem equal v low high = (
  between v false v false ∷ [],
  ground (arith, range_of-same v),
  λ x h k.
      ground (arith, contains-between v v x false false, eq-lt x v, lt_trans x v x, lt_irrefl x),
)
compare_with_lem not_equal v low high =
    let p = between minimum true v true in
    let q = between v true maximum true in
    (
      add_pair (p ∷ []) q,
      rw
          (
            range_pair-between minimum v true true low,
            range_pair-between v maximum true true high,
            add_pair,
          )
          refl,
      λ x h k. ground (
        arith,
        contains-add_pair (λ s. s.strong ≡ true) both_open x (p ∷ []) q (refl, tt) refl,
        contains_one q x,
        contains-between minimum v x true true,
        contains-between v maximum x true true,
        eq-lt x v,
        lt_trans x v x,
        lt_irrefl x,
      ),
    )
