-- ===== src/Range/Grammar.antt =====
-- What the rules of the range grammar build (src/version/src/range.yy): the actions of `range`, `caret`,
-- `tilde`, `hyphen`, `interval` and `compare`. The generated GLR parser is not modelled.
pub mod Comparisons
use primitives.Prelude.{Bool, true, false, List, [], ◌∷◌, Outcome, ok, ◌>>=◌, ltb, if◌then◌else◌}
use primitives.Prelude.Int.{ℤ, pos, ◌==ℤ◌}
use primitives.Version.{Version, of_numbers, minimum, maximum, gt, resize, level}
use primitives.Version.Step.{increment_version}
use primitives.Range.{RangePair, range_pair}
use primitives.Range.Sets.{add_pair}

-- VersionRange vr; vr |= rp.
unfoldable pub range_of : Version → Bool → Version → Bool → Outcome (List RangePair)
range_of v1 strong1 v2 strong2 = do rp ← range_pair v1 strong1 v2 strong2; ok (add_pair [] rp)

-- A version alone; no number at all is a star.
unfoldable pub plain : Version → Outcome (List RangePair)
plain v = elim v.numbers [
  | [] ↦ range_of minimum true maximum true
  | n ∷ ns ↦ do v2 ← increment_version (of_numbers (n ∷ ns)); range_of v false v2 true
]

-- The numbers up to the first one that is not zero; all of them, if there is none.
unfoldable pub to_first_nonzero : List ℤ → List ℤ
to_first_nonzero [] = []
to_first_nonzero (n ∷ ns) = if n ==ℤ pos 0 then n ∷ to_first_nonzero ns else n ∷ []

unfoldable pub caret : Version → Outcome (List RangePair)
unfolding to_first_nonzero
caret v = do
  let ns = if gt (of_numbers v.numbers) minimum then to_first_nonzero v.numbers else v.numbers
  v2 ← increment_version (of_numbers ns)
  range_of v false v2 true

unfoldable pub tilde : Version → Outcome (List RangePair)
tilde v = do
  let ns = if ltb 2 (level v) then resize v.numbers 2 else v.numbers
  v2 ← increment_version (of_numbers ns)
  range_of v false v2 true

unfoldable pub hyphen : Version → Version → Outcome (List RangePair)
hyphen v1 v2 = do next ← increment_version v2; range_of v1 false next true

-- interval: both ends, or one of them; `open` is a round bracket.
unfoldable pub interval : Bool → Version → Version → Bool → Outcome (List RangePair)
interval left_open v1 v2 right_open = range_of v1 left_open v2 right_open

unfoldable pub interval_from : Bool → Version → Outcome (List RangePair)
interval_from left_open v = range_of v left_open maximum true

unfoldable pub interval_to : Version → Bool → Outcome (List RangePair)
interval_to v right_open = range_of minimum true v right_open

pub data Comparison : Type 0 where
  less less_equal greater greater_equal equal not_equal : Comparison

unfoldable pub compare_with : Comparison → Version → Outcome (List RangePair)
compare_with less v = range_of minimum true v true
compare_with less_equal v = range_of minimum true v false
compare_with greater v = range_of v true maximum true
compare_with greater_equal v = range_of v false maximum true
compare_with equal v = range_of v false v false
compare_with not_equal v = do
  below ← range_pair minimum true v true
  above ← range_pair v true maximum true
  ok (add_pair (add_pair [] below) above)
