-- ===== src/Range.antt =====
-- An interval of versions: detail::RangePair and its sides (src/version/include/primitives/version_range.h,
-- src/version/src/version_range.cpp).
pub mod Sides
pub mod Pairs
pub mod Sets
pub mod Print
pub mod Grammar
mod Examples
use primitives.Prelude.{
  Bool, true, false, not, ◌&&◌, ◌||◌, Option, none, some, Outcome, ok, throw, wrong_order,
  empty_pair, if◌then◌else◌,
}
use primitives.Version
use primitives.Version.{Version, lt, gt, le, ge, eq}

pub record Side : Type 0 where
  pub v : Version
  pub strong : Bool

-- Comparison of std::tie(v, strong_relation).
unfoldable pub side_lt : Side → Side → Bool
side_lt a b = if lt a.v b.v then true else if lt b.v a.v then false else not a.strong && b.strong

abbrev pub bool_eq : Bool → Bool → Bool
bool_eq true b = b
bool_eq false b = not b

unfoldable pub side_eq : Side → Side → Bool
side_eq a b = eq a.v b.v && bool_eq a.strong b.strong

-- Side::operator<(const Version &) and Side::operator>(const Version &).
unfoldable pub before : Side → Version → Bool
before s x = if s.strong then lt s.v x else le s.v x

unfoldable pub after : Side → Version → Bool
after s x = if s.strong then gt s.v x else ge s.v x

-- std::max and std::min on sides.
unfoldable pub max_side : Side → Side → Side
max_side a b = if side_lt a b then b else a

unfoldable pub min_side : Side → Side → Side
min_side a b = if side_lt b a then b else a

pub record RangePair : Type 0 where
  pub first : Side
  pub second : Side

-- The public constructor.
unfoldable pub range_pair : Version → Bool → Version → Bool → Outcome RangePair
range_pair v1 strong1 v2 strong2 =
    if gt v1 v2
    then throw wrong_order
    else if eq v1 v2 && (strong1 || strong2)
    then throw empty_pair
    else ok (record {
      first = record { v = v1; strong = strong1 };
      second = record { v = v2; strong = strong2 };
    })

unfoldable pub contains : RangePair → Version → Bool
contains p x = before p.first x && after p.second x

unfoldable pub pair_eq : RangePair → RangePair → Bool
unfolding side_eq
pair_eq p q = side_eq p.first q.first && side_eq p.second q.second

-- Some version may lie between the sides, for operator&.
unfoldable pub overlap : Side → Side → Bool
overlap f s = lt f.v s.v || (eq f.v s.v && (not f.strong && not s.strong))

-- The sides leave no version out between them, for operator|.
unfoldable pub touch : Side → Side → Bool
touch f s = lt f.v s.v || (eq f.v s.v && (not f.strong || not s.strong))

-- RangePair::operator&.
unfoldable pub meet : RangePair → RangePair → Option RangePair
meet p q =
    let f = max_side p.first q.first in
    let s = min_side p.second q.second in
    if overlap f s then some (record { first = f; second = s }) else none

-- RangePair::operator|.
unfoldable pub join : RangePair → RangePair → Option RangePair
join p q =
    let f = max_side p.first q.first in
    let s = min_side p.second q.second in
    if touch f s
    then some (record { first = min_side p.first q.first; second = max_side p.second q.second })
    else none

-- RangePair::toVersion.
unfoldable pub pair_to_version : RangePair → Option Version
pair_to_version p = if not (eq p.first.v p.second.v) then none else some p.first.v
