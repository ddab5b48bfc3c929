-- ===== src/Range/Print.antt =====
-- Printing ranges: Side::toString, RangePair::toString, RangePair::toStringInterval and
-- VersionRange::toString (src/version/src/version_range.cpp).
use primitives.Prelude.{not, ◌&&◌, List, [], ◌∷◌, ◌++◌, Bytes, codes, if◌then◌else◌}
use primitives.Version.{default_level, real_level, minimum, maximum, lt, gt, eq}
use primitives.Version.Print.{dot, chop, to_string_at}
use primitives.Range.{Side, RangePair}

-- VersionRangePairStringRepresentationType.
pub data Representation : Type 0 where
  same_default_level same_real_level individual_real_level : Representation

unfoldable pub side_to_string : Side → Representation → Bytes
side_to_string s same_default_level = to_string_at s.v dot default_level
side_to_string s same_real_level = to_string_at s.v dot (real_level s.v)
side_to_string s individual_real_level = to_string_at s.v dot (real_level s.v)

unfoldable pub pair_to_string : RangePair → Representation → Bytes
unfolding side_to_string
pair_to_string p t =
    let print_left = gt p.first.v minimum in
    let print_right = lt p.second.v maximum in
    let left =
      codes ">" ++ ((if not p.first.strong then codes "=" else []) ++ side_to_string p.first t) in
    let right =
      codes "<" ++ ((if not p.second.strong then codes "=" else []) ++ side_to_string p.second t) in
    if print_left
      && (print_right && (not p.first.strong && (not p.second.strong && eq p.first.v p.second.v)))
    then codes "=" ++ side_to_string p.first t
    else if print_left && print_right
    then left ++ (codes " " ++ right)
    else if print_left
    then left
    else if print_right
    then right
    else codes "*"

unfoldable pub interval_to_string : RangePair → Bytes
unfolding side_to_string
interval_to_string p =
    (if p.first.strong then codes "(" else codes "[")
    ++ (side_to_string p.first same_default_level
        ++ (codes ", "
            ++ (side_to_string p.second same_default_level
                ++ (if p.second.strong then codes ")" else codes "]"))))

pairs_to_string : List RangePair → Representation → Bytes → Bytes
pairs_to_string [] t s = s
pairs_to_string (p ∷ ps) t s = pairs_to_string ps t (s ++ (pair_to_string p t ++ codes " || "))

unfoldable pub range_to_string : List RangePair → Representation → Bytes
unfolding pairs_to_string
range_to_string r t = elim (pairs_to_string r t []) [ [] ↦ [] | c ∷ s ↦ chop (c ∷ s) 4 ]
