-- ===== src/Range/Pairs.antt =====
-- RangePair::operator& and RangePair::operator| as sets of versions.
use primitives.Prelude.{◌∙◌, true, ◌≡◌, Bool, false, ◌&&◌, ◌||◌, Option, none, some, arith}
use primitives.Version.{Version}
use primitives.Range.{before, eq, RangePair, max_side, min_side, contains, meet, join}
use primitives.Range.Sides.{
  min_side_weak, after_equal, Agree, before-max_side, before-min_side, after-max_side,
  after-min_side, overlap_of_between, touch_covers,
}

-- The versions of an optional interval.
abbrev pub contains? : Option RangePair → Version → Bool
contains? none x = false
contains? (some r) x = contains r x

pub second-join : (p q r : RangePair) → join p q ≡ some r → r.second ≡ max_side p.second q.second
unfolding join
second-join p q r h = ground arith

pub second-meet : (p q r : RangePair) → meet p q ≡ some r → r.second ≡ min_side p.second q.second
unfolding meet
second-meet p q r h = ground arith

module _ (p q : RangePair) (agree : Agree p.second q.second) (x : Version) where
  -- operator& is the intersection, if the right sides agree: the result (no version, where there is
  -- none) contains exactly the versions of both.
  pub contains-meet : contains? (meet p q) x ≡ (contains p x && contains q x)
  unfolding meet contains
  contains-meet = ground (
    arith,
    before-max_side p.first q.first x,
    after-min_side p.second q.second x agree,
    overlap_of_between (max_side p.first q.first) (min_side p.second q.second) x,
  )

  -- operator|, where it gives an interval, is the union, if the right sides agree.
  pub contains-join :
      (r : RangePair) → join p q ≡ some r → contains r x ≡ (contains p x || contains q x)
  unfolding join contains
  contains-join r h = ground (
    arith,
    before-max_side p.first q.first x,
    after-min_side p.second q.second x agree,
    before-min_side p.first q.first x,
    after-max_side p.second q.second x agree,
    touch_covers (max_side p.first q.first) (min_side p.second q.second) x,
  )

-- Where the right sides end at equal versions and only one of them lets that version in, operator&
-- keeps the side that lets it in: the result contains a version that the other interval does not.
pub meet_loses_strictness :
    (p q : RangePair)
    → eq p.second.v q.second.v ≡ true
    → p.second.strong ≡ true
    → q.second.strong ≡ false
    → before p.first p.second.v ≡ true
    → before q.first p.second.v ≡ true
    → (contains? (meet p q) p.second.v ≡ true) × (contains p p.second.v ≡ false)
unfolding meet contains
meet_loses_strictness p q e sp sq bp bq =
    let (s_out, t_in, _, _) = after_equal p.second q.second e sp sq in
    let (least, _) = min_side_weak p.second q.second e sp sq in
    let b : before (max_side p.first q.first) p.second.v ≡ true =
      ground (arith, before-max_side p.first q.first p.second.v) in
    let o = overlap_of_between (max_side p.first q.first) q.second p.second.v b t_in in
    (rw (least, o) (rw (b, t_in)), ground arith)

-- And operator| keeps the side that does not: the union leaves out a version of the other interval.
pub join_loses_end :
    (p q r : RangePair)
    → eq p.second.v q.second.v ≡ true
    → p.second.strong ≡ true
    → q.second.strong ≡ false
    → before q.first q.second.v ≡ true
    → join p q ≡ some r
    → (contains q q.second.v ≡ true) × (contains r q.second.v ≡ false)
unfolding join contains
join_loses_end p q r e sp sq bq h =
    let (_, _, s_out, t_in) = after_equal p.second q.second e sp sq in
    let (_, greatest) = min_side_weak p.second q.second e sp sq in
    let end : r.second ≡ p.second = second-join p q r h ∙ greatest in
    (rw (bq, t_in), rw (end, s_out) (ground arith))
