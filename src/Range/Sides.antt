-- ===== src/Range/Sides.antt =====
-- How the sides of intervals bound a version.
use primitives.Prelude.{false, ◌≡◌, true, not, ◌&&◌, ◌||◌, arith}
use primitives.Version.{Version, lt, eq}
use primitives.Version.Order.{
  eq-lt, gt-lt, le-lt, ge-lt, lt_irrefl, lt_asymm, lt_trans, lt_negative_trans,
}
use primitives.Range.{touch, overlap, min_side, Side, side_lt, before, after, max_side}

pub before_lem :
    (s : Side) (x : Version) → before s x ≡ (lt s.v x || (not s.strong && not (lt x s.v)))
unfolding before
before_lem s x = ground (arith, le-lt s.v x, lt_trans s.v x s.v, lt_irrefl s.v)

pub after_lem :
    (s : Side) (x : Version) → after s x ≡ (lt x s.v || (not s.strong && not (lt s.v x)))
unfolding after
after_lem s x = ground (arith, gt-lt s.v x, ge-lt s.v x, lt_trans s.v x s.v, lt_irrefl s.v)

-- The order of three versions, for the tactics to read.
pub record Facts (a b c : Version) : Type 0 where
  trans_abc : lt a b ≡ true → lt b c ≡ true → lt a c ≡ true
  negative_abc : lt a b ≡ false → lt b c ≡ false → lt a c ≡ false
  trans_acb : lt a c ≡ true → lt c b ≡ true → lt a b ≡ true
  negative_acb : lt a c ≡ false → lt c b ≡ false → lt a b ≡ false
  trans_bac : lt b a ≡ true → lt a c ≡ true → lt b c ≡ true
  negative_bac : lt b a ≡ false → lt a c ≡ false → lt b c ≡ false
  trans_bca : lt b c ≡ true → lt c a ≡ true → lt b a ≡ true
  negative_bca : lt b c ≡ false → lt c a ≡ false → lt b a ≡ false
  trans_cab : lt c a ≡ true → lt a b ≡ true → lt c b ≡ true
  negative_cab : lt c a ≡ false → lt a b ≡ false → lt c b ≡ false
  trans_cba : lt c b ≡ true → lt b a ≡ true → lt c a ≡ true
  negative_cba : lt c b ≡ false → lt b a ≡ false → lt c a ≡ false
  asymm_ab : lt a b ≡ true → lt b a ≡ false
  asymm_ac : lt a c ≡ true → lt c a ≡ false
  asymm_bc : lt b c ≡ true → lt c b ≡ false

pub facts : (a b c : Version) → Facts a b c
facts a b c = record {
  trans_abc = lt_trans a b c;
  negative_abc = lt_negative_trans a b c;
  trans_acb = lt_trans a c b;
  negative_acb = lt_negative_trans a c b;
  trans_bac = lt_trans b a c;
  negative_bac = lt_negative_trans b a c;
  trans_bca = lt_trans b c a;
  negative_bca = lt_negative_trans b c a;
  trans_cab = lt_trans c a b;
  negative_cab = lt_negative_trans c a b;
  trans_cba = lt_trans c b a;
  negative_cba = lt_negative_trans c b a;
  asymm_ab = lt_asymm a b;
  asymm_ac = lt_asymm a c;
  asymm_bc = lt_asymm b c;
}

-- The two sides agree: where their versions are equal, both or neither let the version in.
abbrev pub Agree : Side → Side → Type 0
Agree a b = eq a.v b.v ≡ true → a.strong ≡ b.strong

module _ (s t : Side) (x : Version) where
  pub before-max_side : before (max_side s t) x ≡ (before s x && before t x)
  unfolding max_side side_lt
  before-max_side = ground (arith, before_lem s x, before_lem t x, facts s.v t.v x)

  pub before-min_side : before (min_side s t) x ≡ (before s x || before t x)
  unfolding min_side side_lt
  before-min_side = ground (arith, before_lem s x, before_lem t x, facts s.v t.v x)

  module _ (agree : Agree s t) where
    pub after-min_side : after (min_side s t) x ≡ (after s x && after t x)
    unfolding min_side side_lt
    after-min_side =
        ground (arith, agree, eq-lt s.v t.v, after_lem s x, after_lem t x, facts s.v t.v x)

    pub after-max_side : after (max_side s t) x ≡ (after s x || after t x)
    unfolding max_side side_lt
    after-max_side =
        ground (arith, agree, eq-lt s.v t.v, after_lem s x, after_lem t x, facts s.v t.v x)

  -- A version between two sides shows that they overlap.
  pub overlap_of_between : before s x ≡ true → after t x ≡ true → overlap s t ≡ true
  unfolding overlap
  overlap_of_between h k =
      ground (arith, eq-lt s.v t.v, before_lem s x, after_lem t x, facts s.v t.v x)

  -- Between two sides that touch no version is outside both.
  pub touch_covers : touch s t ≡ true → before s x ≡ false → after t x ≡ true
  unfolding touch
  touch_covers h k = ground (arith, eq-lt s.v t.v, before_lem s x, after_lem t x, facts s.v t.v x)

module _ (s t : Side) (e : eq s.v t.v ≡ true) (hs : s.strong ≡ true) (ht : t.strong ≡ false) where
  -- The side that lets its version in is the lesser one.
  pub min_side_weak : (min_side s t ≡ t) × (max_side s t ≡ s)
  unfolding min_side max_side side_lt
  min_side_weak = (ground (arith, eq-lt s.v t.v), ground (arith, eq-lt s.v t.v))

  pub after_equal :
      (after s s.v ≡ false) × (after t s.v ≡ true) × (after s t.v ≡ false) × (after t t.v ≡ true)
  after_equal =
      let i = lt_irrefl s.v in
      let j = lt_irrefl t.v in
      (
        ground (arith, after_lem s s.v, i),
        ground (arith, after_lem t s.v, eq-lt s.v t.v),
        ground (arith, after_lem s t.v, eq-lt s.v t.v),
        ground (arith, after_lem t t.v, j),
      )
