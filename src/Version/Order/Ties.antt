-- ===== src/Version/Order/Ties.antt =====
-- Comparison of std::tie(numbers, extra).
use primitives.Prelude.{◌≡◌, true, false, not, ◌&&◌, arith}
use primitives.Prelude.Ord.{
  list_beq_iff, list_lt_irrefl, list_lt_trans, list_lt_total, int_ord, lt_asymm, list_ord,
}
use primitives.Version.{Version, Extra, extra_lt, extra_beq, tie_lt, tie_beq, value_ord}

extra_lt_irrefl : (e : Extra) → extra_lt e e ≡ false
unfolding extra_lt
extra_lt_irrefl e = ground (arith, list_lt_irrefl e.values)

extra_lt_trans : (d e f : Extra) → extra_lt d e ≡ true → extra_lt e f ≡ true → extra_lt d f ≡ true
unfolding extra_lt
extra_lt_trans d e f h k = ground (arith, list_lt_trans d.values e.values f.values)

extra_lt_total : (d e : Extra) → extra_lt d e ≡ false → extra_lt e d ≡ false → d.values ≡ e.values
unfolding extra_lt
extra_lt_total d e h k = ground (arith, list_lt_total d.values e.values)

extra_beq_lem : (d e : Extra) → extra_beq d e ≡ (not (extra_lt d e) && not (extra_lt e d))
unfolding extra_beq
extra_beq_lem d e =
    ground (arith, list_beq_iff d.values e.values, extra_lt_total d e, extra_lt_irrefl d)

extra_lt_negative_trans :
    (d e f : Extra) → extra_lt d e ≡ false → extra_lt e f ≡ false → extra_lt d f ≡ false
unfolding extra_lt
extra_lt_negative_trans d e f h k = ground (
  arith,
  list_lt_total d.values e.values,
  list_lt_total e.values f.values,
  list_lt_irrefl d.values,
  lt_asymm f.values d.values,
  list_lt_trans f.values e.values d.values,
)

pub tie_lt_irrefl : (v : Version) → tie_lt v v ≡ false
unfolding tie_lt
tie_lt_irrefl v = ground (arith, list_lt_irrefl v.numbers, extra_lt_irrefl v.extra)

pub tie_lt_trans : (u v w : Version) → tie_lt u v ≡ true → tie_lt v w ≡ true → tie_lt u w ≡ true
unfolding tie_lt
tie_lt_trans u v w h k = ground (
  arith,
  list_lt_trans u.numbers v.numbers w.numbers,
  list_lt_total u.numbers v.numbers,
  list_lt_total v.numbers w.numbers,
  list_lt_irrefl v.numbers,
  list_lt_irrefl w.numbers,
  lt_asymm u.numbers w.numbers,
  extra_lt_trans u.extra v.extra w.extra,
)

-- Two ties are equal exactly when neither is less.
pub tie_beq_lem : (v w : Version) → tie_beq v w ≡ (not (tie_lt v w) && not (tie_lt w v))
unfolding tie_beq tie_lt
tie_beq_lem v w = ground (
  arith,
  list_beq_iff v.numbers w.numbers,
  list_lt_total v.numbers w.numbers,
  list_lt_irrefl v.numbers,
  extra_beq_lem v.extra w.extra,
)

-- A tie that is not less is equal or greater.
pub tie_lt_negative_trans :
    (u v w : Version) → tie_lt u v ≡ false → tie_lt v w ≡ false → tie_lt u w ≡ false
unfolding tie_lt
tie_lt_negative_trans u v w h k = ground (
  arith,
  list_lt_total u.numbers v.numbers,
  list_lt_total v.numbers w.numbers,
  list_lt_irrefl u.numbers,
  list_lt_irrefl w.numbers,
  lt_asymm u.numbers w.numbers,
  lt_asymm w.numbers u.numbers,
  list_lt_trans w.numbers v.numbers u.numbers,
  extra_lt_negative_trans u.extra v.extra w.extra,
)
