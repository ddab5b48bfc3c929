-- ===== src/Version/Order.antt =====
-- The comparison operators of a version make one strict weak order, as std::set and std::sort want.
mod Padding
mod Ties
pub mod Ends
use Padding.{list_lt-resize, list_beq-resize, resize_self}
use Ties.{tie_lt_irrefl, tie_lt_trans, tie_lt_negative_trans, tie_beq_lem}
use native.Mathlib.Nat.{le_refl}
use mathlib.Core.Path.{ap, ap₂}
use primitives.Prelude.{
  ◌∙◌, sym, ℕ, ◌≤◌, max, ◌≡◌, refl, ◌⊎◌, Bool, true, false, not, ◌&&◌, arith, ltb, ==_iff,
  Bool-cases, inl, inr, ◌==◌, if◌then◌else◌,
}
use primitives.Version.{Version, level, resize, resized, cmp, tie_lt, tie_beq, lt, gt, le, ge, eq}

-- What the ordered containers and algorithms require of a comparison.
pub record IsStrictWeakOrder {ℓ} {A : Type ℓ} (r : A → A → Bool) : Type ℓ where
  pub irrefl : (a : A) → r a a ≡ false
  pub trans : (a b c : A) → r a b ≡ true → r b c ≡ true → r a c ≡ true
  pub negative_trans : (a b c : A) → r a b ≡ false → r b c ≡ false → r a c ≡ false

module _ (v w : Version) (n : ℕ) (hv : level v ≤ n) (hw : level w ≤ n) where
  -- At any level that both fit, `cmp` compares the padded numbers.
  tie_lt-resized :
      (k : ℕ) → n ≤ k → tie_lt (resized v k) (resized w k) ≡ tie_lt (resized v n) (resized w n)
  unfolding tie_lt resized
  tie_lt-resized k h = rw (
    list_lt-resize v.numbers w.numbers n hv hw k h,
    list_lt-resize w.numbers v.numbers n hw hv k h,
  )

  tie_beq-resized :
      (k : ℕ) → n ≤ k → tie_beq (resized v k) (resized w k) ≡ tie_beq (resized v n) (resized w n)
  unfolding tie_beq resized
  tie_beq-resized k h = rw (list_beq-resize v.numbers w.numbers n hv hw k h)

pub resized_self : (v : Version) (n : ℕ) → n ≡ level v → resized v n ≡ v
unfolding resized
resized_self v n h = rw h (λ i. record v { numbers = resize_self v.numbers i })

-- Comparing at the longer level is comparing at any level that is long enough.
module _ (f : Version → Version → Bool) (v w : Version) where
  cmp-resized :
      cmp v w f ≡ f (resized v (max (level v) (level w))) (resized w (max (level v) (level w)))
  unfolding cmp
  cmp-resized = elim (Bool-cases (level v == level w)) [
    | inl e ↦
        let same : level v ≡ level w = ground arith in
        let top : max (level v) (level w) ≡ level v = omega arith in
        rw (e, top)
          (ap₂ f (sym (resized_self v (level v) refl)) (sym (resized_self w (level v) same)))
    | inr e ↦ rw e
  ]

module _ (v w : Version) (n : ℕ) (hv : level v ≤ n) (hw : level w ≤ n) where
  pub lt-resized : lt v w ≡ tie_lt (resized v n) (resized w n)
  unfolding lt
  lt-resized =
      cmp-resized tie_lt v w
      ∙ sym
          (tie_lt-resized v w (max (level v) (level w)) (omega arith) (omega arith) n (omega arith))

  pub eq-resized : eq v w ≡ tie_beq (resized v n) (resized w n)
  unfolding eq
  eq-resized =
      cmp-resized tie_beq v w
      ∙ sym (
          tie_beq-resized v w (max (level v) (level w)) (omega arith) (omega arith) n (omega arith))

pub gt-lt : (v w : Version) → gt v w ≡ lt w v
unfolding gt
gt-lt v w =
    cmp-resized (λ a b. tie_lt b a) v w
    ∙ sym (lt-resized w v (max (level v) (level w)) (omega arith) (omega arith))

pub le-lt : (v w : Version) → le v w ≡ not (lt w v)
unfolding le
le-lt v w =
    cmp-resized (λ a b. not (tie_lt b a)) v w
    ∙ ap not (sym (lt-resized w v (max (level v) (level w)) (omega arith) (omega arith)))

pub ge-lt : (v w : Version) → ge v w ≡ not (lt v w)
unfolding ge
ge-lt v w =
    cmp-resized (λ a b. not (tie_lt a b)) v w
    ∙ ap not (sym (lt-resized v w (max (level v) (level w)) (omega arith) (omega arith)))

-- Two versions are equal exactly when neither is less than the other.
pub eq-lt : (v w : Version) → eq v w ≡ (not (lt v w) && not (lt w v))
eq-lt v w =
    let n = max (level v) (level w) in
    rw
      (
        eq-resized v w n (omega arith) (omega arith),
        lt-resized v w n (omega arith) (omega arith),
        lt-resized w v n (omega arith) (omega arith),
      )
      (tie_beq_lem _ _)

pub lt_irrefl : (v : Version) → lt v v ≡ false
lt_irrefl v = rw (lt-resized v v (level v) (le_refl _) (le_refl _)) (tie_lt_irrefl _)

pub lt_trans : (u v w : Version) → lt u v ≡ true → lt v w ≡ true → lt u w ≡ true
lt_trans u v w h k =
    let n = max (level u) (max (level v) (level w)) in
    rw (lt-resized u w n (omega arith) (omega arith)) (
      tie_lt_trans _ (resized v n) _ (sym (lt-resized u v n (omega arith) (omega arith)) ∙ h)
        (sym (lt-resized v w n (omega arith) (omega arith)) ∙ k))

pub lt_asymm : (v w : Version) → lt v w ≡ true → lt w v ≡ false
lt_asymm v w h = ground (arith, lt_trans v w v, lt_irrefl v)

pub lt_negative_trans : (u v w : Version) → lt u v ≡ false → lt v w ≡ false → lt u w ≡ false
lt_negative_trans u v w h k =
    let n = max (level u) (max (level v) (level w)) in
    rw (lt-resized u w n (omega arith) (omega arith)) (
      tie_lt_negative_trans _ (resized v n) _
        (sym (lt-resized u v n (omega arith) (omega arith)) ∙ h)
        (sym (lt-resized v w n (omega arith) (omega arith)) ∙ k))

-- Version::operator< is a strict weak order: irreflexive, transitive, and `not less` is transitive.
pub lt-IsStrictWeakOrder : IsStrictWeakOrder lt
lt-IsStrictWeakOrder = record {
  irrefl = lt_irrefl;
  trans = lt_trans;
  negative_trans = lt_negative_trans;
}

-- The five comparison operators agree: each is a Boolean combination of operator< of the same two
-- versions, at whatever levels they are written.
pub operators_agree :
    (v w : Version)
    → (gt v w ≡ lt w v)
      × (le v w ≡ not (lt w v))
      × (ge v w ≡ not (lt v w))
      × (eq v w ≡ (not (lt v w) && not (lt w v)))
operators_agree v w = (gt-lt v w, le-lt v w, ge-lt v w, eq-lt v w)
