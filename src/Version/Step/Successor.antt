-- ===== src/Version/Step/Successor.antt =====
-- operator++ is the successor among the versions of one level.
use mathlib.Core.List.{reverse-reverse}
use primitives.Prelude.{
  ℕ, ◌+◌, ◌≡◌, refl, sym, ◌∙◌, true, not, reverse, arith, length-reverse, All, All-reverse, ltb, ok,
}
use primitives.Prelude.Ord.{list_lt_irrefl, list_lt, int_ord}
use primitives.Version.{value_ord, Version, InRange, level, lt, tie_lt}
use primitives.Version.Order.{lt-resized, resized_self}
use primitives.Version.Order.Ends.{eq-maximum}
use primitives.Version.Step.{increment_version}
use primitives.Version.Step.Digits.{value, has_room, carry_lem, any-reverse, list_lt-value}

-- The number that a version's numbers stand for in base max_number + 1.
abbrev pub version_value : Version → ℕ
version_value v = value (reverse v.numbers)

-- A version in range with a number below the limit has a successor: no undefined behaviour, one more
-- in base 1 000 000 000, the same level and extra part, and in range again.
pub increment_version_lem :
    (v : Version)
    → All InRange v.numbers
    → has_room v.numbers ≡ true
    → (w : Version) × (increment_version v ≡ ok w)
      × (version_value w ≡ version_value v + 1)
      × (level w ≡ level v)
      × (w.extra ≡ v.extra)
      × All InRange w.numbers
unfolding increment_version
increment_version_lem v r h =
    let (ms, c, s, i, l, b) =
      carry_lem (reverse v.numbers) (All-reverse InRange v.numbers r)
        (any-reverse _ v.numbers ∙ h) in
    (
      record v { numbers = reverse ms },
      rw (eq-maximum v r, c),
      rw reverse-reverse s,
      rw length-reverse (l ∙ length-reverse v.numbers),
      refl,
      All-reverse InRange ms i,
    )

tie_lt_same :
    (v w : Version) (m n : ℕ)
    → list_lt v.numbers w.numbers ≡ ltb m n
    → list_lt w.numbers v.numbers ≡ ltb n m
    → v.extra ≡ w.extra
    → tie_lt v w ≡ ltb m n
unfolding tie_lt
tie_lt_same v w m n p q e = rw e (ground (arith, list_lt_irrefl w.extra.values))

-- Versions in range of one level and one extra part are ordered as the numbers that they stand for.
pub lt-version_value :
    (v w : Version)
    → All InRange v.numbers
    → All InRange w.numbers
    → level v ≡ level w
    → v.extra ≡ w.extra
    → lt v w ≡ ltb (version_value v) (version_value w)
lt-version_value v w hv hw l e =
    let order =
      list_lt-value (reverse v.numbers) (reverse w.numbers) (All-reverse InRange v.numbers hv)
        (All-reverse InRange w.numbers hw)
        (length-reverse v.numbers ∙ l ∙ sym (length-reverse w.numbers)) in
    let back =
      list_lt-value (reverse w.numbers) (reverse v.numbers) (All-reverse InRange w.numbers hw)
        (All-reverse InRange v.numbers hv)
        (length-reverse w.numbers ∙ sym l ∙ sym (length-reverse v.numbers)) in
    lt-resized v w (level v) (omega arith) (omega arith)
    ∙ rw (resized_self v (level v) refl, resized_self w (level v) l)
        (tie_lt_same v w _ _ (simp reverse-reverse at order) (simp reverse-reverse at back) e)

-- Among the versions of one level in range, nothing lies between v and v++: for a release v with a
-- successor w, a release u of that level is below w exactly when v is not below u.
pub increment_version_next :
    (v w u : Version)
    → All InRange v.numbers
    → All InRange u.numbers
    → has_room v.numbers ≡ true
    → increment_version v ≡ ok w
    → level u ≡ level v
    → u.extra ≡ v.extra
    → lt u w ≡ not (lt v u)
increment_version_next v w u hv hu room step l e =
    let (w', eq, s, l', e', i) = increment_version_lem v hv room in
    let same : w ≡ w' = cc in
    rw same (
      rw
        (
          lt-version_value u w' hu i (l ∙ sym l') (e ∙ sym e'),
          lt-version_value v u hv hu (sym l) (sym e),
        )
        (ground (arith, s)))
