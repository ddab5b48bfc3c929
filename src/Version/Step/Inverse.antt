-- ===== src/Version/Step/Inverse.antt =====
-- operator-- undoes operator++, and the other way round.
use mathlib.Core.List.{reverse-reverse}
use primitives.Prelude.Int.{ℤ, pos, ◌==ℤ◌}
use primitives.Prelude.{
  ◌<◌, ◌≡◌, refl, ◌∙◌, true, false, not, List, [], ◌∷◌, reverse, arith, All, All-reverse, ok, ◌>>=◌,
}
use primitives.Version.{ℤ, Version, InRange}
use primitives.Version.Order.Ends.{eq-maximum, eq-minimum, all_zero}
use primitives.Version.Step.{carry, borrow, increment_version, decrement_version}
use primitives.Version.Step.Digits.{
  value, has_room, has_nonzero, carry_lem, borrow_lem, any-reverse,
}

all_zero-has_nonzero : (xs : List ℤ) → has_nonzero xs ≡ not (all_zero xs)
all_zero-has_nonzero [] = refl
all_zero-has_nonzero (x ∷ xs) = ground (arith, all_zero-has_nonzero xs)

nonzero_of_value : (xs : List ℤ) → 0 < value xs → has_nonzero xs ≡ true
nonzero_of_value [] h = absurd (omega arith)
nonzero_of_value (x ∷ xs) h = ground (arith, nonzero_of_value xs)

module _ (v : Version) (ms : List ℤ) where
  carried_back :
      carry (reverse v.numbers) ≡ ok ms
      → borrow ms ≡ ok (reverse v.numbers)
      → All InRange v.numbers
      → 0 < value ms
      → (increment_version v >>= decrement_version) ≡ ok v
  unfolding increment_version decrement_version
  carried_back c b r s =
      let nz : all_zero (reverse ms) ≡ false = ground (
        arith,
        all_zero-has_nonzero (reverse ms),
        any-reverse (λ n. not (n ==ℤ pos 0)) ms,
        nonzero_of_value ms s,
      ) in
      rw (eq-maximum v r, c) (rw (eq-minimum, nz, reverse-reverse) (rw (b, reverse-reverse)))

  borrowed_back :
      borrow (reverse v.numbers) ≡ ok ms
      → carry ms ≡ ok (reverse v.numbers)
      → has_nonzero v.numbers ≡ true
      → All InRange ms
      → (decrement_version v >>= increment_version) ≡ ok v
  unfolding increment_version decrement_version
  borrowed_back b c h i =
      let nz : all_zero v.numbers ≡ false = ground (arith, all_zero-has_nonzero v.numbers) in
      rw (eq-minimum, nz, b)
        (rw
          (
            eq-maximum (record v { numbers = reverse ms }) (All-reverse InRange ms i),
            reverse-reverse,
          )
          (rw (c, reverse-reverse)))

-- A version in range with a number below the limit: incremented, then decremented, it is itself.
pub decrement-increment :
    (v : Version)
    → All InRange v.numbers
    → has_room v.numbers ≡ true
    → (increment_version v >>= decrement_version) ≡ ok v
decrement-increment v r h =
    let (ms, c, s, i, l, b) =
      carry_lem (reverse v.numbers) (All-reverse InRange v.numbers r)
        (any-reverse _ v.numbers ∙ h) in
    carried_back v ms c b r (omega arith)

-- A version in range with a number that is not zero: decremented, then incremented, it is itself.
pub increment-decrement :
    (v : Version)
    → All InRange v.numbers
    → has_nonzero v.numbers ≡ true
    → (decrement_version v >>= increment_version) ≡ ok v
increment-decrement v r h =
    let (ms, c, s, i, l, b) =
      borrow_lem (reverse v.numbers) (All-reverse InRange v.numbers r)
        (any-reverse _ v.numbers ∙ h) in
    borrowed_back v ms c b h i
