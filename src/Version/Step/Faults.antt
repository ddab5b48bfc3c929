-- ===== src/Version/Step/Faults.antt =====
-- Where the walks leave the numbers: operator++ and operator-- on versions at the ends.
use primitives.Prelude.{◌≡◌, refl, true, false, List, [], ◌∷◌, arith, All, All-reverse, undefined}
use primitives.Prelude.Int.{ℤ, pos}
use primitives.Version.{Version, InRange, is_empty, max_number}
use primitives.Version.Order.Ends.{eq-maximum, eq-minimum, all_zero}
use primitives.Version.Step.{increment_version, decrement_version}
use primitives.Version.Step.Digits.{carry_full, borrow_zero}

all_zero_lem : (xs : List ℤ) → All (λ n. n ≡ pos 0) xs → all_zero xs ≡ true
all_zero_lem [] h = refl
all_zero_lem (x ∷ xs) (e, h) = ground (arith, all_zero_lem xs h)

full-InRange : (xs : List ℤ) → All (λ n. n ≡ pos max_number) xs → All InRange xs
full-InRange [] h = tt
full-InRange (x ∷ xs) (e, h) = (rw e (omega arith), full-InRange xs h)

-- Incrementing a version whose numbers all equal the limit, or that has no number, writes before the
-- first number: the guard of incrementVersion only stops at Version::max().
pub increment_version_full :
    (v : Version) → All (λ n. n ≡ pos max_number) v.numbers → increment_version v ≡ undefined
unfolding increment_version
increment_version_full v h =
    rw (eq-maximum v (full-InRange v.numbers h), carry_full _ (All-reverse _ v.numbers h))

-- Decrementing a version of zeros that has an extra part writes before the first number: the guard of
-- decrementVersion compares the extra part too, and min() has none.
pub decrement_version_zero :
    (v : Version)
    → All (λ n. n ≡ pos 0) v.numbers
    → is_empty v.extra ≡ false
    → decrement_version v ≡ undefined
unfolding decrement_version
decrement_version_zero v h e =
    rw (eq-minimum, all_zero_lem v.numbers h, e, borrow_zero _ (All-reverse _ v.numbers h))
