-- ===== src/Version/Step.antt =====
-- Version::incrementVersion and Version::decrementVersion (src/version/src/version.cpp).
-- `current` walks from the last number to the first: the loops run over the reversed numbers, and
-- a walk past the first number is undefined.
mod Digits
pub mod Successor
pub mod Inverse
pub mod Faults
use primitives.Prelude.{
  List, [], ◌∷◌, reverse, true, false, Outcome, ok, undefined, ◌>>=◌, if◌then◌else◌,
}
use primitives.Prelude.Int.{ℤ, pos, ◌==ℤ◌, increment, decrement}
use primitives.Version.{Version, max_number, minimum, maximum, eq}

unfoldable pub carry : List ℤ → Outcome (List ℤ)
carry [] = undefined
carry (n ∷ ns) = elim (n ==ℤ pos max_number) [
  | true ↦ do rest ← carry ns; ok (pos 0 ∷ rest)
  | false ↦ do m ← increment n; ok (m ∷ ns)
]

unfoldable pub borrow : List ℤ → Outcome (List ℤ)
borrow [] = undefined
borrow (n ∷ ns) = elim (n ==ℤ pos 0) [
  | true ↦ do rest ← borrow ns; ok (pos max_number ∷ rest)
  | false ↦ do m ← decrement n; ok (m ∷ ns)
]

unfoldable pub increment_version : Version → Outcome Version
unfolding carry
increment_version v =
    if eq v maximum
    then ok v
    else do ns ← carry (reverse v.numbers); ok (record v { numbers = reverse ns })

unfoldable pub decrement_version : Version → Outcome Version
unfolding borrow
decrement_version v =
    if eq v minimum
    then ok v
    else do ns ← borrow (reverse v.numbers); ok (record v { numbers = reverse ns })
