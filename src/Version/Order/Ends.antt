-- ===== src/Version/Order/Ends.antt =====
-- Which versions equal Version::min() and Version::max().
use mathlib.Core.Path.{ap₂}
use primitives.Prelude.{
  All, ◌+◌, ℕ, zero, suc, ◌≤◌, ◌≡◌, refl, Bool, false, ◌&&◌, List, [], ◌∷◌, arith, length, all, ◌∙◌,
}
use primitives.Prelude.Int.{ℤ, pos, negsuc, ◌==ℤ◌}
use primitives.Prelude.Ord.{list_beq, int_ord}
use primitives.Version.{
  value_ord, InRange, Value, Version, Extra, level, resize, resized, eq, is_empty, minimum, maximum,
  tie_beq, extra_beq, no_extra, max_number,
}
use primitives.Version.Order.{eq-resized}

abbrev pub all_zero : List ℤ → Bool
all_zero = all (λ n. n ==ℤ pos 0)

list_beq-zeros :
    (xs : List ℤ) (n : ℕ) → length xs ≤ n → list_beq (resize xs n) (resize [] n) ≡ all_zero xs
list_beq-zeros [] zero h = refl
list_beq-zeros (x ∷ xs) zero h = absurd (omega arith)
list_beq-zeros [] (suc n) h = list_beq-zeros [] n (omega arith)
list_beq-zeros (x ∷ xs) (suc n) h = ground (arith, list_beq-zeros xs n)

list_beq-nil : (xs : List Value) → list_beq xs [] ≡ is_empty (record { values = xs })
unfolding is_empty
list_beq-nil [] = refl
list_beq-nil (x ∷ xs) = refl

first_differs :
    (xs : List ℤ) (n : ℕ) (e : Extra)
    → All InRange xs
    → (list_beq (resize xs (suc n)) (resize (pos (max_number + 1) ∷ []) (suc n))
        && extra_beq e no_extra)
      ≡ false
first_differs [] n e h = ground arith
first_differs (negsuc k ∷ xs) n e h = absurd h.0
first_differs (pos k ∷ xs) n e (h, hs) = ground arith

-- Exactly the versions with zeros only (or no number at all) and no extra part equal min().
pub eq-minimum : (v : Version) → eq v minimum ≡ (all_zero v.numbers && is_empty v.extra)
unfolding minimum
eq-minimum v =
    eq-resized v minimum (suc (level v)) (omega arith) (omega arith)
    ∙ unfold tie_beq resized in
      ap₂ (λ a b. a && b) (list_beq-zeros v.numbers (suc (level v)) (omega arith))
        (list_beq-nil v.extra.values)

-- A version whose first number is in range is not max().
pub eq-maximum : (v : Version) → All InRange v.numbers → eq v maximum ≡ false
unfolding maximum
eq-maximum v h =
    eq-resized v maximum (suc (level v)) (omega arith) (omega arith)
    ∙ unfold tie_beq resized in first_differs v.numbers (level v) v.extra h
