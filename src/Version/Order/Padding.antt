-- ===== src/Version/Order/Padding.antt =====
-- Zeros behind the numbers do not change a comparison.
use primitives.Prelude.{
  dec_le, false, ℕ, zero, suc, ◌≤◌, ◌≡◌, refl, ap, ◌∙◌, true, List, [], ◌∷◌, arith, length, ◌&&◌,
  if◌then◌else◌,
}
use primitives.Prelude.Int.{ℤ, pos, ltb_ℤ, ◌==ℤ◌}
use primitives.Prelude.Ord.{list_lt, list_beq, int_ord}
use primitives.Version.{resize}

pub resize_self : (xs : List ℤ) → resize xs (length xs) ≡ xs
resize_self [] = refl
resize_self (x ∷ xs) = ap (λ t. x ∷ t) (resize_self xs)

module _ {ℓ} {B : Type ℓ} (f : List ℤ → List ℤ → B) where
  -- Two comparisons that agree one step apart agree at every length.
  stable :
      (xs ys : List ℤ) (n : ℕ)
      → ((m : ℕ)
          → n ≤ m
          → f (resize xs (suc m)) (resize ys (suc m)) ≡ f (resize xs m) (resize ys m))
      → (k : ℕ) → n ≤ k
      → f (resize xs k) (resize ys k) ≡ f (resize xs n) (resize ys n)
  stable xs ys n step zero h = let e : n ≡ 0 = omega arith in rw e
  stable xs ys n step (suc k) h = elim (dec_le n k) [
    | yes p ↦ step k p ∙ stable xs ys n step k p
    | no p ↦ let e : n ≡ suc k = omega arith in rw e
  ]

list_lt_step :
    (n : ℕ) (xs ys : List ℤ)
    → length xs ≤ n
    → length ys ≤ n
    → list_lt (resize xs (suc n)) (resize ys (suc n)) ≡ list_lt (resize xs n) (resize ys n)
list_lt_step zero [] [] h k = refl
list_lt_step zero [] (y ∷ ys) h k = absurd (omega arith)
list_lt_step zero (x ∷ xs) ys h k = absurd (omega arith)
list_lt_step (suc n) [] [] h k = list_lt_step n [] [] (omega arith) (omega arith)
list_lt_step (suc n) [] (y ∷ ys) h k =
    ap (λ b. if ltb_ℤ (pos 0) y then true else if ltb_ℤ y (pos 0) then false else b)
      (list_lt_step n [] ys (omega arith) (omega arith))
list_lt_step (suc n) (x ∷ xs) [] h k = ground (arith, list_lt_step n xs [])
list_lt_step (suc n) (x ∷ xs) (y ∷ ys) h k = ground (arith, list_lt_step n xs ys)

list_beq_step :
    (n : ℕ) (xs ys : List ℤ)
    → length xs ≤ n
    → length ys ≤ n
    → list_beq (resize xs (suc n)) (resize ys (suc n)) ≡ list_beq (resize xs n) (resize ys n)
list_beq_step zero [] [] h k = refl
list_beq_step zero [] (y ∷ ys) h k = absurd (omega arith)
list_beq_step zero (x ∷ xs) ys h k = absurd (omega arith)
list_beq_step (suc n) [] [] h k = list_beq_step n [] [] (omega arith) (omega arith)
list_beq_step (suc n) [] (y ∷ ys) h k =
    ap (λ b. (pos 0 ==ℤ y) && b) (list_beq_step n [] ys (omega arith) (omega arith))
list_beq_step (suc n) (x ∷ xs) [] h k = ground (arith, list_beq_step n xs [])
list_beq_step (suc n) (x ∷ xs) (y ∷ ys) h k = ground (arith, list_beq_step n xs ys)

module _ (xs ys : List ℤ) (n : ℕ) (hx : length xs ≤ n) (hy : length ys ≤ n) (k : ℕ)
    (le : n ≤ k) where
  pub list_lt-resize : list_lt (resize xs k) (resize ys k) ≡ list_lt (resize xs n) (resize ys n)
  list_lt-resize =
      stable (λ a b. list_lt a b) xs ys n (λ m h. list_lt_step m xs ys (omega arith) (omega arith))
        k le

  pub list_beq-resize : list_beq (resize xs k) (resize ys k) ≡ list_beq (resize xs n) (resize ys n)
  list_beq-resize =
      stable (λ a b. list_beq a b) xs ys n
        (λ m h. list_beq_step m xs ys (omega arith) (omega arith)) k le
