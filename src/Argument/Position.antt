-- ===== src/Argument/Position.antt =====
-- The order of positions: zeros behind a position do not count.
use primitives.Prelude.{
  ℕ, zero, suc, ◌≤◌, ◌≡◌, refl, sym, ◌∙◌, true, false, List, [], ◌∷◌, arith, length, max,
  Bool-cases, inl, inr, ◌==◌,
}
use primitives.Prelude.Int.{ℤ}
use primitives.Prelude.Ord.{
  lt_asymm, list_ord, list_lt, list_lt_irrefl, list_lt_trans, list_lt_total, int_ord,
}
use primitives.Version.{resize}
use primitives.Version.Order.{IsStrictWeakOrder}
use primitives.Argument.{rest_greater, rest_less, position_compare, position_lt}

abbrev filled : ℕ → List ℤ → List ℤ
filled n xs = resize xs n

rest_greater_padded :
    (n : ℕ) (ys : List ℤ) → length ys ≤ n → rest_greater ys ≡ list_lt (filled n []) (filled n ys)
unfolding rest_greater
rest_greater_padded n [] h = sym (list_lt_irrefl (filled n []))
rest_greater_padded zero (y ∷ ys) h = absurd (omega arith)
rest_greater_padded (suc n) (y ∷ ys) h = ground (arith, rest_greater_padded n ys)

rest_less_padded :
    (n : ℕ) (xs : List ℤ) → length xs ≤ n → rest_less xs ≡ list_lt (filled n xs) (filled n [])
unfolding rest_less
rest_less_padded n [] h = sym (list_lt_irrefl (filled n []))
rest_less_padded zero (x ∷ xs) h = absurd (omega arith)
rest_less_padded (suc n) (x ∷ xs) h = ground (arith, rest_less_padded n xs)

position_compare_padded :
    (n : ℕ) (xs ys : List ℤ)
    → length xs ≤ n
    → length ys ≤ n
    → position_compare xs ys ≡ list_lt (filled n xs) (filled n ys)
unfolding position_compare
position_compare_padded n [] [] h k = sym (list_lt_irrefl (filled n []))
position_compare_padded n [] (y ∷ ys) h k = rest_greater_padded n (y ∷ ys) k
position_compare_padded n (x ∷ xs) [] h k = rest_less_padded n (x ∷ xs) h
position_compare_padded zero (x ∷ xs) (y ∷ ys) h k = absurd (omega arith)
position_compare_padded (suc n) (x ∷ xs) (y ∷ ys) h k =
    ground (arith, position_compare_padded n xs ys)

same_length : (xs ys : List ℤ) → length xs ≡ length ys → list_lt xs ys ≡ position_compare xs ys
unfolding position_compare
same_length [] [] e = refl
same_length [] (y ∷ ys) e = absurd (omega arith)
same_length (x ∷ xs) [] e = absurd (omega arith)
same_length (x ∷ xs) (y ∷ ys) e = ground (arith, same_length xs ys)

-- The order of two positions is that of their numbers with zeros behind them, up to any length that
-- both fit: 1, 2 and 1, 2, 0 are one position.
pub position_lt_padded :
    (xs ys : List ℤ) (n : ℕ)
    → length xs ≤ n
    → length ys ≤ n
    → position_lt xs ys ≡ list_lt (resize xs n) (resize ys n)
unfolding position_lt
position_lt_padded xs ys n h k = elim (Bool-cases (length xs == length ys)) [
  | inl e ↦ rw e (same_length xs ys (ground arith) ∙ position_compare_padded n xs ys h k)
  | inr e ↦ rw e (position_compare_padded n xs ys h k)
]

module _ (xs ys zs : List ℤ) where
  abbrev longest : ℕ
  longest = max (length xs) (max (length ys) (length zs))

  abbrev xs' : List ℤ
  xs' = resize xs longest

  abbrev ys' : List ℤ
  ys' = resize ys longest

  abbrev zs' : List ℤ
  zs' = resize zs longest

  xs-ys : position_lt xs ys ≡ list_lt xs' ys'
  xs-ys = position_lt_padded xs ys longest (omega arith) (omega arith)

  ys-zs : position_lt ys zs ≡ list_lt ys' zs'
  ys-zs = position_lt_padded ys zs longest (omega arith) (omega arith)

  xs-zs : position_lt xs zs ≡ list_lt xs' zs'
  xs-zs = position_lt_padded xs zs longest (omega arith) (omega arith)

  position_lt_trans : position_lt xs ys ≡ true → position_lt ys zs ≡ true → position_lt xs zs ≡ true
  position_lt_trans h k = xs-zs ∙ list_lt_trans xs' ys' zs' (sym xs-ys ∙ h) (sym ys-zs ∙ k)

  position_lt_negative_trans :
      position_lt xs ys ≡ false → position_lt ys zs ≡ false → position_lt xs zs ≡ false
  position_lt_negative_trans h k =
      let a = sym xs-ys ∙ h in
      let b = sym ys-zs ∙ k in
      xs-zs
      ∙ ground (
        arith,
        list_lt_total xs' ys',
        list_lt_total ys' zs',
        list_lt_irrefl xs',
        list_lt_irrefl zs',
        lt_asymm xs' zs',
        lt_asymm zs' xs',
        list_lt_trans zs' ys' xs',
      )

-- ArgumentPosition::operator< is a strict weak order, as std::sort and ordered containers need.
pub position_lt-IsStrictWeakOrder : IsStrictWeakOrder position_lt
position_lt-IsStrictWeakOrder = record {
  irrefl = λ xs.
      position_lt_padded xs xs (length xs) (omega arith) (omega arith)
      ∙ list_lt_irrefl (resize xs (length xs));
  trans = position_lt_trans;
  negative_trans = position_lt_negative_trans;
}
