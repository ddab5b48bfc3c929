-- ===== src/Version/Step/Digits.antt =====
-- Numbers as digits in base max_number + 1, the last one first.
use primitives.Prelude.{
  ◌||◌, ◌-◌, undefined, ℕ, suc, ◌+◌, ◌*◌, ◌≡◌, refl, sym, ap, Bool, true, false, not, List, [], ◌∷◌,
  ◌++◌, reverse, arith, length, length-reverse, any, All, ltb, if◌then◌else◌, ok, Bool-cases, inl,
  inr,
}
use mathlib.Core.List.{reverse-append}
use primitives.Prelude.Int.{ℤ, pos, negsuc, pos_part, ltb_ℤ, ◌==ℤ◌}
use primitives.Prelude.Ord.{list_lt, int_ord}
use primitives.Version.{InRange, max_number}
use primitives.Version.Step.{carry, borrow}

abbrev pub base : ℕ
base = max_number + 1

-- The number that reversed digits stand for.
abbrev pub value : List ℤ → ℕ
value [] = 0
value (n ∷ ns) = pos_part n + base * value ns

-- Some digit can still grow.
abbrev pub has_room : List ℤ → Bool
has_room = any (λ n. not (n ==ℤ pos max_number))

pub carry_lem :
    (ns : List ℤ)
    → All InRange ns
    → has_room ns ≡ true
    → (ms : List ℤ) × (carry ns ≡ ok ms)
      × (value ms ≡ value ns + 1)
      × All InRange ms
      × (length ms ≡ length ns)
      × (borrow ms ≡ ok ns)
unfolding carry borrow
carry_lem [] r h = cc
carry_lem (negsuc k ∷ ns) r h = absurd r.0
carry_lem (pos k ∷ ns) (r, rs) h = elim (Bool-cases (pos k ==ℤ pos max_number)) [
  | inl e ↦
      let (ms, c, v, i, l, b) = carry_lem ns rs (ground arith) in
      (
        pos 0 ∷ ms,
        ground (arith, c),
        ground (arith, v),
        (omega arith, i),
        ap suc l,
        ground (arith, b),
      )
  | inr e ↦ (pos (k + 1) ∷ ns, ground arith, ground arith, (ground arith, rs), refl, ground arith)
]

-- Some digit can still fall.
abbrev pub has_nonzero : List ℤ → Bool
has_nonzero = any (λ n. not (n ==ℤ pos 0))

pub borrow_lem :
    (ns : List ℤ)
    → All InRange ns
    → has_nonzero ns ≡ true
    → (ms : List ℤ) × (borrow ns ≡ ok ms)
      × (value ms + 1 ≡ value ns)
      × All InRange ms
      × (length ms ≡ length ns)
      × (carry ms ≡ ok ns)
unfolding carry borrow
borrow_lem [] r h = cc
borrow_lem (negsuc k ∷ ns) r h = absurd r.0
borrow_lem (pos k ∷ ns) (r, rs) h = elim (Bool-cases (pos k ==ℤ pos 0)) [
  | inl e ↦
      let (ms, c, v, i, l, b) = borrow_lem ns rs (ground arith) in
      (
        pos max_number ∷ ms,
        ground (arith, c),
        ground (arith, v),
        (omega arith, i),
        ap suc l,
        ground (arith, b),
      )
  | inr e ↦ (pos (k - 1) ∷ ns, ground arith, ground arith, (ground arith, rs), refl, ground arith)
]

pub carry_full : (ns : List ℤ) → All (λ n. n ≡ pos max_number) ns → carry ns ≡ undefined
unfolding carry
carry_full [] h = refl
carry_full (n ∷ ns) (e, h) = ground (arith, carry_full ns h)

pub borrow_zero : (ns : List ℤ) → All (λ n. n ≡ pos 0) ns → borrow ns ≡ undefined
unfolding borrow
borrow_zero [] h = refl
borrow_zero (n ∷ ns) (e, h) = ground (arith, borrow_zero ns h)

pub any-append : (p : ℤ → Bool) (xs ys : List ℤ) → any p (xs ++ ys) ≡ (any p xs || any p ys)
any-append p [] ys = refl
any-append p (x ∷ xs) ys = ground (arith, any-append p xs ys)

pub any-reverse : (p : ℤ → Bool) (xs : List ℤ) → any p (reverse xs) ≡ any p xs
any-reverse p [] = refl
any-reverse p (x ∷ xs) =
    rw (reverse-append (x ∷ []) xs, any-append p (reverse xs) (x ∷ []))
      (ground (arith, any-reverse p xs))

list_lt-append :
    (xs ys : List ℤ) (a b : ℤ)
    → length xs ≡ length ys
    → list_lt (xs ++ a ∷ []) (ys ++ b ∷ [])
      ≡ (if list_lt xs ys then true else if list_lt ys xs then false else ltb_ℤ a b)
list_lt-append [] [] a b h = ground arith
list_lt-append [] (y ∷ ys) a b h = absurd (omega arith)
list_lt-append (x ∷ xs) [] a b h = absurd (omega arith)
list_lt-append (x ∷ xs) (y ∷ ys) a b h = ground (arith, list_lt-append xs ys a b)

module _ (x y : ℤ) (hx : InRange x) (hy : InRange y) (m n : ℕ) where
  -- The digit that decides last counts where the others agree.
  ltb-digit :
      ltb (pos_part x + base * m) (pos_part y + base * n)
      ≡ (if ltb m n then true else if ltb n m then false else ltb_ℤ x y)
  ltb-digit = ground arith

list_lt-value_both :
    (xs ys : List ℤ)
    → All InRange xs
    → All InRange ys
    → length xs ≡ length ys
    → (list_lt (reverse xs) (reverse ys) ≡ ltb (value xs) (value ys))
      × (list_lt (reverse ys) (reverse xs) ≡ ltb (value ys) (value xs))
list_lt-value_both [] [] h k e = (refl, refl)
list_lt-value_both [] (y ∷ ys) h k e = absurd (omega arith)
list_lt-value_both (x ∷ xs) [] h k e = absurd (omega arith)
list_lt-value_both (x ∷ xs) (y ∷ ys) (hx, h) (hy, k) e =
    let (p, q) = list_lt-value_both xs ys h k (omega arith) in
    let l : length (reverse xs) ≡ length (reverse ys) =
      omega (arith, length-reverse xs, length-reverse ys) in
    let a = list_lt-append (reverse xs) (reverse ys) x y l in
    let b = list_lt-append (reverse ys) (reverse xs) y x (sym l) in
    rw (reverse-append (x ∷ []) xs, reverse-append (y ∷ []) ys)
      (
        rw (a, p, q) (sym (ltb-digit x y hx hy (value xs) (value ys))),
        rw (b, p, q) (sym (ltb-digit y x hy hx (value ys) (value xs))),
      )

-- Digits of one length are ordered as the numbers that they stand for.
pub list_lt-value :
    (xs ys : List ℤ)
    → All InRange xs
    → All InRange ys
    → length xs ≡ length ys
    → list_lt (reverse xs) (reverse ys) ≡ ltb (value xs) (value ys)
list_lt-value xs ys h k e = (list_lt-value_both xs ys h k e).0
