-- ===== src/Base/Bits.antt =====
-- Shifts, masks and disjoint fields of bytes as arithmetic, by trying the bytes, for base_raw of
-- src/templates2/include/primitives/templates2/base64.h.
use Prim.Native.Nat.{bit_and, bit_or, bit_or-bitwise}
use primitives.Prelude.{
  ◌-◌, ℕ, zero, suc, ◌+◌, ◌*◌, ◌%◌, ◌<◌, ◌≡◌, refl, Bool, true, ◌&&◌, arith, ◌==◌, Bool-cases, inl,
  inr,
}

-- p holds of every number below n.
abbrev pub below : ℕ → (ℕ → Bool) → Bool
below zero p = true
below (suc n) p = p n && below n p

pub below_lem : (n : ℕ) (p : ℕ → Bool) → below n p ≡ true → (i : ℕ) → i < n → p i ≡ true
below_lem zero p h i l = absurd (omega arith)
below_lem (suc n) p h i l = elim (Bool-cases (i == n)) [
  | inl y ↦ let q : i ≡ n = ground (arith, y) in rw q (ground (arith, h))
  | inr y ↦ below_lem n p (ground (arith, h)) i (ground (arith, y))
]

pub equal : (a b : ℕ) → (a == b) ≡ true → a ≡ b
equal a b h = ground arith

-- The two fields that share a byte, the lower one having w values of the m.
tried : ℕ → ℕ → Bool
tried n w = below n (λ q. below w (λ r. bit_or (q * w) r == q * w + r))

field_or : (n w : ℕ) → tried n w ≡ true → (q r : ℕ) → q < n → r < w → bit_or (q * w) r ≡ q * w + r
unfolding tried
field_or n w h q r a b = equal (bit_or (q * w) r) (q * w + r) (
    below_lem w (λ r. bit_or (q * w) r == q * w + r)
      (below_lem n (λ q. below w (λ r. bit_or (q * w) r == q * w + r)) h q a) r b)

pub or_by_4 : (q r : ℕ) → q < 64 → r < 4 → bit_or (q * 4) r ≡ q * 4 + r
unfolding tried
or_by_4 = field_or 64 4 refl

pub or_by_16 : (q r : ℕ) → q < 16 → r < 16 → bit_or (q * 16) r ≡ q * 16 + r
unfolding tried
or_by_16 = field_or 16 16 refl

pub or_by_64 : (q r : ℕ) → q < 4 → r < 64 → bit_or (q * 64) r ≡ q * 64 + r
unfolding tried
or_by_64 = field_or 4 64 refl

pub bit_or-zero_left : (a : ℕ) → bit_or 0 a ≡ a
bit_or-zero_left a = simp bit_or-bitwise refl

masked : ℕ → Bool
masked w = below 256 (λ a. bit_and a (w - 1) == a % w)

mask : (w : ℕ) → masked w ≡ true → (a : ℕ) → a < 256 → bit_and a (w - 1) ≡ a % w
unfolding masked
mask w h a l =
    equal (bit_and a (w - 1)) (a % w) (below_lem 256 (λ a. bit_and a (w - 1) == a % w) h a l)

pub and_3 : (a : ℕ) → a < 256 → bit_and a 3 ≡ a % 4
unfolding masked
and_3 = mask 4 refl

pub and_15 : (a : ℕ) → a < 256 → bit_and a 15 ≡ a % 16
unfolding masked
and_15 = mask 16 refl

pub and_63 : (a : ℕ) → a < 256 → bit_and a 63 ≡ a % 64
unfolding masked
and_63 = mask 64 refl
