-- ===== src/Future/Tally.antt =====
-- How many futures of a list are set (src/executor/include/primitives/executor.h).
use primitives.Prelude.{
  Bool-cases, inl, inr, ℕ, ◌+◌, ◌≤◌, ◌≡◌, ◌↔◌, refl, Bool, true, false, List, [], ◌∷◌, length,
  arith, ◌==◌, All, if◌then◌else◌, any,
}
use primitives.Future.{Memory, all_set}

abbrev pub one_set : Memory → ℕ → ℕ
one_set m f = if (m.states f).set then 1 else 0

abbrev pub count_set : List ℕ → Memory → ℕ
count_set [] m = 0
count_set (f ∷ fs) m = one_set m f + count_set fs m

abbrev pub mem : ℕ → List ℕ → Bool
mem f fs = any (λ g. g == f) fs

abbrev pub IsDistinct : List ℕ → Type 0
IsDistinct [] = Unit
IsDistinct (f ∷ fs) = (mem f fs ≡ false) × IsDistinct fs

pub count_set_le : (fs : List ℕ) (m : Memory) → count_set fs m ≤ length fs
count_set_le [] m = omega arith
count_set_le (f ∷ fs) m = ground (arith, count_set_le fs m)

-- Every future is set just when as many are as there are.
pub count_set_iff :
    (fs : List ℕ) (m : Memory) → (all_set fs m ≡ true) ↔ (count_set fs m ≡ length fs)
count_set_iff [] m = ground arith
count_set_iff (f ∷ fs) m = ground (arith, count_set_iff fs m, count_set_le fs m)

one_set-same : (g : ℕ) (m n : Memory) → n.states g ≡ m.states g → one_set n g ≡ one_set m g
one_set-same g m n e = rw e

count_set-same :
    (f : ℕ) (fs : List ℕ) (m n : Memory)
    → mem f fs ≡ false
    → All (λ g. (g == f) ≡ false → n.states g ≡ m.states g) fs
    → count_set fs n ≡ count_set fs m
count_set-same f [] m n h e = refl
count_set-same f (g ∷ fs) m n h (e, es) =
    let x : (g == f) ≡ false = ground arith in
    let y : mem f fs ≡ false = ground arith in
    omega (arith, one_set-same g m n (e x), count_set-same f fs m n y es)

pub count_set-new :
    (f : ℕ) (fs : List ℕ) (m n : Memory)
    → IsDistinct fs
    → mem f fs ≡ true
    → (m.states f).set ≡ false
    → (n.states f).set ≡ true
    → All (λ g. (g == f) ≡ false → n.states g ≡ m.states g) fs
    → count_set fs n ≡ count_set fs m + 1
count_set-new f [] m n d h a b e = cc
count_set-new f (g ∷ fs) m n (d, ds) h a b (e, es) = elim (Bool-cases (g == f)) [
  | inl x ↦
      let q : g ≡ f = ground (arith, x) in
      let y : mem f fs ≡ false = rw⁻¹ q d in
      let za : one_set m g ≡ 0 = rw (q, a) in
      let zb : one_set n g ≡ 1 = rw (q, b) in omega (arith, za, zb, count_set-same f fs m n y es)
  | inr x ↦
      let y : mem f fs ≡ true = ground arith in
      omega (arith, one_set-same g m n (e x), count_set-new f fs m n ds y a b es)
]
