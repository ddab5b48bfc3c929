-- ===== src/Version/Print/Spelling.antt =====
-- What the printing loops write: the parts with a separator between two.
use mathlib.Core.List.{append_assoc}
use primitives.Prelude.{
  ℕ, zero, suc, ◌-◌, ◌≡◌, refl, sym, ap, ◌∙◌, List, [], ◌∷◌, ◌++◌, append-nil, arith, Bytes, All,
  All-append, length, length-append, take, replicate, take-append-drop,
}
use primitives.Prelude.Int.{ℤ, pos}
use primitives.Prelude.Decimal.{to_string}
use primitives.Version.{Version, Extra, Value, level, real_level}
use primitives.Version.RealLevel.{real_level_zeros}
use primitives.Version.Print.{
  dot, chop, print_value, print_values, print_extra, print_numbers, print_zeros, print_version,
}

module _ {ℓ} {A : Type ℓ} (print : A → Bytes) where
  -- The parts with a dot between two.
  abbrev pub spelled : List A → Bytes
  spelled [] = []
  spelled (a ∷ []) = print a
  spelled (a ∷ b ∷ more) = print a ++ (b'.' ∷ spelled (b ∷ more))

  -- The parts, each with the delimeter behind it.
  abbrev behind : Bytes → List A → Bytes
  behind d [] = []
  behind d (a ∷ more) = print a ++ (d ++ behind d more)

  behind-append : (d : Bytes) (xs ys : List A) → behind d (xs ++ ys) ≡ behind d xs ++ behind d ys
  behind-append d [] ys = refl
  behind-append d (x ∷ xs) ys = simp (behind-append d xs ys, append_assoc)

  behind-spelled : (a : A) (more : List A) → behind dot (a ∷ more) ≡ spelled (a ∷ more) ++ dot
  behind-spelled a [] = refl
  behind-spelled a (b ∷ more) =
      simp append_assoc (ap (λ t. print a ++ (b'.' ∷ t)) (behind-spelled b more))

  pub All-spelled {κ} :
      (P : ℕ → Type κ) (xs : List A) → P b'.' → All (λ a. All P (print a)) xs → All P (spelled xs)
  All-spelled P [] d h = tt
  All-spelled P (a ∷ []) d (h, hs) = h
  All-spelled P (a ∷ b ∷ more) d (h, hs) =
      All-append P (print a) _ h (d, All-spelled P (b ∷ more) d hs)

take-length : (s d : Bytes) → take (length s) (s ++ d) ≡ s
take-length [] d = refl
take-length (c ∷ s) d = ap (λ t. c ∷ t) (take-length s d)

chop-append : (s d : Bytes) → chop (s ++ d) (length d) ≡ s
chop-append s d =
    let e : length (s ++ d) - length d ≡ length s = omega (arith, length-append s d) in
    rw e (take-length s d)

-- The guard against an empty text changes nothing.
chopped : (s : Bytes) (k : ℕ) → (elim s [ [] ↦ [] | c ∷ t ↦ chop (c ∷ t) k ]) ≡ chop s k
chopped [] k = let e : 0 - k ≡ 0 = omega arith in rw e
chopped (c ∷ s) k = refl

print_values-behind :
    (es : List Value) (s : Bytes) → print_values es s ≡ s ++ behind print_value dot es
unfolding print_values
print_values-behind [] s = sym (append-nil s)
print_values-behind (e ∷ es) s = simp (print_values-behind es, append_assoc)

print_numbers-behind :
    (ns : List ℤ) (r : ℕ) (d s : Bytes)
    → print_numbers ns r d s ≡ s ++ behind to_string d (take r ns)
unfolding print_numbers
print_numbers-behind ns zero d s = sym (append-nil s)
print_numbers-behind [] (suc r) d s = sym (append-nil s)
print_numbers-behind (n ∷ ns) (suc r) d s = simp (print_numbers-behind ns r, append_assoc)

print_zeros-behind :
    (k : ℕ) (d s : Bytes) → print_zeros k d s ≡ s ++ behind to_string d (replicate k (pos 0))
unfolding print_zeros
print_zeros-behind zero d s = sym (append-nil s)
print_zeros-behind (suc k) d s = simp (print_zeros-behind k, append_assoc)

spelled-chop {ℓ} :
    {A : Type ℓ} (print : A → Bytes) (xs : List A) → chop (behind print dot xs) 1 ≡ spelled print xs
spelled-chop print [] = refl
spelled-chop print (x ∷ xs) = rw (behind-spelled print x xs) (chop-append _ dot)

-- At its own level a version is its numbers, the zeros at the end included, with dots between.
pub print_version-spelled :
    (v : Version) → print_version v dot (level v) ≡ spelled to_string v.numbers
unfolding print_version
print_version-spelled v =
    let (le, zs) = real_level_zeros v in
    let whole : take (real_level v) v.numbers ++ replicate (level v - real_level v) (pos 0)
        ≡ v.numbers =
      ap (λ t. take (real_level v) v.numbers ++ t) (sym zs)
      ∙ take-append-drop (real_level v) v.numbers in
    chopped
      (print_zeros (level v - real_level v) dot (print_numbers v.numbers (real_level v) dot [])) 1
    ∙ rw (print_zeros-behind, print_numbers-behind)
        (rw
          (
            ← behind-append to_string dot (take (real_level v) v.numbers)
                (replicate (level v - real_level v) (pos 0)),
            whole,
          )
          (spelled-chop to_string v.numbers))

pub print_extra-spelled : (e : Extra) → print_extra e ≡ spelled print_value e.values
unfolding print_extra
print_extra-spelled e =
    chopped (print_values e.values []) 1
    ∙ rw print_values-behind (spelled-chop print_value e.values)
