-- ===== src/Version/RealLevel.antt =====
-- Version::getRealLevel: the level with the zeros at the end left out, and Version::get.
use mathlib.Core.List.{reverse-append, reverse-reverse}
use mathlib.Core.Path.{subst⁻¹}
use primitives.Prelude.{
  length-append, ℕ, zero, suc, ◌+◌, ◌-◌, ◌<◌, ◌≤◌, ◌≡◌, ◌≢◌, refl, sym, ap, ◌∙◌, ◌⊎◌, inl, inr,
  true, false, List, [], ◌∷◌, ◌++◌, reverse, arith, length, length-reverse, drop, replicate, get_or,
  Bool-cases, ok, ltb,
}
use primitives.Prelude.Int.{==ℤ_iff, ℤ, pos, ◌==ℤ◌}
use primitives.Version.{Version, level, real_level, real_from, subscript, get}

module _ {ℓ} {A : Type ℓ} where
  pub drop-append : (n : ℕ) (xs ys : List A) → n ≤ length xs → drop n (xs ++ ys) ≡ drop n xs ++ ys
  drop-append zero xs ys h = refl
  drop-append (suc n) [] ys h = absurd (omega arith)
  drop-append (suc n) (x ∷ xs) ys h = drop-append n xs ys (omega arith)

  pub drop_all : (xs : List A) → drop (length xs) xs ≡ []
  drop_all [] = refl
  drop_all (x ∷ xs) = drop_all xs

  pub replicate_last : (n : ℕ) (a : A) → replicate n a ++ a ∷ [] ≡ replicate (suc n) a
  replicate_last zero a = refl
  replicate_last (suc n) a = ap (λ t. a ∷ t) (replicate_last n a)

-- From the real level on there are only zeros.
abbrev pub ZerosFrom : ℕ → List ℤ → Type 0
ZerosFrom r ns = (r ≤ length ns) × (drop r ns ≡ replicate (length ns - r) (pos 0))

snoc_zeros : (r : ℕ) (ns : List ℤ) → ZerosFrom r ns → ZerosFrom r (ns ++ pos 0 ∷ [])
snoc_zeros r ns (h, z) =
    let l : length (ns ++ pos 0 ∷ []) ≡ length ns + 1 = length-append ns (pos 0 ∷ []) in
    let e : length (ns ++ pos 0 ∷ []) - r ≡ suc (length ns - r) = omega arith in
    (
      omega arith,
      rw (drop-append r ns (pos 0 ∷ []) h, z, e) (replicate_last (length ns - r) (pos 0)),
    )

all_kept : (ns : List ℤ) → ZerosFrom (length ns) ns
all_kept ns = let e : length ns - length ns ≡ 0 = omega arith in (omega arith, rw (drop_all, e))

real_from-zero :
    (n : ℤ) (rs : List ℤ) (l : ℕ)
    → (n ==ℤ pos 0) ≡ true
    → real_from (n ∷ rs) (suc l) ≡ real_from rs l
unfolding real_from
real_from-zero n rs l h = let e : suc l - 1 ≡ l = omega arith in rw e (ground arith)

real_from-ne_zero : (n : ℤ) (rs : List ℤ) (l : ℕ) → (n ==ℤ pos 0) ≡ false → real_from (n ∷ rs) l ≡ l
unfolding real_from
real_from-ne_zero n rs l h = ground arith

real_from_zeros : (rs : List ℤ) → ZerosFrom (real_from rs (length rs)) (reverse rs)
unfolding real_from
real_from_zeros [] = (omega arith, refl)
real_from_zeros (n ∷ rs) = elim (Bool-cases (n ==ℤ pos 0)) [
  | inl e ↦
      let z : n ≡ pos 0 = (==ℤ_iff n (pos 0)).0 e in
      subst⁻¹ (λ r. ZerosFrom r (reverse (n ∷ rs))) (real_from-zero n rs (length rs) e)
        (rw (reverse-append (n ∷ []) rs, z) (snoc_zeros _ (reverse rs) (real_from_zeros rs)))
  | inr e ↦
      subst⁻¹ (λ r. ZerosFrom r (reverse (n ∷ rs)))
        (real_from-ne_zero n rs (suc (length rs)) e ∙ sym (length-reverse (n ∷ rs)))
        (all_kept (reverse (n ∷ rs)))
]

-- The numbers behind the real level are zeros.
pub real_level_zeros : (v : Version) → ZerosFrom (real_level v) v.numbers
unfolding real_level
real_level_zeros v =
    let h = real_from_zeros (reverse v.numbers) in rw (length-reverse, reverse-reverse) at h

get_or-append :
    (xs ys : List ℤ) (i : ℕ) → i < length xs → get_or (xs ++ ys) i (pos 0) ≡ get_or xs i (pos 0)
get_or-append [] ys i h = absurd (omega arith)
get_or-append (x ∷ xs) ys zero h = refl
get_or-append (x ∷ xs) ys (suc i) h = get_or-append xs ys i (omega arith)

get_or_last : (xs : List ℤ) (n : ℤ) → get_or (xs ++ n ∷ []) (length xs) (pos 0) ≡ n
get_or_last [] n = refl
get_or_last (x ∷ xs) n = get_or_last xs n

-- The level r is 0, or the number at it is not zero.
abbrev pub LastAt : ℕ → List ℤ → Type 0
LastAt r ns = (r ≡ 0) ⊎ (get_or ns (r - 1) (pos 0) ≢ pos 0)

snoc_last : (r : ℕ) (ns : List ℤ) (n : ℤ) → r ≤ length ns → LastAt r ns → LastAt r (ns ++ n ∷ [])
snoc_last r ns n h (inl e) = inl e
snoc_last zero ns n h (inr e) = inl refl
snoc_last (suc r) ns n h (inr e) = inr (rw (get_or-append ns (n ∷ []) (suc r - 1) (omega arith)) e)

last_ne :
    (n : ℤ) (rs : List ℤ)
    → (n ==ℤ pos 0) ≡ false
    → get_or (reverse rs ++ n ∷ []) (suc (length rs) - 1) (pos 0) ≢ pos 0
last_ne n rs e =
    let l : suc (length rs) - 1 ≡ length (reverse rs) = omega (arith, length-reverse rs) in
    rw (l, get_or_last (reverse rs) n) (ground arith)

real_from_last : (rs : List ℤ) → LastAt (real_from rs (length rs)) (reverse rs)
unfolding real_from
real_from_last [] = inl refl
real_from_last (n ∷ rs) = elim (Bool-cases (n ==ℤ pos 0)) [
  | inl e ↦
      subst⁻¹ (λ r. LastAt r (reverse (n ∷ rs))) (real_from-zero n rs (length rs) e)
        (rw (reverse-append (n ∷ []) rs)
          (snoc_last _ (reverse rs) n (real_from_zeros rs).0 (real_from_last rs)))
  | inr e ↦
      subst⁻¹ (λ r. LastAt r (reverse (n ∷ rs))) (real_from-ne_zero n rs (suc (length rs)) e)
        (inr (rw (reverse-append (n ∷ []) rs) (last_ne n rs e)))
]

-- The real level is the level with the zeros at the end left out: it is at most the level, the
-- numbers behind it are zeros, and it is 0 or the number at it is not zero.
pub real_level_lem :
    (v : Version)
    → (real_level v ≤ level v)
      × (drop (real_level v) v.numbers ≡ replicate (level v - real_level v) (pos 0))
      × ((real_level v ≡ 0) ⊎ (get_or v.numbers (real_level v - 1) (pos 0) ≢ pos 0))
unfolding real_level
real_level_lem v =
    let (h, z) = real_level_zeros v in
    let l = real_from_last (reverse v.numbers) in (h, z, rw (length-reverse, reverse-reverse) at l)

past : (ns : List ℤ) (i : ℕ) → length ns ≤ i → get_or ns i (pos 0) ≡ pos 0
past [] i h = refl
past (n ∷ ns) zero h = absurd (omega arith)
past (n ∷ ns) (suc i) h = past ns i (omega arith)

within : (ns : List ℤ) (i : ℕ) → i < length ns → subscript ns i ≡ ok (get_or ns i (pos 0))
within [] i h = absurd (omega arith)
within (n ∷ ns) zero h = refl
within (n ∷ ns) (suc i) h = within ns i (omega arith)

-- Version::get never reads out of bounds at a level from 1 on, and is 0 behind the level.
pub get_lem : (v : Version) (i : ℕ) → get v (suc i) ≡ ok (get_or v.numbers i (pos 0))
unfolding get
get_lem v i = elim (Bool-cases (ltb (level v) (suc i))) [
  | inl e ↦ rw (e, past v.numbers i (ground arith))
  | inr e ↦ rw (e, within v.numbers i (ground arith))
]
