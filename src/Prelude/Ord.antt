-- ===== src/Prelude/Ord.antt =====
-- `<` and `==` of the C++ types that the containers compare: the interface, and its instances at
-- numbers, vectors and pairs (std::tie). A vector is compared as std::lexicographical_compare does.
use primitives.Prelude.{
  ℕ, ◌≡◌, refl, ◌↔◌, Bool, true, false, ◌&&◌, List, [], ◌∷◌, arith, ltb, ◌==◌, ==_iff,
  if◌then◌else◌,
}
use primitives.Prelude.Int.{ℤ, ltb_ℤ, ◌==ℤ◌, ==ℤ_iff, ltb_ℤ_irrefl, ltb_ℤ_trans, ltb_ℤ_total}

pub record Ord {ℓ} (A : Type ℓ) : Type ℓ where
  pub lt : A → A → Bool
  pub beq : A → A → Bool
  pub beq_iff : (a b : A) → (beq a b ≡ true) ↔ (a ≡ b)
  pub lt_irrefl : (a : A) → lt a a ≡ false
  pub lt_trans : (a b c : A) → lt a b ≡ true → lt b c ≡ true → lt a c ≡ true
  pub lt_total : (a b : A) → lt a b ≡ false → lt b a ≡ false → a ≡ b

module _ {ℓ} {A : Type ℓ} ⦃o : Ord A⦄ where
  abbrev pub list_lt : List A → List A → Bool
  list_lt [] [] = false
  list_lt [] (y ∷ ys) = true
  list_lt (x ∷ xs) [] = false
  list_lt (x ∷ xs) (y ∷ ys) = if o.lt x y then true else if o.lt y x then false else list_lt xs ys

  abbrev pub list_beq : List A → List A → Bool
  list_beq [] [] = true
  list_beq [] (y ∷ ys) = false
  list_beq (x ∷ xs) [] = false
  list_beq (x ∷ xs) (y ∷ ys) = o.beq x y && list_beq xs ys

  pub lt_asymm : (a b : A) → o.lt a b ≡ true → o.lt b a ≡ false
  lt_asymm a b h = ground (arith, o.lt_trans a b a, o.lt_irrefl a)

  pub list_beq_iff : (xs ys : List A) → (list_beq xs ys ≡ true) ↔ (xs ≡ ys)
  list_beq_iff [] [] = ground arith
  list_beq_iff [] (y ∷ ys) = ground arith
  list_beq_iff (x ∷ xs) [] = ground arith
  list_beq_iff (x ∷ xs) (y ∷ ys) = ground (arith, list_beq_iff xs ys, o.beq_iff x y)

  pub list_lt_irrefl : (xs : List A) → list_lt xs xs ≡ false
  list_lt_irrefl [] = refl
  list_lt_irrefl (x ∷ xs) = ground (arith, o.lt_irrefl x, list_lt_irrefl xs)

  pub list_lt_total : (xs ys : List A) → list_lt xs ys ≡ false → list_lt ys xs ≡ false → xs ≡ ys
  list_lt_total [] [] h k = refl
  list_lt_total [] (y ∷ ys) h k = cc
  list_lt_total (x ∷ xs) [] h k = cc
  list_lt_total (x ∷ xs) (y ∷ ys) h k = ground (arith, o.lt_total x y, list_lt_total xs ys)

  pub list_lt_trans :
      (xs ys zs : List A) → list_lt xs ys ≡ true → list_lt ys zs ≡ true → list_lt xs zs ≡ true
  list_lt_trans [] [] zs h k = cc
  list_lt_trans [] (y ∷ ys) [] h k = cc
  list_lt_trans [] (y ∷ ys) (z ∷ zs) h k = refl
  list_lt_trans (x ∷ xs) [] zs h k = cc
  list_lt_trans (x ∷ xs) (y ∷ ys) [] h k = cc
  list_lt_trans (x ∷ xs) (y ∷ ys) (z ∷ zs) h k = ground (
    arith,
    o.lt_total x y,
    o.lt_total y z,
    o.lt_trans x y z,
    o.lt_irrefl x,
    o.lt_irrefl y,
    o.lt_irrefl z,
    lt_asymm x z,
    list_lt_trans xs ys zs,
  )

pub ltb_irrefl : (a : ℕ) → ltb a a ≡ false
ltb_irrefl a = ground arith

pub ltb_trans : (a b c : ℕ) → ltb a b ≡ true → ltb b c ≡ true → ltb a c ≡ true
ltb_trans a b c h k = ground arith

pub ltb_total : (a b : ℕ) → ltb a b ≡ false → ltb b a ≡ false → a ≡ b
ltb_total a b h k = ground arith

instance abbrev pub nat_ord : Ord ℕ
nat_ord = record {
  lt = ltb;
  beq = ◌==◌;
  beq_iff = ==_iff;
  lt_irrefl = ltb_irrefl;
  lt_trans = ltb_trans;
  lt_total = ltb_total;
}

instance abbrev pub int_ord : Ord ℤ
int_ord = record {
  lt = ltb_ℤ;
  beq = ◌==ℤ◌;
  beq_iff = ==ℤ_iff;
  lt_irrefl = ltb_ℤ_irrefl;
  lt_trans = ltb_ℤ_trans;
  lt_total = ltb_ℤ_total;
}

instance abbrev pub list_ord {ℓ} : {A : Type ℓ} ⦃o : Ord A⦄ → Ord (List A)
list_ord ⦃o⦄ = record {
  lt = list_lt;
  beq = list_beq;
  beq_iff = list_beq_iff;
  lt_irrefl = list_lt_irrefl;
  lt_trans = list_lt_trans;
  lt_total = list_lt_total;
}
