-- ===== src/Storage/Laws.antt =====
-- What a storage keeps: the contents under each hash.
use primitives.Prelude.{
  ℕ, ◌≡◌, refl, sym, ap, ==_iff, ◌∙◌, inl, inr, true, false, List, [], ◌∷◌, Option, none, some,
  Bytes, ◌==◌, Bool-cases, if◌then◌else◌, suc, length, ok,
}
use primitives.Storage.{PhysicalStorage, is_some, add, add_r}

-- IsGood n: n more files fit in.
pub record IsStorage (P : PhysicalStorage) (stored : ℕ → P.State → Option Bytes)
    (IsGood : ℕ → P.State → Type 0) : Type 0 where
  pub contains_lem :
      (n h : ℕ) (s : P.State) → IsGood n s → P.contains h s ≡ ok (is_some (stored h s))
  pub stored-add :
      (n h : ℕ) (c : Bytes) (s : P.State)
      → IsGood n s
      → is_some (stored (P.get_hash c) s) ≡ false
      → stored h (P.add c s) ≡ (if h == P.get_hash c then some c else stored h s)
  pub add-IsGood : (n : ℕ) (c : Bytes) (s : P.State) → IsGood (suc n) s → IsGood n (P.add c s)
  pub IsGood_of_suc : (n : ℕ) (s : P.State) → IsGood (suc n) s → IsGood n s

-- The first of the files with the hash h.
abbrev pub first_with : (Bytes → ℕ) → ℕ → List Bytes → Option Bytes
first_with hash h [] = none
first_with hash h (c ∷ cs) = if h == hash c then some c else first_with hash h cs

abbrev pub or_else {ℓ} : {A : Type ℓ} → Option A → Option A → Option A
or_else none b = b
or_else (some a) b = some a

or_else_assoc {ℓ} :
    {A : Type ℓ} (a b c : Option A) → or_else (or_else a b) c ≡ or_else a (or_else b c)
or_else_assoc none b c = refl
or_else_assoc (some a) b c = refl

or_else-none {ℓ} : {A : Type ℓ} (a : Option A) → or_else a none ≡ a
or_else-none none = refl
or_else-none (some a) = refl

or_else_some {ℓ} : {A : Type ℓ} (a b : Option A) → is_some a ≡ true → or_else a b ≡ a
or_else_some none b h = cc
or_else_some (some a) b h = refl

or_else_missing {ℓ} : {A : Type ℓ} (a b : Option A) → is_some a ≡ false → or_else a b ≡ b
or_else_missing none b h = refl
or_else_missing (some a) b h = cc

module _ (o : ℕ → Option Bytes) (h k : ℕ) (c : Bytes) where
  or_else_old : is_some (o k) ≡ true → or_else (o h) (if h == k then some c else none) ≡ o h
  or_else_old e = elim (Bool-cases (h == k)) [
    | inl same ↦ or_else_some (o h) _ (let f : h ≡ k = (==_iff h k).0 same in rw f e)
    | inr other ↦ rw other (or_else-none (o h))
  ]

  or_else_new :
      is_some (o k) ≡ false
      → or_else (o h) (if h == k then some c else none) ≡ (if h == k then some c else o h)
  or_else_new e = elim (Bool-cases (h == k)) [
    | inl same ↦ rw same (or_else_missing (o h) _ (let f : h ≡ k = (==_iff h k).0 same in rw f e))
    | inr other ↦ rw other (or_else-none (o h))
  ]

first_with_cons :
    (hash : Bytes → ℕ) (h : ℕ) (c : Bytes) (cs : List Bytes)
    → or_else (first_with hash h (c ∷ [])) (first_with hash h cs) ≡ first_with hash h (c ∷ cs)
first_with_cons hash h c cs = elim (Bool-cases (h == hash c)) [
  | inl same ↦ rw same refl
  | inr other ↦ rw other refl
]

module _ (P : PhysicalStorage) (stored : ℕ → P.State → Option Bytes) (IsGood : ℕ → P.State → Type 0)
    (L : IsStorage P stored IsGood) where
  -- What one more file leaves: room for one less, and its contents where its hash was new.
  Added : ℕ → Bytes → P.State → P.State → Type 0
  Added n c s t =
      (add P c s ≡ ok t)
      × (IsGood n t)
      × ((h : ℕ) → stored h t ≡ or_else (stored h s) (first_with P.get_hash h (c ∷ [])))

  Added-add : (n : ℕ) (c : Bytes) (s : P.State) → IsGood (suc n) s → (t : P.State) × Added n c s t
  unfolding add Added
  Added-add n c s g = elim (Bool-cases (is_some (stored (P.get_hash c) s))) [
    | inl old ↦ (
      s,
      (
        rw (L.contains_lem (suc n) (P.get_hash c) s g, old) refl,
        L.IsGood_of_suc n s g,
        λ h. sym (or_else_old (λ i. stored i s) h (P.get_hash c) c old),
      ),
    )
    | inr new ↦ (
      P.add c s,
      (
        rw (L.contains_lem (suc n) (P.get_hash c) s g, new) refl,
        L.add-IsGood n c s g,
        λ h.
            L.stored-add (suc n) h c s g new
            ∙ sym (or_else_new (λ i. stored i s) h (P.get_hash c) c new),
      ),
    )
  ]

  pub stored-add_r :
      (cs : List Bytes) (s : P.State)
      → IsGood (length cs) s
      → (t : P.State) × (add_r P cs s ≡ ok t)
        × ((h : ℕ) → stored h t ≡ or_else (stored h s) (first_with P.get_hash h cs))
  unfolding add_r Added
  stored-add_r [] s g = (s, refl, λ h. sym (or_else-none (stored h s)))
  stored-add_r (c ∷ cs) s g =
      let (t, (e, good, one)) = Added-add (length cs) c s g in
      let (u, f, all) = stored-add_r cs t good in
      (
        u,
        rw e f,
        λ h.
            all h
            ∙ rw (one h, or_else_assoc)
                (ap (or_else (stored h s)) (first_with_cons P.get_hash h c cs)),
      )
