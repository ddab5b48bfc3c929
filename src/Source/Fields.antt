-- ===== src/Source/Fields.antt =====
-- What a document gives for the fields that save of src/source/src/source.cpp puts into it.
use primitives.Prelude.{
  zero, suc, ◌≡◌, refl, ◌∙◌, inl, inr, Bool, true, false, ◌||◌, List, [], ◌∷◌, none, some, Bytes,
  Outcome, ok, Bool-cases, if◌then◌else◌,
}
use primitives.Source.{has_number}
use primitives.Prelude.Int.{ℤ, pos, negsuc}
use primitives.Prelude.Ord.{list_beq, list_beq_iff, nat_ord}
use primitives.Source.Document.{Document, IsMap, IsLawful, add, add_not_empty, add_not_minus_one}
use primitives.Source.Document.{get_string, get_int}

module _ (D : Document) {j : D.Value} where
  pub get_string_some :
      (k : Bytes) {v : D.Value} (old : Outcome Bytes)
      → D.find k j ≡ some v
      → get_string D k j old ≡ D.get_string v
  unfolding get_string
  get_string_some k old e = rw (get_string, e) refl

  pub get_string_none :
      (k : Bytes) (old : Outcome Bytes) → D.find k j ≡ none → get_string D k j old ≡ old
  unfolding get_string
  get_string_none k old e = rw (get_string, e) refl

  pub get_int_some :
      (k : Bytes) {v : D.Value} (old : Outcome ℤ)
      → D.find k j ≡ some v
      → get_int D k j old ≡ D.get_int v
  unfolding get_int
  get_int_some k old e = rw (get_int, e) refl

  pub get_int_none : (k : Bytes) (old : Outcome ℤ) → D.find k j ≡ none → get_int D k j old ≡ old
  unfolding get_int
  get_int_none k old e = rw (get_int, e) refl

module _ (D : Document) (L : IsLawful D) (j : D.Value) (w : IsMap D j) where
  find-set_self : (k : Bytes) (v : D.Value) → D.find k (D.set k v j) ≡ some v
  find-set_self k v = rw (L.find-set k k v j w, (list_beq_iff k k).1 refl) refl

  pub add-IsMap : (k s : Bytes) → IsMap D (add D k s j)
  unfolding add
  add-IsMap k s = inr (L.is_object-set k (D.of_string s) j w)

  pub add_not_empty-IsMap : (k s : Bytes) → IsMap D (add_not_empty D k s j)
  unfolding add_not_empty
  add_not_empty-IsMap k [] = w
  add_not_empty-IsMap k (c ∷ s) = inr (L.is_object-set k (D.of_string (c ∷ s)) j w)

  pub get_string-add : (k s : Bytes) (old : Outcome Bytes) → get_string D k (add D k s j) old ≡ ok s
  unfolding add
  get_string-add k s old =
      get_string_some D k old (find-set_self k (D.of_string s)) ∙ L.get_string-of_string s

  pub get_string-add_not_empty :
      (k s : Bytes) → D.find k j ≡ none → get_string D k (add_not_empty D k s j) (ok []) ≡ ok s
  unfolding add_not_empty add
  get_string-add_not_empty k [] e = get_string_none D k (ok []) e
  get_string-add_not_empty k (c ∷ s) e = get_string-add k (c ∷ s) (ok [])

  -- revision, behind the texts
  pub get_int-add_not_minus_one_self :
      (k : Bytes) (i : ℤ) (old : Outcome ℤ)
      → has_number i ≡ true
      → get_int D k (add_not_minus_one D k i j) old ≡ ok i
  unfolding add_not_minus_one
  get_int-add_not_minus_one_self k i old e =
      rw e (get_int_some D k old (find-set_self k (D.of_int i)) ∙ L.get_int-of_int i)

  pub get_int-add_not_minus_one :
      (k : Bytes) (i : ℤ)
      → D.find k j ≡ none
      → get_int D k (add_not_minus_one D k i j) (ok (negsuc 0)) ≡ ok i
  unfolding add_not_minus_one
  get_int-add_not_minus_one k (pos i) e =
      get_int-add_not_minus_one_self k (pos i) (ok (negsuc 0)) refl
  get_int-add_not_minus_one k (negsuc zero) e = get_int_none D k (ok (negsuc 0)) e
  get_int-add_not_minus_one k (negsuc (suc i)) e =
      get_int-add_not_minus_one_self k (negsuc (suc i)) (ok (negsuc 0)) refl

  module _ (k m : Bytes) (n : list_beq k m ≡ false) where
    find-set_other : (v : D.Value) → D.find k (D.set m v j) ≡ D.find k j
    find-set_other v = rw (L.find-set k m v j w, n) refl

    pub find-add_other : (s : Bytes) → D.find k (add D m s j) ≡ D.find k j
    unfolding add
    find-add_other s = find-set_other (D.of_string s)

    pub find-add_not_empty_other : (s : Bytes) → D.find k (add_not_empty D m s j) ≡ D.find k j
    unfolding add_not_empty add
    find-add_not_empty_other [] = refl
    find-add_not_empty_other (c ∷ s) = find-set_other (D.of_string (c ∷ s))

    pub find-add_not_minus_one_other : (i : ℤ) → D.find k (add_not_minus_one D m i j) ≡ D.find k j
    unfolding add_not_minus_one
    find-add_not_minus_one_other (pos i) = find-set_other (D.of_int (pos i))
    find-add_not_minus_one_other (negsuc zero) = refl
    find-add_not_minus_one_other (negsuc (suc i)) = find-set_other (D.of_int (negsuc (suc i)))

or_false : (a b : Bool) → (a || b) ≡ false → (a ≡ false) × (b ≡ false)
or_false true b h = cc
or_false false b h = (refl, h)

-- The text of the field k, and whether there is one, among those that were saved.
abbrev pub field : Bytes → List (Bytes × Bytes) → Bytes
field k [] = []
field k ((m, s) ∷ fs) = if list_beq k m then s else field k fs

abbrev pub knows : Bytes → List (Bytes × Bytes) → Bool
knows k [] = false
knows k ((m, s) ∷ fs) = list_beq k m || knows k fs

pub record Describes (D : Document) (j : D.Value) (fs : List (Bytes × Bytes)) : Type 0 where
  pub is_map : IsMap D j
  pub text : (k : Bytes) → get_string D k j (ok []) ≡ ok (field k fs)
  pub absent : (k : Bytes) → knows k fs ≡ false → D.find k j ≡ none

module _ (D : Document) (L : IsLawful D) where
  pub Describes-null : Describes D D.null []
  Describes-null = record {
    is_map = inl refl;
    text = λ k. get_string_none D k (ok []) (L.find-null k);
    absent = λ k _. L.find-null k;
  }

  module _ {j : D.Value} {fs : List (Bytes × Bytes)} (d : Describes D j fs) where
    get_string_same :
        {i : D.Value} (k : Bytes) (old : Outcome Bytes)
        → D.find k i ≡ D.find k j
        → get_string D k i old ≡ get_string D k j old
    unfolding get_string
    get_string_same k old e = rw (get_string, e) refl

    module _ (m s : Bytes) (fresh : knows m fs ≡ false) where
      pub Describes-add : Describes D (add D m s j) ((m, s) ∷ fs)
      Describes-add = record {
        is_map = add-IsMap D L j d.is_map m s;
        text = λ k. elim (Bool-cases (list_beq k m)) [
          | inl same ↦
              rw (same, (list_beq_iff k m).0 same) (get_string-add D L j d.is_map m s (ok []))
          | inr other ↦
              rw other
                (get_string_same k (ok []) (find-add_other D L j d.is_map k m other s) ∙ d.text k)
        ];
        absent = λ k h.
            let (other, rest) = or_false _ _ h in
            find-add_other D L j d.is_map k m other s ∙ d.absent k rest;
      }

      pub Describes-add_not_empty : Describes D (add_not_empty D m s j) ((m, s) ∷ fs)
      Describes-add_not_empty = record {
        is_map = add_not_empty-IsMap D L j d.is_map m s;
        text = λ k. elim (Bool-cases (list_beq k m)) [
          | inl same ↦
              rw (same, (list_beq_iff k m).0 same)
                (get_string-add_not_empty D L j d.is_map m s (d.absent m fresh))
          | inr other ↦ rw other (
              get_string_same k (ok []) (find-add_not_empty_other D L j d.is_map k m other s)
              ∙ d.text k)
        ];
        absent = λ k h.
            let (other, rest) = or_false _ _ h in
            find-add_not_empty_other D L j d.is_map k m other s ∙ d.absent k rest;
      }

    pub text-add_not_minus_one :
        (k m : Bytes) (i : ℤ)
        → list_beq k m ≡ false
        → get_string D k (add_not_minus_one D m i j) (ok []) ≡ ok (field k fs)
    text-add_not_minus_one k m i other =
        get_string_same k (ok []) (find-add_not_minus_one_other D L j d.is_map k m other i)
        ∙ d.text k
