-- ===== src/Source/Entries.antt =====
-- What print1 of src/source/src/source.cpp writes, as keys and values: all fields that have something.
use primitives.Prelude.{
  ℕ, zero, suc, ◌-◌, ◌≡◌, ◌≢◌, refl, ap, ◌∙◌, inl, inr, Bool, true, false, not, List, [], ◌∷◌, ◌++◌,
  Bytes, codes, ◌==◌, Bool-cases, if◌then◌else◌, all, arith, and_parts,
}
use primitives.Prelude.Int.{ℤ, pos, negsuc}
use primitives.Prelude.Ord.{list_beq, list_beq_iff, nat_ord}
use primitives.Prelude.Decimal.{
  decimal, to_string, digit_value, digit_value-decimal, decimal-ne-nil, decimal-IsDigits, IsDigits,
}
use primitives.Source.{has_text, has_number}
use primitives.Source.Print.{line}
use primitives.Source.Fields.{field}
use primitives.Source.Lines.{Without, unlines, Clean}

abbrev pub text_entry : Bytes → Bytes → List (Bytes × Bytes)
text_entry k v = if has_text v then (k, v) ∷ [] else []

abbrev pub number_text : ℤ → Bytes
number_text n = if has_number n then to_string n else []

abbrev pub url_key : Bytes
url_key = codes "\"url\""

abbrev pub tag_key : Bytes
tag_key = codes "\"tag\""

abbrev pub branch_key : Bytes
branch_key = codes "\"branch\""

abbrev pub commit_key : Bytes
commit_key = codes "\"commit\""

abbrev pub revision_key : Bytes
revision_key = codes "\"revision\""

abbrev pub module_key : Bytes
module_key = codes "\"module\""

-- Entries that read as fields do: each field once, an empty one for none.
pub record Reads (es fs : List (Bytes × Bytes)) : Type 0 where
  pub reads : (k : Bytes) → field k es ≡ field k fs

pub Reads-nil : Reads [] []
Reads-nil = record { reads = λ k. refl }

pub Reads-text_entry :
    (k v : Bytes) {es fs : List (Bytes × Bytes)}
    → field k fs ≡ []
    → Reads es fs
    → Reads (text_entry k v ++ es) ((k, v) ∷ fs)
Reads-text_entry k [] {es} {fs} e r = record {
  reads = λ j. elim (Bool-cases (list_beq j k)) [
    | inl same ↦ rw (same, (list_beq_iff j k).0 same) (r.reads k ∙ e)
    | inr other ↦ rw other (r.reads j)
  ];
}
Reads-text_entry k (c ∷ v) {es} {fs} e r = record {
  reads = λ j. elim (Bool-cases (list_beq j k)) [
    | inl same ↦ rw same refl
    | inr other ↦ rw other (r.reads j)
  ];
}

pub Clean-text_entry :
    (k v : Bytes) (es : List (Bytes × Bytes))
    → Without b':' k
    → Without 10 v
    → Clean es
    → Clean (text_entry k v ++ es)
Clean-text_entry k [] es hk hv c = c
Clean-text_entry k (d ∷ v) es hk hv c = ((hk, hv), c)

pub unlines-text_entry :
    (k v : Bytes) (es : List (Bytes × Bytes))
    → unlines (text_entry k v ++ es) ≡ (if has_text v then line k v else []) ++ unlines es
unlines-text_entry k [] es = refl
unlines-text_entry k (c ∷ v) es = refl

not-true : (a : Bool) → not a ≡ true → a ≡ false
not-true true h = cc
not-true false h = refl

-- A key that a text has no sign of.
pub Without-of_all : (c : ℕ) (s : Bytes) → all (λ d. not (d == c)) s ≡ true → Without c s
Without-of_all c [] h = tt
Without-of_all c (d ∷ s) h =
    let (a, b) = and_parts (not (d == c)) (all (λ d. not (d == c)) s) h in
    (not-true (d == c) a, Without-of_all c s b)

has_text_of_ne : (s : Bytes) → s ≢ [] → has_text s ≡ true
has_text_of_ne [] n = absurd (n refl)
has_text_of_ne (c ∷ s) n = refl

pub has_text-number_text : (n : ℤ) → has_text (number_text n) ≡ has_number n
unfolding to_string
has_text-number_text (pos n) = has_text_of_ne (decimal n) (decimal-ne-nil n)
has_text-number_text (negsuc zero) = refl
has_text-number_text (negsuc (suc n)) = refl

abbrev pub number_of_text : Bytes → ℤ
number_of_text [] = negsuc 0
number_of_text (c ∷ s) =
    if c == b'-' then negsuc (digit_value 0 s - 1) else pos (digit_value 0 (c ∷ s))

number_of_digits : (s : Bytes) → s ≢ [] → IsDigits s → number_of_text s ≡ pos (digit_value 0 s)
number_of_digits [] n h = absurd (n refl)
number_of_digits (c ∷ s) n (h, hs) = ground arith

pub number_of_text-number_text : (n : ℤ) → number_of_text (number_text n) ≡ n
unfolding to_string
number_of_text-number_text (pos n) =
    number_of_digits (decimal n) (decimal-ne-nil n) (decimal-IsDigits n)
    ∙ ap pos (digit_value-decimal n)
number_of_text-number_text (negsuc zero) = refl
number_of_text-number_text (negsuc (suc n)) =
    rw (digit_value-decimal (suc (suc n))) (ap negsuc (omega arith))

digits-Without : (s : Bytes) → IsDigits s → Without 10 s
digits-Without [] h = tt
digits-Without (c ∷ s) (h, hs) = (ground arith, digits-Without s hs)

pub number_text-Without : (n : ℤ) → Without 10 (number_text n)
unfolding to_string
number_text-Without (pos n) = digits-Without (decimal n) (decimal-IsDigits n)
number_text-Without (negsuc zero) = tt
number_text-Without (negsuc (suc n)) =
    (refl, digits-Without (decimal (suc (suc n))) (decimal-IsDigits (suc (suc n))))
