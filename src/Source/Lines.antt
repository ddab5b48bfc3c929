-- ===== src/Source/Lines.antt =====
-- The lines that print of src/source/src/source.cpp writes, read back.
use primitives.Prelude.{
  ℕ, zero, suc, ◌≡◌, ◌≤◌, refl, ap, ◌∙◌, true, false, List, [], ◌∷◌, ◌++◌, append_assoc, Bytes,
  codes, length, ◌==◌, if◌then◌else◌, All, arith,
}
use primitives.Source.{has_text}
use primitives.Source.Print.{line}

abbrev pub Without : ℕ → Bytes → Type 0
Without c = All (λ d. (d == c) ≡ false)

-- What is before the first c, and what is behind it.
abbrev pub cut : ℕ → Bytes → Bytes × Bytes
cut c [] = ([], [])
cut c (d ∷ s) = let (a, b) = cut c s in if d == c then ([], s) else (d ∷ a, b)

pub cut-append : (c : ℕ) (a s : Bytes) → Without c a → cut c (a ++ c ∷ s) ≡ (a, s)
cut-append c [] s w = ground arith
cut-append c (d ∷ a) s (w, ws) = rw (cut-append c a s ws, w) refl

abbrev pub unlines : List (Bytes × Bytes) → Bytes
unlines [] = []
unlines ((k, v) ∷ es) = line k v ++ unlines es

-- Keys have no colon, values no newline.
abbrev pub Clean : List (Bytes × Bytes) → Type 0
Clean = All (λ e. Without b':' e.0 × Without 10 e.1)

abbrev pub tail_of : Bytes → Bytes
tail_of [] = []
tail_of (c ∷ s) = s

pub read_lines : ℕ → Bytes → List (Bytes × Bytes)
read_lines zero s = []
read_lines (suc n) s =
    let k = cut b':' s in
    let v = cut 10 (tail_of k.1) in
    let rest = read_lines n v.1 in if has_text s then (k.0, v.0) ∷ rest else []

has_text-append : (a s : Bytes) (c : ℕ) → has_text (a ++ c ∷ s) ≡ true
has_text-append [] s c = refl
has_text-append (d ∷ a) s c = refl

read_line :
    (n : ℕ) (k v r : Bytes)
    → Without b':' k
    → Without 10 v
    → read_lines (suc n) (line k v ++ r) ≡ (k, v) ∷ read_lines n r
unfolding read_lines
read_line n k v r hk hv =
    rw
      (
        append_assoc k (codes ": " ++ (v ++ codes "\n")) r,
        append_assoc v (codes "\n") r,
        cut-append b':' k (32 ∷ (v ++ 10 ∷ r)) hk,
        cut-append 10 v r hv,
        has_text-append k (32 ∷ (v ++ 10 ∷ r)) b':',
      )
      refl

pub read_lines-unlines :
    (n : ℕ) (es : List (Bytes × Bytes)) → Clean es → length es ≤ n → read_lines n (unlines es) ≡ es
unfolding read_lines
read_lines-unlines zero [] c h = refl
read_lines-unlines (suc n) [] c h = refl
read_lines-unlines zero (e ∷ es) c h = absurd (omega arith)
read_lines-unlines (suc n) ((k, v) ∷ es) ((hk, hv), c) h =
    read_line n k v (unlines es) hk hv
    ∙ ap (λ r. (k, v) ∷ r) (read_lines-unlines n es c (omega arith))
