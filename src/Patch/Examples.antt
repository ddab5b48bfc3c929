-- ===== src/Patch/Examples.antt =====
-- The theorems on patches at a concrete text, with a splitter, and runs of patch.
use mathlib.Core.List.{cons-ne-nil}
use primitives.Prelude.{
  ◌≡◌, ◌≢◌, refl, ap, ◌∙◌, true, false, List, [], ◌∷◌, ◌++◌, arith, Bytes, codes, All, ok, ◌==◌,
}
use primitives.Prelude.Decimal.{decimal}
use primitives.Patch.Header.{newline, literal, digit_run, hunk_numbers, stoi}
use primitives.Patch.{
  success, patch, patch_file, patch_header, patch_hunk, copy_lines, prepare_lines, without_returns,
}
use primitives.Patch.Script.{Hunk, keep, remove, insert, old_lines, new_lines, header, diff_lines}
use primitives.Patch.Lines.{join, IsLine, Splits}
use primitives.Patch.Unified.{patch-diff_lines}

abbrev split_lines : Bytes → List Bytes
split_lines [] = [] ∷ []
split_lines (c ∷ s) = elim (c == newline) [
  | true ↦ [] ∷ split_lines s
  | false ↦ elim (split_lines s) [ [] ↦ (c ∷ []) ∷ [] | l ∷ ls ↦ (c ∷ l) ∷ ls ]
]

split_lines-one : (l : Bytes) → All (λ c. c ≢ newline) l → split_lines l ≡ l ∷ []
split_lines-one [] h = refl
split_lines-one (c ∷ l) (k, h) =
    let e : (c == newline) ≡ false = ground arith in rw (split_lines, e, split_lines-one l h) refl

split_lines-append :
    (l s : Bytes) → All (λ c. c ≢ newline) l → split_lines (l ++ newline ∷ s) ≡ l ∷ split_lines s
split_lines-append [] s h = refl
split_lines-append (c ∷ l) s (k, h) =
    let e : (c == newline) ≡ false = ground arith in
    rw (split_lines, e, split_lines-append l s h) refl

split_lines-Splits : Splits split_lines
split_lines-Splits [] ne h = absurd (ne refl)
split_lines-Splits (l ∷ []) ne (h, _) = split_lines-one l h
split_lines-Splits (l ∷ k ∷ ls) ne (h, hs) =
    split_lines-append l (join (k ∷ ls)) h
    ∙ ap (λ t. l ∷ t) (split_lines-Splits (k ∷ ls) (cons-ne-nil _ _) hs)

-- "a", "b", "c" becomes "a", "x", "c", "d".
abbrev change : Hunk
change = record {
  gap = codes "a" ∷ [];
  edits = remove (codes "b") ∷ insert (codes "x") ∷ keep (codes "c") ∷ insert (codes "d") ∷ [];
}

old_text : join (old_lines (change ∷ []) []) ≡ codes "a\nb\nc"
old_text = refl

diff_text : join (diff_lines 0 0 (change ∷ [])) ≡ codes "@@ -2,2 +2,3 @@\n-b\n+x\n c\n+d"
unfolding header decimal
diff_text = refl

patched :
    patch split_lines (codes "a\nb\nc") (codes "@@ -2,2 +2,3 @@\n-b\n+x\n c\n+d") false
    ≡ ok (success (codes "a\nx\nc\nd"))
unfolding patch patch_file patch_header patch_hunk prepare_lines without_returns hunk_numbers
    literal digit_run stoi copy_lines
patched = refl

old-IsLine : All IsLine (old_lines (change ∷ []) [])
unfolding without_returns
old-IsLine =
    (((omega arith, tt), refl), (((omega arith, tt), refl), (((omega arith, tt), refl), tt)))

new-IsLine : All IsLine (new_lines (change ∷ []) [])
unfolding without_returns
new-IsLine = (
  ((omega arith, tt), refl),
  (((omega arith, tt), refl), (((omega arith, tt), refl), (((omega arith, tt), refl), tt))),
)

patch-diff_lines_example :
    patch split_lines
      (join (old_lines (change ∷ []) []))
      (join (diff_lines 0 0 (change ∷ [])))
      false
    ≡ ok (success (join (new_lines (change ∷ []) [])))
patch-diff_lines_example =
    patch-diff_lines split_lines split_lines-Splits false change [] []
      (((cons-ne-nil _ _), (cons-ne-nil _ _)), tt) (cons-ne-nil _ _) old-IsLine new-IsLine
      (omega arith) (omega arith)

-- "a" becomes "a", "b", as diff -U0 writes it.
abbrev insertion : Hunk
insertion = record { gap = codes "a" ∷ []; edits = insert (codes "b") ∷ [] }

insertion_text : join (diff_lines 0 0 (insertion ∷ [])) ≡ codes "@@ -1,0 +2,1 @@\n+b"
unfolding header decimal
insertion_text = refl
