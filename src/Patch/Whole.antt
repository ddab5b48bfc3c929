-- ===== src/Patch/Whole.antt =====
-- The whole of patch (src/patch/src/patch.cpp) on diffs whose empty ranges have the number of the line
-- behind them, and on a hunk at line 0.
use primitives.Prelude.{
  ℕ, suc, ◌+◌, ◌-◌, ◌^◌, ◌≤◌, ◌<◌, ◌≡◌, ◌≢◌, refl, Bool, true, List, [], ◌∷◌, ◌++◌, arith, Bytes,
  length, length-append, ok, undefined, ◌>>=◌, All, ltb,
}
use mathlib.Core.List.{cons-ne-nil}
use primitives.Patch.{success, add_line, copy_lines, patch_header, patch_file, patch}
use primitives.Patch.Script.{Hunk, removed, inserted, old_lines, new_lines, header, numbered_lines}
use primitives.Patch.Numbers.{hunk_numbers-header, stoi-decimal}
use primitives.Patch.Lines.{
  join, IsLine, Splits, prepare_lines-join, hunk_lines-IsLine, header-IsLine, cut_last,
}
use primitives.Patch.RoundTrip.{patch_file-numbered_lines}

length-old_lines :
    (hs : List Hunk) (rest : List Bytes) → length (old_lines hs []) ≤ length (old_lines hs rest)
length-old_lines [] rest = omega arith
length-old_lines (h ∷ hs) rest = omega (
  arith,
  length-append h.gap (removed h.edits ++ old_lines hs []),
  length-append h.gap (removed h.edits ++ old_lines hs rest),
  length-append (removed h.edits) (old_lines hs []),
  length-append (removed h.edits) (old_lines hs rest),
  length-old_lines hs rest,
)

length-new_lines :
    (hs : List Hunk) (rest : List Bytes) → length (new_lines hs []) ≤ length (new_lines hs rest)
length-new_lines [] rest = omega arith
length-new_lines (h ∷ hs) rest = omega (
  arith,
  length-append h.gap (inserted h.edits ++ new_lines hs []),
  length-append h.gap (inserted h.edits ++ new_lines hs rest),
  length-append (inserted h.edits) (new_lines hs []),
  length-append (inserted h.edits) (new_lines hs rest),
  length-new_lines hs rest,
)

module _ (split : Bytes → List Bytes) (splits : Splits split) (git : Bool) where
  -- The diff of two texts, an empty range in it being numbered by the line behind it, turns the old
  -- text into the new one: for any hunks of kept, removed and inserted lines with the lines between
  -- them, if the old text has a line and no line of the two texts ends in a carriage return, and the
  -- line numbers are numbers of int.
  pub patch-numbered_lines :
      (h : Hunk) (hs : List Hunk) (rest : List Bytes)
      → old_lines (h ∷ hs) rest ≢ []
      → All IsLine (old_lines (h ∷ hs) rest)
      → All IsLine (new_lines (h ∷ hs) rest)
      → length (old_lines (h ∷ hs) rest) + 1 < 2 ^ 31
      → length (new_lines (h ∷ hs) rest) + 1 < 2 ^ 31
      → patch split (join (old_lines (h ∷ hs) rest)) (join (numbered_lines 0 0 (h ∷ hs))) git
        ≡ ok (success (join (new_lines (h ∷ hs) rest)))
  unfolding patch
  patch-numbered_lines h hs rest ne lo ln bo bn =
      let diff = numbered_lines 0 0 (h ∷ hs) in
      let (p, step, text) =
        patch_file-numbered_lines (suc (length diff)) git (h ∷ hs) rest 0 0 [] (omega arith)
          (omega (arith, length-old_lines (h ∷ hs) rest))
          (omega (arith, length-new_lines (h ∷ hs) rest)) in
      rw
        (
          prepare_lines-join split splits diff (cons-ne-nil _ _)
              (hunk_lines-IsLine (λ before count. suc before) (h ∷ hs) rest 0 0 lo ln),
          prepare_lines-join split splits (old_lines (h ∷ hs) rest) ne lo,
          step,
          ◌>>=◌,
          text,
          cut_last (new_lines (h ∷ hs) rest),
        )
        refl

copy_lines-past :
    (ol : ℕ) (old : List Bytes) (oi ni : ℕ) (r : Bytes)
    → oi + length old < ol
    → copy_lines ol old oi ni r ≡ undefined
unfolding copy_lines
copy_lines-past ol [] oi ni r h = let e : ltb oi ol ≡ true = ground arith in rw (copy_lines, e) refl
copy_lines-past ol (l ∷ old) oi ni r h =
    let e : ltb oi ol ≡ true = ground arith in
    rw (copy_lines, e) (copy_lines-past ol old (suc oi) (suc ni) (add_line r l) (omega arith))

patch_header-zero :
    (old diff : List Bytes) (os nl ns : ℕ)
    → length old < 2 ^ 31
    → os < 2 ^ 31
    → nl < 2 ^ 31
    → ns < 2 ^ 31
    → patch_header (header 0 os nl ns) diff old 0 0 [] ≡ undefined
unfolding patch_header
patch_header-zero old diff os nl ns bo h₁ h₂ h₃ =
    rw
      (
        patch_header,
        hunk_numbers-header 0 os nl ns,
        stoi-decimal 0 (omega arith),
        stoi-decimal os h₁,
        stoi-decimal nl h₂,
        stoi-decimal ns h₃,
        copy_lines-past (2 ^ 64 - 1) old 0 0 [] (omega arith),
      )
      refl

patch_file-undefined :
    (f : ℕ) (git : Bool) (os nl ns : ℕ) (diff old : List Bytes)
    → patch_header (header 0 os nl ns) diff old 0 0 [] ≡ undefined
    → patch_file (suc f) git (header 0 os nl ns ∷ diff) old 0 0 [] ≡ undefined
unfolding patch_file header
patch_file-undefined f git os nl ns diff old e = rw e refl

module _ (split : Bytes → List Bytes) (splits : Splits split) (git : Bool) where
  -- A first hunk at the old line 0, which a diff of a new file has, makes patch read lines past the end
  -- of the text, whatever the text and the rest of the diff.
  pub patch_from_zero :
      (old diff : List Bytes) (os nl ns : ℕ)
      → old ≢ []
      → All IsLine old
      → All IsLine diff
      → length old < 2 ^ 31
      → os < 2 ^ 31
      → nl < 2 ^ 31
      → ns < 2 ^ 31
      → patch split (join old) (join (header 0 os nl ns ∷ diff)) git ≡ undefined
  unfolding patch
  patch_from_zero old diff os nl ns ne lo ld bo h₁ h₂ h₃ =
      let file = header 0 os nl ns ∷ diff in
      rw
        (
          prepare_lines-join split splits file (cons-ne-nil _ _) (header-IsLine 0 os nl ns, ld),
          prepare_lines-join split splits old ne lo,
          patch_file-undefined (length file) git os nl ns diff old
              (patch_header-zero old diff os nl ns bo h₁ h₂ h₃),
        )
        refl
