-- ===== src/Patch/Unified.antt =====
-- patch of src/patch/src/patch.cpp on the numbers of the unified format: a range has the number of its
-- first line, an empty one that of the line before it.
use primitives.Prelude.{
  inr, take, length-drop, take-append-drop, append_assoc, sym, drop, ◌-◌, inl, length-append, ℕ,
  suc, ◌+◌, ◌^◌, ◌<◌, ◌≡◌, ◌≢◌, ◌⊎◌, refl, ap, ◌∙◌, Bool, false, List, [], ◌∷◌, ◌++◌, arith, Bytes,
  codes, length, ok, ◌>>=◌, All, ◌==◌,
}
use mathlib.Core.List.{cons-ne-nil}
use primitives.Prelude.Int.{pos}
use primitives.Prelude.Decimal.{to_string}
use primitives.Patch.{patch_file, success, failure, patch_header, patch}
use primitives.Patch.Script.{
  hunk_lines, edit_lines, Hunk, removed, inserted, old_lines, new_lines, header, numbered_lines,
  line_number, diff_lines,
}
use primitives.Patch.Numbers.{hunk_numbers-header, stoi-decimal}
use primitives.Patch.Hunks.{copy_lines-append}
use primitives.Patch.Lines.{hunk_lines-IsLine, prepare_lines-join, join, IsLine, Splits}
use primitives.Patch.Whole.{patch-numbered_lines}

-- No range of the hunk is empty.
abbrev pub HasBoth : Hunk → Type 0
HasBoth h = (removed h.edits ≢ []) × (inserted h.edits ≢ [])

line_number-length :
    (before : ℕ) (ls : List Bytes) → ls ≢ [] → line_number before (length ls) ≡ suc before
line_number-length before [] ne = absurd (ne refl)
line_number-length before (l ∷ ls) ne = refl

diff_lines-numbered_lines :
    (oi ni : ℕ) (hs : List Hunk) → All HasBoth hs → diff_lines oi ni hs ≡ numbered_lines oi ni hs
diff_lines-numbered_lines oi ni [] both = refl
diff_lines-numbered_lines oi ni (h ∷ hs) ((some_old, some_new), both) =
    rw
      (
        line_number-length (oi + length h.gap) (removed h.edits) some_old,
        line_number-length (ni + length h.gap) (inserted h.edits) some_new,
        diff_lines-numbered_lines (oi + length h.gap + length (removed h.edits))
            (ni + length h.gap + length (inserted h.edits)) hs both,
      )
      refl

module _ (split : Bytes → List Bytes) (splits : Splits split) (git : Bool) where
  -- A unified diff of two texts, with both counts in each header, turns the old text into the new one:
  -- for any hunks of kept, removed and inserted lines with the lines between them, if each hunk has old
  -- and new lines (no range is empty), the old text has a line, no line of the two texts ends in a
  -- carriage return, and the line numbers are numbers of int.
  pub patch-diff_lines :
      (h : Hunk) (hs : List Hunk) (rest : List Bytes)
      → All HasBoth (h ∷ hs)
      → old_lines (h ∷ hs) rest ≢ []
      → All IsLine (old_lines (h ∷ hs) rest)
      → All IsLine (new_lines (h ∷ hs) rest)
      → length (old_lines (h ∷ hs) rest) + 1 < 2 ^ 31
      → length (new_lines (h ∷ hs) rest) + 1 < 2 ^ 31
      → patch split (join (old_lines (h ∷ hs) rest)) (join (diff_lines 0 0 (h ∷ hs))) git
        ≡ ok (success (join (new_lines (h ∷ hs) rest)))
  patch-diff_lines h hs rest both ne lo ln bo bn =
      ap (λ d. patch split (join (old_lines (h ∷ hs) rest)) (join d) git)
        (diff_lines-numbered_lines 0 0 (h ∷ hs) both)
      ∙ patch-numbered_lines split splits git h hs rest ne lo ln bo bn

-- One range of the hunk is empty.
abbrev pub OneSided : Hunk → Type 0
OneSided h =
    ((removed h.edits ≡ []) × (inserted h.edits ≢ []))
    ⊎ ((removed h.edits ≢ []) × (inserted h.edits ≡ []))

patch_header_wrong :
    (gap old diff : List Bytes) (os nl ns : ℕ)
    → length gap + 1 < 2 ^ 31
    → os < 2 ^ 31
    → nl < 2 ^ 31
    → ns < 2 ^ 31
    → nl ≢ suc (length gap)
    → patch_header (header (suc (length gap)) os nl ns) diff (gap ++ old) 0 0 []
      ≡ ok (failure (codes "nl is wrong: " ++ to_string (pos nl)))
unfolding patch_header
patch_header_wrong gap old diff os nl ns h₀ h₁ h₂ h₃ ne =
    let e : (suc (length gap) == nl) ≡ false = ground arith in
    rw
      (
        patch_header,
        hunk_numbers-header (suc (length gap)) os nl ns,
        stoi-decimal (suc (length gap)) (omega arith),
        stoi-decimal os h₁,
        stoi-decimal nl h₂,
        stoi-decimal ns h₃,
        copy_lines-append gap old 0 0 (length gap) (length gap) [] (omega arith) (omega arith),
        ◌>>=◌,
        e,
      )
      refl

length-split_last :
    (gap : List Bytes) → gap ≢ [] → length (take (length gap - 1) gap) + 1 ≡ length gap
length-split_last [] ne = absurd (ne refl)
length-split_last (l ∷ gap) ne =
    let n = length (l ∷ gap) - 1 in
    let whole = ap (λ (ls : List Bytes). length ls) (take-append-drop n (l ∷ gap)) in
    let both = length-append (take n (l ∷ gap)) (drop n (l ∷ gap)) in
    let behind = length-drop n (l ∷ gap) in omega arith

-- What the diff of a hunk at the start of the file has as its header.
abbrev first_header : Hunk → Bytes
first_header h =
    header (line_number (length h.gap) (length (removed h.edits))) (length (removed h.edits))
      (line_number (length h.gap) (length (inserted h.edits))) (length (inserted h.edits))

patch_header_refused :
    (h : Hunk) (diff old new : List Bytes)
    → OneSided h
    → h.gap ≢ []
    → length (h.gap ++ (removed h.edits ++ old)) + 1 < 2 ^ 31
    → length (h.gap ++ (inserted h.edits ++ new)) + 1 < 2 ^ 31
    → (why : Bytes) × (patch_header (first_header h) diff (h.gap ++ (removed h.edits ++ old)) 0 0 []
        ≡ ok (failure why))
patch_header_refused h diff old new sided ne bo bn =
    let g = length h.gap in
    let m = length (removed h.edits) in
    let n = length (inserted h.edits) in
    let e₁ = length-append h.gap (removed h.edits ++ old) in
    let e₂ = length-append (removed h.edits) old in
    let e₃ = length-append h.gap (inserted h.edits ++ new) in
    let e₄ = length-append (inserted h.edits) new in
    elim sided [
      | inl (none_old, some_new) ↦
          let front = take (g - 1) h.gap in
          let back = drop (g - 1) h.gap ++ (removed h.edits ++ old) in
          let last : suc (length front) ≡ g = omega (arith, length-split_last h.gap ne) in
          let whole : front ++ back ≡ h.gap ++ (removed h.edits ++ old) =
            sym (append_assoc front (drop (g - 1) h.gap) (removed h.edits ++ old))
            ∙ ap (λ ls. ls ++ (removed h.edits ++ old)) (take-append-drop (g - 1) h.gap) in
          let old_number : line_number g m ≡ suc (length front) =
            ap (λ ls. line_number g (length ls)) none_old ∙ sym last in
          (
            codes "nl is wrong: " ++ to_string (pos (suc g)),
            rw (old_number, line_number-length g (inserted h.edits) some_new, sym whole)
                (patch_header_wrong front back diff m (suc g) n (omega arith) (omega arith)
                  (omega arith) (omega arith) (omega arith)),
          )
      | inr (some_old, none_new) ↦
          let new_number : line_number g n ≡ g = ap (λ ls. line_number g (length ls)) none_new in
          (
            codes "nl is wrong: " ++ to_string (pos g),
            rw (line_number-length g (removed h.edits) some_old, new_number)
                (patch_header_wrong h.gap (removed h.edits ++ old) diff m g n (omega arith)
                  (omega arith) (omega arith) (omega arith) (omega arith)),
          )
    ]

patch_file-failure :
    (f : ℕ) (git : Bool) (a b c d : ℕ) (diff old : List Bytes) (why : Bytes)
    → patch_header (header a b c d) diff old 0 0 [] ≡ ok (failure why)
    → patch_file (suc f) git (header a b c d ∷ diff) old 0 0 [] ≡ ok (failure why)
unfolding patch_file header
patch_file-failure f git a b c d diff old why e = rw e refl

module _ (split : Bytes → List Bytes) (splits : Splits split) (git : Bool) where
  -- A unified diff whose first hunk has lines before it and only inserts lines, or only removes lines,
  -- is refused: if no line of the two texts ends in a carriage return, and the line numbers are numbers
  -- of int.
  pub patch_refused :
      (h : Hunk) (hs : List Hunk) (rest : List Bytes)
      → OneSided h
      → h.gap ≢ []
      → All IsLine (old_lines (h ∷ hs) rest)
      → All IsLine (new_lines (h ∷ hs) rest)
      → length (old_lines (h ∷ hs) rest) + 1 < 2 ^ 31
      → length (new_lines (h ∷ hs) rest) + 1 < 2 ^ 31
      → (why : Bytes) × (patch split
            (join (old_lines (h ∷ hs) rest))
            (join (diff_lines 0 0 (h ∷ hs)))
            git
          ≡ ok (failure why))
  unfolding patch
  patch_refused h hs rest sided ne lo ln bo bn =
      let diff = diff_lines 0 0 (h ∷ hs) in
      let g = length h.gap in
      let m = length (removed h.edits) in
      let n = length (inserted h.edits) in
      let old = old_lines (h ∷ hs) rest in
      let z : 0 + g ≡ g = omega arith in
      let behind = edit_lines h.edits ++ hunk_lines line_number (g + m) (g + n) hs in
      let (why, e) =
        patch_header_refused h behind (old_lines hs rest) (new_lines hs rest) sided ne bo bn in
      let step : (f : ℕ) → patch_file (suc f) git diff old 0 0 [] ≡ ok (failure why) = λ f.
        rw z (patch_file-failure f git (line_number g m) m (line_number g n) n behind old why e) in
      (
        codes "bad file: " ++ why,
        rw
            (
              prepare_lines-join split splits diff (cons-ne-nil _ _)
                  (hunk_lines-IsLine line_number (h ∷ hs) rest 0 0 lo ln),
              prepare_lines-join split splits old (front-ne-nil h.gap _ ne) lo,
              step (length diff),
            )
            refl,
      )
    where
      front-ne-nil : (xs ys : List Bytes) → xs ≢ [] → xs ++ ys ≢ []
      front-ne-nil [] ys n = absurd (n refl)
      front-ne-nil (x ∷ xs) ys n = cons-ne-nil _ _
