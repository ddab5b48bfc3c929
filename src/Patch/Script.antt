-- ===== src/Patch/Script.antt =====
-- Unified diffs as they are written: the edits between two texts, and the lines that describe them.
use primitives.Prelude.{ℕ, zero, suc, ◌+◌, List, [], ◌∷◌, ◌++◌, Bytes, codes, length}
use primitives.Prelude.Decimal.{decimal}

pub data Edit : Type 0 where
  keep : Bytes → Edit
  remove : Bytes → Edit
  insert : Bytes → Edit

-- The lines that no hunk mentions, and the edits of the hunk behind them.
pub record Hunk : Type 0 where
  pub gap : List Bytes
  pub edits : List Edit

abbrev pub removed : List Edit → List Bytes
removed [] = []
removed (keep l ∷ es) = l ∷ removed es
removed (remove l ∷ es) = l ∷ removed es
removed (insert l ∷ es) = removed es

abbrev pub inserted : List Edit → List Bytes
inserted [] = []
inserted (keep l ∷ es) = l ∷ inserted es
inserted (remove l ∷ es) = inserted es
inserted (insert l ∷ es) = l ∷ inserted es

abbrev pub edit_lines : List Edit → List Bytes
edit_lines [] = []
edit_lines (keep l ∷ es) = (b' ' ∷ l) ∷ edit_lines es
edit_lines (remove l ∷ es) = (b'-' ∷ l) ∷ edit_lines es
edit_lines (insert l ∷ es) = (b'+' ∷ l) ∷ edit_lines es

-- The text before the hunks' edits, and behind them; `rest` are the lines that no hunk follows.
abbrev pub old_lines : List Hunk → List Bytes → List Bytes
old_lines [] rest = rest
old_lines (h ∷ hs) rest = h.gap ++ (removed h.edits ++ old_lines hs rest)

abbrev pub new_lines : List Hunk → List Bytes → List Bytes
new_lines [] rest = rest
new_lines (h ∷ hs) rest = h.gap ++ (inserted h.edits ++ new_lines hs rest)

-- `@@ -ol,os +nl,ns @@`.
unfoldable pub header : ℕ → ℕ → ℕ → ℕ → Bytes
header ol os nl ns =
    codes "@@ -"
    ++ (decimal ol
        ++ (codes ","
            ++ (decimal os
                ++ (codes " +" ++ (decimal nl ++ (codes "," ++ (decimal ns ++ codes " @@")))))))

-- A diff of the hunks from the old line oi and the new line ni on, both counted from 0, if `number`
-- gives the line number of a range from how many lines are before it and how many it has.
abbrev pub hunk_lines : (ℕ → ℕ → ℕ) → ℕ → ℕ → List Hunk → List Bytes
hunk_lines number oi ni [] = []
hunk_lines number oi ni (h ∷ hs) =
    header (number (oi + length h.gap) (length (removed h.edits))) (length (removed h.edits))
      (number (ni + length h.gap) (length (inserted h.edits))) (length (inserted h.edits))
    ∷ (edit_lines h.edits
        ++ hunk_lines number (oi + length h.gap + length (removed h.edits))
            (ni + length h.gap + length (inserted h.edits)) hs)

-- The line behind what is before, for an empty range as well.
abbrev pub numbered_lines : ℕ → ℕ → List Hunk → List Bytes
numbered_lines = hunk_lines (λ before count. suc before)

-- The numbers of the unified format: of the first line of a range, and of the line before an empty one.
abbrev pub line_number : ℕ → ℕ → ℕ
line_number before zero = before
line_number before (suc count) = suc before

abbrev pub diff_lines : ℕ → ℕ → List Hunk → List Bytes
diff_lines = hunk_lines line_number
