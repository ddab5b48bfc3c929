-- ===== src/Patch/Hunks.antt =====
-- One hunk of a diff: the lines before it are copied, and its edits turn the old lines into the new.
use primitives.Prelude.{
  ℕ, suc, ◌+◌, ◌≡◌, refl, true, false, ◌&&◌, ◌||◌, List, [], ◌∷◌, ◌++◌, arith, Bytes, length, ok,
  ltb,
}
use primitives.Prelude.Int.{pos, negsuc, ◌+ℤ◌, ◌==ℤ◌, ltb_ℤ}
use primitives.Prelude.Ord.{list_beq, list_beq_iff, nat_ord}
use primitives.Patch.{success, add_line, add_lines, patch_hunk, copy_lines}
use primitives.Patch.Script.{Edit, keep, remove, insert, removed, inserted, edit_lines}

same : (l : Bytes) → list_beq l l ≡ true
same l = (list_beq_iff l l).1 refl

-- A hunk that is complete ends at the end of the diff or at the next line, which is not empty.
abbrev pub Follows : List Bytes → Type 0
Follows [] = Unit
Follows ([] ∷ diff) = ⊥
Follows ((c ∷ text) ∷ diff) = Unit

less_one : (n : ℕ) → pos (suc n) +ℤ negsuc 0 ≡ pos n
less_one n = ground arith

some_left : (m n : ℕ) → (pos m ==ℤ pos 0 && pos (suc n) ==ℤ pos 0) ≡ false
some_left m n = ground arith

old_left : (m n : ℕ) → (pos (suc m) ==ℤ pos 0 && pos n ==ℤ pos 0) ≡ false
old_left m n = ground arith

not_negative : (m n : ℕ) → (ltb_ℤ (pos m) (pos 0) || ltb_ℤ (pos n) (pos 0)) ≡ false
not_negative m n = ground arith

pub patch_hunk-edit_lines :
    (es : List Edit) (diff old : List Bytes) (oi ni oi' ni' : ℕ) (r : Bytes)
    → Follows diff
    → oi' ≡ oi + length (removed es)
    → ni' ≡ ni + length (inserted es)
    → patch_hunk
        (edit_lines es ++ diff)
        (removed es ++ old)
        oi
        ni
        r
        (pos (length (removed es)))
        (pos (length (inserted es)))
      ≡ ok (
          success
            (record { diff = diff; old = old; oi = oi'; ni = ni'; r = add_lines r (inserted es) }))
unfolding patch_hunk
patch_hunk-edit_lines [] [] old oi ni oi' ni' r h ho hn =
    let eo : oi ≡ oi' = omega arith in let en : ni ≡ ni' = omega arith in cc
patch_hunk-edit_lines [] ([] ∷ diff) old oi ni oi' ni' r h ho hn = absurd h
patch_hunk-edit_lines [] ((c ∷ text) ∷ diff) old oi ni oi' ni' r h ho hn =
    let eo : oi ≡ oi' = omega arith in let en : ni ≡ ni' = omega arith in cc
patch_hunk-edit_lines (keep l ∷ es) diff old oi ni oi' ni' r h ho hn =
    let m = length (removed es) in
    let n = length (inserted es) in
    rw
      (
        patch_hunk,
        some_left (suc m) n,
        not_negative (suc m) (suc n),
        same l,
        less_one m,
        less_one n,
      )
      (patch_hunk-edit_lines es diff old (suc oi) (suc ni) oi' ni' (add_line r l) h (omega arith)
        (omega arith))
patch_hunk-edit_lines (remove l ∷ es) diff old oi ni oi' ni' r h ho hn =
    let m = length (removed es) in
    let n = length (inserted es) in
    rw (patch_hunk, old_left m n, not_negative (suc m) n, same l, less_one m)
      (patch_hunk-edit_lines es diff old (suc oi) ni oi' ni' r h (omega arith) (omega arith))
patch_hunk-edit_lines (insert l ∷ es) diff old oi ni oi' ni' r h ho hn =
    let m = length (removed es) in
    let n = length (inserted es) in
    rw (patch_hunk, some_left m n, not_negative m (suc n), less_one n)
      (patch_hunk-edit_lines es diff old oi (suc ni) oi' ni' (add_line r l) h (omega arith)
        (omega arith))

pub copy_lines-append :
    (gap old : List Bytes) (oi ni oi' ni' : ℕ) (r : Bytes)
    → oi' ≡ oi + length gap
    → ni' ≡ ni + length gap
    → copy_lines oi' (gap ++ old) oi ni r
      ≡ ok (record { diff = []; old = old; oi = oi'; ni = ni'; r = add_lines r gap })
unfolding copy_lines
copy_lines-append [] [] oi ni oi' ni' r ho hn =
    let e : ltb oi oi' ≡ false = ground arith in
    let eo : oi ≡ oi' = omega arith in
    let en : ni ≡ ni' = omega arith in rw (copy_lines, e, eo, en) refl
copy_lines-append [] (l ∷ old) oi ni oi' ni' r ho hn =
    let e : ltb oi oi' ≡ false = ground arith in
    let eo : oi ≡ oi' = omega arith in
    let en : ni ≡ ni' = omega arith in rw (copy_lines, e, eo, en) refl
copy_lines-append (l ∷ gap) old oi ni oi' ni' r ho hn =
    let e : ltb oi oi' ≡ true = ground arith in
    rw (copy_lines, e)
      (copy_lines-append gap old (suc oi) (suc ni) oi' ni' (add_line r l) (omega arith)
        (omega arith))
