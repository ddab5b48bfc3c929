-- ===== src/Patch/RoundTrip.antt =====
-- A unified diff that describes the edits between two texts turns the one into the other.
use primitives.Prelude.{
  ℕ, zero, suc, ◌+◌, ◌^◌, ◌<◌, ◌≡◌, refl, sym, ap, ◌∙◌, Bool, true, List, [], ◌∷◌, ◌++◌,
  append_assoc, append-nil, arith, Bytes, length, length-append, ◌==◌, ok, ◌>>=◌,
}
use primitives.Patch.Header.{newline}
use primitives.Patch.{success, Progress, add_line, add_lines, patch_header, patch_file}
use primitives.Patch.Script.{
  Edit, Hunk, removed, inserted, edit_lines, old_lines, new_lines, header, numbered_lines,
}
use primitives.Patch.Numbers.{hunk_numbers-header, stoi-decimal}
use primitives.Patch.Hunks.{Follows, patch_hunk-edit_lines, copy_lines-append}

add_lines-append :
    (r : Bytes) (xs ys : List Bytes) → add_lines r (xs ++ ys) ≡ add_lines (add_lines r xs) ys
add_lines-append r [] ys = refl
add_lines-append r (x ∷ xs) ys = add_lines-append (add_line r x) xs ys

add_lines_front : (r s : Bytes) (xs : List Bytes) → add_lines (r ++ s) xs ≡ r ++ add_lines s xs
add_lines_front r s [] = refl
add_lines_front r s (x ∷ xs) =
    rw (append_assoc r s (x ++ newline ∷ [])) (add_lines_front r (add_line s x) xs)

add_lines_behind : (r : Bytes) (xs : List Bytes) → r ++ add_lines [] xs ≡ add_lines r xs
add_lines_behind r xs = sym (add_lines_front r [] xs) ∙ ap (λ t. add_lines t xs) (append-nil r)

numbered_lines-Follows : (oi ni : ℕ) (hs : List Hunk) → Follows (numbered_lines oi ni hs)
unfolding header
numbered_lines-Follows oi ni [] = tt
numbered_lines-Follows oi ni (h ∷ hs) = tt

patch_header-edit_lines :
    (gap : List Bytes) (es : List Edit) (diff old : List Bytes) (oi ni : ℕ) (r : Bytes)
    → Follows diff
    → oi + length gap + length (removed es) + 1 < 2 ^ 31
    → ni + length gap + length (inserted es) + 1 < 2 ^ 31
    → patch_header
        (header
          (suc (oi + length gap))
          (length (removed es))
          (suc (ni + length gap))
          (length (inserted es)))
        (edit_lines es ++ diff)
        (gap ++ (removed es ++ old))
        oi
        ni
        r
      ≡ ok (
          success (record {
            diff = diff;
            old = old;
            oi = oi + length gap + length (removed es);
            ni = ni + length gap + length (inserted es);
            r = add_lines r (gap ++ inserted es);
          }))
unfolding patch_header
patch_header-edit_lines gap es diff old oi ni r h ho hn =
    let ol = oi + length gap in
    let nl = ni + length gap in
    let m = length (removed es) in
    let n = length (inserted es) in
    let e : (suc nl == suc nl) ≡ true = ground arith in
    let text : add_lines r gap ++ add_lines [] (inserted es) ≡ add_lines r (gap ++ inserted es) =
      add_lines_behind (add_lines r gap) (inserted es)
      ∙ sym (add_lines-append r gap (inserted es)) in
    rw
      (
        patch_header,
        hunk_numbers-header (suc ol) m (suc nl) n,
        stoi-decimal (suc ol) (omega arith),
        stoi-decimal m (omega arith),
        stoi-decimal (suc nl) (omega arith),
        stoi-decimal n (omega arith),
        copy_lines-append gap (removed es ++ old) oi ni ol nl r refl refl,
        ◌>>=◌,
        e,
        patch_hunk-edit_lines es diff old ol nl (ol + m) (nl + n) [] h refl refl,
      )
      (ap (λ t. ok (success (record { diff = diff; old = old; oi = ol + m; ni = nl + n; r = t })))
        text)

pub patch_file-header :
    (f : ℕ) (git : Bool) (a b c d : ℕ) (diff old : List Bytes) (oi ni : ℕ) (r : Bytes)
    (p : Progress)
    → patch_header (header a b c d) diff old oi ni r ≡ ok (success p)
    → patch_file (suc f) git (header a b c d ∷ diff) old oi ni r
      ≡ patch_file f git p.diff p.old p.oi p.ni p.r
unfolding patch_file header
patch_file-header f git a b c d diff old oi ni r p e = rw e refl

pub patch_file-numbered_lines :
    (f : ℕ) (git : Bool) (hs : List Hunk) (rest : List Bytes) (oi ni : ℕ) (r : Bytes)
    → length (numbered_lines oi ni hs) < f
    → oi + length (old_lines hs []) + 1 < 2 ^ 31
    → ni + length (new_lines hs []) + 1 < 2 ^ 31
    → (p : Progress) × (patch_file f git (numbered_lines oi ni hs) (old_lines hs rest) oi ni r
        ≡ ok (success p))
      × (add_lines p.r p.old ≡ add_lines r (new_lines hs rest))
unfolding patch_file
patch_file-numbered_lines zero git hs rest oi ni r h ho hn = absurd (omega arith)
patch_file-numbered_lines (suc f) git [] rest oi ni r h ho hn =
    (record { diff = []; old = rest; oi = oi; ni = ni; r = r }, refl, refl)
patch_file-numbered_lines (suc f) git (k ∷ hs) rest oi ni r h ho hn =
    let ol = oi + length k.gap in
    let nl = ni + length k.gap in
    let m = length (removed k.edits) in
    let n = length (inserted k.edits) in
    let e₁ = length-append k.gap (removed k.edits ++ old_lines hs []) in
    let e₂ = length-append (removed k.edits) (old_lines hs []) in
    let e₃ = length-append k.gap (inserted k.edits ++ new_lines hs []) in
    let e₄ = length-append (inserted k.edits) (new_lines hs []) in
    let e₅ = length-append (edit_lines k.edits) (numbered_lines (ol + m) (nl + n) hs) in
    let r' = add_lines r (k.gap ++ inserted k.edits) in
    let (p, step, text) =
      patch_file-numbered_lines f git hs rest (ol + m) (nl + n) r' (omega arith) (omega arith)
        (omega arith) in
    let here =
      patch_header-edit_lines k.gap k.edits (numbered_lines (ol + m) (nl + n) hs)
        (old_lines hs rest) oi ni r (numbered_lines-Follows (ol + m) (nl + n) hs) (omega arith)
        (omega arith) in
    (
      p,
      patch_file-header f git (suc ol) m (suc nl) n
            (edit_lines k.edits ++ numbered_lines (ol + m) (nl + n) hs)
            (k.gap ++ (removed k.edits ++ old_lines hs rest)) oi ni r _ here
          ∙ step,
      text
          ∙ sym (add_lines-append r (k.gap ++ inserted k.edits) (new_lines hs rest))
          ∙ ap (add_lines r) (append_assoc k.gap (inserted k.edits) (new_lines hs rest)),
    )
