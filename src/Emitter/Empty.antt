-- ===== src/Emitter/Empty.antt =====
-- emptyLines of src/emitter/include/primitives/emitter.h.
use primitives.Prelude.{
  ℕ, zero, suc, ◌+◌, ◌-◌, ◌≡◌, ◌≤◌, refl, ap, ◌∙◌, inl, inr, true, false, [], ◌∷◌, Bytes, ltb,
  ltb→lt, Bool-cases, Outcome, ok, throw, undefined, ◌>>=◌, arith,
}
use primitives.Prelude.Int.{pos}
use primitives.Emitter.{
  text, Lines, no_lines, behind, Emitter, is_blank, line_text, split_from, add_line,
}
use primitives.Emitter.Editing.{drop_lines, blank_lines, add_lines, empty_lines}

blank_before :
    (t : Outcome Bytes) (o : Outcome ℕ) (k : ℕ)
    → (t >>= λ s. elim (is_blank s) [ true ↦ o >>= λ n. ok (suc n) | false ↦ ok 0 ]) ≡ ok (suc k)
    → o ≡ ok k
blank_before (ok []) (ok n) k e = let f : suc n ≡ suc k = cc in ap ok (omega arith)
blank_before (ok []) (throw x) k e = cc
blank_before (ok []) undefined k e = cc
blank_before (ok (c ∷ s)) o k e = cc
blank_before (throw x) o k e = cc
blank_before undefined o k e = cc

-- How many lines at the end are without text, if k are.
drop_blank :
    (j k : ℕ) (ls : Lines)
    → blank_lines ls ≡ ok k
    → j ≤ k
    → blank_lines (drop_lines j ls) ≡ ok (k - j)
unfolding blank_lines
drop_blank zero k ls e h = e ∙ ap ok (omega arith)
drop_blank (suc j) zero ls e h = absurd (omega arith)
drop_blank (suc j) (suc k) no_lines e h = cc
drop_blank (suc j) (suc k) (behind ls l) e h =
    drop_blank j k ls (blank_before (line_text l) (blank_lines ls) k e) (omega arith)
    ∙ ap ok (omega arith)

blank_behind :
    (k : ℕ) (ls : Lines)
    → blank_lines ls ≡ ok k
    → blank_lines (behind ls (text (pos 0) [])) ≡ ok (suc k)
unfolding blank_lines line_text
blank_behind k ls e = rw e refl

module _ (a : ℕ) (p : Bytes) where
  add_blank :
      (e : Emitter)
      → e.newline ≡ a ∷ p
      → add_line [] e ≡ ok (record e { lines = behind e.lines (text (pos 0) []) })
  unfolding add_line split_from
  add_blank e h = rw h refl

  add_lines-blank :
      (n k : ℕ) (e : Emitter)
      → e.newline ≡ a ∷ p
      → blank_lines e.lines ≡ ok k
      → (ls : Lines) × (add_lines n e ≡ ok (record e { lines = ls }))
        × (blank_lines ls ≡ ok (n + k))
  add_lines-blank zero k e h b = (e.lines, refl, b ∙ ap ok (omega arith))
  add_lines-blank (suc n) k e h b =
      let (ls, q, r) =
        add_lines-blank n (suc k) (record e { lines = behind e.lines (text (pos 0) []) }) h
          (blank_behind k e.lines b) in
      (ls, rw (add_blank e h) q, r ∙ ap ok (omega arith))

  -- emptyLines(n) leaves n lines without text at the end, whether there were more or fewer, if the
  -- newline is not empty and the emitters in lines can be printed.
  pub blank_lines-empty_lines :
      (n k : ℕ) (e : Emitter)
      → e.newline ≡ a ∷ p
      → blank_lines e.lines ≡ ok k
      → (ls : Lines) × (empty_lines n e ≡ ok (record e { lines = ls })) × (blank_lines ls ≡ ok n)
  unfolding empty_lines
  blank_lines-empty_lines n k e h b = elim (Bool-cases (ltb k n)) [
    | inl fewer ↦
        let (ls, q, r) = add_lines-blank (n - k) k e h b in
        let l = ltb→lt k n fewer in (ls, rw (b, fewer) q, r ∙ ap ok (omega arith))
    | inr more ↦
        let l : n ≤ k = ground arith in
        (
          drop_lines (k - n) e.lines,
          rw (b, more) refl,
          drop_blank (k - n) k e.lines b (omega arith) ∙ ap ok (omega arith),
        )
  ]
