-- ===== src/Csv/RoundTrip.antt =====
-- A line that is written out of its cells is parsed back to their columns.
use primitives.Prelude.{
  ℕ, zero, suc, length, length-append, List, ◌<◌, ◌≤◌, ◌>>=◌, ◌≡◌, ◌≢◌, refl, sym, ap, ◌∙◌, ◌⊎◌,
  inl, inr, true, false, Bool-cases, [], ◌∷◌, ◌++◌, append_assoc, append-nil, arith, Bytes, All, ok,
  ◌==◌,
}
use primitives.Csv.{
  ◌>>=◌, expect_quote, quoted_field, Columns, fields, expect_eol, parse_line, normal_field, field,
  delimeter_sym, eol, quote_sym, character, Config, token, is_quoted_symbol, tok_escape, normal_run,
  quoted_run,
}
use mathlib.Core.List.{cons-ne-nil}
use primitives.Csv.Runs.{terminator, token-zero}
use primitives.Csv.Write.{
  absent, quoted, bare, Spellable, Cell, column, spelled, line, columns, escaped, IsDialect,
}

module _ (cfg : Config) (dialect : IsDialect cfg) where
  -- What may stand behind a cell: a delimeter, or the end.
  abbrev Ends : ℕ → Type 0
  Ends d = (token cfg d ≡ delimeter_sym) ⊎ (token cfg d ≡ eol)

  normal_run-bare :
      (s buf : Bytes) (d : ℕ) (m : Bytes)
      → All (λ c. token cfg c ≡ character) s
      → Ends d
      → normal_run cfg (s ++ d ∷ m) buf ≡ ok (buf ++ s, d ∷ m)
  unfolding normal_run
  normal_run-bare [] buf d m h (inl e) =
      rw (e, normal_run) (ap (λ t. ok (t, d ∷ m)) (sym (append-nil buf)))
  normal_run-bare [] buf d m h (inr e) =
      rw (e, normal_run) (ap (λ t. ok (t, d ∷ m)) (sym (append-nil buf)))
  normal_run-bare (c ∷ s) buf d m (e, h) ends =
      rw (e, normal_run)
        (normal_run-bare s (buf ++ c ∷ []) d m h ends ∙ rw (append_assoc buf (c ∷ []) s) refl)

  token-quote : token cfg cfg.quote ≡ quote_sym
  unfolding token
  token-quote = let q = dialect.quote_ok in let a = dialect.quote_apart in ground arith

  token-escape : token cfg cfg.escape ≡ tok_escape cfg
  unfolding token tok_escape
  token-escape = let q = dialect.escape_ok in let a = dialect.escape_apart in ground arith

  token-delimeter : token cfg cfg.delimeter ≡ delimeter_sym
  unfolding token
  token-delimeter = let q = dialect.delimeter_ok in ground arith

  escape-quote : is_quoted_symbol cfg cfg.escape cfg.quote ≡ true
  unfolding is_quoted_symbol
  escape-quote =
      let q = dialect.quote_ok in
      let e = dialect.escape_ok in
      let a = dialect.quote_apart in let b = dialect.escape_apart in ground arith

  -- A byte of a quoted text that is no quote is text for the parser.
  token-text :
      (c : ℕ)
      → c ≢ cfg.quote
      → c ≢ 0
      → (c ≢ cfg.escape) ⊎ (cfg.escape ≡ cfg.quote)
      → (token cfg c ≡ character) ⊎ (token cfg c ≡ delimeter_sym)
  unfolding token
  token-text c q z e = ground arith

  quoted_run-text :
      (c : ℕ) (m buf : Bytes)
      → m ≢ []
      → (token cfg c ≡ character) ⊎ (token cfg c ≡ delimeter_sym)
      → quoted_run cfg (c ∷ m) buf ≡ quoted_run cfg m (buf ++ c ∷ [])
  unfolding quoted_run
  quoted_run-text c [] buf h e = absurd (h refl)
  quoted_run-text c (d ∷ m) buf h (inl e) = rw (e, quoted_run) refl
  quoted_run-text c (d ∷ m) buf h (inr e) = rw (e, quoted_run) refl

  is_quoted_symbol_end : (c d : ℕ) → Ends d → is_quoted_symbol cfg c d ≡ false
  unfolding is_quoted_symbol
  is_quoted_symbol_end c d (inl e) = ground arith
  is_quoted_symbol_end c d (inr e) = ground arith

  quoted_run-end :
      (buf : Bytes) (d : ℕ) (m : Bytes)
      → Ends d
      → quoted_run cfg (cfg.quote ∷ d ∷ m) buf ≡ ok (buf, cfg.quote ∷ d ∷ m)
  unfolding quoted_run
  quoted_run-end buf d m ends =
      rw (token-quote, quoted_run, is_quoted_symbol_end cfg.quote d ends) refl

  quoted_run-escape :
      (m buf : Bytes)
      → quoted_run cfg (cfg.escape ∷ cfg.quote ∷ m) buf ≡ quoted_run cfg m (buf ++ cfg.quote ∷ [])
  unfolding quoted_run
  quoted_run-escape m buf = elim (Bool-cases (cfg.quote == cfg.escape)) [
    | inl e ↦ rw (token-escape, tok_escape, e, quoted_run, escape-quote) refl
    | inr e ↦ rw (token-escape, tok_escape, e, quoted_run, escape-quote) refl
  ]

  escaped-some : (s m : Bytes) → escaped cfg s ++ cfg.quote ∷ m ≢ []
  unfolding escaped
  escaped-some [] m = cons-ne-nil _ _
  escaped-some (c ∷ s) m = elim (Bool-cases (c == cfg.quote)) [
    | inl e ↦ rw e (cons-ne-nil _ _)
    | inr e ↦ rw e (cons-ne-nil _ _)
  ]

  -- The loop of quoted_field reads an escaped text back, up to the quote behind it.
  quoted_run-escaped :
      (s buf : Bytes) (d : ℕ) (m : Bytes)
      → All (λ c. (c ≢ 0) × ((c ≢ cfg.escape) ⊎ (cfg.escape ≡ cfg.quote))) s
      → Ends d
      → quoted_run cfg (escaped cfg s ++ cfg.quote ∷ d ∷ m) buf ≡ ok (buf ++ s, cfg.quote ∷ d ∷ m)
  unfolding escaped
  quoted_run-escaped [] buf d m h ends = rw (append-nil buf) (quoted_run-end buf d m ends)
  quoted_run-escaped (c ∷ s) buf d m ((z, e), h) ends =
      let rest =
        quoted_run-escaped s (buf ++ c ∷ []) d m h ends
        ∙ ap (λ t. ok (t, cfg.quote ∷ d ∷ m)) (append_assoc buf (c ∷ []) s) in
      elim (Bool-cases (c == cfg.quote)) [
        | inl q ↦ rw q (
            quoted_run-escape (escaped cfg s ++ cfg.quote ∷ d ∷ m) buf
            ∙ ap (λ t. quoted_run cfg (escaped cfg s ++ cfg.quote ∷ d ∷ m) (buf ++ t ∷ []))
                (let p : cfg.quote ≡ c = ground arith in p)
            ∙ rest)
        | inr q ↦ rw q (
            quoted_run-text c (escaped cfg s ++ cfg.quote ∷ d ∷ m) buf (escaped-some s (d ∷ m))
              (token-text c (ground arith) z e)
            ∙ rest)
      ]

  cell_field :
      (c : Cell) (cols : Columns) (d : ℕ) (m : Bytes)
      → Spellable cfg c
      → Ends d
      → field cfg (spelled cfg c ++ d ∷ m, cols) ≡ ok (d ∷ m, cols ++ column c ∷ [])
  unfolding field spelled column normal_field quoted_field expect_quote
  cell_field absent cols d m h (inl e) = rw (e, field, normal_run-bare [] [] d m tt (inl e)) refl
  cell_field absent cols d m h (inr e) = rw (e, field, normal_run-bare [] [] d m tt (inr e)) refl
  cell_field (bare []) cols d m (h, t) ends = absurd (h refl)
  cell_field (bare (c ∷ s)) cols d m (h, (e, t)) ends =
      rw (e, field, normal_run-bare (c ∷ s) [] d m (e, t) ends) refl
  cell_field (quoted s) cols d m h ends =
      rw
        (
          token-quote,
          field,
          append_assoc (escaped cfg s) (cfg.quote ∷ []) (d ∷ m),
          quoted_run-escaped s [] d m h ends,
        )
        (rw (◌>>=◌, expect_quote, token-quote) refl)

  length-line : (cs : List Cell) → length cs ≤ suc (length (line cfg cs))
  unfolding line
  length-line [] = omega arith
  length-line (c ∷ []) = omega arith
  length-line (c ∷ d ∷ cs) = omega (
    arith,
    length-append (spelled cfg c) (cfg.delimeter ∷ line cfg (d ∷ cs)),
    length-line (d ∷ cs),
  )

  cells_fields :
      (f : ℕ) (c : Cell) (cs : List Cell) (cols : Columns) (past : ℕ)
      → length cs < f
      → All (Spellable cfg) (c ∷ cs)
      → fields cfg f (line cfg (c ∷ cs) ++ terminator past, cols)
        ≡ ok (terminator past, cols ++ columns (c ∷ cs))
  unfolding fields line columns
  cells_fields zero c cs cols past h ok_cells = absurd (omega arith)
  cells_fields (suc f) c [] cols past h (p, q) =
      rw (cell_field c cols 0 (past ∷ []) p (inr (token-zero cfg))) refl
  cells_fields (suc f) c (d ∷ cs) cols past h (p, q) =
      let rest = cells_fields f d cs (cols ++ column c ∷ []) past (omega arith) q in
      rw
        (
          append_assoc (spelled cfg c) (cfg.delimeter ∷ line cfg (d ∷ cs)) (terminator past),
          cell_field c cols cfg.delimeter (line cfg (d ∷ cs) ++ terminator past) p
              (inl token-delimeter),
          ◌>>=◌,
          token-delimeter,
        )
        (rest
          ∙ ap (λ t. ok (terminator past, t))
              (append_assoc cols (column c ∷ []) (columns (d ∷ cs))))

  -- A line of cells, each spelled bare or in quotes, is parsed to the columns of its cells, whatever
  -- the byte behind the terminating zero: an absent cell to no text, any other to its text. The
  -- delimeter, the quote and the escape are not zero, and the delimeter is neither of the others; bare
  -- text is not empty and all of ordinary bytes, and text in quotes has no zero byte and, unless the
  -- escape is the quote itself, no escape.
  pub parse_line-line :
      (c : Cell) (cs : List Cell) (past : ℕ)
      → All (Spellable cfg) (c ∷ cs)
      → parse_line cfg (line cfg (c ∷ cs)) past ≡ ok (columns (c ∷ cs))
  unfolding parse_line expect_eol
  parse_line-line c cs past h =
      rw
        (cells_fields (suc (length (line cfg (c ∷ cs)))) c cs [] past
          (omega (arith, length-line (c ∷ cs))) h)
        refl
