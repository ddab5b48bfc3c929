-- ===== src/Csv/Total.antt =====
-- The parser always ends in a result or an exception, whatever lies behind the text.
use primitives.Prelude.{
  ◌<◌, ◌≢◌, ◌⊎◌, ℕ, zero, suc, ◌≤◌, ◌≡◌, refl, ◌∙◌, inl, inr, [], ◌∷◌, ◌++◌, arith, Bytes, length,
  Outcome, ok,
}
use primitives.Csv.{
  ◌>>=◌, suc, parse_line, expect_eol, fields, none, quoted_field, some, unexpected_token, throw,
  field, normal_field, Columns, State, expect_quote, Token, delimeter_sym, eol, quote_sym,
  escape_sym, character, Config, token, normal_run, quoted_run,
}
use primitives.Csv.Runs.{terminator, Stops, normal_run-Stops, quoted_run-Stops}

module _ (cfg : Config) where
  -- Accepting a token or throwing, on a text that is followed by the terminator.
  abbrev Accepts : (Bytes → Outcome Bytes) → Bytes → Type 0
  Accepts step m =
      ((rest : Bytes) × (length rest ≤ length m)
        × ((past : ℕ) → step (m ++ terminator past) ≡ ok (rest ++ terminator past)))
      ⊎ ((past : ℕ) → step (m ++ terminator past) ≡ throw unexpected_token)

  expect_quote_stops : (m : Bytes) → Accepts (expect_quote cfg) m
  unfolding expect_quote token
  expect_quote_stops [] = inr (λ past. refl)
  expect_quote_stops (c ∷ m) = go (token cfg c) refl
    where
      behind :
          (n : Bytes)
          → token cfg c ≡ quote_sym
          → (past : ℕ) → expect_quote cfg (c ∷ n ++ terminator past) ≡ ok (n ++ terminator past)
      behind [] e past = rw (e, expect_quote) refl
      behind (d ∷ n) e past = rw (e, expect_quote) refl

      throws :
          (n : Bytes)
          → token cfg c ≢ quote_sym
          → (past : ℕ) → expect_quote cfg (c ∷ n ++ terminator past) ≡ throw unexpected_token
      throws [] ne past = ground arith
      throws (d ∷ n) ne past = ground arith

      go : (t : Token) → token cfg c ≡ t → Accepts (expect_quote cfg) (c ∷ m)
      go quote_sym e = inl (m, omega arith, λ past. behind m e past)
      go character e = inr (λ past. throws m (λ q. cc) past)
      go delimeter_sym e = inr (λ past. throws m (λ q. cc) past)
      go eol e = inr (λ past. throws m (λ q. cc) past)
      go escape_sym e = inr (λ past. throws m (λ q. cc) past)

  abbrev FieldStops : (State → Outcome State) → Bytes → Columns → Type 0
  FieldStops step m cols =
      ((rest : Bytes) × (cols' : Columns) × (length rest ≤ length m)
        × ((past : ℕ) → step (m ++ terminator past, cols) ≡ ok (rest ++ terminator past, cols')))
      ⊎ ((past : ℕ) → step (m ++ terminator past, cols) ≡ throw unexpected_token)

  normal_field_stops : (m : Bytes) (cols : Columns) → FieldStops (normal_field cfg) m cols
  unfolding normal_field
  normal_field_stops m cols =
      let (out, rest, h, r) = normal_run-Stops cfg m [] in
      inl (
        rest,
        cols ++ (elim out [ [] ↦ none | b ∷ bs ↦ some (b ∷ bs) ]) ∷ [],
        h,
        λ past. rw (r past) refl,
      )

  field_stops : (m : Bytes) (cols : Columns) → FieldStops (field cfg) m cols
  unfolding field token normal_field normal_run quoted_field
  field_stops [] cols = inl ([], _, omega arith, λ past. refl)
  field_stops (c ∷ m) cols = go (token cfg c) refl
    where
      plain :
          ((past : ℕ)
            → field cfg (c ∷ m ++ terminator past, cols)
              ≡ normal_field cfg (c ∷ m ++ terminator past, cols))
          → FieldStops (field cfg) (c ∷ m) cols
      plain step = elim (normal_field_stops (c ∷ m) cols) [
        | inl (rest, cols', h, r) ↦ inl (rest, cols', h, λ past. step past ∙ r past)
        | inr r ↦ inr (λ past. step past ∙ r past)
      ]

      quoted :
          token cfg c ≡ quote_sym
          → Stops cfg (quoted_run cfg) m []
          → FieldStops (field cfg) (c ∷ m) cols
      quoted e (out, rest, h, r) = elim (expect_quote_stops rest) [
        | inl (behind, g, q) ↦ inl (
          behind,
          cols ++ some out ∷ [],
          omega arith,
          λ past. rw (e, field, quoted_field, r past, q past) refl,
        )
        | inr q ↦ inr (λ past. rw (e, field, quoted_field, r past, q past) refl)
      ]

      go : (t : Token) → token cfg c ≡ t → FieldStops (field cfg) (c ∷ m) cols
      go quote_sym e = quoted e (quoted_run-Stops cfg m [])
      go character e = plain (λ past. rw (e, field) refl)
      go delimeter_sym e = plain (λ past. rw (e, field) refl)
      go eol e = plain (λ past. rw (e, field) refl)
      go escape_sym e = plain (λ past. rw (e, field) refl)

  fields_stop :
      (f : ℕ) (m : Bytes) (cols : Columns) → length m < f → FieldStops (fields cfg f) m cols
  unfolding fields token
  fields_stop zero m cols h = absurd (omega arith)
  fields_stop (suc f) m cols h = elim (field_stops m cols) [
    | inr r ↦ inr (λ past. rw (r past) refl)
    | inl (rest, cols', g, r) ↦ after (fields_stop f) rest cols' g r
  ]
    where
      after :
          ((n : Bytes) (cols' : Columns) → length n < f → FieldStops (fields cfg f) n cols')
          → (rest : Bytes) (cols' : Columns) → length rest ≤ length m
          → ((past : ℕ)
              → field cfg (m ++ terminator past, cols) ≡ ok (rest ++ terminator past, cols'))
          → FieldStops (fields cfg (suc f)) m cols
      after more [] cols' g r = inl ([], cols', omega arith, λ past. rw (r past) refl)
      after more (c ∷ n) cols' g r = go (token cfg c) refl
        where
          go : (t : Token) → token cfg c ≡ t → FieldStops (fields cfg (suc f)) m cols
          go delimeter_sym e = elim (more n cols' (omega arith)) [
            | inl (rest', cols'', k, q) ↦
                inl (rest', cols'', omega arith, λ past. rw (r past, ◌>>=◌, e) (q past))
            | inr q ↦ inr (λ past. rw (r past, ◌>>=◌, e) (q past))
          ]
          go character e = inl (c ∷ n, cols', g, λ past. rw (r past, ◌>>=◌, e) refl)
          go quote_sym e = inl (c ∷ n, cols', g, λ past. rw (r past, ◌>>=◌, e) refl)
          go eol e = inl (c ∷ n, cols', g, λ past. rw (r past, ◌>>=◌, e) refl)
          go escape_sym e = inl (c ∷ n, cols', g, λ past. rw (r past, ◌>>=◌, e) refl)

  expect_eol_stops :
      (m : Bytes)
      → ((rest : ℕ → Bytes) × ((past : ℕ) → expect_eol cfg (m ++ terminator past) ≡ ok (rest past)))
        ⊎ ((past : ℕ) → expect_eol cfg (m ++ terminator past) ≡ throw unexpected_token)
  unfolding expect_eol token
  expect_eol_stops [] = inl (λ past. past ∷ [], λ past. refl)
  expect_eol_stops (c ∷ m) = go (token cfg c) refl
    where
      behind :
          (n : Bytes)
          → token cfg c ≡ eol
          → (past : ℕ) → expect_eol cfg (c ∷ n ++ terminator past) ≡ ok (n ++ terminator past)
      behind [] e past = rw (e, expect_eol) refl
      behind (d ∷ n) e past = rw (e, expect_eol) refl

      throws :
          (n : Bytes)
          → token cfg c ≢ eol
          → (past : ℕ) → expect_eol cfg (c ∷ n ++ terminator past) ≡ throw unexpected_token
      throws [] ne past = ground arith
      throws (d ∷ n) ne past = ground arith

      go :
          (t : Token)
          → token cfg c ≡ t
          → ((rest : ℕ → Bytes) × ((past : ℕ)
                → expect_eol cfg (c ∷ m ++ terminator past) ≡ ok (rest past)))
            ⊎ ((past : ℕ) → expect_eol cfg (c ∷ m ++ terminator past) ≡ throw unexpected_token)
      go eol e = inl (λ past. m ++ terminator past, λ past. behind m e past)
      go character e = inr (λ past. throws m (λ q. cc) past)
      go delimeter_sym e = inr (λ past. throws m (λ q. cc) past)
      go quote_sym e = inr (λ past. throws m (λ q. cc) past)
      go escape_sym e = inr (λ past. throws m (λ q. cc) past)

  -- Every text is parsed to its columns or refused with an exception: the parser does not run out of
  -- the text's memory, and the byte behind the terminating zero, which it reads, has no influence.
  pub parse_line_total :
      (s : Bytes)
      → ((cols : Columns) × ((past : ℕ) → parse_line cfg s past ≡ ok cols))
        ⊎ ((past : ℕ) → parse_line cfg s past ≡ throw unexpected_token)
  unfolding parse_line
  parse_line_total s = elim (fields_stop (suc (length s)) s [] (omega arith)) [
    | inr r ↦ inr (λ past. rw (r past) refl)
    | inl (rest, cols, g, r) ↦ elim (expect_eol_stops rest) [
      | inl (behind, q) ↦ inl (cols, λ past. rw (r past, q past) refl)
      | inr q ↦ inr (λ past. rw (r past, q past) refl)
    ]
  ]
