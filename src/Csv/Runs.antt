-- ===== src/Csv/Runs.antt =====
-- The two loops over bytes of the parser stop at the zero byte that ends the text.
use primitives.Prelude.{
  ℕ, ◌≤◌, ◌≡◌, refl, ◌∙◌, inl, inr, true, false, Bool-cases, [], ◌∷◌, ◌++◌, arith, Bytes, length,
  Outcome, ok,
}
use primitives.Csv.{
  Token, delimeter_sym, eol, quote_sym, escape_sym, character, Config, token, is_quoted_symbol,
  normal_run, quoted_run,
}

-- The zero byte behind the text, and the byte after it.
abbrev pub terminator : ℕ → Bytes
terminator past = 0 ∷ past ∷ []

module _ (cfg : Config) where
  pub token-zero : token cfg 0 ≡ eol
  unfolding token
  token-zero = refl

  pub not_quoted : (c : ℕ) → is_quoted_symbol cfg c 0 ≡ false
  unfolding is_quoted_symbol
  not_quoted c = ground arith

  -- A run stops inside the text or at the zero byte, and does not look at what lies behind.
  abbrev pub Stops : (Bytes → Bytes → Outcome (Bytes × Bytes)) → Bytes → Bytes → Type 0
  Stops run m buf =
      (out : Bytes) × (rest : Bytes) × (length rest ≤ length m)
      × ((past : ℕ) → run (m ++ terminator past) buf ≡ ok (out, rest ++ terminator past))

  pub normal_run-Stops : (m buf : Bytes) → Stops (normal_run cfg) m buf
  unfolding normal_run
  normal_run-Stops [] buf = (buf, [], omega arith, λ past. refl)
  normal_run-Stops (c ∷ m) buf = go (token cfg c) refl (normal_run-Stops m (buf ++ c ∷ []))
    where
      go :
          (t : Token)
          → token cfg c ≡ t
          → Stops (normal_run cfg) m (buf ++ c ∷ [])
          → Stops (normal_run cfg) (c ∷ m) buf
      go character e (out, rest, h, r) =
          (out, rest, omega arith, λ past. rw (e, normal_run) (r past))
      go delimeter_sym e _ = (buf, c ∷ m, omega arith, λ past. rw (e, normal_run))
      go eol e _ = (buf, c ∷ m, omega arith, λ past. rw (e, normal_run))
      go quote_sym e _ = (buf, c ∷ m, omega arith, λ past. rw (e, normal_run))
      go escape_sym e _ = (buf, c ∷ m, omega arith, λ past. rw (e, normal_run))

  pub quoted_run-Stops : (m buf : Bytes) → Stops (quoted_run cfg) m buf
  unfolding quoted_run token
  quoted_run-Stops [] buf = (buf, [], omega arith, λ past. refl)
  quoted_run-Stops (c ∷ []) buf = go (token cfg c) refl (quoted_run-Stops [] (buf ++ c ∷ []))
    where
      go :
          (t : Token)
          → token cfg c ≡ t
          → Stops (quoted_run cfg) [] (buf ++ c ∷ [])
          → Stops (quoted_run cfg) (c ∷ []) buf
      go character e (out, rest, h, r) =
          (out, rest, omega arith, λ past. rw (e, quoted_run) (r past))
      go delimeter_sym e (out, rest, h, r) =
          (out, rest, omega arith, λ past. rw (e, quoted_run) (r past))
      go eol e _ = (buf, c ∷ [], omega arith, λ past. rw (e, quoted_run) refl)
      go quote_sym e _ = (buf, c ∷ [], omega arith, λ past. rw (e, quoted_run, not_quoted c) refl)
      go escape_sym e _ = (buf, c ∷ [], omega arith, λ past. rw (e, quoted_run, not_quoted c) refl)
  quoted_run-Stops (c ∷ d ∷ m) buf =
      go (token cfg c) refl (quoted_run-Stops (d ∷ m) (buf ++ c ∷ []))
        (quoted_run-Stops m (buf ++ d ∷ []))
    where
      symbol :
          ((past : ℕ)
            → quoted_run cfg (c ∷ d ∷ m ++ terminator past) buf ≡ elim (is_quoted_symbol cfg c d) [
              | true ↦ quoted_run cfg (m ++ terminator past) (buf ++ d ∷ [])
              | false ↦ ok (buf, c ∷ d ∷ m ++ terminator past)
            ])
          → Stops (quoted_run cfg) m (buf ++ d ∷ [])
          → Stops (quoted_run cfg) (c ∷ d ∷ m) buf
      symbol step (out, rest, h, r) = elim (Bool-cases (is_quoted_symbol cfg c d)) [
        | inl q ↦ (out, rest, omega arith, λ past. step past ∙ rw q (r past))
        | inr q ↦ (buf, c ∷ d ∷ m, omega arith, λ past. step past ∙ rw q refl)
      ]

      go :
          (t : Token)
          → token cfg c ≡ t
          → Stops (quoted_run cfg) (d ∷ m) (buf ++ c ∷ [])
          → Stops (quoted_run cfg) m (buf ++ d ∷ [])
          → Stops (quoted_run cfg) (c ∷ d ∷ m) buf
      go character e (out, rest, h, r) _ =
          (out, rest, omega arith, λ past. rw (e, quoted_run) (r past))
      go delimeter_sym e (out, rest, h, r) _ =
          (out, rest, omega arith, λ past. rw (e, quoted_run) (r past))
      go eol e _ _ = (buf, c ∷ d ∷ m, omega arith, λ past. rw (e, quoted_run) refl)
      go quote_sym e _ more = symbol (λ past. rw (e, quoted_run) refl) more
      go escape_sym e _ more = symbol (λ past. rw (e, quoted_run) refl) more
