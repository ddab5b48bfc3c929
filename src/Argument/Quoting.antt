-- ===== src/Argument/Quoting.antt =====
-- A quoted argument is read back by what reads such literals: a quote, bytes with an escape in front of
-- quotes and escapes, and a quote.
use primitives.Prelude.{
  ℕ, ◌≡◌, refl, ap, ◌∙◌, false, [], ◌∷◌, ◌++◌, append_assoc, append-nil, Option, none, some, arith,
  Bytes, ◌==◌, Bool-cases, inl, inr, if◌then◌else◌,
}
use primitives.Argument.{
  quote, quote_simple, quote_escape, quote_mark, backslash, simple_and_escape,
}

-- boost::replace_all at a pattern of one byte, as it is documented.
abbrev pub replaced : ℕ → Bytes → Bytes → Bytes
replaced c t [] = []
replaced c t (d ∷ s) = if d == c then t ++ replaced c t s else d ∷ replaced c t s

abbrev pub Replaces : (Bytes → Bytes → Bytes → Bytes) → Type 0
Replaces replace_all = (s : Bytes) (c : ℕ) (t : Bytes) → replace_all s (c ∷ []) t ≡ replaced c t s

-- The bytes of a literal up to its closing quote, behind `read`, and what follows.
abbrev pub literal_body : Bytes → Bytes → Option (Bytes × Bytes)
literal_body read [] = none
literal_body read (c ∷ []) = if c == quote_mark then some (read, []) else none
literal_body read (c ∷ d ∷ s) =
    let unescaped = literal_body (read ++ d ∷ []) s in
    let plain = literal_body (read ++ c ∷ []) (d ∷ s) in
    if c == quote_mark then some (read, d ∷ s) else if c == backslash then unescaped else plain

abbrev pub read_literal : Bytes → Option (Bytes × Bytes)
read_literal [] = none
read_literal (c ∷ s) = if c == quote_mark then literal_body [] s else none

-- What quote_escape gives, in one pass.
abbrev escaped_bytes : Bytes → Bytes
escaped_bytes [] = []
escaped_bytes (c ∷ s) =
    if c == quote_mark
    then backslash ∷ quote_mark ∷ escaped_bytes s
    else if c == backslash
    then backslash ∷ backslash ∷ escaped_bytes s
    else c ∷ escaped_bytes s

two_passes :
    (s : Bytes)
    → replaced quote_mark
        (backslash ∷ quote_mark ∷ [])
        (replaced backslash (backslash ∷ backslash ∷ []) s)
      ≡ escaped_bytes s
two_passes [] = refl
two_passes (c ∷ s) = elim (Bool-cases (c == backslash)) [
  | inl e ↦
      let n : (c == quote_mark) ≡ false = ground arith in
      rw (replaced, escaped_bytes, e, n, two_passes s) refl
  | inr e ↦ elim (Bool-cases (c == quote_mark)) [
    | inl q ↦ rw (replaced, escaped_bytes, e, q, two_passes s) refl
    | inr q ↦ rw (replaced, escaped_bytes, e, q, two_passes s) refl
  ]
]

literal_body-plain :
    (c : ℕ) (read m : Bytes)
    → (c == quote_mark) ≡ false
    → (c == backslash) ≡ false
    → literal_body read (c ∷ m) ≡ literal_body (read ++ c ∷ []) m
literal_body-plain c read [] q b = rw (literal_body, q) refl
literal_body-plain c read (d ∷ m) q b = rw (literal_body, q, b) refl

literal_body-escaped :
    (s read rest : Bytes)
    → literal_body read (escaped_bytes s ++ quote_mark ∷ rest) ≡ some (read ++ s, rest)
literal_body-escaped [] read [] = rw (append-nil read) refl
literal_body-escaped [] read (d ∷ rest) = rw (append-nil read) refl
literal_body-escaped (c ∷ s) read rest =
    let more =
      literal_body-escaped s (read ++ c ∷ []) rest
      ∙ ap (λ t. some (t, rest)) (append_assoc read (c ∷ []) s) in
    let m = escaped_bytes s ++ quote_mark ∷ rest in
    elim (Bool-cases (c == quote_mark)) [
      | inl q ↦
          let e : quote_mark ≡ c = ground arith in
          rw (escaped_bytes, q) (ap (λ t. literal_body (read ++ t ∷ []) m) e ∙ more)
      | inr q ↦ elim (Bool-cases (c == backslash)) [
        | inl b ↦
            let e : backslash ≡ c = ground arith in
            rw (escaped_bytes, q, b) (ap (λ t. literal_body (read ++ t ∷ []) m) e ∙ more)
        | inr b ↦ rw (escaped_bytes, q, b) (literal_body-plain c read m q b ∙ more)
      ]
    ]

-- Escaped text does not begin with a quote, so the quotes are added.
quote_simple-escaped :
    (s : Bytes) → quote_simple (escaped_bytes s) ≡ quote_mark ∷ (escaped_bytes s ++ quote_mark ∷ [])
unfolding quote_simple
quote_simple-escaped [] = refl
quote_simple-escaped (c ∷ s) = elim (Bool-cases (c == quote_mark)) [
  | inl q ↦ rw (escaped_bytes, q) refl
  | inr q ↦ elim (Bool-cases (c == backslash)) [
    | inl e ↦ rw (escaped_bytes, q, e) refl
    | inr e ↦ rw (escaped_bytes, q, e, quote_simple, q) refl
  ]
]

-- An argument quoted by SimpleAndEscape is one literal, whatever text follows it: what reads literals
-- gives the argument back and goes on behind the closing quote.
pub read_literal-quote :
    (replace_all : Bytes → Bytes → Bytes → Bytes)
    → Replaces replace_all
    → (s rest : Bytes)
    → read_literal (quote replace_all s simple_and_escape ++ rest) ≡ some (s, rest)
unfolding quote quote_escape
read_literal-quote replace_all h s rest =
    rw
      (
        h s backslash (backslash ∷ backslash ∷ []),
        h (replaced backslash (backslash ∷ backslash ∷ []) s) quote_mark
            (backslash ∷ quote_mark ∷ []),
        two_passes s,
        quote_simple-escaped s,
        append_assoc (escaped_bytes s) (quote_mark ∷ []) rest,
      )
      (literal_body-escaped s [] rest)
