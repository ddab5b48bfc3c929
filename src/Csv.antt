-- ===== src/Csv.antt =====
-- The parser of one CSV line: primitives::csv::Parser (src/csv/include/primitives/csv.h).
-- The text's memory is its bytes, the zero byte behind them and what happens to lie further on: the
-- parser reads there once. A cursor is the memory from p on; `sym` is the token at p.
pub mod Runs
pub mod Total
pub mod Write
pub mod RoundTrip
mod Examples
use primitives.Prelude.{
  ℕ, zero, suc, ◌+◌, Bool, true, false, ◌&&◌, ◌||◌, List, [], ◌∷◌, ◌++◌, Option, none, some, Bytes,
  length, ◌==◌, if◌then◌else◌, Outcome, ok, throw, undefined, unexpected_token, ◌>>=◌,
}

pub data Token : Type 0 where
  delimeter_sym eol quote_sym escape_sym character : Token

pub record Config : Type 0 where
  pub delimeter : ℕ
  pub quote : ℕ
  pub escape : ℕ

abbrev pub Columns : Type 0
Columns = List (Option Bytes)

-- A state of the parser: the memory from p on and the columns so far.
abbrev pub State : Type 0
State = Bytes × Columns

module _ (cfg : Config) where
  -- nextsym1, at the byte under p.
  unfoldable pub token : ℕ → Token
  token c =
      if c == 0
      then eol
      else if c == cfg.delimeter
      then delimeter_sym
      else if c == cfg.quote
      then quote_sym
      else if c == cfg.escape
      then escape_sym
      else character

  -- What the escape token is for accept_quoted_symbol.
  unfoldable pub tok_escape : Token
  tok_escape = if cfg.quote == cfg.escape then quote_sym else escape_sym

  -- accept_quoted_symbol at two bytes: an escape, then a quote. If the second is no quote, p goes back.
  unfoldable pub is_quoted_symbol : ℕ → ℕ → Bool
  unfolding token tok_escape
  is_quoted_symbol c d = elim tok_escape [
    | quote_sym ↦ elim (token c) [
      | quote_sym ↦ elim (token d) [ quote_sym ↦ true | _ ↦ false ]
      | _ ↦ false
    ]
    | _ ↦ elim (token c) [
      | escape_sym ↦ elim (token d) [ quote_sym ↦ true | _ ↦ false ]
      | _ ↦ false
    ]
  ]

  -- The loop of normal_field: the field's bytes and the memory behind them.
  unfoldable pub normal_run : Bytes → Bytes → Outcome (Bytes × Bytes)
  unfolding token
  normal_run [] buf = undefined
  normal_run (c ∷ m) buf = elim (token c) [
    | character ↦ normal_run m (buf ++ c ∷ [])
    | _ ↦ ok (buf, c ∷ m)
  ]

  unfoldable pub normal_field : State → Outcome State
  normal_field (m, cols) = do
    (buf, rest) ← normal_run m []
    ok (rest, cols ++ (elim buf [ [] ↦ none | b ∷ bs ↦ some (b ∷ bs) ]) ∷ [])

  -- The loop of quoted_field. It looks at a second byte only behind an escape.
  unfoldable pub quoted_run : Bytes → Bytes → Outcome (Bytes × Bytes)
  unfolding token is_quoted_symbol
  quoted_run [] buf = undefined
  quoted_run (c ∷ []) buf = elim (token c) [ eol ↦ ok (buf, c ∷ []) | _ ↦ undefined ]
  quoted_run (c ∷ d ∷ m) buf = elim (token c) [
    | character ↦ quoted_run (d ∷ m) (buf ++ c ∷ [])
    | delimeter_sym ↦ quoted_run (d ∷ m) (buf ++ c ∷ [])
    | eol ↦ ok (buf, c ∷ d ∷ m)
    | quote_sym ↦ elim (is_quoted_symbol c d) [
      | true ↦ quoted_run m (buf ++ d ∷ [])
      | false ↦ ok (buf, c ∷ d ∷ m)
    ]
    | escape_sym ↦ elim (is_quoted_symbol c d) [
      | true ↦ quoted_run m (buf ++ d ∷ [])
      | false ↦ ok (buf, c ∷ d ∷ m)
    ]
  ]

  -- expect: an unexpected token is thrown, and accepting reads the next byte.
  unfoldable pub expect_quote : Bytes → Outcome Bytes
  unfolding token
  expect_quote [] = undefined
  expect_quote (c ∷ m) = elim (token c) [
    | quote_sym ↦ elim m [ [] ↦ undefined | d ∷ n ↦ ok (d ∷ n) ]
    | _ ↦ throw unexpected_token
  ]

  unfoldable pub expect_eol : Bytes → Outcome Bytes
  unfolding token
  expect_eol [] = undefined
  expect_eol (c ∷ m) = elim (token c) [
    | eol ↦ elim m [ [] ↦ undefined | d ∷ n ↦ ok (d ∷ n) ]
    | _ ↦ throw unexpected_token
  ]

  unfoldable pub quoted_field : State → Outcome State
  quoted_field (m, cols) = do (buf, rest) ← quoted_run m []; ok (rest, cols ++ some buf ∷ [])

  unfoldable pub field : State → Outcome State
  unfolding token
  field ([], cols) = undefined
  field (c ∷ m, cols) = elim (token c) [
    | quote_sym ↦ do
      (rest, cols') ← quoted_field (m, cols)
      behind ← expect_quote rest
      ok (behind, cols')
    | _ ↦ normal_field (c ∷ m, cols)
  ]

  -- fields: a field, and one more behind each delimeter. The fuel bounds the fields.
  unfoldable pub fields : ℕ → State → Outcome State
  unfolding token
  fields zero s = undefined
  fields (suc f) s = do
    (m, cols) ← field s
    elim m [
      | [] ↦ undefined
      | c ∷ m' ↦ elim (token c) [ delimeter_sym ↦ fields f (m', cols) | _ ↦ ok (c ∷ m', cols) ]
    ]

  -- parse_line: the byte `past` is what lies behind the zero byte.
  unfoldable pub parse_line : Bytes → ℕ → Outcome Columns
  parse_line s past = do
    (m, cols) ← fields (suc (length s)) (s ++ (0 ∷ past ∷ []), [])
    behind ← expect_eol m
    ok cols
