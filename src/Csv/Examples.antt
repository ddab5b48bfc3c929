-- ===== src/Csv/Examples.antt =====
-- The theorems on CSV lines at concrete inputs, and runs of the parser.
use primitives.Prelude.{
  ℕ, ◌≡◌, refl, ◌⊎◌, List, [], ◌∷◌, All, none, some, arith, codes, ok, throw, unexpected_token,
}
use mathlib.Core.List.{cons-ne-nil}
use mathlib.Core.Logic.{inl}
use primitives.Csv.{
  expect_quote, quoted_run, quoted_field, normal_run, normal_field, fields, Config, Columns, token,
  field, expect_eol, parse_line,
}
use primitives.Csv.Total.{parse_line_total}
use primitives.Csv.Write.{
  escaped, spelled, Cell, absent, bare, quoted, columns, line, IsDialect, Spellable,
}
use primitives.Csv.RoundTrip.{parse_line-line}

-- The defaults of parse_line.
abbrev defaults : Config
defaults = record { delimeter = 44; quote = 34; escape = 92 }

abbrev cells : List Cell
cells = absent ∷ quoted (codes "a,\"b") ∷ []

written : line defaults (bare (codes "x") ∷ cells) ≡ codes "x,,\"a,\\\"b\""
unfolding line spelled escaped
written = refl

parsed :
    parse_line defaults (codes "x,,\"a,\\\"b\"") 7
    ≡ ok (some (codes "x") ∷ none ∷ some (codes "a,\"b") ∷ [])
unfolding parse_line fields field normal_field normal_run quoted_field quoted_run expect_quote
    expect_eol
parsed = refl

-- An escape that no quote follows is refused inside quotes.
escape_alone : parse_line defaults (codes "\"a\\b\"") 7 ≡ throw unexpected_token
unfolding parse_line fields field quoted_field quoted_run expect_quote
escape_alone = refl

defaults-IsDialect : IsDialect defaults
defaults-IsDialect = record {
  delimeter_ok = omega arith;
  quote_ok = omega arith;
  escape_ok = omega arith;
  quote_apart = omega arith;
  escape_apart = omega arith;
}

cells-Spellable : All (Spellable defaults) (bare (codes "x") ∷ cells)
unfolding token
cells-Spellable = (
  (cons-ne-nil _ _, (refl, tt)),
  (
    tt,
    (
      (
        (omega arith, inl (omega arith)),
        (
          (omega arith, inl (omega arith)),
          ((omega arith, inl (omega arith)), ((omega arith, inl (omega arith)), tt)),
        ),
      ),
      tt,
    ),
  ),
)

parse_line-line_example :
    parse_line defaults (line defaults (bare (codes "x") ∷ cells)) 7
    ≡ ok (columns (bare (codes "x") ∷ cells))
parse_line-line_example =
    parse_line-line defaults defaults-IsDialect (bare (codes "x")) cells 7 cells-Spellable

parse_line_total_example :
    ((cols : Columns) × ((past : ℕ) → parse_line defaults (codes "a,\"b") past ≡ ok cols))
    ⊎ ((past : ℕ) → parse_line defaults (codes "a,\"b") past ≡ throw unexpected_token)
parse_line_total_example = parse_line_total defaults (codes "a,\"b")
