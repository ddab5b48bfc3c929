-- ===== src/Csv/Write.antt =====
-- Lines of cells as a grammar describes them, to compare the parser with: how each cell is spelled,
-- and which column it stands for.
use primitives.Prelude.{
  ◌⊎◌, ◌≡◌, ◌≢◌, List, [], ◌∷◌, ◌++◌, Option, none, some, Bytes, All, ◌==◌, if◌then◌else◌,
}
use primitives.Csv.{character, Config, Columns, token}

-- A cell is absent, bare text, or text in quotes.
pub data Cell : Type 0 where
  absent : Cell
  bare : Bytes → Cell
  quoted : Bytes → Cell

unfoldable pub column : Cell → Option Bytes
column absent = none
column (bare s) = some s
column (quoted s) = some s

unfoldable pub columns : List Cell → Columns
columns [] = []
columns (c ∷ cs) = column c ∷ columns cs

module _ (cfg : Config) where
  -- Inside quotes, a quote follows an escape.
  unfoldable pub escaped : Bytes → Bytes
  escaped [] = []
  escaped (c ∷ s) = if c == cfg.quote then cfg.escape ∷ cfg.quote ∷ escaped s else c ∷ escaped s

  unfoldable pub spelled : Cell → Bytes
  spelled absent = []
  spelled (bare s) = s
  spelled (quoted s) = cfg.quote ∷ (escaped s ++ cfg.quote ∷ [])

  -- The cells with a delimeter between them.
  unfoldable pub line : List Cell → Bytes
  line [] = []
  line (c ∷ []) = spelled c
  line (c ∷ d ∷ cs) = spelled c ++ cfg.delimeter ∷ line (d ∷ cs)

  -- The three special bytes are not zero, and the delimeter is neither the quote nor the escape.
  pub record IsDialect : Type 0 where
    pub delimeter_ok : cfg.delimeter ≢ 0
    pub quote_ok : cfg.quote ≢ 0
    pub escape_ok : cfg.escape ≢ 0
    pub quote_apart : cfg.quote ≢ cfg.delimeter
    pub escape_apart : cfg.escape ≢ cfg.delimeter

  -- Bare text has no special byte; text in quotes has no zero byte and no escape that is not a quote.
  abbrev pub Spellable : Cell → Type 0
  Spellable absent = Unit
  Spellable (bare s) = (s ≢ []) × All (λ c. token cfg c ≡ character) s
  Spellable (quoted s) = All (λ c. (c ≢ 0) × ((c ≢ cfg.escape) ⊎ (cfg.escape ≡ cfg.quote))) s
