-- ===== src/Patch/Header.antt =====
-- The regular expression of a hunk's header, r_hunk, and std::stoi on its groups
-- (src/patch/src/patch.cpp).
use primitives.Prelude.{
  ℕ, ◌-◌, ◌^◌, Bool, true, false, not, ◌&&◌, [], ◌∷◌, ◌++◌, Option, none, some, Bytes, codes, all,
  leb, ◌==◌, if◌then◌else◌, Outcome, ok, throw, out_of_range,
}
use primitives.Prelude.Decimal.{is_digit, digit_value}

abbrev pub newline : ℕ
newline = 10

abbrev pub carriage_return : ℕ
carriage_return = 13

infixl 5 ◌>>=◌
abbrev ◌>>=◌ {ℓ κ} : {A : Type ℓ} {B : Type κ} → Option A → (A → Option B) → Option B
none >>= next = none
some a >>= next = next a

-- The literals of the expression.
unfoldable pub literal : Bytes → Bytes → Option Bytes
literal [] s = some s
literal (c ∷ cs) [] = none
literal (c ∷ cs) (d ∷ s) = elim (c == d) [ true ↦ literal cs s | false ↦ none ]

-- (\d+): the digits, and what is behind them.
unfoldable pub digit_run : Bytes → Bytes → Option (Bytes × Bytes)
digit_run [] [] = none
digit_run (c ∷ found) [] = some (c ∷ found, [])
digit_run found (d ∷ s) = elim (is_digit d) [
  | true ↦ digit_run (found ++ d ∷ []) s
  | false ↦ elim found [ [] ↦ none | c ∷ cs ↦ some (c ∷ cs, d ∷ s) ]
]

-- (.*) stops at line ends.
abbrev pub line_rest : Bytes → Bool
line_rest s = all (λ c. not (c == newline) && not (c == carriage_return)) s

-- r_hunk: the four numbers of `@@ -1,3 +1,9 @@ some extra info here`.
unfoldable pub hunk_numbers : Bytes → Option (Bytes × Bytes × Bytes × Bytes)
hunk_numbers s = do
  s₁ ← literal (codes "@@ -") s
  (ol, s₂) ← digit_run [] s₁
  s₃ ← literal (codes ",") s₂
  (os, s₄) ← digit_run [] s₃
  s₅ ← literal (codes " +") s₄
  (nl, s₆) ← digit_run [] s₅
  s₇ ← literal (codes ",") s₆
  (ns, s₈) ← digit_run [] s₇
  s₉ ← literal (codes " @@") s₈
  if line_rest s₉ then some (ol, os, nl, ns) else none

-- std::stoi on a text of digits.
unfoldable pub stoi : Bytes → Outcome ℕ
stoi s = if leb (digit_value 0 s) (2 ^ 31 - 1) then ok (digit_value 0 s) else throw out_of_range
