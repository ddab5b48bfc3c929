-- ===== src/Version/Parse.antt =====
-- Parsing: the Ragel machines of Version::parse and Extra::parse (src/version/src/version.rl), and
-- the constructors from a text (src/version/src/version.cpp). pystring::strip is a parameter.
mod Parts
pub mod RoundTrip
use primitives.Prelude.{
  ℕ, zero, suc, ◌≡◌, refl, Bool, true, false, ◌&&◌, ◌||◌, List, [], ◌∷◌, ◌++◌, Option, none, some,
  arith, Bytes, length, all, leb, ltb, ◌==◌, if◌then◌else◌, Outcome, ok, throw, ◌>>=◌, empty_text,
  invalid_extra, invalid_version,
}
use primitives.Prelude.Int.{ℤ, pos, max_int64}
use primitives.Prelude.Decimal.{is_digit, digit_value, stoll}
use primitives.Version.{Version, Extra, Value, text, number, no_extra}

-- part ('.' part)*: `current` is the text since the part began, `leave` its leaving action.
-- `none` is the machine's error state, or an end outside its final states.
module _ {A : Type 0} (in_part : ℕ → Bool) (leave : Bytes → Outcome A) where
  unfoldable pub parts : Bytes → Bytes → List A → Outcome (Option (List A))
  parts [] [] found = ok none
  parts [] (d ∷ current) found = do a ← leave (d ∷ current); ok (some (found ++ a ∷ []))
  parts (c ∷ s) current found = elim (in_part c) [
    | true ↦ parts s (current ++ c ∷ []) found
    | false ↦ elim (c == b'.') [
      | false ↦ ok none
      | true ↦ elim current [
        | [] ↦ ok none
        | d ∷ ds ↦ do a ← leave (d ∷ ds); parts s [] (found ++ a ∷ [])
      ]
    ]
  ]

abbrev pub is_alnum_ : ℕ → Bool
is_alnum_ c = is_digit c || (leb b'a' c && leb c b'z') || (leb b'A' c && leb c b'Z') || (c == b'_')

abbrev pub size_limit : ℕ
size_limit = 8192

unfoldable pub parse_numbers : Bytes → Outcome (Option (List ℤ))
parse_numbers s = if ltb size_limit (length s) then ok none else parts is_digit stoll s [] []

-- Action ADD_EXTRA: a part that std::from_chars reads whole is a number, any other is a text.
unfoldable pub extra_value : Bytes → Outcome Value
extra_value s =
    if all is_digit s && leb (digit_value 0 s) max_int64
    then ok (number (pos (digit_value 0 s)))
    else ok (text s)

unfoldable pub parse_extra : Bytes → Outcome (Option (List Value))
parse_extra s = if ltb size_limit (length s) then ok none else parts is_alnum_ extra_value s [] []

-- The text before the first '-', and the text behind it if there is one.
unfoldable pub cut_extra : Bytes → Bytes × Option Bytes
cut_extra [] = ([], none)
cut_extra (c ∷ s) =
    let (before, behind) = cut_extra s in if c == b'-' then ([], some s) else (c ∷ before, behind)

module _ (strip : Bytes → Bytes) where
  -- Extra::Extra(const std::string &).
  unfoldable pub extra_of_string : Bytes → Outcome Extra
  extra_of_string [] = throw empty_text
  extra_of_string (c ∷ s) = do
    parsed ← parse_extra (strip (c ∷ s))
    elim parsed [ none ↦ throw invalid_extra | some vs ↦ ok (record { values = vs }) ]

  extra_behind : Option Bytes → Outcome Extra
  extra_behind none = ok no_extra
  extra_behind (some es) = extra_of_string es

  -- Version::Version(const std::string &).
  unfoldable pub of_string : Bytes → Outcome Version
  unfolding extra_behind
  of_string s = do
    let (ps, es) = cut_extra (strip s)
    e ← extra_behind es
    parsed ← parse_numbers ps
    elim parsed [ none ↦ throw invalid_version | some ns ↦ ok (record { numbers = ns; extra = e }) ]
