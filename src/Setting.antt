-- ===== src/Setting.antt =====
-- The paths of settings of src/settings/src/settings.cpp, with the rules of its path.ll and path.yy.
use primitives.Prelude.{
  ℕ, zero, suc, ◌+◌, ◌*◌, ◌/◌, ◌%◌, ◌^◌, ◌-◌, Bool, true, false, ◌&&◌, ◌||◌, Option, none, some,
  List, [], ◌∷◌, ◌++◌, Bytes, codes, length, take, all, leb, ltb, ◌==◌, if◌then◌else◌, Outcome, ok,
  throw, bad_path,
}
pub mod Lexer
pub mod Text
pub mod Parse
mod Examples

abbrev pub is_between : ℕ → ℕ → ℕ → Bool
is_between a b c = leb a c && leb c b

-- iscntrl and isalnum of ASCII.
abbrev pub is_control : ℕ → Bool
is_control c = leb c 31 || c == 127

abbrev pub is_alnum : ℕ → Bool
is_alnum c = is_between b'0' b'9' c || is_between b'A' b'Z' c || is_between b'a' b'z' c

-- A char of a basic part, and one of path.ll's bare.
abbrev pub is_bare : ℕ → Bool
is_bare c = is_alnum c || c == b'_' || c == b'-'

-- A char that stands for nothing gives 0.
unfoldable pub unescape_setting_char : ℕ → ℕ
unescape_setting_char c =
    if c == b'n'
    then 10
    else if c == 34
    then 34
    else if c == 92
    then 92
    else if c == b'r'
    then 13
    else if c == b't'
    then 9
    else if c == b'f'
    then 12
    else if c == b'b'
    then 8
    else 0

unfoldable pub hex : ℕ → ℕ
hex n = if ltb n 10 then 48 + n else 55 + n

abbrev pub escape_setting_part : Bytes → Bytes
escape_setting_part [] = []
escape_setting_part (c ∷ s) =
    let rest = escape_setting_part s in
    if is_control c then codes "\\u00" ++ (hex (c / 16) ∷ hex (c % 16) ∷ rest) else c ∷ rest

-- std::string(const char *): what is before the first zero.
abbrev pub c_string : Bytes → Bytes
c_string [] = []
c_string (zero ∷ s) = []
c_string (suc c ∷ s) = suc c ∷ c_string s

-- The number is that of 32 bits that sscanf writes into an int, which may be negative.
unfoldable pub cp2utf8 : ℕ → Bytes
cp2utf8 cp =
    if leb cp 127 || leb (2 ^ 31) cp
    then c_string (cp % 256 ∷ [])
    else if leb cp 2047
    then c_string ((cp / 64 + 192) ∷ (cp % 64 + 128) ∷ [])
    else if is_between 55296 57343 cp
    then []
    else if leb cp 65535
    then c_string ((cp / 4096 + 224) ∷ (cp / 64 % 64 + 128) ∷ (cp % 64 + 128) ∷ [])
    else if leb cp 1114111
    then c_string
        ((cp / 262144 + 240) ∷ (cp / 4096 % 64 + 128) ∷ (cp / 64 % 64 + 128) ∷ (cp % 64 + 128) ∷ [])
    else []

-- SettingPath.
abbrev pub Parts : Type 0
Parts = List Bytes

abbrev pub is_basic : Bytes → Bool
is_basic = all is_bare

abbrev pub printed_part : Bytes → Bytes
printed_part p = if is_basic p then p else 34 ∷ (escape_setting_part p ++ (34 ∷ []))

abbrev pub printed_parts : Parts → Bytes
printed_parts [] = []
printed_parts (p ∷ ps) = printed_part p ++ (b'.' ∷ printed_parts ps)

abbrev pub without_last : Bytes → Bytes
without_last [] = []
without_last (c ∷ []) = []
without_last (c ∷ d ∷ s) = c ∷ without_last (d ∷ s)

unfoldable pub path_text : Parts → Bytes
path_text ps = without_last (printed_parts ps)
