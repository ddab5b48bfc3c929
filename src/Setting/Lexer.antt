-- ===== src/Setting/Lexer.antt =====
-- The lexer of path.ll and the grammar of path.yy in src/settings/src, and SettingPath::parse.
use primitives.Prelude.{
  ℕ, zero, suc, ◌+◌, ◌*◌, ◌-◌, Bool, not, ◌&&◌, ◌||◌, Option, none, some, List, [], ◌∷◌, ◌++◌,
  Bytes, length, take, all, leb, ◌==◌, if◌then◌else◌, Outcome, ok, throw, ◌>>=◌, bad_path,
}
use primitives.Setting.{
  c_string, is_between, is_control, is_bare, unescape_setting_char, cp2utf8, Parts,
}

pub data PathToken : Type 0 where
  point : PathToken
  bare_string : Bytes → PathToken
  start_basic_string : PathToken
  basic_string : Bytes → PathToken

-- The start conditions, with driver.str.
pub data Mode : Type 0 where
  initial : Mode
  ll_basic : Bytes → Mode
  ll_literal : Bytes → Mode

-- What a rule does: the token it returns, the condition it leaves, and how many chars it matches
-- behind the first. The rule of ERROR_SYMBOL is none.
pub record Match : Type 0 where
  token : Option PathToken
  mode : Mode
  more : ℕ

abbrev pub step_to : Mode → ℕ → Option Match
step_to m n = some (record { token = none; mode = m; more = n })

abbrev pub returns : PathToken → Mode → ℕ → Option Match
returns t m n = some (record { token = some t; mode = m; more = n })

-- The longest match of bare.
abbrev pub bare_run : Bytes → Bytes
bare_run [] = []
bare_run (c ∷ s) = let rest = bare_run s in if is_bare c then c ∷ rest else []

abbrev pub is_xdigit : ℕ → Bool
is_xdigit c = is_between b'0' b'9' c || is_between b'A' b'F' c || is_between b'a' b'f' c

abbrev pub xdigit_value : ℕ → ℕ
xdigit_value c = if leb c b'9' then c - 48 else if leb c b'F' then c - 55 else c - 87

abbrev pub hex_value : ℕ → Bytes → ℕ
hex_value n [] = n
hex_value n (c ∷ s) = hex_value (n * 16 + xdigit_value c) s

abbrev pub code_point : Bytes → ℕ → Bytes → Option Match
code_point str n s =
    if length (take n s) == n && all is_xdigit (take n s)
    then step_to (ll_basic (str ++ cp2utf8 (hex_value 0 (take n s)))) (suc n)
    else step_to (ll_basic (str ++ (92 ∷ []))) 0

-- Behind a backslash. A backslash that no longer rule takes is a char as any other.
abbrev pub behind_backslash : Bytes → Bytes → Option Match
behind_backslash str [] = step_to (ll_basic (str ++ (92 ∷ []))) 0
behind_backslash str (c ∷ s) =
    if c == b'u'
    then code_point str 4 s
    else if c == b'U'
    then code_point str 8 s
    else if unescape_setting_char c == 0
    then none
    else step_to (ll_basic (str ++ (unescape_setting_char c ∷ []))) 1

unfoldable pub rule : Mode → ℕ → Bytes → Option Match
rule initial c s =
    if c == 32 || c == 9
    then step_to initial 0
    else if c == b'.'
    then returns point initial 0
    else if is_bare c
    then returns (bare_string (c ∷ bare_run s)) initial (length (bare_run s))
    else if c == 34
    then returns start_basic_string (ll_basic []) 0
    else if c == 39
    then returns start_basic_string (ll_literal []) 0
    else none
rule (ll_basic str) c s =
    if c == 92
    then behind_backslash str s
    else if c == 34
    then returns (basic_string str) initial 0
    else if is_control c
    then none
    else step_to (ll_basic (str ++ (c ∷ []))) 0
rule (ll_literal str) c s =
    if c == 39
    then returns (basic_string str) initial 0
    else if is_control c && not (c == 9)
    then none
    else step_to (ll_literal (str ++ (c ∷ []))) 0

abbrev pub emit : Option PathToken → Outcome (List PathToken) → Outcome (List PathToken)
emit none rest = rest
emit (some t) rest = rest >>= λ ts. ok (t ∷ ts)

abbrev pub follow : Option Match → (Mode → ℕ → Outcome (List PathToken)) → Outcome (List PathToken)
follow none next = throw bad_path
follow (some r) next = emit r.token (next r.mode r.more)

-- The number is that of the chars that the last match still takes.
unfoldable pub tokens : Mode → ℕ → Bytes → Outcome (List PathToken)
tokens m n [] = ok []
tokens m (suc n) (c ∷ s) = tokens m n s
tokens m zero (c ∷ s) = follow (rule m c s) (λ k n. tokens k n s)

-- The rules parts and part.
unfoldable pub parts_of : List PathToken → Outcome Parts
parts_of (bare_string p ∷ []) = ok (p ∷ [])
parts_of (bare_string p ∷ point ∷ ts) = parts_of ts >>= λ ps. ok (p ∷ ps)
parts_of (start_basic_string ∷ basic_string p ∷ []) = ok (p ∷ [])
parts_of (start_basic_string ∷ basic_string p ∷ point ∷ ts) = parts_of ts >>= λ ps. ok (p ∷ ps)
parts_of _ = throw bad_path

abbrev pub file : List PathToken → Outcome Parts
file [] = ok []
file (t ∷ ts) = parts_of (t ∷ ts)

-- The scanner is given s.c_str().
unfoldable pub parse : Bytes → Outcome Parts
parse [] = ok []
parse (c ∷ s) = tokens initial 0 (c_string (c ∷ s)) >>= file
