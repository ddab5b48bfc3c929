-- ===== src/Setting/Text.antt =====
-- What the lexer of src/settings/src/path.ll makes of a part that toString writes.
use primitives.Prelude.{
  ℕ, zero, suc, ◌+◌, ◌*◌, ◌/◌, ◌%◌, ◌≡◌, ◌≢◌, ◌<◌, refl, inl, inr, true, false, some, List, [], ◌∷◌,
  ◌++◌, append_assoc, append-nil, Bytes, codes, length, All, leb, ◌==◌, Bool-cases, and_parts,
  if◌then◌else◌, Outcome, arith,
}
use primitives.Setting.{
  is_control, is_bare, is_basic, hex, escape_setting_part, cp2utf8, printed_part,
}
use primitives.Setting.Lexer.{
  PathToken, bare_string, start_basic_string, basic_string, Mode, initial, ll_basic, step_to,
  returns, bare_run, is_xdigit, xdigit_value, rule, emit, tokens,
}

-- What escapeSettingPart writes so that the lexer reads it back: no zero, quote or backslash.
abbrev pub Plain : ℕ → Type 0
Plain c = ((c == 0) ≡ false) × ((c == 34) ≡ false) × ((c == 92) ≡ false)

hex-xdigit : (n : ℕ) → n < 16 → is_xdigit (hex n) ≡ true
unfolding hex
hex-xdigit n h = ground arith

xdigit_value-hex : (n : ℕ) → n < 16 → xdigit_value (hex n) ≡ n
unfolding hex
xdigit_value-hex n h = ground arith

hex_value-hex : (c : ℕ) → (((0 * 16 + 0) * 16 + 0) * 16 + c / 16) * 16 + c % 16 ≡ c
hex_value-hex c = omega arith

control_bound : (c : ℕ) → is_control c ≡ true → c < 128
control_bound c h = ground arith

byte : (c : ℕ) → suc c < 128 → suc c % 256 ≡ suc c
byte c h = omega arith

low : (c : ℕ) → suc c < 128 → leb (suc c) 127 ≡ true
low c h = ground arith

cp2utf8-control : (c : ℕ) → is_control c ≡ true → (c == 0) ≡ false → cp2utf8 c ≡ c ∷ []
unfolding cp2utf8
cp2utf8-control zero h z = cc
cp2utf8-control (suc c) h z = let b = control_bound (suc c) h in rw (byte c b, low c b) refl

rule-control :
    (str s : Bytes) (c : ℕ)
    → is_control c ≡ true
    → (c == 0) ≡ false
    → rule (ll_basic str) 92 (codes "u00" ++ (hex (c / 16) ∷ hex (c % 16) ∷ s))
      ≡ step_to (ll_basic (str ++ (c ∷ []))) 5
unfolding rule
rule-control str s c h z =
    let b = control_bound c h in
    rw
      (
        hex-xdigit (c / 16) (omega arith),
        hex-xdigit (c % 16) (omega arith),
        xdigit_value-hex (c / 16) (omega arith),
        xdigit_value-hex (c % 16) (omega arith),
        hex_value-hex c,
        cp2utf8-control c h z,
      )
      refl

rule-char :
    (str s : Bytes) (c : ℕ)
    → is_control c ≡ false
    → Plain c
    → rule (ll_basic str) c s ≡ step_to (ll_basic (str ++ (c ∷ []))) 0
unfolding rule
rule-char str s c h (z, q, b) = rw (b, q, h) refl

rule-end : (str t : Bytes) → rule (ll_basic str) 34 t ≡ returns (basic_string str) initial 0
unfolding rule
rule-end str t = refl

pub tokens-basic :
    (str p t : Bytes)
    → All Plain p
    → tokens (ll_basic str) 0 (escape_setting_part p ++ 34 ∷ t)
      ≡ emit (some (basic_string (str ++ p))) (tokens initial 0 t)
unfolding tokens
tokens-basic str [] t w = rw (rule-end str t, append-nil str) refl
tokens-basic str (c ∷ p) t (w, ws) = elim (Bool-cases (is_control c)) [
  | inl is ↦
      rw
        (
          is,
          rule-control str (escape_setting_part p ++ 34 ∷ t) c is w.0,
          tokens-basic (str ++ (c ∷ [])) p t ws,
          append_assoc str (c ∷ []) p,
        )
        refl
  | inr other ↦
      rw
        (
          other,
          rule-char str (escape_setting_part p ++ 34 ∷ t) c other w,
          tokens-basic (str ++ (c ∷ [])) p t ws,
          append_assoc str (c ∷ []) p,
        )
        refl
]

bare-rules :
    (c : ℕ) → is_bare c ≡ true → ((c == 32) ≡ false) × ((c == 9) ≡ false) × ((c == b'.') ≡ false)
bare-rules c h = (ground arith, ground arith, ground arith)

rule-bare :
    (c : ℕ) (s : Bytes)
    → is_bare c ≡ true
    → rule initial c s ≡ returns (bare_string (c ∷ bare_run s)) initial (length (bare_run s))
unfolding rule
rule-bare c s h = let (a, b, d) = bare-rules c h in rw (a, b, d, h) refl

bare_run-append : (p t : Bytes) → is_basic p ≡ true → bare_run t ≡ [] → bare_run (p ++ t) ≡ p
bare_run-append [] t h e = e
bare_run-append (c ∷ p) t h e =
    let (a, b) = and_parts (is_bare c) (is_basic p) h in rw (a, bare_run-append p t b e) refl

tokens-matched : (m : Mode) (p t : Bytes) → tokens m (length p) (p ++ t) ≡ tokens m 0 t
unfolding tokens
tokens-matched m [] t = refl
tokens-matched m (c ∷ p) t = tokens-matched m p t

tokens-bare :
    (c : ℕ) (p t : Bytes)
    → is_basic (c ∷ p) ≡ true
    → bare_run t ≡ []
    → tokens initial 0 (c ∷ (p ++ t)) ≡ emit (some (bare_string (c ∷ p))) (tokens initial 0 t)
unfolding tokens
tokens-bare c p t h e =
    let (a, b) = and_parts (is_bare c) (is_basic p) h in
    rw (rule-bare c (p ++ t) a, bare_run-append p t b e, tokens-matched initial p t) refl

rule-quote : (t : Bytes) → rule initial 34 t ≡ returns start_basic_string (ll_basic []) 0
unfolding rule
rule-quote t = refl

tokens-quote :
    (t : Bytes)
    → tokens initial 0 (34 ∷ t) ≡ emit (some start_basic_string) (tokens (ll_basic []) 0 t)
unfolding tokens
tokens-quote t = rw (rule-quote t) refl

abbrev pub part_tokens : Bytes → Outcome (List PathToken) → Outcome (List PathToken)
part_tokens p rest =
    if is_basic p
    then emit (some (bare_string p)) rest
    else emit (some start_basic_string) (emit (some (basic_string p)) rest)

pub tokens-part :
    (p t : Bytes)
    → p ≢ []
    → All Plain p
    → bare_run t ≡ []
    → tokens initial 0 (printed_part p ++ t) ≡ part_tokens p (tokens initial 0 t)
tokens-part [] t n w e = absurd (n refl)
tokens-part (c ∷ p) t n w e = elim (Bool-cases (is_basic (c ∷ p))) [
  | inl is ↦ rw (is, tokens-bare c p t is e) refl
  | inr other ↦
      rw
        (
          other,
          append_assoc (escape_setting_part (c ∷ p)) (34 ∷ []) t,
          tokens-quote (escape_setting_part (c ∷ p) ++ 34 ∷ t),
          tokens-basic [] (c ∷ p) t w,
        )
        refl
]
