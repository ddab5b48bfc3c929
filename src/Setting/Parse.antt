-- ===== src/Setting/Parse.antt =====
-- SettingPath of src/settings/src/settings.cpp: what toString writes is what parse reads.
use primitives.Prelude.{
  codes, ◌%◌, ◌/◌, sym, ℕ, zero, suc, ◌≡◌, ◌≢◌, refl, ap, ◌∙◌, inl, inr, false, some, List, [], ◌∷◌,
  ◌++◌, append-nil, Bytes, All, All-append, ◌==◌, Bool-cases, Outcome, ok, throw, undefined, ◌>>=◌,
  arith,
}
use primitives.Setting.{
  Parts, is_control, is_basic, hex, escape_setting_part, c_string, printed_part, printed_parts,
  without_last, path_text,
}
use primitives.Setting.Lexer.{
  PathToken, point, initial, returns, rule, emit, tokens, parts_of, file, parse,
}
use primitives.Setting.Text.{Plain, part_tokens, tokens-part}

-- A part that toString writes so that parse reads it back.
abbrev pub Readable : Bytes → Type 0
Readable p = (p ≢ []) × All Plain p

-- The text without a dot behind the last part.
abbrev joined : Bytes → Parts → Bytes
joined p [] = printed_part p
joined p (q ∷ ps) = printed_part p ++ b'.' ∷ joined q ps

without_last-end : (s : Bytes) (c : ℕ) → without_last (s ++ c ∷ []) ≡ s
without_last-end [] c = refl
without_last-end (d ∷ []) c = refl
without_last-end (d ∷ e ∷ s) c = ap (λ r. d ∷ r) (without_last-end (e ∷ s) c)

without_last-append : (s t : Bytes) (c : ℕ) → without_last (s ++ c ∷ t) ≡ s ++ without_last (c ∷ t)
without_last-append [] t c = refl
without_last-append (d ∷ []) t c = refl
without_last-append (d ∷ e ∷ s) t c = ap (λ r. d ∷ r) (without_last-append (e ∷ s) t c)

without_last-cons :
    (s t : Bytes) (c d : ℕ) → without_last (c ∷ (s ++ d ∷ t)) ≡ c ∷ without_last (s ++ d ∷ t)
without_last-cons [] t c d = refl
without_last-cons (e ∷ s) t c d = refl

without_last-printed :
    (p : Bytes) (ps : Parts) → without_last (printed_parts (p ∷ ps)) ≡ joined p ps
without_last-printed p [] = without_last-end (printed_part p) b'.'
without_last-printed p (q ∷ ps) =
    without_last-append (printed_part p) (printed_parts (q ∷ ps)) b'.'
    ∙ ap (λ r. printed_part p ++ r)
        (without_last-cons (printed_part q) (printed_parts ps) b'.' b'.'
          ∙ ap (λ r. b'.' ∷ r) (without_last-printed q ps))

rule-point : (t : Bytes) → rule initial b'.' t ≡ returns point initial 0
unfolding rule
rule-point t = refl

tokens-point : (t : Bytes) → tokens initial 0 (b'.' ∷ t) ≡ emit (some point) (tokens initial 0 t)
unfolding tokens
tokens-point t = rw (rule-point t) refl

parts_of-last : (p : Bytes) → (part_tokens p (ok []) >>= parts_of) ≡ ok (p ∷ [])
unfolding parts_of
parts_of-last p = elim (Bool-cases (is_basic p)) [ inl is ↦ rw is refl | inr other ↦ rw other refl ]

parts_of-point :
    (p : Bytes) (ps : Parts) (o : Outcome (List PathToken))
    → (o >>= parts_of) ≡ ok ps
    → (part_tokens p (emit (some point) o) >>= parts_of) ≡ ok (p ∷ ps)
unfolding parts_of
parts_of-point p ps (ok ts) h = elim (Bool-cases (is_basic p)) [
  | inl is ↦ rw (is, h) refl
  | inr other ↦ rw (other, h) refl
]
parts_of-point p ps (throw e) h = cc
parts_of-point p ps undefined h = cc

tokens-nil : tokens initial 0 [] ≡ ok []
unfolding tokens
tokens-nil = refl

parts_of-joined :
    (p : Bytes) (ps : Parts)
    → Readable p
    → All Readable ps
    → (tokens initial 0 (joined p ps) >>= parts_of) ≡ ok (p ∷ ps)
parts_of-joined p [] (n, w) r =
    rw (sym (append-nil (printed_part p)), tokens-part p [] n w refl, tokens-nil) (parts_of-last p)
parts_of-joined p (q ∷ ps) (n, w) (h, hs) =
    rw (tokens-part p (b'.' ∷ joined q ps) n w refl, tokens-point (joined q ps))
      (parts_of-point p (q ∷ ps) (tokens initial 0 (joined q ps)) (parts_of-joined q ps h hs))

file_of_parts :
    (o : Outcome (List PathToken)) (ps : Parts) → (o >>= parts_of) ≡ ok ps → (o >>= file) ≡ ok ps
unfolding parts_of
file_of_parts (ok []) ps h = cc
file_of_parts (ok (t ∷ ts)) ps h = h
file_of_parts (throw e) ps h = h
file_of_parts undefined ps h = h

-- No zero ends the text.
abbrev NonZero : ℕ → Type 0
NonZero c = (c == 0) ≡ false

c_string-whole : (s : Bytes) → All NonZero s → c_string s ≡ s
c_string-whole [] w = refl
c_string-whole (zero ∷ s) (w, ws) = cc
c_string-whole (suc c ∷ s) (w, ws) = ap (λ r. suc c ∷ r) (c_string-whole s ws)

hex-NonZero : (n : ℕ) → NonZero (hex n)
unfolding hex
hex-NonZero n = ground arith

escape_setting_part-NonZero : (p : Bytes) → All Plain p → All NonZero (escape_setting_part p)
escape_setting_part-NonZero [] w = tt
escape_setting_part-NonZero (c ∷ p) (w, ws) = elim (Bool-cases (is_control c)) [
  | inl is ↦ rw is (
      All-append NonZero (codes "\\u00") (hex (c / 16) ∷ hex (c % 16) ∷ escape_setting_part p)
        (refl, (refl, (refl, (refl, tt))))
        (hex-NonZero (c / 16), (hex-NonZero (c % 16), escape_setting_part-NonZero p ws)))
  | inr other ↦ rw other (w.0, escape_setting_part-NonZero p ws)
]

Plain-NonZero : (p : Bytes) → All Plain p → All NonZero p
Plain-NonZero [] w = tt
Plain-NonZero (c ∷ p) (w, ws) = (w.0, Plain-NonZero p ws)

printed_part-NonZero : (p : Bytes) → All Plain p → All NonZero (printed_part p)
printed_part-NonZero p w = elim (Bool-cases (is_basic p)) [
  | inl is ↦ rw is (Plain-NonZero p w)
  | inr other ↦ rw other (
    refl,
    All-append NonZero (escape_setting_part p) (34 ∷ []) (escape_setting_part-NonZero p w)
        (refl, tt),
  )
]

joined-NonZero : (p : Bytes) (ps : Parts) → Readable p → All Readable ps → All NonZero (joined p ps)
joined-NonZero p [] r rs = printed_part-NonZero p r.1
joined-NonZero p (q ∷ ps) r (h, hs) =
    All-append NonZero (printed_part p) (b'.' ∷ joined q ps) (printed_part-NonZero p r.1)
      (refl, joined-NonZero q ps h hs)

parse_whole : (s : Bytes) → All NonZero s → parse s ≡ (tokens initial 0 s >>= file)
unfolding parse tokens
parse_whole [] w = refl
parse_whole (c ∷ s) w = ap (λ t. tokens initial 0 t >>= file) (c_string-whole (c ∷ s) w)

-- toString writes a path so that the constructor from a text reads the same parts back, with or
-- without quotes around a part, and control chars as \u00XX: when no part is empty, and none has a
-- zero, a double quote or a backslash.
pub parse-path_text : (ps : Parts) → All Readable ps → parse (path_text ps) ≡ ok ps
unfolding path_text parse
parse-path_text [] r = refl
parse-path_text (p ∷ ps) (r, rs) =
    ap parse (without_last-printed p ps)
    ∙ parse_whole (joined p ps) (joined-NonZero p ps r rs)
    ∙ file_of_parts (tokens initial 0 (joined p ps)) (p ∷ ps) (parts_of-joined p ps r rs)
