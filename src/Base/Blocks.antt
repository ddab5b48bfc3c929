-- ===== src/Base/Blocks.antt =====
-- One block of a base 64 text (src/templates2/include/primitives/templates2/base64.h), written and
-- read back.
use primitives.Prelude.{
  ◌>>=◌, ap, ◌^◌, ℕ, ◌+◌, ◌*◌, ◌/◌, ◌%◌, ◌<◌, ◌≡◌, refl, true, false, [], ◌∷◌, Bytes, ok, arith,
  ◌==◌, ◌∙◌,
}
use primitives.Base.{
  Base, n_bits, encode_char, decode_char, encode_chars, decode_chars, get_bits, set_bits,
}
use primitives.Base.Bits.{or_by_4, or_by_16, or_by_64, bit_or-zero_left, and_3, and_15, and_63}

-- An alphabet of 64 different letters, none of them the padding, which is read as 0.
pub record IsBase64 (b : Base) : Type 0 where
  pub bits : n_bits b ≡ 6
  pub letter : ℕ → ℕ
  pub encodes : (i : ℕ) → i < 64 → encode_char b i ≡ ok (letter i)
  pub decodes : (i : ℕ) → i < 64 → decode_char b (letter i) ≡ ok i
  pub differs : (i : ℕ) → i < 64 → (letter i == b.padding) ≡ false
  pub pads : decode_char b b.padding ≡ ok 0
  pub padded : b.pad ≡ true

-- The values of the four letters.
abbrev pub first : ℕ → ℕ
first x = x / 4

abbrev pub second : ℕ → ℕ → ℕ
second x y = x % 4 * 16 + y / 16

abbrev pub third : ℕ → ℕ → ℕ
third y z = y % 16 * 4 + z / 64

abbrev pub fourth : ℕ → ℕ
fourth z = z % 64

get_first : (x y z : ℕ) → x < 256 → get_bits 6 (x ∷ y ∷ z ∷ []) 0 ≡ first x
get_first x y z hx = let e : x / 4 < 256 = omega arith in and_63 (x / 4) e ∙ omega arith

get_second : (x y z : ℕ) → x < 256 → y < 256 → get_bits 6 (x ∷ y ∷ z ∷ []) 6 ≡ second x y
get_second x y z hx hy = rw (and_3 x hx) (or_by_16 (x % 4) (y / 16) (omega arith) (omega arith))

get_third : (x y z : ℕ) → y < 256 → z < 256 → get_bits 6 (x ∷ y ∷ z ∷ []) 12 ≡ third y z
get_third x y z hy hz = rw (and_15 y hy) (or_by_4 (y % 16) (z / 64) (omega arith) (omega arith))

get_fourth : (x y z : ℕ) → z < 256 → get_bits 6 (x ∷ y ∷ z ∷ []) 18 ≡ fourth z
get_fourth x y z hz = let e : z / 1 ≡ z = omega arith in rw e (and_63 z hz)

-- What set_bits puts behind the letters before.
set_first : (v : ℕ) (p : Bytes) → v < 64 → set_bits 6 v 0 (0 ∷ p) ≡ ok (v * 4 ∷ p)
set_first v p h =
    let e : v * 4 % 2 ^ 8 ≡ v * 4 = omega arith in rw (bit_or-zero_left (v * 4), e) refl

set_second :
    (q v : ℕ) (p : Bytes)
    → q < 64
    → v < 64
    → set_bits 6 v 6 (q * 4 ∷ 0 ∷ p) ≡ ok ((q * 4 + v / 16) ∷ v % 16 * 16 ∷ p)
set_second q v p hq h =
    let e : (q * 4 + v / 16) % 2 ^ 8 ≡ q * 4 + v / 16 = omega arith in
    let f : v * 16 % 2 ^ 8 ≡ v % 16 * 16 = omega arith in
    rw (or_by_4 q (v / 16) hq (omega arith), bit_or-zero_left (v * 16), e, f) refl

set_third :
    (a q v : ℕ) (p : Bytes)
    → q < 16
    → v < 64
    → set_bits 6 v 12 (a ∷ q * 16 ∷ 0 ∷ p) ≡ ok (a ∷ (q * 16 + v / 4) ∷ v % 4 * 64 ∷ p)
set_third a q v p hq h =
    let e : (q * 16 + v / 4) % 2 ^ 8 ≡ q * 16 + v / 4 = omega arith in
    let f : v * 64 % 2 ^ 8 ≡ v % 4 * 64 = omega arith in
    rw (or_by_16 q (v / 4) hq (omega arith), bit_or-zero_left (v * 64), e, f) refl

set_fourth :
    (a c q v : ℕ) (p : Bytes)
    → q < 4
    → v < 64
    → set_bits 6 v 18 (a ∷ c ∷ q * 64 ∷ 0 ∷ p) ≡ ok (a ∷ c ∷ (q * 64 + v) ∷ 0 ∷ p)
set_fourth a c q v p hq h =
    let d : v / 1 ≡ v = omega arith in
    let e : (q * 64 + v) % 2 ^ 8 ≡ q * 64 + v = omega arith in
    let f : v * 256 % 2 ^ 8 ≡ 0 = omega arith in
    rw (d, or_by_64 q v hq h, bit_or-zero_left (v * 256), e, f) refl

decode_step :
    (b : Base) (c v i : ℕ) (cs p q : Bytes)
    → decode_char b c ≡ ok v
    → set_bits 6 v i p ≡ ok q
    → decode_chars b 6 (c ∷ cs) i p ≡ decode_chars b 6 cs (i + 6) q
decode_step b c v i cs p q d e =
    ap (λ o. o >>= λ v. set_bits 6 v i p >>= λ q. decode_chars b 6 cs (i + 6) q) d
    ∙ ap (λ o. o >>= λ q. decode_chars b 6 cs (i + 6) q) e

-- Four letters read into zeros.
pub decode_values :
    (b : Base) (c1 c2 c3 c4 v1 v2 v3 v4 : ℕ) (p : Bytes)
    → decode_char b c1 ≡ ok v1
    → decode_char b c2 ≡ ok v2
    → decode_char b c3 ≡ ok v3
    → decode_char b c4 ≡ ok v4
    → v1 < 64
    → v2 < 64
    → v3 < 64
    → v4 < 64
    → decode_chars b 6 (c1 ∷ c2 ∷ c3 ∷ c4 ∷ []) 0 (0 ∷ 0 ∷ 0 ∷ 0 ∷ p)
      ≡ ok ((v1 * 4 + v2 / 16) ∷ (v2 % 16 * 16 + v3 / 4) ∷ (v3 % 4 * 64 + v4) ∷ 0 ∷ p)
decode_values b c1 c2 c3 c4 v1 v2 v3 v4 p d1 d2 d3 d4 h1 h2 h3 h4 =
    decode_step b c1 v1 0 (c2 ∷ c3 ∷ c4 ∷ []) (0 ∷ 0 ∷ 0 ∷ 0 ∷ p) (v1 * 4 ∷ 0 ∷ 0 ∷ 0 ∷ p) d1
      (set_first v1 (0 ∷ 0 ∷ 0 ∷ p) h1)
    ∙ decode_step b c2 v2 6 (c3 ∷ c4 ∷ []) (v1 * 4 ∷ 0 ∷ 0 ∷ 0 ∷ p)
        ((v1 * 4 + v2 / 16) ∷ v2 % 16 * 16 ∷ 0 ∷ 0 ∷ p) d2 (set_second v1 v2 (0 ∷ 0 ∷ p) h1 h2)
    ∙ decode_step b c3 v3 12 (c4 ∷ []) ((v1 * 4 + v2 / 16) ∷ v2 % 16 * 16 ∷ 0 ∷ 0 ∷ p)
        ((v1 * 4 + v2 / 16) ∷ (v2 % 16 * 16 + v3 / 4) ∷ v3 % 4 * 64 ∷ 0 ∷ p) d3
        (set_third (v1 * 4 + v2 / 16) (v2 % 16) v3 (0 ∷ p) (omega arith) h3)
    ∙ decode_step b c4 v4 18 [] ((v1 * 4 + v2 / 16) ∷ (v2 % 16 * 16 + v3 / 4) ∷ v3 % 4 * 64 ∷ 0 ∷ p)
        ((v1 * 4 + v2 / 16) ∷ (v2 % 16 * 16 + v3 / 4) ∷ (v3 % 4 * 64 + v4) ∷ 0 ∷ p) d4
        (set_fourth (v1 * 4 + v2 / 16) (v2 % 16 * 16 + v3 / 4) (v3 % 4) v4 p (omega arith) h4)

module _ (b : Base) (h : IsBase64 b) where
  -- Three bytes written as four letters.
  pub encode_values :
      (x y z : ℕ)
      → x < 256
      → y < 256
      → z < 256
      → encode_chars b 6 (x ∷ y ∷ z ∷ []) 0 4
        ≡ ok (
            h.letter (first x)
            ∷ h.letter (second x y)
            ∷ h.letter (third y z)
            ∷ h.letter (fourth z)
            ∷ [])
  encode_values x y z hx hy hz =
      rw
        (
          get_first x y z hx,
          h.encodes (first x) (omega arith),
          get_second x y z hx hy,
          h.encodes (second x y) (omega arith),
          get_third x y z hy hz,
          h.encodes (third y z) (omega arith),
          get_fourth x y z hz,
          h.encodes (fourth z) (omega arith),
        )
        refl

  -- And the letters of the one or two bytes that may be left.
  pub encode_two :
      (x : ℕ)
      → x < 256
      → encode_chars b 6 (x ∷ 0 ∷ 0 ∷ []) 0 2 ≡ ok (h.letter (first x) ∷ h.letter (second x 0) ∷ [])
  encode_two x hx =
      rw
        (
          get_first x 0 0 hx,
          h.encodes (first x) (omega arith),
          get_second x 0 0 hx (omega arith),
          h.encodes (second x 0) (omega arith),
        )
        refl

  pub encode_three :
      (x y : ℕ)
      → x < 256
      → y < 256
      → encode_chars b 6 (x ∷ y ∷ 0 ∷ []) 0 3
        ≡ ok (h.letter (first x) ∷ h.letter (second x y) ∷ h.letter (third y 0) ∷ [])
  encode_three x y hx hy =
      rw
        (
          get_first x y 0 hx,
          h.encodes (first x) (omega arith),
          get_second x y 0 hx hy,
          h.encodes (second x y) (omega arith),
          get_third x y 0 hy (omega arith),
          h.encodes (third y 0) (omega arith),
        )
        refl
