-- ===== src/Base/Alphabets.antt =====
-- The alphabets of base64 and base32 (src/templates2/include/primitives/templates2/base64.h).
use primitives.Prelude.{
  ap, ◌∙◌, if◌then◌else◌, ℕ, ◌<◌, ◌≡◌, refl, Bool, true, false, not, ◌&&◌, [], ◌∷◌, Bytes, Outcome,
  ok, throw, undefined, length_error, arith, ltb, ◌==◌, get_or, length, ◌>>=◌,
}
use primitives.Base.{
  encoded_block, decoded_block, n_bits, Base, base64, base32, decoder_from, encode, decode,
  encode_char, decode_char,
}
use primitives.Base.Bits.{equal, below, below_lem}
use primitives.Base.Blocks.{IsBase64}

split_and : (p q r : Bool) → (p && (q && r)) ≡ true → (p ≡ true) × ((q ≡ true) × (r ≡ true))
split_and p q r h = ground arith

false_of_not : (p : Bool) → not p ≡ true → p ≡ false
false_of_not p h = ground arith

module _ (b : Base) where
  letter : ℕ → ℕ
  letter i = get_or b.alphabet i 0

  tests : ℕ → Bool
  unfolding letter
  tests i =
      (decoder_from b.alphabet 0 0 (letter i) == i)
      && (ltb (letter i) 128 && not (letter i == b.padding))

  decodes_letter : (i : ℕ) → tests i ≡ true → decode_char b (letter i) ≡ ok i
  unfolding tests
  decodes_letter i h =
      let (p, (q, r)) =
        split_and (decoder_from b.alphabet 0 0 (letter i) == i) (ltb (letter i) 128)
          (not (letter i == b.padding)) h in
      ap (λ t. if t then ok (decoder_from b.alphabet 0 0 (letter i)) else undefined) q
      ∙ ap ok (equal _ _ p)

  differs_letter : (i : ℕ) → tests i ≡ true → (letter i == b.padding) ≡ false
  unfolding tests
  differs_letter i h =
      let (p, (q, r)) =
        split_and (decoder_from b.alphabet 0 0 (letter i) == i) (ltb (letter i) 128)
          (not (letter i == b.padding)) h in
      false_of_not (letter i == b.padding) r

  encodes_letter : (i : ℕ) → length b.alphabet ≡ 64 → i < 64 → encode_char b i ≡ ok (letter i)
  unfolding letter
  encodes_letter i e l = let q : ltb i 64 ≡ true = ground arith in rw (e, q) refl

  tests-IsBase64 :
      n_bits b ≡ 6
      → length b.alphabet ≡ 64
      → below 64 tests ≡ true
      → decode_char b b.padding ≡ ok 0
      → b.pad ≡ true
      → IsBase64 b
  tests-IsBase64 bits len all pads padded = record {
    bits = bits;
    letter = letter;
    encodes = λ i l. encodes_letter i len l;
    decodes = λ i l. decodes_letter i (below_lem 64 tests all i l);
    differs = λ i l. differs_letter i (below_lem 64 tests all i l);
    pads = pads;
    padded = padded;
  }

pub base64-IsBase64 : IsBase64 base64
unfolding n_bits tests letter
base64-IsBase64 = tests-IsBase64 base64 refl refl refl refl refl

-- Whether decode fails to give back what encode made of one byte, for want of memory.
too_long : ℕ → Bool
too_long x = elim (encode base32 (x ∷ []) >>= λ t. decode base32 false t) [
  | throw length_error ↦ true
  | _ ↦ false
]

too_long_lem :
    (o : Outcome Bytes)
    → elim o [ throw length_error ↦ true | _ ↦ false ] ≡ true
    → o ≡ throw length_error
too_long_lem (throw length_error) h = refl
too_long_lem (throw _) h = cc
too_long_lem (ok _) h = cc
too_long_lem undefined h = cc

-- A single byte is encoded by base32, but its text cannot be decoded: the six paddings take p before
-- the start of the text, and resizing it throws.
pub base32_one_byte :
    (x : ℕ) → x < 256 → (encode base32 (x ∷ []) >>= λ t. decode base32 false t) ≡ throw length_error
unfolding too_long encode decode n_bits decoded_block encoded_block
base32_one_byte x l =
    too_long_lem (encode base32 (x ∷ []) >>= λ t. decode base32 false t)
      (below_lem 256 too_long refl x l)
