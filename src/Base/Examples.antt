-- ===== src/Base/Examples.antt =====
-- Base texts at concrete inputs.
use primitives.Prelude.{◌>>=◌, arith, [], ◌∷◌, ◌≡◌, refl, ok, throw, codes, length_error, false}
use primitives.Base.RoundTrip.{decode-encode}
use primitives.Base.Alphabets.{base64-IsBase64, base32_one_byte}
use primitives.Base.{
  Bytes, encoded_block, decoded_block, n_bits, encode, decode, base64, base32, base16,
}

encode_runs :
    (encode base64 (codes "Man") ≡ ok (codes "TWFu"))
    × ((encode base64 (codes "M") ≡ ok (codes "TQ=="))
        × ((encode base32 (codes "x") ≡ ok (codes "PA======"))
            × (encode base16 (codes "xy") ≡ ok (codes "7879"))))
unfolding encode n_bits decoded_block encoded_block
encode_runs = (refl, (refl, (refl, refl)))

decode_runs :
    (decode base64 false (codes "TWFuTQ==") ≡ ok (codes "ManM"))
    × (decode base32 false (codes "PA======") ≡ throw length_error)
unfolding decode n_bits decoded_block encoded_block
decode_runs = (refl, refl)

abbrev man : Bytes
man = codes "Man!"

decode-encode_example : (encode base64 man >>= λ t. decode base64 false t) ≡ ok man
decode-encode_example =
    decode-encode base64 base64-IsBase64 man
      (omega arith, (omega arith, (omega arith, (omega arith, tt))))

base32_one_byte_example :
    (encode base32 (120 ∷ []) >>= λ t. decode base32 false t) ≡ throw length_error
base32_one_byte_example = base32_one_byte 120 (omega arith)
