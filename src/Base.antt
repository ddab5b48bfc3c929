-- ===== src/Base.antt =====
-- base_raw of src/templates2/include/primitives/templates2/base64.h: base 64, 32 and 16 texts of
-- bytes. A char is its byte. `data` holds the bytes of a block that are there so far.
mod Bits
mod Blocks
mod Steps
mod Read
mod RoundTrip
mod Alphabets
mod Examples
use primitives.Prelude.{
  ℕ, zero, suc, ◌+◌, ◌-◌, ◌*◌, ◌/◌, ◌%◌, ◌^◌, Bool, true, false, not, ◌&&◌, ◌||◌, List, [], ◌∷◌,
  ◌++◌, Bytes, codes, length, take, drop, replicate, get_or, any, ltb, leb, ◌==◌, if◌then◌else◌,
  Outcome, ok, throw, undefined, incorrect_length, length_error, ◌>>=◌,
}
use Prim.Native.Nat.{bit_and, bit_or}

-- The template's parameters.
pub record Base : Type 0 where
  pub nchars : ℕ
  pub alphabet : Bytes
  pub padding : ℕ
  pub pad : Bool

-- std::countr_zero(std::bit_ceil(n)), for an unsigned char.
bits_from : ℕ → ℕ → ℕ → ℕ
bits_from zero k n = k
bits_from (suc f) k n = let more = bits_from f (k + 1) n in if leb n (2 ^ k) then k else more

unfoldable pub n_bits : Base → ℕ
unfolding bits_from
n_bits b = bits_from 8 0 b.nchars

gcd : ℕ → ℕ → ℕ → ℕ
gcd zero a b = a
gcd (suc f) a b = let rest = gcd f b (a % b) in if b == 0 then a else rest

-- std::lcm(8, n)
lcm_byte : ℕ → ℕ
unfolding gcd
lcm_byte n = 8 / gcd (n + 1) 8 n * n

unfoldable pub decoded_block : ℕ → ℕ
unfolding lcm_byte
decoded_block n = lcm_byte n / 8

unfoldable pub encoded_block : ℕ → ℕ
unfolding lcm_byte
encoded_block n = lcm_byte n / n

abbrev pub divceil : ℕ → ℕ → ℕ
divceil x y = (x + y - 1) / y

abbrev pub decoded_size : ℕ → ℕ → ℕ
decoded_size n size = divceil size (encoded_block n) * decoded_block n

-- make_decoder: the last index at which the alphabet has c, or 0; the array has 128 entries.
abbrev pub decoder_from : Bytes → ℕ → ℕ → ℕ → ℕ
decoder_from [] i found c = found
decoder_from (a ∷ more) i found c = decoder_from more (i + 1) (if a == c then i else found) c

abbrev pub decode_char : Base → ℕ → Outcome ℕ
decode_char b c = if ltb c 128 then ok (decoder_from b.alphabet 0 0 c) else undefined

abbrev pub encode_char : Base → ℕ → Outcome ℕ
encode_char b i = if ltb i (length b.alphabet) then ok (get_or b.alphabet i 0) else undefined

-- b2::get_bits
abbrev pub get_bits : ℕ → Bytes → ℕ → ℕ
get_bits n block start =
    if start / 8 == (start + n - 1) / 8
    then bit_and (get_or block (start / 8) 0 / 2 ^ (8 - start % 8 - n)) (2 ^ n - 1)
    else bit_or
        (bit_and (get_or block (start / 8) 0) (2 ^ (8 - start % 8) - 1) * 2 ^ (n - (8 - start % 8)))
        (get_or block ((start + n - 1) / 8) 0 / 2 ^ (8 - (n - (8 - start % 8))))

-- p[k] |= v, on the bytes from p on.
abbrev pub or_at : Bytes → ℕ → ℕ → Outcome Bytes
or_at [] k v = undefined
or_at (x ∷ xs) zero v = ok (bit_or x v % 2 ^ 8 ∷ xs)
or_at (x ∷ xs) (suc k) v = or_at xs k v >>= λ ys. ok (x ∷ ys)

-- b2::set_bits
abbrev pub set_bits : ℕ → ℕ → ℕ → Bytes → Outcome Bytes
set_bits n v start p =
    if start / 8 == (start + n) / 8
    then or_at p (start / 8) (v * 2 ^ (8 - start % 8 - n))
    else or_at p (start / 8) (v / 2 ^ (n - (8 - start % 8))) >>= λ q.
        or_at q ((start + n) / 8) (v * 2 ^ (8 - (n - (8 - start % 8))))

-- `count` characters of a block, from bit i on.
abbrev pub encode_chars : Base → ℕ → Bytes → ℕ → ℕ → Outcome Bytes
encode_chars b n block i zero = ok []
encode_chars b n block i (suc count) = encode_char b (get_bits n block i) >>= λ c.
    encode_chars b n block (i + n) count >>= λ cs. ok (c ∷ cs)

-- b2<true>::finish on a block with something in it; without padding, encode cuts the text behind
-- its characters.
abbrev pub finish_encode_by : Base → ℕ → Bytes → Outcome Bytes
finish_encode_by b n block =
    let count = divceil (length block * 8) n in
    encode_chars b n (block ++ replicate (decoded_block n - length block) 0) 0 count >>= λ cs.
    ok (cs ++ (if b.pad then replicate (encoded_block n - count) b.padding else []))

unfoldable pub finish_encode : Base → Bytes → Outcome Bytes
finish_encode b [] = ok []
finish_encode b (x ∷ xs) = finish_encode_by b (n_bits b) (x ∷ xs)

-- The loop of encode with b2<true>::add.
unfoldable pub encode_from : Base → Bytes → Bytes → Outcome Bytes
unfolding finish_encode
encode_from b block [] = finish_encode b block
encode_from b block (c ∷ cs) =
    let full = block ++ c ∷ [] in
    if length full == decoded_block (n_bits b)
    then (finish_encode b full >>= λ out. encode_from b [] cs >>= λ rest. ok (out ++ rest))
    else encode_from b full cs

unfoldable pub encode : Base → Bytes → Outcome Bytes
unfolding encode_from
encode b block = encode_from b [] block

-- The text that decode fills: the bytes before p and from p on, and how far p stands before the
-- first byte, if it does.
pub record Output : Type 0 where
  pub done : Bytes
  pub ahead : Bytes
  pub short : ℕ

abbrev pub forward : ℕ → Output → Output
forward m o = record o { done = o.done ++ take m o.ahead; ahead = drop m o.ahead }

abbrev pub retreat : ℕ → Output → Output
retreat m o = record {
  done = take (length o.done - m) o.done;
  ahead = drop (length o.done - m) o.done ++ o.ahead;
  short = m - length o.done;
}

-- p += outsz, where outsz is the block's size less the paddings in it.
abbrev pub advance : ℕ → ℕ → Output → Output
advance size pads o = if leb pads size then forward (size - pads) o else retreat (pads - size) o

-- The paddings of a block.
abbrev pub paddings : ℕ → Bytes → ℕ
paddings padding [] = 0
paddings padding (c ∷ cs) = (if c == padding then 1 else 0) + paddings padding cs

abbrev pub decode_chars : Base → ℕ → Bytes → ℕ → Bytes → Outcome Bytes
decode_chars b n [] i p = ok p
decode_chars b n (c ∷ cs) i p =
    decode_char b c >>= λ v. set_bits n v i p >>= λ q. decode_chars b n cs (i + n) q

-- b2<false>::finish
abbrev pub finish_decode_by : Base → ℕ → Bytes → Output → Outcome Output
finish_decode_by b n block o =
    if o.short == 0
    then (decode_chars b n block 0 o.ahead >>= λ p.
        ok (advance (decoded_block n) (paddings b.padding block) (record o { ahead = p })))
    else undefined

abbrev with_padding : Base → ℕ → Bytes → Bytes
with_padding b n block = block ++ replicate (encoded_block n - length block) b.padding

unfoldable pub finish_decode : Base → Bytes → Output → Outcome Output
finish_decode b [] o = ok o
finish_decode b (x ∷ xs) o = finish_decode_by b (n_bits b) (with_padding b (n_bits b) (x ∷ xs)) o

unfoldable pub decode_from : Base → Bool → Bytes → Bytes → Output → Outcome Output
unfolding finish_decode
decode_from b ignore block [] o = finish_decode b block o
decode_from b ignore block (c ∷ cs) o =
    let full = block ++ c ∷ [] in
    if ignore && not (any (λ a. a == c) b.alphabet || c == b.padding)
    then decode_from b ignore block cs o
    else if length full == encoded_block (n_bits b)
    then (finish_decode b full o >>= λ u. decode_from b ignore [] cs u)
    else decode_from b ignore full cs o

-- The text is cut_to_p to where p stands.
abbrev pub cut_to_p : Output → Outcome Bytes
cut_to_p o = if o.short == 0 then ok o.done else throw length_error

-- decode<IgnoreNonAlphabetChars>
unfoldable pub decode_by : Base → ℕ → Bool → Bytes → Outcome Bytes
unfolding decode_from
decode_by b n ignore block =
    if not (length block % encoded_block n == 0) && (b.pad && not ignore)
    then throw incorrect_length
    else decode_from b ignore [] block (record {
      done = [];
      ahead = replicate (decoded_size n (length block)) 0 ++ 0 ∷ [];
      short = 0;
    })
      >>= cut_to_p

unfoldable pub decode : Base → Bool → Bytes → Outcome Bytes
unfolding decode_by
decode b ignore block = decode_by b (n_bits b) ignore block

abbrev pub base64 : Base
base64 = record {
  nchars = 64;
  alphabet = codes "ABCDEFGHIJKLMNOPQRSTUVWXYZabcdefghijklmnopqrstuvwxyz0123456789+/";
  padding = b'=';
  pad = true;
}

abbrev pub base32 : Base
base32 = record {
  nchars = 32;
  alphabet = codes "ABCDEFGHIJKLMNOPQRSTUVWXYZ234567";
  padding = b'=';
  pad = true;
}

abbrev pub base16 : Base
base16 = record { nchars = 16; alphabet = codes "0123456789ABCDEF"; padding = b'='; pad = true }
