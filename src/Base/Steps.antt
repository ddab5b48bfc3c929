-- ===== src/Base/Steps.antt =====
-- The loops of encode and decode at blocks of base 64 (src/templates2/include/primitives/templates2/base64.h).
use primitives.Prelude.{
  ◌==◌, if◌then◌else◌, ◌*◌, ◌-◌, ◌++◌, ◌∙◌, ap, ℕ, ◌<◌, ◌≡◌, refl, [], ◌∷◌, Bytes, ok, ◌>>=◌,
}
use primitives.Base.{
  true, false, decode_from, encode_from, divceil, length, replicate, with_padding, finish_decode_by,
  finish_encode_by, encode_chars, advance, Base, finish_encode, finish_decode, Output, decode_chars,
  decoded_block, encoded_block, paddings,
}
use primitives.Base.Blocks.{
  IsBase64, first, second, third, fourth, encode_values, encode_two, encode_three,
}

abbrev pub out : Bytes → Bytes → Output
out done ahead = record { done = done; ahead = ahead; short = 0 }

module _ (b : Base) (h : IsBase64 b) where
  padded_behind :
      (block cs : Bytes)
      → encode_chars b 6 (block ++ replicate (3 - length block) 0) 0 (divceil (length block * 8) 6)
        ≡ ok cs
      → finish_encode_by b 6 block
        ≡ ok (cs ++ replicate (4 - divceil (length block * 8) 6) b.padding)
  unfolding decoded_block encoded_block
  padded_behind block cs e =
      ap
        (λ o. o >>= λ cs.
          ok (cs ++ (if b.pad then replicate (4 - divceil (length block * 8) 6) b.padding else [])))
        e
      ∙ ap
          (λ q.
            ok (cs ++ (if q then replicate (4 - divceil (length block * 8) 6) b.padding else [])))
          h.padded

  pub encode_block :
      (x y z : ℕ)
      → x < 256
      → y < 256
      → z < 256
      → finish_encode b (x ∷ y ∷ z ∷ [])
        ≡ ok (
            h.letter (first x)
            ∷ h.letter (second x y)
            ∷ h.letter (third y z)
            ∷ h.letter (fourth z)
            ∷ [])
  unfolding finish_encode decoded_block encoded_block
  encode_block x y z hx hy hz =
      ap (λ n. finish_encode_by b n (x ∷ y ∷ z ∷ [])) h.bits
      ∙ padded_behind (x ∷ y ∷ z ∷ []) _ (encode_values b h x y z hx hy hz)

  pub encode_one_left :
      (x : ℕ)
      → x < 256
      → finish_encode b (x ∷ [])
        ≡ ok (h.letter (first x) ∷ h.letter (second x 0) ∷ b.padding ∷ b.padding ∷ [])
  unfolding finish_encode decoded_block encoded_block
  encode_one_left x hx =
      ap (λ n. finish_encode_by b n (x ∷ [])) h.bits
      ∙ padded_behind (x ∷ []) _ (encode_two b h x hx)

  pub encode_two_left :
      (x y : ℕ)
      → x < 256
      → y < 256
      → finish_encode b (x ∷ y ∷ [])
        ≡ ok (h.letter (first x) ∷ h.letter (second x y) ∷ h.letter (third y 0) ∷ b.padding ∷ [])
  unfolding finish_encode decoded_block encoded_block
  encode_two_left x y hx hy =
      ap (λ n. finish_encode_by b n (x ∷ y ∷ [])) h.bits
      ∙ padded_behind (x ∷ y ∷ []) _ (encode_three b h x y hx hy)

  pub decode_block :
      (c1 c2 c3 c4 w1 w2 w3 : ℕ) (done p : Bytes)
      → decode_chars b 6 (c1 ∷ c2 ∷ c3 ∷ c4 ∷ []) 0 (0 ∷ 0 ∷ 0 ∷ 0 ∷ p) ≡ ok (w1 ∷ w2 ∷ w3 ∷ 0 ∷ p)
      → finish_decode b (c1 ∷ c2 ∷ c3 ∷ c4 ∷ []) (out done (0 ∷ 0 ∷ 0 ∷ 0 ∷ p))
        ≡ ok (
            advance 3
              (paddings b.padding (c1 ∷ c2 ∷ c3 ∷ c4 ∷ []))
              (out done (w1 ∷ w2 ∷ w3 ∷ 0 ∷ p)))
  unfolding finish_decode decoded_block encoded_block
  decode_block c1 c2 c3 c4 w1 w2 w3 done p e =
      ap
        (λ n.
          finish_decode_by b n (with_padding b n (c1 ∷ c2 ∷ c3 ∷ c4 ∷ []))
            (out done (0 ∷ 0 ∷ 0 ∷ 0 ∷ p)))
        h.bits
      ∙ ap
          (λ o.
            o >>= λ q. ok (advance 3 (paddings b.padding (c1 ∷ c2 ∷ c3 ∷ c4 ∷ [])) (out done q)))
          e

  pub encode_from_more :
      (block : Bytes) (c : ℕ) (cs : Bytes)
      → (length (block ++ c ∷ []) == 3) ≡ false
      → encode_from b block (c ∷ cs) ≡ encode_from b (block ++ c ∷ []) cs
  unfolding encode_from decoded_block
  encode_from_more block c cs e =
      ap
        (λ n.
          if length (block ++ c ∷ []) == decoded_block n
          then (finish_encode b (block ++ c ∷ []) >>= λ o.
              encode_from b [] cs >>= λ rest. ok (o ++ rest))
          else encode_from b (block ++ c ∷ []) cs)
        h.bits
      ∙ ap
          (λ q.
            if q
            then (finish_encode b (block ++ c ∷ []) >>= λ o.
                encode_from b [] cs >>= λ rest. ok (o ++ rest))
            else encode_from b (block ++ c ∷ []) cs)
          e

  pub encode_from_full :
      (block : Bytes) (c : ℕ) (cs t r : Bytes)
      → (length (block ++ c ∷ []) == 3) ≡ true
      → finish_encode b (block ++ c ∷ []) ≡ ok t
      → encode_from b [] cs ≡ ok r
      → encode_from b block (c ∷ cs) ≡ ok (t ++ r)
  unfolding encode_from decoded_block
  encode_from_full block c cs t r e f g =
      ap
        (λ n.
          if length (block ++ c ∷ []) == decoded_block n
          then (finish_encode b (block ++ c ∷ []) >>= λ o.
              encode_from b [] cs >>= λ rest. ok (o ++ rest))
          else encode_from b (block ++ c ∷ []) cs)
        h.bits
      ∙ ap
          (λ q.
            if q
            then (finish_encode b (block ++ c ∷ []) >>= λ o.
                encode_from b [] cs >>= λ rest. ok (o ++ rest))
            else encode_from b (block ++ c ∷ []) cs)
          e
      ∙ ap (λ o. o >>= λ o. encode_from b [] cs >>= λ rest. ok (o ++ rest)) f
      ∙ ap (λ o. o >>= λ rest. ok (t ++ rest)) g

  decode_from_more :
      (block : Bytes) (c : ℕ) (cs : Bytes) (o : Output)
      → (length (block ++ c ∷ []) == 4) ≡ false
      → decode_from b false block (c ∷ cs) o ≡ decode_from b false (block ++ c ∷ []) cs o
  unfolding decode_from encoded_block
  decode_from_more block c cs o e =
      ap
        (λ n.
          if length (block ++ c ∷ []) == encoded_block n
          then (finish_decode b (block ++ c ∷ []) o >>= λ u. decode_from b false [] cs u)
          else decode_from b false (block ++ c ∷ []) cs o)
        h.bits
      ∙ ap
          (λ q.
            if q
            then (finish_decode b (block ++ c ∷ []) o >>= λ u. decode_from b false [] cs u)
            else decode_from b false (block ++ c ∷ []) cs o)
          e

  decode_from_full :
      (block : Bytes) (c : ℕ) (cs : Bytes) (o u : Output)
      → (length (block ++ c ∷ []) == 4) ≡ true
      → finish_decode b (block ++ c ∷ []) o ≡ ok u
      → decode_from b false block (c ∷ cs) o ≡ decode_from b false [] cs u
  unfolding decode_from encoded_block
  decode_from_full block c cs o u e f =
      ap
        (λ n.
          if length (block ++ c ∷ []) == encoded_block n
          then (finish_decode b (block ++ c ∷ []) o >>= λ u. decode_from b false [] cs u)
          else decode_from b false (block ++ c ∷ []) cs o)
        h.bits
      ∙ ap
          (λ q.
            if q
            then (finish_decode b (block ++ c ∷ []) o >>= λ u. decode_from b false [] cs u)
            else decode_from b false (block ++ c ∷ []) cs o)
          e
      ∙ ap (λ o. o >>= λ u. decode_from b false [] cs u) f

  pub decode_from_block :
      (c1 c2 c3 c4 : ℕ) (cs : Bytes) (o u : Output)
      → finish_decode b (c1 ∷ c2 ∷ c3 ∷ c4 ∷ []) o ≡ ok u
      → decode_from b false [] (c1 ∷ c2 ∷ c3 ∷ c4 ∷ cs) o ≡ decode_from b false [] cs u
  decode_from_block c1 c2 c3 c4 cs o u e =
      decode_from_more [] c1 (c2 ∷ c3 ∷ c4 ∷ cs) o refl
      ∙ decode_from_more (c1 ∷ []) c2 (c3 ∷ c4 ∷ cs) o refl
      ∙ decode_from_more (c1 ∷ c2 ∷ []) c3 (c4 ∷ cs) o refl
      ∙ decode_from_full (c1 ∷ c2 ∷ c3 ∷ []) c4 cs o u refl e
