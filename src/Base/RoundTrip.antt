-- ===== src/Base/RoundTrip.antt =====
-- Base 64 texts are read back (src/templates2/include/primitives/templates2/base64.h).
use primitives.Prelude.{
  ◌/◌, ◌-◌, ◌+◌, ◌%◌, ◌>>=◌, suc, ℕ, ◌*◌, ◌<◌, ◌≡◌, refl, false, [], ◌∷◌, ◌++◌, Bytes, ok, arith,
  length, ap, ◌∙◌, All, append_assoc, append-nil,
}
use primitives.Base.{
  cut_to_p, encode, decoded_block, encoded_block, decode_by, decode, finish_encode, Base,
  encode_from, decode_from, finish_decode,
}
use primitives.Base.Blocks.{IsBase64, first, second, third, fourth}
use primitives.Base.Steps.{
  out, encode_block, encode_one_left, encode_two_left, encode_from_more, encode_from_full,
  decode_from_block,
}
use primitives.Base.Read.{replicate-blank, blank, blank-cons, decode_three, decode_two, decode_one}

module _ (b : Base) (h : IsBase64 b) where
  -- The text of s has k blocks, and is read back behind anything.
  abbrev Coded : Bytes → Type 0
  Coded s =
      (t : Bytes) × ((k : ℕ) × ((encode_from b [] s ≡ ok t)
          × ((length t ≡ 4 * k)
              × ((done : Bytes)
                  → (p : Bytes) × (decode_from b false [] t (out done (blank k))
                      ≡ ok (out (done ++ s) p))))))

  coded : (s : Bytes) → All (λ c. c < 256) s → Coded s
  unfolding encode_from decode_from finish_encode finish_decode
  coded [] hs = ([], (0, (refl, (refl, λ done. (blank 0, rw append-nil refl)))))
  coded (x ∷ []) (hx, _) = (
    h.letter (first x) ∷ h.letter (second x 0) ∷ b.padding ∷ b.padding ∷ [],
    (
      1,
      (
        encode_from_more b h [] x [] refl ∙ encode_one_left b h x hx,
        (
          refl,
          λ done.
              let (q, e) = decode_one b h x done [] hx in
              (q, decode_from_block b h _ _ _ _ [] (out done (blank 1)) _ e),
        ),
      ),
    ),
  )
  coded (x ∷ y ∷ []) (hx, (hy, _)) = (
    h.letter (first x) ∷ h.letter (second x y) ∷ h.letter (third y 0) ∷ b.padding ∷ [],
    (
      1,
      (
        encode_from_more b h [] x (y ∷ []) refl
            ∙ encode_from_more b h (x ∷ []) y [] refl
            ∙ encode_two_left b h x y hx hy,
        (
          refl,
          λ done.
              let (q, e) = decode_two b h x y done [] hx hy in
              (q, decode_from_block b h _ _ _ _ [] (out done (blank 1)) _ e),
        ),
      ),
    ),
  )
  coded (x ∷ y ∷ z ∷ rest) (hx, (hy, (hz, hs))) =
      let (t, (k, (e, (l, d)))) = coded rest hs in
      (
        h.letter (first x) ∷ h.letter (second x y) ∷ h.letter (third y z) ∷ h.letter (fourth z) ∷ t,
        (
          suc k,
          (
            encode_from_more b h [] x (y ∷ z ∷ rest) refl
                ∙ encode_from_more b h (x ∷ []) y (z ∷ rest) refl
                ∙ encode_from_full b h (x ∷ y ∷ []) z rest _ t refl
                    (encode_block b h x y z hx hy hz) e,
            (
              omega (arith, l),
              λ done.
                  let (p, f) = blank-cons k in
                  let (q, g) = d (done ++ (x ∷ y ∷ z ∷ [])) in
                  (
                    q,
                    decode_from_block b h _ _ _ _ t (out done (blank (suc k)))
                          (out (done ++ (x ∷ y ∷ z ∷ [])) (blank k))
                          (rw f (decode_three b h x y z done p hx hy hz))
                        ∙ g
                        ∙ ap (λ s. ok (out s q)) (append_assoc done (x ∷ y ∷ z ∷ []) rest),
                  ),
            ),
          ),
        ),
      )

  -- decode where the text is that of k blocks.
  decode_lem :
      (t : Bytes) (k : ℕ)
      → length t ≡ 4 * k
      → decode b false t ≡ (decode_from b false [] t (out [] (blank k)) >>= cut_to_p)
  unfolding decode decode_by encoded_block decoded_block
  decode_lem t k l =
      let e : length t % 4 ≡ 0 = omega arith in
      let f : (length t + 4 - 1) / 4 ≡ k = omega arith in
      ap (λ n. decode_by b n false t) h.bits ∙ rw (e, f, replicate-blank k) refl

  -- With an alphabet of 64 different letters below 128, none of them the padding, and with padding,
  -- any bytes are encoded to a text that decode gives back.
  pub decode-encode :
      (s : Bytes) → All (λ c. c < 256) s → (encode b s >>= λ t. decode b false t) ≡ ok s
  unfolding encode
  decode-encode s hs =
      let (t, (k, (e, (l, d)))) = coded s hs in
      let (p, f) = d [] in
      ap (λ o. o >>= λ t. decode b false t) e ∙ decode_lem t k l ∙ ap (λ o. o >>= cut_to_p) f
