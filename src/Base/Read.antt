-- ===== src/Base/Read.antt =====
-- What decode makes of one block of base 64 (src/templates2/include/primitives/templates2/base64.h).
use primitives.Prelude.{
  zero, suc, ℕ, ◌+◌, ◌*◌, ◌/◌, ◌%◌, ◌<◌, ◌≡◌, refl, true, [], ◌∷◌, ◌++◌, Bytes, ok, arith, ◌==◌,
  replicate, ◌∙◌,
}
use primitives.Base.{Base, finish_decode}
use primitives.Base.Blocks.{IsBase64, first, second, third, fourth, decode_values}
use primitives.Base.Steps.{out, decode_block}

-- The text's zeros for k blocks, and the one behind its end.
abbrev pub blank : ℕ → Bytes
blank zero = 0 ∷ []
blank (suc k) = 0 ∷ 0 ∷ 0 ∷ blank k

pub blank-cons : (k : ℕ) → (p : Bytes) × (blank k ≡ 0 ∷ p)
blank-cons zero = ([], refl)
blank-cons (suc k) = (0 ∷ 0 ∷ blank k, refl)

pub replicate-blank : (k : ℕ) → replicate (k * 3) 0 ++ (0 ∷ []) ≡ blank k
replicate-blank zero = refl
replicate-blank (suc k) =
    let e : suc k * 3 ≡ suc (suc (suc (k * 3))) = omega arith in rw (e, replicate-blank k) refl

pad_pad : (a : ℕ) → (a == a) ≡ true
pad_pad a = ground arith

module _ (b : Base) (h : IsBase64 b) where
  pub decode_three :
      (x y z : ℕ) (done p : Bytes)
      → x < 256
      → y < 256
      → z < 256
      → finish_decode b
          (h.letter (first x)
            ∷ h.letter (second x y)
            ∷ h.letter (third y z)
            ∷ h.letter (fourth z)
            ∷ [])
          (out done (0 ∷ 0 ∷ 0 ∷ 0 ∷ p))
        ≡ ok (out (done ++ (x ∷ y ∷ z ∷ [])) (0 ∷ p))
  decode_three x y z done p hx hy hz =
      let h1 : first x < 64 = omega arith in
      let h2 : second x y < 64 = omega arith in
      let h3 : third y z < 64 = omega arith in
      let h4 : fourth z < 64 = omega arith in
      let e1 : first x * 4 + second x y / 16 ≡ x = omega arith in
      let e2 : second x y % 16 * 16 + third y z / 4 ≡ y = omega arith in
      let e3 : third y z % 4 * 64 + fourth z ≡ z = omega arith in
      decode_block b h (h.letter (first x)) (h.letter (second x y)) (h.letter (third y z))
        (h.letter (fourth z)) (first x * 4 + second x y / 16) (second x y % 16 * 16 + third y z / 4)
        (third y z % 4 * 64 + fourth z) done p
        (decode_values b _ _ _ _ (first x) (second x y) (third y z) (fourth z) p (h.decodes _ h1)
          (h.decodes _ h2) (h.decodes _ h3) (h.decodes _ h4) h1 h2 h3 h4)
      ∙ rw
          (
            h.differs (first x) h1,
            h.differs (second x y) h2,
            h.differs (third y z) h3,
            h.differs (fourth z) h4,
            e1,
            e2,
            e3,
          )
          refl

  pub decode_two :
      (x y : ℕ) (done p : Bytes)
      → x < 256
      → y < 256
      → (q : Bytes) × (finish_decode b
            (h.letter (first x) ∷ h.letter (second x y) ∷ h.letter (third y 0) ∷ b.padding ∷ [])
            (out done (0 ∷ 0 ∷ 0 ∷ 0 ∷ p))
          ≡ ok (out (done ++ (x ∷ y ∷ [])) q))
  decode_two x y done p hx hy =
      let h1 : first x < 64 = omega arith in
      let h2 : second x y < 64 = omega arith in
      let h3 : third y 0 < 64 = omega arith in
      let e1 : first x * 4 + second x y / 16 ≡ x = omega arith in
      let e2 : second x y % 16 * 16 + third y 0 / 4 ≡ y = omega arith in
      (
        (third y 0 % 4 * 64 + 0) ∷ 0 ∷ p,
        decode_block b h (h.letter (first x)) (h.letter (second x y)) (h.letter (third y 0))
              b.padding (first x * 4 + second x y / 16) (second x y % 16 * 16 + third y 0 / 4)
              (third y 0 % 4 * 64 + 0) done p
              (decode_values b _ _ _ _ (first x) (second x y) (third y 0) 0 p (h.decodes _ h1)
                (h.decodes _ h2) (h.decodes _ h3) h.pads h1 h2 h3 (omega arith))
            ∙ rw
                (
                  h.differs (first x) h1,
                  h.differs (second x y) h2,
                  h.differs (third y 0) h3,
                  pad_pad b.padding,
                  e1,
                  e2,
                )
                refl,
      )

  pub decode_one :
      (x : ℕ) (done p : Bytes)
      → x < 256
      → (q : Bytes) × (finish_decode b
            (h.letter (first x) ∷ h.letter (second x 0) ∷ b.padding ∷ b.padding ∷ [])
            (out done (0 ∷ 0 ∷ 0 ∷ 0 ∷ p))
          ≡ ok (out (done ++ (x ∷ [])) q))
  decode_one x done p hx =
      let h1 : first x < 64 = omega arith in
      let h2 : second x 0 < 64 = omega arith in
      let e1 : first x * 4 + second x 0 / 16 ≡ x = omega arith in
      (
        (second x 0 % 16 * 16 + 0 / 4) ∷ (0 % 4 * 64 + 0) ∷ 0 ∷ p,
        decode_block b h (h.letter (first x)) (h.letter (second x 0)) b.padding b.padding
              (first x * 4 + second x 0 / 16) (second x 0 % 16 * 16 + 0 / 4) (0 % 4 * 64 + 0) done p
              (decode_values b _ _ _ _ (first x) (second x 0) 0 0 p (h.decodes _ h1)
                (h.decodes _ h2) h.pads h.pads h1 h2 (omega arith) (omega arith))
            ∙ rw (h.differs (first x) h1, h.differs (second x 0) h2, pad_pad b.padding, e1) refl,
      )
