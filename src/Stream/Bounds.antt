-- ===== src/Stream/Bounds.antt =====
-- Streams whose numbers fit their buffer, and how writing and reading keep them so.
use primitives.Prelude.{
  ℕ, zero, suc, ◌+◌, ◌-◌, ◌^◌, ◌≤◌, ◌<◌, ◌≡◌, refl, sym, ap, ◌∙◌, true, false, [], ◌∷◌, ◌++◌, some,
  arith, Bytes, length, length-append, length-drop, length-replicate, take, drop, replicate, ltb,
  leb, Bool-cases, inl, inr, ok, ◌>>=◌,
}
use primitives.Stream.{
  Stream, wrap, as_int, skip, with_buffer, put_bytes, write_bytes, copy_to, resize_bytes,
}

-- A stream with the buffer b, all of which it has.
abbrev pub stream_at : Bytes → ℕ → ℕ → Stream
stream_at b i offset = record {
  buf = some b;
  index = i;
  data_offset = offset;
  size = length b;
  end = length b;
}

-- The buffer b with the bytes src from i on.
abbrev pub written : Bytes → ℕ → Bytes → Bytes
written b i src = take i b ++ (src ++ drop (i + length src) b)

pub wrap_small : (n : ℕ) → n < 2 ^ 32 → wrap n ≡ n
wrap_small n h = omega arith

pub as_int_small : (n : ℕ) → n < 2 ^ 31 → as_int n ≡ n
as_int_small n h = ground arith

pub length-take : (n : ℕ) (b : Bytes) → n ≤ length b → length (take n b) ≡ n
length-take zero b h = refl
length-take (suc n) [] h = absurd (omega arith)
length-take (suc n) (c ∷ b) h = ap (λ k. suc k) (length-take n b (omega arith))

take_all : (n : ℕ) (b : Bytes) → length b ≤ n → take n b ≡ b
take_all zero [] h = refl
take_all zero (c ∷ b) h = absurd (omega arith)
take_all (suc n) [] h = refl
take_all (suc n) (c ∷ b) h = ap (λ t. c ∷ t) (take_all n b (omega arith))

drop_all : (n : ℕ) (b : Bytes) → length b ≤ n → drop n b ≡ []
drop_all zero [] h = refl
drop_all zero (c ∷ b) h = absurd (omega arith)
drop_all (suc n) [] h = refl
drop_all (suc n) (c ∷ b) h = drop_all n b (omega arith)

take_front : (i : ℕ) (b r : Bytes) → i ≤ length b → take i (b ++ r) ≡ take i b
take_front zero b r h = refl
take_front (suc i) [] r h = absurd (omega arith)
take_front (suc i) (c ∷ b) r h = ap (λ t. c ∷ t) (take_front i b r (omega arith))

length-resize_bytes : (b : Bytes) (n : ℕ) → length b ≤ n → length (resize_bytes b n) ≡ n
unfolding resize_bytes
length-resize_bytes b n h =
    let zeros : Bytes = replicate (n - length b) 0 in
    let z : length zeros ≡ n - length b = length-replicate (n - length b) _ in
    rw (take_all n b h) (omega (arith, length-append b zeros, z))

written-resize_bytes :
    (b src : Bytes) (i : ℕ)
    → i ≤ length b
    → length b ≤ i + length src
    → written (resize_bytes b (i + length src)) i src ≡ written b i src
unfolding resize_bytes
written-resize_bytes b src i h k =
    let n = i + length src in
    let zeros : Bytes = replicate (n - length b) 0 in
    let front : take i (resize_bytes b n) ≡ take i b =
      rw (take_all n b k) (take_front i b zeros h) in
    let behind : drop n (resize_bytes b n) ≡ drop n b =
      drop_all n (resize_bytes b n) (omega (arith, length-resize_bytes b n k))
      ∙ sym (drop_all n b k) in
    rw (front, behind) refl

pub length-written :
    (b src : Bytes) (i : ℕ)
    → i ≤ length b
    → i + length src ≤ length b
    → length (written b i src) ≡ length b
length-written b src i h k = omega (
  arith,
  length-append (take i b) (src ++ drop (i + length src) b),
  length-append src (drop (i + length src) b),
  length-take i b h,
  length-drop (i + length src) b,
)

-- copy_to, within the buffer.
copy_to-written :
    (b src : Bytes) (i : ℕ) → i + length src ≤ length b → copy_to b i src ≡ ok (written b i src)
unfolding copy_to
copy_to-written b src i h =
    let e : leb (i + length src) (length b) ≡ true = ground arith in rw e refl

-- The length of what is written: the buffer's, or as far as the bytes go.
pub length-written_past :
    (b src : Bytes) (i : ℕ)
    → i ≤ length b
    → length b ≤ i + length src
    → length (written b i src) ≡ i + length src
length-written_past b src i h k =
    let n = i + length src in
    let e = length-resize_bytes b n k in
    ap (λ t. length t) (sym (written-resize_bytes b src i h k))
    ∙ length-written (resize_bytes b n) src i (omega (arith, e)) (omega (arith, e))
    ∙ e

-- The bytes go in at index_, whether the buffer has to grow for them or not: the result is the old
-- buffer with the bytes written over it, index_ is behind them, and the sizes are the buffer's.
pub write_bytes_lem :
    (b src : Bytes) (i offset : ℕ)
    → i ≤ length b
    → i + length src < 2 ^ 31
    → write_bytes (stream_at b i offset) src
      ≡ ok (stream_at (written b i src) (i + length src) (wrap (offset + length src)))
unfolding write_bytes with_buffer put_bytes skip
write_bytes_lem b src i offset h k =
    let n = i + length src in
    let here : ltb (length b) i ≡ false = ground arith in
    let w = wrap_small n (omega arith) in
    let a = as_int_small (length src) (omega arith) in
    elim (Bool-cases (ltb (length b) n)) [
      | inl e ↦
          let r = length-resize_bytes b n (ground arith) in
          rw
            (
              here,
              w,
              e,
              copy_to-written (resize_bytes b n) src i (omega (arith, r)),
              ◌>>=◌,
              a,
              w,
              written-resize_bytes b src i h (ground arith),
              length-written_past b src i h (ground arith),
            )
            refl
      | inr e ↦
          rw
            (
              here,
              w,
              e,
              copy_to-written b src i (ground arith),
              ◌>>=◌,
              a,
              w,
              length-written b src i h (ground arith),
            )
            refl
    ]
