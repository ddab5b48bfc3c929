-- ===== src/Stream/Memory.antt =====
-- A stream gives back what was written to it.
use primitives.Prelude.{
  ℕ, zero, suc, ◌+◌, ◌^◌, ◌≤◌, ◌<◌, ◌≡◌, ◌≢◌, refl, ap, true, false, [], ◌∷◌, ◌++◌, append_assoc,
  arith, Bytes, length, length-append, take, drop, ltb, leb, Bool-cases, inl, inr, ok, throw,
  out_of_range, too_much_data, ◌>>=◌, All, ◌==◌, if◌then◌else◌,
}
use primitives.Stream.{
  Stream, wrap, skip, seek, reset, write_bytes, copy_from, read_bytes, write_string, until_zero,
  read_string,
}
use primitives.Stream.Bounds.{
  stream_at, written, wrap_small, as_int_small, length-take, write_bytes_lem,
}

-- From a stream of a buffer of less than 2 ^ 31 bytes, with index_ in the buffer or at its end, a read
-- whose size and offset are less than 2 ^ 31 together stays in the buffer: it gives the bytes from
-- index_ and the offset on and moves behind them, or throws, where index_ is at the end or the bytes go
-- past it.
pub read_bytes_lem :
    (b : Bytes) (i base n offset : ℕ)
    → length b < 2 ^ 31
    → i ≤ length b
    → n + offset < 2 ^ 31
    → read_bytes (stream_at b i base) n offset ≡ (
        if leb (length b) i
        then throw out_of_range
        else if ltb (length b) (i + offset + n)
        then throw too_much_data
        else ok (
          take n (drop (i + offset) b),
          stream_at b (i + (n + offset)) (wrap (base + (n + offset))),
        ))
unfolding read_bytes skip copy_from
read_bytes_lem b i base n offset fits h k =
    let w₁ = wrap_small (i + offset + n) (omega arith) in
    let w₂ = wrap_small (i + offset) (omega arith) in
    let w₃ = wrap_small (i + (n + offset)) (omega arith) in
    let a = as_int_small (n + offset) k in
    elim (Bool-cases (leb (length b) i)) [
      | inl e ↦ rw e refl
      | inr e ↦ elim (Bool-cases (ltb (length b) (i + offset + n))) [
        | inl p ↦ rw (e, w₁, p) refl
        | inr p ↦
            let c : leb (i + offset + n) (length b) ≡ true = ground arith in
            rw (e, w₁, p, w₂, c, ◌>>=◌, a, w₃) refl
      ]
    ]

drop_front : (i : ℕ) (b r : Bytes) → i ≤ length b → drop i (take i b ++ r) ≡ r
drop_front zero b r h = refl
drop_front (suc i) [] r h = absurd (omega arith)
drop_front (suc i) (c ∷ b) r h = drop_front i b r (omega arith)

take-length : (s r : Bytes) → take (length s) (s ++ r) ≡ s
take-length [] r = refl
take-length (c ∷ s) r = ap (λ t. c ∷ t) (take-length s r)

length-written_end :
    (b src : Bytes) (i : ℕ) → i ≤ length b → i + length src ≤ length (written b i src)
length-written_end b src i h = omega (
  arith,
  length-append (take i b) (src ++ drop (i + length src) b),
  length-append src (drop (i + length src) b),
  length-take i b h,
)

seek_lem :
    (b : Bytes) (i j base : ℕ) → j < 2 ^ 31 → seek (stream_at b i base) j ≡ ok (stream_at b j j)
unfolding seek skip reset
seek_lem b i j base h =
    let a = as_int_small j h in let e : wrap (0 + j) ≡ j = omega arith in rw (a, e) refl

length_pos : (s : Bytes) → s ≢ [] → 0 < length s
length_pos [] ne = absurd (ne refl)
length_pos (c ∷ s) ne = omega arith

until_zero_lem : (t r : Bytes) → All (λ c. c ≢ 0) t → until_zero (t ++ 0 ∷ r) ≡ ok t
unfolding until_zero
until_zero_lem [] r h = refl
until_zero_lem (c ∷ t) r (k, h) =
    let e : (c == 0) ≡ false = ground arith in rw (until_zero, e, until_zero_lem t r h) refl

write_string_lem : (s : Stream) (t : Bytes) → write_string s t ≡ write_bytes s (t ++ 0 ∷ [])
unfolding write_string
write_string_lem s t = refl

read_string_lem :
    (b t : Bytes) (i base : ℕ)
    → until_zero (drop i b) ≡ ok t
    → i + (length t + 1) < 2 ^ 31
    → read_string (stream_at b i base)
      ≡ ok (t, stream_at b (i + (length t + 1)) (wrap (base + (length t + 1))))
unfolding read_string skip
read_string_lem b t i base e k =
    let a = as_int_small (length t + 1) (omega arith) in
    let w = wrap_small (i + (length t + 1)) (omega arith) in rw (e, ◌>>=◌, a, w) refl

module _ (b : Bytes) (i base : ℕ) (h : i ≤ length b) where
  -- Bytes, one at least, that are written at index_, in the buffer or at its end, are read back after a
  -- seek to where they were written, also where they overwrite a part of the buffer or make it grow, and
  -- reading ends behind them: if the buffer then has less than 2 ^ 31 bytes.
  pub read_bytes-write_bytes :
      (src : Bytes)
      → src ≢ []
      → length (written b i src) < 2 ^ 31
      → (do s ← write_bytes (stream_at b i base) src; t ← seek s i; read_bytes t (length src) 0)
        ≡ ok (src, stream_at (written b i src) (i + length src) (i + length src))
  read_bytes-write_bytes src ne fits =
      let w = written b i src in
      let m = length src in
      let long = length-written_end b src i h in
      let some_byte = length_pos src ne in
      let inside : leb (length w) i ≡ false = ground (arith, long) in
      let enough : ltb (length w) (i + 0 + m) ≡ false = ground (arith, long) in
      let z : i + 0 ≡ i = omega arith in
      let m_eq : m + 0 ≡ m = omega arith in
      let back : take m (drop i w) ≡ src =
        rw (drop_front i b (src ++ drop (i + m) b) h) (take-length src (drop (i + m) b)) in
      let whole = wrap_small (i + m) (omega arith) in
      rw
        (
          write_bytes_lem b src i base h (omega arith),
          ◌>>=◌,
          seek_lem w (i + m) i (wrap (base + m)) (omega arith),
          ◌>>=◌,
          read_bytes_lem w i i m 0 fits (omega arith) (omega arith),
          inside,
          enough,
          z,
          m_eq,
          back,
          whole,
        )
        refl

  -- A text without zero bytes that is written with its zero is read back as a text after a seek.
  pub read_string-write_string :
      (t : Bytes)
      → All (λ c. c ≢ 0) t
      → length (written b i (t ++ 0 ∷ [])) < 2 ^ 31
      → (do s ← write_string (stream_at b i base) t; r ← seek s i; read_string r)
        ≡ ok (t, stream_at (written b i (t ++ 0 ∷ [])) (i + (length t + 1)) (i + (length t + 1)))
  read_string-write_string t nz fits =
      let src = t ++ 0 ∷ [] in
      let w = written b i src in
      let m_eq : length src ≡ length t + 1 = length-append t (0 ∷ []) in
      let long = length-written_end b src i h in
      let text : until_zero (drop i w) ≡ ok t =
        rw
          (
            drop_front i b (src ++ drop (i + length src) b) h,
            append_assoc t (0 ∷ []) (drop (i + length src) b),
          )
          (until_zero_lem t (drop (i + length src) b) nz) in
      let whole = wrap_small (i + (length t + 1)) (omega arith) in
      rw
        (
          write_string_lem (stream_at b i base) t,
          write_bytes_lem b src i base h (omega arith),
          ◌>>=◌,
          seek_lem w (i + length src) i (wrap (base + length src)) (omega arith),
          ◌>>=◌,
          read_string_lem w t i i text (omega arith),
          whole,
        )
        refl
