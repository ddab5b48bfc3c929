-- ===== src/Stream.antt =====
-- primitives::BinaryStream (src/emitter/include/primitives/emitter.h), on a buffer of its own: streams
-- that share one are not modelled. `ptr` is the buffer from index_ on, so it has no field.
pub mod Bounds
pub mod Memory
mod Examples
use primitives.Prelude.{
  ℕ, zero, suc, ◌+◌, ◌-◌, ◌^◌, ◌%◌, Bool, true, false, List, [], ◌∷◌, ◌++◌, Option, none, some,
  Bytes, length, take, drop, replicate, ltb, leb, ◌==◌, if◌then◌else◌, Outcome, ok, throw,
  undefined, not_initialized, out_of_range, too_much_data, ◌>>=◌,
}

pub record Stream : Type 0 where
  pub buf : Option Bytes
  pub index : ℕ
  pub data_offset : ℕ
  pub size : ℕ
  pub end : ℕ

-- Sums of size_t, and (int)n as it is added to one.
abbrev pub wrap : ℕ → ℕ
wrap n = n % 2 ^ 64

abbrev pub as_int : ℕ → ℕ
as_int n = if ltb (n % 2 ^ 32) (2 ^ 31) then n % 2 ^ 32 else n % 2 ^ 32 + (2 ^ 64 - 2 ^ 32)

-- skip, by an int as it is added to a size_t.
unfoldable pub skip : Stream → ℕ → Outcome Stream
skip s n = elim s.buf [
  | none ↦ throw not_initialized
  | some b ↦ ok (record s { index = wrap (s.index + n); data_offset = wrap (s.data_offset + n) })
]

unfoldable pub reset : Stream → Stream
reset s = record s { index = 0; data_offset = 0 }

unfoldable pub seek : Stream → ℕ → Outcome Stream
unfolding reset skip
seek s n = skip (reset s) (as_int n)

unfoldable pub has : Stream → ℕ → Bool
has s n = leb (wrap (s.index + n)) s.end

unfoldable pub eof : Stream → Bool
eof s = s.index == s.end

-- The constructor from a vector, with a data offset.
unfoldable pub of_buffer : Bytes → ℕ → Stream
of_buffer b offset = record {
  buf = some b;
  index = 0;
  data_offset = offset;
  size = length b;
  end = length b;
}

-- The default constructor.
unfoldable pub unset : Stream
unset = record { buf = none; index = 0; data_offset = 0; size = 0; end = 0 }

-- memcpy from a buffer: its bytes from i on; what lies behind it is not ours to read.
unfoldable pub copy_from : Bytes → ℕ → ℕ → Outcome Bytes
copy_from b i n = if leb (i + n) (length b) then ok (take n (drop i b)) else undefined

-- memcpy into a buffer.
unfoldable pub copy_to : Bytes → ℕ → Bytes → Outcome Bytes
copy_to b i src =
    if leb (i + length src) (length b)
    then ok (take i b ++ (src ++ drop (i + length src) b))
    else undefined

-- _read.
unfoldable pub read_bytes : Stream → ℕ → ℕ → Outcome (Bytes × Stream)
unfolding skip copy_from
read_bytes s n offset = elim s.buf [
  | none ↦ throw not_initialized
  | some b ↦
      if leb s.end s.index
      then throw out_of_range
      else if ltb s.end (wrap (s.index + offset + n))
      then throw too_much_data
      else (do
        dst ← copy_from b (wrap (s.index + offset)) n
        s' ← skip s (as_int (n + offset))
        ok (dst, s'))
]

-- std::vector::resize on bytes.
unfoldable pub resize_bytes : Bytes → ℕ → Bytes
resize_bytes b n = take n b ++ replicate (n - length b) 0

-- The part of _write that makes a buffer, where there is none.
unfoldable pub with_buffer : Stream → ℕ → Stream
with_buffer s n = elim s.buf [
  | none ↦ record s { buf = some (replicate n 0); size = n; end = n }
  | some b ↦ s
]

-- The rest of _write, behind the check of index_: the buffer grows, and the bytes go in.
unfoldable pub put_bytes : Stream → Bytes → Bytes → Outcome Stream
unfolding copy_to resize_bytes skip
put_bytes s b src =
    let past = wrap (s.index + length src) in
    let grown = ltb s.end past in
    let b' = if grown then resize_bytes b past else b in
    let n = if grown then past else s.end in
    let sz = if grown then past else s.size in
    copy_to b' s.index src >>= λ b''.
    skip (record s { buf = some b''; size = sz; end = n }) (as_int (length src))

-- _write.
unfoldable pub write_bytes : Stream → Bytes → Outcome Stream
unfolding with_buffer put_bytes
write_bytes s src =
    let s' = with_buffer s (length src) in
    elim s'.buf [
      | none ↦ undefined
      | some b ↦ if ltb s'.end s'.index then throw out_of_range else put_bytes s' b src
    ]

-- write(const std::string &): the bytes and the zero behind them.
unfoldable pub write_string : Stream → Bytes → Outcome Stream
unfolding write_bytes
write_string s t = write_bytes s (t ++ 0 ∷ [])

-- The loop of read(std::string &), which stops at a zero byte only.
unfoldable pub until_zero : Bytes → Outcome Bytes
until_zero [] = undefined
until_zero (c ∷ b) = elim (c == 0) [ true ↦ ok [] | false ↦ do t ← until_zero b; ok (c ∷ t) ]

unfoldable pub read_string : Stream → Outcome (Bytes × Stream)
unfolding until_zero skip
read_string s = elim s.buf [
  | none ↦ undefined
  | some b ↦ do t ← until_zero (drop s.index b); s' ← skip s (as_int (length t + 1)); ok (t, s')
]
