-- ===== src/Stream/Examples.antt =====
-- The theorems on streams at concrete inputs, and runs of the operations.
use mathlib.Core.List.{cons-ne-nil}
use primitives.Prelude.{
  ◌+◌, ◌≡◌, refl, arith, Bytes, codes, length, take, drop, leb, ltb, ok, throw, too_much_data,
  out_of_range, ◌>>=◌, if◌then◌else◌, not_initialized,
}
use primitives.Stream.{wrap, seek, unset, write_bytes, with_buffer, put_bytes, read_bytes}
use primitives.Stream.Bounds.{stream_at}
use primitives.Stream.Memory.{read_bytes_lem, read_bytes-write_bytes}

abbrev content : Bytes
content = codes "hello"

first_write : write_bytes unset (codes "ab") ≡ ok (stream_at (codes "ab") 2 2)
unfolding write_bytes unset with_buffer put_bytes
first_write = refl

unset_read : read_bytes unset 1 0 ≡ throw not_initialized
unfolding read_bytes unset
unset_read = refl

read_bytes_lem_example : read_bytes (stream_at content 1 0) 2 1 ≡ (
    if leb (length content) 1
    then throw out_of_range
    else if ltb (length content) (1 + 1 + 2)
    then throw too_much_data
    else ok (take 2 (drop (1 + 1) content), stream_at content (1 + (2 + 1)) (wrap (0 + (2 + 1)))))
read_bytes_lem_example = read_bytes_lem content 1 0 2 1 (omega arith) (omega arith) (omega arith)

read_bytes-write_bytes_example :
    (do s ← write_bytes (stream_at content 3 0) (codes "p me"); t ← seek s 3; read_bytes t 4 0)
    ≡ ok (codes "p me", stream_at (codes "help me") 7 7)
read_bytes-write_bytes_example =
    read_bytes-write_bytes content 3 0 (omega arith) (codes "p me") (cons-ne-nil _ _) (omega arith)
