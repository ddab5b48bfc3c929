-- ===== src/Compare.antt =====
-- FileIterator, compare_files and compare_dirs of
-- src/filesystem/include/primitives/file_iterator.h. A file is what fread has not read yet; the
-- contents that the paths lead to, and the files of a directory, are arguments.
mod Contents
mod Examples
use primitives.Prelude.{
  ℕ, zero, suc, ◌+◌, ◌≡◌, Bool, true, false, not, ◌&&◌, ◌||◌, List, [], ◌∷◌, ◌++◌, Option, none,
  some, map, Bytes, length, take, drop, replicate, any, all, leb, ltb, ◌==◌, if◌then◌else◌,
}
use primitives.Prelude.Ord.{list_beq, nat_ord}

pub record File : Type 0 where
  pub size : ℕ
  pub buf : Bytes
  pub read : ℕ
  -- of the FILE: what is still to be read, and its end-of-file flag
  pub rest : Bytes
  pub eof : Bool

-- The constructor, at one path.
abbrev pub open_file : Bytes → File
open_file content = record {
  size = length content;
  buf = [];
  read = 0;
  rest = content;
  eof = false;
}

-- fread of n bytes into buf
abbrev pub read_file : ℕ → File → File
read_file n f =
    let part = take n f.rest in
    record f {
      buf = part ++ drop (length part) f.buf;
      read = length part;
      rest = drop n f.rest;
      eof = f.eof || ltb (length part) n;
    }

abbrev pub is_same_size : List File → Bool
is_same_size [] = true
is_same_size (f ∷ fs) = all (λ g. g.size == f.size) (f ∷ fs)

abbrev pub is_same_read_size : List File → Bool
is_same_read_size [] = true
is_same_read_size (f ∷ fs) = all (λ g. g.read == f.read) (f ∷ fs)

abbrev pub front_read : List File → ℕ
front_read [] = 0
front_read (f ∷ fs) = f.read

-- The loop of iterate, with steps that may run out.
read_all : ℕ → ℕ → (List Bytes → ℕ → Bool) → List File → Option Bool
read_all zero n f fs = none
read_all (suc k) n f fs =
    let gs = map (read_file n) fs in
    let rest = read_all k n f gs in
    if any (λ g. g.eof) fs
    then some true
    else if not (is_same_read_size gs)
    then some false
    else if not (f (map (λ g. g.buf) gs) (front_read gs))
    then some false
    else rest

unfoldable pub iterate : ℕ → ℕ → (List Bytes → ℕ → Bool) → List File → Option Bool
unfolding read_all
iterate k n f fs =
    let opened = λ (g : File). record g { buf = replicate n 0 } in
    if not (is_same_size fs) then some false else read_all k n f (map opened fs)

-- memcmp of the first sz bytes of two buffers
abbrev pub same_bytes : List Bytes → ℕ → Bool
same_bytes (a ∷ b ∷ bufs) sz = list_beq (take sz a) (take sz b)
same_bytes _ sz = true

unfoldable pub compare_files : ℕ → Bytes → Bytes → Option Bool
unfolding iterate
compare_files n a b = iterate (length a + 2) n same_bytes (open_file a ∷ open_file b ∷ [])

-- The loop over the files of both, which are as many.
abbrev pub if_same : Option Bool → Option Bool → Option Bool
if_same none rest = none
if_same (some false) rest = some false
if_same (some true) rest = rest

abbrev pub compare_each : ℕ → List Bytes → List Bytes → Option Bool
compare_each n [] ys = some true
compare_each n (x ∷ xs) [] = some true
compare_each n (x ∷ xs) (y ∷ ys) = if_same (compare_files n x y) (compare_each n xs ys)

abbrev pub has_files : List Bytes → Bool
has_files [] = false
has_files (x ∷ xs) = true

unfoldable pub compare_dirs : ℕ → List Bytes → List Bytes → Option Bool
compare_dirs n xs ys =
    if not (has_files xs)
    then some false
    else if not (has_files ys)
    then some false
    else if not (length xs == length ys)
    then some false
    else compare_each n xs ys
