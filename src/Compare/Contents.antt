-- ===== src/Compare/Contents.antt =====
-- What compare_files and compare_dirs of src/filesystem/include/primitives/file_iterator.h compare.
use primitives.Prelude.{
  ℕ, zero, suc, ◌+◌, ◌≡◌, ◌≢◌, ==_iff, ◌≤◌, ◌<◌, refl, sym, ap, ◌∙◌, inl, inr, Bool, true, false,
  ◌&&◌, ◌||◌, List, [], ◌∷◌, ◌++◌, some, Bytes, length, take, drop, length-drop, ltb, ltb→lt,
  lt→ltb, ◌==◌, Bool-cases, if◌then◌else◌, arith,
}
use primitives.Prelude.Ord.{Ord, list_beq, list_beq_iff, nat_ord, list_ord}
use primitives.Compare.{
  File, read_file, read_all, iterate, same_bytes, compare_files, compare_each, has_files, if_same,
  compare_dirs,
}

take-append_self : (a b : Bytes) → take (length a) (a ++ b) ≡ a
take-append_self [] b = refl
take-append_self (x ∷ a) b = ap (λ s. x ∷ s) (take-append_self a b)

-- Texts of one length are compared piece by piece.
list_beq-take-drop :
    (n : ℕ) (a b : Bytes)
    → length a ≡ length b
    → list_beq a b ≡ (list_beq (take n a) (take n b) && list_beq (drop n a) (drop n b))
list_beq-take-drop zero a b h = refl
list_beq-take-drop (suc n) [] [] h = refl
list_beq-take-drop (suc n) [] (y ∷ b) h = absurd (omega arith)
list_beq-take-drop (suc n) (x ∷ a) [] h = absurd (omega arith)
list_beq-take-drop (suc n) (x ∷ a) (y ∷ b) h =
    ground (arith, list_beq-take-drop n a b (omega arith))

length-take : (n : ℕ) (a : Bytes) → n ≤ length a → length (take n a) ≡ n
length-take zero a h = refl
length-take (suc n) [] h = absurd (omega arith)
length-take (suc n) (x ∷ a) h = omega (arith, length-take n a (omega arith))

take_all : (n : ℕ) (a : Bytes) → length a < n → take n a ≡ a
take_all zero a h = absurd (omega arith)
take_all (suc n) [] h = refl
take_all (suc n) (x ∷ a) h = ap (λ s. x ∷ s) (take_all n a (omega arith))

length-take_same :
    (n : ℕ) (a b : Bytes) → length a ≡ length b → length (take n b) ≡ length (take n a)
length-take_same zero a b h = refl
length-take_same (suc n) [] [] h = refl
length-take_same (suc n) [] (y ∷ b) h = absurd (omega arith)
length-take_same (suc n) (x ∷ a) [] h = absurd (omega arith)
length-take_same (suc n) (x ∷ a) (y ∷ b) h = ap suc (length-take_same n a b (omega arith))

if_same-some : (a b : Bool) → if_same (some a) (some b) ≡ some (a && b)
if_same-some true b = refl
if_same-some false b = refl

-- What differs in length differs.
list_beq-length {ℓ} :
    {A : Type ℓ} ⦃o : Ord A⦄ (xs ys : List A) → length xs ≢ length ys → list_beq xs ys ≡ false
list_beq-length xs ys h = elim (Bool-cases (list_beq xs ys)) [
  | inl same ↦ absurd (h (ap length ((list_beq_iff xs ys).0 same)))
  | inr other ↦ other
]

both : (a b : Bool) → (if a then some b else some false) ≡ some (a && b)
both true b = refl
both false b = refl

itself : (a : Bool) → (if a then some true else some false) ≡ some a
itself true = refl
itself false = refl

module _ (n : ℕ) (pos : 0 < n) where
  module _ (f g : File) (ef : f.eof ≡ false) (eg : g.eof ≡ false)
      (l : length f.rest ≡ length g.rest) where
    read_all_step :
        (k : ℕ)
        → read_all (suc k) n same_bytes (f ∷ g ∷ []) ≡ (
            if list_beq (take n f.rest) (take n g.rest)
            then read_all k n same_bytes (read_file n f ∷ read_file n g ∷ [])
            else some false)
    unfolding read_all
    read_all_step k =
        let t = length-take_same n f.rest g.rest l in
        let fb = take-append_self (take n f.rest) (drop (length (take n f.rest)) f.buf) in
        let gb : take (length (take n f.rest))
              (take n g.rest ++ drop (length (take n g.rest)) g.buf)
            ≡ take n g.rest =
          ap (λ m. take m (take n g.rest ++ drop (length (take n g.rest)) g.buf)) (sym t)
          ∙ take-append_self (take n g.rest) (drop (length (take n g.rest)) g.buf) in
        rw (ef, eg, fb, gb) (ground (arith, t))

    read_all_last :
        (k : ℕ)
        → length f.rest < n
        → 1 < k
        → read_all k n same_bytes (f ∷ g ∷ []) ≡ some (list_beq f.rest g.rest)
    unfolding read_all
    read_all_last zero h p = absurd (omega arith)
    read_all_last (suc zero) h p = absurd (omega arith)
    read_all_last (suc (suc k)) h p =
        let tf = take_all n f.rest h in
        let tg = take_all n g.rest (omega arith) in
        let short = lt→ltb (length f.rest) n h in
        read_all_step (suc k) ∙ rw (tf, tg, ef, eg, short) (itself (list_beq f.rest g.rest))

  read_all_lem :
      (k : ℕ) (f g : File)
      → f.eof ≡ false
      → g.eof ≡ false
      → length f.rest ≡ length g.rest
      → length f.rest + 1 < k
      → read_all k n same_bytes (f ∷ g ∷ []) ≡ some (list_beq f.rest g.rest)
  read_all_lem zero f g ef eg l h = absurd (omega arith)
  read_all_lem (suc k) f g ef eg l h = elim (Bool-cases (ltb (length f.rest) n)) [
    | inl last ↦ read_all_last f g ef eg l (suc k) (ltb→lt _ _ last) (omega arith)
    | inr more ↦
        let full : n ≤ length f.rest = ground arith in
        let lf = length-take n f.rest full in
        let lg = length-take n g.rest (omega arith) in
        let df = length-drop n f.rest in
        let dg = length-drop n g.rest in
        let ef' : (f.eof || ltb (length (take n f.rest)) n) ≡ false = rw (ef, lf) (ground arith) in
        let eg' : (g.eof || ltb (length (take n g.rest)) n) ≡ false = rw (eg, lg) (ground arith) in
        read_all_step f g ef eg l k
        ∙ rw
            (
              read_all_lem k (read_file n f) (read_file n g) ef' eg' (omega arith) (omega arith),
              list_beq-take-drop n f.rest g.rest l,
            )
            (both (list_beq (take n f.rest) (take n g.rest))
              (list_beq (drop n f.rest) (drop n g.rest)))
  ]

  -- compare_files tells whether two files have the same bytes, with a buffer of any size, for files
  -- that are not written to meanwhile: the loop ends, within two rounds more than there are bytes.
  pub compare_files_lem : (a b : Bytes) → compare_files n a b ≡ some (list_beq a b)
  unfolding compare_files iterate
  compare_files_lem a b = elim (Bool-cases (length b == length a)) [
    | inl same ↦
        rw (same, (==_iff (length a) (length a)).1 refl)
          (read_all_lem (length a + 2) _ _ refl refl (ground arith) (omega arith))
    | inr other ↦
        rw (other, (==_iff (length a) (length a)).1 refl, list_beq-length a b (ground arith)) refl
  ]

  compare_each_lem :
      (xs ys : List Bytes) → length xs ≡ length ys → compare_each n xs ys ≡ some (list_beq xs ys)
  compare_each_lem [] [] h = refl
  compare_each_lem [] (y ∷ ys) h = absurd (omega arith)
  compare_each_lem (x ∷ xs) [] h = absurd (omega arith)
  compare_each_lem (x ∷ xs) (y ∷ ys) h =
      rw (compare_files_lem x y, compare_each_lem xs ys (omega arith))
        (if_same-some (list_beq x y) (list_beq xs ys))

  -- compare_dirs tells whether the first directory has files and both have the same contents, file
  -- for file in the order in which they are found, whatever their names.
  pub compare_dirs_lem :
      (xs ys : List Bytes) → compare_dirs n xs ys ≡ some (has_files xs && list_beq xs ys)
  unfolding compare_dirs
  compare_dirs_lem [] ys = refl
  compare_dirs_lem (x ∷ xs) [] = refl
  compare_dirs_lem (x ∷ xs) (y ∷ ys) = elim (Bool-cases (length (x ∷ xs) == length (y ∷ ys))) [
    | inl same ↦ rw same (compare_each_lem (x ∷ xs) (y ∷ ys) ((==_iff _ _).0 same))
    | inr other ↦ rw other (ap some (sym (list_beq-length (x ∷ xs) (y ∷ ys) (ground arith))))
  ]
