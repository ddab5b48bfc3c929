-- ===== src/Storage/Examples.antt =====
-- Files stored by their length.
use primitives.Prelude.{ℕ, ok, ◌>>=◌, arith, ◌≡◌, refl, List, [], ◌∷◌, some, Bytes, codes, length}
use primitives.Storage.{
  contains_hash, Directory, SingleFile, append_file, add, make_path, directory, single_file, add_r,
}
use primitives.Storage.Laws.{first_with}
use primitives.Storage.Index.{stored_copy}
use primitives.Storage.Stored.{empty_directory, empty_single_file, add_r_lem}

abbrev files : List Bytes
files = codes "one" ∷ codes "three" ∷ codes "two" ∷ []

add_r_lem_example :
    ((d : Directory) × (add_r (directory length) files empty_directory ≡ ok d)
      × ((h : ℕ) → d (make_path h) ≡ first_with length h files))
    × ((s : SingleFile) × (add_r (single_file 24 length) files empty_single_file ≡ ok s)
        × ((h : ℕ) → stored_copy h s ≡ first_with length h files))
add_r_lem_example = add_r_lem 24 length files (omega arith)

three_of_single_file :
    (add_r (single_file 24 length) files empty_single_file >>= λ s. ok (stored_copy 5 s))
    ≡ ok (some (codes "three"))
unfolding add_r add append_file contains_hash
three_of_single_file = refl
