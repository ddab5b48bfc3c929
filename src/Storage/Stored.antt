-- ===== src/Storage/Stored.antt =====
-- What the two storages of src/templates2/include/primitives/templates2/storage.h hold.
use primitives.Prelude.{ℕ, ◌≡◌, ◌<◌, ◌*◌, ◌^◌, arith, List, [], none, Bytes, length, ok}
use primitives.Storage.{Directory, SingleFile, make_path, directory, single_file, add_r}
use primitives.Storage.Laws.{first_with, stored-add_r}
use primitives.Storage.Paths.{stored_file, directory-IsStorage}
use primitives.Storage.Index.{stored_copy, Fits, single_file-IsStorage}

abbrev pub empty_directory : Directory
empty_directory p = none

abbrev pub empty_single_file : SingleFile
empty_single_file = record { f = []; fi = [] }

-- Files are added to an empty file_storage, over a directory as over a single file, so that then each
-- hash leads to the contents of the first of the files that have it, and to none where no file has
-- it: if the records of that many files, of sizeof(record) each, take less than 4 GB.
pub add_r_lem :
    (size : ℕ) (hash : Bytes → ℕ) (range : List Bytes)
    → length range * size < 2 ^ 32
    → ((d : Directory) × (add_r (directory hash) range empty_directory ≡ ok d)
        × ((h : ℕ) → d (make_path h) ≡ first_with hash h range))
      × ((s : SingleFile) × (add_r (single_file size hash) range empty_single_file ≡ ok s)
          × ((h : ℕ) → stored_copy h s ≡ first_with hash h range))
add_r_lem size hash range b = (
  stored-add_r (directory hash) stored_file (λ n d. Unit) (directory-IsStorage hash) range
      empty_directory tt,
  stored-add_r (single_file size hash) stored_copy (Fits size) (single_file-IsStorage size hash)
      range empty_single_file (tt, ground arith),
)
