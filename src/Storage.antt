-- ===== src/Storage.antt =====
-- physical_file_storage, physical_file_storage_single_file and file_storage of
-- src/templates2/include/primitives/templates2/storage.h. The hash of contents is an argument, and
-- the files to add are their contents.
mod Laws
mod Paths
mod Index
mod Stored
mod Examples
use primitives.Prelude.{
  ℕ, zero, suc, ◌≡◌, Bool, true, false, not, ◌||◌, List, [], ◌∷◌, ◌++◌, Option, none, some, Bytes,
  length, take, drop, ◌==◌, if◌then◌else◌, ltb, ◌+◌, ◌^◌, Outcome, ok, undefined, ◌>>=◌,
}
use primitives.Prelude.Ord.{list_beq, nat_ord}
use primitives.Prelude.Decimal.{decimal}

-- What file_storage asks of its storage.
pub record PhysicalStorage : Type 1 where
  pub State : Type 0
  pub contains : ℕ → State → Outcome Bool
  pub add : Bytes → State → State
  pub remove : ℕ → State → State
  pub get_hash : Bytes → ℕ

abbrev pub is_some {ℓ} : {A : Type ℓ} → Option A → Bool
is_some none = false
is_some (some a) = true

-- physical_file_storage: the files under root, by their names.
abbrev pub Directory : Type 0
Directory = Bytes → Option Bytes

abbrev pub make_path : ℕ → Bytes
make_path h = decimal h

abbrev pub contains_file : ℕ → Directory → Bool
contains_file h d = is_some (d (make_path h))

unfoldable pub copy_file : Bytes → Bytes → Directory → Directory
copy_file content p d q = if list_beq q p then some content else d q

unfoldable pub remove_file : Bytes → Directory → Directory
remove_file p d q = if list_beq q p then none else d q

abbrev pub add_file : (Bytes → ℕ) → Bytes → Directory → Directory
add_file hash content d =
    if not (contains_file (hash content) d)
    then copy_file content (make_path (hash content)) d
    else d

abbrev pub directory : (Bytes → ℕ) → PhysicalStorage
directory hash = record {
  State = Directory;
  contains = λ h d. ok (contains_file h d);
  add = add_file hash;
  remove = λ h. remove_file (make_path h);
  get_hash = hash;
}

-- physical_file_storage_single_file: the file of contents, and the records of the index.
pub record Record : Type 0 where
  pub hash : ℕ
  pub pos : ℕ
  pub size : ℕ

pub record SingleFile : Type 0 where
  pub f : Bytes
  pub fi : List Record

-- The walk of contains, at the unsigned offset of an iterator. Behind 4 GB it starts over at an
-- offset of the records that are not h's, or between two records, and does not meet the end of the
-- index: `undefined`, as what it reads there is left open.
unfoldable pub contains_hash : ℕ → ℕ → ℕ → List Record → Outcome Bool
contains_hash size offset h [] = ok false
contains_hash size offset h (r ∷ rs) = elim (h == r.hash) [
  | true ↦ ok true
  | false ↦ elim (ltb (offset + size) (2 ^ 32)) [
    | true ↦ contains_hash size (offset + size) h rs
    | false ↦ undefined
  ]
]

-- The contents of a record, which obj::copy writes to a file.
abbrev pub copy : Record → Bytes → Bytes
copy r f = take r.size (drop r.pos f)

unfoldable pub append_file : (Bytes → ℕ) → Bytes → SingleFile → SingleFile
append_file hash s t =
    let r : Record = record { hash = hash s; pos = length t.f; size = length s } in
    record { f = t.f ++ s; fi = t.fi ++ r ∷ [] }

-- remove does nothing. `size` is sizeof(record), which depends on the type of hashes.
abbrev pub single_file : ℕ → (Bytes → ℕ) → PhysicalStorage
single_file size hash = record {
  State = SingleFile;
  contains = λ h s. contains_hash size 0 h s.fi;
  add = append_file hash;
  remove = λ h s. s;
  get_hash = hash;
}

-- file_storage
module _ (P : PhysicalStorage) where
  unfoldable pub add : Bytes → P.State → Outcome P.State
  add content s =
      P.contains (P.get_hash content) s >>= λ b. ok (if not b then P.add content s else s)

  unfoldable pub add_r : List Bytes → P.State → Outcome P.State
  add_r [] s = ok s
  add_r (content ∷ range) s = add content s >>= λ t. add_r range t
