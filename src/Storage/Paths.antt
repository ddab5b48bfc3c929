-- ===== src/Storage/Paths.antt =====
-- physical_file_storage of src/templates2/include/primitives/templates2/storage.h as a storage.
use primitives.Prelude.{
  ℕ, ◌≡◌, refl, sym, ap, ◌∙◌, inl, inr, false, Option, some, Bytes, ◌==◌, ==_iff, Bool-cases,
  if◌then◌else◌, arith,
}
use primitives.Prelude.Ord.{list_beq, list_beq_iff, nat_ord}
use primitives.Prelude.Decimal.{digit_value, digit_value-decimal}
use primitives.Storage.{Directory, make_path, contains_file, copy_file, add_file, directory}
use primitives.Storage.Laws.{IsStorage}

abbrev pub stored_file : ℕ → Directory → Option Bytes
stored_file h d = d (make_path h)

-- Different hashes have different paths.
make_path-beq : (h k : ℕ) → list_beq (make_path h) (make_path k) ≡ (h == k)
make_path-beq h k = elim (Bool-cases (h == k)) [
  | inl same ↦ rw (same, (==_iff h k).0 same) ((list_beq_iff (make_path k) (make_path k)).1 refl)
  | inr other ↦ elim (Bool-cases (list_beq (make_path h) (make_path k))) [
    | inl equal ↦
        let e = ap (digit_value 0) ((list_beq_iff (make_path h) (make_path k)).0 equal) in
        let f : h ≡ k = sym (digit_value-decimal h) ∙ (e ∙ digit_value-decimal k) in
        ground (arith, f)
    | inr differ ↦ differ ∙ sym other
  ]
]

stored_file-add :
    (hash : Bytes → ℕ) (h : ℕ) (c : Bytes) (d : Directory)
    → contains_file (hash c) d ≡ false
    → stored_file h (add_file hash c d) ≡ (if h == hash c then some c else stored_file h d)
unfolding copy_file
stored_file-add hash h c d new = rw (new, make_path-beq h (hash c)) refl

pub directory-IsStorage : (hash : Bytes → ℕ) → IsStorage (directory hash) stored_file (λ n d. Unit)
directory-IsStorage hash = record {
  contains_lem = λ n h d _. refl;
  stored-add = λ n h c d _ new. stored_file-add hash h c d new;
  add-IsGood = λ n c d _. tt;
  IsGood_of_suc = λ n d _. tt;
}
