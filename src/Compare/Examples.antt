-- ===== src/Compare/Examples.antt =====
-- Files and directories compared, with buffers of 2 and of 3 bytes.
use primitives.Prelude.{◌≡◌, refl, false, ◌&&◌, [], ◌∷◌, some, codes, arith}
use primitives.Prelude.Ord.{list_beq, nat_ord, list_ord}
use primitives.Compare.{compare_files, compare_dirs, has_files}
use primitives.Compare.Contents.{compare_files_lem, compare_dirs_lem}

compare_files_lem_example :
    compare_files 2 (codes "abcd") (codes "abce") ≡ some (list_beq (codes "abcd") (codes "abce"))
compare_files_lem_example = compare_files_lem 2 (omega arith) (codes "abcd") (codes "abce")

compare_dirs_lem_example :
    compare_dirs 3 (codes "ab" ∷ codes "xyz" ∷ []) (codes "ab" ∷ codes "xyy" ∷ [])
    ≡ some (
        has_files (codes "ab" ∷ codes "xyz" ∷ [])
        && list_beq (codes "ab" ∷ codes "xyz" ∷ []) (codes "ab" ∷ codes "xyy" ∷ []))
compare_dirs_lem_example =
    compare_dirs_lem 3 (omega arith) (codes "ab" ∷ codes "xyz" ∷ []) (codes "ab" ∷ codes "xyy" ∷ [])

differs :
    compare_dirs 3 (codes "ab" ∷ codes "xyz" ∷ []) (codes "ab" ∷ codes "xyy" ∷ []) ≡ some false
unfolding compare_dirs compare_files
differs = refl
