-- ===== src/Source/Valid.antt =====
-- apply of src/source/src/source.cpp and the checks of the constructors.
use primitives.Prelude.{◌≡◌, refl, Bytes}
use primitives.Source.{
  Git, Source, from_nothing, from_git, from_hg, from_bzr, from_fossil, from_cvs, from_svn,
  from_file, from_files, has_text, check_git, check_valid, apply_git, apply,
}

module _ (f : Bytes → Bytes) (same : (s : Bytes) → has_text (f s) ≡ has_text s) where
  check_git-apply_git : (g : Git) → check_git (apply_git f g) ≡ check_git g
  check_git-apply_git g = rw (same g.tag, same g.branch) refl

  -- A formatter that leaves empty texts empty, and no others, keeps the sources that the constructors
  -- accept, and accepts no more: the check gives what it gave before, the exception included.
  pub check_valid-apply : (s : Source) → check_valid (apply f s) ≡ check_valid s
  unfolding check_valid apply
  check_valid-apply from_nothing = refl
  check_valid-apply (from_git g) = check_git-apply_git g
  check_valid-apply (from_hg h) = rw (same h.base.tag, same h.base.branch) refl
  check_valid-apply (from_bzr b) = rw (same b.tag) refl
  check_valid-apply (from_fossil g) = check_git-apply_git g
  check_valid-apply (from_cvs c) = rw (same c.tag, same c.branch, same c.revision) refl
  check_valid-apply (from_svn s) = rw (same s.tag, same s.branch) refl
  check_valid-apply (from_file u) = refl
  check_valid-apply (from_files us) = refl
