-- ===== src/Source/RoundTrip.antt =====
-- What load of src/source/src/source.cpp gives for what save wrote into an empty json document.
use primitives.Prelude.{◌≡◌, ◌≢◌, refl, ap, inl, true, false, [], codes, ok, undefined}
use primitives.Prelude.Ord.{nat_ord, list_ord}
use primitives.Source.{
  SourceType, Hg, Source, from_nothing, from_git, from_hg, from_bzr, from_fossil, from_cvs,
  from_svn, from_file, from_files, get_type, type_string, from_string, has_number, check_valid,
}
use primitives.Source.Document.{
  Document, IsLawful, save_hg, save1, value_or_null, save, load1, load,
}
use primitives.Source.Loads.{
  IsSorted, described_url, load_git-save, load_hg-save, load_bzr-save, load_cvs-save, load_svn-save,
  load_files-save, load_hg_undefined,
}

-- What load can give back: the flag of tryVTagPrefixDuringDownload is not saved, Hg needs a
-- revision, and RemoteFiles a url.
abbrev pub IsSaved : Source → Type 0
IsSaved from_nothing = Unit
IsSaved (from_git g) = g.try_v_tag_prefix ≡ false
IsSaved (from_hg h) = (h.base.try_v_tag_prefix ≡ false) × (has_number h.revision ≡ true)
IsSaved (from_bzr b) = Unit
IsSaved (from_fossil g) = g.try_v_tag_prefix ≡ false
IsSaved (from_cvs c) = Unit
IsSaved (from_svn s) = Unit
IsSaved (from_file u) = Unit
IsSaved (from_files us) = (us ≢ []) × IsSorted us

pub from_string-type_string : (t : SourceType) → from_string (type_string t) ≡ ok t
unfolding from_string
from_string-type_string SourceType.empty_source = refl
from_string-type_string SourceType.git = refl
from_string-type_string SourceType.mercurial = refl
from_string-type_string SourceType.bazaar = refl
from_string-type_string SourceType.fossil = refl
from_string-type_string SourceType.cvs = refl
from_string-type_string SourceType.svn = refl
from_string-type_string SourceType.remote_file = refl
from_string-type_string SourceType.remote_files = refl

module _ (D : Document) (L : IsLawful D) where
  load1-save1 :
      (s : Source)
      → check_valid s ≡ ok tt
      → IsSaved s
      → load1 D (get_type s) (save1 D s D.null) ≡ ok s
  unfolding check_valid
  load1-save1 from_nothing v h = refl
  load1-save1 (from_git g) v p = rw (load_git-save D L g p v) refl
  load1-save1 (from_hg g) v (p, n) = rw (load_hg-save D L g p n v) refl
  load1-save1 (from_bzr b) v h = rw (load_bzr-save D L b v) refl
  load1-save1 (from_fossil g) v p = rw (load_git-save D L g p v) refl
  load1-save1 (from_cvs c) v h = rw (load_cvs-save D L c v) refl
  load1-save1 (from_svn s) v h = rw (load_svn-save D L s v) refl
  load1-save1 (from_file u) v h = rw ((described_url D L u).text (codes "url")) refl
  load1-save1 (from_files us) v (n, o) = rw (load_files-save D L us n o) refl

  save-null :
      (s : Source) → save D s D.null ≡ D.set (type_string (get_type s)) (save1 D s D.null) D.null
  unfolding save
  save-null s =
      ap (λ o. D.set (type_string (get_type s)) (save1 D s (value_or_null D o)) D.null)
        (L.find-null (type_string (get_type s)))

  -- A source whose fields its constructors accept is loaded from the json document that save writes,
  -- field for field, if it does not try the prefix of tags, and with a revision if it is of Hg, a
  -- url at least if it is of RemoteFiles.
  pub load-save : (s : Source) → check_valid s ≡ ok tt → IsSaved s → load D (save D s D.null) ≡ ok s
  unfolding load
  load-save s v h =
      rw
        (
          save-null s,
          load,
          L.members-set (type_string (get_type s)) (save1 D s D.null),
          L.is_object-set (type_string (get_type s)) (save1 D s D.null) D.null (inl refl),
          from_string-type_string (get_type s),
        )
        (load1-save1 s v h)

  -- An Hg that has a tag, a branch or a commit, and so no revision, cannot be loaded from the document
  -- that save writes: the check of the constructor reads a revision that was never set.
  pub load-save_hg :
      (h : Hg) → has_number h.revision ≡ false → load D (save D (from_hg h) D.null) ≡ undefined
  unfolding load
  load-save_hg h n =
      rw
        (
          save-null (from_hg h),
          load,
          L.members-set (codes "hg") (save_hg D h D.null),
          L.is_object-set (codes "hg") (save_hg D h D.null) D.null (inl refl),
        )
        (rw (load_hg_undefined D L h n) refl)
