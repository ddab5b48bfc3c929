-- ===== src/Source/Checked.antt =====
-- Which calls download of src/source/src/source.cpp makes: commands for a source whose url was
-- checked, and downloads from valid urls.
use primitives.Prelude.{
  ◌≡◌, ◌≢◌, refl, inl, inr, true, List, [], ◌∷◌, Bytes, Bool-cases, All, codes, Outcome, ok, throw,
  undefined, empty_tag,
}
use primitives.Source.{
  Git, Source, from_nothing, from_git, from_hg, from_bzr, from_fossil, from_cvs, from_svn,
  from_file, from_files, has_text,
}
use primitives.Source.Url.{contains_text, is_valid_source_url, check_url}
use primitives.Source.Calls.{
  Call, create_directories, execute, unpack, remove, Host, Run, lift, ◌>>◌, run_commands,
  download_repository,
}
use primitives.Source.Download.{
  hg_commands, bzr_commands, fossil_commands, cvs_commands, svn_commands, archive,
  download_file_checked, download_and_unpack, download2, download_git, download_files, download1,
  download,
}
use primitives.Source.Keeps.{
  Keeps, lift-Keeps, >>-Keeps, catch-Keeps, finally-Keeps, download_repository-Keeps, call-Keeps,
  when_exists-Keeps, run_commands-Keeps,
}

abbrev pub Allowed : Source → Call → Type 0
Allowed s (create_directories dir) = Unit
Allowed s (execute dir args) = check_url s ≡ ok tt
Allowed s (Call.download url fn) = is_valid_source_url url ≡ true
Allowed s (unpack fn dir) = Unit
Allowed s (remove fn) = Unit

guarded :
    (P : Call → Type 0) (r : Outcome (Unit {0})) (m : Run (Unit {0}))
    → (r ≡ ok tt → Keeps P m)
    → All P ((lift r >> m) []).1 × (r ≢ ok tt → ((lift r >> m) []).1 ≡ [])
unfolding ◌>>◌
guarded P (ok tt) m n = ((n refl).kept [] tt, λ bad. absurd (bad refl))
guarded P (throw e) m n = (tt, λ _. refl)
guarded P undefined m n = (tt, λ _. refl)

module _ (h : Host) (s : Source) where
  download_file_checked-Keeps :
      (url fn : Bytes) → Keeps (Allowed s) (download_file_checked h url fn)
  unfolding download_file_checked ◌>>◌
  download_file_checked-Keeps url fn = record {
    kept = λ log k. elim (Bool-cases (is_valid_source_url url)) [
      | inl valid ↦ rw valid ((call-Keeps (Allowed s) h valid).kept log k)
      | inr bad ↦ rw bad k
    ];
  }

  download_and_unpack-Keeps :
      (url fn dir : Bytes) → Keeps (Allowed s) (download_and_unpack h url fn dir)
  unfolding download_and_unpack
  download_and_unpack-Keeps url fn dir =
      >>-Keeps (Allowed s) (download_file_checked-Keeps url _)
        (finally-Keeps (Allowed s) (call-Keeps (Allowed s) h tt) tt)

  download_files-Keeps :
      (us : List Bytes) (dir : Bytes) → Keeps (Allowed s) (download_files h us dir)
  download_files-Keeps [] dir = lift-Keeps (Allowed s) (ok tt)
  download_files-Keeps (u ∷ us) dir =
      >>-Keeps (Allowed s) (download_file_checked-Keeps u _) (download_files-Keeps us dir)

  module _ (v : check_url s ≡ ok tt) (dir : Bytes) where
    repository-Keeps :
        (cs : List (List Bytes)) → Keeps (Allowed s) (download_repository (run_commands h dir cs))
    repository-Keeps cs =
        download_repository-Keeps (Allowed s) (run_commands-Keeps (Allowed s) h dir cs (λ _. v))

    download2-Keeps : (g : Git) (tag : Bytes) → Keeps (Allowed s) (download2 h g dir tag)
    unfolding download2
    download2-Keeps g tag = elim (Bool-cases (contains_text (codes "github.com") g.url)) [
      | inl github ↦ rw github (
          catch-Keeps (Allowed s) (download_and_unpack-Keeps _ (archive g dir tag).1 dir)
            (λ e. >>-Keeps (Allowed s) (when_exists-Keeps (Allowed s) h _ tt) (repository-Keeps _)))
      | inr other ↦ rw other (repository-Keeps _)
    ]

    download_git-Keeps : (g : Git) → Keeps (Allowed s) (download_git h g dir)
    unfolding download_git
    download_git-Keeps g = catch-Keeps (Allowed s) (download2-Keeps g g.tag) (λ e.
        elim (Bool-cases g.try_v_tag_prefix) [
          | inl twice ↦ elim (Bool-cases (has_text g.tag)) [
            | inl tag ↦ rw (twice, tag) (download2-Keeps g (b'v' ∷ g.tag))
            | inr gone ↦ rw (twice, gone) (lift-Keeps (Allowed s) (throw empty_tag))
          ]
          | inr once ↦ rw once (lift-Keeps (Allowed s) (throw e))
        ])

    download1-Keeps : (t : Source) → Keeps (Allowed s) (download1 h t dir)
    unfolding download1
    download1-Keeps from_nothing = lift-Keeps (Allowed s) (ok tt)
    download1-Keeps (from_git g) = download_git-Keeps g
    download1-Keeps (from_hg x) = repository-Keeps (hg_commands x)
    download1-Keeps (from_bzr x) = repository-Keeps (bzr_commands x)
    download1-Keeps (from_fossil g) = repository-Keeps (fossil_commands g)
    download1-Keeps (from_cvs x) = repository-Keeps (cvs_commands x)
    download1-Keeps (from_svn x) = repository-Keeps (svn_commands x)
    download1-Keeps (from_file u) = download_and_unpack-Keeps u _ dir
    download1-Keeps (from_files us) = download_files-Keeps us dir

  -- Whatever the calls to the system do, download runs a command only for a source whose url passes
  -- its check, and downloads files only from valid urls; where the check fails it makes no call.
  pub download-Allowed :
      (dir : Bytes)
      → All (Allowed s) (download h s dir []).1
        × (check_url s ≢ ok tt → (download h s dir []).1 ≡ [])
  unfolding download
  download-Allowed dir =
      guarded (Allowed s) (check_url s) _
        (λ v. >>-Keeps (Allowed s) (call-Keeps (Allowed s) h tt) (download1-Keeps v dir s))
