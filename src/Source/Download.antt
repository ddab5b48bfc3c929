-- ===== src/Source/Download.antt =====
-- download of src/source/src/source.cpp. What it asks of the system are calls, the newest first; a
-- host says which of them throw and which files are there, after the calls so far. A path is text
-- as on POSIX systems.
use Prim.Native.String.{String}
use primitives.Prelude.{
  Bool, false, List, [], ◌∷◌, ◌++◌, map, Bytes, codes, ◌==◌, if◌then◌else◌, ok, throw, empty_tag,
}
use primitives.Prelude.Ord.{list_beq, nat_ord}
use primitives.Prelude.Decimal.{to_string}
use primitives.Source.{
  Git, Hg, Bzr, Cvs, Svn, Source, from_nothing, from_git, from_hg, from_bzr, from_fossil, from_cvs,
  from_svn, from_file, from_files, has_text, has_number,
}
use primitives.Source.Calls.{
  Call, create_directories, unpack, remove, Host, Run, lift, ◌>>◌, catch, finally,
  download_repository, call, when_exists, run_commands,
}
use primitives.Source.Url.{contains_text, check_source_url, check_url}

-- operator/ and filename of paths
abbrev pub is_absolute : Bytes → Bool
is_absolute [] = false
is_absolute (c ∷ s) = c == b'/'

abbrev pub with_slash : Bytes → Bytes
with_slash [] = []
with_slash (c ∷ []) = if c == b'/' then c ∷ [] else c ∷ b'/' ∷ []
with_slash (c ∷ (d ∷ s)) = c ∷ with_slash (d ∷ s)

abbrev pub join : Bytes → Bytes → Bytes
join dir fn = if is_absolute fn then fn else with_slash dir ++ fn

abbrev pub filename_from : Bytes → Bytes → Bytes
filename_from part [] = part
filename_from part (c ∷ s) = filename_from (if c == b'/' then [] else part ++ c ∷ []) s

abbrev pub filename : Bytes → Bytes
filename s = filename_from [] s

-- The commands of each class, in their order.
abbrev pub git_checkout : Bytes → Bytes → Bytes → List (List Bytes)
git_checkout tag branch commit =
    if has_text tag
    then (map codes ("git" ∷ "fetch" ∷ "--depth" ∷ "1" ∷ "origin" ∷ [])
        ++ (codes "refs/tags/" ++ tag) ∷ [])
      ∷ map codes ("git" ∷ "reset" ∷ "--hard" ∷ "FETCH_HEAD" ∷ [])
      ∷ []
    else if has_text branch
    then (map codes ("git" ∷ "fetch" ∷ "--depth" ∷ "1" ∷ "origin" ∷ []) ++ branch ∷ [])
      ∷ map codes ("git" ∷ "reset" ∷ "--hard" ∷ "FETCH_HEAD" ∷ [])
      ∷ []
    else if has_text commit
    then map codes ("git" ∷ "fetch" ∷ [])
      ∷ (map codes ("git" ∷ "checkout" ∷ []) ++ commit ∷ [])
      ∷ []
    else []

abbrev pub git_commands : Bytes → Bytes → Bytes → Bytes → List (List Bytes)
git_commands url tag branch commit =
    map codes ("git" ∷ "init" ∷ [])
    ∷ (map codes ("git" ∷ "remote" ∷ "add" ∷ "origin" ∷ []) ++ url ∷ [])
    ∷ git_checkout tag branch commit

-- A command of words and a value, where there is one.
abbrev pub update_to : Bool → List String → Bytes → List (List Bytes) → List (List Bytes)
update_to b words v others = if b then (map codes words ++ v ∷ []) ∷ [] else others

abbrev pub hg_commands : Hg → List (List Bytes)
hg_commands h =
    let update : List String = "hg" ∷ "update" ∷ [] in
    (map codes ("hg" ∷ "clone" ∷ []) ++ h.base.url ∷ [])
    ∷ (update_to (has_text h.base.tag) update h.base.tag (
        update_to (has_text h.base.branch) update h.base.branch (
          update_to (has_text h.base.commit) update h.base.commit
            (update_to (has_number h.revision) update (to_string h.revision) []))))

abbrev pub bzr_commands : Bzr → List (List Bytes)
bzr_commands b =
    let update : List String = "bzr" ∷ "update" ∷ "-r" ∷ [] in
    (map codes ("bzr" ∷ "branch" ∷ []) ++ b.url ∷ [])
    ∷ (update_to (has_text b.tag) update (codes "tag:" ++ b.tag)
        (update_to (has_number b.revision) update (to_string b.revision) []))

abbrev pub fossil_commands : Git → List (List Bytes)
fossil_commands g =
    let update : List String = "fossil" ∷ "update" ∷ [] in
    (map codes ("fossil" ∷ "clone" ∷ []) ++ g.url ∷ codes "temp.fossil" ∷ [])
    ∷ (map codes ("fossil" ∷ "open" ∷ "temp.fossil" ∷ [])
        ∷ (update_to (has_text g.tag) update g.tag (
            update_to (has_text g.branch) update g.branch
              (update_to (has_text g.commit) update g.commit []))))

abbrev pub cvs_commands : Cvs → List (List Bytes)
cvs_commands c =
    let update : List String = "cvs" ∷ "update" ∷ "-r" ∷ [] in
    (codes "cvs" ∷ c.url ∷ codes "co" ∷ c.cvs_module ∷ [])
    ∷ (update_to (has_text c.tag) update c.tag (
        update_to (has_text c.branch) update c.branch
          (update_to (has_text c.revision) update c.revision [])))

abbrev pub svn_commands : Svn → List (List Bytes)
svn_commands s =
    let checkout : List String = "svn" ∷ "checkout" ∷ [] in
    update_to (has_text s.tag) checkout (s.url ++ (codes "/tags/" ++ s.tag)) (
      update_to (has_text s.branch) checkout (s.url ++ (codes "/branches/" ++ s.branch)) (
        if has_number s.revision
        then (map codes ("svn" ∷ "checkout" ∷ "-r" ∷ []) ++ to_string s.revision ∷ s.url ∷ []) ∷ []
        else (map codes checkout ++ (s.url ++ codes "/trunk") ∷ []) ∷ []))

-- A github url without .git at its end.
abbrev pub strip_git : Bytes → Bytes
strip_git [] = []
strip_git (c ∷ s) = if list_beq (c ∷ s) (codes ".git") then [] else c ∷ strip_git s

-- The url of the archive, and the name of its file.
abbrev pub archive : Git → Bytes → Bytes → Bytes × Bytes
archive g dir tag =
    let base = strip_git g.url ++ codes "/archive/" in
    if has_text tag
    then (base ++ (tag ++ codes ".tar.gz"), join dir (codes "1.tar.gz"))
    else if has_text g.branch
    then (base ++ (g.branch ++ codes ".zip"), join dir (codes "1.zip"))
    else if has_text g.commit
    then (base ++ (g.commit ++ codes ".zip"), join dir (codes "1.zip"))
    else (base, [])

module _ (h : Host) where
  unfoldable pub download_file_checked : Bytes → Bytes → Run (Unit {0})
  download_file_checked url fn = lift (check_source_url url) >> call h (Call.download url fn)

  unfoldable pub download_and_unpack : Bytes → Bytes → Bytes → Run (Unit {0})
  unfolding download_file_checked
  download_and_unpack url fn dir =
      let file = if is_absolute fn then fn else join dir fn in
      download_file_checked url file >> finally (call h (unpack file dir)) (remove file)

  -- catch (...) and catch (std::exception &)
  unfoldable pub download2 : Git → Bytes → Bytes → Run (Unit {0})
  unfolding download_and_unpack
  download2 g dir tag =
      let repository =
        download_repository (run_commands h dir (git_commands g.url tag g.branch g.commit)) in
      let (url, fn) = archive g dir tag in
      if contains_text (codes "github.com") g.url
      then catch (download_and_unpack url fn dir) (λ e. when_exists h fn (remove fn) >> repository)
      else repository

  unfoldable pub download_git : Git → Bytes → Run (Unit {0})
  unfolding download2
  download_git g dir = catch (download2 g dir g.tag) (λ e.
      if g.try_v_tag_prefix
      then (if has_text g.tag then download2 g dir (b'v' ∷ g.tag) else lift (throw empty_tag))
      else lift (throw e))

  abbrev pub download_files : List Bytes → Bytes → Run (Unit {0})
  download_files [] dir = lift (ok tt)
  download_files (u ∷ us) dir =
      download_file_checked u (join dir (filename u)) >> download_files us dir

  -- download1 of each class
  unfoldable pub download1 : Source → Bytes → Run (Unit {0})
  download1 from_nothing dir = lift (ok tt)
  download1 (from_git g) dir = download_git g dir
  download1 (from_hg s) dir = download_repository (run_commands h dir (hg_commands s))
  download1 (from_bzr s) dir = download_repository (run_commands h dir (bzr_commands s))
  download1 (from_fossil g) dir = download_repository (run_commands h dir (fossil_commands g))
  download1 (from_cvs s) dir = download_repository (run_commands h dir (cvs_commands s))
  download1 (from_svn s) dir = download_repository (run_commands h dir (svn_commands s))
  download1 (from_file u) dir = download_and_unpack u (join dir (filename u)) dir
  download1 (from_files us) dir = download_files us dir

  unfoldable pub download : Source → Bytes → Run (Unit {0})
  unfolding download1
  download s dir = lift (check_url s) >> (call h (create_directories dir) >> download1 s dir)
