-- ===== src/Source/Print.antt =====
-- print and printKv of src/source/src/source.cpp, with print1 and save1(SourceKvMap &) of each class.
-- STRING_PRINT spells the name of its field with quotes, as it is made a literal twice.
use primitives.Prelude.{List, [], ◌∷◌, ◌++◌, Bytes, codes, if◌then◌else◌}
use primitives.Prelude.Int.{ℤ}
use primitives.Prelude.Decimal.{to_string}
use primitives.Source.{
  SourceType, Git, Hg, Bzr, Cvs, Svn, Source, from_nothing, from_git, from_hg, from_bzr,
  from_fossil, from_cvs, from_svn, from_file, from_files, get_type, type_string, has_text,
  has_number,
}

abbrev pub line : Bytes → Bytes → Bytes
line k v = k ++ (codes ": " ++ (v ++ codes "\n"))

abbrev pub print_url : Bytes → Bytes
print_url u = line (codes "\"url\"") u

abbrev pub print_git : Git → Bytes
print_git g =
    print_url g.url
    ++ (if has_text g.tag
        then line (codes "\"tag\"") g.tag
        else if has_text g.branch
        then line (codes "\"branch\"") g.branch
        else if has_text g.commit
        then line (codes "\"commit\"") g.commit
        else [])

abbrev pub print_revision : ℤ → Bytes
print_revision n = if has_number n then line (codes "\"revision\"") (to_string n) else []

abbrev pub print_hg : Hg → Bytes
print_hg h = print_git h.base ++ print_revision h.revision

abbrev pub print_bzr : Bzr → Bytes
print_bzr b =
    print_url b.url
    ++ (if has_text b.tag then line (codes "\"tag\"") b.tag else print_revision b.revision)

abbrev pub print_cvs : Cvs → Bytes
print_cvs c =
    print_url c.url
    ++ ((if has_text c.tag
          then line (codes "\"tag\"") c.tag
          else if has_text c.branch
          then line (codes "\"branch\"") c.branch
          else if has_text c.revision
          then line (codes "\"revision\"") c.revision
          else [])
        ++ (if has_text c.cvs_module then line (codes "\"module\"") c.cvs_module else []))

abbrev pub print_svn : Svn → Bytes
print_svn s =
    print_url s.url
    ++ (if has_text s.tag
        then line (codes "\"tag\"") s.tag
        else if has_text s.branch
        then line (codes "\"branch\"") s.branch
        else print_revision s.revision)

abbrev pub print_files : List Bytes → Bytes
print_files [] = []
print_files (u ∷ us) = line (codes "url") u ++ print_files us

abbrev pub print1 : Source → Bytes
print1 from_nothing = []
print1 (from_git g) = print_git g
print1 (from_hg h) = print_hg h
print1 (from_bzr b) = print_bzr b
print1 (from_fossil g) = print_git g
print1 (from_cvs c) = print_cvs c
print1 (from_svn s) = print_svn s
print1 (from_file u) = print_url u
print1 (from_files us) = print_files us

unfoldable pub print : Source → Bytes
print s = type_string (get_type s) ++ (codes ":\n" ++ print1 s)

-- getHash, with shorten_hash(blake2b_512(_), 12) an argument.
abbrev pub get_hash : (Bytes → Bytes) → Source → Bytes
get_hash hash s = hash (print s)

abbrev pub SourceKvMap : Type 0
SourceKvMap = List (Bytes × Bytes)

abbrev pub kv_text : Bytes → Bytes → SourceKvMap
kv_text k v = if has_text v then (k, v) ∷ [] else []

abbrev pub kv_number : Bytes → ℤ → SourceKvMap
kv_number k n = if has_number n then (k, to_string n) ∷ [] else []

abbrev pub kv_source : SourceType → SourceKvMap
kv_source t = kv_text (codes "Source") (type_string t)

abbrev pub kv_url : SourceType → Bytes → SourceKvMap
kv_url t u = kv_source t ++ kv_text (codes "Url") u

abbrev pub kv_git : SourceType → Git → SourceKvMap
kv_git t g =
    kv_url t g.url
    ++ (kv_text (codes "Tag") g.tag
        ++ (kv_text (codes "Branch") g.branch ++ kv_text (codes "Commit") g.commit))

abbrev pub kv_hg : Hg → SourceKvMap
kv_hg h = kv_git SourceType.mercurial h.base ++ kv_number (codes "Revision") h.revision

abbrev pub kv_bzr : Bzr → SourceKvMap
kv_bzr b =
    kv_url SourceType.bazaar b.url
    ++ (kv_text (codes "Tag") b.tag ++ kv_number (codes "Revision") b.revision)

abbrev pub kv_cvs : Cvs → SourceKvMap
kv_cvs c =
    kv_url SourceType.cvs c.url
    ++ (kv_text (codes "Tag") c.tag
        ++ (kv_text (codes "Branch") c.branch
            ++ (kv_text (codes "Revision") c.revision ++ kv_text (codes "Module") c.cvs_module)))

abbrev pub kv_svn : Svn → SourceKvMap
kv_svn s =
    kv_url SourceType.svn s.url
    ++ (kv_text (codes "Tag") s.tag
        ++ (kv_text (codes "Branch") s.branch ++ kv_number (codes "Revision") s.revision))

abbrev pub kv_urls : List Bytes → SourceKvMap
kv_urls [] = []
kv_urls (u ∷ us) = kv_text (codes "Url") u ++ kv_urls us

unfoldable pub print_kv : Source → SourceKvMap
print_kv from_nothing = kv_source SourceType.empty_source
print_kv (from_git g) = kv_git SourceType.git g
print_kv (from_hg h) = kv_hg h
print_kv (from_bzr b) = kv_bzr b
print_kv (from_fossil g) = kv_git SourceType.fossil g
print_kv (from_cvs c) = kv_cvs c
print_kv (from_svn s) = kv_svn s
print_kv (from_file u) = kv_url SourceType.remote_file u
print_kv (from_files us) = kv_source SourceType.remote_files ++ kv_urls us
