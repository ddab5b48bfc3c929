-- ===== src/Source/Identity.antt =====
-- print of src/source/src/source.cpp, the text that getHash hashes, determines the source.
use primitives.Prelude.{
  ◌≡◌, all, not, ◌==◌, ◌≤◌, refl, ap, true, List, [], ◌∷◌, ◌++◌, Bytes, codes, length,
  length-append, All, Outcome, ok, ◌>>=◌, arith,
}
use primitives.Source.{
  SourceType, Git, Source, from_nothing, from_git, from_hg, from_bzr, from_fossil, from_cvs,
  from_svn, from_file, from_files, get_type, type_string, from_string, check_valid,
}
use primitives.Source.Print.{line, print, print1}
use primitives.Source.RoundTrip.{from_string-type_string}
use primitives.Prelude.Ord.{nat_ord}
use primitives.Source.Lines.{
  Without, cut, cut-append, tail_of, unlines, Clean, read_lines, read_lines-unlines,
}
use primitives.Source.Entries.{
  number_text, url_key, tag_key, branch_key, commit_key, revision_key, module_key, Clean-text_entry,
  Without-of_all, number_text-Without,
}
use primitives.Source.Written.{text_entries, fields_of, url_entries, entries, print1-unlines}
use primitives.Source.Recover.{IsPlain, IsClean, source_of, source_of-entries}

-- Every key has no colon, every value no newline.
Clean-fields : (fs : List (Bytes × Bytes)) → Clean fs → Clean (text_entries fs)
Clean-fields [] c = tt
Clean-fields ((k, v) ∷ fs) ((hk, hv), c) =
    Clean-text_entry k v (text_entries fs) hk hv (Clean-fields fs c)

plain_key : (k : Bytes) → all (λ d. not (d == b':')) k ≡ true → Without b':' k
plain_key = Without-of_all b':'

url-Without : Without b':' url_key
url-Without = plain_key url_key refl

tag-Without : Without b':' tag_key
tag-Without = plain_key tag_key refl

branch-Without : Without b':' branch_key
branch-Without = plain_key branch_key refl

revision-Without : Without b':' revision_key
revision-Without = plain_key revision_key refl

Clean-git :
    (g : Git) (rest : List (Bytes × Bytes))
    → IsPlain g
    → Clean rest
    → Clean ((tag_key, g.tag) ∷ (branch_key, g.branch) ∷ (commit_key, g.commit) ∷ rest)
Clean-git g rest c k =
    ((tag-Without, c.1), ((branch-Without, c.2), ((plain_key commit_key refl, c.3), k)))

Clean-urls : (us : List Bytes) → All (Without 10) us → Clean (url_entries us)
Clean-urls [] c = tt
Clean-urls (u ∷ us) (c, cs) = ((plain_key (codes "url") refl, c), Clean-urls us cs)

entries-Clean : (s : Source) → IsClean s → Clean (entries s)
entries-Clean from_nothing c = tt
entries-Clean (from_git g) c =
    ((url-Without, c.0), Clean-fields (fields_of (from_git g)) (Clean-git g [] c tt))
entries-Clean (from_hg h) c = (
  (url-Without, c.0),
  Clean-fields (fields_of (from_hg h)) (
      Clean-git h.base ((revision_key, number_text h.revision) ∷ []) c
        ((revision-Without, number_text-Without h.revision), tt)),
)
entries-Clean (from_bzr b) c = (
  (url-Without, c.0),
  Clean-fields (fields_of (from_bzr b))
      ((tag-Without, c.1), ((revision-Without, number_text-Without b.revision), tt)),
)
entries-Clean (from_fossil g) c =
    ((url-Without, c.0), Clean-fields (fields_of (from_git g)) (Clean-git g [] c tt))
entries-Clean (from_cvs x) c = (
  (url-Without, c.0),
  Clean-fields (fields_of (from_cvs x)) (
    (tag-Without, c.1),
    ((branch-Without, c.2), ((revision-Without, c.3), ((plain_key module_key refl, c.4), tt))),
  ),
)
entries-Clean (from_svn s) c = (
  (url-Without, c.0),
  Clean-fields (fields_of (from_svn s)) (
    (tag-Without, c.1),
    ((branch-Without, c.2), ((revision-Without, number_text-Without s.revision), tt)),
  ),
)
entries-Clean (from_file u) c = ((url-Without, c), tt)
entries-Clean (from_files us) c = Clean-urls us c

length-le-unlines : (es : List (Bytes × Bytes)) → length es ≤ length (unlines es)
length-le-unlines [] = omega arith
length-le-unlines ((k, v) ∷ es) = omega (
  arith,
  length-le-unlines es,
  length-append (line k v) (unlines es),
  length-append k (codes ": " ++ (v ++ codes "\n")),
)

type_string-Without : (t : SourceType) → Without b':' (type_string t)
type_string-Without SourceType.empty_source = plain_key (codes "empty") refl
type_string-Without SourceType.git = plain_key (codes "git") refl
type_string-Without SourceType.mercurial = plain_key (codes "hg") refl
type_string-Without SourceType.bazaar = plain_key (codes "bzr") refl
type_string-Without SourceType.fossil = plain_key (codes "fossil") refl
type_string-Without SourceType.cvs = plain_key (codes "cvs") refl
type_string-Without SourceType.svn = plain_key (codes "svn") refl
type_string-Without SourceType.remote_file = plain_key (codes "remote") refl
type_string-Without SourceType.remote_files = plain_key (codes "files") refl

-- The source that a text is the print of.
source_from : Bytes → Bytes → Outcome Source
source_from t body =
    from_string t >>= λ ty. ok (source_of ty (read_lines (length body) (tail_of body)))

printed_source : Bytes → Outcome Source
printed_source text = let (t, body) = cut b':' text in source_from t body

source_from-print :
    (s : Source)
    → check_valid s ≡ ok tt
    → IsClean s
    → source_from (type_string (get_type s)) (10 ∷ print1 s) ≡ ok s
unfolding source_from
source_from-print s v c =
    rw
      (
        from_string-type_string (get_type s),
        print1-unlines s v,
        read_lines-unlines (length (10 ∷ unlines (entries s))) (entries s) (entries-Clean s c)
            (omega (arith, length-le-unlines (entries s))),
      )
      (ap ok (source_of-entries s c))

printed_source-print :
    (s : Source) → check_valid s ≡ ok tt → IsClean s → printed_source (print s) ≡ ok s
unfolding printed_source print
printed_source-print s v c =
    rw
      (cut-append b':' (type_string (get_type s)) (10 ∷ print1 s)
        (type_string-Without (get_type s)))
      (source_from-print s v c)

-- print tells sources apart: two sources that the constructors accept, whose texts have no newlines,
-- and that do not try the prefix of tags, are the same if they print the same.
pub print_injective :
    (s t : Source)
    → check_valid s ≡ ok tt
    → check_valid t ≡ ok tt
    → IsClean s
    → IsClean t
    → print s ≡ print t
    → s ≡ t
print_injective s t v w c d e =
    let p = printed_source-print s v c in
    let q = printed_source-print t w d in let r = ap printed_source e in cc
