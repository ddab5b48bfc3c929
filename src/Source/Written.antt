-- ===== src/Source/Written.antt =====
-- The lines that print1 of src/source/src/source.cpp writes, for what the constructors accept.
use primitives.Prelude.{
  ℕ, zero, suc, ◌≡◌, ◌≤◌, throw, empty_module, refl, sym, ap, ◌∙◌, Bool, true, false, List, [], ◌∷◌,
  ◌++◌, append_assoc, append-nil, Bytes, codes, if◌then◌else◌, map, Outcome, ok, arith,
}
use primitives.Prelude.Int.{ℤ, pos, negsuc}
use primitives.Source.{
  Git, Hg, Bzr, Cvs, Svn, Source, from_nothing, from_git, from_hg, from_bzr, from_fossil, from_cvs,
  from_svn, from_file, from_files, has_text, has_number, count_true, check_count, check_valid,
  check_git, check_hg, check_bzr, check_cvs, check_svn,
}
use primitives.Source.Print.{
  line, print1, print_url, print_git, print_hg, print_bzr, print_cvs, print_svn, print_files,
  print_revision,
}
use primitives.Source.Lines.{unlines}
use primitives.Source.Entries.{
  text_entry, number_text, url_key, tag_key, branch_key, commit_key, revision_key, module_key,
  unlines-text_entry, has_text-number_text,
}

abbrev pub text_entries : List (Bytes × Bytes) → List (Bytes × Bytes)
text_entries [] = []
text_entries ((k, v) ∷ fs) = text_entry k v ++ text_entries fs

-- The fields of a source behind its url.
abbrev pub fields_of : Source → List (Bytes × Bytes)
fields_of from_nothing = []
fields_of (from_git g) = (tag_key, g.tag) ∷ (branch_key, g.branch) ∷ (commit_key, g.commit) ∷ []
fields_of (from_hg h) =
    (tag_key, h.base.tag)
    ∷ (branch_key, h.base.branch)
    ∷ (commit_key, h.base.commit)
    ∷ (revision_key, number_text h.revision)
    ∷ []
fields_of (from_bzr b) = (tag_key, b.tag) ∷ (revision_key, number_text b.revision) ∷ []
fields_of (from_fossil g) = (tag_key, g.tag) ∷ (branch_key, g.branch) ∷ (commit_key, g.commit) ∷ []
fields_of (from_cvs c) =
    (tag_key, c.tag)
    ∷ (branch_key, c.branch)
    ∷ (revision_key, c.revision)
    ∷ (module_key, c.cvs_module)
    ∷ []
fields_of (from_svn s) =
    (tag_key, s.tag) ∷ (branch_key, s.branch) ∷ (revision_key, number_text s.revision) ∷ []
fields_of (from_file u) = []
fields_of (from_files us) = []

abbrev pub url_entries : List Bytes → List (Bytes × Bytes)
url_entries = map (λ u. (codes "url", u))

abbrev pub entries : Source → List (Bytes × Bytes)
entries from_nothing = []
entries (from_git g) = (url_key, g.url) ∷ text_entries (fields_of (from_git g))
entries (from_hg h) = (url_key, h.base.url) ∷ text_entries (fields_of (from_hg h))
entries (from_bzr b) = (url_key, b.url) ∷ text_entries (fields_of (from_bzr b))
entries (from_fossil g) = (url_key, g.url) ∷ text_entries (fields_of (from_fossil g))
entries (from_cvs c) = (url_key, c.url) ∷ text_entries (fields_of (from_cvs c))
entries (from_svn s) = (url_key, s.url) ∷ text_entries (fields_of (from_svn s))
entries (from_file u) = (url_key, u) ∷ []
entries (from_files us) = url_entries us

-- The lines of the fields that have something.
abbrev some_line : Bytes → Bytes → Bytes
some_line k v = if has_text v then line k v else []

abbrev some_lines : List (Bytes × Bytes) → Bytes
some_lines [] = []
some_lines ((k, v) ∷ fs) = some_line k v ++ some_lines fs

unlines-text_entries : (fs : List (Bytes × Bytes)) → unlines (text_entries fs) ≡ some_lines fs
unlines-text_entries [] = refl
unlines-text_entries ((k, v) ∷ fs) =
    unlines-text_entry k v (text_entries fs)
    ∙ ap (λ r. some_line k v ++ r) (unlines-text_entries fs)

check_count-one : (n : ℕ) → check_count n ≡ ok tt → n ≡ 1
check_count-one zero h = cc
check_count-one (suc zero) h = refl
check_count-one (suc (suc n)) h = cc

-- Of what has one at most, the first is all.
first_of :
    (a b c : Bool) (A B C rest : Bytes)
    → count_true (a ∷ b ∷ c ∷ []) ≤ 1
    → (if a then A else if b then B else if c then C else []) ++ rest
      ≡ (if a then A else []) ++ ((if b then B else []) ++ ((if c then C else []) ++ rest))
first_of true true c A B C rest h = absurd (ground arith)
first_of true false true A B C rest h = absurd (omega arith)
first_of true false false A B C rest h = refl
first_of false true true A B C rest h = absurd (omega arith)
first_of false true false A B C rest h = refl
first_of false false true A B C rest h = refl
first_of false false false A B C rest h = refl

revision_line : (n : ℤ) → print_revision n ≡ some_line revision_key (number_text n)
revision_line (pos n) = rw (has_text-number_text (pos n)) refl
revision_line (negsuc zero) = refl
revision_line (negsuc (suc n)) = rw (has_text-number_text (negsuc (suc n))) refl

print_files-unlines : (us : List Bytes) → print_files us ≡ unlines (url_entries us)
print_files-unlines [] = refl
print_files-unlines (u ∷ us) = ap (λ r. line (codes "url") u ++ r) (print_files-unlines us)

git-unlines : (g : Git) → check_git g ≡ ok tt → print_git g ≡ unlines (entries (from_git g))
git-unlines g h =
    let one = check_count-one _ h in
    ap (λ r. print_url g.url ++ r)
      (sym (append-nil _)
        ∙ first_of (has_text g.tag) (has_text g.branch) (has_text g.commit) _ _ _ [] (omega arith)
        ∙ sym (unlines-text_entries (fields_of (from_git g))))

hg-unlines : (x : Hg) → check_hg x ≡ ok tt → print_hg x ≡ unlines (entries (from_hg x))
hg-unlines x h =
    let one = check_count-one _ h in
    let few : count_true
          (has_text x.base.tag ∷ has_text x.base.branch ∷ has_text x.base.commit ∷ [])
        ≤ 1 =
      ground arith in
    append_assoc (print_url x.base.url) _ (print_revision x.revision)
    ∙ ap (λ r. print_url x.base.url ++ r)
        (first_of (has_text x.base.tag) (has_text x.base.branch) (has_text x.base.commit) _ _ _
            (print_revision x.revision) few
          ∙ ap
              (λ r.
                some_line tag_key x.base.tag
                ++ (some_line branch_key x.base.branch
                    ++ (some_line commit_key x.base.commit ++ r)))
              (revision_line x.revision ∙ sym (append-nil _))
          ∙ sym (unlines-text_entries (fields_of (from_hg x))))

bzr-unlines : (b : Bzr) → check_bzr b ≡ ok tt → print_bzr b ≡ unlines (entries (from_bzr b))
bzr-unlines b h =
    let one = check_count-one _ h in
    ap (λ r. print_url b.url ++ r)
      (sym (append-nil _)
        ∙ first_of (has_text b.tag) (has_number b.revision) false _ _ [] [] (ground arith)
        ∙ ap (λ r. some_line tag_key b.tag ++ (r ++ [])) (revision_line b.revision)
        ∙ sym (unlines-text_entries (fields_of (from_bzr b))))

if_ok :
    (b : Bool) (o : Outcome (Unit {0})) → (if b then o else throw empty_module) ≡ ok tt → o ≡ ok tt
if_ok true o h = h
if_ok false o h = cc

cvs-unlines : (c : Cvs) → check_cvs c ≡ ok tt → print_cvs c ≡ unlines (entries (from_cvs c))
cvs-unlines c h =
    let one = check_count-one _ (if_ok (has_text c.cvs_module) _ h) in
    ap (λ r. print_url c.url ++ r)
      (first_of (has_text c.tag) (has_text c.branch) (has_text c.revision) _ _ _
          (some_line module_key c.cvs_module) (omega arith)
        ∙ ap
            (λ r.
              some_line tag_key c.tag
              ++ (some_line branch_key c.branch ++ (some_line revision_key c.revision ++ r)))
            (sym (append-nil (some_line module_key c.cvs_module)))
        ∙ sym (unlines-text_entries (fields_of (from_cvs c))))

svn-unlines : (s : Svn) → check_svn s ≡ ok tt → print_svn s ≡ unlines (entries (from_svn s))
svn-unlines s h =
    let one = check_count-one _ h in
    ap (λ r. print_url s.url ++ r)
      (sym (append-nil _)
        ∙ first_of (has_text s.tag) (has_text s.branch) (has_number s.revision) _ _ _ []
            (omega arith)
        ∙ ap (λ r. some_line tag_key s.tag ++ (some_line branch_key s.branch ++ (r ++ [])))
            (revision_line s.revision)
        ∙ sym (unlines-text_entries (fields_of (from_svn s))))

pub print1-unlines : (s : Source) → check_valid s ≡ ok tt → print1 s ≡ unlines (entries s)
unfolding check_valid
print1-unlines from_nothing h = refl
print1-unlines (from_git g) h = git-unlines g h
print1-unlines (from_hg x) h = hg-unlines x h
print1-unlines (from_bzr b) h = bzr-unlines b h
print1-unlines (from_fossil g) h = git-unlines g h
print1-unlines (from_cvs c) h = cvs-unlines c h
print1-unlines (from_svn s) h = svn-unlines s h
print1-unlines (from_file u) h = sym (append-nil (print_url u))
print1-unlines (from_files us) h = print_files-unlines us
