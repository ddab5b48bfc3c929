-- ===== src/Source/Document.antt =====
-- save to nlohmann::json, and load from it or a YAML::Node, of src/source/src/source.cpp. The
-- operations of these documents are parameters; what they promise is IsLawful.
use primitives.Prelude.{
  ◌≡◌, ◌⊎◌, Bool, true, false, List, [], ◌∷◌, ◌++◌, Option, none, some, Bytes, codes, if◌then◌else◌,
  Outcome, ok, throw, undefined, bad_document, ◌>>=◌, ◌>>◌,
}
use primitives.Prelude.Int.{ℤ, negsuc}
use primitives.Prelude.Ord.{list_beq, nat_ord}
use primitives.Source.{
  SourceType, Git, Hg, Bzr, Cvs, Svn, Source, from_nothing, from_git, from_hg, from_bzr,
  from_fossil, from_cvs, from_svn, from_file, from_files, get_type, type_string, from_string,
  has_text, has_number, check_git, check_hg, check_bzr, check_cvs, check_svn, url_set,
}

pub record Document : Type 1 where
  pub Value : Type 0
  pub null : Value
  pub of_string : Bytes → Value
  pub of_int : ℤ → Value
  -- node[k] or find(k), and node[k] = v
  pub find : Bytes → Value → Option Value
  pub set : Bytes → Value → Value → Value
  pub push_back : Value → Value → Value
  pub get_string : Value → Outcome Bytes
  pub get_int : Value → Outcome ℤ
  pub get_strings : Value → Outcome (List Bytes)
  pub is_object : Value → Bool
  pub members : Value → List (Bytes × Value)

-- A value that takes members.
abbrev pub IsMap : (D : Document) → D.Value → Type 0
IsMap D j = (j ≡ D.null) ⊎ (D.is_object j ≡ true)

pub record IsLawful (D : Document) : Type 0 where
  pub find-null : (k : Bytes) → D.find k D.null ≡ none
  pub find-set :
      (k m : Bytes) (v j : D.Value)
      → IsMap D j
      → D.find k (D.set m v j) ≡ (if list_beq k m then some v else D.find k j)
  pub is_object-set : (k : Bytes) (v j : D.Value) → IsMap D j → D.is_object (D.set k v j) ≡ true
  pub members-set : (k : Bytes) (v : D.Value) → D.members (D.set k v D.null) ≡ (k, v) ∷ []
  pub get_string-of_string : (s : Bytes) → D.get_string (D.of_string s) ≡ ok s
  pub get_int-of_int : (n : ℤ) → D.get_int (D.of_int n) ≡ ok n
  pub get_strings-one :
      (s : Bytes) → D.get_strings (D.push_back (D.of_string s) D.null) ≡ ok (s ∷ [])
  pub get_strings-push_back :
      (s : Bytes) (ss : List Bytes) (j : D.Value)
      → D.get_strings j ≡ ok ss
      → D.get_strings (D.push_back (D.of_string s) j) ≡ ok (ss ++ s ∷ [])

module _ (D : Document) where
  -- JSON_ADD, JSON_ADD_NOT_EMPTY and JSON_ADD_NOT_MINUS_ONE
  unfoldable pub add : Bytes → Bytes → D.Value → D.Value
  add k s j = D.set k (D.of_string s) j

  unfoldable pub add_not_empty : Bytes → Bytes → D.Value → D.Value
  unfolding add
  add_not_empty k s j = if has_text s then add k s j else j

  unfoldable pub add_not_minus_one : Bytes → ℤ → D.Value → D.Value
  add_not_minus_one k n j = if has_number n then D.set k (D.of_int n) j else j

  -- JSON_GET_STRING and JSON_GET_INT, and YAML_EXTRACT_AUTO as them: what is missing keeps `old`.
  unfoldable pub get_string : Bytes → D.Value → Outcome Bytes → Outcome Bytes
  get_string k j old = elim (D.find k j) [ none ↦ old | some v ↦ D.get_string v ]

  unfoldable pub get_int : Bytes → D.Value → Outcome ℤ → Outcome ℤ
  get_int k j old = elim (D.find k j) [ none ↦ old | some v ↦ D.get_int v ]

  -- save1 of each class into an object of nlohmann::json.
  abbrev pub save_url : Bytes → D.Value → D.Value
  save_url u j = add (codes "url") u j

  abbrev pub save_git : Git → D.Value → D.Value
  save_git g j = add_not_empty (codes "commit") g.commit (
      add_not_empty (codes "branch") g.branch
        (add_not_empty (codes "tag") g.tag (save_url g.url j)))

  abbrev pub save_hg : Hg → D.Value → D.Value
  save_hg h j = add_not_minus_one (codes "revision") h.revision (save_git h.base j)

  abbrev pub save_bzr : Bzr → D.Value → D.Value
  save_bzr b j =
      add_not_minus_one (codes "revision") b.revision
        (add_not_empty (codes "tag") b.tag (save_url b.url j))

  abbrev pub save_cvs : Cvs → D.Value → D.Value
  save_cvs c j = add_not_empty (codes "module") c.cvs_module (
      add_not_empty (codes "revision") c.revision (
        add_not_empty (codes "branch") c.branch
          (add_not_empty (codes "tag") c.tag (save_url c.url j))))

  abbrev pub save_svn : Svn → D.Value → D.Value
  save_svn s j = add_not_minus_one (codes "revision") s.revision (
      add_not_empty (codes "branch") s.branch
        (add_not_empty (codes "tag") s.tag (save_url s.url j)))

  abbrev pub value_or_null : Option D.Value → D.Value
  value_or_null none = D.null
  value_or_null (some v) = v

  -- j[k], to write to
  abbrev pub get_or_null : Bytes → D.Value → D.Value
  get_or_null k j = value_or_null (D.find k j)

  abbrev pub push_urls : List Bytes → D.Value → D.Value
  push_urls [] v = v
  push_urls (u ∷ us) v = push_urls us (D.push_back (D.of_string u) v)

  -- j["url"].push_back(rf) for each url; with none j is left alone.
  abbrev pub save_files : List Bytes → D.Value → D.Value
  save_files [] j = j
  save_files (u ∷ us) j = D.set (codes "url") (push_urls (u ∷ us) (get_or_null (codes "url") j)) j

  abbrev pub save1 : Source → D.Value → D.Value
  save1 from_nothing j = j
  save1 (from_git g) j = save_git g j
  save1 (from_hg h) j = save_hg h j
  save1 (from_bzr b) j = save_bzr b j
  save1 (from_fossil g) j = save_git g j
  save1 (from_cvs c) j = save_cvs c j
  save1 (from_svn s) j = save_svn s j
  save1 (from_file u) j = save_url u j
  save1 (from_files us) j = save_files us j

  -- save1(j[getString()])
  unfoldable pub save : Source → D.Value → D.Value
  save s j = let k = type_string (get_type s) in D.set k (save1 s (get_or_null k j)) j

  -- The constructors of each class from a document.
  abbrev pub load_url : D.Value → Outcome Bytes
  load_url j = get_string (codes "url") j (ok [])

  abbrev pub load_git_unchecked : D.Value → Outcome Git
  load_git_unchecked j = do
    url ← load_url j
    tag ← get_string (codes "tag") j (ok [])
    branch ← get_string (codes "branch") j (ok [])
    commit ← get_string (codes "commit") j (ok [])
    ok (record { url = url; tag = tag; branch = branch; commit = commit; try_v_tag_prefix = false })

  abbrev pub load_git : D.Value → Outcome Git
  load_git j = do g ← load_git_unchecked j; check_git g; ok g

  -- revision has no initial value: without one in the document checkValid reads it all the same.
  abbrev pub load_hg : D.Value → Outcome Hg
  load_hg j = do
    g ← load_git_unchecked j
    revision ← get_int (codes "revision") j undefined
    let h : Hg = record { base = g; revision = revision }
    check_hg h
    ok h

  abbrev pub load_bzr : D.Value → Outcome Bzr
  load_bzr j = do
    url ← load_url j
    tag ← get_string (codes "tag") j (ok [])
    revision ← get_int (codes "revision") j (ok (negsuc 0))
    let b : Bzr = record { url = url; tag = tag; revision = revision }
    check_bzr b
    ok b

  abbrev pub load_cvs : D.Value → Outcome Cvs
  load_cvs j = do
    url ← load_url j
    tag ← get_string (codes "tag") j (ok [])
    branch ← get_string (codes "branch") j (ok [])
    revision ← get_string (codes "revision") j (ok [])
    cvs_module ← get_string (codes "module") j (ok [])
    let c : Cvs = record {
      url = url;
      tag = tag;
      branch = branch;
      revision = revision;
      cvs_module = cvs_module;
    }
    check_cvs c
    ok c

  abbrev pub load_svn : D.Value → Outcome Svn
  load_svn j = do
    url ← load_url j
    tag ← get_string (codes "tag") j (ok [])
    branch ← get_string (codes "branch") j (ok [])
    revision ← get_int (codes "revision") j (ok (negsuc 0))
    let s : Svn = record { url = url; tag = tag; branch = branch; revision = revision }
    check_svn s
    ok s

  -- Strings s = j["url"], on a constant: a member that is missing must not be asked for.
  abbrev pub urls_of : Bool → Option D.Value → Outcome (List Bytes)
  urls_of b none = if b then undefined else throw bad_document
  urls_of b (some v) = D.get_strings v >>= λ ss. ok (url_set [] ss)

  abbrev pub load_files : D.Value → Outcome (List Bytes)
  load_files j = urls_of (D.is_object j) (D.find (codes "url") j)

  abbrev pub load1 : SourceType → D.Value → Outcome Source
  load1 SourceType.empty_source j = ok from_nothing
  load1 SourceType.git j = load_git j >>= λ g. ok (from_git g)
  load1 SourceType.mercurial j = load_hg j >>= λ h. ok (from_hg h)
  load1 SourceType.bazaar j = load_bzr j >>= λ b. ok (from_bzr b)
  load1 SourceType.fossil j = load_git j >>= λ g. ok (from_fossil g)
  load1 SourceType.cvs j = load_cvs j >>= λ c. ok (from_cvs c)
  load1 SourceType.svn j = load_svn j >>= λ s. ok (from_svn s)
  load1 SourceType.remote_file j = load_url j >>= λ u. ok (from_file u)
  load1 SourceType.remote_files j = load_files j >>= λ us. ok (from_files us)

  abbrev pub load_member : D.Value → List (Bytes × D.Value) → Outcome Source
  load_member j [] = throw bad_document
  load_member j ((k, v) ∷ (m ∷ ms)) = throw bad_document
  load_member j ((k, v) ∷ []) =
      if D.is_object j then (from_string k >>= λ t. load1 t v) else throw bad_document

  -- Source::load
  unfoldable pub load : D.Value → Outcome Source
  unfolding from_string
  load j = load_member j (D.members j)
