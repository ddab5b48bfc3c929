-- ===== src/Source/Loads.antt =====
-- What the constructors of the classes of src/source/src/source.cpp read from a json object that
-- save1 wrote.
use primitives.Prelude.{
  ◌≡◌, ◌≢◌, refl, sym, ap, ◌∙◌, inl, true, false, List, [], ◌∷◌, ◌++◌, append_assoc, append-nil,
  Bytes, codes, All, All-append, ok, undefined,
}
use primitives.Prelude.Ord.{list_beq, list_lt, lt_asymm, nat_ord, list_ord}
use primitives.Source.{
  Git, Hg, Bzr, Cvs, Svn, has_number, check_git, check_hg, check_bzr, check_cvs, check_svn,
  insert_url, url_set,
}
use primitives.Source.Document.{
  get_int, add_not_minus_one, Document, IsLawful, save_url, save_git, save_hg, save_bzr, save_cvs,
  save_svn, save_files, push_urls, get_or_null, load_git, load_hg, load_bzr, load_cvs, load_svn,
  load_files,
}
use primitives.Source.Fields.{
  get_int_none, Describes, Describes-null, Describes-add, Describes-add_not_empty,
  text-add_not_minus_one, get_int-add_not_minus_one, get_int-add_not_minus_one_self,
}

-- A set of urls, in its order.
abbrev pub IsSorted : List Bytes → Type 0
IsSorted [] = Unit
IsSorted (u ∷ us) = All (λ v. list_lt u v ≡ true) us × IsSorted us

insert_url_last :
    (u : Bytes) (out : List Bytes)
    → All (λ o. list_lt o u ≡ true) out
    → insert_url u out ≡ out ++ u ∷ []
insert_url_last u [] h = refl
insert_url_last u (v ∷ vs) (h, k) = rw (lt_asymm v u h, h, insert_url_last u vs k) refl

all_below :
    (out : List Bytes) (u : Bytes) (us : List Bytes)
    → All (λ v. All (λ o. list_lt o v ≡ true) out) us
    → All (λ v. list_lt u v ≡ true) us
    → All (λ v. All (λ o. list_lt o v ≡ true) (out ++ u ∷ [])) us
all_below out u [] h a = tt
all_below out u (v ∷ vs) (h, k) (b, a) =
    (All-append (λ o. list_lt o v ≡ true) out (u ∷ []) h (b, tt), all_below out u vs k a)

none_below : (us : List Bytes) → All (λ v. All (λ o. list_lt o v ≡ true) []) us
none_below [] = tt
none_below (u ∷ us) = (tt, none_below us)

url_set-append :
    (out us : List Bytes)
    → All (λ u. All (λ o. list_lt o u ≡ true) out) us
    → IsSorted us
    → url_set out us ≡ out ++ us
url_set-append out [] h o = sym (append-nil out)
url_set-append out (u ∷ us) (h, k) (a, o) =
    rw (insert_url_last u out h)
      (url_set-append (out ++ u ∷ []) us (all_below out u us k a) o ∙ append_assoc out (u ∷ []) us)

pub without_prefix :
    (g : Git) → g.try_v_tag_prefix ≡ false → record g { try_v_tag_prefix = false } ≡ g
without_prefix g p = ap (λ b. record g { try_v_tag_prefix = b }) (sym p)

module _ (D : Document) (L : IsLawful D) where
  pub described_url : (u : Bytes) → Describes D (save_url D u D.null) ((codes "url", u) ∷ [])
  described_url u = Describes-add D L (Describes-null D L) (codes "url") u refl

  pub described_git :
      (g : Git)
      → Describes D (save_git D g D.null) (
          (codes "commit", g.commit)
          ∷ (codes "branch", g.branch)
          ∷ (codes "tag", g.tag)
          ∷ (codes "url", g.url)
          ∷ [])
  described_git g =
      let t = Describes-add_not_empty D L (described_url g.url) (codes "tag") g.tag refl in
      let b = Describes-add_not_empty D L t (codes "branch") g.branch refl in
      Describes-add_not_empty D L b (codes "commit") g.commit refl

  described_cvs :
      (c : Cvs)
      → Describes D (save_cvs D c D.null) (
          (codes "module", c.cvs_module)
          ∷ (codes "revision", c.revision)
          ∷ (codes "branch", c.branch)
          ∷ (codes "tag", c.tag)
          ∷ (codes "url", c.url)
          ∷ [])
  described_cvs c =
      let t = Describes-add_not_empty D L (described_url c.url) (codes "tag") c.tag refl in
      let b = Describes-add_not_empty D L t (codes "branch") c.branch refl in
      let r = Describes-add_not_empty D L b (codes "revision") c.revision refl in
      Describes-add_not_empty D L r (codes "module") c.cvs_module refl

  pub load_git-save :
      (g : Git)
      → g.try_v_tag_prefix ≡ false
      → check_git g ≡ ok tt
      → load_git D (save_git D g D.null) ≡ ok g
  load_git-save g p h =
      let d = described_git g in
      rw
        (
          d.text (codes "url"),
          d.text (codes "tag"),
          d.text (codes "branch"),
          d.text (codes "commit"),
        )
        (rw (h, without_prefix g p) refl)

  pub load_cvs-save : (c : Cvs) → check_cvs c ≡ ok tt → load_cvs D (save_cvs D c D.null) ≡ ok c
  load_cvs-save c h =
      let d = described_cvs c in
      rw
        (
          d.text (codes "url"),
          d.text (codes "tag"),
          d.text (codes "branch"),
          d.text (codes "revision"),
          d.text (codes "module"),
        )
        (rw h refl)

  pub load_hg-save :
      (h : Hg)
      → h.base.try_v_tag_prefix ≡ false
      → has_number h.revision ≡ true
      → check_hg h ≡ ok tt
      → load_hg D (save_hg D h D.null) ≡ ok h
  load_hg-save h p n v =
      let d = described_git h.base in
      let text = λ (k : Bytes) (e : list_beq k (codes "revision") ≡ false).
        text-add_not_minus_one D L d k (codes "revision") h.revision e in
      let i =
        get_int-add_not_minus_one_self D L (save_git D h.base D.null) d.is_map (codes "revision")
          h.revision undefined n in
      rw
        (
          text (codes "url") refl,
          text (codes "tag") refl,
          text (codes "branch") refl,
          text (codes "commit") refl,
          i,
        )
        (rw (v, without_prefix h.base p) refl)

  pub load_bzr-save : (b : Bzr) → check_bzr b ≡ ok tt → load_bzr D (save_bzr D b D.null) ≡ ok b
  load_bzr-save b v =
      let d = Describes-add_not_empty D L (described_url b.url) (codes "tag") b.tag refl in
      let text = λ (k : Bytes) (e : list_beq k (codes "revision") ≡ false).
        text-add_not_minus_one D L d k (codes "revision") b.revision e in
      let i =
        get_int-add_not_minus_one D L _ d.is_map (codes "revision") b.revision
          (d.absent (codes "revision") refl) in
      rw (text (codes "url") refl, text (codes "tag") refl, i) (rw v refl)

  pub load_svn-save : (s : Svn) → check_svn s ≡ ok tt → load_svn D (save_svn D s D.null) ≡ ok s
  load_svn-save s v =
      let t = Describes-add_not_empty D L (described_url s.url) (codes "tag") s.tag refl in
      let d = Describes-add_not_empty D L t (codes "branch") s.branch refl in
      let text = λ (k : Bytes) (e : list_beq k (codes "revision") ≡ false).
        text-add_not_minus_one D L d k (codes "revision") s.revision e in
      let i =
        get_int-add_not_minus_one D L _ d.is_map (codes "revision") s.revision
          (d.absent (codes "revision") refl) in
      rw (text (codes "url") refl, text (codes "tag") refl, text (codes "branch") refl, i)
        (rw v refl)

  get_strings-push_urls :
      (us : List Bytes) (ss : List Bytes) (v : D.Value)
      → D.get_strings v ≡ ok ss
      → D.get_strings (push_urls D us v) ≡ ok (ss ++ us)
  get_strings-push_urls [] ss v e = rw (append-nil ss) e
  get_strings-push_urls (u ∷ us) ss v e =
      rw (sym (append_assoc ss (u ∷ []) us))
        (get_strings-push_urls us (ss ++ u ∷ []) _ (L.get_strings-push_back u ss v e))

  pub load_files-save :
      (us : List Bytes) → us ≢ [] → IsSorted us → load_files D (save_files D us D.null) ≡ ok us
  load_files-save [] n o = absurd (n refl)
  load_files-save (u ∷ us) n o =
      rw
        (
          L.find-set (codes "url") (codes "url")
              (push_urls D (u ∷ us) (get_or_null D (codes "url") D.null)) D.null (inl refl),
          L.find-null (codes "url"),
          get_strings-push_urls us (u ∷ []) _ (L.get_strings-one u),
        )
        (rw (url_set-append [] (u ∷ us) (none_below (u ∷ us)) o) refl)

  -- An Hg without a revision.
  pub load_hg_undefined :
      (h : Hg) → has_number h.revision ≡ false → load_hg D (save_hg D h D.null) ≡ undefined
  unfolding add_not_minus_one
  load_hg_undefined h n =
      let d = described_git h.base in
      let text = λ (k : Bytes) (e : list_beq k (codes "revision") ≡ false).
        text-add_not_minus_one D L d k (codes "revision") h.revision e in
      let i : get_int D (codes "revision") (save_hg D h D.null) undefined ≡ undefined =
        rw n (get_int_none D (codes "revision") undefined (d.absent (codes "revision") refl)) in
      rw
        (
          text (codes "url") refl,
          text (codes "tag") refl,
          text (codes "branch") refl,
          text (codes "commit") refl,
          i,
        )
        refl
