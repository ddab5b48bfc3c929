-- ===== src/Source/Recover.antt =====
-- A source from the entries that print1 of src/source/src/source.cpp writes.
use primitives.Prelude.{
  ◌≡◌, ◌≢◌, inl, inr, Bool-cases, refl, ap, ◌∙◌, false, List, [], ◌∷◌, Bytes, All, map,
}
use primitives.Source.{
  SourceType, Git, Hg, Bzr, Cvs, Svn, Source, from_nothing, from_git, from_hg, from_bzr,
  from_fossil, from_cvs, from_svn, from_file, from_files, get_type,
}
use primitives.Source.Loads.{without_prefix}
use primitives.Source.Fields.{field}
use primitives.Prelude.Ord.{list_beq, nat_ord}
use primitives.Source.Lines.{Without}
use primitives.Source.Entries.{
  number_text, url_key, tag_key, branch_key, commit_key, revision_key, module_key, Reads, Reads-nil,
  Reads-text_entry, number_of_text, number_of_text-number_text,
}
use primitives.Source.Written.{fields_of, url_entries, entries}

-- Texts without a newline, and what print does not show as the class gives it by itself.
abbrev pub IsPlain : Git → Type 0
IsPlain g =
    Without 10 g.url
    × Without 10 g.tag
    × Without 10 g.branch
    × Without 10 g.commit
    × (g.try_v_tag_prefix ≡ false)

abbrev pub IsClean : Source → Type 0
IsClean from_nothing = Unit
IsClean (from_git g) = IsPlain g
IsClean (from_hg h) = IsPlain h.base
IsClean (from_bzr b) = Without 10 b.url × Without 10 b.tag
IsClean (from_fossil g) = IsPlain g
IsClean (from_cvs c) =
    Without 10 c.url
    × Without 10 c.tag
    × Without 10 c.branch
    × Without 10 c.revision
    × Without 10 c.cvs_module
IsClean (from_svn s) = Without 10 s.url × Without 10 s.tag × Without 10 s.branch
IsClean (from_file u) = Without 10 u
IsClean (from_files us) = All (Without 10) us

-- A source from the entries of its print.
git_of : List (Bytes × Bytes) → Git
git_of es = record {
  url = field url_key es;
  tag = field tag_key es;
  branch = field branch_key es;
  commit = field commit_key es;
  try_v_tag_prefix = false;
}

pub source_of : SourceType → List (Bytes × Bytes) → Source
source_of SourceType.empty_source es = from_nothing
source_of SourceType.git es = from_git (git_of es)
source_of SourceType.mercurial es =
    from_hg (record { base = git_of es; revision = number_of_text (field revision_key es) })
source_of SourceType.bazaar es = from_bzr (record {
  url = field url_key es;
  tag = field tag_key es;
  revision = number_of_text (field revision_key es);
})
source_of SourceType.fossil es = from_fossil (git_of es)
source_of SourceType.cvs es = from_cvs (record {
  url = field url_key es;
  tag = field tag_key es;
  branch = field branch_key es;
  revision = field revision_key es;
  cvs_module = field module_key es;
})
source_of SourceType.svn es = from_svn (record {
  url = field url_key es;
  tag = field tag_key es;
  branch = field branch_key es;
  revision = number_of_text (field revision_key es);
})
source_of SourceType.remote_file es = from_file (field url_key es)
source_of SourceType.remote_files es = from_files (map (λ e. e.1) es)

Reads-url :
    (u : Bytes) {es fs : List (Bytes × Bytes)}
    → Reads es fs
    → Reads ((url_key, u) ∷ es) ((url_key, u) ∷ fs)
Reads-url u {es} {fs} r = record {
  reads = λ k. elim (Bool-cases (list_beq k url_key)) [
    | inl same ↦ rw same refl
    | inr other ↦ rw other (r.reads k)
  ];
}

module _ {es fs : List (Bytes × Bytes)} (r : Reads es fs) where
  git_of-Reads : git_of es ≡ git_of fs
  unfolding git_of
  git_of-Reads = rw (r.reads url_key, r.reads tag_key, r.reads branch_key, r.reads commit_key) refl

  source_of-Reads : (t : SourceType) → t ≢ SourceType.remote_files → source_of t es ≡ source_of t fs
  unfolding source_of
  source_of-Reads SourceType.empty_source n = refl
  source_of-Reads SourceType.git n = ap from_git git_of-Reads
  source_of-Reads SourceType.mercurial n = rw (git_of-Reads, r.reads revision_key) refl
  source_of-Reads SourceType.bazaar n =
      rw (r.reads url_key, r.reads tag_key, r.reads revision_key) refl
  source_of-Reads SourceType.fossil n = ap from_fossil git_of-Reads
  source_of-Reads SourceType.cvs n =
      rw
        (
          r.reads url_key,
          r.reads tag_key,
          r.reads branch_key,
          r.reads revision_key,
          r.reads module_key,
        )
        refl
  source_of-Reads SourceType.svn n =
      rw (r.reads url_key, r.reads tag_key, r.reads branch_key, r.reads revision_key) refl
  source_of-Reads SourceType.remote_file n = rw (r.reads url_key) refl
  source_of-Reads SourceType.remote_files n = absurd (n refl)

Reads-git : (g : Git) → Reads (entries (from_git g)) ((url_key, g.url) ∷ fields_of (from_git g))
Reads-git g = Reads-url g.url (
    Reads-text_entry tag_key g.tag refl (
      Reads-text_entry branch_key g.branch refl
        (Reads-text_entry commit_key g.commit refl Reads-nil)))

Reads-hg : (h : Hg) → Reads (entries (from_hg h)) ((url_key, h.base.url) ∷ fields_of (from_hg h))
Reads-hg h = Reads-url h.base.url (
    Reads-text_entry tag_key h.base.tag refl (
      Reads-text_entry branch_key h.base.branch refl (
        Reads-text_entry commit_key h.base.commit refl
          (Reads-text_entry revision_key (number_text h.revision) refl Reads-nil))))

Reads-bzr : (b : Bzr) → Reads (entries (from_bzr b)) ((url_key, b.url) ∷ fields_of (from_bzr b))
Reads-bzr b = Reads-url b.url (
    Reads-text_entry tag_key b.tag refl
      (Reads-text_entry revision_key (number_text b.revision) refl Reads-nil))

Reads-cvs : (c : Cvs) → Reads (entries (from_cvs c)) ((url_key, c.url) ∷ fields_of (from_cvs c))
Reads-cvs c = Reads-url c.url (
    Reads-text_entry tag_key c.tag refl (
      Reads-text_entry branch_key c.branch refl (
        Reads-text_entry revision_key c.revision refl
          (Reads-text_entry module_key c.cvs_module refl Reads-nil))))

Reads-svn : (s : Svn) → Reads (entries (from_svn s)) ((url_key, s.url) ∷ fields_of (from_svn s))
Reads-svn s = Reads-url s.url (
    Reads-text_entry tag_key s.tag refl (
      Reads-text_entry branch_key s.branch refl
        (Reads-text_entry revision_key (number_text s.revision) refl Reads-nil)))

map_urls : (us : List Bytes) → map (λ (e : Bytes × Bytes). e.1) (url_entries us) ≡ us
map_urls [] = refl
map_urls (u ∷ us) = ap (λ vs. u ∷ vs) (map_urls us)

pub source_of-entries : (s : Source) → IsClean s → source_of (get_type s) (entries s) ≡ s
unfolding source_of git_of
source_of-entries from_nothing c = refl
source_of-entries (from_git g) c =
    source_of-Reads (Reads-git g) SourceType.git (λ e. cc) ∙ ap from_git (without_prefix g c.4)
source_of-entries (from_hg h) c =
    source_of-Reads (Reads-hg h) SourceType.mercurial (λ e. cc)
    ∙ rw (without_prefix h.base c.4, number_of_text-number_text h.revision) refl
source_of-entries (from_bzr b) c =
    source_of-Reads (Reads-bzr b) SourceType.bazaar (λ e. cc)
    ∙ rw (number_of_text-number_text b.revision) refl
source_of-entries (from_fossil g) c =
    source_of-Reads (Reads-git g) SourceType.fossil (λ e. cc)
    ∙ ap from_fossil (without_prefix g c.4)
source_of-entries (from_cvs x) c = source_of-Reads (Reads-cvs x) SourceType.cvs (λ e. cc)
source_of-entries (from_svn s) c =
    source_of-Reads (Reads-svn s) SourceType.svn (λ e. cc)
    ∙ rw (number_of_text-number_text s.revision) refl
source_of-entries (from_file u) c = refl
source_of-entries (from_files us) c = ap from_files (map_urls us)
