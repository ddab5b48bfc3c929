-- ===== src/Source.antt =====
-- The sources of packages of src/source/include/primitives/source.h and src/source/src/source.cpp:
-- a value for each class, with its type, the check of its constructors and apply.
pub mod Print
pub mod Url
pub mod Document
pub mod Calls
pub mod Download
mod Keeps
mod Checked
mod Repository
mod Valid
mod Lines
mod Entries
mod Written
mod Recover
mod Identity
mod Nodes
mod Examples
mod Fields
mod Loads
mod RoundTrip
use primitives.Prelude.{
  ℕ, zero, suc, ◌+◌, ◌≡◌, Bool, true, false, not, List, [], ◌∷◌, map, Bytes, codes, if◌then◌else◌,
  Outcome, ok, throw, no_source, many_sources, bad_source, empty_module, ◌>>=◌, ◌>>◌,
}
use primitives.Prelude.Int.{ℤ, pos, negsuc}
use primitives.Prelude.Ord.{list_beq, list_lt, nat_ord}

-- source.inl
pub data SourceType : Type 0 where
  empty_source git mercurial bazaar fossil cvs svn remote_file remote_files : SourceType

pub record Git : Type 0 where
  pub url : Bytes
  pub tag : Bytes
  pub branch : Bytes
  pub commit : Bytes
  pub try_v_tag_prefix : Bool

pub record Hg : Type 0 where
  pub base : Git
  pub revision : ℤ

pub record Bzr : Type 0 where
  pub url : Bytes
  pub tag : Bytes
  pub revision : ℤ

pub record Cvs : Type 0 where
  pub url : Bytes
  pub tag : Bytes
  pub branch : Bytes
  pub revision : Bytes
  pub cvs_module : Bytes

pub record Svn : Type 0 where
  pub url : Bytes
  pub tag : Bytes
  pub branch : Bytes
  pub revision : ℤ

-- The set of urls is in its order.
pub data Source : Type 0 where
  from_nothing : Source
  from_git : Git → Source
  from_hg : Hg → Source
  from_bzr : Bzr → Source
  from_fossil : Git → Source
  from_cvs : Cvs → Source
  from_svn : Svn → Source
  from_file : Bytes → Source
  from_files : List Bytes → Source

abbrev pub get_type : Source → SourceType
get_type from_nothing = empty_source
get_type (from_git g) = git
get_type (from_hg h) = mercurial
get_type (from_bzr b) = bazaar
get_type (from_fossil g) = fossil
get_type (from_cvs c) = cvs
get_type (from_svn s) = svn
get_type (from_file u) = remote_file
get_type (from_files us) = remote_files

abbrev pub type_string : SourceType → Bytes
type_string empty_source = codes "empty"
type_string git = codes "git"
type_string mercurial = codes "hg"
type_string bazaar = codes "bzr"
type_string fossil = codes "fossil"
type_string cvs = codes "cvs"
type_string svn = codes "svn"
type_string remote_file = codes "remote"
type_string remote_files = codes "files"

-- fromString: the first type, in their order, that is spelled t.
abbrev pub all_types : List SourceType
all_types =
    empty_source ∷ git ∷ mercurial ∷ bazaar ∷ fossil ∷ cvs ∷ svn ∷ remote_file ∷ remote_files ∷ []

abbrev pub first_type : Bytes → List SourceType → Outcome SourceType
first_type t [] = throw bad_source
first_type t (c ∷ cs) = if list_beq t (type_string c) then ok c else first_type t cs

unfoldable pub from_string : Bytes → Outcome SourceType
from_string t = first_type t all_types

-- isEmpty, the other way round.
abbrev pub has_text : Bytes → Bool
has_text [] = false
has_text (c ∷ s) = true

abbrev pub has_number : ℤ → Bool
has_number (negsuc zero) = false
has_number _ = true

-- checkNotEmpty and checkOne
abbrev pub count_true : List Bool → ℕ
count_true [] = 0
count_true (b ∷ bs) = (if b then 1 else 0) + count_true bs

abbrev pub check_count : ℕ → Outcome (Unit {0})
check_count zero = throw no_source
check_count (suc zero) = ok tt
check_count (suc (suc n)) = throw many_sources

abbrev pub check_one : List Bool → Outcome (Unit {0})
check_one bs = check_count (count_true bs)

-- checkValid of each class, which its constructors call.
abbrev pub check_git : Git → Outcome (Unit {0})
check_git g = check_one (has_text g.tag ∷ has_text g.branch ∷ has_text g.commit ∷ [])

abbrev pub check_hg : Hg → Outcome (Unit {0})
check_hg h = check_one (
    has_text h.base.tag
    ∷ has_text h.base.branch
    ∷ has_text h.base.commit
    ∷ has_number h.revision
    ∷ [])

abbrev pub check_bzr : Bzr → Outcome (Unit {0})
check_bzr b = check_one (has_text b.tag ∷ has_number b.revision ∷ [])

abbrev pub check_cvs : Cvs → Outcome (Unit {0})
check_cvs c =
    if has_text c.cvs_module
    then check_one (has_text c.tag ∷ has_text c.branch ∷ has_text c.revision ∷ [])
    else throw empty_module

abbrev pub check_svn : Svn → Outcome (Unit {0})
check_svn s = check_one (has_text s.tag ∷ has_text s.branch ∷ has_number s.revision ∷ [])

unfoldable pub check_valid : Source → Outcome (Unit {0})
check_valid from_nothing = ok tt
check_valid (from_git g) = check_git g
check_valid (from_hg h) = check_hg h
check_valid (from_bzr b) = check_bzr b
check_valid (from_fossil g) = check_git g
check_valid (from_cvs c) = check_cvs c
check_valid (from_svn s) = check_svn s
check_valid (from_file u) = ok tt
check_valid (from_files us) = ok tt

-- A constructor call with the fields of s.
unfoldable pub construct : Source → Outcome Source
unfolding check_valid
construct s = check_valid s >> ok s

-- apply of each class; a formatter is a function of texts.
abbrev pub apply_git : (Bytes → Bytes) → Git → Git
apply_git f g = record g { url = f g.url; tag = f g.tag; branch = f g.branch }

abbrev pub apply_bzr : (Bytes → Bytes) → Bzr → Bzr
apply_bzr f b = record b { url = f b.url; tag = f b.tag }

abbrev pub apply_cvs : (Bytes → Bytes) → Cvs → Cvs
apply_cvs f c = record c {
  url = f c.url;
  tag = f c.tag;
  branch = f c.branch;
  revision = f c.revision;
}

abbrev pub apply_svn : (Bytes → Bytes) → Svn → Svn
apply_svn f s = record s { url = f s.url; tag = f s.tag; branch = f s.branch }

-- std::set::insert into a list in order, and the set of a list.
abbrev pub insert_url : Bytes → List Bytes → List Bytes
insert_url u [] = u ∷ []
insert_url u (v ∷ vs) =
    if list_lt u v then u ∷ (v ∷ vs) else if list_lt v u then v ∷ insert_url u vs else v ∷ vs

abbrev pub url_set : List Bytes → List Bytes → List Bytes
url_set out [] = out
url_set out (u ∷ us) = url_set (insert_url u out) us

unfoldable pub apply : (Bytes → Bytes) → Source → Source
apply f from_nothing = from_nothing
apply f (from_git g) = from_git (apply_git f g)
apply f (from_hg h) = from_hg (record h { base = apply_git f h.base })
apply f (from_bzr b) = from_bzr (apply_bzr f b)
apply f (from_fossil g) = from_fossil (apply_git f g)
apply f (from_cvs c) = from_cvs (apply_cvs f c)
apply f (from_svn s) = from_svn (apply_svn f s)
apply f (from_file u) = from_file (f u)
apply f (from_files us) = from_files (url_set [] (map f us))
