-- ===== src/Source/Url.antt =====
-- isUrl of src/http/src/http.cpp, and isValidSourceUrl and Cvs::checkUrl of
-- src/source/src/source.cpp.
use primitives.Prelude.{
  ℕ, Bool, true, false, not, ◌&&◌, ◌||◌, List, [], ◌∷◌, Bytes, codes, leb, ◌==◌, any, all,
  if◌then◌else◌, Outcome, ok, throw, bad_url, ◌>>◌,
}
use primitives.Source.{
  Cvs, Source, from_nothing, from_git, from_hg, from_bzr, from_fossil, from_cvs,
}
use primitives.Source.{from_svn, from_file, from_files, has_text}

-- s.find(p) == 0
abbrev pub starts_with : Bytes → Bytes → Bool
starts_with s [] = true
starts_with [] (a ∷ p) = false
starts_with (c ∷ s) (a ∷ p) = a == c && starts_with s p

-- s.find(p) != s.npos
abbrev pub contains_text : Bytes → Bytes → Bool
contains_text p [] = starts_with [] p
contains_text p (c ∷ s) = starts_with (c ∷ s) p || contains_text p s

unfoldable pub is_url : Bytes → Bool
is_url s =
    starts_with s (codes "http://")
    || starts_with s (codes "https://")
    || starts_with s (codes "ftp://")
    || starts_with s (codes "git://")

abbrev pub forbidden : Bytes
forbidden = codes "'\"`\\|;$ @!#^*()<>[],"

abbrev pub is_forbidden : ℕ → Bool
is_forbidden c = any (λ a. a == c) forbidden

-- Without CPPAN_TEST.
unfoldable pub is_valid_source_url : Bytes → Bool
unfolding is_url
is_valid_source_url url =
    if not (has_text url)
    then false
    else if not (is_url url)
    then false
    else if any is_forbidden url
    then false
    else if contains_text (codes "&&") url
    then false
    else if starts_with url (codes "file:")
    then false
    else all (λ c. leb c 127) url

abbrev pub check_source_url : Bytes → Outcome (Unit {0})
check_source_url url = if is_valid_source_url url then ok tt else throw bad_url

-- The regular expression -d:([a-z0-9_-]+):([a-z0-9_-]+)@(\S*):(\S*) matches the whole text. A name
-- has none of the signs that end it, so there is one way to match.
abbrev pub is_name_char : ℕ → Bool
is_name_char c = (leb b'a' c && leb c b'z') || (leb b'0' c && leb c b'9') || c == b'_' || c == b'-'

abbrev pub is_space : ℕ → Bool
is_space c = c == 32 || (leb 9 c && leb c 13)

abbrev pub matches_end : Bytes → Bool
matches_end s = all (λ c. not (is_space c)) s && any (λ c. c == b':') s

-- Behind a name, of which there is something read already or not, comes `next` and what k matches.
abbrev pub matches_name : Bool → ℕ → (Bytes → Bool) → Bytes → Bool
matches_name some_read next k [] = false
matches_name some_read next k (c ∷ s) =
    if is_name_char c then matches_name true next k s else some_read && (c == next && k s)

unfoldable pub matches_cvs : Bytes → Bool
matches_cvs (a ∷ b ∷ c ∷ s) =
    a == b'-'
    && (b == b'd' && (c == b':' && matches_name false b':' (matches_name false b'@' matches_end) s))
matches_cvs _ = false

abbrev pub check_cvs_url : Cvs → Outcome (Unit {0})
check_cvs_url c = if matches_cvs c.url then ok tt else throw bad_url

abbrev pub check_urls : List Bytes → Outcome (Unit {0})
check_urls [] = ok tt
check_urls (u ∷ us) = check_source_url u >> check_urls us

-- checkUrl of each class
unfoldable pub check_url : Source → Outcome (Unit {0})
check_url from_nothing = ok tt
check_url (from_git g) = check_source_url g.url
check_url (from_hg h) = check_source_url h.base.url
check_url (from_bzr b) = check_source_url b.url
check_url (from_fossil g) = check_source_url g.url
check_url (from_cvs c) = check_cvs_url c
check_url (from_svn s) = check_source_url s.url
check_url (from_file u) = check_source_url u
check_url (from_files us) = check_urls us
