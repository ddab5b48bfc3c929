-- ===== src/Source/Examples.antt =====
-- The theorems on the sources of src/source/src/source.cpp at documents and hosts.
use primitives.Prelude.{
  ◌≡◌, ◌≢◌, refl, inl, inr, Bool, true, false, not, List, [], ◌∷◌, Bytes, codes, leb, length, ok,
  throw, undefined, failed_call, All,
}
use primitives.Prelude.Int.{pos, negsuc}
use primitives.Source.{Git, Hg, from_git, from_hg, check_valid, apply}
use primitives.Source.Document.{save, load}
use primitives.Source.RoundTrip.{load-save, load-save_hg}
use primitives.Source.Nodes.{nothing, nodes, nodes-IsLawful}
use primitives.Source.Calls.{
  catch, call, ◌>>◌, Call, execute, create_directories, Host, run_commands, download_repository,
}
use primitives.Source.Download.{download_git, git_commands, download}
use primitives.Source.Checked.{Allowed, download-Allowed}
use primitives.Source.Repository.{
  made, Ran, Within, add_origin, download_repository-Ran, download_repository_stuck,
}
use primitives.Source.Url.{is_valid_source_url, check_url}
use primitives.Source.Entries.{Without-of_all}
use primitives.Source.Recover.{IsClean}
use primitives.Source.Identity.{print_injective}

abbrev repository : Bytes
repository = codes "https://example.org/a.git"

abbrev tagged : Git
tagged = record {
  url = repository;
  tag = codes "v1";
  branch = [];
  commit = [];
  try_v_tag_prefix = false;
}

abbrev at_revision : Hg
at_revision = record {
  base = record { url = repository; tag = []; branch = []; commit = []; try_v_tag_prefix = false };
  revision = pos 7;
}

abbrev tagged_hg : Hg
tagged_hg = record { base = tagged; revision = negsuc 0 }

load-save_example : load nodes (save nodes (from_hg at_revision) nothing) ≡ ok (from_hg at_revision)
unfolding check_valid
load-save_example = load-save nodes nodes-IsLawful (from_hg at_revision) refl (refl, refl)

load-save_hg_example : load nodes (save nodes (from_hg tagged_hg) nothing) ≡ undefined
load-save_hg_example = load-save_hg nodes nodes-IsLawful tagged_hg refl

-- A host on which nothing throws, and one whose third call does, and a second remote.
abbrev fine : Host
fine = record { fails = λ log. false; exists = λ log fn. false }

abbrev is_short : Call → Bool
is_short (execute dir args) = leb (length args) 2
is_short _ = false

abbrev refuses : List Call → Bool
refuses [] = false
refuses (c ∷ []) = false
refuses (c ∷ d ∷ []) = not (is_short d)
refuses (c ∷ d ∷ e ∷ log) = true

abbrev offline : Host
offline = record { fails = refuses; exists = λ log fn. false }

abbrev commands : List (List Bytes)
commands = git_commands repository (codes "v1") [] []

download_repository-Ran_example :
    (older : List Call) × (made (codes "d") commands [] ≡ made (codes "d") commands older)
    × Ran fine (codes "d") commands older
unfolding download_repository run_commands ◌>>◌ call
download_repository-Ran_example =
    download_repository-Ran fine (codes "d") commands [] (made (codes "d") commands []) refl

offline_twice :
    (log : List Call)
    → Within (add_origin (codes "d") repository) log
    → refuses (add_origin (codes "d") repository ∷ log) ≡ true
offline_twice [] w = absurd w
offline_twice (d ∷ []) (inl e) = rw e refl
offline_twice (d ∷ []) (inr w) = absurd w
offline_twice (c ∷ d ∷ log) w = refl

download_repository_stuck_example :
    (download_repository (run_commands offline (codes "d") commands) []).0 ≡ throw failed_call
unfolding run_commands ◌>>◌ call
download_repository_stuck_example =
    download_repository_stuck offline (codes "d") repository (codes "v1") [] [] offline_twice []
      refl refl refl

download-Allowed_example :
    All (Allowed (from_git tagged)) (download fine (from_git tagged) (codes "d") []).1
    × (check_url (from_git tagged) ≢ ok tt
        → (download fine (from_git tagged) (codes "d") []).1 ≡ [])
download-Allowed_example = download-Allowed fine (from_git tagged) (codes "d")

-- The calls that a git source makes.
download-tagged :
    download fine (from_git tagged) (codes "d") []
    ≡ (ok tt, made (codes "d") commands (create_directories (codes "d") ∷ []))
unfolding download download_repository run_commands check_url ◌>>◌ is_valid_source_url call
    download_git catch
download-tagged = refl

clean : IsClean (from_git tagged)
clean = (Without-of_all 10 repository refl, Without-of_all 10 (codes "v1") refl, tt, tt, refl)

print_injective_example : from_git tagged ≡ apply (λ s. s) (from_git tagged)
unfolding check_valid apply
print_injective_example =
    print_injective (from_git tagged) (apply (λ s. s) (from_git tagged)) refl refl clean clean refl
