-- ===== src/Version/Examples.antt =====
-- The theorems on versions at concrete inputs, and runs of the definitions.
use primitives.Prelude.Decimal.{to_string}
use mathlib.Core.List.{cons-ne-nil}
use primitives.Prelude.{
  All, length, ◌<◌, length, ◌+◌, ◌≡◌, refl, [], ◌∷◌, All, arith, Bytes, codes, ok, not, ◌&&◌,
}
use primitives.Prelude.Int.{pos}
use primitives.Version.Format.{word_letters, word_length, latin}
use primitives.Version.Format.Letters.{latin_lem, IsLetter, shorter, word_value}
use primitives.Version.Releases.{move_to_next, begin_releases, visited, releases}
use mathlib.Core.List.{List}
use primitives.Version.{
  is_release, maximum, is_empty, Version, InRange, text, number, lt, gt, le, ge, eq, level,
  real_level,
}
use primitives.Version.Order.{operators_agree}
use primitives.Version.Step.{increment_version}
use primitives.Version.Step.Successor.{increment_version_lem, increment_version_next, version_value}
use primitives.Version.Parse.{of_string}
use primitives.Version.Parse.RoundTrip.{IsPrintable, of_string-version_string}
use primitives.Version.Print.{print_version, print_extra, version_string}

abbrev one_two : Version
one_two = record {
  numbers = pos 1 ∷ pos 2 ∷ pos 0 ∷ [];
  extra = record { values = text (codes "rc") ∷ number (pos 1) ∷ [] };
}

abbrev release : Version
release = record { numbers = pos 1 ∷ pos 999999999 ∷ []; extra = record { values = [] } }

abbrev next : Version
next = record { numbers = pos 2 ∷ pos 0 ∷ []; extra = record { values = [] } }

printed : version_string one_two ≡ codes "1.2.0-rc.1"
unfolding version_string is_empty print_version real_level to_string print_extra
printed = refl

operators_agree_example :
    (gt one_two next ≡ lt next one_two)
    × (le one_two next ≡ not (lt next one_two))
    × (ge one_two next ≡ not (lt one_two next))
    × (eq one_two next ≡ (not (lt one_two next) && not (lt next one_two)))
operators_agree_example = operators_agree one_two next

increment_version_lem_example :
    (w : Version) × (increment_version release ≡ ok w)
    × (version_value w ≡ version_value release + 1)
    × (level w ≡ level release)
    × (w.extra ≡ release.extra)
    × All InRange w.numbers
increment_version_lem_example = increment_version_lem release (omega arith) refl

carried : increment_version release ≡ ok next
unfolding increment_version lt eq real_level maximum
carried = refl

increment_version_next_example : lt next next ≡ not (lt release next)
increment_version_next_example =
    increment_version_next release next next (omega arith) (omega arith) refl carried refl refl

abbrev full : Version
full = record { numbers = pos 999999999 ∷ pos 999999999 ∷ []; extra = record { values = [] } }

abbrev zero_rc : Version
zero_rc = record { numbers = pos 0 ∷ []; extra = record { values = text (codes "rc") ∷ [] } }

real_level_two : real_level one_two ≡ 2
unfolding real_level
real_level_two = refl

abbrev strip_nothing : Bytes → Bytes
strip_nothing s = s

one_two-IsPrintable : IsPrintable one_two
unfolding print_extra to_string
one_two-IsPrintable = record {
  some_number = cons-ne-nil _ _;
  numbers_ok = omega arith;
  parts_ok = ((cons-ne-nil _ _, (refl, (refl, tt)), refl), (omega arith, tt));
  numbers_fit = omega arith;
  extra_fits = omega arith;
}

of_string-version_string_example : of_string strip_nothing (version_string one_two) ≡ ok one_two
of_string-version_string_example =
    of_string-version_string strip_nothing (λ s h. refl) one_two one_two-IsPrintable

-- Words with the letters a to z; a container of a release, a pre-release and a release.
latin_lem_example :
    (s : Bytes) × (latin (pos 703) b'A' ≡ ok s)
    × All (IsLetter b'A') s
    × (0 < length s)
    × (703 ≡ shorter (length s) + word_value b'A' 0 s)
latin_lem_example = latin_lem 703 b'A' (omega arith)

latin_703 : latin (pos 703) b'A' ≡ ok (codes "AAB")
unfolding latin word_length word_letters
latin_703 = refl

abbrev versions : List Version
versions = one_two ∷ release ∷ zero_rc ∷ next ∷ []

released : releases (λ v. v) versions ≡ release ∷ next ∷ []
unfolding releases visited begin_releases is_release move_to_next
released = refl
