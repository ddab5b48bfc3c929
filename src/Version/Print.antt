-- ===== src/Version/Print.antt =====
-- Printing: Version::printVersion, Version::toString, Extra::print (src/version/src/version.cpp).
pub mod Spelling
use primitives.Prelude.{
  ℕ, zero, suc, ◌-◌, not, List, [], ◌∷◌, ◌++◌, Bytes, length, take, if◌then◌else◌,
}
use primitives.Prelude.Int.{ℤ, pos}
use primitives.Prelude.Decimal.{to_string}
use primitives.Version.{Version, Extra, Value, text, number, level, real_level, is_empty}

abbrev pub dot : Bytes
dot = b'.' ∷ []

-- s.resize(s.size() - n).
abbrev pub chop : Bytes → ℕ → Bytes
chop s n = take (length s - n) s

-- What the loop of Extra::print appends for one value.
unfoldable pub print_value : Value → Bytes
print_value (text s) = s
print_value (number n) = to_string n

print_values : List Value → Bytes → Bytes
unfolding print_value
print_values [] s = s
print_values (e ∷ es) s = print_values es (s ++ (print_value e ++ dot))

unfoldable pub print_extra : Extra → Bytes
unfolding print_values
print_extra e = elim (print_values e.values []) [ [] ↦ [] | c ∷ s ↦ chop (c ∷ s) 1 ]

-- The first loop of printVersion: `until` numbers, each with the delimeter behind it.
print_numbers : List ℤ → ℕ → Bytes → Bytes → Bytes
print_numbers ns zero delimeter s = s
print_numbers [] (suc n) delimeter s = s
print_numbers (n ∷ ns) (suc k) delimeter s =
    print_numbers ns k delimeter (s ++ (to_string n ++ delimeter))

-- The second loop: zeros up to the level asked for.
print_zeros : ℕ → Bytes → Bytes → Bytes
print_zeros zero delimeter s = s
print_zeros (suc k) delimeter s = print_zeros k delimeter (s ++ (to_string (pos 0) ++ delimeter))

unfoldable pub print_version : Version → Bytes → ℕ → Bytes
unfolding print_numbers print_zeros
print_version v delimeter l =
    let s =
      print_zeros (l - real_level v) delimeter
        (print_numbers v.numbers (real_level v) delimeter []) in
    elim s [ [] ↦ [] | c ∷ t ↦ chop (c ∷ t) (length delimeter) ]

unfoldable pub to_string_at : Version → Bytes → ℕ → Bytes
to_string_at v delimeter l =
    if not (is_empty v.extra)
    then print_version v delimeter l ++ (b'-' ∷ print_extra v.extra)
    else print_version v delimeter l

unfoldable pub version_string : Version → Bytes
unfolding to_string_at
version_string v = to_string_at v dot (level v)
