-- ===== src/Version/Format.antt =====
-- Version::format (src/version/src/version.cpp): the letters for a number, and the arguments that the
-- text is formatted with. fmt::format is a parameter.
pub mod Letters
use primitives.Prelude.{
  ℕ, zero, suc, ◌+◌, ◌-◌, ◌*◌, ◌/◌, ◌%◌, Bool, true, false, not, List, [], ◌∷◌, ◌++◌, reverse,
  Option, none, some, Bytes, codes, length, any, drop, replicate, leb, ltb, if◌then◌else◌, Outcome,
  ok, undefined, ◌>>=◌,
}
use primitives.Prelude.Int.{ℤ, pos, negsuc, ◌==ℤ◌, max_int64}
use primitives.Prelude.Decimal.{to_string}
use primitives.Version.{Version, level, get}
use primitives.Version.Print.{dot, print_extra, version_string, to_string_at}

abbrev pub letters : ℕ
letters = 26

-- The first loop of create_latin_replacements: how many letters (c) and which word of that length (n).
-- p *= a past the end of Number is undefined. The fuel is never used up: p passes the end before.
unfoldable pub word_length : ℕ → ℕ → ℕ → ℕ → Outcome (ℕ × ℕ)
word_length zero n p c = undefined
word_length (suc f) n p c = elim (leb p n) [
  | false ↦ ok (n, c)
  | true ↦ elim (leb (p * letters) max_int64) [
    | false ↦ undefined
    | true ↦ word_length f (n - p) (p * letters) (suc c)
  ]
]

-- The second loop, with the letter behind it; the last letter of the word comes first.
unfoldable pub word_letters : ℕ → ℕ → ℕ → Bytes
word_letters zero n base = (n + base) ∷ []
word_letters (suc f) n base = elim (leb letters n) [
  | false ↦ (n + base) ∷ []
  | true ↦ (n % letters + base) ∷ word_letters f (n / letters) base
]

-- A negative number passes both loops by, and its one char is cut to a byte.
unfoldable pub latin : ℤ → ℕ → Outcome Bytes
latin (negsuc k) base = ok (((base + 255 * suc k) % 256) ∷ [])
latin (pos n) base = do
  (m, c) ← word_length 15 n letters 1
  let s = reverse (word_letters m m base)
  ok (if ltb (length s) c then replicate (c - length s) base ++ s else s)

-- get_optional_number: the number at a level, if it or a number behind it is not zero.
unfoldable pub optional_number : Version → ℕ → Outcome (Option ℤ)
optional_number v l =
    if ltb (level v) l
    then ok none
    else if any (λ n. not (n ==ℤ pos 0)) (drop (l - 1) v.numbers)
    then (do n ← get v l; ok (some n))
    else ok none

unfoldable pub optional_text : Option ℤ → Bytes
optional_text none = []
optional_text (some n) = dot ++ to_string n

optional_latin : Option ℤ → ℤ → ℕ → Outcome Bytes
optional_latin none n base = ok []
optional_latin (some _) n base = do s ← latin n base; ok (dot ++ s)

-- The arguments of one level but the first: {m}, {mo}, {mL}, {ml}, {mLo}, {mlo}.
unfoldable pub level_arguments : Bytes → Version → ℕ → Outcome (List (Bytes × Bytes))
unfolding optional_latin
level_arguments name v l = do
  n ← get v l
  on ← optional_number v l
  capital ← latin n b'A'
  small ← latin n b'a'
  capital_o ← optional_latin on n b'A'
  small_o ← optional_latin on n b'a'
  ok (
      (name, to_string n)
      ∷ (name ++ codes "o", optional_text on)
      ∷ (name ++ codes "L", capital)
      ∷ (name ++ codes "l", small)
      ∷ (name ++ codes "Lo", capital_o)
      ∷ (name ++ codes "lo", small_o)
      ∷ [])

unfoldable pub arguments : Version → Outcome (List (Bytes × Bytes))
unfolding level_arguments
arguments v = do
  major ← get v 1
  capital ← latin major b'A'
  small ← latin major b'a'
  minor ← level_arguments (codes "m") v 2
  patch ← level_arguments (codes "p") v 3
  tweak ← level_arguments (codes "t") v 4
  ok (
      (codes "M", to_string major)
      ∷ (codes "ML", capital)
      ∷ (codes "Ml", small)
      ∷ (codes "e", print_extra v.extra)
      ∷ (codes "v", version_string v)
      ∷ (codes "Mm", to_string_at v dot 2)
      ∷ (minor ++ patch ++ tweak))

-- The named arguments do not depend on their order.
unfoldable pub format : (Bytes → List (Bytes × Bytes) → Bytes) → Version → Bytes → Outcome Bytes
unfolding arguments
format formatted v s = do named ← arguments v; ok (formatted s named)
