-- ===== src/Argument/Examples.antt =====
-- The theorems on arguments at concrete inputs, and runs of the operations.
use primitives.Prelude.{◌≡◌, refl, true, false, List, [], ◌∷◌, ◌++◌, some, Bytes, codes}
use primitives.Prelude.Int.{ℤ, pos, negsuc}
use primitives.Prelude.Ord.{int_ord}
use primitives.Argument.{
  simple_argument, positional, position_lt, position_compare, quote, quote_simple, quote_escape,
  simple_and_escape, Arguments,
}
use primitives.Argument.Quoting.{replaced, read_literal, read_literal-quote}

abbrev one_minus : List ℤ
one_minus = pos 1 ∷ pos 0 ∷ negsuc 0 ∷ []

less_before : position_lt one_minus (pos 1 ∷ []) ≡ true
unfolding position_lt position_compare
less_before = refl

abbrev replace_byte : Bytes → Bytes → Bytes → Bytes
replace_byte s [] t = s
replace_byte s (c ∷ p) t = replaced c t s

quoted : quote replace_byte (codes "a\"\\") simple_and_escape ≡ codes "\"a\\\"\\\\\""
unfolding quote quote_simple quote_escape
quoted = refl

read_literal-quote_example :
    read_literal (quote replace_byte (codes "a\"\\") simple_and_escape ++ codes " b")
    ≡ some (codes "a\"\\", codes " b")
read_literal-quote_example =
    read_literal-quote replace_byte (λ s c t. refl) (codes "a\"\\") (codes " b")

abbrev compile : Arguments
compile = simple_argument (codes "cc") true ∷ simple_argument (codes "-c") true ∷ []

abbrev files : Arguments
files = positional (codes "a") true (pos 1 ∷ []) ∷ simple_argument (codes "-c") false ∷ []
