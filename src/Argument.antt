-- ===== src/Argument.antt =====
-- Arguments of a command: their order, quoting and lists (src/command/include/primitives/argument.h).
-- boost::replace_all is a parameter.
pub mod Position
pub mod Quoting
pub mod Lists
mod Examples
use primitives.Prelude.{
  ℕ, zero, suc, ◌+◌, Bool, true, false, List, [], ◌∷◌, ◌++◌, Bytes, codes, length, ◌==◌,
  if◌then◌else◌,
}
use primitives.Prelude.Int.{ℤ, pos, ltb_ℤ}
use primitives.Prelude.Ord.{list_lt, list_beq, nat_ord, int_ord}

-- What is left of the second position, behind the end of the first.
unfoldable pub rest_greater : List ℤ → Bool
rest_greater [] = false
rest_greater (y ∷ ys) =
    if ltb_ℤ (pos 0) y then true else if ltb_ℤ y (pos 0) then false else rest_greater ys

-- What is left of the first position, behind the end of the second.
unfoldable pub rest_less : List ℤ → Bool
rest_less [] = false
rest_less (x ∷ xs) =
    if ltb_ℤ x (pos 0) then true else if ltb_ℤ (pos 0) x then false else rest_less xs

unfoldable pub position_compare : List ℤ → List ℤ → Bool
unfolding rest_greater rest_less
position_compare [] [] = false
position_compare [] (y ∷ ys) = rest_greater (y ∷ ys)
position_compare (x ∷ xs) [] = rest_less (x ∷ xs)
position_compare (x ∷ xs) (y ∷ ys) =
    if ltb_ℤ x y then true else if ltb_ℤ y x then false else position_compare xs ys

-- ArgumentPosition::operator<.
unfoldable pub position_lt : List ℤ → List ℤ → Bool
position_lt xs ys = if length xs == length ys then list_lt xs ys else position_compare xs ys

pub data QuoteType : Type 0 where
  as_is simple escape simple_and_escape : QuoteType

abbrev pub quote_mark : ℕ
quote_mark = 34

abbrev pub backslash : ℕ
backslash = 92

unfoldable pub quote_simple : Bytes → Bytes
quote_simple [] = quote_mark ∷ quote_mark ∷ []
quote_simple (c ∷ s) = if c == quote_mark then c ∷ s else quote_mark ∷ (c ∷ s ++ quote_mark ∷ [])

module _ (replace_all : Bytes → Bytes → Bytes → Bytes) where
  unfoldable pub quote_escape : Bytes → Bytes
  quote_escape s =
      replace_all (replace_all s (backslash ∷ []) (backslash ∷ backslash ∷ [])) (quote_mark ∷ [])
        (backslash ∷ quote_mark ∷ [])

  -- Argument::quote.
  unfoldable pub quote : Bytes → QuoteType → Bytes
  quote s as_is = s
  quote s simple = quote_simple s
  quote s escape = quote_escape s
  quote s simple_and_escape = quote_simple (quote_escape s)

-- SimpleArgument, and SimplePositionalArgument.
pub data Argument : Type 0 where
  simple_argument : Bytes → Bool → Argument
  positional : Bytes → Bool → List ℤ → Argument

unfoldable pub text_of : Argument → Bytes
text_of (simple_argument a affects_output) = a
text_of (positional a affects_output p) = a

unfoldable pub position_of : Argument → List ℤ
position_of (simple_argument a affects_output) = []
position_of (positional a affects_output p) = p

unfoldable pub clone : Argument → Argument
clone (simple_argument a affects_output) = simple_argument a affects_output
clone (positional a affects_output p) = positional a affects_output p

abbrev pub Arguments : Type 0
Arguments = List Argument

unfoldable pub push_back_one : Arguments → Argument → Arguments
push_back_one args a = args ++ a ∷ []

unfoldable pub push_back_string : Arguments → Bytes → Arguments
unfolding push_back_one
push_back_string args s = push_back_one args (simple_argument s true)

-- push_back(const Arguments &), for another object.
unfoldable pub push_back_all : Arguments → Arguments → Arguments
unfolding push_back_one
push_back_all args [] = args
push_back_all args (a ∷ args2) = push_back_all (push_back_one args (clone a)) args2

push_back_strings : Arguments → List Bytes → Arguments
push_back_strings args [] = args
push_back_strings args (s ∷ l) = push_back_strings (push_back_string args s) l

-- Arguments(const Strings &).
unfoldable pub of_strings : List Bytes → Arguments
unfolding push_back_strings push_back_string
of_strings l = push_back_strings [] l

-- operator=, on another object.
unfoldable pub assign : Arguments → Arguments → Arguments
unfolding push_back_all
assign args rhs = push_back_all [] rhs

unfoldable pub push_front : Arguments → Argument → Arguments
push_front args a = a ∷ args

-- push_front(const Arguments &).
unfoldable pub push_front_all : Arguments → Arguments → Arguments
unfolding push_front
push_front_all args [] = args
push_front_all args (a ∷ args2) = push_front_all (push_front args (clone a)) args2

-- erase: what is left, and the count, from n on.
erase_from : ℕ → Arguments → Bytes → Arguments × ℕ
erase_from n [] v = ([], n)
erase_from n (a ∷ args) v =
    let found = list_beq (text_of a) v in
    let (left, count) = erase_from (if found then suc n else n) args v in
    (if found then left else a ∷ left, count)

unfoldable pub erase : Arguments → Bytes → Arguments × ℕ
unfolding erase_from
erase args v = erase_from 0 args v
