-- ===== src/Version.antt =====
-- A version: its numbers, its extra part, its levels and its comparison
-- (src/version/include/primitives/version.h, src/version/src/version.cpp).
pub mod Order
pub mod Step
pub mod RealLevel
pub mod Print
pub mod Releases
pub mod Parse
pub mod Format
mod Examples
use primitives.Prelude.{
  ◌≤◌, ℕ, zero, suc, ◌-◌, ◌+◌, max, ◌≡◌, refl, Bool, true, false, not, ◌&&◌, ◌||◌, List, [], ◌∷◌,
  ◌++◌, reverse, arith, Bytes, codes, length, any, all, ltb, leb, ◌==◌, if◌then◌else◌, Outcome, ok,
  throw, undefined, out_of_range, ◌>>=◌, ◌↔◌, negative_number, zero_version,
}
use primitives.Prelude.Int.{
  ℤ, pos, negsuc, ltb_ℤ, ◌==ℤ◌, ==ℤ_iff, ltb_ℤ_irrefl, ltb_ℤ_trans, ltb_ℤ_total,
}
use primitives.Prelude.Ord.{
  Ord, list_ord, nat_ord, list_lt, list_beq, list_beq_iff, list_lt_irrefl, list_lt_trans,
  list_lt_total, int_ord,
}

-- std::variant<std::string, Number>: a text goes before a number.
pub data Value : Type 0 where
  text : Bytes → Value
  number : ℤ → Value

abbrev pub value_lt : Value → Value → Bool
value_lt (text s) (text t) = list_lt s t
value_lt (text s) (number n) = true
value_lt (number m) (text t) = false
value_lt (number m) (number n) = ltb_ℤ m n

abbrev pub value_beq : Value → Value → Bool
value_beq (text s) (text t) = list_beq s t
value_beq (text s) (number n) = false
value_beq (number m) (text t) = false
value_beq (number m) (number n) = m ==ℤ n

pub value_beq_iff : (a b : Value) → (value_beq a b ≡ true) ↔ (a ≡ b)
value_beq_iff (text s) (text t) = ground (arith, list_beq_iff s t)
value_beq_iff (text s) (number n) = ground arith
value_beq_iff (number m) (text t) = ground arith
value_beq_iff (number m) (number n) = ground (arith, ==ℤ_iff m n)

pub value_lt_irrefl : (a : Value) → value_lt a a ≡ false
value_lt_irrefl (text s) = list_lt_irrefl s
value_lt_irrefl (number m) = ltb_ℤ_irrefl m

pub value_lt_trans :
    (a b c : Value) → value_lt a b ≡ true → value_lt b c ≡ true → value_lt a c ≡ true
value_lt_trans (text s) (text t) (text u) h k = list_lt_trans s t u h k
value_lt_trans (text s) (text t) (number n) h k = refl
value_lt_trans (text s) (number m) (text u) h k = cc
value_lt_trans (text s) (number m) (number n) h k = refl
value_lt_trans (number m) (text t) c h k = cc
value_lt_trans (number m) (number n) (text u) h k = cc
value_lt_trans (number m) (number n) (number o) h k = ltb_ℤ_trans m n o h k

pub value_lt_total : (a b : Value) → value_lt a b ≡ false → value_lt b a ≡ false → a ≡ b
value_lt_total (text s) (text t) h k = ground (arith, list_lt_total s t)
value_lt_total (text s) (number n) h k = cc
value_lt_total (number m) (text t) h k = cc
value_lt_total (number m) (number n) h k = ground (arith, ltb_ℤ_total m n)

instance abbrev pub value_ord : Ord Value
value_ord = record {
  lt = value_lt;
  beq = value_beq;
  beq_iff = value_beq_iff;
  lt_irrefl = value_lt_irrefl;
  lt_trans = value_lt_trans;
  lt_total = value_lt_total;
}

pub record Extra : Type 0 where
  pub values : List Value

pub record Version : Type 0 where
  pub numbers : List ℤ
  pub extra : Extra

unfoldable pub is_empty : Extra → Bool
is_empty e = elim e.values [ [] ↦ true | x ∷ xs ↦ false ]

-- Extra::operator<: no extra part goes last, 1.2.3-rc1 is less than 1.2.3.
unfoldable pub extra_lt : Extra → Extra → Bool
unfolding is_empty
extra_lt a b =
    if is_empty a && is_empty b
    then false
    else if is_empty b
    then true
    else if is_empty a
    then false
    else list_lt a.values b.values

unfoldable pub extra_beq : Extra → Extra → Bool
extra_beq a b = list_beq a.values b.values

-- Extra::append and Extra::push_back.
pub append : Extra → Extra → Extra
append a b = record { values = a.values ++ b.values }

pub push_back : Extra → Value → Extra
push_back a v = record { values = a.values ++ v ∷ [] }

unfoldable pub no_extra : Extra
no_extra = record { values = [] }

unfoldable pub of_numbers : List ℤ → Version
unfolding no_extra
of_numbers l = record { numbers = l; extra = no_extra }

unfoldable pub with_extra : Version → Extra → Version
with_extra v e = record v { extra = e }

abbrev pub max_number : ℕ
max_number = 999999999

-- A number that the limit of Version::maxNumber() admits.
abbrev pub InRange : ℤ → Type 0
InRange (pos n) = n ≤ max_number
InRange (negsuc n) = ⊥

unfoldable pub minimum : Version
unfolding of_numbers
minimum = of_numbers (pos 0 ∷ [])

unfoldable pub maximum : Version
unfolding of_numbers
maximum = of_numbers (pos (max_number + 1) ∷ [])

abbrev pub default_level : ℕ
default_level = 3

abbrev pub level : Version → ℕ
level v = length v.numbers

-- numbers[i], whose behaviour past the end is undefined.
abbrev pub subscript {ℓ} : {A : Type ℓ} → List A → ℕ → Outcome A
subscript [] i = undefined
subscript (x ∷ xs) zero = ok x
subscript (x ∷ xs) (suc i) = subscript xs i

-- Version::get; a level counts from 1, and numbers[-1] is undefined.
unfoldable pub get : Version → ℕ → Outcome ℤ
get v l =
    if ltb (level v) l
    then ok (pos 0)
    else elim l [ zero ↦ undefined | suc i ↦ subscript v.numbers i ]

-- The loop of getRealLevel over the reversed numbers.
real_from : List ℤ → ℕ → ℕ
real_from [] l = l
real_from (n ∷ ns) l = if not (n ==ℤ pos 0) then l else real_from ns (l - 1)

unfoldable pub real_level : Version → ℕ
unfolding real_from
real_level v = real_from (reverse v.numbers) (level v)

unfoldable pub is_pre_release : Version → Bool
unfolding is_empty
is_pre_release v = not (is_empty v.extra)

unfoldable pub is_release : Version → Bool
unfolding is_pre_release
is_release v = not (is_pre_release v)

-- std::vector::resize: new elements are zero.
abbrev pub resize : List ℤ → ℕ → List ℤ
resize xs zero = []
resize [] (suc n) = pos 0 ∷ resize [] n
resize (x ∷ xs) (suc n) = x ∷ resize xs n

unfoldable pub resized : Version → ℕ → Version
resized v n = record v { numbers = resize v.numbers n }

-- Version::cmp: both versions are brought to the longer one's level, then f compares them.
unfoldable pub cmp : Version → Version → (Version → Version → Bool) → Bool
unfolding resized
cmp v w f =
    if level v == level w
    then f v w
    else let sz = max (level v) (level w) in f (resized v sz) (resized w sz)

-- Comparison of std::tie(numbers, extra): the second component decides where the first is equal.
unfoldable pub tie_lt : Version → Version → Bool
unfolding extra_lt
tie_lt v w =
    if list_lt v.numbers w.numbers
    then true
    else if list_lt w.numbers v.numbers
    then false
    else extra_lt v.extra w.extra

unfoldable pub tie_beq : Version → Version → Bool
unfolding extra_beq
tie_beq v w = list_beq v.numbers w.numbers && extra_beq v.extra w.extra

unfoldable pub lt : Version → Version → Bool
unfolding cmp tie_lt
lt v w = cmp v w tie_lt

unfoldable pub gt : Version → Version → Bool
unfolding cmp tie_lt
gt v w = cmp v w (λ a b. tie_lt b a)

unfoldable pub le : Version → Version → Bool
unfolding cmp tie_lt
le v w = cmp v w (λ a b. not (tie_lt b a))

unfoldable pub ge : Version → Version → Bool
unfolding cmp tie_lt
ge v w = cmp v w (λ a b. not (tie_lt a b))

unfoldable pub eq : Version → Version → Bool
unfolding cmp tie_beq
eq v w = cmp v w tie_beq

-- setFirstVersion: at least three numbers, and not all of them zero.
last_one : List ℤ → List ℤ
last_one [] = []
last_one (n ∷ []) = pos 1 ∷ []
last_one (n ∷ m ∷ ns) = n ∷ last_one (m ∷ ns)

unfoldable pub set_first_version : Version → Version
unfolding last_one
set_first_version v =
    let ns = if ltb (level v) default_level then resize v.numbers default_level else v.numbers in
    record v { numbers = if all (λ n. n ==ℤ pos 0) ns then last_one ns else ns }

unfoldable pub check_validity : Version → Outcome (Unit {0})
check_validity v =
    if any (λ n. ltb_ℤ n (pos 0)) v.numbers
    then throw negative_number
    else if all (λ n. n ==ℤ pos 0) v.numbers
    then throw zero_version
    else ok tt
