-- ===== src/Version/Parse/RoundTrip.antt =====
-- What Version::toString prints, the constructor from a text reads back.
use mathlib.Core.List.{cons-ne-nil}
use primitives.Prelude.{
  ℕ, ◌≤◌, ◌≡◌, ◌≢◌, refl, sym, Bool, true, false, ◌&&◌, ◌||◌, List, [], ◌∷◌, ◌++◌, none, some,
  arith, Bytes, length, all, All, All-append, leb, ltb, ◌==◌, ok,
}
use primitives.Prelude.Int.{ℤ, pos, negsuc, max_int64}
use primitives.Prelude.Decimal.{
  is_digit, digit_value, stoll, to_string, decimal, decimal-IsDigits, decimal-ne-nil,
  digit_value-decimal, stoll-decimal,
}
use primitives.Version.{Version, Value, text, number, is_empty, no_extra}
use primitives.Version.Print.{print_value, print_extra, version_string}
use primitives.Version.Print.Spelling.{
  spelled, All-spelled, print_version-spelled, print_extra-spelled,
}
use primitives.Version.Parse.{
  is_alnum_, size_limit, parse_numbers, extra_value, parse_extra, cut_extra, extra_of_string,
  of_string,
}
use primitives.Version.Parse.Parts.{IsReadable, parts-spelled}

-- Numbers that an int64_t holds and that no sign is printed for.
abbrev pub IsNumber : ℤ → Type 0
IsNumber (pos n) = n ≤ max_int64
IsNumber (negsuc n) = ⊥

-- Parts of an extra that the machine gives back: not a text that reads as a number.
abbrev pub IsPart : Value → Type 0
IsPart (text s) =
    (s ≢ [])
    × All (λ c. is_alnum_ c ≡ true) s
    × ((all is_digit s && leb (digit_value 0 s) max_int64) ≡ false)
IsPart (number n) = IsNumber n

number-IsReadable : (n : ℤ) → IsNumber n → IsReadable is_digit stoll to_string n
unfolding to_string
number-IsReadable (pos n) h = record {
  within = decimal-IsDigits n;
  inhabited = decimal-ne-nil n;
  read_back = stoll-decimal n h;
}
number-IsReadable (negsuc n) h = absurd h

all_digits : (s : Bytes) → All (λ c. is_digit c ≡ true) s → all is_digit s ≡ true
all_digits [] h = refl
all_digits (c ∷ s) (e, h) = rw (e, all_digits s h)

digits-alnum : (s : Bytes) → All (λ c. is_digit c ≡ true) s → All (λ c. is_alnum_ c ≡ true) s
digits-alnum [] h = tt
digits-alnum (c ∷ s) (e, h) = (rw e refl, digits-alnum s h)

value-IsReadable : (e : Value) → IsPart e → IsReadable is_alnum_ extra_value print_value e
unfolding print_value to_string extra_value
value-IsReadable (text s) (ne, alnum, plain) = record {
  within = alnum;
  inhabited = ne;
  read_back = rw plain;
}
value-IsReadable (number (pos n)) h = record {
  within = digits-alnum (decimal n) (decimal-IsDigits n);
  inhabited = decimal-ne-nil n;
  read_back = rw (all_digits (decimal n) (decimal-IsDigits n), digit_value-decimal) (ground arith);
}
value-IsReadable (number (negsuc n)) h = absurd h

cut_extra-append : (p e : Bytes) → All (λ c. c ≢ b'-') p → cut_extra (p ++ (b'-' ∷ e)) ≡ (p, some e)
unfolding cut_extra
cut_extra-append [] e h = refl
cut_extra-append (c ∷ p) e (ne, h) = ground (arith, cut_extra-append p e h)

cut_extra-none : (p : Bytes) → All (λ c. c ≢ b'-') p → cut_extra p ≡ (p, none)
unfolding cut_extra
cut_extra-none [] h = refl
cut_extra-none (c ∷ p) (ne, h) = ground (arith, cut_extra-none p h)

-- What std::isspace holds of.
abbrev pub is_space : ℕ → Bool
is_space c = (leb 9 c && leb c 13) || (c == 32)

-- Neither a space nor the sign before the extra part.
abbrev IsPlain : ℕ → Type 0
IsPlain c = (is_space c ≡ false) × (c ≢ b'-')

All-map {ℓ} :
    {A : Type ℓ} {P Q : A → Type 0} (xs : List A) → ((a : A) → P a → Q a) → All P xs → All Q xs
All-map [] f h = tt
All-map (x ∷ xs) f (h, hs) = (f x h, All-map xs f hs)

alnum-IsPlain : (c : ℕ) → is_alnum_ c ≡ true → IsPlain c
alnum-IsPlain c h = ground arith

digit-IsPlain : (c : ℕ) → is_digit c ≡ true → IsPlain c
digit-IsPlain c h = ground arith

numbers-IsPlain : (ns : List ℤ) → All IsNumber ns → All IsPlain (spelled to_string ns)
numbers-IsPlain ns h =
    All-spelled to_string IsPlain ns (ground arith)
      (All-map ns (λ n k. All-map (to_string n) digit-IsPlain (number-IsReadable n k).within) h)

values-IsPlain : (es : List Value) → All IsPart es → All IsPlain (spelled print_value es)
values-IsPlain es h =
    All-spelled print_value IsPlain es (ground arith)
      (All-map es (λ e k. All-map (print_value e) alnum-IsPlain (value-IsReadable e k).within) h)

-- The round trip's conditions: a version with numbers, all printed without a sign, an extra part that
-- the machine gives back, and both parts within the size limit.
pub record IsPrintable (v : Version) : Type 0 where
  pub some_number : v.numbers ≢ []
  pub numbers_ok : All IsNumber v.numbers
  pub parts_ok : All IsPart v.extra.values
  pub numbers_fit : length (spelled to_string v.numbers) ≤ size_limit
  pub extra_fits : length (print_extra v.extra) ≤ size_limit

module _ (v : Version) (h : IsPrintable v) where
  numbers_back : parse_numbers (spelled to_string v.numbers) ≡ ok (some v.numbers)
  unfolding parse_numbers
  numbers_back =
      let small : ltb size_limit (length (spelled to_string v.numbers)) ≡ false =
        ground (arith, h.numbers_fit) in
      rw small (
        parts-spelled is_digit stoll to_string v.numbers h.some_number refl
          (All-map v.numbers number-IsReadable h.numbers_ok))

  extra_back :
      v.extra.values ≢ []
      → parse_extra (spelled print_value v.extra.values) ≡ ok (some v.extra.values)
  unfolding parse_extra
  extra_back ne =
      let fits = rw (print_extra-spelled v.extra) at h.extra_fits in
      let small : ltb size_limit (length (spelled print_value v.extra.values)) ≡ false =
        ground arith in
      rw small (
        parts-spelled is_alnum_ extra_value print_value v.extra.values ne refl
          (All-map v.extra.values value-IsReadable h.parts_ok))

append-ne-nil : (p s : Bytes) → p ≢ [] → p ++ s ≢ []
append-ne-nil [] s h = absurd (h refl)
append-ne-nil (c ∷ p) s h = cons-ne-nil c (p ++ s)

values-ne-nil :
    (e : Value) (es : List Value) → All IsPart (e ∷ es) → spelled print_value (e ∷ es) ≢ []
values-ne-nil e [] (h, hs) = (value-IsReadable e h).inhabited
values-ne-nil e (d ∷ es) (h, hs) = append-ne-nil (print_value e) _ (value-IsReadable e h).inhabited

version_string_release :
    (v : Version) → v.extra.values ≡ [] → version_string v ≡ spelled to_string v.numbers
unfolding version_string
version_string_release v e =
    let none_there : is_empty v.extra ≡ true = unfold is_empty in rw e refl in
    rw none_there (print_version-spelled v)

version_string_pre_release :
    (v : Version) (x : Value) (xs : List Value)
    → v.extra.values ≡ x ∷ xs
    → version_string v ≡ spelled to_string v.numbers ++ (b'-' ∷ spelled print_value v.extra.values)
unfolding version_string
version_string_pre_release v x xs e =
    let there : is_empty v.extra ≡ false = unfold is_empty in rw e refl in
    rw (there, print_version-spelled v, print_extra-spelled)

module _ (strip : Bytes → Bytes)
    (strip_plain : (s : Bytes) → All (λ c. is_space c ≡ false) s → strip s ≡ s) where
  strip_IsPlain : (s : Bytes) → All IsPlain s → strip s ≡ s
  strip_IsPlain s h = strip_plain s (All-map s (λ c k. k.0) h)

  extra_of_string-ne_nil :
      (s : Bytes) (vs : List Value)
      → s ≢ []
      → parse_extra (strip s) ≡ ok (some vs)
      → extra_of_string strip s ≡ ok (record { values = vs })
  unfolding extra_of_string
  extra_of_string-ne_nil [] vs ne h = absurd (ne refl)
  extra_of_string-ne_nil (c ∷ s) vs ne h = rw h

  module _ (v : Version) (h : IsPrintable v) where
    release_back : v.extra.values ≡ [] → of_string strip (version_string v) ≡ ok v
    unfolding of_string no_extra
    release_back e =
        let plain = numbers-IsPlain v.numbers h.numbers_ok in
        let s : version_string v ≡ spelled to_string v.numbers = version_string_release v e in
        rw (s, strip_IsPlain _ plain, cut_extra-none _ (All-map _ (λ c k. k.1) plain))
          (rw (numbers_back v h)
            (λ i. ok (record { numbers = v.numbers; extra = record { values = sym e i } })))

    pre_release_back :
        (x : Value) (xs : List Value)
        → v.extra.values ≡ x ∷ xs
        → of_string strip (version_string v) ≡ ok v
    unfolding of_string
    pre_release_back x xs e =
        let plain = numbers-IsPlain v.numbers h.numbers_ok in
        let extra_plain = values-IsPlain v.extra.values h.parts_ok in
        let ne : v.extra.values ≢ [] = rw e (cons-ne-nil x xs) in
        let es_ne : spelled print_value v.extra.values ≢ [] =
          rw e (values-ne-nil x xs (rw e at h.parts_ok)) in
        let whole_plain =
          All-append (λ c. is_space c ≡ false) (spelled to_string v.numbers)
            (b'-' ∷ spelled print_value v.extra.values)
            (All-map (spelled to_string v.numbers) (λ c k. k.0) plain)
            (refl, All-map (spelled print_value v.extra.values) (λ c k. k.0) extra_plain) in
        let extra_read =
          extra_of_string-ne_nil (spelled print_value v.extra.values) v.extra.values es_ne (
            rw (strip_IsPlain (spelled print_value v.extra.values) extra_plain)
              (extra_back v h ne)) in
        rw
          (
            version_string_pre_release v x xs e,
            strip_plain _ whole_plain,
            cut_extra-append (spelled to_string v.numbers) (spelled print_value v.extra.values)
                (All-map (spelled to_string v.numbers) (λ c k. k.1) plain),
          )
          (rw extra_read (rw (numbers_back v h)))

  -- A printable version is read back from what toString prints, number for number (the zeros at the end
  -- included) and extra part for extra part, if stripping a text without spaces changes nothing.
  pub of_string-version_string :
      (v : Version) → IsPrintable v → of_string strip (version_string v) ≡ ok v
  of_string-version_string v h = go v.extra.values refl
    where
      go : (vs : List Value) → v.extra.values ≡ vs → of_string strip (version_string v) ≡ ok v
      go [] e = release_back v h e
      go (x ∷ xs) e = pre_release_back v h x xs e
