-- ===== src/Prelude/Decimal.antt =====
-- std::to_string and std::stoll on an int64_t, as the language documents them.
use primitives.Prelude.{
  ℕ, zero, suc, ◌+◌, ◌-◌, ◌*◌, ◌/◌, ◌%◌, ◌≤◌, ◌<◌, ◌≡◌, ◌≢◌, Bool, true, false, ◌&&◌, [], ◌∷◌,
  arith, Bytes, leb, ◌==◌, All, Outcome, ok, throw, out_of_range, if◌then◌else◌,
}
use primitives.Prelude.Int.{ℤ, pos, negsuc, max_int64}

abbrev pub is_digit : ℕ → Bool
is_digit c = leb b'0' c && leb c b'9'

-- The digits of n before `out`; the fuel is above n.
digits : ℕ → ℕ → Bytes → Bytes
digits zero n out = out
digits (suc f) n out =
    let d = b'0' + n % 10 in
    elim (n / 10 == 0) [ true ↦ d ∷ out | false ↦ digits f (n / 10) (d ∷ out) ]

unfoldable pub decimal : ℕ → Bytes
unfolding digits
decimal n = digits (suc n) n []

-- std::to_string.
unfoldable pub to_string : ℤ → Bytes
unfolding decimal
to_string (pos n) = decimal n
to_string (negsuc n) = b'-' ∷ decimal (suc n)

-- The number that digits spell behind n.
abbrev pub digit_value : ℕ → Bytes → ℕ
digit_value n [] = n
digit_value n (c ∷ s) = digit_value (n * 10 + (c - b'0')) s

-- std::stoll on a text of digits.
unfoldable pub stoll : Bytes → Outcome ℤ
stoll s = if leb (digit_value 0 s) max_int64 then ok (pos (digit_value 0 s)) else throw out_of_range

abbrev pub IsDigits : Bytes → Type 0
IsDigits = All (λ c. is_digit c ≡ true)

digits-IsDigits : (f n : ℕ) (out : Bytes) → IsDigits out → IsDigits (digits f n out)
unfolding digits
digits-IsDigits zero n out h = h
digits-IsDigits (suc f) n out h =
    let d : is_digit (b'0' + n % 10) ≡ true = ground arith in
    elim (n / 10 == 0)
      as (λ b. IsDigits (elim b [
        | true ↦ (b'0' + n % 10) ∷ out
        | false ↦ digits f (n / 10) ((b'0' + n % 10) ∷ out)
      ])) [ true ↦ (d, h) | false ↦ digits-IsDigits f (n / 10) ((b'0' + n % 10) ∷ out) (d, h) ]

digit_value-digits :
    (f n : ℕ) (out : Bytes) → n < f → digit_value 0 (digits f n out) ≡ digit_value n out
unfolding digits
digit_value-digits zero n out h = absurd (omega arith)
digit_value-digits (suc f) n out h =
    ground (arith, digit_value-digits f (n / 10) ((b'0' + n % 10) ∷ out))

digits-ne-nil : (f n : ℕ) (out : Bytes) → out ≢ [] → digits f n out ≢ []
unfolding digits
digits-ne-nil zero n out h = h
digits-ne-nil (suc f) n out h = ground (arith, digits-ne-nil f (n / 10) ((b'0' + n % 10) ∷ out))

pub decimal-IsDigits : (n : ℕ) → IsDigits (decimal n)
unfolding decimal
decimal-IsDigits n = digits-IsDigits (suc n) n [] tt

pub digit_value-decimal : (n : ℕ) → digit_value 0 (decimal n) ≡ n
unfolding decimal
digit_value-decimal n = digit_value-digits (suc n) n [] (omega arith)

pub decimal-ne-nil : (n : ℕ) → decimal n ≢ []
unfolding decimal digits
decimal-ne-nil n = ground (arith, digits-ne-nil n (n / 10) ((b'0' + n % 10) ∷ []))

pub stoll-decimal : (n : ℕ) → n ≤ max_int64 → stoll (decimal n) ≡ ok (pos n)
unfolding stoll
stoll-decimal n h = rw digit_value-decimal (ground arith)
