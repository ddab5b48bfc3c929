-- ===== src/Version/Format/Letters.antt =====
-- The letters for a number are its place among the words, shorter words first.
use primitives.Prelude.{
  All, All-append, All-reverse, true, throw, ℕ, zero, suc, ◌+◌, ◌-◌, ◌*◌, ◌/◌, ◌%◌, ◌^◌, ◌<◌, ◌≤◌,
  ◌≡◌, refl, sym, ap, ◌∙◌, false, [], ◌∷◌, ◌++◌, reverse, Bytes, length, length-append,
  length-reverse, length-replicate, replicate, leb, ltb, if◌then◌else◌, Outcome, ok, undefined,
  ◌>>=◌, arith, Bool-cases, inl, inr,
}
use native.Mathlib.Nat.{pow-suc}
use mathlib.Core.List.{reverse-append}
use primitives.Prelude.Int.{pos, max_int64}
use primitives.Version.Format.{letters, word_length, word_letters, latin}

-- The number that a word stands for in base 26, `base` being the letter for 0.
abbrev pub word_value : ℕ → ℕ → Bytes → ℕ
word_value base acc [] = acc
word_value base acc (c ∷ s) = word_value base (acc * letters + (c - base)) s

-- How many words are shorter than c letters, the empty one left out.
abbrev pub shorter : ℕ → ℕ
shorter zero = 0
shorter (suc zero) = 0
shorter (suc (suc c)) = shorter (suc c) + letters ^ suc c

word_length_lem :
    (f n p c m d : ℕ)
    → p ≡ letters ^ suc c
    → word_length f n p (suc c) ≡ ok (m, d)
    → (n + shorter (suc c) ≡ m + shorter d) × (m < letters ^ d) × (0 < d)
unfolding word_length
word_length_lem zero n p c m d h e = cc
word_length_lem (suc f) n p c m d h e = elim (Bool-cases (leb p n)) [
  | inl b ↦ elim (Bool-cases (leb (p * letters) max_int64)) [
    | inl b' ↦
        let step : p * letters ≡ letters ^ suc (suc c) = rw h (sym (pow-suc letters (suc c))) in
        let r : word_length f (n - p) (p * letters) (suc (suc c)) ≡ ok (m, d) =
          rw (b, b', word_length) at e in
        let (total, low, some_letter) =
          word_length_lem f (n - p) (p * letters) (suc c) m d step r in
        (ground arith, low, some_letter)
    | inr b' ↦ absurd (stopped (rw (b, b', word_length) at e))
  ]
  | inr b ↦
      let (m_eq, d_eq) = same n (suc c) (rw (b, word_length) at e) in
      (ground arith, rw (← m_eq, ← d_eq, ← h) (ground arith), omega arith)
]
  where
    stopped : ◌≡◌ {A = Outcome (ℕ × ℕ)} undefined (ok (m, d)) → ⊥
    stopped e = cc

    same : (n' c' : ℕ) → ◌≡◌ {A = Outcome (ℕ × ℕ)} (ok (n', c')) (ok (m, d)) → (n' ≡ m) × (c' ≡ d)
    same n' c' e = (ground arith, ground arith)

-- One of the 26 letters from base on.
abbrev pub IsLetter : ℕ → ℕ → Type 0
IsLetter base c = (base ≤ c) × (c < base + letters)

word_letters-IsLetter : (f n base : ℕ) → n ≤ f → All (IsLetter base) (word_letters f n base)
unfolding word_letters
word_letters-IsLetter zero n base h = ((omega arith, omega arith), tt)
word_letters-IsLetter (suc f) n base h = elim (Bool-cases (leb letters n)) [
  | inl b ↦
      rw (b, word_letters)
        ((omega arith, omega arith), word_letters-IsLetter f (n / letters) base (ground arith))
  | inr b ↦ rw (b, word_letters) ((omega arith, ground arith), tt)
]

replicate-IsLetter : (base k : ℕ) → All (IsLetter base) (replicate k base)
replicate-IsLetter base zero = tt
replicate-IsLetter base (suc k) = ((omega arith, omega arith), replicate-IsLetter base k)

word_value-append :
    (base acc : ℕ) (s : Bytes) (c : ℕ)
    → word_value base acc (s ++ c ∷ []) ≡ word_value base acc s * letters + (c - base)
word_value-append base acc [] c = refl
word_value-append base acc (d ∷ s) c = word_value-append base (acc * letters + (d - base)) s c

word_value-letters :
    (f n base : ℕ) → n ≤ f → word_value base 0 (reverse (word_letters f n base)) ≡ n
unfolding word_letters
word_value-letters zero n base h = omega arith
word_value-letters (suc f) n base h = elim (Bool-cases (leb letters n)) [
  | inl b ↦
      rw (b, word_letters)
        (rw
          (
            reverse-append ((n % letters + base) ∷ []) (word_letters f (n / letters) base),
            word_value-append,
            word_value-letters f (n / letters) base (ground arith),
          )
          (omega arith))
  | inr b ↦ rw (b, word_letters) (omega arith)
]

word_value-replicate :
    (base k : ℕ) (s : Bytes) → word_value base 0 (replicate k base ++ s) ≡ word_value base 0 s
word_value-replicate base zero s = refl
word_value-replicate base (suc k) s =
    let e : 0 * letters + (base - base) ≡ 0 = omega arith in
    ap (λ acc. word_value base acc (replicate k base ++ s)) e ∙ word_value-replicate base k s

length-word_letters :
    (f n base d : ℕ) → n < letters ^ suc d → length (word_letters f n base) ≤ suc d
unfolding word_letters
length-word_letters zero n base d h = omega arith
length-word_letters (suc f) n base zero h =
    let e : leb letters n ≡ false = ground arith in rw (e, word_letters) (omega arith)
length-word_letters (suc f) n base (suc d) h = elim (Bool-cases (leb letters n)) [
  | inl b ↦
      let small : n < letters ^ suc d * letters = rw pow-suc at h in
      rw (b, word_letters) (omega (arith, length-word_letters f (n / letters) base d (omega arith)))
  | inr b ↦ rw (b, word_letters) (omega arith)
]

module _ (m base : ℕ) where
  -- The word of the second loop, with the letters for 0 in front up to the length.
  abbrev word : ℕ → Bytes
  word c =
      let s = reverse (word_letters m m base) in
      if ltb (length s) c then replicate (c - length s) base ++ s else s

  padded :
      (c : ℕ) → m < letters ^ c → 0 < c → (length (word c) ≡ c) × (word_value base 0 (word c) ≡ m)
  padded zero h p = absurd (omega arith)
  padded (suc d) h p =
      let s = reverse (word_letters m m base) in
      let fits : length s ≤ suc d =
        omega (arith, length-word_letters m m base d h, length-reverse (word_letters m m base)) in
      elim (Bool-cases (ltb (length s) (suc d))) [
        | inl b ↦ rw b (
          rw length-append (omega (arith, length-replicate (suc d - length s) base)),
          word_value-replicate base (suc d - length s) s
              ∙ word_value-letters m m base (omega arith),
        )
        | inr b ↦ rw b (ground arith, word_value-letters m m base (omega arith))
      ]

  word-IsLetter : (c : ℕ) → All (IsLetter base) (word c)
  word-IsLetter c =
      let s = reverse (word_letters m m base) in
      let all =
        All-reverse (IsLetter base) (word_letters m m base)
          (word_letters-IsLetter m m base (omega arith)) in
      elim (Bool-cases (ltb (length s) c)) [
        | inl b ↦ rw b (
            All-append (IsLetter base) (replicate (c - length s) base) s
              (replicate-IsLetter base (c - length s)) all)
        | inr b ↦ rw b all
      ]

same_word : {s t : Bytes} → ok s ≡ ok t → s ≡ t
same_word e = cc

-- What a word of latin stands for: the shorter words come first, then it counts in base 26.
latin-word :
    (n base : ℕ) (s : Bytes)
    → latin (pos n) base ≡ ok s
    → All (IsLetter base) s × (0 < length s) × (n ≡ shorter (length s) + word_value base 0 s)
unfolding latin
latin-word n base s e = go (word_length 15 n letters 1) refl e
  where
    go :
        (r : Outcome (ℕ × ℕ))
        → word_length 15 n letters 1 ≡ r
        → (r >>= λ q. ok (word q.0 base q.1)) ≡ ok s
        → All (IsLetter base) s × (0 < length s) × (n ≡ shorter (length s) + word_value base 0 s)
    go (ok (m, c)) h k =
        let (total, low, some_letter) = word_length_lem 15 n letters 0 m c refl h in
        let (len, val) = padded m base c low some_letter in
        let w : word m base c ≡ s = same_word k in
        rw (← w) (word-IsLetter m base c, omega arith, rw (len, val) (omega arith))
    go (throw x) h k = cc
    go undefined h k = cc

-- How far the loop counts in f steps from p on.
abbrev room : ℕ → ℕ → ℕ
room zero p = p
room (suc f) p = room f (p * letters)

room_grows : (f p : ℕ) → p ≤ room f p
room_grows zero p = omega arith
room_grows (suc f) p = let h = room_grows f (p * letters) in omega arith

-- Enough fuel, and no overflow, up to there.
word_length-returns :
    (g f n p c : ℕ)
    → f < g
    → n < room f p
    → room f p ≤ max_int64
    → (q : ℕ × ℕ) × (word_length g n p c ≡ ok q)
unfolding word_length
word_length-returns zero f n p c h b o = absurd (omega arith)
word_length-returns (suc g) zero n p c h b o =
    let e : leb p n ≡ false = ground arith in ((n, c), rw (e, word_length) refl)
word_length-returns (suc g) (suc f) n p c h b o = elim (Bool-cases (leb p n)) [
  | inr e ↦ ((n, c), rw (e, word_length) refl)
  | inl e ↦
      let fits : leb (p * letters) max_int64 ≡ true = ground (arith, room_grows f (p * letters)) in
      let (q, r) =
        word_length-returns g f (n - p) (p * letters) (suc c) (omega arith) (omega arith) o in
      (q, rw (e, word_length, fits) r)
]

-- Up to 26 ^ 13, a number has a word of the 26 letters from the given one on, not empty: the number is
-- its place among the words, those of fewer letters first, and then by their value in base 26.
pub latin_lem :
    (n base : ℕ)
    → n < 26 ^ 13
    → (s : Bytes) × (latin (pos n) base ≡ ok s)
      × All (IsLetter base) s
      × (0 < length s)
      × (n ≡ shorter (length s) + word_value base 0 s)
unfolding latin
latin_lem n base h =
    let ((m, c), r) =
      word_length-returns 15 12 n letters 1 (omega arith) (omega arith) (omega arith) in
    let s = reverse (word_letters m m base) in
    let w = if ltb (length s) c then replicate (c - length s) base ++ s else s in
    let e : latin (pos n) base ≡ ok w = rw r refl in
    let (are_letters, some_letter, place) = latin-word n base w e in
    (w, e, are_letters, some_letter, place)
