-- ===== src/Patch/Numbers.antt =====
-- The regular expression reads the numbers of a header back.
use primitives.Prelude.{
  ℕ, ◌<◌, ◌^◌, ◌≡◌, ◌≢◌, refl, ap, ◌∙◌, true, false, [], ◌∷◌, ◌++◌, append_assoc, append-nil, some,
  arith, Bytes, codes, ◌==◌, ok,
}
use primitives.Prelude.Decimal.{
  is_digit, decimal, IsDigits, decimal-IsDigits, digit_value-decimal, decimal-ne-nil,
}
use mathlib.Core.List.{cons-ne-nil}
use primitives.Patch.Header.{literal, digit_run, hunk_numbers, stoi}
use primitives.Patch.Script.{header}

literal-append : (p s : Bytes) → literal p (p ++ s) ≡ some s
unfolding literal
literal-append [] s = refl
literal-append (c ∷ p) s =
    let e : (c == c) ≡ true = ground arith in rw (e, literal) (literal-append p s)

digit_run_lem :
    (found ds : Bytes) (c : ℕ) (s : Bytes)
    → IsDigits ds
    → is_digit c ≡ false
    → found ++ ds ≢ []
    → digit_run found (ds ++ c ∷ s) ≡ some (found ++ ds, c ∷ s)
unfolding digit_run
digit_run_lem [] [] c s h e ne = absurd (ne refl)
digit_run_lem (d ∷ found) [] c s h e ne = rw (digit_run, e, append-nil found) refl
digit_run_lem [] (d ∷ ds) c s (k, h) e ne =
    rw (k, digit_run) (digit_run_lem (d ∷ []) ds c s h e (cons-ne-nil _ _))
digit_run_lem (x ∷ found) (d ∷ ds) c s (k, h) e ne =
    rw (k, digit_run)
      (digit_run_lem (x ∷ (found ++ d ∷ [])) ds c s h e (cons-ne-nil _ _)
        ∙ ap (λ t. some (x ∷ t, c ∷ s)) (append_assoc found (d ∷ []) ds))

digit_run-decimal :
    (n c : ℕ) (s : Bytes)
    → is_digit c ≡ false
    → digit_run [] (decimal n ++ c ∷ s) ≡ some (decimal n, c ∷ s)
digit_run-decimal n c s e =
    digit_run_lem [] (decimal n) c s (decimal-IsDigits n) e (decimal-ne-nil n)

pub hunk_numbers-header :
    (ol os nl ns : ℕ)
    → hunk_numbers (header ol os nl ns) ≡ some (decimal ol, decimal os, decimal nl, decimal ns)
unfolding hunk_numbers header literal
hunk_numbers-header ol os nl ns =
    let s₄ = decimal ns ++ codes " @@" in
    let s₃ = decimal nl ++ b',' ∷ s₄ in
    let s₂ = decimal os ++ b' ' ∷ b'+' ∷ s₃ in
    rw
      (
        hunk_numbers,
        digit_run-decimal ol b',' s₂ refl,
        digit_run-decimal os b' ' (b'+' ∷ s₃) refl,
        digit_run-decimal nl b',' s₄ refl,
        digit_run-decimal ns b' ' (codes "@@") refl,
      )
      refl

pub stoi-decimal : (n : ℕ) → n < 2 ^ 31 → stoi (decimal n) ≡ ok n
unfolding stoi
stoi-decimal n h = rw digit_value-decimal (ground arith)
