-- ===== src/Patch/Lines.antt =====
-- Texts as their lines, for the two texts that patch splits.
use primitives.Prelude.{
  ℕ, ◌-◌, ◌<◌, ◌≡◌, ◌≢◌, refl, ap, false, List, [], ◌∷◌, ◌++◌, append_assoc, arith, Bytes, codes,
  length, length-append, All, All-append, take, map, ◌==◌, if◌then◌else◌,
}
use primitives.Prelude.Decimal.{decimal, IsDigits, decimal-IsDigits}
use primitives.Patch.Header.{newline, carriage_return}
use primitives.Patch.{add_line, add_lines, without_returns, prepare_lines}
use primitives.Patch.Script.{
  Edit, keep, remove, insert, Hunk, removed, inserted, edit_lines, old_lines, new_lines, header,
  hunk_lines,
}

-- Lines with a line end between them.
abbrev pub join : List Bytes → Bytes
join [] = []
join (l ∷ []) = l
join (l ∷ k ∷ ls) = l ++ newline ∷ join (k ∷ ls)

-- A line has no line end, and no carriage return in front of one.
abbrev pub IsLine : Bytes → Type 0
IsLine l = All (λ c. c ≢ newline) l × (without_returns l ≡ l)

-- What boost::split is documented to do at line ends.
abbrev pub Splits : (Bytes → List Bytes) → Type 0
Splits split =
    (ls : List Bytes) → ls ≢ [] → All (λ l. All (λ c. c ≢ newline) l) ls → split (join ls) ≡ ls

no_newline : (ls : List Bytes) → All IsLine ls → All (λ l. All (λ c. c ≢ newline) l) ls
no_newline [] h = tt
no_newline (l ∷ ls) ((h, _), hs) = (h, no_newline ls hs)

map-without_returns : (ls : List Bytes) → All IsLine ls → map without_returns ls ≡ ls
map-without_returns [] h = refl
map-without_returns (l ∷ ls) ((_, e), hs) = rw e (ap (λ t. l ∷ t) (map-without_returns ls hs))

pub prepare_lines-join :
    (split : Bytes → List Bytes)
    → Splits split
    → (ls : List Bytes) → ls ≢ []
    → All IsLine ls
    → prepare_lines split (join ls) ≡ ls
unfolding prepare_lines
prepare_lines-join split h ls ne hs = rw (h ls ne (no_newline ls hs)) (map-without_returns ls hs)

-- Printable bytes are neither line ends nor carriage returns.
printable-IsLine : (s : Bytes) → All (λ c. 13 < c) s → IsLine s
unfolding without_returns
printable-IsLine [] h = (tt, refl)
printable-IsLine (c ∷ s) (k, h) =
    let (n, e) = printable-IsLine s h in
    let d : (c == carriage_return) ≡ false = ground arith in
    ((omega arith, n), rw (without_returns, d, e) refl)

digits_printable : (s : Bytes) → IsDigits s → All (λ c. 13 < c) s
digits_printable [] h = tt
digits_printable (c ∷ s) (k, h) = (ground arith, digits_printable s h)

number_printable : (n : ℕ) (s : Bytes) → All (λ c. 13 < c) s → All (λ c. 13 < c) (decimal n ++ s)
number_printable n s h =
    All-append (λ c. 13 < c) (decimal n) s (digits_printable (decimal n) (decimal-IsDigits n)) h

pub header-IsLine : (ol os nl ns : ℕ) → IsLine (header ol os nl ns)
unfolding header
header-IsLine ol os nl ns =
    let end = codes " @@" in
    let s₃ = decimal ns ++ end in
    let s₂ = decimal nl ++ b',' ∷ s₃ in
    let s₁ = decimal os ++ b' ' ∷ b'+' ∷ s₂ in
    printable-IsLine (header ol os nl ns) (
      omega arith,
      (
        omega arith,
        (
          omega arith,
          (
            omega arith,
            number_printable ol (b',' ∷ s₁) (
              omega arith,
              number_printable os (b' ' ∷ b'+' ∷ s₂) (
                omega arith,
                (
                  omega arith,
                  number_printable nl (b',' ∷ s₃) (
                    omega arith,
                    number_printable ns end (omega arith, (omega arith, (omega arith, tt))),
                  ),
                ),
              ),
            ),
          ),
        ),
      ),
    )

cons-IsLine : (c : ℕ) (l : Bytes) → 13 < c → IsLine l → IsLine (c ∷ l)
unfolding without_returns
cons-IsLine c l h (n, e) =
    let d : (c == carriage_return) ≡ false = ground arith in
    ((omega arith, n), rw (without_returns, d, e) refl)

edit_lines-IsLine :
    (es : List Edit)
    → All IsLine (removed es)
    → All IsLine (inserted es)
    → All IsLine (edit_lines es)
edit_lines-IsLine [] h k = tt
edit_lines-IsLine (keep l ∷ es) (hl, h) (kl, k) =
    (cons-IsLine b' ' l (omega arith) hl, edit_lines-IsLine es h k)
edit_lines-IsLine (remove l ∷ es) (hl, h) k =
    (cons-IsLine b'-' l (omega arith) hl, edit_lines-IsLine es h k)
edit_lines-IsLine (insert l ∷ es) h (kl, k) =
    (cons-IsLine b'+' l (omega arith) kl, edit_lines-IsLine es h k)

All-split : (xs ys : List Bytes) → All IsLine (xs ++ ys) → All IsLine xs × All IsLine ys
All-split [] ys h = (tt, h)
All-split (x ∷ xs) ys (k, h) = let (a, b) = All-split xs ys h in ((k, a), b)

pub hunk_lines-IsLine :
    (number : ℕ → ℕ → ℕ) (hs : List Hunk) (rest : List Bytes) (oi ni : ℕ)
    → All IsLine (old_lines hs rest)
    → All IsLine (new_lines hs rest)
    → All IsLine (hunk_lines number oi ni hs)
hunk_lines-IsLine number [] rest oi ni h k = tt
hunk_lines-IsLine number (u ∷ hs) rest oi ni h k =
    let (_, h₁) = All-split u.gap (removed u.edits ++ old_lines hs rest) h in
    let (h₂, h₃) = All-split (removed u.edits) (old_lines hs rest) h₁ in
    let (_, k₁) = All-split u.gap (inserted u.edits ++ new_lines hs rest) k in
    let (k₂, k₃) = All-split (inserted u.edits) (new_lines hs rest) k₁ in
    (
      header-IsLine _ _ _ _,
      All-append IsLine (edit_lines u.edits) _ (edit_lines-IsLine u.edits h₂ k₂)
          (hunk_lines-IsLine number hs rest _ _ h₃ k₃),
    )

take_front : (s t : Bytes) → take (length s) (s ++ t) ≡ s
take_front [] t = refl
take_front (c ∷ s) t = ap (λ u. c ∷ u) (take_front s t)

add_lines-join :
    (r l : Bytes) (ls : List Bytes) → add_lines r (l ∷ ls) ≡ r ++ (join (l ∷ ls) ++ newline ∷ [])
add_lines-join r l [] = refl
add_lines-join r l (k ∷ ls) = rw (add_lines-join (add_line r l) k ls) (simp append_assoc refl)

-- The end of patch: the last line end is cut off.
pub cut_last :
    (ls : List Bytes)
    → (let r = add_lines [] ls in if length r == 0 then r else take (length r - 1) r) ≡ join ls
cut_last [] = refl
cut_last (l ∷ ls) =
    let s = join (l ∷ ls) in
    let e = length-append s (newline ∷ []) in
    let some_text : (length (s ++ newline ∷ []) == 0) ≡ false = ground (arith, e) in
    let short : length (s ++ newline ∷ []) - 1 ≡ length s = omega (arith, e) in
    rw (add_lines-join [] l ls, some_text, short) (take_front s (newline ∷ []))
