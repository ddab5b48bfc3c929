-- ===== src/Patch.antt =====
-- Applying a unified diff: patch, patch_file and patch_hunk (src/patch/src/patch.cpp). An iterator
-- over the diff is its lines from there on; `old` are the lines of the text from old index on.
pub mod Header
pub mod Script
pub mod Hunks
pub mod Numbers
pub mod Lines
pub mod RoundTrip
pub mod Whole
mod Unified
pub mod Fuel
mod Examples
use primitives.Patch.Header.{newline, carriage_return, literal, hunk_numbers, stoi}
use primitives.Prelude.{
  take, length, zero, suc, ◌>>=◌, Outcome, out_of_range, out_of_steps, throw, ◌-◌, ◌^◌, leb,
  if◌then◌else◌, map, ltb, not, all, Bool, ℕ, suc, true, false, ◌&&◌, ◌||◌, List, [], ◌∷◌, ◌++◌,
  Option, none, some, Bytes, codes, ◌==◌, Outcome, ok, undefined,
}
use primitives.Prelude.Int.{ℤ, pos, negsuc, ◌+ℤ◌, ◌==ℤ◌, ltb_ℤ}
use primitives.Prelude.Decimal.{is_digit, digit_value, to_string}
use primitives.Prelude.Ord.{list_beq, nat_ord}

-- std::pair<bool, String>: what came out, or why it did not.
pub data Result (A : Type 0) : Type 0 where
  success : A → Result A
  failure : Bytes → Result A

-- What patch_hunk changes: the diff from i on, the text from oi on, oi, ni and the output r.
pub record Progress : Type 0 where
  pub diff : List Bytes
  pub old : List Bytes
  pub oi : ℕ
  pub ni : ℕ
  pub r : Bytes

-- add_line, but for the count.
abbrev pub add_line : Bytes → Bytes → Bytes
add_line r s = r ++ (s ++ newline ∷ [])

unfoldable pub bad_symbol : ℕ → ℤ → ℤ → Bytes
bad_symbol c os ns =
    codes "bad symbol "
    ++ (c ∷ (codes ", os = " ++ (to_string os ++ (codes ", ns = " ++ to_string ns))))

-- patch_hunk, with the output so far in front.
unfoldable pub patch_hunk :
    List Bytes → List Bytes → ℕ → ℕ → Bytes → ℤ → ℤ → Outcome (Result Progress)
patch_hunk [] old oi ni r os ns = elim (os ==ℤ pos 0 && ns ==ℤ pos 0) [
  | true ↦ ok (success (record { diff = []; old = old; oi = oi; ni = ni; r = r }))
  | false ↦ ok (failure (codes "bad hunk info"))
]
patch_hunk ([] ∷ diff) old oi ni r os ns = patch_hunk diff old oi ni r os ns
patch_hunk ((c ∷ text) ∷ diff) old oi ni r os ns = elim (os ==ℤ pos 0 && ns ==ℤ pos 0) [
  | true ↦ ok (success (record { diff = (c ∷ text) ∷ diff; old = old; oi = oi; ni = ni; r = r }))
  | false ↦ elim (ltb_ℤ os (pos 0) || ltb_ℤ ns (pos 0)) [
    | true ↦ ok (failure (codes "bad hunk info"))
    | false ↦ elim (c == b' ') [
      | true ↦ elim old [
        | [] ↦ undefined
        | o ∷ rest ↦ elim (list_beq o text) [
          | true ↦
              patch_hunk diff rest (suc oi) (suc ni) (add_line r o) (os +ℤ negsuc 0)
                (ns +ℤ negsuc 0)
          | false ↦ ok (failure (codes "context lines do not match"))
        ]
      ]
      | false ↦ elim (c == b'+') [
        | true ↦ patch_hunk diff old oi (suc ni) (add_line r text) os (ns +ℤ negsuc 0)
        | false ↦ elim (c == b'-') [
          | true ↦ elim old [
            | [] ↦ undefined
            | o ∷ rest ↦ elim (list_beq o text) [
              | true ↦ patch_hunk diff rest (suc oi) ni r (os +ℤ negsuc 0) ns
              | false ↦ ok (failure (codes "context lines do not match"))
            ]
          ]
          | false ↦ ok (failure (bad_symbol c os ns))
        ]
      ]
    ]
  ]
]

-- The loop that copies the lines up to the hunk: to ol as a size_t.
unfoldable pub copy_lines : ℕ → List Bytes → ℕ → ℕ → Bytes → Outcome Progress
copy_lines ol [] oi ni r = elim (ltb oi ol) [
  | true ↦ undefined
  | false ↦ ok (record { diff = []; old = []; oi = oi; ni = ni; r = r })
]
copy_lines ol (o ∷ old) oi ni r = elim (ltb oi ol) [
  | true ↦ copy_lines ol old (suc oi) (suc ni) (add_line r o)
  | false ↦ ok (record { diff = []; old = o ∷ old; oi = oi; ni = ni; r = r })
]

-- (size_t)(l - 1) for an int l that is not negative.
abbrev pub index : ℕ → ℕ
index zero = 2 ^ 64 - 1
index (suc l) = l

-- The case '@' of patch_file, with the diff behind the header.
unfoldable pub patch_header :
    Bytes → List Bytes → List Bytes → ℕ → ℕ → Bytes → Outcome (Result Progress)
patch_header l diff old oi ni r = elim (hunk_numbers l) [
  | none ↦ ok (failure (codes "bad hunk description"))
  | some (m1, m2, m3, m4) ↦ do
    ol ← stoi m1
    os ← stoi m2
    nl ← stoi m3
    ns ← stoi m4
    p ← copy_lines (index ol) old oi ni r
    elim (suc p.ni == nl) [
      | false ↦ ok (failure (codes "nl is wrong: " ++ to_string (pos nl)))
      | true ↦ do
        q ← patch_hunk diff p.old p.oi p.ni [] (pos os) (pos ns)
        elim q [
          | failure why ↦
              ok (failure (codes "bad hunk " ++ (to_string (pos nl) ++ (codes ": " ++ why))))
          | success h ↦ ok (success (record h { r = p.r ++ h.r }))
        ]
    ]
]

-- patch_file; `git` is options & PatchOption::Git. The fuel bounds the lines of the diff.
unfoldable pub patch_file :
    ℕ → Bool → List Bytes → List Bytes → ℕ → ℕ → Bytes → Outcome (Result Progress)
patch_file zero git diff old oi ni r = throw out_of_steps
patch_file (suc f) git [] old oi ni r =
    ok (success (record { diff = []; old = old; oi = oi; ni = ni; r = r }))
patch_file (suc f) git ([] ∷ diff) old oi ni r = patch_file f git diff old oi ni r
patch_file (suc f) git ((c ∷ text) ∷ diff) old oi ni r = elim (c == b'+') [
  | true ↦ elim (literal (codes "++") text) [
    | some _ ↦ patch_file f git diff old oi ni r
    | none ↦ ok (failure (codes "+ is out of hunk"))
  ]
  | false ↦ elim (c == b'-') [
    | true ↦ elim (literal (codes "--") text) [
      | some _ ↦ patch_file f git diff old oi ni r
      | none ↦ ok (failure (codes "- is out of hunk"))
    ]
    | false ↦ elim (c == b'@') [
      | true ↦ do
        p ← patch_header (c ∷ text) diff old oi ni r
        elim p [
          | failure why ↦ ok (failure why)
          | success h ↦ patch_file f git h.diff h.old h.oi h.ni h.r
        ]
      | false ↦ elim ((c == b'd' || c == b'i') && git) [
        | true ↦
            ok (success (record { diff = (c ∷ text) ∷ diff; old = old; oi = oi; ni = ni; r = r }))
        | false ↦ ok (failure (codes "unknown action"))
      ]
    ]
  ]
]

-- The loop of prepare_lines: the carriage returns at a line's end.
unfoldable pub without_returns : Bytes → Bytes
without_returns [] = []
without_returns (c ∷ s) =
    let rest = without_returns s in
    if c == carriage_return && (elim rest [ [] ↦ true | d ∷ t ↦ false ]) then [] else c ∷ rest

-- The rest of the text.
abbrev pub add_lines : Bytes → List Bytes → Bytes
add_lines r [] = r
add_lines r (l ∷ ls) = add_lines (add_line r l) ls

-- boost::split at line ends is a parameter.
module _ (split : Bytes → List Bytes) where
  unfoldable pub prepare_lines : Bytes → List Bytes
  prepare_lines s = map without_returns (split s)

  unfoldable pub patch : Bytes → Bytes → Bool → Outcome (Result Bytes)
  patch text unidiff git = do
    let diff = prepare_lines unidiff
    p ← patch_file (suc (length diff)) git diff (prepare_lines text) 0 0 []
    elim p [
      | failure why ↦ ok (failure (codes "bad file: " ++ why))
      | success h ↦ do
        let r = add_lines h.r h.old
        ok (success (if length r == 0 then r else take (length r - 1) r))
    ]
