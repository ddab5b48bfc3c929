-- ===== src/Patch/Fuel.antt =====
-- patch of src/patch/src/patch.cpp ends: the lines of the diff are steps enough for the loop of
-- patch_file, as each leaves fewer of them.
use primitives.Prelude.{
  ◌≢◌, out_of_steps, ℕ, ◌≤◌, true, false, List, [], ◌∷◌, Bytes, codes, length, Outcome, ok, throw,
  undefined,
}
use primitives.Prelude.Ord.{list_beq, nat_ord}
use primitives.Patch.{Result, success, failure, Progress}

-- What ends does so by the code: it returns, throws or has undefined behaviour.
abbrev pub Ends {ℓ} : {A : Type ℓ} → Outcome A → Type 0
Ends (ok a) = Unit
Ends (throw e) = e ≢ out_of_steps
Ends undefined = Unit

-- A success leaves at most n lines of the diff, and what throws is the code.
abbrev AtMost : ℕ → Outcome (Result Progress) → Type 0
AtMost n (ok (success p)) = length p.diff ≤ n
AtMost n (ok (failure why)) = Unit
AtMost n (throw e) = e ≢ out_of_steps
AtMost n undefined = Unit

-- The next line of the text, compared with a line of the diff.
abbrev compared :
    List Bytes
    → Bytes
    → (Bytes → List Bytes → Outcome (Result Progress))
    → Outcome (Result Progress)
compared old text next = elim old [
  | [] ↦ undefined
  | o ∷ rest ↦ elim (list_beq o text) [
    | true ↦ next o rest
    | false ↦ ok (failure (codes "context lines do not match"))
  ]
]
