-- ===== src/Argument/Lists.antt =====
-- The lists of arguments: in which order they are put together, and what erase leaves.
use primitives.Prelude.{
  ℕ, suc, ◌+◌, ◌≡◌, ◌≢◌, refl, sym, ap, ◌∙◌, true, false, List, [], ◌∷◌, ◌++◌, append_assoc,
  append-nil, reverse, map, arith, Bytes, length, All, Bool-cases, inl, inr, if◌then◌else◌,
}
use mathlib.Core.List.{reverse-append}
use primitives.Prelude.Ord.{list_beq, list_beq_iff, nat_ord}
use primitives.Argument.{
  Argument, simple_argument, positional, text_of, clone, Arguments, push_back_one, push_back_string,
  push_back_all, push_back_strings, of_strings, assign, push_front, push_front_all, erase_from,
  erase,
}

clone_lem : (a : Argument) → clone a ≡ a
unfolding clone
clone_lem (simple_argument a o) = refl
clone_lem (positional a o p) = refl

push_back_all_lem : (args args2 : Arguments) → push_back_all args args2 ≡ args ++ args2
unfolding push_back_all push_back_one
push_back_all_lem args [] = sym (append-nil args)
push_back_all_lem args (a ∷ args2) =
    rw (clone_lem a) (push_back_all_lem (args ++ a ∷ []) args2 ∙ append_assoc args (a ∷ []) args2)

push_front_all_lem : (args args2 : Arguments) → push_front_all args args2 ≡ reverse args2 ++ args
unfolding push_front_all push_front
push_front_all_lem args [] = refl
push_front_all_lem args (a ∷ args2) =
    rw (clone_lem a, reverse-append (a ∷ []) args2)
      (push_front_all_lem (a ∷ args) args2 ∙ sym (append_assoc (reverse args2) (a ∷ []) args))

push_back_strings_lem :
    (args : Arguments) (l : List Bytes)
    → push_back_strings args l ≡ args ++ map (λ s. simple_argument s true) l
unfolding push_back_strings push_back_string push_back_one
push_back_strings_lem args [] = sym (append-nil args)
push_back_strings_lem args (s ∷ l) =
    push_back_strings_lem (args ++ simple_argument s true ∷ []) l
    ∙ append_assoc args (simple_argument s true ∷ []) _

-- Arguments put behind others, or assigned, keep their order; arguments put in front of others are
-- turned round, since each goes to the front in its turn.
pub pushed_orders :
    (args args2 : Arguments) (l : List Bytes)
    → (push_back_all args args2 ≡ args ++ args2)
      × (push_front_all args args2 ≡ reverse args2 ++ args)
      × (assign args args2 ≡ args2)
      × (of_strings l ≡ map (λ s. simple_argument s true) l)
unfolding assign of_strings
pushed_orders args args2 l = (
  push_back_all_lem args args2,
  push_front_all_lem args args2,
  push_back_all_lem [] args2,
  push_back_strings_lem [] l,
)

-- The arguments whose text is not v.
abbrev pub others : Bytes → Arguments → Arguments
others v [] = []
others v (a ∷ args) = if list_beq (text_of a) v then others v args else a ∷ others v args

erase_from_lem :
    (n : ℕ) (args : Arguments) (v : Bytes)
    → ((erase_from n args v).0 ≡ others v args)
      × ((erase_from n args v).1 + length (others v args) ≡ n + length args)
unfolding erase_from
erase_from_lem n [] v = (refl, refl)
erase_from_lem n (a ∷ args) v = elim (Bool-cases (list_beq (text_of a) v)) [
  | inl e ↦
      let (h, k) = erase_from_lem (suc n) args v in
      (rw (erase_from, others, e) h, rw (erase_from, others, e) (k ∙ omega arith))
  | inr e ↦
      let (h, k) = erase_from_lem n args v in
      (
        rw (erase_from, others, e) (ap (λ t. a ∷ t) h),
        rw (erase_from, others, e) (omega (arith, k)),
      )
]

others-All : (v : Bytes) (args : Arguments) → All (λ a. text_of a ≢ v) (others v args)
others-All v [] = tt
others-All v (a ∷ args) = elim (Bool-cases (list_beq (text_of a) v)) [
  | inl e ↦ rw e (others-All v args)
  | inr e ↦ rw e (differs a e, others-All v args)
]
  where
    differs : (a : Argument) → list_beq (text_of a) v ≡ false → text_of a ≢ v
    differs a e h = ground (arith, list_beq_iff (text_of a) v)

-- erase takes out every argument with the text v and no other, leaves the rest in its order, and
-- returns how many it took out.
pub erase_lem :
    (args : Arguments) (v : Bytes)
    → ((erase args v).0 ≡ others v args)
      × ((erase args v).1 + length (erase args v).0 ≡ length args)
      × All (λ a. text_of a ≢ v) (erase args v).0
unfolding erase
erase_lem args v =
    let (h, k) = erase_from_lem 0 args v in (h, rw h (k ∙ omega arith), rw h (others-All v args))
