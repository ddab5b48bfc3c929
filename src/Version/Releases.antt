-- ===== src/Version/Releases.antt =====
-- Version containers that iterate over their releases only
-- (src/version/include/primitives/version_helpers.h). An iterator is the part of the container from it
-- on; a reverse iterator walks the reversed container. `key` is the version of an element.
use primitives.Prelude.{
  sym, inl, inr, Bool-cases, ◌∙◌, Bool-cases, length, ◌↔◌, ◌≤◌, ℕ, zero, suc, ◌≡◌, refl, ap, Bool,
  true, false, List, [], ◌∷◌, ◌++◌, reverse, arith, if◌then◌else◌,
}
use mathlib.Core.List.{append-nil, reverse-append}
use native.Mathlib.Nat.{le_refl}
use primitives.Version.{Version, is_release}

module _ {ℓ} {A : Type ℓ} (key : A → Version) where
  -- std::find_if with isRelease: begin_releases.
  unfoldable pub begin_releases : List A → List A
  begin_releases [] = []
  begin_releases (a ∷ rest) = if is_release (key a) then a ∷ rest else begin_releases rest

  -- The loop of move_to_next, behind its first ++.
  unfoldable pub move_to_release : List A → List A
  move_to_release [] = []
  move_to_release (a ∷ rest) = elim (is_release (key a)) [
    | true ↦ a ∷ rest
    | false ↦ move_to_release rest
  ]

  -- ReleaseIterator::operator++.
  unfoldable pub move_to_next : List A → List A
  unfolding move_to_release
  move_to_next [] = []
  move_to_next (a ∷ rest) = move_to_release rest

  -- empty_releases: begin_releases() == end_releases().
  unfoldable pub empty_releases : List A → Bool
  unfolding begin_releases
  empty_releases c = elim (begin_releases c) [ [] ↦ true | a ∷ rest ↦ false ]

  -- A range-for loop: the elements from an iterator up to the end. The fuel bounds the steps.
  unfoldable pub visited : ℕ → List A → List A
  visited zero it = []
  visited (suc f) [] = []
  visited (suc f) (a ∷ rest) = a ∷ visited f (move_to_next (a ∷ rest))

  -- for (auto &e : c.releases()).
  unfoldable pub releases : List A → List A
  releases c = visited (length c) (begin_releases c)

  -- rbegin_releases() to rend_releases().
  unfoldable pub reverse_releases : List A → List A
  reverse_releases c = releases (reverse c)

  -- The releases, by their definition.
  abbrev pub only_releases : List A → List A
  only_releases [] = []
  only_releases (a ∷ rest) =
      if is_release (key a) then a ∷ only_releases rest else only_releases rest

  move-begin : (c : List A) → move_to_release c ≡ begin_releases c
  unfolding move_to_release begin_releases
  move-begin [] = refl
  move-begin (a ∷ rest) = ground (arith, move-begin rest)

  visited-only :
      (f : ℕ) (c : List A) → length c ≤ f → visited f (begin_releases c) ≡ only_releases c
  unfolding visited begin_releases move_to_next
  visited-only zero [] h = refl
  visited-only zero (a ∷ rest) h = absurd (omega arith)
  visited-only (suc f) [] h = refl
  visited-only (suc f) (a ∷ rest) h = elim (Bool-cases (is_release (key a))) [
    | inl e ↦ rw e (ap (λ t. a ∷ t) (rw (move-begin rest) (visited-only f rest (omega arith))))
    | inr e ↦ rw e (visited-only (suc f) rest (omega arith))
  ]

  empty-only : (c : List A) → (empty_releases c ≡ true) ↔ (only_releases c ≡ [])
  unfolding empty_releases
  empty-only [] = (λ h. refl, λ h. refl)
  empty-only (a ∷ rest) =
      (λ h. ground (arith, empty-only rest), λ h. ground (arith, empty-only rest))

  only-append : (c d : List A) → only_releases (c ++ d) ≡ only_releases c ++ only_releases d
  only-append [] d = refl
  only-append (a ∷ rest) d = ground (arith, only-append rest d)

  only-reverse : (c : List A) → only_releases (reverse c) ≡ reverse (only_releases c)
  only-reverse [] = refl
  only-reverse (a ∷ rest) = elim (Bool-cases (is_release (key a))) [
    | inl e ↦
        rw (reverse-append (a ∷ []) rest, only-append (reverse rest) (a ∷ []), only-reverse rest, e)
          (sym (reverse-append (a ∷ []) (only_releases rest)))
    | inr e ↦
        rw (reverse-append (a ∷ []) rest, only-append (reverse rest) (a ∷ []), only-reverse rest, e)
          (append-nil _)
  ]

  -- A loop over releases() visits exactly the elements with no extra part, in their order, and
  -- empty_releases() holds when there is none.
  pub releases-only :
      (c : List A)
      → (releases c ≡ only_releases c) × ((empty_releases c ≡ true) ↔ (only_releases c ≡ []))
  unfolding releases
  releases-only c = (visited-only (length c) c (le_refl _), empty-only c)

  -- A loop over the reversed container visits the same elements in the reverse order.
  pub reverse_releases-only : (c : List A) → reverse_releases c ≡ reverse (only_releases c)
  unfolding reverse_releases releases
  reverse_releases-only c =
      visited-only (length (reverse c)) (reverse c) (le_refl _) ∙ only-reverse c
