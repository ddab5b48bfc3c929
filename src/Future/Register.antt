-- ===== src/Future/Register.antt =====
-- What whenAll leaves with its futures (src/executor/include/primitives/executor.h).
use primitives.Prelude.{
  ℕ, ◌≡◌, refl, false, List, [], ◌∷◌, ◌++◌, map, arith, ◌==◌, All, Bool-cases, inl, inr, ap, ◌∙◌,
}
use primitives.Future.{Memory, SharedState, Callback, counts, pushes, add_callback, add_counts}
use primitives.Future.Tally.{count_set, mem, IsDistinct}
use primitives.Future.Visit.{with_state-at, with_state-same}
use primitives.Future.Watch.{Carries}

-- A future with no callbacks but then's.
abbrev pub Plain : Memory → ℕ → Type 0
Plain m f = (ts : List ℕ) × ((m.states f).callbacks ≡ map pushes ts)

module _ (s most ac : ℕ) where
  pub add_counts-set :
      (fs : List ℕ) (m : Memory) (g : ℕ)
      → ((add_counts s most ac fs m).states g).set ≡ (m.states g).set
  add_counts-set [] m g = refl
  add_counts-set (f ∷ fs) m g =
      add_counts-set fs (add_callback f (counts s most ac) m) g ∙ elim (Bool-cases (g == f)) [
        | inl y ↦ let q : g ≡ f = ground (arith, y) in rw (y, q) refl
        | inr y ↦
            ap (λ x. x.set)
              (with_state-same m f
                (record (m.states f) {
                  callbacks = (m.states f).callbacks ++ (counts s most ac ∷ []);
                })
                g y)
      ]

  pub add_counts-same :
      (fs : List ℕ) (m : Memory) (g : ℕ)
      → mem g fs ≡ false
      → (add_counts s most ac fs m).states g ≡ m.states g
  add_counts-same [] m g h = refl
  add_counts-same (f ∷ fs) m g h =
      let y : (g == f) ≡ false = ground arith in
      let z : mem g fs ≡ false = ground arith in
      add_counts-same fs (add_callback f (counts s most ac) m) g z
      ∙ with_state-same m f
          (record (m.states f) { callbacks = (m.states f).callbacks ++ (counts s most ac ∷ []) }) g
          y

  pub add_counts-counters :
      (fs : List ℕ) (m : Memory) → (add_counts s most ac fs m).counters ≡ m.counters
  add_counts-counters [] m = refl
  add_counts-counters (f ∷ fs) m = add_counts-counters fs (add_callback f (counts s most ac) m)

  pub add_counts-next : (fs : List ℕ) (m : Memory) → (add_counts s most ac fs m).next ≡ m.next
  add_counts-next [] m = refl
  add_counts-next (f ∷ fs) m = add_counts-next fs (add_callback f (counts s most ac) m)

  Plain-add_callback :
      (f : ℕ) (c : Callback) (m : Memory) (fs : List ℕ)
      → mem f fs ≡ false
      → All (Plain m) fs
      → All (Plain (add_callback f c m)) fs
  Plain-add_callback f c m [] h p = tt
  Plain-add_callback f c m (g ∷ fs) h ((ts, p), ps) =
      let y : (g == f) ≡ false = ground arith in
      let z : mem f fs ≡ false = ground arith in
      (
        (
          ts,
          ap (λ x. x.callbacks)
                (with_state-same m f
                  (record (m.states f) { callbacks = (m.states f).callbacks ++ (c ∷ []) }) g y)
              ∙ p,
        ),
        Plain-add_callback f c m fs z ps,
      )

  pub add_counts-Carries :
      (fs : List ℕ) (m : Memory)
      → IsDistinct fs
      → All (Plain m) fs
      → All (Carries s most ac 0 (add_counts s most ac fs m)) fs
  add_counts-Carries [] m d p = tt
  add_counts-Carries (f ∷ fs) m (d, ds) ((ts, p), ps) =
      let v : SharedState = record (m.states f) {
        callbacks = (m.states f).callbacks ++ (counts s most ac ∷ []);
      } in
      (
        λ _. (
          ts,
          ap (λ x. x.callbacks)
                (add_counts-same fs (add_callback f (counts s most ac) m) f d ∙ with_state-at m f v)
              ∙ ap (λ x. x ++ (counts s most ac ∷ [])) p,
        ),
        add_counts-Carries fs (add_callback f (counts s most ac) m) ds
            (Plain-add_callback f (counts s most ac) m fs d ps),
      )

pub count_set-flags :
    (fs : List ℕ) (m n : Memory)
    → ((g : ℕ) → (n.states g).set ≡ (m.states g).set)
    → count_set fs n ≡ count_set fs m
count_set-flags [] m n h = refl
count_set-flags (f ∷ fs) m n h = rw (h f, count_set-flags fs m n h) refl
