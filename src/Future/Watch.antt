-- ===== src/Future/Watch.antt =====
-- The futures that whenAll watches (src/executor/include/primitives/executor.h), while they end in
-- any order.
use primitives.Prelude.{
  ◌∙◌, ap, ℕ, suc, ◌+◌, ◌-◌, ◌^◌, ◌≤◌, ◌<◌, ◌≡◌, refl, true, false, List, [], ◌∷◌, Option, some,
  length, arith, ◌==◌, All, Bool-cases, inl, inr,
}
use primitives.Future.{set_executed, execute, Memory, and_then}
use primitives.Future.Tally.{count_set, count_set_le, count_set-new, mem, IsDistinct}
use primitives.Future.Visit.{
  Counting, Pending, Counted, set_executed-Counted, raised, with_state-at, with_state-same,
}

-- The ends of futures, one after the other.
abbrev pub execute_all : List ℕ → Memory → Option Memory
execute_all [] m = some m
execute_all (f ∷ fs) m = and_then (execute f m) (λ x. execute_all fs (x.1))

module _ (s most ac old : ℕ) where
  abbrev pub Carries : Memory → ℕ → Type 0
  Carries m f = (m.states f).set ≡ false → Counting s most ac (m.states f).callbacks

  -- `old` of the futures had ended when whenAll was called.
  pub record Watched (fs : List ℕ) (m : Memory) : Type 0 where
    pub carried : All (Carries m) fs
    pub pending : Pending s most ac m
    pub tally : m.counters ac + old ≡ count_set fs m
    pub within : s < m.next

  Carries-Counted :
      (f : ℕ) (m n : Memory) (gs : List ℕ)
      → Counted s most ac f m n
      → All (λ g. g < s) gs
      → All (Carries m) gs
      → All (Carries n) gs
  Carries-Counted f m n [] c l h = tt
  Carries-Counted f m n (g ∷ gs) c (l, ls) (h, hs) = (
    λ unset. elim (Bool-cases (g == f)) [
      | inl y ↦
          let q : g ≡ f = ground (arith, y) in
          let e = c.ended in let z : (n.states f).set ≡ false = rw⁻¹ q unset in cc
      | inr y ↦ let e = c.others g y (ground arith) in rw e (h (rw⁻¹ e unset))
    ],
    Carries-Counted f m n gs c ls hs,
  )

  Carries-mem :
      (f : ℕ) (m : Memory) (gs : List ℕ) → mem f gs ≡ true → All (Carries m) gs → Carries m f
  Carries-mem f m [] h c = cc
  Carries-mem f m (g ∷ gs) h (c, cs) = elim (Bool-cases (g == f)) [
    | inl y ↦ let q : g ≡ f = ground (arith, y) in rw⁻¹ q c
    | inr y ↦ let z : mem f gs ≡ true = rw y at h in Carries-mem f m gs z cs
  ]

  same-others :
      (f : ℕ) (m n : Memory) (gs : List ℕ)
      → ((g : ℕ) → (g == f) ≡ false → (g == s) ≡ false → n.states g ≡ m.states g)
      → All (λ g. g < s) gs
      → All (λ g. (g == f) ≡ false → n.states g ≡ m.states g) gs
  same-others f m n [] h l = tt
  same-others f m n (g ∷ gs) h (l, ls) = (λ y. h g y (ground arith), same-others f m n gs h ls)

  mem-below : (f : ℕ) (gs : List ℕ) → All (λ g. g < s) gs → mem f gs ≡ true → f < s
  mem-below f [] l h = cc
  mem-below f (g ∷ gs) (l, ls) h = ground (arith, mem-below f gs ls)

  -- f ends, for the first time.
  execute-unset :
      (f : ℕ) (fs : List ℕ) (m : Memory)
      → IsDistinct fs
      → All (λ g. g < s) fs
      → length fs ≡ most + 1
      → most < 2 ^ 63
      → mem f fs ≡ true
      → Watched fs m
      → (m.states f).set ≡ false
      → (n : Memory) × ((execute f m ≡ some (true, n)) × Watched fs n)
  unfolding execute
  execute-unset f fs m d l len b h w unset =
      let below : f < s = mem-below f fs l h in
      let more =
        count_set-new f fs m (raised f m) d h unset
          (ap (λ x. x.set) (with_state-at m f (record (m.states f) { set = true })))
          (same-others f m (raised f m) fs
            (λ g y _. with_state-same m f (record (m.states f) { set = true }) g y) l) in
      let room : m.counters ac ≤ most =
        omega (arith, more, count_set_le fs (raised f m), w.tally, len) in
      let fuel : m.next - f ≡ suc (m.next - f - 1) = omega (arith, w.within) in
      let (n, (e, c)) =
        set_executed-Counted (m.next - f - 1) s most ac f m (ground arith)
          (Carries-mem f m fs h w.carried unset) unset w.pending room b in
      (
        n,
        (
          ap (λ j. set_executed (suc j) f m) fuel ∙ e,
          record {
            carried = Carries-Counted f m n fs c l w.carried;
            pending = c.pending;
            tally = omega (
              arith,
              c.counter,
              w.tally,
              count_set-new f fs m n d h unset c.ended (same-others f m n fs c.others l),
            );
            within = omega (arith, c.allocated, w.within);
          },
        ),
      )

  execute-set : (f : ℕ) (m : Memory) → (m.states f).set ≡ true → execute f m ≡ some (false, m)
  unfolding execute set_executed
  execute-set f m y = rw (y, execute, set_executed) refl

  -- Whatever futures of the list end, in any order and however often, the watch goes on.
  pub execute_all-Watched :
      (fs : List ℕ)
      → IsDistinct fs
      → All (λ g. g < s) fs
      → length fs ≡ most + 1
      → most < 2 ^ 63
      → (xs : List ℕ) (m : Memory) → All (λ x. mem x fs ≡ true) xs
      → Watched fs m
      → (n : Memory) × ((execute_all xs m ≡ some n) × Watched fs n)
  execute_all-Watched fs d l len b [] m h w = (m, (refl, w))
  execute_all-Watched fs d l len b (x ∷ xs) m (h, hs) w = elim (Bool-cases ((m.states x).set)) [
    | inl y ↦
        let (n, (e, v)) = execute_all-Watched fs d l len b xs m hs w in
        (n, (rw (execute-set x m y) e, v))
    | inr y ↦
        let (u, (f, v)) = execute-unset x fs m d l len b h w y in
        let (n, (e, z)) = execute_all-Watched fs d l len b xs u hs v in (n, (rw f e, z))
  ]
