-- ===== src/Future/WhenAll.antt =====
-- When the result of whenAll is ready (src/executor/include/primitives/executor.h).
use primitives.Prelude.{
  ℕ, ◌+◌, ◌-◌, ◌^◌, ◌≤◌, ◌<◌, ◌≡◌, refl, true, false, List, [], ◌∷◌, some, length, arith, ◌==◌, All,
  ap, ◌∙◌, ltb,
}
use primitives.Future.{
  Memory, when_all, all_set, add_counts, make_shared_state, new_counter, new_state, with_state,
  update,
}
use primitives.Future.Tally.{count_set, count_set_le, count_set_iff, mem, IsDistinct}
use primitives.Future.Visit.{with_state-at, with_state-same, ==_refl}
use primitives.Future.Watch.{Watched, execute_all, execute_all-Watched}
use primitives.Future.Register.{
  Plain, add_counts-set, add_counts-same, add_counts-counters, add_counts-next, add_counts-Carries,
  count_set-flags,
}

-- What whenAll is given: futures that are different and are there, with no callbacks but then's.
pub record AreFutures (fs : List ℕ) (m : Memory) : Type 0 where
  pub distinct : IsDistinct fs
  pub made : All (λ f. f < m.next) fs
  pub plain : All (Plain m) fs
  pub few : length fs < 2 ^ 63

update-at : (f : ℕ → ℕ) (i a : ℕ) → update f i a i ≡ a
update-at f i a = rw (==_refl i) refl

below-mem : (n : ℕ) (fs : List ℕ) → All (λ f. f < n) fs → mem n fs ≡ false
below-mem n [] h = refl
below-mem n (f ∷ fs) (h, hs) = ground (arith, below-mem n fs hs)

-- The memory in which whenAll adds its callbacks.
abbrev with_result : Memory → Memory
with_result m = record (with_state m m.next new_state) { next = m.next + 1 }

with_result-same : (m : Memory) (f : ℕ) → f < m.next → (with_result m).states f ≡ m.states f
with_result-same m f h = with_state-same m m.next new_state f (ground arith)

with_result-all_set :
    (m : Memory) (fs : List ℕ)
    → All (λ f. f < m.next) fs
    → all_set fs (with_result m) ≡ all_set fs m
with_result-all_set m [] h = refl
with_result-all_set m (f ∷ fs) (h, hs) =
    rw (with_result-same m f h, with_result-all_set m fs hs) refl

with_result-count_set :
    (m : Memory) (fs : List ℕ)
    → All (λ f. f < m.next) fs
    → count_set fs (new_counter (with_result m)) ≡ count_set fs m
with_result-count_set m [] h = refl
with_result-count_set m (f ∷ fs) (h, hs) =
    rw (with_result-same m f h, with_result-count_set m fs hs) refl

with_result-Plain :
    (m : Memory) (fs : List ℕ)
    → All (λ f. f < m.next) fs
    → All (Plain m) fs
    → All (Plain (new_counter (with_result m))) fs
with_result-Plain m [] h p = tt
with_result-Plain m (f ∷ fs) (h, hs) ((ts, p), ps) =
    ((ts, ap (λ x. x.callbacks) (with_result-same m f h) ∙ p), with_result-Plain m fs hs ps)

not_all_set-nonempty :
    (fs : List ℕ) (m : Memory) → all_set fs m ≡ false → length fs ≡ length fs - 1 + 1
not_all_set-nonempty [] m h = cc
not_all_set-nonempty (f ∷ fs) m h = omega arith

-- The memory when whenAll has added them.
abbrev watching : List ℕ → Memory → Memory
watching fs m = add_counts m.next (length fs - 1) m.next_counter fs (new_counter (with_result m))

when_all-watching :
    (fs : List ℕ) (m : Memory)
    → AreFutures fs m
    → all_set fs m ≡ false
    → when_all fs m ≡ (m.next, watching fs m)
unfolding when_all make_shared_state
when_all-watching fs m h n = rw (with_result-all_set m fs h.made, when_all, n) refl

watching-Watched :
    (fs : List ℕ) (m : Memory)
    → AreFutures fs m
    → Watched m.next (length fs - 1) m.next_counter (count_set fs m) fs (watching fs m)
watching-Watched fs m h =
    let most = length fs - 1 in
    let base : Memory = new_counter (with_result m) in
    let s : (watching fs m).states m.next ≡ new_state =
      add_counts-same m.next most m.next_counter fs base m.next (below-mem m.next fs h.made)
      ∙ with_state-at m m.next new_state in
    let c : (watching fs m).counters m.next_counter ≡ 0 =
      ap (λ f. f m.next_counter) (add_counts-counters m.next most m.next_counter fs base)
      ∙ update-at m.counters m.next_counter 0 in
    record {
      carried =
          add_counts-Carries m.next most m.next_counter fs base h.distinct
            (with_result-Plain m fs h.made h.plain);
      pending = record {
        quiet = ap (λ x. x.callbacks) s;
        decided =
            ap (λ x. x.set) s
            ∙ (let z : false ≡ ltb most ((watching fs m).counters m.next_counter) =
                  rw c (ground arith) in
                z);
      };
      tally = omega (
        arith,
        c,
        count_set-flags fs base (watching fs m) (add_counts-set m.next most m.next_counter fs base),
        with_result-count_set m fs h.made,
      );
      within = omega (arith, add_counts-next m.next most m.next_counter fs base);
    }

decide_lem :
    (c old now n most : ℕ) → c + old ≡ now → now ≤ n → n ≡ most + 1 → ltb most c ≡ (now == n + old)
decide_lem c old now n most h k e = ground arith

-- After whenAll, futures of the list end, in any order and however often: the result is set when as
-- many are set as there are and as had been when whenAll was called.
ended-set :
    (fs : List ℕ) (m : Memory)
    → AreFutures fs m
    → all_set fs m ≡ false
    → (xs : List ℕ) → All (λ x. mem x fs ≡ true) xs
    → (n : Memory) × ((execute_all xs ((when_all fs m).1) ≡ some n)
        × ((n.states ((when_all fs m).0)).set ≡ (count_set fs n == length fs + count_set fs m)))
ended-set fs m h unset xs within =
    let len = not_all_set-nonempty fs m unset in
    let few : length fs - 1 < 2 ^ 63 = omega (arith, h.few) in
    let (n, (e, w)) =
      execute_all-Watched m.next (length fs - 1) m.next_counter (count_set fs m) fs h.distinct
        h.made len few xs (watching fs m) within (watching-Watched fs m h) in
    (
      n,
      rw (when_all-watching fs m h unset) (
        e,
        w.pending.decided
            ∙ decide_lem (n.counters m.next_counter) (count_set fs m) (count_set fs n) (length fs)
                (length fs - 1) w.tally (count_set_le fs n) len,
      ),
    )

none_set-count_set :
    (fs : List ℕ) (m : Memory) → All (λ f. (m.states f).set ≡ false) fs → count_set fs m ≡ 0
none_set-count_set [] m h = refl
none_set-count_set (f ∷ fs) m (h, hs) = rw (h, none_set-count_set fs m hs) refl

none_set-all_set :
    (fs : List ℕ) (m : Memory)
    → 0 < length fs
    → All (λ f. (m.states f).set ≡ false) fs
    → all_set fs m ≡ false
none_set-all_set [] m l h = absurd (omega arith)
none_set-all_set (f ∷ fs) m l (h, hs) = rw h refl

all_set_lem : (fs : List ℕ) (m : Memory) → (count_set fs m == length fs + 0) ≡ all_set fs m
all_set_lem fs m = ground (arith, count_set_iff fs m)

-- When no future of a list has ended as whenAll is called on it, the result is set after the ends of
-- any of them, in any order and however often, just when all of them are set; the list has at least
-- one future and fewer than 2 ^ 63, all different, with no callbacks but then's.
pub when_all-ended :
    (fs : List ℕ) (m : Memory)
    → AreFutures fs m
    → 0 < length fs
    → All (λ f. (m.states f).set ≡ false) fs
    → (xs : List ℕ) → All (λ x. mem x fs ≡ true) xs
    → (n : Memory) × ((execute_all xs ((when_all fs m).1) ≡ some n)
        × ((n.states ((when_all fs m).0)).set ≡ all_set fs n))
when_all-ended fs m h l unset xs within =
    let (n, (e, v)) = ended-set fs m h (none_set-all_set fs m l unset) xs within in
    let z : (count_set fs n == length fs + count_set fs m) ≡ all_set fs n =
      rw (none_set-count_set fs m unset) (all_set_lem fs n) in
    (n, (e, v ∙ z))
