-- ===== src/Future/Reachable.antt =====
-- The calls of users of futures (src/executor/include/primitives/executor.h), one after the other,
-- and the end of a task in the memories that they reach.
use mathlib.Core.Path.{subst}
use primitives.Future.Visit.{with_state-at}
use primitives.Prelude.{
  length, ◌-◌, ℕ, ◌+◌, ◌<◌, ◌≡◌, Bool, true, false, not, List, [], ◌∷◌, Option, some, none, arith,
  All, if◌then◌else◌, ◌∙◌, ap,
}
use primitives.Future.{
  first_set, no_futures, all_set, Memory, Result, value, exception, with_state, finish, then_push,
  when_all, when_any, make_shared_state, new_state, add_counts, add_tells, mark, new_counter,
  pushes, add_callback,
}
use primitives.Future.Depth.{
  IsRanked, execute-IsRanked, make-IsRanked, with_state-IsRanked, add_pushes-IsRanked,
  add_counts-IsRanked, add_tells-IsRanked,
}

abbrev pub empty_memory : Memory
empty_memory = record {
  states = λ _. new_state;
  counters = λ _. 0;
  next = 0;
  next_counter = 0;
  given = [];
}

pub data Reach : Memory → Type 0 where
  start : Reach empty_memory
  makes : {m : Memory} → Reach m → Reach ((make_shared_state m).1)
  thens : {m : Memory} (p t : ℕ) → Reach m → Reach (then_push p t m)
  alls : {m : Memory} (fs : List ℕ) → All (λ f. f < m.next) fs → Reach m → Reach ((when_all fs m).1)
  anys : {m : Memory} (fs : List ℕ) → All (λ f. f < m.next) fs → Reach m → Reach ((when_any fs m).1)
  ends :
      {m n : Memory} {b : Bool} (p : ℕ) (r : Result)
      → p < m.next
      → finish p r m ≡ some (b, n)
      → Reach m
      → Reach n

if_either : {A : Type 0} (P : A → Type 0) (b : Bool) (x y : A) → P x → P y → P (if b then x else y)
if_either P true x y hx hy = hx
if_either P false x y hx hy = hy

with_flags-IsRanked :
    (m : Memory) (p : ℕ) (b : Bool) (d e : Option ℕ)
    → IsRanked m
    → IsRanked (with_state m p (record (m.states p) { set = b; data_value = d; eptr = e }))
with_flags-IsRanked m p b d e h =
    with_state-IsRanked m p (record (m.states p) { set = b; data_value = d; eptr = e }) h
      (h.later p)

finish-IsRanked :
    (p : ℕ) (r : Result) (m : Memory)
    → IsRanked m
    → p < m.next
    → (n : Memory) × ((finish p r m ≡ some (not (m.states p).set, n)) × IsRanked n)
unfolding finish
finish-IsRanked p (value v) m h l =
    let u : Memory = with_state m p (record (m.states p) { data_value = some v }) in
    let (n, (e, (k, _))) =
      execute-IsRanked p u (with_flags-IsRanked m p (m.states p).set (some v) (m.states p).eptr h)
        l in
    (
      n,
      (
        e
            ∙ ap (λ s. some (not s.set, n))
                (with_state-at m p (record (m.states p) { data_value = some v })),
        k,
      ),
    )
finish-IsRanked p (exception x) m h l =
    let u : Memory = with_state m p (record (m.states p) { eptr = some x }) in
    let (n, (e, (k, _))) =
      execute-IsRanked p u
        (with_flags-IsRanked m p (m.states p).set (m.states p).data_value (some x) h) l in
    (
      n,
      (
        e
            ∙ ap (λ s. some (not s.set, n))
                (with_state-at m p (record (m.states p) { eptr = some x })),
        k,
      ),
    )

then_push-IsRanked : (p t : ℕ) (m : Memory) → IsRanked m → IsRanked (then_push p t m)
unfolding then_push
then_push-IsRanked p t m h =
    if_either IsRanked (m.states p).set (record m { given = t ∷ m.given })
      (add_callback p (pushes t) m) (record { later = h.later }) (add_pushes-IsRanked p t m h)

with_result : Memory → Memory
with_result m = record (with_state m m.next new_state) { next = m.next + 1 }

with_result-IsRanked : (m : Memory) → IsRanked m → IsRanked (with_result m)
unfolding with_result make_shared_state
with_result-IsRanked m h = make-IsRanked m h

when_all-IsRanked :
    (fs : List ℕ) (m : Memory)
    → All (λ f. f < m.next) fs
    → IsRanked m
    → IsRanked ((when_all fs m).1)
unfolding when_all make_shared_state with_result
when_all-IsRanked fs m b h =
    let n : Memory = with_result m in
    let k : IsRanked n = with_result-IsRanked m h in
    if_either (λ (x : ℕ × Memory). IsRanked (x.1)) (all_set fs n) (m.next, mark m.next n)
      (m.next, add_counts m.next (length fs - 1) n.next_counter fs (new_counter n))
      (with_flags-IsRanked n m.next true (n.states m.next).data_value (n.states m.next).eptr k)
      (add_counts-IsRanked m.next (length fs - 1) n.next_counter fs (new_counter n) b (omega arith)
        (record { later = k.later }))

when_any-IsRanked :
    (fs : List ℕ) (m : Memory)
    → All (λ f. f < m.next) fs
    → IsRanked m
    → IsRanked ((when_any fs m).1)
unfolding when_any make_shared_state with_result
when_any-IsRanked fs m b h = go (first_set 0 fs (with_result m))
  where
    n : Memory
    n = with_result m

    k : IsRanked n
    k = with_result-IsRanked m h

    picked : Option ℕ → ℕ × Memory
    picked (some i) =
        (m.next, with_state n m.next (record (n.states m.next) { set = true; data_value = some i }))
    picked none = (m.next, add_tells m.next 0 fs (if no_futures fs then mark m.next n else n))

    go : (o : Option ℕ) → IsRanked ((picked o).1)
    go (some i) = with_flags-IsRanked n m.next true (some i) (n.states m.next).eptr k
    go none =
        if_either (λ (x : Memory). IsRanked (add_tells m.next 0 fs x)) (no_futures fs)
          (mark m.next n) n
          (add_tells-IsRanked m.next 0 fs (mark m.next n) b (omega arith) (
            with_flags-IsRanked n m.next true (n.states m.next).data_value (n.states m.next).eptr
              k))
          (add_tells-IsRanked m.next 0 fs n b (omega arith) k)

reach-IsRanked : {m : Memory} → Reach m → IsRanked m
reach-IsRanked start = record { later = λ p. tt }
reach-IsRanked (makes {m = m} r) = make-IsRanked m (reach-IsRanked r)
reach-IsRanked (thens {m = m} p t r) = then_push-IsRanked p t m (reach-IsRanked r)
reach-IsRanked (alls {m = m} fs b r) = when_all-IsRanked fs m b (reach-IsRanked r)
reach-IsRanked (anys {m = m} fs b r) = when_any-IsRanked fs m b (reach-IsRanked r)
reach-IsRanked (ends {m = m} {n = n} {b = b} p x l e r) =
    let (u, (g, k)) = finish-IsRanked p x m (reach-IsRanked r) l in
    let q : u ≡ n = cc in subst IsRanked q k

-- In every memory that makeSharedState, then, whenAll, whenAny and the ends of tasks reach, the end of
-- a task returns, through all the callbacks, within the fuel of the number of states that come after
-- it, and says whether its future was unset.
pub finish-returns :
    {m : Memory} (p : ℕ) (r : Result)
    → Reach m
    → p < m.next
    → (n : Memory) × (finish p r m ≡ some (not (m.states p).set, n))
finish-returns {m = m} p r h l =
    let (n, (e, k)) = finish-IsRanked p r m (reach-IsRanked h) l in (n, e)
