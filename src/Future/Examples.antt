-- ===== src/Future/Examples.antt =====
-- The theorems on futures at concrete inputs.
use primitives.Prelude.{ℕ, ◌≡◌, refl, Bool, true, false, not, [], ◌∷◌, List, some, Option, arith}
use primitives.Future.{
  set_executed, execute, Memory, new_state, update, when_all, all_set, finish, value, and_then,
  make_shared_state,
}
use primitives.Future.Watch.{execute_all}
use primitives.Future.WhenAll.{AreFutures, when_all-ended}
use primitives.Future.Reachable.{start, makes, alls, empty_memory, finish-returns}

-- Two futures that have not ended.
abbrev two : Memory
two = record { states = λ _. new_state; counters = λ _. 0; next = 2; next_counter = 0; given = [] }

abbrev both : List ℕ
both = 0 ∷ 1 ∷ []

two-AreFutures : AreFutures both two
two-AreFutures = record {
  distinct = (refl, (refl, tt));
  made = (omega arith, (omega arith, tt));
  plain = (([], refl), (([], refl), tt));
  few = omega arith;
}

when_all-ended_example :
    (n : Memory) × ((execute_all (1 ∷ 0 ∷ []) ((when_all both two).1) ≡ some n)
      × ((n.states ((when_all both two).0)).set ≡ all_set both n))
when_all-ended_example =
    when_all-ended both two two-AreFutures (omega arith) (refl, (refl, tt)) (1 ∷ 0 ∷ [])
      (refl, (refl, tt))

-- The first of them has.
abbrev one_ended : Memory
one_ended = record two {
  states = update (λ _. new_state) 0 (record new_state { set = true; data_value = some 5 });
}

-- A future of whenAll on it.
abbrev chained : Memory
unfolding when_all make_shared_state
chained = (when_all (0 ∷ []) ((make_shared_state empty_memory).1)).1

finish-returns_example :
    (n : Memory) × (finish 0 (value 5) chained ≡ some (not (chained.states 0).set, n))
unfolding chained when_all make_shared_state
finish-returns_example =
    finish-returns 0 (value 5) (alls (0 ∷ []) (omega arith, tt) (makes start)) (omega arith)

-- The result's flag after the ends of the futures in the list.
abbrev ready : List ℕ → Memory → Option Bool
ready xs m =
    and_then (execute_all xs ((when_all both m).1))
      (λ n. some ((n.states ((when_all both m).0)).set))

ready_runs :
    (ready (1 ∷ 0 ∷ []) two ≡ some true)
    × ((ready (1 ∷ []) two ≡ some false) × (ready (1 ∷ []) one_ended ≡ some false))
unfolding when_all make_shared_state execute set_executed
ready_runs = (refl, (refl, refl))
