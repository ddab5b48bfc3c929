-- ===== src/Future.antt =====
-- Futures of src/executor/include/primitives/executor.h: SharedState, PackagedTask's call, then, and
-- whenAll and whenAny on a vector. A shared_ptr is the number of its state. An operation is what one
-- thread does without another in between, so that the two checks of whenAll and whenAny are one.
mod Tally
mod Visit
mod Watch
mod Register
mod WhenAll
mod Depth
mod Reachable
mod Examples
use primitives.Prelude.{
  ℕ, zero, suc, ◌+◌, ◌-◌, ◌%◌, ◌^◌, Bool, true, false, not, List, [], ◌∷◌, ◌++◌, Option, none, some,
  all, length, ◌==◌, if◌then◌else◌,
}

-- The lambdas that are pushed to `callbacks`: whenAll's, whenAny's and then's.
pub data Callback : Type 0 where
  counts : ℕ → ℕ → ℕ → Callback
  tells : ℕ → ℕ → Callback
  pushes : ℕ → Callback

-- What a task comes to: a value or an exception.
pub data Result : Type 0 where
  value : ℕ → Result
  exception : ℕ → Result

pub record SharedState : Type 0 where
  pub set : Bool
  pub data_value : Option ℕ
  pub eptr : Option ℕ
  pub callbacks : List Callback

-- The shared states and whenAll's counters by their numbers, those from `next` and `next_counter` on
-- being unused, and the tasks that the executor has been given, the last first.
pub record Memory : Type 0 where
  pub states : ℕ → SharedState
  pub counters : ℕ → ℕ
  pub next : ℕ
  pub next_counter : ℕ
  pub given : List ℕ

abbrev pub update {ℓ} : {A : Type ℓ} → (ℕ → A) → ℕ → A → ℕ → A
update f i a j = if j == i then a else f j

abbrev pub new_state : SharedState
new_state = record { set = false; data_value = none; eptr = none; callbacks = [] }

abbrev pub with_state : Memory → ℕ → SharedState → Memory
with_state m p s = record m { states = update m.states p s }

-- makeSharedState: the pointer and the memory.
unfoldable pub make_shared_state : Memory → ℕ × Memory
make_shared_state m = (m.next, record (with_state m m.next new_state) { next = m.next + 1 })

abbrev pub and_then {ℓ κ} : {A : Type ℓ} {B : Type κ} → Option A → (A → Option B) → Option B
and_then none f = none
and_then (some a) f = f a

-- whenAny's callback, after setExecuted.
abbrev pub told : ℕ → ℕ → Bool → Memory → Memory
told s i first m = if first then with_state m s (record (m.states s) { data_value = some i }) else m

-- A call of a callback; `execute` is setExecuted, `none` when it has run out of fuel.
abbrev pub call : (ℕ → Memory → Option (Bool × Memory)) → Callback → Memory → Option Memory
call execute (counts s most ac) m =
    let n = record m { counters = update m.counters ac ((m.counters ac + 1) % 2 ^ 64) } in
    if m.counters ac == most then and_then (execute s n) (λ x. some (x.1)) else some n
call execute (tells s i) m = and_then (execute s m) (λ x. some (told s i (x.0) (x.1)))
call execute (pushes t) m = some (record m { given = t ∷ m.given })

abbrev pub call_each :
    (ℕ → Memory → Option (Bool × Memory)) → List Callback → Memory → Option Memory
call_each execute [] m = some m
call_each execute (c ∷ cs) m = and_then (call execute c m) (λ n. call_each execute cs n)

-- SharedState::setExecuted, and notice in it: whether it was the first.
unfoldable pub set_executed : ℕ → ℕ → Memory → Option (Bool × Memory)
set_executed zero p m = none
set_executed (suc fuel) p m =
    let s = m.states p in
    elim s.set [
      | true ↦ some (false, m)
      | false ↦
          and_then
            (call_each (set_executed fuel) s.callbacks (with_state m p (record s { set = true })))
            (λ n. some (true, with_state n p (record (n.states p) { callbacks = [] })))
    ]

-- The fuel that is enough for a memory whose callbacks only reach for later states.
unfoldable pub execute : ℕ → Memory → Option (Bool × Memory)
unfolding set_executed
execute p m = set_executed (suc (m.next - p)) p m

-- PackagedTask's call, its function having come to r.
unfoldable pub finish : ℕ → Result → Memory → Option (Bool × Memory)
unfolding execute
finish p (value v) m = execute p (with_state m p (record (m.states p) { data_value = some v }))
finish p (exception x) m = execute p (with_state m p (record (m.states p) { eptr = some x }))

-- Adds a callback to a state.
abbrev pub add_callback : ℕ → Callback → Memory → Memory
add_callback p c m =
    with_state m p (record (m.states p) { callbacks = (m.states p).callbacks ++ (c ∷ []) })

-- Future::then, with task t: it is given to the executor at once or by a callback.
unfoldable pub then_push : ℕ → ℕ → Memory → Memory
then_push p t m =
    if (m.states p).set then record m { given = t ∷ m.given } else add_callback p (pushes t) m

abbrev pub add_counts : ℕ → ℕ → ℕ → List ℕ → Memory → Memory
add_counts s most ac [] m = m
add_counts s most ac (f ∷ fs) m = add_counts s most ac fs (add_callback f (counts s most ac) m)

abbrev pub all_set : List ℕ → Memory → Bool
all_set fs m = all (λ f. (m.states f).set) fs

-- s->set = true
abbrev pub mark : ℕ → Memory → Memory
mark s m = with_state m s (record (m.states s) { set = true })

abbrev pub new_counter : Memory → Memory
new_counter m = record m {
  counters = update m.counters m.next_counter 0;
  next_counter = m.next_counter + 1;
}

-- whenAll: the result's state and the memory.
unfoldable pub when_all : List ℕ → Memory → ℕ × Memory
unfolding make_shared_state
when_all fs m =
    let (s, n) = make_shared_state m in
    if all_set fs n
    then (s, mark s n)
    else (s, add_counts s (length fs - 1) n.next_counter fs (new_counter n))

abbrev pub add_tells : ℕ → ℕ → List ℕ → Memory → Memory
add_tells s i [] m = m
add_tells s i (f ∷ fs) m = add_tells s (i + 1) fs (add_callback f (tells s i) m)

-- The index of the first future that is set, if there is one.
abbrev pub first_set : ℕ → List ℕ → Memory → Option ℕ
first_set i [] m = none
first_set i (f ∷ fs) m =
    let rest = first_set (i + 1) fs m in if (m.states f).set then some i else rest

abbrev no_futures : List ℕ → Bool
no_futures [] = true
no_futures (f ∷ fs) = false

-- whenAny
unfoldable pub when_any : List ℕ → Memory → ℕ × Memory
unfolding make_shared_state
when_any fs m =
    let (s, n) = make_shared_state m in
    elim (first_set 0 fs n) [
      | some i ↦ (s, with_state n s (record (n.states s) { set = true; data_value = some i }))
      | none ↦ (s, add_tells s 0 fs (if no_futures fs then mark s n else n))
    ]
