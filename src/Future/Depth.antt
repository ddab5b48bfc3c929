-- ===== src/Future/Depth.antt =====
-- How deep setExecuted calls itself through callbacks (src/executor/include/primitives/executor.h):
-- a state that whenAll or whenAny makes comes after those it waits for.
use primitives.Prelude.{
  not, sym, ◌^◌, ◌%◌, zero, suc, ℕ, ◌+◌, ◌-◌, ◌≤◌, ◌<◌, ◌≡◌, refl, Bool, true, false, List, [], ◌∷◌,
  ◌++◌, Option, some, arith, ◌==◌, All, All-append, Bool-cases, inl, inr, ap, ◌∙◌,
}
use primitives.Future.{
  new_state, make_shared_state, add_tells, update, set_executed, Memory, SharedState, Callback,
  counts, tells, pushes, with_state, call, call_each, execute, told, add_callback, add_counts,
}
use primitives.Future.Visit.{raised, emptied, set_executed-unset}

-- A callback of p only reaches for a later state that is there.
abbrev pub Reaches : ℕ → ℕ → Callback → Type 0
Reaches p next (counts s most ac) = (p < s) × (s < next)
Reaches p next (tells s i) = (p < s) × (s < next)
Reaches p next (pushes t) = Unit

pub record IsRanked (m : Memory) : Type 0 where
  pub later : (p : ℕ) → All (Reaches p m.next) (m.states p).callbacks

-- The memory comes back ranked, with as many states.
abbrev pub Returns : Memory → Option Memory → Type 0
Returns m o = (n : Memory) × ((o ≡ some n) × (IsRanked n × (n.next ≡ m.next)))

pub with_state-IsRanked :
    (m : Memory) (p : ℕ) (v : SharedState)
    → IsRanked m
    → All (Reaches p m.next) v.callbacks
    → IsRanked (with_state m p v)
with_state-IsRanked m p v h c = record {
  later = λ q. elim (Bool-cases (q == p)) [
    | inl y ↦ let e : q ≡ p = ground (arith, y) in rw (y, e) c
    | inr y ↦ rw y (h.later q)
  ];
}

told-IsRanked : (s i : ℕ) (b : Bool) (m : Memory) → IsRanked m → IsRanked (told s i b m)
told-IsRanked s i true m h =
    with_state-IsRanked m s (record (m.states s) { data_value = some i }) h (h.later s)
told-IsRanked s i false m h = h

told-next : (s i : ℕ) (b : Bool) (m : Memory) → (told s i b m).next ≡ m.next
told-next s i true m = refl
told-next s i false m = refl

-- setExecuted with fuel f, on a state that is not more than f states from the last.
abbrev Executes : ℕ → Type 0
Executes f =
    (p : ℕ) (m : Memory)
    → IsRanked m
    → p < m.next
    → m.next ≤ p + f
    → (n : Memory) × ((set_executed f p m ≡ some (not (m.states p).set, n))
        × (IsRanked n × (n.next ≡ m.next)))

call-Returns :
    (f : ℕ)
    → Executes f
    → (p : ℕ) (c : Callback) (m : Memory) → IsRanked m
    → m.next ≤ p + suc f
    → Reaches p m.next c
    → Returns m (call (set_executed f) c m)
call-Returns f ex p (pushes t) m h l r =
    (record m { given = t ∷ m.given }, (refl, (record { later = h.later }, refl)))
call-Returns f ex p (tells s i) m h l (ps, sn) =
    let (n, (e, (k, q))) = ex s m h sn (omega arith) in
    (
      told s i (not (m.states s).set) n,
      (
        rw e refl,
        (told-IsRanked s i (not (m.states s).set) n k, told-next s i (not (m.states s).set) n ∙ q),
      ),
    )
call-Returns f ex p (counts s most ac) m h l (ps, sn) =
    let u : Memory = record m { counters = update m.counters ac ((m.counters ac + 1) % 2 ^ 64) } in
    let k : IsRanked u = record { later = h.later } in
    let (n, (e, (z, q))) = ex s u k sn (omega arith) in
    elim (Bool-cases (m.counters ac == most)) [
      | inl y ↦ (n, (rw (y, e) refl, (z, q)))
      | inr y ↦ (u, (rw y refl, (k, refl)))
    ]

call_each-Returns :
    (f : ℕ)
    → Executes f
    → (p : ℕ) (cs : List Callback) (m : Memory) → IsRanked m
    → m.next ≤ p + suc f
    → All (Reaches p m.next) cs
    → Returns m (call_each (set_executed f) cs m)
call_each-Returns f ex p [] m h l r = (m, (refl, (h, refl)))
call_each-Returns f ex p (c ∷ cs) m h l (r, rs) =
    let (n, (e, (k, q))) = call-Returns f ex p c m h l r in
    let (u, (g, (z, t))) = call_each-Returns f ex p cs n k (rw q l) (rw q rs) in
    (u, (rw e g, (z, t ∙ q)))

set_executed-Executes : (f : ℕ) → Executes f
unfolding set_executed
set_executed-Executes zero p m h a b = absurd (omega arith)
set_executed-Executes (suc f) p m h a b = elim (Bool-cases ((m.states p).set)) [
  | inl y ↦ (m, (rw (y, set_executed) refl, (h, refl)))
  | inr y ↦
      let v : SharedState = record (m.states p) { set = true } in
      let (n, (e, (k, q))) =
        call_each-Returns f (set_executed-Executes f) p (m.states p).callbacks (raised p m)
          (with_state-IsRanked m p v h (h.later p)) b (h.later p) in
      (
        emptied p n,
        (
          set_executed-unset f p m n y e ∙ ap (λ b. some (not b, emptied p n)) (sym y),
          (with_state-IsRanked n p (record (n.states p) { callbacks = [] }) k tt, q),
        ),
      )
]

-- execute on a ranked memory.
pub execute-IsRanked :
    (p : ℕ) (m : Memory)
    → IsRanked m
    → p < m.next
    → (n : Memory) × ((execute p m ≡ some (not (m.states p).set, n))
        × (IsRanked n × (n.next ≡ m.next)))
unfolding execute
execute-IsRanked p m h a = set_executed-Executes (suc (m.next - p)) p m h a (omega arith)

add_callback-IsRanked :
    (p : ℕ) (c : Callback) (m : Memory)
    → IsRanked m
    → Reaches p m.next c
    → IsRanked (add_callback p c m)
add_callback-IsRanked p c m h r =
    with_state-IsRanked m p (record (m.states p) { callbacks = (m.states p).callbacks ++ (c ∷ []) })
      h (All-append (Reaches p m.next) (m.states p).callbacks (c ∷ []) (h.later p) (r, tt))

pub add_pushes-IsRanked :
    (p t : ℕ) (m : Memory) → IsRanked m → IsRanked (add_callback p (pushes t) m)
add_pushes-IsRanked p t m h = add_callback-IsRanked p (pushes t) m h tt

pub add_counts-IsRanked :
    (s most ac : ℕ) (fs : List ℕ) (m : Memory)
    → All (λ f. f < s) fs
    → s < m.next
    → IsRanked m
    → IsRanked (add_counts s most ac fs m)
add_counts-IsRanked s most ac [] m b l h = h
add_counts-IsRanked s most ac (f ∷ fs) m (b, bs) l h =
    add_counts-IsRanked s most ac fs (add_callback f (counts s most ac) m) bs l
      (add_callback-IsRanked f (counts s most ac) m h (b, l))

pub add_tells-IsRanked :
    (s i : ℕ) (fs : List ℕ) (m : Memory)
    → All (λ f. f < s) fs
    → s < m.next
    → IsRanked m
    → IsRanked (add_tells s i fs m)
add_tells-IsRanked s i [] m b l h = h
add_tells-IsRanked s i (f ∷ fs) m (b, bs) l h =
    add_tells-IsRanked s (i + 1) fs (add_callback f (tells s i) m) bs l
      (add_callback-IsRanked f (tells s i) m h (b, l))

-- More states leave the callbacks ranked.
grown-Reaches :
    (p next : ℕ) (cs : List Callback) → All (Reaches p next) cs → All (Reaches p (next + 1)) cs
grown-Reaches p next [] h = tt
grown-Reaches p next (counts s most ac ∷ cs) ((a, b), h) =
    ((a, omega arith), grown-Reaches p next cs h)
grown-Reaches p next (tells s i ∷ cs) ((a, b), h) = ((a, omega arith), grown-Reaches p next cs h)
grown-Reaches p next (pushes t ∷ cs) (_, h) = (tt, grown-Reaches p next cs h)

pub make-IsRanked : (m : Memory) → IsRanked m → IsRanked ((make_shared_state m).1)
unfolding make_shared_state
make-IsRanked m h =
    let k = with_state-IsRanked m m.next new_state h tt in
    record {
      later = λ p.
          grown-Reaches p m.next ((with_state m m.next new_state).states p).callbacks (k.later p);
    }
