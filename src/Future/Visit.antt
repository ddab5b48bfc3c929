-- ===== src/Future/Visit.antt =====
-- What the end of one future does to the result of whenAll
-- (src/executor/include/primitives/executor.h), whose callback it carries.
use primitives.Prelude.{
  ap, ◌∙◌, ◌%◌, Bool-cases, inl, inr, ℕ, suc, ◌+◌, ◌^◌, ◌≤◌, ◌<◌, ◌≡◌, refl, Bool, true, false,
  List, [], ◌∷◌, ◌++◌, Option, some, map, arith, ◌==◌, ltb,
}
use primitives.Future.{
  SharedState, Memory, Callback, counts, pushes, update, with_state, set_executed, call_each,
}

module _ (s most ac : ℕ) where
  -- The callbacks of a future: then's, and whenAll's at the end.
  abbrev pub Counting : List Callback → Type 0
  Counting cs = (ts : List ℕ) × (cs ≡ map pushes ts ++ (counts s most ac ∷ []))

  -- The state of the result: no callbacks of its own, and set when the counter is above `most`.
  pub record Pending (m : Memory) : Type 0 where
    pub quiet : (m.states s).callbacks ≡ []
    pub decided : (m.states s).set ≡ ltb most (m.counters ac)

  -- n is m after the end of f: f is set and counted, and no state but f's and the result's differs.
  pub record Counted (f : ℕ) (m n : Memory) : Type 0 where
    pub ended : (n.states f).set ≡ true
    pub others : (g : ℕ) → (g == f) ≡ false → (g == s) ≡ false → n.states g ≡ m.states g
    pub counter : n.counters ac ≡ m.counters ac + 1
    pub allocated : n.next ≡ m.next
    pub pending : Pending n

call_each-pushes :
    (execute : ℕ → Memory → Option (Bool × Memory)) (ts : List ℕ) (cs : List Callback) (m : Memory)
    → (g : List ℕ) × (call_each execute (map pushes ts ++ cs) m
        ≡ call_each execute cs (record m { given = g }))
call_each-pushes execute [] cs m = (m.given, refl)
call_each-pushes execute (t ∷ ts) cs m =
    let (g, e) = call_each-pushes execute ts cs (record m { given = t ∷ m.given }) in (g, e)

-- p with its flag up, and with its callbacks called.
abbrev pub raised : ℕ → Memory → Memory
raised p m = with_state m p (record (m.states p) { set = true })

abbrev pub emptied : ℕ → Memory → Memory
emptied p m = with_state m p (record (m.states p) { callbacks = [] })

pub set_executed-unset :
    (k p : ℕ) (m u : Memory)
    → (m.states p).set ≡ false
    → call_each (set_executed k) (m.states p).callbacks (raised p m) ≡ some u
    → set_executed (suc k) p m ≡ some (true, emptied p u)
unfolding set_executed
set_executed-unset k p m u a b = rw (a, set_executed, b) refl

set_executed-quiet :
    (k p : ℕ) (m : Memory)
    → (m.states p).set ≡ false
    → (m.states p).callbacks ≡ []
    → set_executed (suc k) p m ≡ some (true, emptied p (raised p m))
set_executed-quiet k p m a b = set_executed-unset k p m (raised p m) a (rw b refl)

-- The memory when the counter has gone up.
abbrev stepped : ℕ → Memory → Memory
stepped ac m = record m { counters = update m.counters ac ((m.counters ac + 1) % 2 ^ 64) }

pub ==_refl : (a : ℕ) → (a == a) ≡ true
==_refl a = ground arith

pub ==_comm : (a b : ℕ) → (a == b) ≡ false → (b == a) ≡ false
==_comm a b h = ground arith

emptied-same :
    (p : ℕ) (m : Memory) (g : ℕ) → (g == p) ≡ false → (emptied p (raised p m)).states g ≡ m.states g
emptied-same p m g h = rw h refl

emptied-set : (p : ℕ) (m : Memory) → ((emptied p (raised p m)).states p).set ≡ true
emptied-set p m = rw (==_refl p) refl

emptied-callbacks : (p : ℕ) (m : Memory) → ((emptied p m).states p).callbacks ≡ []
emptied-callbacks p m = rw (==_refl p) refl

counters-stepped :
    (ac : ℕ) (m : Memory) → m.counters ac < 2 ^ 63 → (stepped ac m).counters ac ≡ m.counters ac + 1
counters-stepped ac m h = rw (==_refl ac) (omega arith)

call_each-counts :
    (k s most ac : ℕ) (m : Memory)
    → Pending s most ac m
    → m.counters ac ≤ most
    → most < 2 ^ 63
    → (u : Memory) × ((call_each (set_executed (suc k)) (counts s most ac ∷ []) m ≡ some u)
        × (((g : ℕ) → (g == s) ≡ false → u.states g ≡ m.states g)
            × ((u.counters ac ≡ m.counters ac + 1) × ((u.next ≡ m.next) × Pending s most ac u))))
call_each-counts k s most ac m h le b =
    let up : m.counters ac < 2 ^ 63 = omega arith in
    let unset : (m.states s).set ≡ false =
      h.decided ∙ (let z : ltb most (m.counters ac) ≡ false = ground arith in z) in
    elim (Bool-cases (m.counters ac == most)) [
      | inl y ↦ (
        emptied s (raised s (stepped ac m)),
        (
          rw (y, set_executed-quiet k s (stepped ac m) unset h.quiet) refl,
          (
            λ g q. emptied-same s (stepped ac m) g q,
            (
              counters-stepped ac m up,
              (
                refl,
                record {
                  quiet = emptied-callbacks s (raised s (stepped ac m));
                  decided =
                      emptied-set s (stepped ac m)
                      ∙ (let z : true ≡ ltb most ((stepped ac m).counters ac) =
                            rw (counters-stepped ac m up) (ground arith) in
                          z);
                },
              ),
            ),
          ),
        ),
      )
      | inr y ↦ (
        stepped ac m,
        (
          rw y refl,
          (
            λ g q. refl,
            (
              counters-stepped ac m up,
              (
                refl,
                record {
                  quiet = h.quiet;
                  decided =
                      unset
                      ∙ (let z : false ≡ ltb most ((stepped ac m).counters ac) =
                            rw (counters-stepped ac m up) (ground arith) in
                          z);
                },
              ),
            ),
          ),
        ),
      )
    ]

pub with_state-same :
    (m : Memory) (p : ℕ) (v : SharedState) (g : ℕ)
    → (g == p) ≡ false
    → (with_state m p v).states g ≡ m.states g
with_state-same m p v g h = rw h refl

pub with_state-at : (m : Memory) (p : ℕ) (v : SharedState) → (with_state m p v).states p ≡ v
with_state-at m p v = rw (==_refl p) refl

with_state-Pending :
    (s most ac : ℕ) (m : Memory) (f : ℕ) (v : SharedState)
    → (s == f) ≡ false
    → Pending s most ac m
    → Pending s most ac (with_state m f v)
with_state-Pending s most ac m f v ne h =
    let e = with_state-same m f v s ne in
    record { quiet = ap (λ x. x.callbacks) e ∙ h.quiet; decided = ap (λ x. x.set) e ∙ h.decided }

given-Pending :
    (s most ac : ℕ) (m : Memory) (g : List ℕ)
    → Pending s most ac m
    → Pending s most ac (record m { given = g })
given-Pending s most ac m g h = record { quiet = h.quiet; decided = h.decided }

-- The end of a future that carries whenAll's callback.
pub set_executed-Counted :
    (k s most ac f : ℕ) (m : Memory)
    → (s == f) ≡ false
    → Counting s most ac (m.states f).callbacks
    → (m.states f).set ≡ false
    → Pending s most ac m
    → m.counters ac ≤ most
    → most < 2 ^ 63
    → (n : Memory) × ((set_executed (suc (suc k)) f m ≡ some (true, n)) × Counted s most ac f m n)
set_executed-Counted k s most ac f m ne (ts, q) unset h le b =
    let (g, e) = call_each-pushes (set_executed (suc k)) ts (counts s most ac ∷ []) (raised f m) in
    let m1 : Memory = record (raised f m) { given = g } in
    let h1 : Pending s most ac m1 =
      given-Pending s most ac (raised f m) g
        (with_state-Pending s most ac m f (record (m.states f) { set = true }) ne h) in
    let (u, (c, (same, (up, (nx, pu))))) = call_each-counts k s most ac m1 h1 le b in
    (
      emptied f u,
      (
        set_executed-unset (suc k) f m u unset
            (ap (λ x. call_each (set_executed (suc k)) x (raised f m)) q ∙ e ∙ c),
        record {
          ended =
              ap (λ x. x.set) (with_state-at u f (record (u.states f) { callbacks = [] }))
              ∙ ap (λ x. x.set) (same f (==_comm s f ne))
              ∙ ap (λ x. x.set) (with_state-at m f (record (m.states f) { set = true }));
          others = λ x xf xs.
              with_state-same u f (record (u.states f) { callbacks = [] }) x xf
              ∙ same x xs
              ∙ with_state-same m f (record (m.states f) { set = true }) x xf;
          counter = up;
          allocated = nx;
          pending = with_state-Pending s most ac u f (record (u.states f) { callbacks = [] }) ne pu;
        },
      ),
    )
