-- ===== src/Executor/Steal.antt =====
-- What a thread of Executor (src/executor/include/primitives/executor.h) gets from the queues.
use native.Mathlib.Nat.{mod-eq_of_lt, add-mod_right}
use primitives.Prelude.{
  ◌∙◌, undefined, ltb, leb, leb, ◌≢◌, zero, suc, ℕ, ◌+◌, ◌*◌, ◌%◌, ◌-◌, ◌^◌, ◌<◌, ◌≤◌, ◌≡◌, refl,
  Bool, true, false, List, [], ◌∷◌, Option, none, some, length, if◌then◌else◌, Outcome, ok, arith,
  Bool-cases, ◌⊎◌, inl, inr,
}
use primitives.Executor.{
  try_pop, pop_loop, try_pop_front, pop_attempt, Task, Thread, Threads, get_elem?, store, set_queue,
  set_busy, slot,
}
use primitives.Executor.Bags.{get_elem?-ok, queued, one, queued-store}
use primitives.Executor.Push.{slot-ok}

-- r is p without the first task of one of its queues, t, with thread i marked busy.
abbrev pub Taken : ℕ → Task → Threads → Threads → Type 0
Taken i t p r =
    (k : ℕ) × ((w : Thread) × ((rest : List Task) × ((get_elem? p k ≡ some w)
          × ((w.queue.q ≡ t ∷ rest)
              × (r ≡ set_busy (set_queue p k w (record w.queue { q = rest })) i true)))))

pub set_busy-cons :
    (w : Thread) (p : Threads) (i : ℕ) (b : Bool) → set_busy (w ∷ p) (suc i) b ≡ w ∷ set_busy p i b
set_busy-cons w p i b =
    elim (get_elem? p i)
      as (λ o.
        elim o [ none ↦ w ∷ p | some v ↦ w ∷ store p i (record v { busy = b }) ]
        ≡ w ∷ elim o [ none ↦ p | some v ↦ store p i (record v { busy = b }) ]) [
          | none ↦ refl
          | some v ↦ refl
        ]

pub queued-set_busy :
    (u : Task) (p : Threads) (i : ℕ) (b : Bool) → queued u (set_busy p i b) ≡ queued u p
queued-set_busy u [] i b = refl
queued-set_busy u (w ∷ p) zero b = refl
queued-set_busy u (w ∷ p) (suc i) b =
    rw (set_busy-cons w p i b) (omega (arith, queued-set_busy u p i b))

pub Taken-queued :
    (u : Task) (i : ℕ) (t : Task) (p r : Threads)
    → Taken i t p r
    → queued u p ≡ queued u r + one u t
Taken-queued u i t p r (k, (w, (rest, (e, (q, f))))) =
    let v : Thread = record w { queue = record w.queue { q = rest } } in
    let a = queued-store u p k w v e in
    rw (f, queued-set_busy u (store p k v) i true) (omega (arith, rw q at a))

pub pop_attempt-cases :
    (free : Bool) (i k : ℕ) (p : Threads)
    → k < length p
    → (pop_attempt free i k p ≡ ok none)
      ⊎ ((t : Task) × ((r : Threads) × ((pop_attempt free i k p ≡ ok (some (t, r)))
              × Taken i t p r)))
unfolding pop_attempt try_pop_front
pop_attempt-cases free i k p h =
    let (w, e) = get_elem?-ok p k h in go w e free w.queue.q w.queue.done refl refl
  where
    go :
        (w : Thread)
        → get_elem? p k ≡ some w
        → (f : Bool) (q : List Task) (d : Bool) → w.queue.q ≡ q
        → w.queue.done ≡ d
        → (pop_attempt f i k p ≡ ok none)
          ⊎ ((t : Task) × ((r : Threads) × ((pop_attempt f i k p ≡ ok (some (t, r)))
                  × Taken i t p r)))
    go w e false q d eq ed = inl (rw (e, pop_attempt, try_pop_front) refl)
    go w e true [] d eq ed = inl (rw (e, pop_attempt, try_pop_front, eq) refl)
    go w e true (t ∷ rest) true eq ed = inl (rw (e, pop_attempt, try_pop_front, eq, ed) refl)
    go w e true (t ∷ rest) false eq ed = inr (
      t,
      (
        set_busy (set_queue p k w (record w.queue { q = rest })) i true,
        (rw (e, pop_attempt, try_pop_front, eq, ed) refl, (k, (w, (rest, (e, (eq, refl)))))),
      ),
    )

-- The loop has a task.
abbrev pub Found : ℕ → Threads → Outcome (Option (Task × Threads)) → Type 0
Found i p o = (t : Task) × ((r : Threads) × ((o ≡ ok (some (t, r))) × Taken i t p r))

pop_attempt-finds :
    (i k : ℕ) (p : Threads) (w : Thread) (t : Task) (rest : List Task)
    → get_elem? p k ≡ some w
    → w.queue.q ≡ t ∷ rest
    → w.queue.done ≡ false
    → Found i p (pop_attempt true i k p)
unfolding pop_attempt try_pop_front
pop_attempt-finds i k p w t rest e q d = (
  t,
  (
    set_busy (set_queue p k w (record w.queue { q = rest })) i true,
    (rw (e, pop_attempt, try_pop_front, q, d) refl, (k, (w, (rest, (e, (q, refl)))))),
  ),
)

turned :
    {A : Type 0} (b : Bool) (next : Outcome A)
    → b ≡ true
    → elim b [ true ↦ next | false ↦ undefined ] ≡ next
turned true next h = refl
turned false next h = cc

pop_loop_next :
    (free : ℕ → Bool) (i n left : ℕ) (p : Threads)
    → pop_attempt (free n) i (slot (length p) i n) p ≡ ok none
    → ltb n (2 ^ 31 - 1) ≡ true
    → pop_loop free i n (suc left) p ≡ pop_loop free i (n + 1) left p
unfolding pop_loop
pop_loop_next free i n left p f more =
    rw (f, pop_loop) (turned (ltb n (2 ^ 31 - 1)) (pop_loop free i (n + 1) left p) more)

-- Attempt m, which the loop has ahead of it, has a free mutex and an open queue with a task.
pop_loop-finds :
    (free : ℕ → Bool) (i n left m : ℕ) (p : Threads) (w : Thread) (t : Task) (rest : List Task)
    → 0 < length p
    → n ≤ m
    → m < n + left
    → m < 2 ^ 31
    → free m ≡ true
    → get_elem? p (slot (length p) i m) ≡ some w
    → w.queue.q ≡ t ∷ rest
    → w.queue.done ≡ false
    → Found i p (pop_loop free i n left p)
unfolding pop_loop
pop_loop-finds free i n zero m p w t rest h a b c s e q d = absurd (omega arith)
pop_loop-finds free i n (suc left) m p w t rest h a b c s e q d =
    elim (pop_attempt-cases (free n) i (slot (length p) i n) p (slot-ok (length p) i n h)) [
      | inr (t', (r, (f, x))) ↦ (t', (r, (rw (f, pop_loop) refl, x)))
      | inl f ↦
          let later : n < m = ground (arith, reached f) in
          let more : ltb n (2 ^ 31 - 1) ≡ true = ground arith in
          let (t', (r, (g, x))) =
            pop_loop-finds free i (n + 1) left m p w t rest h (omega arith) (omega arith) c s e q
              d in
          (t', (r, (pop_loop_next free i n left p f more ∙ g, x)))
    ]
  where
    reached : pop_attempt (free n) i (slot (length p) i n) p ≡ ok none → n ≢ m
    reached f y =
        let (t', (r, (g, x))) = pop_attempt-finds i (slot (length p) i m) p w t rest e q d in
        let g' : pop_attempt (free m) i (slot (length p) i m) p ≡ ok (some (t', r)) = rw s g in
        let g'' : pop_attempt (free n) i (slot (length p) i n) p ≡ ok (some (t', r)) = rw y g' in cc

-- The attempt of thread i on queue k.
turn : ℕ → ℕ → ℕ → ℕ
turn n i k = if leb i k then k - i else k + n - i

slot-turn : (n i k : ℕ) → i < n → k < n → n ≤ 2 ^ 31 → slot n i (turn n i k) ≡ k
unfolding turn
slot-turn n i k hi hk h = elim (Bool-cases (leb i k)) [
  | inl y ↦
      let e : i + (k - i) ≡ k = ground arith in
      let f : k % 2 ^ 64 ≡ k = omega arith in rw (y, e, f) (mod-eq_of_lt hk)
  | inr y ↦
      let e : i + (k + n - i) ≡ k + n = ground arith in
      let f : (k + n) % 2 ^ 64 ≡ k + n = omega arith in
      rw (y, e, f, add-mod_right k n) (mod-eq_of_lt hk)
]

-- A thread's stealing loop finds a task whenever an open queue has one and no other thread holds a
-- mutex, with at most 2 ^ 31 threads: the loop reaches each queue before its int overflows.
pub try_pop-finds :
    (i k : ℕ) (p : Threads) (w : Thread) (t : Task) (rest : List Task)
    → i < length p
    → k < length p
    → length p ≤ 2 ^ 31
    → get_elem? p k ≡ some w
    → w.queue.q ≡ t ∷ rest
    → w.queue.done ≡ false
    → Found i p (try_pop (λ _. true) i p)
unfolding try_pop turn
try_pop-finds i k p w t rest hi hk h e q d =
    let no_wrap : length p * 4 % 2 ^ 64 ≡ length p * 4 = omega arith in
    rw no_wrap (
      pop_loop-finds (λ _. true) i 0 (length p * 4) (turn (length p) i k) p w t rest (omega arith)
        (omega arith) (ground arith) (ground arith) refl (rw (slot-turn (length p) i k hi hk h) e) q
        d)
