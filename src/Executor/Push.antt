-- ===== src/Executor/Push.antt =====
-- Where Executor::push (src/executor/include/primitives/executor.h) puts a task.
use primitives.Prelude.{
  ◌∷◌, ◌≤◌, zero, suc, [], ◌+◌, ◌%◌, ◌<◌, ℕ, ◌≡◌, refl, Bool, none, some, length, ok, arith,
  Bool-cases, ◌⊎◌, inl, inr,
}
use primitives.Executor.{
  false, TaskQueue, suc, push_own, place, push_loop, slot, try_push, push_attempt, Task, Thread,
  Threads, get_elem?, push_back, set_queue,
}
use primitives.Executor.Bags.{
  count-append, count, queued-store, AreOpen-get_elem?, one, AreOpen, queued, get_elem?-ok,
}

-- p with the task at the back of one of its queues, if that is not closed.
abbrev pub Placed : Task → Threads → Threads → Type 0
Placed t p r =
    (k : ℕ) × ((w : Thread) × ((get_elem? p k ≡ some w)
        × (r ≡ set_queue p k w (push_back t w.queue))))

push_attempt-cases :
    (free : Bool) (k : ℕ) (t : Task) (p : Threads)
    → k < length p
    → (push_attempt free k t p ≡ ok none)
      ⊎ ((r : Threads) × ((push_attempt free k t p ≡ ok (some r)) × Placed t p r))
unfolding push_attempt try_push push_back
push_attempt-cases free k t p h =
    let (w, e) = get_elem?-ok p k h in
    elim (Bool-cases (w.queue.done)) [
      | inl d ↦ inl (rw (e, push_attempt, try_push, d) refl)
      | inr o ↦ elim (Bool-cases free) [
        | inl f ↦ inr (
          set_queue p k w (push_back t w.queue),
          (rw (e, push_attempt, try_push, push_back, o, f) refl, (k, (w, (e, refl)))),
        )
        | inr f ↦ inl (rw (e, push_attempt, try_push, o, f) refl)
      ]
    ]

pub slot-ok : (n i k : ℕ) → 0 < n → slot n i k < n
slot-ok n i k h = omega arith

push_loop-cases :
    (free : ℕ → Bool) (i n left : ℕ) (t : Task) (p : Threads)
    → 0 < length p
    → (push_loop free i n left t p ≡ ok none)
      ⊎ ((r : Threads) × ((push_loop free i n left t p ≡ ok (some r)) × Placed t p r))
unfolding push_loop
push_loop-cases free i n zero t p h = inl refl
push_loop-cases free i n (suc left) t p h =
    elim (push_attempt-cases (free n) (slot (length p) i n) t p (slot-ok (length p) i n h)) [
      | inr (r, (e, x)) ↦ inr (r, (rw (e, push_loop) refl, x))
      | inl e ↦ elim (push_loop-cases free i (n + 1) left t p h) [
        | inl f ↦ inl (rw (e, push_loop, f) refl)
        | inr (r, (f, x)) ↦ inr (r, (rw (e, push_loop, f) refl, x))
      ]
    ]

-- Whatever mutexes are free and wherever the index stands, a push on a pool with threads returns,
-- and the pool is as before but for one queue, which has the task at its back unless it is closed.
pub place-Placed :
    (free : ℕ → Bool) (i : ℕ) (t : Task) (p : Threads)
    → 0 < length p
    → (r : Threads) × ((place free i t p ≡ ok r) × Placed t p r)
unfolding place push_own push_back
place-Placed free i t p h = elim (push_loop-cases free i 0 (length p) t p h) [
  | inr (r, (e, x)) ↦ (r, (rw (e, place) refl, x))
  | inl e ↦
      let (w, f) = get_elem?-ok p (i % length p) (omega arith) in
      (
        set_queue p (i % length p) w (push_back t w.queue),
        (rw (e, place, push_own, f) refl, (i % length p, (w, (f, refl)))),
      )
]

count-push_back :
    (u t : Task) (c : TaskQueue)
    → c.done ≡ false
    → count u ((push_back t c).q) ≡ count u c.q + one u t
unfolding push_back
count-push_back u t c o = rw (o, push_back) (omega (arith, count-append u c.q (t ∷ [])))

count-push_back_le :
    (u t : Task) (c : TaskQueue) → count u ((push_back t c).q) ≤ count u c.q + one u t
unfolding push_back
count-push_back_le u t c = elim (Bool-cases c.done) [
  | inl d ↦ rw (d, push_back) (omega arith)
  | inr o ↦ let e = count-push_back u t c o in omega arith
]

pub Placed-queued_le :
    (u t : Task) (p r : Threads) → Placed t p r → queued u r ≤ queued u p + one u t
Placed-queued_le u t p r (k, (w, (e, f))) = rw f (
    omega (
      arith,
      queued-store u p k w (record w { queue = push_back t w.queue }) e,
      count-push_back_le u t w.queue,
    ))

pub Placed-queued :
    (u t : Task) (p r : Threads) → AreOpen p → Placed t p r → queued u r ≡ queued u p + one u t
Placed-queued u t p r o (k, (w, (e, f))) = rw f (
    omega (
      arith,
      queued-store u p k w (record w { queue = push_back t w.queue }) e,
      count-push_back u t w.queue (AreOpen-get_elem? p k w o e),
    ))

-- A push on an open pool with threads adds the task to the bag of what is queued, once, whatever
-- mutexes are free and wherever the index stands.
pub place-queued :
    (free : ℕ → Bool) (i : ℕ) (t : Task) (p : Threads)
    → 0 < length p
    → AreOpen p
    → (r : Threads) × ((place free i t p ≡ ok r) × ((u : Task) → queued u r ≡ queued u p + one u t))
place-queued free i t p h o =
    let (r, (e, x)) = place-Placed free i t p h in (r, (e, λ u. Placed-queued u t p r o x))
