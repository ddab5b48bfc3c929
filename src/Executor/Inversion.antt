-- ===== src/Executor/Inversion.antt =====
-- What the results of the queue operations of Executor (src/executor/include/primitives/executor.h)
-- say of the pool, and what keeps a closed queue a sign of stopped_.
use primitives.Prelude.{
  ℕ, ◌≡◌, refl, Bool, true, false, List, [], ◌∷◌, Option, none, some, ok, Option-cases, inl, inr,
}
use primitives.Executor.{
  try_pop_front, Task, Thread, Threads, get_elem?, push_attempt, push_own, pop_attempt, push_back,
  try_push, pop,
}
use primitives.Executor.Loop.{got, pop_own}
use primitives.Executor.Push.{Placed}
use primitives.Executor.Steal.{Taken}

pub push_attempt-Placed :
    (free : Bool) (k : ℕ) (t : Task) (p r : Threads)
    → push_attempt free k t p ≡ ok (some r)
    → Placed t p r
unfolding push_attempt try_push push_back
push_attempt-Placed free k t p r h = elim (Option-cases (get_elem? p k)) [
  | inl n ↦ let f = rw (n, push_attempt) at h in cc
  | inr (w, e) ↦ go w e free w.queue.done refl h
]
  where
    go :
        (w : Thread)
        → get_elem? p k ≡ some w
        → (f d : Bool) → w.queue.done ≡ d
        → push_attempt f k t p ≡ ok (some r)
        → Placed t p r
    go w e f true ed h = let g = rw (e, push_attempt, try_push, ed) at h in cc
    go w e false false ed h = let g = rw (e, push_attempt, try_push, ed) at h in cc
    go w e true false ed h =
        let g = rw (e, push_attempt, try_push, ed) at h in (k, (w, (e, rw (ed, push_back) cc)))

pub push_own-Placed : (k : ℕ) (t : Task) (p r : Threads) → push_own k t p ≡ ok r → Placed t p r
unfolding push_own
push_own-Placed k t p r h = elim (Option-cases (get_elem? p k)) [
  | inl n ↦ let f = rw (n, push_own) at h in cc
  | inr (w, e) ↦ let f = rw (e, push_own) at h in (k, (w, (e, cc)))
]

pub pop_attempt-Taken :
    (free : Bool) (i k : ℕ) (t : Task) (p r : Threads)
    → pop_attempt free i k p ≡ ok (some (t, r))
    → Taken i t p r
unfolding pop_attempt try_pop_front
pop_attempt-Taken free i k t p r h = elim (Option-cases (get_elem? p k)) [
  | inl n ↦ let f = rw (n, pop_attempt) at h in cc
  | inr (w, e) ↦ go w e free w.queue.q w.queue.done refl refl h
]
  where
    go :
        (w : Thread)
        → get_elem? p k ≡ some w
        → (f : Bool) (q : List Task) (d : Bool) → w.queue.q ≡ q
        → w.queue.done ≡ d
        → pop_attempt f i k p ≡ ok (some (t, r))
        → Taken i t p r
    go w e false q d eq ed h = let g = rw (e, pop_attempt, try_pop_front) at h in cc
    go w e true [] d eq ed h = let g = rw (e, pop_attempt, try_pop_front, eq) at h in cc
    go w e true (x ∷ rest) true eq ed h =
        let g = rw (e, pop_attempt, try_pop_front, eq, ed) at h in cc
    go w e true (x ∷ rest) false eq ed h =
        let g = rw (e, pop_attempt, try_pop_front, eq, ed) at h in
        (k, (w, (rest, (e, (cc, rw ed cc)))))

-- pop gives a task of thread i's own queue, or none when that queue is closed.
abbrev pub Own : ℕ → Option Task → Threads → Threads → Type 0
Own i none p r = (r ≡ p) × ((w : Thread) × ((get_elem? p i ≡ some w) × (w.queue.done ≡ true)))
Own i (some t) p r = Taken i t p r

pub pop_own-Own :
    (i : ℕ) (o : Option Task) (p r : Threads) → pop_own i p ≡ ok (got o r) → Own i o p r
unfolding pop_own pop
pop_own-Own i o p r h = elim (Option-cases (get_elem? p i)) [
  | inl n ↦ let f = rw (n, pop_own) at h in cc
  | inr (w, e) ↦ go o w e w.queue.q w.queue.done refl refl h
]
  where
    go :
        (o : Option Task) (w : Thread)
        → get_elem? p i ≡ some w
        → (q : List Task) (d : Bool) → w.queue.q ≡ q
        → w.queue.done ≡ d
        → pop_own i p ≡ ok (got o r)
        → Own i o p r
    go o w e [] false eq ed h = let g = rw (e, pop_own, pop, eq, ed) at h in cc
    go none w e [] true eq ed h = let g = rw (e, pop_own, pop, eq, ed) at h in (cc, (w, (e, ed)))
    go (some t) w e [] true eq ed h = let g = rw (e, pop_own, pop, eq, ed) at h in cc
    go none w e (x ∷ rest) true eq ed h =
        let g = rw (e, pop_own, pop, eq, ed) at h in (cc, (w, (e, ed)))
    go (some t) w e (x ∷ rest) true eq ed h = let g = rw (e, pop_own, pop, eq, ed) at h in cc
    go none w e (x ∷ rest) false eq ed h = let g = rw (e, pop_own, pop, eq, ed) at h in cc
    go (some t) w e (x ∷ rest) false eq ed h =
        let g = rw (e, pop_own, pop, eq, ed) at h in (i, (w, (rest, (e, (cc, rw ed cc)))))
