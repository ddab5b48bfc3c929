-- ===== src/Executor/Closing.antt =====
-- What the operations of Executor (src/executor/include/primitives/executor.h) do to the sign that a
-- closed queue is of stopped_.
use primitives.Prelude.{
  Bool-cases, inl, inr, [], ◌∷◌, false, ◌++◌, zero, suc, ℕ, ◌≡◌, refl, Bool, true, false, [], ◌∷◌,
  All, if◌then◌else◌, sym, ◌∙◌,
}
use primitives.Executor.Bags.{AreOpen}
use primitives.Executor.{Task, TaskQueue, Thread, Threads, store, push_back, set_busy}
use primitives.Executor.Bags.{All-store, All-get_elem?}
use primitives.Executor.Push.{Placed}
use primitives.Executor.Steal.{Taken, set_busy-cons}

-- A closed queue shows that stopped_ is set.
abbrev pub Closed : Bool → Thread → Type 0
Closed stopped w = w.queue.done ≡ true → stopped ≡ true

pub set_busy-Closed :
    (s : Bool) (p : Threads) (i : ℕ) (b : Bool) → All (Closed s) p → All (Closed s) (set_busy p i b)
set_busy-Closed s [] i b h = h
set_busy-Closed s (w ∷ p) zero b h = h
set_busy-Closed s (w ∷ p) (suc i) b (h, hs) =
    rw (set_busy-cons w p i b) (h, set_busy-Closed s p i b hs)

push_back-done : (t : Task) (c : TaskQueue) → (push_back t c).done ≡ c.done
unfolding push_back
push_back-done t c =
    elim c.done
      as (λ d.
        (if d then record c { done = d } else record { q = c.q ++ (t ∷ []); done = d }).done ≡ d) [
          | true ↦ refl
          | false ↦ refl
        ]

pub Placed-Closed :
    (s : Bool) (t : Task) (p r : Threads) → Placed t p r → All (Closed s) p → All (Closed s) r
Placed-Closed s t p r (k, (w, (e, f))) h = rw f (
    All-store (Closed s) p k (record w { queue = push_back t w.queue }) h
      (λ d. All-get_elem? (Closed s) p k w h e (sym (push_back-done t w.queue) ∙ d)))

pub Taken-Closed :
    (s : Bool) (i : ℕ) (t : Task) (p r : Threads)
    → Taken i t p r
    → All (Closed s) p
    → All (Closed s) r
Taken-Closed s i t p r (k, (w, (rest, (e, (q, f))))) h =
    let v : Thread = record w { queue = record w.queue { q = rest } } in
    rw f (
      set_busy-Closed s (store p k v) i true
        (All-store (Closed s) p k v h (All-get_elem? (Closed s) p k w h e)))

pub stopped-Closed : (s : Bool) → s ≡ true → (p : Threads) → All (Closed s) p
stopped-Closed s e [] = tt
stopped-Closed s e (w ∷ p) = (λ _. e, stopped-Closed s e p)

pub Closed-AreOpen : (s : Bool) → s ≡ false → (p : Threads) → All (Closed s) p → AreOpen p
Closed-AreOpen s e [] h = tt
Closed-AreOpen s e (w ∷ p) (h, hs) = (
  elim (Bool-cases w.queue.done) [ inl y ↦ let f = h y in cc | inr n ↦ n ],
  Closed-AreOpen s e p hs,
)
