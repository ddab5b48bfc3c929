-- ===== src/Executor/Bags.antt =====
-- The tasks that the queues of Executor (src/executor/include/primitives/executor.h) hold between
-- them, as a bag: how many times each task is there.
use primitives.Prelude.{
  ◌≡◌, refl, zero, suc, ◌<◌, ◌<◌, ℕ, zero, suc, ◌+◌, ◌≡◌, refl, false, List, [], ◌∷◌, ◌++◌, some,
  length, if◌then◌else◌, arith, ◌==◌, All,
}
use primitives.Executor.{Task, Thread, Threads, get_elem?, store}

abbrev pub one : Task → Task → ℕ
one u t = if u == t then 1 else 0

-- A bag of tasks.
abbrev pub count : Task → List Task → ℕ
count u [] = 0
count u (t ∷ q) = one u t + count u q

module _ {A : Type 0} where
  -- The sum of f over a list.
  abbrev pub total : (A → ℕ) → List A → ℕ
  total f [] = 0
  total f (x ∷ xs) = f x + total f xs

  -- What a store changes in it.
  pub total-store :
      (f : A → ℕ) (p : List A) (k : ℕ) (w v : A)
      → get_elem? p k ≡ some w
      → total f (store p k v) + f w ≡ total f p + f v
  total-store f [] k w v h = cc
  total-store f (x ∷ p) zero w v h = let e : x ≡ w = cc in rw e (omega arith)
  total-store f (x ∷ p) (suc k) w v h = omega (arith, total-store f p k w v h)

  pub All-store :
      (P : A → Type 0) (p : List A) (k : ℕ) (v : A) → All P p → P v → All P (store p k v)
  All-store P [] k v hs h = tt
  All-store P (x ∷ p) zero v (hx, hs) h = (h, hs)
  All-store P (x ∷ p) (suc k) v (hx, hs) h = (hx, All-store P p k v hs h)

  pub All-get_elem? :
      (P : A → Type 0) (p : List A) (k : ℕ) (w : A) → All P p → get_elem? p k ≡ some w → P w
  All-get_elem? P [] k w hs h = cc
  All-get_elem? P (x ∷ p) zero w (hx, hs) h = let e : x ≡ w = cc in rw⁻¹ e hx
  All-get_elem? P (x ∷ p) (suc k) w (hx, hs) h = All-get_elem? P p k w hs h

  pub All-impl : (P Q : A → Type 0) → ((x : A) → P x → Q x) → (p : List A) → All P p → All Q p
  All-impl P Q f [] h = tt
  All-impl P Q f (x ∷ p) (hx, hs) = (f x hx, All-impl P Q f p hs)

  pub get_elem?-ok : (p : List A) (k : ℕ) → k < length p → (w : A) × (get_elem? p k ≡ some w)
  get_elem?-ok [] k h = absurd (omega arith)
  get_elem?-ok (x ∷ p) zero h = (x, refl)
  get_elem?-ok (x ∷ p) (suc k) h = get_elem?-ok p k (omega arith)

abbrev pub queued : Task → Threads → ℕ
queued u = total (λ w. count u w.queue.q)

-- No queue is closed.
abbrev pub AreOpen : Threads → Type 0
AreOpen = All (λ w. w.queue.done ≡ false)

pub count-append : (u : Task) (q r : List Task) → count u (q ++ r) ≡ count u q + count u r
count-append u [] r = omega arith
count-append u (t ∷ q) r = omega (arith, count-append u q r)

pub queued-store :
    (u : Task) (p : Threads) (k : ℕ) (w v : Thread)
    → get_elem? p k ≡ some w
    → queued u (store p k v) + count u w.queue.q ≡ queued u p + count u v.queue.q
queued-store u p k w v h = total-store (λ x. count u x.queue.q) p k w v h

pub AreOpen-get_elem? :
    (p : Threads) (k : ℕ) (w : Thread) → AreOpen p → get_elem? p k ≡ some w → w.queue.done ≡ false
AreOpen-get_elem? p k w o h = All-get_elem? (λ x. x.queue.done ≡ false) p k w o h
