-- ===== src/Executor/Safety.antt =====
-- What holds in every state of Executor (src/executor/include/primitives/executor.h), however its
-- threads and users interleave.
use mathlib.Core.Path.{subst}
use primitives.Prelude.{
  true, false, sym, ◌∙◌, ◌≢◌, ℕ, ◌+◌, ◌≤◌, ◌≡◌, ◌≢◌, refl, Bool, true, false, List, ◌∷◌, Option,
  none, some, ok, arith, Option-cases, inl, inr,
}
use primitives.Executor.{close, Task, Threads, get_elem?, store}
use primitives.Executor.Loop.{Phase, seeks, holds, calls, returns, check, finish, close_at}
use primitives.Executor.Bags.{
  All-store, All-get_elem?, All-impl, total-store, count, queued, total, queued-store,
}
use primitives.Executor.Push.{Placed-queued, Placed-queued_le, Placed}
use primitives.Executor.Steal.{Taken, queued-set_busy, Taken-queued}
use primitives.Executor.Inversion.{
  Own, push_attempt-Placed, push_own-Placed, pop_attempt-Taken, pop_own-Own,
}
use primitives.Executor.Closing.{
  Closed-AreOpen, Closed, set_busy-Closed, Placed-Closed, Taken-Closed, stopped-Closed,
}
use primitives.Executor.System.{
  System, at, Step, tries, waits_for, steals, pops, checks, finishes, leaves, stops, closes, held,
  IsSound, started,
}

-- An empty function is in the hands of a thread only when stopped_ is set.
abbrev pub EmptyHeld : Bool → Phase → Type 0
EmptyHeld stopped h = h ≡ holds none → stopped ≡ true

-- What a thread's change of phase does to the bag of what is held.
total-at :
    (u : Task) (s : System) (i : ℕ) (a b : Phase)
    → get_elem? s.phases i ≡ some a
    → total (held u) (store s.phases i b) + held u a ≡ total (held u) s.phases + held u b
total-at u s i a b e = total-store (held u) s.phases i a b e

Placed-IsSound :
    (s : System) (t : Task) (p : Threads)
    → Placed t s.thread_pool p
    → IsSound s
    → IsSound (record s { thread_pool = p; pushed = t ∷ s.pushed })
Placed-IsSound s t p x h = record {
  conserved = λ u. omega (arith, h.conserved u, Placed-queued_le u t s.thread_pool p x);
  kept = λ n u. omega (
    arith,
    h.kept n u,
    Placed-queued u t s.thread_pool p (Closed-AreOpen s.stopped n s.thread_pool h.closed) x,
  );
  closed = Placed-Closed s.stopped t s.thread_pool p x h.closed;
  empty_held = h.empty_held;
}

some_held : (stopped : Bool) (t : Task) → EmptyHeld stopped (holds (some t))
some_held stopped t e = cc

Taken-IsSound :
    (s : System) (i : ℕ) (t : Task) (p : Threads)
    → get_elem? s.phases i ≡ some seeks
    → Taken i t s.thread_pool p
    → IsSound s
    → IsSound (at (record s { thread_pool = p }) i (holds (some t)))
Taken-IsSound s i t p a x h = record {
  conserved = λ u. omega (
    arith,
    h.conserved u,
    Taken-queued u i t s.thread_pool p x,
    total-at u s i seeks (holds (some t)) a,
  );
  kept = λ n u. omega (
    arith,
    h.kept n u,
    Taken-queued u i t s.thread_pool p x,
    total-at u s i seeks (holds (some t)) a,
  );
  closed = Taken-Closed s.stopped i t s.thread_pool p x h.closed;
  empty_held =
      All-store (EmptyHeld s.stopped) s.phases i (holds (some t)) h.empty_held
        (some_held s.stopped t);
}

Own-IsSound :
    (s : System) (i : ℕ) (o : Option Task) (p : Threads)
    → get_elem? s.phases i ≡ some seeks
    → Own i o s.thread_pool p
    → IsSound s
    → IsSound (at (record s { thread_pool = p }) i (holds o))
Own-IsSound s i (some t) p a x h = Taken-IsSound s i t p a x h
Own-IsSound s i none p a (q, (w, (e, d))) h = record {
  conserved = λ u. rw q (omega (arith, h.conserved u, total-at u s i seeks (holds none) a));
  kept = λ n u. rw q (omega (arith, h.kept n u, total-at u s i seeks (holds none) a));
  closed = rw q h.closed;
  empty_held =
      All-store (EmptyHeld s.stopped) s.phases i (holds none) h.empty_held
        (λ _. All-get_elem? (Closed s.stopped) s.thread_pool i w h.closed e d);
}

true-ne-false : true ≢ false
true-ne-false e = cc

-- A thread whose new phase and new calls hold no more than it held.
moved-IsSound :
    (s : System) (i : ℕ) (a b : Phase) (c : List Task)
    → get_elem? s.phases i ≡ some a
    → ((u : Task) → held u b + count u c ≤ held u a + count u s.called)
    → (s.stopped ≡ false → (u : Task) → held u b + count u c ≡ held u a + count u s.called)
    → b ≢ holds none
    → IsSound s
    → IsSound (at (record s { called = c }) i b)
moved-IsSound s i a b c e le eq ne h = record {
  conserved = λ u. omega (arith, h.conserved u, le u, total-at u s i a b e);
  kept = λ n u. omega (arith, h.kept n u, eq n u, total-at u s i a b e);
  closed = h.closed;
  empty_held = All-store (EmptyHeld s.stopped) s.phases i b h.empty_held (λ f. absurd (ne f));
}

check-IsSound :
    (s : System) (i : ℕ) (o : Option Task) (g : Phase)
    → get_elem? s.phases i ≡ some (holds o)
    → check s.stopped o ≡ ok g
    → IsSound s
    → IsSound (at (record s { called = started g s.called }) i g)
unfolding check
check-IsSound s i o g a e h = go s.stopped o refl refl e
  where
    go :
        (d : Bool) (r : Option Task)
        → s.stopped ≡ d
        → o ≡ r
        → check d r ≡ ok g
        → IsSound (at (record s { called = started g s.called }) i g)
    go true r ed er f =
        let q : returns ≡ g = cc in
        subst (λ g. IsSound (at (record s { called = started g s.called }) i g)) q
          (moved-IsSound s i (holds o) returns s.called a (λ u. omega arith)
            (λ n. absurd (true-ne-false (sym ed ∙ n))) (λ n. cc) h)
    go false none ed er f = cc
    go false (some t) ed er f =
        let q : calls t ≡ g = cc in
        subst (λ g. IsSound (at (record s { called = started g s.called }) i g)) q
          (moved-IsSound s i (holds (some t)) (calls t) (t ∷ s.called) (rw⁻¹ er a)
            (λ u. omega arith) (λ n u. omega arith) (λ n. cc) h)

queued-close_at : (u : Task) (k : ℕ) (p : Threads) → queued u (close_at k p) ≡ queued u p
unfolding close_at close
queued-close_at u k p = elim (Option-cases (get_elem? p k)) [
  | inl n ↦ rw (n, close_at) refl
  | inr (w, e) ↦
      rw (e, close_at) (omega (arith, queued-store u p k w (record w { queue = close w.queue }) e))
]

finish-IsSound :
    (s : System) (i : ℕ) (t : Task)
    → get_elem? s.phases i ≡ some (calls t)
    → IsSound s
    → IsSound (at (record s { thread_pool = finish i s.thread_pool }) i seeks)
unfolding finish
finish-IsSound s i t a h =
    let m =
      moved-IsSound s i (calls t) seeks s.called a (λ u. omega arith) (λ n u. omega arith) (λ n. cc)
        h in
    record {
      conserved = λ u. rw (queued-set_busy u s.thread_pool i false) (m.conserved u);
      kept = λ n u. rw (queued-set_busy u s.thread_pool i false) (m.kept n u);
      closed = set_busy-Closed s.stopped s.thread_pool i false m.closed;
      empty_held = m.empty_held;
    }

close-IsSound :
    (s : System) (k : ℕ)
    → s.stopped ≡ true
    → IsSound s
    → IsSound (record s { thread_pool = close_at k s.thread_pool })
close-IsSound s k b h = record {
  conserved = λ u. rw (queued-close_at u k s.thread_pool) (h.conserved u);
  kept = λ n. absurd (true-ne-false (sym b ∙ n));
  closed = stopped-Closed s.stopped b (close_at k s.thread_pool);
  empty_held = h.empty_held;
}

pub Step-IsSound : {s u : System} → Step s u → IsSound s → IsSound u
Step-IsSound {s = s} (tries free k t {p = p} e) h =
    Placed-IsSound s t p (push_attempt-Placed free k t s.thread_pool p e) h
Step-IsSound {s = s} (waits_for k t {p = p} e) h =
    Placed-IsSound s t p (push_own-Placed k t s.thread_pool p e) h
Step-IsSound {s = s} (steals free i k {t = t} {p = p} a e) h =
    Taken-IsSound s i t p a (pop_attempt-Taken free i k t s.thread_pool p e) h
Step-IsSound {s = s} (pops i {o = o} {p = p} a e) h =
    Own-IsSound s i o p a (pop_own-Own i o s.thread_pool p e) h
Step-IsSound {s = s} (checks i o {h = g} a e) h = check-IsSound s i o g a e h
Step-IsSound {s = s} (finishes i t a) h = finish-IsSound s i t a h
Step-IsSound {s = s} (leaves i a b) h =
    moved-IsSound s i seeks returns s.called a (λ u. omega arith) (λ n u. omega arith) (λ n. cc) h
Step-IsSound {s = s} stops h = record {
  conserved = h.conserved;
  kept = λ n. absurd (true-ne-false n);
  closed = All-impl (Closed s.stopped) (Closed true) (λ _ _ _. refl) s.thread_pool h.closed;
  empty_held =
      All-impl (EmptyHeld s.stopped) (EmptyHeld true) (λ _ _ _. refl) s.phases h.empty_held;
}
Step-IsSound {s = s} (closes k b) h = close-IsSound s k b h
