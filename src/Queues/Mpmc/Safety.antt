-- ===== src/Queues/Mpmc/Safety.antt =====
-- The interleavings of the threads of include/erl/_impl/queue/mpmc_bounded.hpp.
use cpp26_experiments.Base.{
  ℕ, ◌^◌, ◌≤◌, ◌≡◌, ◌≢◌, ◌⊎◌, inl, inr, sym, ap, ◌∙◌, subst, true, Option, some, arith,
  bit_and-mask,
}
use native.Mathlib.Nat.{mod-le}
use cpp26_experiments.Queues.Mpmc.{
  Thread, idle, push_at, push_seen, push_write, pop_at, pop_seen, pop_read, pop_release, State,
  cell, init, Step, push_start, push_ready, push_full, push_late, push_lost, push_claim, push_store,
  push_release, pop_start, pop_ready, pop_empty, pop_late, pop_lost, pop_claim, pop_load, pop_done,
  Reach, here, next,
}
use cpp26_experiments.Queues.Mpmc.Invariant.{position, pushes, pops, ThreadOk, Inv, Inv-goes}
use cpp26_experiments.Queues.Mpmc.Claims.{
  pushes-sequence, pops-sequence, push_claim-Inv, pop_claim-Inv,
}
use cpp26_experiments.Queues.Mpmc.Stores.{cell_next}
use cpp26_experiments.Queues.Mpmc.Releases.{push_store-Inv, push_release-Inv, pop_done-Inv}

module _ (k : ℕ) (two : 2 ≤ 2 ^ k) {A : Type 0} where
  step_at : {s : State A} {t : ℕ} {th : Thread A} → Inv k s → s.threads t ≡ th → ThreadOk k s th
  step_at {s} {t} h at = subst (ThreadOk k s) at (h.each t)

  Step-Inv : {s : State A} {t : ℕ} {s' : State A} → Inv k s → Step k s t s' → Inv k s'
  Step-Inv {s} {t} h (push_start x at) =
      Inv-goes k s t (push_at s.write_pos x) h tt (λ mine. absurd (ground (arith, mine)))
        (λ mine. absurd (ground (arith, mine)))
  Step-Inv {s} {t} h (push_ready p x at ready) =
      Inv-goes k s t (push_seen p x) h (inl ready) (λ mine. absurd (ground (arith, mine)))
        (λ mine. absurd (ground (arith, mine)))
  Step-Inv {s} {t} h (push_full p x at full) =
      Inv-goes k s t idle h tt (λ mine. absurd (ground (arith, mine)))
        (λ mine. absurd (ground (arith, mine)))
  Step-Inv {s} {t} h (push_late p x at late) =
      Inv-goes k s t (push_at s.write_pos x) h tt (λ mine. absurd (ground (arith, mine)))
        (λ mine. absurd (ground (arith, mine)))
  Step-Inv {s} {t} h (push_lost p x at) =
      Inv-goes k s t (push_at s.write_pos x) h tt (λ mine. absurd (ground (arith, mine)))
        (λ mine. absurd (ground (arith, mine)))
  Step-Inv {s} {t} h (push_claim p x at now) = push_claim-Inv k s t p x h at now
  Step-Inv {s} {t} h (push_store p x at) = push_store-Inv k two s t p x h at
  Step-Inv {s} {t} h (push_release p x at) = push_release-Inv k two s t p x h at
  Step-Inv {s} {t} h (pop_start at) =
      Inv-goes k s t (pop_at s.read_pos) h tt (λ mine. absurd (ground (arith, mine)))
        (λ mine. absurd (ground (arith, mine)))
  Step-Inv {s} {t} h (pop_ready p at ready) =
      Inv-goes k s t (pop_seen p) h (inl ready) (λ mine. absurd (ground (arith, mine)))
        (λ mine. absurd (ground (arith, mine)))
  Step-Inv {s} {t} h (pop_empty p at empty) =
      Inv-goes k s t idle h tt (λ mine. absurd (ground (arith, mine)))
        (λ mine. absurd (ground (arith, mine)))
  Step-Inv {s} {t} h (pop_late p at late) =
      Inv-goes k s t (pop_at s.read_pos) h tt (λ mine. absurd (ground (arith, mine)))
        (λ mine. absurd (ground (arith, mine)))
  Step-Inv {s} {t} h (pop_lost p at) =
      Inv-goes k s t (pop_at s.read_pos) h tt (λ mine. absurd (ground (arith, mine)))
        (λ mine. absurd (ground (arith, mine)))
  Step-Inv {s} {t} h (pop_claim p at now) = pop_claim-Inv k s t p h at now
  Step-Inv {s} {t} h (pop_load p at) =
      let (lt, seq) : ThreadOk k s (pop_read p) = step_at h at in
      let (below, held, y, kept) = h.cells p seq in
      Inv-goes k s t (pop_release p (s.item (cell k p))) h (lt, seq, held, below)
        (λ mine. absurd (ground (arith, mine))) (λ mine. (ap (pops k) at, ap (position k) at))
  Step-Inv {s} {t} h (pop_done p d at) = pop_done-Inv k two s t p d h at

  init-Inv : Inv {A = A} k (init k)
  init-Inv = record {
    cells = λ q e. absurd (omega (arith, e, bit_and-mask k q, mod-le q (2 ^ k)));
    each = λ t. tt;
    one_push = λ t u apart a b. absurd (ground (arith, a));
    one_pop = λ t u apart a b. absurd (ground (arith, a));
  }

  Reach-Inv : {s : State A} → Reach k (init k) s → Inv k s
  Reach-Inv here = init-Inv
  Reach-Inv (next t reach step) = Step-Inv (Reach-Inv reach) step

  -- For a capacity 2^k of at least 2: in every state that any number of threads can reach
  -- from the empty queue, a thread that has moved an item out at a position has exactly the
  -- item whose push claimed that position.
  pub pop_gets_pushed :
      {s : State A} (t p : ℕ) (d : Option A)
      → Reach k (init k) s
      → s.threads t ≡ pop_release p d
      → (x : A) × (d ≡ some x) × (s.pushed p ≡ some x)
  pop_gets_pushed t p d reach at =
      let h = Reach-Inv reach in
      let (lt, seq, was, below) = step_at h at in
      let (w, held, x, kept) = h.cells p seq in (x, was ∙ kept, kept)

  -- For a capacity 2^k of at least 2: in every state that any number of threads can reach
  -- from the empty queue, while one thread is about to store an item, no other thread that
  -- holds a claim to push or to pop has it for the same cell.
  pub store_alone :
      {s : State A} (t u p : ℕ) (x : A)
      → Reach k (init k) s
      → t ≢ u
      → s.threads t ≡ push_write p x
      → (pushes k (s.threads u) ≡ true) ⊎ (pops k (s.threads u) ≡ true)
      → cell k p ≢ cell k (position k (s.threads u))
  store_alone {s = s} t u p x reach apart at busy same =
      let h = Reach-Inv reach in
      let (lt, seq, full) : ThreadOk k s (push_write p x) = step_at h at in
      let there = ap s.sequence same in
      elim busy [
        | inl claims ↦ h.one_push t u apart (ap (pushes k) at) claims (
            ap (position k) at
            ∙ omega (arith, there, seq, pushes-sequence k s (s.threads u) (h.each u) claims))
        | inr claims ↦
            cell_next k two (position k (s.threads u)) p
              (omega (arith, there, seq, pops-sequence k s (s.threads u) (h.each u) claims))
              (sym same)
      ]
