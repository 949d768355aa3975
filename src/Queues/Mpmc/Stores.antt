-- ===== src/Queues/Mpmc/Stores.antt =====
-- The accesses to the cells of include/erl/_impl/queue/mpmc_bounded.hpp: the item stored, and the
-- sequence number that a push and a pop leave behind.
use cpp26_experiments.Base.{
  ℕ, ◌+◌, ◌-◌, ◌%◌, ◌^◌, ◌<◌, ◌≤◌, ◌≡◌, ◌≢◌, inl, inr, refl, sym, ap, ◌∙◌, true, arith,
  bit_and-mask,
}
use native.Mathlib.Nat.{add-mod_right}
use cpp26_experiments.Queues.Window.{mod_injective}
use cpp26_experiments.Queues.Mpmc.{
  Thread, idle, push_at, push_seen, push_write, push_publish, pop_at, pop_seen, pop_read,
  pop_release, State, cell,
}
use cpp26_experiments.Queues.Mpmc.Invariant.{position, pushes, pops, ThreadOk}

module _ (k : ℕ) (two : 2 ≤ 2 ^ k) where
  -- Two positions in a row are different cells, and a turn comes back to the same cell.
  pub cell_next : (p q : ℕ) → q ≡ p + 1 → cell k p ≢ cell k q
  cell_next p q e same =
      let equal : p % 2 ^ k ≡ q % 2 ^ k = sym (bit_and-mask k p) ∙ same ∙ bit_and-mask k q in
      omega (arith, mod_injective (2 ^ k) p q (omega arith) (omega arith) equal)

  pub cell_turn : (p : ℕ) → cell k (p + (2 ^ k - 1) + 1) ≡ cell k p
  cell_turn p =
      bit_and-mask k (p + (2 ^ k - 1) + 1)
      ∙ ap (λ (n : ℕ). n % 2 ^ k) (omega arith)
      ∙ add-mod_right p (2 ^ k)
      ∙ sym (bit_and-mask k p)

  module _ {A : Type 0} where
    -- Where a thread would notice that the sequence number of p's cell, or its item, changes.
    pub push_elsewhere :
        (s s' : State A) (p : ℕ) (th : Thread A)
        → s.sequence (cell k p) ≡ p
        → p < s.write_pos
        → s'.write_pos ≡ s.write_pos
        → s'.read_pos ≡ s.read_pos
        → cell k p ≡ cell k (position k th)
        → (pushes k th ≡ true → p ≢ position k th)
        → ThreadOk k s th
        → ThreadOk k s' th
    push_elsewhere s s' p idle e lt w r c apart h = tt
    push_elsewhere s s' p (push_at q x) e lt w r c apart h = tt
    push_elsewhere s s' p (push_seen q x) e lt w r c apart (inl h) =
        inr (omega (arith, ap s.sequence c))
    push_elsewhere s s' p (push_seen q x) e lt w r c apart (inr h) = inr (omega arith)
    push_elsewhere s s' p (push_write q x) e lt w r c apart h =
        absurd (apart refl (omega (arith, ap s.sequence c, h.1)))
    push_elsewhere s s' p (push_publish q x) e lt w r c apart h =
        absurd (apart refl (omega (arith, ap s.sequence c, h.1)))
    push_elsewhere s s' p (pop_at q) e lt w r c apart h = tt
    push_elsewhere s s' p (pop_seen q) e lt w r c apart (inl h) =
        absurd (cell_next q p (omega (arith, ap s.sequence c)) (sym c))
    push_elsewhere s s' p (pop_seen q) e lt w r c apart (inr h) = inr (omega arith)
    push_elsewhere s s' p (pop_read q) e lt w r c apart h =
        absurd (cell_next q p (omega (arith, ap s.sequence c, h.1)) (sym c))
    push_elsewhere s s' p (pop_release q d) e lt w r c apart h =
        absurd (cell_next q p (omega (arith, ap s.sequence c, h.1)) (sym c))

    pub pop_elsewhere :
        (s s' : State A) (p : ℕ) (th : Thread A)
        → s.sequence (cell k p) ≡ p + 1
        → p < s.read_pos
        → s'.write_pos ≡ s.write_pos
        → s'.read_pos ≡ s.read_pos
        → cell k p ≡ cell k (position k th)
        → (pops k th ≡ true → p ≢ position k th)
        → ThreadOk k s th
        → ThreadOk k s' th
    pop_elsewhere s s' p idle e lt w r c apart h = tt
    pop_elsewhere s s' p (push_at q x) e lt w r c apart h = tt
    pop_elsewhere s s' p (push_seen q x) e lt w r c apart (inl h) =
        absurd (cell_next p q (omega (arith, ap s.sequence c)) c)
    pop_elsewhere s s' p (push_seen q x) e lt w r c apart (inr h) = inr (omega arith)
    pop_elsewhere s s' p (push_write q x) e lt w r c apart h =
        absurd (cell_next p q (omega (arith, ap s.sequence c, h.1)) c)
    pop_elsewhere s s' p (push_publish q x) e lt w r c apart h =
        absurd (cell_next p q (omega (arith, ap s.sequence c, h.1)) c)
    pop_elsewhere s s' p (pop_at q) e lt w r c apart h = tt
    pop_elsewhere s s' p (pop_seen q) e lt w r c apart (inl h) =
        inr (omega (arith, ap s.sequence c))
    pop_elsewhere s s' p (pop_seen q) e lt w r c apart (inr h) = inr (omega arith)
    pop_elsewhere s s' p (pop_read q) e lt w r c apart h =
        absurd (apart refl (omega (arith, ap s.sequence c, h.1)))
    pop_elsewhere s s' p (pop_release q d) e lt w r c apart h =
        absurd (apart refl (omega (arith, ap s.sequence c, h.1)))
