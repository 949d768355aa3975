-- ===== src/Queues/Mpmc/Releases.antt =====
-- How the stores of include/erl/_impl/queue/mpmc_bounded.hpp act on the invariant.
use cpp26_experiments.Base.{
  ℕ, ◌+◌, ◌-◌, ◌^◌, ◌<◌, ◌≤◌, ◌≡◌, inl, inr, refl, sym, ap, ◌∙◌, subst, Option, some, arith,
}
use cpp26_experiments.Queues.Mpmc.{
  idle, push_write, push_publish, pop_release, assign, State, goes, cell,
}
use cpp26_experiments.Queues.Mpmc.Invariant.{
  position, pushes, pops, ThreadOk, Inv, assign_cases, ThreadOk-kept, Apart-assign, each-assign,
}
use cpp26_experiments.Queues.Mpmc.Claims.{other_assign, same_assign}
use cpp26_experiments.Queues.Mpmc.Stores.{cell_next, cell_turn, push_elsewhere, pop_elsewhere}

module _ (k : ℕ) (two : 2 ≤ 2 ^ k) {A : Type 0} where
  pub push_store-Inv :
      (s : State A) (t p : ℕ) (x : A)
      → Inv k s
      → s.threads t ≡ push_write p x
      → Inv k (goes (record s { item = assign s.item (cell k p) (some x) }) t (push_publish p x))
  push_store-Inv s t p x h at =
      let s' : State A = record s { item = assign s.item (cell k p) (some x) } in
      let (lt, seq, full) : ThreadOk k s (push_write p x) = subst (ThreadOk k s) at (h.each t) in
      record {
        cells = λ q e.
            let (below, held, y, kept) = h.cells q e in
            (
              below,
              other_assign s.item (cell k p) (cell k q) (some x)
                    (λ same. cell_next k two q p (omega (arith, ap s.sequence same)) (sym same))
                  ∙ held,
              y,
              kept,
            );
        each =
            each-assign k s' s.threads t (push_publish p x)
              (lt, seq, full, same_assign s.item (cell k p) (some x))
              (λ u apart.
                elim (assign_cases s.item (cell k p) (cell k (position k (s.threads u))) (some x)) [
                  | inl (same, e) ↦
                      push_elsewhere k two s s' p (s.threads u) seq lt refl refl same
                        (λ theirs pe.
                          h.one_push t u apart (ap (pushes k) at) theirs (ap (position k) at ∙ pe))
                        (h.each u)
                  | inr (differ, e) ↦
                      ThreadOk-kept k s s' (s.threads u) (omega arith) (omega arith) refl e
                        (λ below. refl) (h.each u)
                ]);
        one_push =
            Apart-assign k (pushes k) s.threads t (push_publish p x) h.one_push
              (λ mine u apart theirs e.
                h.one_push t u apart (ap (pushes k) at) theirs (ap (position k) at ∙ e));
        one_pop =
            Apart-assign k (pops k) s.threads t (push_publish p x) h.one_pop
              (λ mine. absurd (ground (arith, mine)));
      }

  pub push_release-Inv :
      (s : State A) (t p : ℕ) (x : A)
      → Inv k s
      → s.threads t ≡ push_publish p x
      → Inv k (goes (record s { sequence = assign s.sequence (cell k p) (p + 1) }) t idle)
  push_release-Inv s t p x h at =
      let s' : State A = record s { sequence = assign s.sequence (cell k p) (p + 1) } in
      let (lt, seq, full, held) : ThreadOk k s (push_publish p x) =
        subst (ThreadOk k s) at (h.each t) in
      record {
        cells = λ q e. elim (assign_cases s.sequence (cell k p) (cell k q) (p + 1)) [
          | inl (same, v) ↦
              subst
                (λ (n : ℕ).
                  (n < s.write_pos)
                  × (s.item (cell k n) ≡ s.pushed n)
                  × (y : A) × (s.pushed n ≡ some y))
                (omega (arith, v, e)) (lt, held ∙ sym full, x, full)
          | inr (differ, v) ↦ h.cells q (sym v ∙ e)
        ];
        each = each-assign k s' s.threads t idle tt (λ u apart.
            elim (assign_cases s.sequence (cell k p) (cell k (position k (s.threads u))) (p + 1)) [
              | inl (same, e) ↦
                  push_elsewhere k two s s' p (s.threads u) seq lt refl refl same
                    (λ theirs pe.
                      h.one_push t u apart (ap (pushes k) at) theirs (ap (position k) at ∙ pe))
                    (h.each u)
              | inr (differ, e) ↦
                  ThreadOk-kept k s s' (s.threads u) (omega arith) (omega arith) e refl
                    (λ below. refl) (h.each u)
            ]);
        one_push =
            Apart-assign k (pushes k) s.threads t idle h.one_push
              (λ mine. absurd (ground (arith, mine)));
        one_pop =
            Apart-assign k (pops k) s.threads t idle h.one_pop
              (λ mine. absurd (ground (arith, mine)));
      }

  pub pop_done-Inv :
      (s : State A) (t p : ℕ) (d : Option A)
      → Inv k s
      → s.threads t ≡ pop_release p d
      → Inv k
          (goes (record s { sequence = assign s.sequence (cell k p) (p + (2 ^ k - 1) + 1) }) t idle)
  pop_done-Inv s t p d h at =
      let n = p + (2 ^ k - 1) + 1 in
      let s' : State A = record s { sequence = assign s.sequence (cell k p) n } in
      let (lt, seq, was, below) : ThreadOk k s (pop_release p d) =
        subst (ThreadOk k s) at (h.each t) in
      record {
        cells = λ q e. elim (assign_cases s.sequence (cell k p) (cell k q) n) [
          | inl (same, v) ↦ absurd (
              cell_next k two q (p + (2 ^ k - 1) + 1) (sym v ∙ e)
                (sym same ∙ sym (cell_turn k two p)))
          | inr (differ, v) ↦ h.cells q (sym v ∙ e)
        ];
        each = each-assign k s' s.threads t idle tt (λ u apart.
            elim (assign_cases s.sequence (cell k p) (cell k (position k (s.threads u))) n) [
              | inl (same, e) ↦
                  pop_elsewhere k two s s' p (s.threads u) seq lt refl refl same
                    (λ theirs pe.
                      h.one_pop t u apart (ap (pops k) at) theirs (ap (position k) at ∙ pe))
                    (h.each u)
              | inr (differ, e) ↦
                  ThreadOk-kept k s s' (s.threads u) (omega arith) (omega arith) e refl
                    (λ below. refl) (h.each u)
            ]);
        one_push =
            Apart-assign k (pushes k) s.threads t idle h.one_push
              (λ mine. absurd (ground (arith, mine)));
        one_pop =
            Apart-assign k (pops k) s.threads t idle h.one_pop
              (λ mine. absurd (ground (arith, mine)));
      }
