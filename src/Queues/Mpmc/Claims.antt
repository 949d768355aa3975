-- ===== src/Queues/Mpmc/Claims.antt =====
-- The exchanges by which threads of include/erl/_impl/queue/mpmc_bounded.hpp claim positions.
use cpp26_experiments.Base.{
  ℕ, ◌+◌, ◌<◌, ◌≡◌, ◌≢◌, ◌⊎◌, inl, inr, refl, sym, ◌∙◌, subst, true, some, arith,
}
use cpp26_experiments.Queues.Mpmc.{
  Thread, idle, push_at, push_seen, push_write, push_publish, pop_at, pop_seen, pop_read,
  pop_release, assign, State, goes, cell,
}
use cpp26_experiments.Queues.Mpmc.Invariant.{
  position, pushes, pops, ThreadOk, Inv, assign_cases, ThreadOk-kept, Apart-assign, each-assign,
}

pub other_assign : {B : Type 0} (f : ℕ → B) (i j : ℕ) (v : B) → i ≢ j → assign f i v j ≡ f j
other_assign f i j v h = elim (assign_cases f i j v) [
  | inl (e, e') ↦ absurd (h e)
  | inr (e, e') ↦ e'
]

pub same_assign : {B : Type 0} (f : ℕ → B) (i : ℕ) (v : B) → assign f i v i ≡ v
same_assign f i v = elim (assign_cases f i i v) [ inl (e, e') ↦ e' | inr (e, e') ↦ absurd (e refl) ]

module _ {A : Type 0} (k : ℕ) where
  -- Claims are for positions that were handed out.
  pushes-below :
      (s : State A) (th : Thread A)
      → ThreadOk k s th
      → pushes k th ≡ true
      → position k th < s.write_pos
  pushes-below s (push_write p x) h e = h.0
  pushes-below s (push_publish p x) h e = h.0
  pushes-below s idle h e = ground (arith, e)
  pushes-below s (push_at p x) h e = ground (arith, e)
  pushes-below s (push_seen p x) h e = ground (arith, e)
  pushes-below s (pop_at p) h e = ground (arith, e)
  pushes-below s (pop_seen p) h e = ground (arith, e)
  pushes-below s (pop_read p) h e = ground (arith, e)
  pushes-below s (pop_release p d) h e = ground (arith, e)

  pops-below :
      (s : State A) (th : Thread A)
      → ThreadOk k s th
      → pops k th ≡ true
      → position k th < s.read_pos
  pops-below s (pop_read p) h e = h.0
  pops-below s (pop_release p d) h e = h.0
  pops-below s idle h e = ground (arith, e)
  pops-below s (push_at p x) h e = ground (arith, e)
  pops-below s (push_seen p x) h e = ground (arith, e)
  pops-below s (push_write p x) h e = ground (arith, e)
  pops-below s (push_publish p x) h e = ground (arith, e)
  pops-below s (pop_at p) h e = ground (arith, e)
  pops-below s (pop_seen p) h e = ground (arith, e)

  pub push_claim-Inv :
      (s : State A) (t p : ℕ) (x : A)
      → Inv k s
      → s.threads t ≡ push_seen p x
      → s.write_pos ≡ p
      → Inv k (
          goes
            (record s { write_pos = p + 1; pushed = assign s.pushed p (some x) })
            t
            (push_write p x))
  push_claim-Inv s t p x h at now =
      let s' : State A = record s { write_pos = p + 1; pushed = assign s.pushed p (some x) } in
      let seen : (s.sequence (cell k p) ≡ p) ⊎ (p < s.write_pos) =
        subst (ThreadOk k s) at (h.each t) in
      let free : s.sequence (cell k p) ≡ p = elim seen [
        | inl e ↦ e
        | inr lt ↦ absurd (omega arith)
      ] in
      record {
        cells = λ q e.
            let (below, held, y, full) = h.cells q e in
            let kept : assign s.pushed p (some x) q ≡ s.pushed q =
              other_assign s.pushed p q (some x) (λ same. omega arith) in
            (omega arith, held ∙ sym kept, y, kept ∙ full);
        each =
            each-assign k s' s.threads t (push_write p x)
              (omega arith, free, same_assign s.pushed p (some x))
              (λ u apart.
                ThreadOk-kept k s s' (s.threads u) (omega arith) (omega arith) refl refl
                  (λ below.
                    other_assign s.pushed p (position k (s.threads u)) (some x)
                      (λ same. omega arith))
                  (h.each u));
        one_push =
            Apart-assign k (pushes k) s.threads t (push_write p x) h.one_push
              (λ mine u apart theirs same.
                let below = pushes-below s (s.threads u) (h.each u) theirs in omega arith);
        one_pop =
            Apart-assign k (pops k) s.threads t (push_write p x) h.one_pop
              (λ mine. absurd (ground (arith, mine)));
      }

  pub pop_claim-Inv :
      (s : State A) (t p : ℕ)
      → Inv k s
      → s.threads t ≡ pop_seen p
      → s.read_pos ≡ p
      → Inv k (goes (record s { read_pos = p + 1 }) t (pop_read p))
  pop_claim-Inv s t p h at now =
      let s' : State A = record s { read_pos = p + 1 } in
      let seen : (s.sequence (cell k p) ≡ p + 1) ⊎ (p < s.read_pos) =
        subst (ThreadOk k s) at (h.each t) in
      let full : s.sequence (cell k p) ≡ p + 1 = elim seen [
        | inl e ↦ e
        | inr lt ↦ absurd (omega arith)
      ] in
      record {
        cells = h.cells;
        each =
            each-assign k s' s.threads t (pop_read p) (omega arith, full)
              (λ u apart.
                ThreadOk-kept k s s' (s.threads u) (omega arith) (omega arith) refl refl
                  (λ below. refl) (h.each u));
        one_push =
            Apart-assign k (pushes k) s.threads t (pop_read p) h.one_push
              (λ mine. absurd (ground (arith, mine)));
        one_pop =
            Apart-assign k (pops k) s.threads t (pop_read p) h.one_pop (λ mine u apart theirs same.
              let below = pops-below s (s.threads u) (h.each u) theirs in omega arith);
      }

  -- What a claim says of the sequence number of its cell.
  pub pushes-sequence :
      (s : State A) (th : Thread A)
      → ThreadOk k s th
      → pushes k th ≡ true
      → s.sequence (cell k (position k th)) ≡ position k th
  pushes-sequence s idle h e = ground (arith, e)
  pushes-sequence s (push_at p x) h e = ground (arith, e)
  pushes-sequence s (push_seen p x) h e = ground (arith, e)
  pushes-sequence s (push_write p x) h e = h.1
  pushes-sequence s (push_publish p x) h e = h.1
  pushes-sequence s (pop_at p) h e = ground (arith, e)
  pushes-sequence s (pop_seen p) h e = ground (arith, e)
  pushes-sequence s (pop_read p) h e = ground (arith, e)
  pushes-sequence s (pop_release p d) h e = ground (arith, e)

  pub pops-sequence :
      (s : State A) (th : Thread A)
      → ThreadOk k s th
      → pops k th ≡ true
      → s.sequence (cell k (position k th)) ≡ position k th + 1
  pops-sequence s idle h e = ground (arith, e)
  pops-sequence s (push_at p x) h e = ground (arith, e)
  pops-sequence s (push_seen p x) h e = ground (arith, e)
  pops-sequence s (push_write p x) h e = ground (arith, e)
  pops-sequence s (push_publish p x) h e = ground (arith, e)
  pops-sequence s (pop_at p) h e = ground (arith, e)
  pops-sequence s (pop_seen p) h e = ground (arith, e)
  pops-sequence s (pop_read p) h e = h.1
  pops-sequence s (pop_release p d) h e = h.1
