-- ===== src/Queues/Mpmc/Invariant.antt =====
-- What holds between any two steps of the threads of
-- include/erl/_impl/queue/mpmc_bounded.hpp.
use cpp26_experiments.Base.{
  ℕ, ◌+◌, ◌<◌, ◌≤◌, ◌≡◌, ◌≢◌, ◌⊎◌, inl, inr, sym, ap, ◌∙◌, subst, ◌==◌, ==_iff, Bool, true, false,
  some, Bool-cases, arith,
}
use cpp26_experiments.Queues.Mpmc.{
  Thread, idle, push_at, push_seen, push_write, push_publish, pop_at, pop_seen, pop_read,
  pop_release, assign, State, goes, cell,
}

-- An assignment seen at an index: the new value there, the old one elsewhere.
pub assign_cases :
    {B : Type 0} (f : ℕ → B) (i j : ℕ) (v : B)
    → ((i ≡ j) × (assign f i v j ≡ v)) ⊎ ((i ≢ j) × (assign f i v j ≡ f j))
assign_cases f i j v = elim (Bool-cases (i == j)) [
  | inl e ↦ inl ((==_iff i j).0 e, ground (arith, e))
  | inr e ↦ inr (ground (arith, e), ground (arith, e))
]

module _ {A : Type 0} (k : ℕ) where
  -- The position that a thread is at, and whether it holds the claim to push or to pop there.
  abbrev pub position : Thread A → ℕ
  position idle = 0
  position (push_at p x) = p
  position (push_seen p x) = p
  position (push_write p x) = p
  position (push_publish p x) = p
  position (pop_at p) = p
  position (pop_seen p) = p
  position (pop_read p) = p
  position (pop_release p d) = p

  abbrev pub pushes : Thread A → Bool
  pushes (push_write p x) = true
  pushes (push_publish p x) = true
  pushes _ = false

  abbrev pub pops : Thread A → Bool
  pops (pop_read p) = true
  pops (pop_release p d) = true
  pops _ = false

  abbrev pub ThreadOk : State A → Thread A → Type 0
  ThreadOk s idle = Unit
  ThreadOk s (push_at p x) = Unit
  ThreadOk s (push_seen p x) = (s.sequence (cell k p) ≡ p) ⊎ (p < s.write_pos)
  ThreadOk s (push_write p x) =
      (p < s.write_pos) × (s.sequence (cell k p) ≡ p) × (s.pushed p ≡ some x)
  ThreadOk s (push_publish p x) =
      (p < s.write_pos)
      × (s.sequence (cell k p) ≡ p)
      × (s.pushed p ≡ some x)
      × (s.item (cell k p) ≡ some x)
  ThreadOk s (pop_at p) = Unit
  ThreadOk s (pop_seen p) = (s.sequence (cell k p) ≡ p + 1) ⊎ (p < s.read_pos)
  ThreadOk s (pop_read p) = (p < s.read_pos) × (s.sequence (cell k p) ≡ p + 1)
  ThreadOk s (pop_release p d) =
      (p < s.read_pos) × (s.sequence (cell k p) ≡ p + 1) × (d ≡ s.pushed p) × (p < s.write_pos)

  -- A cell whose sequence number is one past a position of its own holds the item pushed there.
  abbrev pub CellOk : State A → ℕ → Type 0
  CellOk s q =
      s.sequence (cell k q) ≡ q + 1
      → (q < s.write_pos) × (s.item (cell k q) ≡ s.pushed q) × (x : A) × (s.pushed q ≡ some x)

  -- No two threads hold a claim to the same position.
  abbrev pub Apart : (Thread A → Bool) → (ℕ → Thread A) → Type 0
  Apart claims threads =
      (t u : ℕ)
      → t ≢ u
      → claims (threads t) ≡ true
      → claims (threads u) ≡ true
      → position (threads t) ≢ position (threads u)

  pub record Inv (s : State A) : Type 0 where
    pub cells : (q : ℕ) → CellOk s q
    pub each : (t : ℕ) → ThreadOk s (s.threads t)
    pub one_push : Apart pushes s.threads
    pub one_pop : Apart pops s.threads

  -- Nothing changes for a thread whose cell and item stay as they are.
  pub ThreadOk-kept :
      (s s' : State A) (th : Thread A)
      → s.write_pos ≤ s'.write_pos
      → s.read_pos ≤ s'.read_pos
      → s'.sequence (cell k (position th)) ≡ s.sequence (cell k (position th))
      → s'.item (cell k (position th)) ≡ s.item (cell k (position th))
      → (position th < s.write_pos → s'.pushed (position th) ≡ s.pushed (position th))
      → ThreadOk s th
      → ThreadOk s' th
  ThreadOk-kept s s' idle w r e i p h = tt
  ThreadOk-kept s s' (push_at q x) w r e i p h = tt
  ThreadOk-kept s s' (push_seen q x) w r e i p (inl h) = inl (e ∙ h)
  ThreadOk-kept s s' (push_seen q x) w r e i p (inr h) = inr (omega arith)
  ThreadOk-kept s s' (push_write q x) w r e i p h = (omega (arith, h.0), e ∙ h.1, p h.0 ∙ h.2)
  ThreadOk-kept s s' (push_publish q x) w r e i p h =
      (omega (arith, h.0), e ∙ h.1, p h.0 ∙ h.2, i ∙ h.3)
  ThreadOk-kept s s' (pop_at q) w r e i p h = tt
  ThreadOk-kept s s' (pop_seen q) w r e i p (inl h) = inl (e ∙ h)
  ThreadOk-kept s s' (pop_seen q) w r e i p (inr h) = inr (omega arith)
  ThreadOk-kept s s' (pop_read q) w r e i p h = (omega (arith, h.0), e ∙ h.1)
  ThreadOk-kept s s' (pop_release q d) w r e i p h =
      (omega (arith, h.0), e ∙ h.1, h.2 ∙ sym (p h.3), omega (arith, h.3))

  pub Apart-assign :
      (claims : Thread A → Bool) (threads : ℕ → Thread A) (t : ℕ) (th : Thread A)
      → Apart claims threads
      → (claims th ≡ true
          → (u : ℕ) → t ≢ u
          → claims (threads u) ≡ true
          → position th ≢ position (threads u))
      → Apart claims (assign threads t th)
  Apart-assign claims threads t th h fresh u v apart a b e = elim (assign_cases threads t u th) [
    | inl (tu, eu) ↦ elim (assign_cases threads t v th) [
      | inl (tv, ev) ↦ apart (sym tu ∙ tv)
      | inr (tv, ev) ↦
          fresh (ap claims (sym eu) ∙ a) v tv (ap claims (sym ev) ∙ b)
            (ap position (sym eu) ∙ e ∙ ap position ev)
    ]
    | inr (tu, eu) ↦ elim (assign_cases threads t v th) [
      | inl (tv, ev) ↦
          fresh (ap claims (sym ev) ∙ b) u tu (ap claims (sym eu) ∙ a)
            (ap position (sym ev) ∙ sym e ∙ ap position eu)
      | inr (tv, ev) ↦
          h u v apart (ap claims (sym eu) ∙ a) (ap claims (sym ev) ∙ b)
            (ap position (sym eu) ∙ e ∙ ap position ev)
    ]
  ]

  pub each-assign :
      (s : State A) (threads : ℕ → Thread A) (t : ℕ) (th : Thread A)
      → ThreadOk s th
      → ((u : ℕ) → t ≢ u → ThreadOk s (threads u))
      → (u : ℕ) → ThreadOk s (assign threads t th u)
  each-assign s threads t th ok others u = elim (assign_cases threads t u th) [
    | inl (tu, eu) ↦ subst (ThreadOk s) (sym eu) ok
    | inr (tu, eu) ↦ subst (ThreadOk s) (sym eu) (others u tu)
  ]

  -- A step of one thread that changes nothing but where it is, and takes no new claim.
  pub Inv-goes :
      (s : State A) (t : ℕ) (th : Thread A)
      → Inv s
      → ThreadOk s th
      → (pushes th ≡ true → (pushes (s.threads t) ≡ true) × (position (s.threads t) ≡ position th))
      → (pops th ≡ true → (pops (s.threads t) ≡ true) × (position (s.threads t) ≡ position th))
      → Inv (goes s t th)
  Inv-goes s t th h ok push pop = record {
    cells = h.cells;
    each = each-assign s s.threads t th ok (λ u apart. h.each u);
    one_push =
        Apart-assign pushes s.threads t th h.one_push
          (λ mine u apart theirs e. h.one_push t u apart (push mine).0 theirs ((push mine).1 ∙ e));
    one_pop =
        Apart-assign pops s.threads t th h.one_pop
          (λ mine u apart theirs e. h.one_pop t u apart (pop mine).0 theirs ((pop mine).1 ∙ e));
  }
