-- ===== src/Queues/Spsc/Concurrent/Safety.antt =====
-- The interleavings of the two threads of include/erl/_impl/queue/spsc_bounded.hpp.
use cpp26_experiments.Base.{
  ℕ, ◌-◌, ◌^◌, ◌<◌, ◌≤◌, ◌≡◌, ◌≢◌, refl, sym, ap, subst, ◌∙◌, false, List, [], ◌∷◌, ◌++◌, some,
  arith, length, set, get_elem?, ◌==◌, append_assoc, Bool-cases, inl, inr, pow_two_pos,
  if◌then◌else◌,
}
use cpp26_experiments.Queues.Window.{mod_injective}
use cpp26_experiments.Queues.Spsc.{next_pos, init}
use cpp26_experiments.Queues.Spsc.Invariant.{
  refresh_read-Holds, refresh_write-Holds, push_tests, pop_tests,
}
use cpp26_experiments.Queues.Spsc.Concurrent.{
  Producer, storing, publishing, Consumer, loading, releasing, State, see_read, see_written, Step,
  push_known, push_reload, push_store, push_publish, pop_known, pop_reload, pop_load, pop_release,
  Reach, here, next,
}
use cpp26_experiments.Queues.Spsc.Concurrent.Invariant.{
  MayPush, MayPop, Inv, store_cell-Holds, stored_cell, oldest, publish-Holds, release-Holds,
}

module _ {A : Type 0} (k : ℕ) (narrow : 2 ^ k < 2 ^ 64) where
  push_known-Inv :
      (s : State A) (x : A)
      → (next_pos k s.ring.write_pos == s.ring.read_pos_cached) ≡ false
      → Inv k narrow s
      → Inv k narrow (record s { producer = storing x })
  push_known-Inv s x test v = record {
    stored = v.stored;
    holds = v.holds;
    history = v.history;
    may_push = ground (arith, v.holds, push_tests k narrow v.holds);
    may_pop = v.may_pop;
  }

  push_reload-Inv :
      (s : State A) (x : A)
      → s.producer ≡ Producer.idle
      → Inv k narrow s
      → Inv k narrow (record s {
        ring = see_read s.ring;
        producer =
            if next_pos k s.ring.write_pos == s.ring.read_pos then Producer.idle else storing x;
      })
  unfolding refresh_read-Holds
  push_reload-Inv s x e v = elim (Bool-cases (next_pos k s.ring.write_pos == s.ring.read_pos)) [
    | inl full ↦ rw full (record {
      stored = v.stored;
      holds = refresh_read-Holds k narrow v.holds;
      history = v.history;
      may_push = tt;
      may_pop = v.may_pop;
    })
    | inr free ↦ rw free (record {
      stored = v.stored;
      holds = refresh_read-Holds k narrow v.holds;
      history = v.history;
      may_push = ground (arith, v.holds, push_tests k narrow v.holds);
      may_pop = v.may_pop;
    })
  ]

  push_store-Inv :
      (s : State A) (x : A)
      → s.producer ≡ storing x
      → Inv k narrow s
      → Inv k narrow (record s {
        ring = record s.ring { buffer = set s.ring.buffer s.ring.write_pos x };
        producer = publishing x;
      })
  unfolding store_cell-Holds
  push_store-Inv s x e v = record {
    stored = v.stored;
    holds = store_cell-Holds k narrow x v.holds;
    history = v.history;
    may_push = (subst (MayPush k narrow v.holds) e v.may_push, stored_cell k narrow x v.holds);
    may_pop = v.may_pop;
  }

  pop_known-Inv :
      (s : State A)
      → (s.ring.read_pos == s.ring.write_pos_cached) ≡ false
      → Inv k narrow s
      → Inv k narrow (record s { consumer = loading })
  pop_known-Inv s test v = record {
    stored = v.stored;
    holds = v.holds;
    history = v.history;
    may_push = v.may_push;
    may_pop = ground (arith, v.holds, pop_tests k narrow v.holds);
  }

  pop_reload-Inv :
      (s : State A)
      → Inv k narrow s
      → Inv k narrow (record s {
        ring = see_written s.ring;
        consumer = if s.ring.read_pos == s.ring.write_pos then Consumer.idle else loading;
      })
  unfolding refresh_write-Holds
  pop_reload-Inv s v = elim (Bool-cases (s.ring.read_pos == s.ring.write_pos)) [
    | inl none_left ↦ rw none_left (record {
      stored = v.stored;
      holds = refresh_write-Holds k narrow v.holds;
      history = v.history;
      may_push = v.may_push;
      may_pop = tt;
    })
    | inr some_left ↦ rw some_left (record {
      stored = v.stored;
      holds = refresh_write-Holds k narrow v.holds;
      history = v.history;
      may_push = v.may_push;
      may_pop = ground (arith, v.holds, pop_tests k narrow v.holds);
    })
  ]

  -- What the consumer reads is the oldest item.
  pop_load-Inv :
      (s : State A) (x : A)
      → s.consumer ≡ loading
      → get_elem? s.ring.buffer s.ring.read_pos ≡ some x
      → Inv k narrow s
      → Inv k narrow (record s { consumer = releasing x })
  pop_load-Inv s x e got v = record {
    stored = v.stored;
    holds = v.holds;
    history = v.history;
    may_push = v.may_push;
    may_pop =
        let unread : v.holds.reads < v.holds.seen_written =
          subst (MayPop k narrow v.holds) e v.may_pop in
        let (ys, first) =
          oldest k narrow s.ring.buffer v.holds.reads x v.stored (omega (arith, v.holds))
            v.holds.window (ap (get_elem? s.ring.buffer) (sym v.holds.at_read) ∙ got) in
        (unread, ys, first);
  }

  push_publish-Inv :
      (s : State A) (x : A)
      → s.producer ≡ publishing x
      → Inv k narrow s
      → Inv k narrow (record s {
        ring = record s.ring { write_pos = next_pos k s.ring.write_pos };
        producer = Producer.idle;
        pushed = s.pushed ++ (x ∷ []);
      })
  unfolding publish-Holds
  push_publish-Inv s x e v =
      let ready = subst (MayPush k narrow v.holds) e v.may_push in
      record {
        stored = v.stored ++ (x ∷ []);
        holds = publish-Holds k narrow x v.holds ready.0 ready.1;
        history =
            ap (λ (l : List A). l ++ (x ∷ [])) v.history ∙ append_assoc s.popped v.stored (x ∷ []);
        may_push = tt;
        may_pop = longer s.consumer v.may_pop;
      }
    where
      longer :
          (c : Consumer A)
          → MayPop k narrow v.holds c
          → MayPop k narrow
              (publish-Holds k narrow x v.holds
                (subst (MayPush k narrow v.holds) e v.may_push).0
                (subst (MayPush k narrow v.holds) e v.may_push).1)
              c
      longer Consumer.idle h = tt
      longer loading h = h
      longer (releasing y) h = (h.0, h.1 ++ (x ∷ []), ap (λ (l : List A). l ++ (x ∷ [])) h.2)

  pop_release-Inv :
      (s : State A) (x : A)
      → s.consumer ≡ releasing x
      → Inv k narrow s
      → Inv k narrow (record s {
        ring = record s.ring { read_pos = next_pos k s.ring.read_pos };
        consumer = Consumer.idle;
        popped = s.popped ++ (x ∷ []);
      })
  unfolding release-Holds
  pop_release-Inv s x e v =
      let (unread, ys, first) = subst (MayPop k narrow v.holds) e v.may_pop in
      record {
        stored = ys;
        holds = release-Holds k narrow v.holds first unread;
        history =
            v.history
            ∙ ap (λ (l : List A). s.popped ++ l) first
            ∙ sym (append_assoc s.popped (x ∷ []) ys);
        may_push = v.may_push;
        may_pop = tt;
      }

  Step-Inv : {s t : State A} → Step k s t → Inv k narrow s → Inv k narrow t
  Step-Inv (push_known s x e test) v = push_known-Inv s x test v
  Step-Inv (push_reload s x e test) v = push_reload-Inv s x e v
  Step-Inv (push_store s x e) v = push_store-Inv s x e v
  Step-Inv (push_publish s x e) v = push_publish-Inv s x e v
  Step-Inv (pop_known s e test) v = pop_known-Inv s test v
  Step-Inv (pop_reload s e test) v = pop_reload-Inv s v
  Step-Inv (pop_load s x e got) v = pop_load-Inv s x e got v
  Step-Inv (pop_release s x e) v = pop_release-Inv s x e v

  Reach-Inv : {s t : State A} → Inv k narrow s → Reach k s t → Inv k narrow t
  Reach-Inv v here = v
  Reach-Inv v (next r step) = Step-Inv step (Reach-Inv v r)

-- Both threads outside, and nothing stored.
abbrev pub fresh : {A : Type 0} → ℕ → List A → State A
fresh k cells = record {
  ring = init k cells;
  producer = Producer.idle;
  consumer = Consumer.idle;
  pushed = [];
  popped = [];
}

fresh-Inv :
    {A : Type 0} (k : ℕ) (narrow : 2 ^ k < 2 ^ 64) (cells : List A)
    → length cells ≡ 2 ^ k
    → Inv k narrow (fresh k cells)
unfolding init
fresh-Inv k narrow cells sized = record {
  stored = [];
  holds = record {
    seen_read = 0;
    reads = 0;
    seen_written = 0;
    writes = 0;
    seen_read-le-reads = omega arith;
    reads-le-seen_written = omega arith;
    seen_written-le-writes = omega arith;
    within = omega (arith, pow_two_pos k);
    stored = refl;
    at_write = omega arith;
    at_read = omega arith;
    at_write_cached = omega arith;
    at_read_cached = omega arith;
    sized = sized;
    window = tt;
  };
  history = refl;
  may_push = tt;
  may_pop = tt;
}

-- For a capacity N = 2^k below 2^64 and N cells: in every state that a pushing and a popping
-- thread can reach from the empty queue, the accepted items are the popped ones followed by
-- those still stored, in order, and at most N - 1 are stored.
pub fifo_always :
    {A : Type 0} (k : ℕ) (cells : List A) {t : State A}
    → 2 ^ k < 2 ^ 64
    → length cells ≡ 2 ^ k
    → Reach k (fresh k cells) t
    → (stored : List A) × (t.pushed ≡ t.popped ++ stored) × (length stored ≤ 2 ^ k - 1)
fifo_always k cells narrow sized r =
    let v = Reach-Inv k narrow (fresh-Inv k narrow cells sized) r in
    (v.stored, v.history, omega (arith, v.holds))

-- For a capacity N = 2^k below 2^64 and N cells: in every reachable state in which one thread
-- is about to write a cell and the other to read one, the two cells differ.
pub cells_apart :
    {A : Type 0} (k : ℕ) (cells : List A) {t : State A} (x : A)
    → 2 ^ k < 2 ^ 64
    → length cells ≡ 2 ^ k
    → Reach k (fresh k cells) t
    → t.producer ≡ storing x
    → t.consumer ≡ loading
    → t.ring.write_pos ≢ t.ring.read_pos
cells_apart k cells x narrow sized r storing_x reading same =
    let v = Reach-Inv k narrow (fresh-Inv k narrow cells sized) r in
    let h = v.holds in
    let unread : h.reads < h.seen_written = subst (MayPop k narrow h) reading v.may_pop in
    let e : h.reads ≡ h.writes =
      mod_injective (2 ^ k) h.reads h.writes (omega (arith, h)) (omega (arith, h))
        (sym h.at_read ∙ sym same ∙ h.at_write) in
    omega (arith, h)
