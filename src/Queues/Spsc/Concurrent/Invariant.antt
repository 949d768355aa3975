-- ===== src/Queues/Spsc/Concurrent/Invariant.antt =====
-- The invariant between any two steps of the two threads of
-- include/erl/_impl/queue/spsc_bounded.hpp, and how the stores act on it.
use cpp26_experiments.Base.{
  ℕ, ◌+◌, ◌%◌, ◌^◌, ◌<◌, ◌≡◌, sym, ap, subst, ◌∙◌, List, [], ◌∷◌, ◌++◌, some, arith, length,
  length-set, length-append, set, get_elem?, pow_two_pos, get_elem?-set_self,
}
use native.Mathlib.Nat.{mod-lt}
use cpp26_experiments.Queues.Window.{Window, Window-set_outside, Window-snoc}
use cpp26_experiments.Queues.Spsc.{Ring, next_pos}
use cpp26_experiments.Queues.Spsc.Invariant.{Holds, next_pos-mod}
use cpp26_experiments.Queues.Spsc.Concurrent.{
  Producer, storing, publishing, Consumer, loading, releasing, State,
}

module _ {A : Type 0} (k : ℕ) (narrow : 2 ^ k < 2 ^ 64) where
  -- A thread that is past its test has what the test established.
  abbrev pub MayPush : {q : Ring A} {xs : List A} → Holds k q xs → Producer A → Type 0
  MayPush h Producer.idle = Unit
  MayPush h (storing x) = h.writes + 1 < h.seen_read + 2 ^ k
  MayPush {q} h (publishing x) =
      (h.writes + 1 < h.seen_read + 2 ^ k) × (get_elem? q.buffer (h.writes % 2 ^ k) ≡ some x)

  abbrev pub MayPop : {q : Ring A} {xs : List A} → Holds k q xs → Consumer A → Type 0
  MayPop h Consumer.idle = Unit
  MayPop h loading = h.reads < h.seen_written
  MayPop {xs = xs} h (releasing x) = (h.reads < h.seen_written) × (ys : List A) × (xs ≡ x ∷ ys)

  pub record Inv (s : State A) : Type 0 where
    pub stored : List A
    pub holds : Holds k s.ring stored
    pub history : s.pushed ≡ s.popped ++ stored
    pub may_push : MayPush holds s.producer
    pub may_pop : MayPop holds s.consumer

  -- The write to the cell behind the window.
  unfoldable pub store_cell-Holds :
      {q : Ring A} {xs : List A} (x : A)
      → Holds k q xs
      → Holds k (record q { buffer = set q.buffer q.write_pos x }) xs
  store_cell-Holds {q} {xs} x h = record {
    seen_read = h.seen_read;
    reads = h.reads;
    seen_written = h.seen_written;
    writes = h.writes;
    seen_read-le-reads = h.seen_read-le-reads;
    reads-le-seen_written = h.reads-le-seen_written;
    seen_written-le-writes = h.seen_written-le-writes;
    within = h.within;
    stored = h.stored;
    at_write = h.at_write;
    at_read = h.at_read;
    at_write_cached = h.at_write_cached;
    at_read_cached = h.at_read_cached;
    sized = length-set q.buffer q.write_pos x ∙ h.sized;
    window =
        subst (λ (i : ℕ). Window (2 ^ k) (set q.buffer i x) h.reads xs) (sym h.at_write)
          (Window-set_outside (2 ^ k) q.buffer h.reads h.writes x xs (omega (arith, h))
            (omega (arith, h)) h.window);
  }

  -- The cell behind the window holds what was written to it.
  pub stored_cell :
      {q : Ring A} {xs : List A} (x : A) (h : Holds k q xs)
      → get_elem? (set q.buffer q.write_pos x) (h.writes % 2 ^ k) ≡ some x
  stored_cell {q} x h =
      ap (λ (i : ℕ). get_elem? (set q.buffer i x) (h.writes % 2 ^ k)) h.at_write
      ∙ get_elem?-set_self q.buffer (h.writes % 2 ^ k) x
          (omega (arith, h.sized, mod-lt h.writes (pow_two_pos k)))

  -- The first cell of a window that is not empty holds the oldest item.
  pub oldest :
      (buffer : List A) (start : ℕ) (x : A) (xs : List A)
      → 0 < length xs
      → Window (2 ^ k) buffer start xs
      → get_elem? buffer (start % 2 ^ k) ≡ some x
      → (ys : List A) × (xs ≡ x ∷ ys)
  oldest buffer start x [] some_left h e = absurd (omega arith)
  oldest buffer start x (y ∷ ys) some_left h e = (ys, ap (λ (z : A). z ∷ ys) (cc (h.0, e)))

  unfoldable pub publish-Holds :
      {q : Ring A} {xs : List A} (x : A) (h : Holds k q xs)
      → h.writes + 1 < h.seen_read + 2 ^ k
      → get_elem? q.buffer (h.writes % 2 ^ k) ≡ some x
      → Holds k (record q { write_pos = next_pos k q.write_pos }) (xs ++ (x ∷ []))
  publish-Holds {q} {xs} x h room cell = record {
    seen_read = h.seen_read;
    reads = h.reads;
    seen_written = h.seen_written;
    writes = h.writes + 1;
    seen_read-le-reads = h.seen_read-le-reads;
    reads-le-seen_written = h.reads-le-seen_written;
    seen_written-le-writes = omega (arith, h);
    within = room;
    stored = omega (arith, h, length-append xs (x ∷ []));
    at_write = ap (next_pos k) h.at_write ∙ next_pos-mod k h.writes narrow;
    at_read = h.at_read;
    at_write_cached = h.at_write_cached;
    at_read_cached = h.at_read_cached;
    sized = h.sized;
    window =
        Window-snoc (2 ^ k) q.buffer h.reads x xs h.window
          (ap (λ (i : ℕ). get_elem? q.buffer (i % 2 ^ k)) (sym h.stored) ∙ cell);
  }

  unfoldable pub release-Holds :
      {q : Ring A} {x : A} {xs ys : List A} (h : Holds k q xs)
      → xs ≡ x ∷ ys
      → h.reads < h.seen_written
      → Holds k (record q { read_pos = next_pos k q.read_pos }) ys
  release-Holds {q} h first unread = record {
    seen_read = h.seen_read;
    reads = h.reads + 1;
    seen_written = h.seen_written;
    writes = h.writes;
    seen_read-le-reads = omega (arith, h);
    reads-le-seen_written = omega arith;
    seen_written-le-writes = h.seen_written-le-writes;
    within = h.within;
    stored = omega (arith, h, ap length first);
    at_write = h.at_write;
    at_read = ap (next_pos k) h.at_read ∙ next_pos-mod k h.reads narrow;
    at_write_cached = h.at_write_cached;
    at_read_cached = h.at_read_cached;
    sized = h.sized;
    window = (subst (Window (2 ^ k) q.buffer h.reads) first h.window).1;
  }
