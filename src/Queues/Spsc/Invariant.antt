-- ===== src/Queues/Spsc/Invariant.antt =====
-- What the positions and the cells of include/erl/_impl/queue/spsc_bounded.hpp mean, and how the
-- writes to them act on that.
use native.Mathlib.Nat.{mod-lt, mod-eq_of_lt}
use cpp26_experiments.Base.{
  ℕ, ◌+◌, ◌%◌, ◌^◌, ◌<◌, ◌≤◌, ◌≡◌, ap₂, sym, ap, ◌∙◌, List, [], ◌∷◌, ◌++◌, some, arith,
  bit_and-mask, pow_two_pos, subst, length, length-set, length-append, set, get_elem?, ◌==◌,
}
use cpp26_experiments.Queues.Window.{turn_test, same_test, suc_mod, Window, Window-set}
use cpp26_experiments.Queues.Spsc.{Ring, next_pos, put, fetch}

-- The positions counted without end: what each side last saw of the other lags behind it, and
-- the writer stays less than a turn ahead of the oldest of them.
pub record Holds {A : Type 0} (k : ℕ) (q : Ring A) (xs : List A) : Type 0 where
  pub seen_read : ℕ
  pub reads : ℕ
  pub seen_written : ℕ
  pub writes : ℕ
  pub seen_read-le-reads : seen_read ≤ reads
  pub reads-le-seen_written : reads ≤ seen_written
  pub seen_written-le-writes : seen_written ≤ writes
  pub within : writes < seen_read + 2 ^ k
  pub stored : writes ≡ reads + length xs
  pub at_write : q.write_pos ≡ writes % 2 ^ k
  pub at_read : q.read_pos ≡ reads % 2 ^ k
  pub at_write_cached : q.write_pos_cached ≡ seen_written % 2 ^ k
  pub at_read_cached : q.read_pos_cached ≡ seen_read % 2 ^ k
  pub sized : length q.buffer ≡ 2 ^ k
  pub window : Window (2 ^ k) q.buffer reads xs

-- The mask is the remainder by the capacity, and no position wraps around.
pub next_pos-mod : (k a : ℕ) → 2 ^ k < 2 ^ 64 → next_pos k (a % 2 ^ k) ≡ (a + 1) % 2 ^ k
next_pos-mod k a narrow =
    let small : a % 2 ^ k < 2 ^ k = mod-lt a (pow_two_pos k) in
    bit_and-mask k ((a % 2 ^ k + 1) % 2 ^ 64)
    ∙ ap (λ (i : ℕ). i % 2 ^ k) (mod-eq_of_lt {n = a % 2 ^ k + 1} {m = 2 ^ 64} (omega arith))
    ∙ suc_mod (2 ^ k) a

module _ {A : Type 0} (k : ℕ) (narrow : 2 ^ k < 2 ^ 64) where
  unfoldable pub refresh_read-Holds :
      {q : Ring A} {xs : List A}
      → Holds k q xs
      → Holds k (record q { read_pos_cached = q.read_pos }) xs
  refresh_read-Holds h = record {
    seen_read = h.reads;
    reads = h.reads;
    seen_written = h.seen_written;
    writes = h.writes;
    seen_read-le-reads = omega arith;
    reads-le-seen_written = h.reads-le-seen_written;
    seen_written-le-writes = h.seen_written-le-writes;
    within = omega (arith, h);
    stored = h.stored;
    at_write = h.at_write;
    at_read = h.at_read;
    at_write_cached = h.at_write_cached;
    at_read_cached = h.at_read;
    sized = h.sized;
    window = h.window;
  }

  unfoldable pub refresh_write-Holds :
      {q : Ring A} {xs : List A}
      → Holds k q xs
      → Holds k (record q { write_pos_cached = q.write_pos }) xs
  refresh_write-Holds h = record {
    seen_read = h.seen_read;
    reads = h.reads;
    seen_written = h.writes;
    writes = h.writes;
    seen_read-le-reads = h.seen_read-le-reads;
    reads-le-seen_written = omega (arith, h);
    seen_written-le-writes = omega arith;
    within = omega (arith, h);
    stored = h.stored;
    at_write = h.at_write;
    at_read = h.at_read;
    at_write_cached = h.at_write;
    at_read_cached = h.at_read_cached;
    sized = h.sized;
    window = h.window;
  }

  pub put-Holds :
      {q : Ring A} {xs : List A} (x : A) (h : Holds k q xs)
      → h.writes + 1 < h.seen_read + 2 ^ k
      → Holds k (put k q x).1 (xs ++ (x ∷ []))
  unfolding put
  put-Holds {q} {xs} x h room = record {
    seen_read = h.seen_read;
    reads = h.reads;
    seen_written = h.seen_written;
    writes = h.writes + 1;
    seen_read-le-reads = h.seen_read-le-reads;
    reads-le-seen_written = h.reads-le-seen_written;
    seen_written-le-writes = omega (arith, h);
    within = room;
    stored = omega (arith, h, length-append xs (x ∷ []));
    at_write = ap (next_pos k) h.at_write ∙ next_pos-mod k h.writes narrow;
    at_read = h.at_read;
    at_write_cached = h.at_write_cached;
    at_read_cached = h.at_read_cached;
    sized = length-set q.buffer q.write_pos x ∙ h.sized;
    window =
        subst (λ (i : ℕ). Window (2 ^ k) (set q.buffer i x) h.reads (xs ++ (x ∷ [])))
          (ap (λ (i : ℕ). i % 2 ^ k) (sym h.stored) ∙ sym h.at_write)
          (Window-set (2 ^ k) q.buffer h.reads x xs h.sized (omega (arith, h)) h.window);
  }

  pub fetch-Holds :
      {q : Ring A} {x : A} {xs : List A} (h : Holds k q (x ∷ xs))
      → h.reads < h.seen_written
      → (get_elem? q.buffer q.read_pos ≡ some x) × Holds k (fetch k q).2 xs
  unfolding fetch
  fetch-Holds {q} {x} {xs} h unread = (
    ap (get_elem? q.buffer) h.at_read ∙ h.window.0,
    record {
      seen_read = h.seen_read;
      reads = h.reads + 1;
      seen_written = h.seen_written;
      writes = h.writes;
      seen_read-le-reads = omega (arith, h);
      reads-le-seen_written = omega arith;
      seen_written-le-writes = h.seen_written-le-writes;
      within = h.within;
      stored = omega (arith, h);
      at_write = h.at_write;
      at_read = ap (next_pos k) h.at_read ∙ next_pos-mod k h.reads narrow;
      at_write_cached = h.at_write_cached;
      at_read_cached = h.at_read_cached;
      sized = h.sized;
      window = h.window.1;
    },
  )

  -- The two tests of `try_push`, in terms of the counts.
  pub push_tests :
      {q : Ring A} {xs : List A} (h : Holds k q xs)
      → ((next_pos k q.write_pos == q.read_pos_cached) ≡ ((h.writes + 1) == (h.seen_read + 2 ^ k)))
        × ((next_pos k q.write_pos == q.read_pos) ≡ ((h.writes + 1) == (h.reads + 2 ^ k)))
  push_tests h =
      let next = ap (next_pos k) h.at_write ∙ next_pos-mod k h.writes narrow in
      (
        ap₂ ◌==◌ next h.at_read_cached
            ∙ turn_test (2 ^ k) h.seen_read h.writes (omega (arith, h)) (omega (arith, h)),
        ap₂ ◌==◌ next h.at_read
            ∙ turn_test (2 ^ k) h.reads h.writes (omega (arith, h)) (omega (arith, h)),
      )

  -- The two tests of `try_pop`, in terms of the counts.
  pub pop_tests :
      {q : Ring A} {xs : List A} (h : Holds k q xs)
      → ((q.read_pos == q.write_pos_cached) ≡ (h.reads == h.seen_written))
        × ((q.read_pos == q.write_pos) ≡ (h.reads == h.writes))
  pop_tests h = (
    ap₂ ◌==◌ h.at_read h.at_write_cached
        ∙ same_test (2 ^ k) h.reads h.seen_written (omega (arith, h)) (omega (arith, h)),
    ap₂ ◌==◌ h.at_read h.at_write
        ∙ same_test (2 ^ k) h.reads h.writes (omega (arith, h)) (omega (arith, h)),
  )
