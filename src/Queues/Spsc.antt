-- ===== src/Queues/Spsc.antt =====
-- include/erl/_impl/queue/spsc_bounded.hpp: `BoundedSPSC<T, N>`, with each operation run from its
-- start to its end. `Concurrent` takes the operations apart into the steps of two threads.
pub mod Invariant
pub mod Sequential
pub mod Blocking
pub mod Concurrent
use cpp26_experiments.Base.{
  ℕ, ◌+◌, ◌-◌, ◌%◌, ◌^◌, Bool, true, false, List, Option, none, some, bit_and, set, get_elem?, ◌==◌,
  if◌then◌else◌, replicate,
}

-- The cells, the two positions, and each side's copy of the other's.
pub record Ring (A : Type 0) : Type 0 where
  pub buffer : List A
  pub write_pos : ℕ
  pub write_pos_cached : ℕ
  pub read_pos : ℕ
  pub read_pos_cached : ℕ

-- `(pos + 1) & buffer_mask`, with N = 2^k
abbrev pub next_pos : ℕ → ℕ → ℕ
next_pos k pos = bit_and ((pos + 1) % 2 ^ 64) (2 ^ k - 1)

module _ {A : Type 0} (k : ℕ) where
  unfoldable pub init : List A → Ring A
  init cells = record {
    buffer = cells;
    write_pos = 0;
    write_pos_cached = 0;
    read_pos = 0;
    read_pos_cached = 0;
  }

  -- The end of `try_push`: the cell is free.
  unfoldable pub put : Ring A → A → Bool × Ring A
  put q x =
      (true, record q { buffer = set q.buffer q.write_pos x; write_pos = next_pos k q.write_pos })

  unfoldable pub try_push : Ring A → A → Bool × Ring A
  try_push q x =
      let next = next_pos k q.write_pos in
      let refreshed = record q { read_pos_cached = q.read_pos } in
      if next == q.read_pos_cached
      then if next == q.read_pos then (false, refreshed) else put refreshed x
      else put q x

  -- The end of `try_pop`: what goes through `target` (`none` for a read out of bounds).
  unfoldable pub fetch : Ring A → Bool × Option A × Ring A
  fetch q = (true, get_elem? q.buffer q.read_pos, record q { read_pos = next_pos k q.read_pos })

  unfoldable pub try_pop : Ring A → Bool × Option A × Ring A
  try_pop q =
      let refreshed = record q { write_pos_cached = q.write_pos } in
      if q.read_pos == q.write_pos_cached
      then if q.read_pos == q.write_pos then (false, none, refreshed) else fetch refreshed
      else fetch q

  unfoldable pub is_empty : Ring A → Bool
  is_empty q = q.write_pos == q.read_pos
