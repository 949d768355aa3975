-- ===== src/Message/Hybrid.antt =====
-- include/erl/_impl/net/message/buffer.hpp: `HybridBuffer`, which keeps a short message inside the
-- object and moves it to the heap once it outgrows `inline_capacity`.
pub mod Refine
pub mod Laws
pub mod Transfer
use cpp26_experiments.Base.{
  ℕ, ◌+◌, ◌-◌, ◌*◌, ◌%◌, ◌^◌, max, Bool, List, [], Option, none, some, map, ltb, leb, if◌then◌else◌,
  ◌>>=◌, Bytes, length, take, replicate, ◌==◌,
}
use cpp26_experiments.Message.Memory.{Cell, malloc, realloc, load, store}

-- The union `Storage`: its active member.
pub data Storage : Type 0 where
  inline : List Cell → Storage
  heap : List Cell → ℕ → Storage

-- `cursor` is an `int32_t`, kept as its bit pattern: from 2^31 on it stands for a negative number.
pub record Buffer : Type 0 where
  pub storage : Storage
  pub cursor : ℕ

abbrev pub is_heap : Buffer → Bool
is_heap b = leb (2 ^ 31) b.cursor

-- `is_heap() ? -cursor - 1 : cursor`
abbrev pub size : Buffer → ℕ
size b = if is_heap b then 2 ^ 32 - 1 - b.cursor else b.cursor

pub is_empty : Buffer → Bool
is_empty b = size b == 0

-- `storage.heap`; reading it while the inline buffer is active is undefined.
abbrev pub heap_block : Storage → Option (List Cell × ℕ)
heap_block (inline cells) = none
heap_block (heap block capacity) = some (block, capacity)

-- `-cursor - 1`, in two's complement.
abbrev complement : ℕ → ℕ
complement cursor = 2 ^ 32 - 1 - cursor

-- `resize_heap`: the capacity is a `uint32_t`. What `realloc` does with a size of 0 is not defined,
-- and a null pointer fails the assertion behind it.
unfoldable pub resize_heap : Buffer → ℕ → Option Buffer
resize_heap b new_capacity = do
  (block, capacity) ← heap_block b.storage
  let capacity' = new_capacity % 2 ^ 32
  if capacity' == 0
      then none
      else some (record b { storage = heap (realloc block capacity') capacity' })

-- The end of `write`: append on the heap, where the cursor counts down from -1.
unfoldable pub append_heap : Buffer → Bytes → Option Buffer
append_heap b input = do
  (block, capacity) ← heap_block b.storage
  block' ← store block (size b) (map some input)
  some (record b {
    storage = heap block' capacity;
    cursor = (b.cursor + 2 ^ 32 - length input % 2 ^ 32) % 2 ^ 32;
  })

module _ (inline_capacity : ℕ) where
  -- `storage.buffer`. The bytes of the pointer and the capacity that it shares its place with
  -- are not modelled.
  abbrev pub inline_cells : Storage → List Cell
  inline_cells (inline cells) = cells
  inline_cells (heap block capacity) = replicate inline_capacity none

  unfoldable pub init : Buffer
  init = record { storage = inline (replicate inline_capacity (some 0)); cursor = 0 }

  -- `data()`
  unfoldable pub cells : Buffer → Option (List Cell)
  cells b =
      if is_heap b
      then (do (block, capacity) ← heap_block b.storage; some block)
      else some (inline_cells b.storage)

  -- `read(n, offset)`: what the span shows.
  unfoldable pub read : Buffer → ℕ → ℕ → Option (List Cell)
  read b n offset = do memory ← cells b; load memory offset n

  unfoldable pub finalize : Buffer → Option (List Cell)
  finalize b = read b (size b) 0

  unfoldable pub allocate_heap : Buffer → ℕ → Option Buffer
  allocate_heap b initial_capacity = do
    let capacity = initial_capacity % 2 ^ 32
    copied ← load (inline_cells b.storage) 0 (size b)
    block ← store (malloc capacity) 0 copied
    some (record {
      storage = heap block capacity;
      cursor = if is_heap b then b.cursor else complement b.cursor;
    })

  unfoldable pub append_inline : Buffer → Bytes → Option Buffer
  append_inline b input = do
    block ← store (inline_cells b.storage) b.cursor (map some input)
    some (record { storage = inline block; cursor = (b.cursor + length input) % 2 ^ 32 })

  -- `write(input_data, length)`
  unfoldable pub write : Buffer → Bytes → Option Buffer
  write b input =
      let new_size = size b + length input in
      if is_heap b
      then (do
        (block, capacity) ← heap_block b.storage
        b' ← if ltb capacity new_size then resize_heap b new_size else some b
        append_heap b' input)
      else if leb new_size inline_capacity
      then append_inline b input
      else (do
        b' ←
            allocate_heap b
              (max ((b.cursor + length input) % 2 ^ 32) (inline_capacity * 2 % 2 ^ 32))
        append_heap b' input)

  -- `write(span)`: the size of the span is narrowed to `unsigned`.
  unfoldable pub write_span : Buffer → Bytes → Option Buffer
  write_span b input = write b (take (length input % 2 ^ 32) input)

  unfoldable pub reserve : Buffer → ℕ → Option Buffer
  reserve b num_bytes =
      let new_size = size b + num_bytes in
      if is_heap b
      then resize_heap b new_size
      else if ltb inline_capacity new_size
      then allocate_heap b new_size
      else some b

  -- `HybridBuffer(HybridBuffer const&)`
  unfoldable pub copy : Buffer → Option Buffer
  copy other =
      if is_heap other
      then (do
        (block, capacity) ← heap_block other.storage
        copied ← load block 0 (size other)
        block' ← store (malloc capacity) 0 copied
        some (record other { storage = heap block' capacity }))
      else (do
        copied ← load (inline_cells other.storage) 0 (size other)
        block ← store (replicate inline_capacity (some 0)) 0 copied
        some (record other { storage = inline block }))

  -- `HybridBuffer(HybridBuffer&&)`: the new object and what is left of the other.
  unfoldable pub move : Buffer → Option (Buffer × Buffer)
  move other =
      if is_heap other
      then (do
        (block, capacity) ← heap_block other.storage
        some (
          record other { storage = heap block capacity },
          record { storage = heap [] 0; cursor = 0 },
        ))
      else (do
        copied ← load (inline_cells other.storage) 0 (size other)
        block ← store (replicate inline_capacity (some 0)) 0 copied
        some (record other { storage = inline block }, record other { cursor = 0 }))
