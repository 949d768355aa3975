-- ===== src/Message/Hybrid/Refine.antt =====
-- `HybridBuffer` (include/erl/_impl/net/message/buffer.hpp) as a byte string: the representation
-- relation, and what the parts of its operations do to it.
use cpp26_experiments.Base.{
  ℕ, ◌+◌, ◌-◌, ◌^◌, ◌≤◌, ◌<◌, ◌≡◌, sym, ap, ◌∙◌, List, ◌++◌, map, none, some, arith, Bytes, length,
  take, length-map, length-take, map-append, length-replicate,
}
use native.Mathlib.Nat.{mod-eq_of_lt}
use cpp26_experiments.Message.Memory.{
  Cell, malloc, realloc, load, store-stored, stored, length-stored, take-stored, length-realloc,
  take-realloc,
}
use cpp26_experiments.Message.Hybrid.{
  Storage, inline, heap, Buffer, inline_cells, append_heap, resize_heap, allocate_heap,
  append_inline, cells,
}

-- The largest size whose complement is still a valid negative `int32_t`.
abbrev pub max_size : ℕ
max_size = 2 ^ 31 - 2

abbrev pub at_heap : List Cell → ℕ → ℕ → Buffer
at_heap block capacity cursor = record { storage = heap block capacity; cursor = cursor }

-- Memory that holds `bs`.
abbrev pub written : Bytes → List Cell
written = map some

pub length-written : (bs : Bytes) → length (written bs) ≡ length bs
length-written bs = length-map some bs

-- The heap block is active, holds `bs`, and has room for the written part.
pub record IsOnHeap (block : List Cell) (capacity cursor : ℕ) (bs : Bytes) : Type 0 where
  pub negative : 2 ^ 31 ≤ cursor
  pub narrow : cursor < 2 ^ 32
  pub allocated : length block ≡ capacity
  pub bounded : capacity < 2 ^ 32
  pub room : 2 ^ 32 - 1 - cursor ≤ capacity
  pub content : take (2 ^ 32 - 1 - cursor) block ≡ written bs

pub record IsInline (capacity : ℕ) (cells : List Cell) (cursor : ℕ) (bs : Bytes) : Type 0 where
  pub sized : length cells ≡ capacity
  pub fits : cursor ≤ capacity
  pub content : take cursor cells ≡ written bs

module _ (inline_capacity : ℕ) where
  -- `Holds b bs`: the buffer is well formed, and the bytes written to it are `bs`, in order.
  pub data Holds : Buffer → Bytes → Type 0 where
    short :
        {storage : Storage} {cursor : ℕ} {bs : Bytes}
        → IsInline inline_capacity (inline_cells inline_capacity storage) cursor bs
        → Holds (record { storage = storage; cursor = cursor }) bs
    long :
        {block : List Cell} {capacity cursor : ℕ} {bs : Bytes}
        → IsOnHeap block capacity cursor bs
        → Holds (at_heap block capacity cursor) bs

-- The cursor counts the bytes.
pub IsOnHeap-length :
    (block : List Cell) (capacity cursor : ℕ) (bs : Bytes)
    → IsOnHeap block capacity cursor bs
    → 2 ^ 32 - 1 - cursor ≡ length bs
IsOnHeap-length block capacity cursor bs h =
    omega (arith, ap length h.content, length-take (2 ^ 32 - 1 - cursor) block, length-written bs)

pub IsInline-length :
    (capacity : ℕ) (cells : List Cell) (cursor : ℕ) (bs : Bytes)
    → IsInline capacity cells cursor bs
    → cursor ≡ length bs
IsInline-length capacity cells cursor bs h =
    omega (arith, ap length h.content, length-take cursor cells, length-written bs)

-- Appending on the heap, where the block is large enough.
pub append_heap-IsOnHeap :
    (block : List Cell) (capacity cursor : ℕ) (bs input : Bytes)
    → IsOnHeap block capacity cursor bs
    → length bs + length input ≤ capacity
    → length bs + length input ≤ max_size
    → (block' : List Cell) × (cursor' : ℕ) × (append_heap (at_heap block capacity cursor) input
        ≡ some (at_heap block' capacity cursor'))
      × IsOnHeap block' capacity cursor' (bs ++ input)
unfolding append_heap
append_heap-IsOnHeap block capacity cursor bs input h fits small =
    let n = 2 ^ 32 - 1 - cursor in
    let counts = IsOnHeap-length block capacity cursor bs h in
    let width = length-written input in
    (
      stored block n (written input),
      cursor - length input,
      ground (arith, h, store-stored block n (written input)),
      record {
        negative = omega (arith, h);
        narrow = omega (arith, h);
        allocated = length-stored block n (written input) (omega (arith, h)) ∙ h.allocated;
        bounded = h.bounded;
        room = omega (arith, h);
        content =
            ap (λ (k : ℕ). take k (stored block n (written input))) (omega (arith, h))
            ∙ take-stored block n (written input) (omega (arith, h))
            ∙ ap (λ (p : List Cell). p ++ written input) h.content
            ∙ sym (map-append some bs input);
      },
    )

-- Another size for the block, if it is not 0, keeps the bytes.
pub resize_heap-IsOnHeap :
    (block : List Cell) (capacity cursor n : ℕ) (bs : Bytes)
    → IsOnHeap block capacity cursor bs
    → length bs ≤ n
    → 0 < n
    → n < 2 ^ 32
    → (resize_heap (at_heap block capacity cursor) n ≡ some (at_heap (realloc block n) n cursor))
      × IsOnHeap (realloc block n) n cursor bs
unfolding resize_heap
resize_heap-IsOnHeap block capacity cursor n bs h enough some_room narrow =
    let counts = IsOnHeap-length block capacity cursor bs h in
    (
      ground (arith, mod-eq_of_lt narrow),
      record {
        negative = h.negative;
        narrow = h.narrow;
        allocated = length-realloc block n;
        bounded = narrow;
        room = omega (arith, h);
        content =
            take-realloc block (2 ^ 32 - 1 - cursor) n (omega arith) (omega (arith, h)) ∙ h.content;
      },
    )

module _ (inline_capacity : ℕ) (small : inline_capacity < 2 ^ 31) where
  -- The move from the object to the heap keeps the bytes.
  pub allocate_heap-IsOnHeap :
      (storage : Storage) (cursor n : ℕ) (bs : Bytes)
      → IsInline inline_capacity (inline_cells inline_capacity storage) cursor bs
      → length bs ≤ n
      → n < 2 ^ 32
      → (block : List Cell) × (allocate_heap inline_capacity
            (record { storage = storage; cursor = cursor })
            n
          ≡ some (at_heap block n (2 ^ 32 - 1 - cursor)))
        × IsOnHeap block n (2 ^ 32 - 1 - cursor) bs
  unfolding allocate_heap load
  allocate_heap-IsOnHeap storage cursor n bs h enough narrow =
      let counts = IsInline-length inline_capacity _ cursor bs h in
      let copied = take cursor (inline_cells inline_capacity storage) in
      let width : length copied ≡ cursor =
        omega (arith, h, length-take cursor (inline_cells inline_capacity storage)) in
      let total : length (malloc n) ≡ n = length-replicate n none in
      let block = stored (malloc n) 0 copied in
      (
        block,
        ground (arith, h, mod-eq_of_lt narrow, store-stored (malloc n) 0 copied),
        record {
          negative = omega (arith, h);
          narrow = omega arith;
          allocated = length-stored (malloc n) 0 copied (omega arith) ∙ total;
          bounded = narrow;
          room = omega (arith, h);
          content =
              ap (λ (k : ℕ). take k block) (omega (arith, h))
              ∙ take-stored (malloc n) 0 copied (omega arith)
              ∙ h.content;
        },
      )

  pub append_inline-IsInline :
      (storage : Storage) (cursor : ℕ) (bs input : Bytes)
      → IsInline inline_capacity (inline_cells inline_capacity storage) cursor bs
      → length bs + length input ≤ inline_capacity
      → (cells : List Cell) × (append_inline inline_capacity
            (record { storage = storage; cursor = cursor })
            input
          ≡ some (record { storage = inline cells; cursor = cursor + length input }))
        × IsInline inline_capacity cells (cursor + length input) (bs ++ input)
  unfolding append_inline
  append_inline-IsInline storage cursor bs input h fits =
      let counts = IsInline-length inline_capacity _ cursor bs h in
      let width = length-written input in
      let block = stored (inline_cells inline_capacity storage) cursor (written input) in
      (
        block,
        ground
            (arith, h, store-stored (inline_cells inline_capacity storage) cursor (written input)),
        record {
          sized = length-stored _ cursor (written input) (omega (arith, h)) ∙ h.sized;
          fits = omega (arith, h);
          content =
              ap (λ (k : ℕ). take k block) (omega (arith, h))
              ∙ take-stored _ cursor (written input) (omega (arith, h))
              ∙ ap (λ (p : List Cell). p ++ written input) h.content
              ∙ sym (map-append some bs input);
        },
      )
