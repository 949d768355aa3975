-- ===== src/Message/Hybrid/Laws.antt =====
-- The operations of `HybridBuffer` (include/erl/_impl/net/message/buffer.hpp) as its clients see
-- them, over both of its representations.
use cpp26_experiments.Base.{
  ℕ, ◌+◌, ◌-◌, ◌*◌, ◌^◌, ◌≤◌, ◌<◌, max, ◌≡◌, refl, ◌∙◌, ◌++◌, [], some, arith, true, false, leb,
  ltb, Bytes, length, length-replicate, Bool-cases, inl, inr,
}
use cpp26_experiments.Message.Memory.{realloc, load}
use cpp26_experiments.Message.Hybrid.{
  Storage, inline, heap, Buffer, is_heap, size, inline_cells, init, write, reserve, finalize, read,
  cells,
}
use cpp26_experiments.Message.Hybrid.Refine.{
  max_size, at_heap, IsInline, Holds, short, long, written, IsOnHeap-length, IsInline-length,
  append_heap-IsOnHeap, resize_heap-IsOnHeap, allocate_heap-IsOnHeap, append_inline-IsInline,
}

size_inline :
    (storage : Storage) (cursor : ℕ)
    → cursor < 2 ^ 31
    → size (record { storage = storage; cursor = cursor }) ≡ cursor
size_inline storage cursor h = ground arith

size_heap :
    (storage : Storage) (cursor : ℕ)
    → 2 ^ 31 ≤ cursor
    → size (record { storage = storage; cursor = cursor }) ≡ 2 ^ 32 - 1 - cursor
size_heap storage cursor h = ground arith

module _ (inline_capacity : ℕ) (small : inline_capacity < 2 ^ 31) where
  -- `size()` counts the bytes written.
  pub size-Holds : {b : Buffer} {bs : Bytes} → Holds inline_capacity b bs → size b ≡ length bs
  size-Holds (short {storage = storage} {cursor = cursor} {bs = bs} h) =
      size_inline storage cursor (omega (arith, h.fits))
      ∙ IsInline-length inline_capacity _ cursor bs h
  size-Holds (long {block = block} {capacity = capacity} {cursor = cursor} {bs = bs} h) =
      size_heap (heap block capacity) cursor h.negative ∙ IsOnHeap-length block capacity cursor bs h

  pub init-Holds : Holds inline_capacity (init inline_capacity) []
  unfolding init
  init-Holds = short (record {
    sized = length-replicate inline_capacity (some 0);
    fits = omega arith;
    content = refl;
  })

  write_outgrown :
      (storage : Storage) (cursor : ℕ) (bs input : Bytes)
      → IsInline inline_capacity (inline_cells inline_capacity storage) cursor bs
      → length bs + length input ≤ max_size
      → leb (cursor + length input) inline_capacity ≡ false
      → (b : Buffer) × (write inline_capacity (record { storage = storage; cursor = cursor }) input
          ≡ some b)
        × Holds inline_capacity b (bs ++ input)
  unfolding write
  write_outgrown storage cursor bs input h fits e =
      let counts = IsInline-length inline_capacity _ cursor bs h in
      let n = max (cursor + length input) (inline_capacity * 2) in
      let (block, moves, on_heap) =
        allocate_heap-IsOnHeap inline_capacity small storage cursor n bs h (omega arith)
          (omega arith) in
      let (block', cursor', appends, on_heap') =
        append_heap-IsOnHeap block n (2 ^ 32 - 1 - cursor) bs input on_heap (omega arith) fits in
      (at_heap block' n cursor', ground (arith, h, moves, appends, e), long on_heap')

  -- For an inline capacity below 2^31, writing to a valid buffer succeeds as long as the
  -- total stays at most 2^31 - 2 bytes, and leaves a valid buffer that holds the old bytes
  -- followed by the new ones, whether they stay inside the object, go to the heap, or move
  -- there.
  pub write-Holds :
      {b : Buffer} {bs : Bytes} (input : Bytes)
      → Holds inline_capacity b bs
      → length bs + length input ≤ max_size
      → (b' : Buffer) × (write inline_capacity b input ≡ some b')
        × Holds inline_capacity b' (bs ++ input)
  unfolding write
  write-Holds input (short {storage = storage} {cursor = cursor} {bs = bs} h) fits =
      let counts = IsInline-length inline_capacity _ cursor bs h in
      elim (Bool-cases (leb (cursor + length input) inline_capacity)) [
        | inl e ↦
            let (block, appends, h') =
              append_inline-IsInline inline_capacity small storage cursor bs input h
                (ground arith) in
            (
              record { storage = inline block; cursor = cursor + length input },
              ground (arith, h, appends),
              short h',
            )
        | inr e ↦ write_outgrown storage cursor bs input h fits e
      ]
  write-Holds input (long {block = block} {capacity = capacity} {cursor = cursor} {bs = bs} h)
        fits =
      let counts = IsOnHeap-length block capacity cursor bs h in
      elim (Bool-cases (ltb capacity (2 ^ 32 - 1 - cursor + length input))) [
        | inl e ↦
            let n = length bs + length input in
            let (grows, h') =
              resize_heap-IsOnHeap block capacity cursor n bs h (omega arith) (ground arith)
                (omega arith) in
            let (block', cursor', appends, h'') =
              append_heap-IsOnHeap (realloc block n) n cursor bs input h' (omega arith) fits in
            (at_heap block' n cursor', ground (arith, h, grows, appends), long h'')
        | inr e ↦
            let (block', cursor', appends, h') =
              append_heap-IsOnHeap block capacity cursor bs input h (ground arith) fits in
            (at_heap block' capacity cursor', ground (arith, h, appends), long h')
      ]

  -- For an inline capacity below 2^31, reserving room in a valid buffer succeeds if the size
  -- and the number of bytes together are below 2^32 and, for a buffer on the heap, not both
  -- 0, and the buffer holds the same bytes.
  pub reserve-Holds :
      {b : Buffer} {bs : Bytes} (num_bytes : ℕ)
      → Holds inline_capacity b bs
      → length bs + num_bytes < 2 ^ 32
      → (is_heap b ≡ true → 0 < length bs + num_bytes)
      → (b' : Buffer) × (reserve inline_capacity b num_bytes ≡ some b')
        × Holds inline_capacity b' bs
  unfolding reserve
  reserve-Holds num_bytes (short {storage = storage} {cursor = cursor} {bs = bs} h) fits asked =
      let counts = IsInline-length inline_capacity _ cursor bs h in
      let n = cursor + num_bytes in
      elim (Bool-cases (ltb inline_capacity n)) [
        | inl e ↦
            let (block, moves, on_heap) =
              allocate_heap-IsOnHeap inline_capacity small storage cursor n bs h (omega arith)
                (omega arith) in
            (at_heap block n (2 ^ 32 - 1 - cursor), ground (arith, h, moves), long on_heap)
        | inr e ↦ (record { storage = storage; cursor = cursor }, ground (arith, h), short h)
      ]
  reserve-Holds num_bytes (long {block = block} {capacity = capacity} {cursor = cursor} {bs = bs} h)
        fits asked =
      let counts = IsOnHeap-length block capacity cursor bs h in
      let n = length bs + num_bytes in
      let (grows, h') =
        resize_heap-IsOnHeap block capacity cursor n bs h (omega arith)
          (asked (ground (arith, h.negative))) (omega arith) in
      (at_heap (realloc block n) n cursor, ground (arith, h, grows), long h')

  -- For an inline capacity below 2^31, finalizing a valid buffer shows exactly the bytes that
  -- were written to it, each of them a written cell.
  pub finalize-Holds :
      {b : Buffer} {bs : Bytes}
      → Holds inline_capacity b bs
      → finalize inline_capacity b ≡ some (written bs)
  unfolding finalize read cells load
  finalize-Holds (short {storage = storage} {cursor = cursor} {bs = bs} h) =
      ground (arith, small, h)
  finalize-Holds (long {block = block} {capacity = capacity} {cursor = cursor} {bs = bs} h) =
      ground (arith, h)
