-- ===== src/Message/Hybrid/Transfer.antt =====
-- Copies and moves of a `HybridBuffer` (include/erl/_impl/net/message/buffer.hpp).
use cpp26_experiments.Base.{
  ℕ, ◌-◌, ◌^◌, ◌≤◌, ◌<◌, ◌≡◌, refl, ap, ◌∙◌, List, [], none, some, arith, Bytes, length, take,
  replicate, length-take, length-replicate,
}
use cpp26_experiments.Message.Memory.{
  Cell, malloc, load, store-stored, stored, length-stored, take-stored,
}
use cpp26_experiments.Message.Hybrid.{inline, Buffer, inline_cells, copy, move}
use cpp26_experiments.Message.Hybrid.Refine.{at_heap, Holds, short, long, written}

module _ (inline_capacity : ℕ) (small : inline_capacity < 2 ^ 31) where
  -- The bytes copied out of a block into the front of another.
  copied-content :
      (block target : List Cell) (n : ℕ) (bs : Bytes)
      → n ≤ length block
      → n ≤ length target
      → take n block ≡ written bs
      → take n (stored target 0 (take n block)) ≡ written bs
  copied-content block target n bs h h' e =
      let width = length-take n block in
      ap (λ (k : ℕ). take k (stored target 0 (take n block))) (omega arith)
      ∙ take-stored target 0 (take n block) (omega arith)
      ∙ e

  -- For an inline capacity below 2^31, copying a valid buffer succeeds and the copy holds the
  -- same bytes.
  pub copy-Holds :
      {b : Buffer} {bs : Bytes}
      → Holds inline_capacity b bs
      → (b' : Buffer) × (copy inline_capacity b ≡ some b') × Holds inline_capacity b' bs
  unfolding copy load
  copy-Holds (short {storage = storage} {cursor = cursor} {bs = bs} h) =
      let cells = inline_cells inline_capacity storage in
      let zero_cell : Cell = some 0 in
      let target = replicate inline_capacity zero_cell in
      let width : length (take cursor cells) ≡ cursor =
        omega (arith, h, length-take cursor cells) in
      let total : length target ≡ inline_capacity = length-replicate inline_capacity zero_cell in
      (
        record { storage = inline (stored target 0 (take cursor cells)); cursor = cursor },
        ground (arith, small, h, store-stored target 0 (take cursor cells)),
        short (record {
          sized = length-stored target 0 (take cursor cells) (omega (arith, h)) ∙ total;
          fits = h.fits;
          content =
              copied-content cells target cursor bs (omega (arith, h)) (omega (arith, h)) h.content;
        }),
      )
  copy-Holds (long {block = block} {capacity = capacity} {cursor = cursor} {bs = bs} h) =
      let n = 2 ^ 32 - 1 - cursor in
      let target = malloc capacity in
      let width : length (take n block) ≡ n = omega (arith, h, length-take n block) in
      let total : length target ≡ capacity = length-replicate {A = Cell} capacity none in
      (
        at_heap (stored target 0 (take n block)) capacity cursor,
        ground (arith, h, store-stored target 0 (take n block)),
        long (record {
          negative = h.negative;
          narrow = h.narrow;
          allocated = length-stored target 0 (take n block) (omega (arith, h)) ∙ total;
          bounded = h.bounded;
          room = h.room;
          content =
              copied-content block target n bs (omega (arith, h)) (omega (arith, h)) h.content;
        }),
      )

  -- For an inline capacity below 2^31, moving from a valid buffer succeeds, the new buffer
  -- holds its bytes, and the old one is valid and empty.
  pub move-Holds :
      {b : Buffer} {bs : Bytes}
      → Holds inline_capacity b bs
      → (b' other : Buffer) × (move inline_capacity b ≡ some (b', other))
        × Holds inline_capacity b' bs
        × Holds inline_capacity other []
  unfolding move load
  move-Holds (short {storage = storage} {cursor = cursor} {bs = bs} h) =
      let cells = inline_cells inline_capacity storage in
      let zero_cell : Cell = some 0 in
      let target = replicate inline_capacity zero_cell in
      let width : length (take cursor cells) ≡ cursor =
        omega (arith, h, length-take cursor cells) in
      let total : length target ≡ inline_capacity = length-replicate inline_capacity zero_cell in
      (
        record { storage = inline (stored target 0 (take cursor cells)); cursor = cursor },
        record { storage = storage; cursor = 0 },
        ground (arith, small, h, store-stored target 0 (take cursor cells)),
        short (record {
          sized = length-stored target 0 (take cursor cells) (omega (arith, h)) ∙ total;
          fits = h.fits;
          content =
              copied-content cells target cursor bs (omega (arith, h)) (omega (arith, h)) h.content;
        }),
        short (record { sized = h.sized; fits = omega arith; content = refl }),
      )
  move-Holds (long {block = block} {capacity = capacity} {cursor = cursor} {bs = bs} h) = (
    at_heap block capacity cursor,
    at_heap [] 0 0,
    ground (arith, h),
    long h,
    short (record {
      sized = length-replicate {A = Cell} inline_capacity none;
      fits = omega arith;
      content = refl;
    }),
  )
