-- ===== src/Message/Tests.antt =====
-- Runs of the message buffer with an inline capacity of 4, and the theorems at such inputs.
use cpp26_experiments.Base.{◌-◌, ◌^◌, ◌≡◌, refl, [], ◌∷◌, ◌++◌, none, some, arith, ◌>>=◌, replicate}
use cpp26_experiments.Message.Memory.{load, store}
use cpp26_experiments.Message.Hybrid.{
  Buffer, inline, init, write, reserve, read, finalize, cells, copy, move, append_inline,
  append_heap, allocate_heap, resize_heap,
}
use cpp26_experiments.Message.Hybrid.Refine.{Holds, short, long, at_heap, written}
use cpp26_experiments.Message.Hybrid.Laws.{write-Holds, reserve-Holds, finalize-Holds}
use cpp26_experiments.Message.Hybrid.Transfer.{copy-Holds, move-Holds}

abbrev abc : Buffer
abc = record { storage = inline (some 1 ∷ some 2 ∷ some 3 ∷ some 0 ∷ []); cursor = 3 }

abbrev outgrown : Buffer
outgrown = at_heap (written (1 ∷ 2 ∷ 3 ∷ 4 ∷ 5 ∷ []) ++ replicate 3 none) 8 (2 ^ 32 - 6)

abc-Holds : Holds 4 abc (1 ∷ 2 ∷ 3 ∷ [])
abc-Holds = short (record { sized = refl; fits = omega arith; content = refl })

outgrown-Holds : Holds 4 outgrown (1 ∷ 2 ∷ 3 ∷ 4 ∷ 5 ∷ [])
outgrown-Holds = long (record {
  negative = omega arith;
  narrow = omega arith;
  allocated = refl;
  bounded = omega arith;
  room = omega arith;
  content = refl;
})

write_inline : write 4 (init 4) (1 ∷ 2 ∷ 3 ∷ []) ≡ some abc
unfolding write init append_inline store
write_inline = refl

write_moves_to_heap : write 4 abc (4 ∷ 5 ∷ []) ≡ some outgrown
unfolding write append_heap allocate_heap store load
write_moves_to_heap = refl

write_grows :
    (write 4 outgrown (6 ∷ 7 ∷ 8 ∷ 9 ∷ []) >>= finalize 4)
    ≡ some (written (1 ∷ 2 ∷ 3 ∷ 4 ∷ 5 ∷ 6 ∷ 7 ∷ 8 ∷ 9 ∷ []))
unfolding write append_heap resize_heap store load finalize read cells
write_grows = refl

write-Holds_example :
    (b : Buffer) × (write 4 abc (4 ∷ 5 ∷ []) ≡ some b) × Holds 4 b (1 ∷ 2 ∷ 3 ∷ 4 ∷ 5 ∷ [])
write-Holds_example = write-Holds 4 (omega arith) (4 ∷ 5 ∷ []) abc-Holds (omega arith)

reserve-Holds_example :
    (b : Buffer) × (reserve 4 outgrown 1 ≡ some b) × Holds 4 b (1 ∷ 2 ∷ 3 ∷ 4 ∷ 5 ∷ [])
reserve-Holds_example =
    reserve-Holds 4 (omega arith) 1 outgrown-Holds (omega arith) (λ _. omega arith)

-- Nothing is asked for, and the heap buffer holds nothing.
reserve_nothing : (reserve 4 (init 4) 100 >>= (λ b. reserve 4 b 0)) ≡ none
unfolding reserve init allocate_heap resize_heap store load
reserve_nothing = refl

finalize-Holds_example : finalize 4 outgrown ≡ some (written (1 ∷ 2 ∷ 3 ∷ 4 ∷ 5 ∷ []))
finalize-Holds_example = finalize-Holds 4 (omega arith) outgrown-Holds

copy-Holds_example : (b : Buffer) × (copy 4 outgrown ≡ some b) × Holds 4 b (1 ∷ 2 ∷ 3 ∷ 4 ∷ 5 ∷ [])
copy-Holds_example = copy-Holds 4 (omega arith) outgrown-Holds

move-Holds_example :
    (b other : Buffer) × (move 4 outgrown ≡ some (b, other))
    × Holds 4 b (1 ∷ 2 ∷ 3 ∷ 4 ∷ 5 ∷ [])
    × Holds 4 other []
move-Holds_example = move-Holds 4 (omega arith) outgrown-Holds
