-- ===== src/Rpc/Hybrid.antt =====
-- `HybridBuffer` as the message type of the protocol.
use cpp26_experiments.Base.{ℕ, ◌^◌, ◌<◌, ◌≡◌, refl, List, [], ◌∷◌, Option, some, ◌>>=◌, Bytes}
use cpp26_experiments.Message.Memory.{Cell}
use cpp26_experiments.Message.Hybrid.{init, finalize}
use cpp26_experiments.Message.Hybrid.Refine.{written}
use cpp26_experiments.Message.Hybrid.Laws.{init-Holds, finalize-Holds}
use cpp26_experiments.Reflect.Hybrid.{hybrid}
use cpp26_experiments.Rpc.Message.{MessageType}

-- Reading a span: a cell that was never written is none.
abbrev pub values : List Cell → Option Bytes
values [] = some []
values (cell ∷ cells) = do byte ← cell; bytes ← values cells; some (byte ∷ bytes)

pub values-written : (bytes : Bytes) → values (written bytes) ≡ some bytes
values-written [] = refl
values-written (byte ∷ bytes) = rw (values-written bytes) refl

abbrev pub hybrid_message : (inline_capacity : ℕ) → inline_capacity < 2 ^ 31 → MessageType
hybrid_message inline_capacity small = record {
  serializer = hybrid inline_capacity small;
  empty = init inline_capacity;
  contents = λ t. finalize inline_capacity t >>= values;
  empty_law = init-Holds inline_capacity small;
  contents_law = λ t bs h. rw (finalize-Holds inline_capacity small h) (values-written bs);
}
