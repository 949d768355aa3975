-- ===== src/Reflect/Hybrid.antt =====
-- `HybridBuffer` as the target of `serialize` (include/erl/reflect), and a message's way from one
-- host to another.
use cpp26_experiments.Base.{ℕ, ◌%◌, ◌^◌, ◌<◌, ◌≤◌, ◌≡◌, [], some, arith, append-nil, sym, ap, ◌∙◌}
use cpp26_experiments.Message.Hybrid.{Buffer, init, write, reserve, finalize}
use cpp26_experiments.Message.Hybrid.Refine.{Holds, max_size, written}
use cpp26_experiments.Message.Hybrid.Laws.{init-Holds, write-Holds, reserve-Holds, finalize-Holds}
use cpp26_experiments.Message.View.{between}
use cpp26_experiments.Reflect.Words.{Endian}
use cpp26_experiments.Reflect.Types.{Ty, El, Fits}
use cpp26_experiments.Reflect.Target.{Serializer}
use cpp26_experiments.Reflect.Code.{serialize, deserialize}
use cpp26_experiments.Reflect.Encoding.{encode, footprint}
use cpp26_experiments.Reflect.Output.{serialize_lem}
use cpp26_experiments.Reflect.RoundTrip.{deserialize-encode}

-- `reserve` takes an `unsigned`, to which the number of bytes is narrowed.
abbrev pub hybrid : (inline_capacity : ℕ) → inline_capacity < 2 ^ 31 → Serializer
hybrid inline_capacity small = record {
  Target = Buffer;
  write = λ input t. write inline_capacity t input;
  reserve = λ n t. reserve inline_capacity t (n % 2 ^ 32);
  Holds = Holds inline_capacity;
  limit = max_size;
  write_law = λ t bs input h fits. write-Holds inline_capacity small input h fits;
  reserve_law = λ t bs n h fits asked.
      reserve-Holds inline_capacity small (n % 2 ^ 32) h (omega arith) (λ _. omega arith);
}

-- For an inline capacity below 2^31, a value that fits its type and whose footprint is at most
-- 2^31 - 2: serializing it into an empty HybridBuffer succeeds, the finished message shows
-- exactly its wire format, and a receiver of either byte order reads the value back and is at
-- the end of the message.
pub deserialize-serialize :
    (inline_capacity : ℕ) (small : inline_capacity < 2 ^ 31) (sender receiver : Endian)
    (size_of : Ty → ℕ) (ty : Ty) (v : El ty)
    → Fits ty v
    → footprint size_of ty v ≤ max_size
    → (b : Buffer) × (serialize sender size_of
          (hybrid inline_capacity small)
          ty
          v
          (init inline_capacity)
        ≡ some b)
      × (finalize inline_capacity b ≡ some (written (encode ty v)))
      × (deserialize receiver ty (between [] (encode ty v)) ≡ some (v, between (encode ty v) []))
deserialize-serialize inline_capacity small sender receiver size_of ty v fits room =
    let (b, e, h) =
      serialize_lem (hybrid inline_capacity small) sender size_of ty v (init inline_capacity) []
        (init-Holds inline_capacity small) (omega arith) in
    (
      b,
      e,
      finalize-Holds inline_capacity small h,
      ap (λ bytes. deserialize receiver ty (between [] bytes)) (sym (append-nil (encode ty v)))
          ∙ deserialize-encode receiver ty v [] [] fits,
    )
