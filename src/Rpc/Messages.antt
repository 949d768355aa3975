-- ===== src/Rpc/Messages.antt =====
-- include/erl/_impl/rpc/protocol.hpp: the messages that `RPCProtocol` builds and reads.
use cpp26_experiments.Base.{
  [], ℕ, ◌%◌, ◌^◌, Option, none, some, ◌>>=◌, Bytes, length, ◌==◌, if◌then◌else◌,
}
use cpp26_experiments.Message.View.{View, between}
use cpp26_experiments.Reflect.Words.{Endian}
use cpp26_experiments.Reflect.Types.{Ty, Tys, integral, Fields}
use cpp26_experiments.Reflect.Code.{serialize, serialize_fields, deserialize}
use cpp26_experiments.Rpc.Message.{MessageType}
use cpp26_experiments.Rpc.Service.{Returned}

module _ (endian : Endian) (size_of : Ty → ℕ) (message : MessageType) where
  open message use {serializer, empty, contents}
  open serializer use {Target, write, reserve}

  -- `index_type` is a `std::uint32_t`, to which the caller's `std::size_t` is narrowed.
  unfoldable pub request : ℕ → (parameters : Tys) → Fields parameters → Option Target
  request index parameters args = do
    t ← serialize endian size_of serializer (integral 4) (index % 2 ^ 32) empty
    serialize_fields endian size_of serializer parameters args t

  -- The overload for a message that a custom handler's proxy built.
  unfoldable pub request_payload : ℕ → Target → Option Target
  request_payload index payload = do
    t ← serialize endian size_of serializer (integral 4) (index % 2 ^ 32) empty
    bytes ← contents payload
    t' ← reserve (length bytes) t
    write bytes t'

  unfoldable pub make_response : ℕ → (result : Option Ty) → Returned result → Option Target
  make_response index none value =
      serialize endian size_of serializer (integral 4) (index % 2 ^ 32) empty
  make_response index (some ty) value = do
    t ← serialize endian size_of serializer (integral 4) (index % 2 ^ 32) empty
    serialize endian size_of serializer ty value t

module _ (endian : Endian) where
  abbrev pub read_result : (result : Option Ty) → View → Option (Returned result)
  read_result none reader = some tt
  read_result (some ty) reader = do (value, reader') ← deserialize endian ty reader; some value

  -- A failing `assert` is none.
  unfoldable pub read_response : (result : Option Ty) → ℕ → Bytes → Option (Returned result)
  read_response result expected_index message = do
    (index, reader) ← deserialize endian (integral 4) (between [] message)
    if index == expected_index % 2 ^ 32 then read_result result reader else none
