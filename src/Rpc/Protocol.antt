-- ===== src/Rpc/Protocol.antt =====
-- The wire format of the messages of `RPCProtocol` (include/erl/_impl/rpc/protocol.hpp), and the
-- messages that it builds.
pub mod Call
use cpp26_experiments.Base.{
  ℕ, ◌+◌, ◌%◌, ◌^◌, ◌≤◌, ◌<◌, ◌≡◌, refl, ◌∙◌, sym, ap, ◌++◌, [], List, Option, none, some, arith,
  Bytes, ◌>>=◌, subst, length, get_elem?, leb, ltb, append-nil, if◌then◌else◌, ◌==◌, ==_refl,
}
use cpp26_experiments.Message.View.{between, remainder-between, remainder}
use cpp26_experiments.Reflect.Words.{Endian, length-le_bytes}
use cpp26_experiments.Reflect.Types.{Ty, Tys, integral, aggregate, El, Fields, Fits, FitsFields}
use cpp26_experiments.Reflect.Code.{serialize, serialize_fields, deserialize, deserialize_fields}
use cpp26_experiments.Reflect.Encoding.{encode, footprint}
use cpp26_experiments.Reflect.Output.{serialize_lem}
use cpp26_experiments.Reflect.RoundTrip.{deserialize-encode}
use cpp26_experiments.Rpc.Outcome.{Outcome, returned, out_of_range, undefined, defined}
use cpp26_experiments.Rpc.Message.{MessageType}
use cpp26_experiments.Rpc.Service.{Returned, Method, Member, function, custom, case_count}
use cpp26_experiments.Rpc.Messages.{request, make_response, read_response, read_result}
use cpp26_experiments.Rpc.Dispatch.{eval, dispatch_member, dispatch_index, dispatch}

-- The wire format of a message: the index, then the values.
abbrev pub numbered : ℕ → Bytes → Bytes
numbered index bytes = encode (integral 4) index ++ bytes

abbrev pub encode_result : (result : Option Ty) → Returned result → Bytes
encode_result none value = []
encode_result (some ty) value = encode ty value

abbrev pub FitsResult : (result : Option Ty) → Returned result → Type 0
FitsResult none value = Unit
FitsResult (some ty) value = Fits ty value

abbrev pub result_footprint : (Ty → ℕ) → (result : Option Ty) → Returned result → ℕ
result_footprint size_of none value = 0
result_footprint size_of (some ty) value = footprint size_of ty value

fields_serialize :
    (endian : Endian) (size_of : Ty → ℕ) (message : MessageType) (ts : Tys) (v : Fields ts)
    → serialize_fields endian size_of message.serializer ts v
      ≡ serialize endian size_of message.serializer (aggregate ts) v
unfolding serialize
fields_serialize endian size_of message ts v = refl

pub fields_deserialize :
    (endian : Endian) (ts : Tys) → deserialize_fields endian ts ≡ deserialize endian (aggregate ts)
unfolding deserialize
fields_deserialize endian ts = refl

length-number : (index : ℕ) → length (encode (integral 4) index) ≤ 4
unfolding encode
length-number index = omega (arith, length-le_bytes 4 index)

module _ (endian : Endian) (size_of : Ty → ℕ) (message : MessageType) where
  open message use {serializer, empty, contents}
  open serializer use {Target, Holds, limit}

  number_lem :
      (index : ℕ)
      → index < 2 ^ 32
      → 4 ≤ limit
      → (t : Target) × (serialize endian size_of serializer (integral 4) (index % 2 ^ 32) empty
          ≡ some t)
        × Holds t (encode (integral 4) index)
  unfolding footprint
  number_lem index narrow room =
      subst
        (λ (n : ℕ).
          (t : Target) × (serialize endian size_of serializer (integral 4) n empty ≡ some t)
          × Holds t (encode (integral 4) index))
        (omega arith)
        (serialize_lem serializer endian size_of (integral 4) index empty [] message.empty_law
          (omega arith))

  -- The index, and one value behind it.
  numbered_lem :
      (index : ℕ) (ty : Ty) (v : El ty)
      → index < 2 ^ 32
      → 4 + footprint size_of ty v ≤ limit
      → (t : Target) × ((serialize endian size_of serializer (integral 4) (index % 2 ^ 32) empty
            >>= serialize endian size_of serializer ty v)
          ≡ some t)
        × Holds t (numbered index (encode ty v))
  numbered_lem index ty v narrow room =
      let (t, e, h) = number_lem index narrow (omega arith) in
      let (t', e', h') =
        serialize_lem serializer endian size_of ty v t (encode (integral 4) index) h
          (omega (arith, length-number index)) in
      (t', rw e e', h')

  -- A request that fits the message type is built, and is the index followed by the arguments.
  pub request_lem :
      (index : ℕ) (parameters : Tys) (args : Fields parameters)
      → index < 2 ^ 32
      → 4 + footprint size_of (aggregate parameters) args ≤ limit
      → (t : Target) × (request endian size_of message index parameters args ≡ some t)
        × Holds t (numbered index (encode (aggregate parameters) args))
  unfolding request serialize
  request_lem index parameters args narrow room =
      numbered_lem index (aggregate parameters) args narrow room

  -- So is a response, with the result behind the index if there is one.
  pub make_response_lem :
      (index : ℕ) (result : Option Ty) (value : Returned result)
      → index < 2 ^ 32
      → 4 + result_footprint size_of result value ≤ limit
      → (t : Target) × (make_response endian size_of message index result value ≡ some t)
        × Holds t (numbered index (encode_result result value))
  unfolding make_response
  make_response_lem index none value narrow room =
      let (t, e, h) = number_lem index narrow (omega arith) in (t, e, rw append-nil h)
  make_response_lem index (some ty) value narrow room = numbered_lem index ty value narrow room
