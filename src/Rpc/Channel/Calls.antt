-- ===== src/Rpc/Channel/Calls.antt =====
-- `BlockingCall` of include/erl/_impl/rpc/protocol.hpp with a server at its other end.
use cpp26_experiments.Base.{ℕ, ◌+◌, ◌≤◌, ◌<◌, ◌≡◌, refl, ◌^◌, List, some, arith, length, get_elem?}
use cpp26_experiments.Reflect.Words.{Endian}
use cpp26_experiments.Reflect.Types.{Ty, aggregate, Fields, Fits}
use cpp26_experiments.Reflect.Encoding.{encode, footprint}
use cpp26_experiments.Rpc.Outcome.{returned}
use cpp26_experiments.Rpc.Message.{MessageType}
use cpp26_experiments.Rpc.Service.{Method, Member, function}
use cpp26_experiments.Rpc.Protocol.{
  numbered, encode_result, FitsResult, result_footprint, request_lem,
}
use cpp26_experiments.Rpc.Protocol.Call.{dispatch_lem, read_response_lem, get_elem?-length}
use cpp26_experiments.Rpc.Channel.{call, handle}

module _ (size_of : Ty → ℕ) (message : MessageType) where
  open message use {serializer}
  open serializer use {Target, Holds, limit}

  module _ {S : Type 0} where
    -- Handling a request that was received is dispatching its bytes.
    pub handle_lem :
        (endian : Endian) (members : List (Member S)) (index : ℕ) (method : Method S) (obj : S)
        (args : Fields method.parameters) (incoming : Target)
        → length members ≤ 256
        → get_elem? members index ≡ some (function method)
        → Fits (aggregate method.parameters) args
        → 4 + result_footprint size_of method.result (method.run obj args).1 ≤ limit
        → Holds incoming (numbered index (encode (aggregate method.parameters) args))
        → (reply : Target) × (handle endian size_of message members obj incoming
            ≡ returned ((method.run obj args).0, reply))
          × Holds reply (numbered index (encode_result method.result (method.run obj args).1))
    unfolding handle
    handle_lem endian members index method obj args incoming count found fits room held =
        let (reply, e, h) =
          dispatch_lem endian size_of message members index method obj args count found fits room in
        (reply, rw (message.contents_law incoming _ held) e, h)

    -- For a service of at most 256 members, a member function, arguments and a result that
    -- fit their types, and a request and a response that fit the message type: the remote
    -- call returns what the direct call returns and leaves the service as the direct call
    -- does, whatever the byte orders of the two hosts are.
    pub call-handle :
        (client server : Endian) (members : List (Member S)) (index : ℕ) (method : Method S)
        (obj : S) (args : Fields method.parameters)
        → length members ≤ 256
        → get_elem? members index ≡ some (function method)
        → Fits (aggregate method.parameters) args
        → FitsResult method.result (method.run obj args).1
        → 4 + footprint size_of (aggregate method.parameters) args ≤ limit
        → 4 + result_footprint size_of method.result (method.run obj args).1 ≤ limit
        → call client size_of message
            (handle server size_of message members obj)
            index
            method.parameters
            method.result
            args
          ≡ returned (method.run obj args)
    unfolding call
    call-handle client server members index method obj args count found fits fits_result room
          room_result =
        let below = get_elem?-length members index (function method) found in
        let narrow : index < 2 ^ 32 = omega arith in
        let (outgoing, e, h) =
          request_lem client size_of message index method.parameters args narrow room in
        let (reply, e', h') =
          handle_lem server members index method obj args outgoing count found fits room_result h in
        rw
          (
            e,
            e',
            message.contents_law reply _ h',
            read_response_lem client method.result (method.run obj args).1 index narrow fits_result,
          )
          refl
