-- ===== src/Rpc/Dispatch.antt =====
-- From a request to its response: include/erl/_impl/rpc/dispatch.hpp, the dispatchers of
-- include/erl/_impl/rpc/proxy.hpp and `RPCProtocol::dispatch`.
use cpp26_experiments.Base.{ℕ, ltb, if◌then◌else◌, List, none, some, Bytes, length, get_elem?, []}
use cpp26_experiments.Message.View.{between, remainder}
use cpp26_experiments.Reflect.Words.{Endian}
use cpp26_experiments.Reflect.Types.{Ty, integral}
use cpp26_experiments.Reflect.Code.{deserialize, deserialize_fields}
use cpp26_experiments.Rpc.Outcome.{Outcome, returned, out_of_range, undefined, ◌>>=◌, defined}
use cpp26_experiments.Rpc.Message.{MessageType}
use cpp26_experiments.Rpc.Service.{Returned, Method, Member, function, custom, case_count}
use cpp26_experiments.Rpc.Messages.{make_response}

module _ (endian : Endian) (size_of : Ty → ℕ) (message : MessageType) where
  open message use {serializer}
  open serializer use {Target}

  module _ {S : Type 0} where
    -- The arguments are deserialized from the first to the last: the standard leaves the order of a
    -- call's arguments open, and compilers of the Clang family take this one.
    unfoldable pub eval : (method : Method S) → S → Bytes → Outcome (S × Returned method.result)
    eval method obj bytes = do
      (args, rest) ← defined (deserialize_fields endian method.parameters (between [] bytes))
      returned (method.run obj args)

    -- `dispatch` of `FunctionDispatcher` and of `CustomDispatcher`
    unfoldable pub dispatch_member : Member S → ℕ → S → Bytes → Outcome (S × Target)
    dispatch_member (function method) index obj bytes = do
      (obj', value) ← eval method obj bytes
      reply ← defined (make_response endian size_of message index method.result value)
      returned (obj', reply)
    dispatch_member (custom handler) index obj bytes = do
      (obj', value) ← handler.run obj bytes
      reply ← defined (make_response endian size_of message index handler.result value)
      returned (obj', reply)

    -- The `switch` over the stamped cases: a case without a member is `std::unreachable()`.
    unfoldable pub dispatch_index : List (Member S) → S → ℕ → Bytes → Outcome (S × Target)
    dispatch_index members obj index bytes =
        if ltb index (case_count (length members))
        then elim (get_elem? members index) [
          | none ↦ undefined
          | some member ↦ dispatch_member member index obj bytes
        ]
        else out_of_range

    -- `RPCProtocol::dispatch`
    unfoldable pub dispatch : List (Member S) → S → Bytes → Outcome (S × Target)
    dispatch members obj bytes = do
      (index, reader) ← defined (deserialize endian (integral 4) (between [] bytes))
      dispatch_index members obj index (remainder reader)
