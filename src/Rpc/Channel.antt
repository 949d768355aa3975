-- ===== src/Rpc/Channel.antt =====
-- The two ends of a channel: `BlockingCall` and `EventCall` of include/erl/_impl/rpc/protocol.hpp,
-- `QueueClient` of include/erl/_impl/net/queue.hpp and `Server` of include/erl/_impl/net/service.hpp.
-- The queues are FIFO lists of messages; waiting on an empty one ends a run of the server.
pub mod Calls
pub mod Loop
use cpp26_experiments.Base.{
  ℕ, ◌%◌, ◌^◌, Bool, true, false, if◌then◌else◌, ◌==◌, List, [], ◌∷◌, ◌++◌, Option, some, Bytes,
  length,
}
use cpp26_experiments.Reflect.Words.{Endian}
use cpp26_experiments.Reflect.Types.{Ty, Tys, Fields}
use cpp26_experiments.Rpc.Outcome.{Outcome, returned, undefined, ◌>>=◌, defined}
use cpp26_experiments.Rpc.Message.{MessageType}
use cpp26_experiments.Rpc.Service.{Returned, Member}
use cpp26_experiments.Rpc.Messages.{request, read_response}
use cpp26_experiments.Rpc.Dispatch.{dispatch}

-- How the loop is left: with `stopped` after an empty message, else it waits for one more.
pub record Ran (S T : Type 0) : Type 0 where
  pub stopped : Bool
  pub service : S
  pub sent : List T
  pub left : List T

abbrev pub add_sent : {S T : Type 0} → List T → Ran S T → Ran S T
add_sent replies ran = record ran { sent = replies ++ ran.sent }

module _ (endian : Endian) (size_of : Ty → ℕ) (message : MessageType) where
  open message use {serializer, empty, contents}
  open serializer use {Target}

  -- `QueueClient::send` and `QueueClient::kill`
  unfoldable pub send : List Target → Target → List Target
  send queue m = queue ++ m ∷ []

  unfoldable pub kill : List Target → List Target
  kill queue = send queue empty

  -- `BlockingCall::call`; `peer` is what happens between its `send` and its `recv`.
  unfoldable pub call :
      {S : Type 0}
      → (Target → Outcome (S × Target))
      → ℕ
      → (parameters : Tys) → (result : Option Ty) → Fields parameters
      → Outcome (S × Returned result)
  call peer index parameters result args = do
    outgoing ← defined (request endian size_of message index parameters args)
    (obj, response) ← peer outgoing
    bytes ← defined (contents response)
    value ← defined (read_response endian result index bytes)
    returned (obj, value)

  -- `handle`, up to the reply
  unfoldable pub handle : {S : Type 0} → List (Member S) → S → Target → Outcome (S × Target)
  handle members obj incoming = do
    bytes ← defined (contents incoming)
    dispatch endian size_of message members obj bytes

  -- `Server::run`; `replies` tells `BlockingCall`, which sends the reply, from `EventCall`.
  unfoldable pub run :
      {S : Type 0} → Bool → List (Member S) → S → List Target → Outcome (Ran S Target)
  run replies members obj [] =
      returned (record { stopped = false; service = obj; sent = []; left = [] })
  run replies members obj (msg ∷ rest) = do
    bytes ← defined (contents msg)
    elim (length bytes == 0) [
      | true ↦ returned (record { stopped = true; service = obj; sent = []; left = rest })
      | false ↦ do
        (obj', reply) ← handle members obj msg
        ran ← run replies members obj' rest
        returned (add_sent (if replies then reply ∷ [] else []) ran)
    ]
