-- ===== src/Rpc/Channel/Loop.antt =====
-- The server's loop (include/erl/_impl/net/service.hpp) over a queue of requests.
use cpp26_experiments.Base.{
  ℕ, ◌+◌, ◌≤◌, ◌≡◌, refl, Bool, true, false, List, [], ◌∷◌, ◌++◌, some, arith, Bytes, length,
  get_elem?, ◌==◌, length-append,
}
use cpp26_experiments.Reflect.Words.{Endian, length-le_bytes}
use cpp26_experiments.Reflect.Types.{Ty, integral, aggregate, Fields, Fits}
use cpp26_experiments.Reflect.Encoding.{encode}
use cpp26_experiments.Rpc.Outcome.{returned}
use cpp26_experiments.Rpc.Message.{MessageType}
use cpp26_experiments.Rpc.Service.{Method, Member, function}
use cpp26_experiments.Rpc.Protocol.{numbered, encode_result, result_footprint}
use cpp26_experiments.Rpc.Channel.{Ran, add_sent, handle, run}
use cpp26_experiments.Rpc.Channel.Calls.{handle_lem}

module _ (size_of : Ty → ℕ) (message : MessageType) where
  open message use {serializer, empty}
  open serializer use {Target, Holds, limit}

  -- The calls that a sequence of requests stands for, made directly one after the other: the
  -- service before and after, and the bytes of the replies.
  pub data Served {S : Type 0} (members : List (Member S))
      : S → List Target → S → List Bytes → Type 0 where
    done : {obj : S} → Served members obj [] obj []
    next :
        {obj obj' : S} {requests : List Target} {replies : List Bytes} {incoming : Target}
        (index : ℕ) (method : Method S) (args : Fields method.parameters)
        → get_elem? members index ≡ some (function method)
        → Fits (aggregate method.parameters) args
        → 4 + result_footprint size_of method.result (method.run obj args).1 ≤ limit
        → Holds incoming (numbered index (encode (aggregate method.parameters) args))
        → Served members (method.run obj args).0 requests obj' replies
        → Served members obj
            (incoming ∷ requests)
            obj'
            (numbered index (encode_result method.result (method.run obj args).1) ∷ replies)

  pub data AllHold : List Target → List Bytes → Type 0 where
    none_left : AllHold [] []
    one_more :
        {t : Target} {bs : Bytes} {ts : List Target} {bss : List Bytes}
        → Holds t bs
        → AllHold ts bss
        → AllHold (t ∷ ts) (bs ∷ bss)

  numbered-nonempty : (index : ℕ) (bytes : Bytes) → (length (numbered index bytes) == 0) ≡ false
  unfolding encode
  numbered-nonempty index bytes =
      ground (arith, length-append (encode (integral 4) index) bytes, length-le_bytes 4 index)

  module _ (endian : Endian) {S : Type 0} (members : List (Member S)) where
    run-kill :
        (replies : Bool) (obj : S) (rest : List Target)
        → run endian size_of message replies members obj (empty ∷ rest)
          ≡ returned (record { stopped = true; service = obj; sent = []; left = rest })
    unfolding run
    run-kill replies obj rest = rw (message.contents_law empty [] message.empty_law) refl

    run-request :
        (obj obj' : S) (incoming reply : Target) (rest : List Target) (bytes : Bytes)
        (ran : Ran S Target)
        → message.contents incoming ≡ some bytes
        → (length bytes == 0) ≡ false
        → handle endian size_of message members obj incoming ≡ returned (obj', reply)
        → run endian size_of message true members obj' rest ≡ returned ran
        → run endian size_of message true members obj (incoming ∷ rest)
          ≡ returned (add_sent (reply ∷ []) ran)
    unfolding run
    run-request obj obj' incoming reply rest bytes ran shown full handled later =
        ground (arith, shown, full, handled, later)

    -- For a service of at most 256 members and a sequence of requests for member functions
    -- whose arguments fit their types and whose responses fit the message type: the server
    -- loop answers the requests in order with what the direct calls return, stops at the
    -- first empty message, and leaves what comes after it.
    pub run-Served :
        {obj obj' : S} {requests : List Target} {replies : List Bytes} (rest : List Target)
        → length members ≤ 256
        → Served members obj requests obj' replies
        → (sent : List Target) × (run endian size_of message true members obj
              (requests ++ empty ∷ rest)
            ≡ returned (record { stopped = true; service = obj'; sent = sent; left = rest }))
          × AllHold sent replies
    unfolding run
    run-Served rest count (done {obj = obj}) = ([], run-kill true obj rest, none_left)
    run-Served {obj = obj} rest count
          (next {incoming = incoming} index method args found fits room held served) =
        let (reply, e, h) =
          handle_lem size_of message endian members index method obj args incoming count found fits
            room held in
        let (sent, e', h') = run-Served rest count served in
        (
          reply ∷ sent,
          run-request obj (method.run obj args).0 incoming reply _ _ _
              (message.contents_law incoming _ held)
              (numbered-nonempty index (encode (aggregate method.parameters) args)) e e',
          one_more h h',
        )
