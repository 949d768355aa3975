-- ===== src/Rpc/Protocol/Call.antt =====
-- The server's half of a remote call (include/erl/_impl/rpc/dispatch.hpp and proxy.hpp), and the
-- reading of its response.
use cpp26_experiments.Base.{
  true, zero, suc, ◌∷◌, lt→ltb, ℕ, ◌+◌, ◌%◌, ◌^◌, ◌≤◌, ◌<◌, ◌≡◌, refl, ◌∙◌, sym, ap, ◌++◌, [], List,
  Option, none, some, arith, Bytes, length, get_elem?, append-nil, ◌==◌,
}
use cpp26_experiments.Message.View.{between, remainder-between}
use cpp26_experiments.Reflect.Words.{Endian}
use cpp26_experiments.Reflect.Types.{Ty, integral, aggregate, El, Fields, Fits}
use cpp26_experiments.Reflect.Code.{deserialize}
use cpp26_experiments.Reflect.Encoding.{encode}
use cpp26_experiments.Reflect.RoundTrip.{deserialize-encode}
use cpp26_experiments.Rpc.Outcome.{returned}
use cpp26_experiments.Rpc.Message.{MessageType}
use cpp26_experiments.Rpc.Service.{Returned, Method, Member, function, case_count}
use cpp26_experiments.Rpc.Messages.{read_response}
use cpp26_experiments.Rpc.Dispatch.{eval, dispatch_member, dispatch_index, dispatch}
use cpp26_experiments.Rpc.Protocol.{
  numbered, encode_result, FitsResult, result_footprint, make_response_lem, fields_deserialize,
}

-- Reading the index leaves the rest of the message.
read_index :
    (endian : Endian) (index : ℕ) (bytes : Bytes)
    → index < 2 ^ 32
    → deserialize endian (integral 4) (between [] (numbered index bytes))
      ≡ some (index, between (encode (integral 4) index) bytes)
read_index endian index bytes narrow =
    deserialize-encode endian (integral 4) index [] bytes (omega arith)

read_all :
    (endian : Endian) (ty : Ty) (v : El ty) (before : Bytes)
    → Fits ty v
    → deserialize endian ty (between before (encode ty v))
      ≡ some (v, between (before ++ encode ty v) [])
read_all endian ty v before fits =
    ap (λ bytes. deserialize endian ty (between before bytes)) (sym (append-nil (encode ty v)))
    ∙ deserialize-encode endian ty v before [] fits

index_same : (index : ℕ) → index < 2 ^ 32 → (index == index % 2 ^ 32) ≡ true
index_same index narrow = ground arith

pub read_response_lem :
    (endian : Endian) (result : Option Ty) (value : Returned result) (index : ℕ)
    → index < 2 ^ 32
    → FitsResult result value
    → read_response endian result index (numbered index (encode_result result value)) ≡ some value
unfolding read_response
read_response_lem endian none value index narrow fits =
    rw (read_index endian index [] narrow, index_same index narrow) refl
read_response_lem endian (some ty) value index narrow fits =
    rw
      (
        read_index endian index (encode ty value) narrow,
        index_same index narrow,
        read_all endian ty value (encode (integral 4) index) fits,
      )
      refl

-- A member's index is below the number of cases.
case_count_lem : (n : ℕ) → n ≤ 256 → n ≤ case_count n
unfolding case_count
case_count_lem n h = ground arith

pub get_elem?-length :
    {A : Type 0} (xs : List A) (i : ℕ) (x : A) → get_elem? xs i ≡ some x → i < length xs
get_elem?-length [] i x h = cc
get_elem?-length (y ∷ ys) zero x h = omega arith
get_elem?-length (y ∷ ys) (suc i) x h = omega (arith, get_elem?-length ys i x h)

module _ (endian : Endian) (size_of : Ty → ℕ) (message : MessageType) where
  open message use {serializer}
  open serializer use {Target, Holds, limit}

  module _ {S : Type 0} where
    eval_lem :
        (method : Method S) (obj : S) (args : Fields method.parameters)
        → Fits (aggregate method.parameters) args
        → eval endian size_of message method obj (encode (aggregate method.parameters) args)
          ≡ returned (method.run obj args)
    unfolding eval
    eval_lem method obj args fits =
        rw
          (
            fields_deserialize endian method.parameters,
            read_all endian (aggregate method.parameters) args [] fits,
          )
          refl

    dispatch-numbered :
        (members : List (Member S)) (obj : S) (index : ℕ) (bytes : Bytes)
        → index < 2 ^ 32
        → dispatch endian size_of message members obj (numbered index bytes)
          ≡ dispatch_index endian size_of message members obj index bytes
    unfolding dispatch
    dispatch-numbered members obj index bytes narrow = rw (read_index endian index bytes narrow) (
        ap (dispatch_index endian size_of message members obj index)
          (remainder-between (encode (integral 4) index) bytes))

    -- The switch takes an index of a member to that member.
    dispatch_index-member :
        (members : List (Member S)) (obj : S) (index : ℕ) (bytes : Bytes) (member : Member S)
        → length members ≤ 256
        → get_elem? members index ≡ some member
        → dispatch_index endian size_of message members obj index bytes
          ≡ dispatch_member endian size_of message member index obj bytes
    unfolding dispatch_index
    dispatch_index-member members obj index bytes member count found =
        let cases = case_count_lem (length members) count in
        let below = get_elem?-length members index member found in
        rw (lt→ltb index (case_count (length members)) (omega arith), found) refl

    dispatch_member_lem :
        (index : ℕ) (method : Method S) (obj : S) (args : Fields method.parameters)
        → index < 2 ^ 32
        → Fits (aggregate method.parameters) args
        → 4 + result_footprint size_of method.result (method.run obj args).1 ≤ limit
        → (reply : Target) × (dispatch_member endian size_of message
              (function method)
              index
              obj
              (encode (aggregate method.parameters) args)
            ≡ returned ((method.run obj args).0, reply))
          × Holds reply (numbered index (encode_result method.result (method.run obj args).1))
    unfolding dispatch_member
    dispatch_member_lem index method obj args narrow fits room =
        let (reply, e, h) =
          make_response_lem endian size_of message index method.result (method.run obj args).1
            narrow room in
        (reply, rw (eval_lem method obj args fits, e) refl, h)

    -- For a service of at most 256 members, a request for a member function changes the service
    -- and answers as the direct call does.
    pub dispatch_lem :
        (members : List (Member S)) (index : ℕ) (method : Method S) (obj : S)
        (args : Fields method.parameters)
        → length members ≤ 256
        → get_elem? members index ≡ some (function method)
        → Fits (aggregate method.parameters) args
        → 4 + result_footprint size_of method.result (method.run obj args).1 ≤ limit
        → (reply : Target) × (dispatch endian size_of message members obj
              (numbered index (encode (aggregate method.parameters) args))
            ≡ returned ((method.run obj args).0, reply))
          × Holds reply (numbered index (encode_result method.result (method.run obj args).1))
    dispatch_lem members index method obj args count found fits room =
        let below = get_elem?-length members index (function method) found in
        let narrow : index < 2 ^ 32 = omega arith in
        let bytes = encode (aggregate method.parameters) args in
        let (reply, e, h) = dispatch_member_lem index method obj args narrow fits room in
        (
          reply,
          dispatch-numbered members obj index bytes narrow
              ∙ dispatch_index-member members obj index bytes (function method) count found
              ∙ e,
          h,
        )
