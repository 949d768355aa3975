-- ===== src/Rpc/Tests.antt =====
-- Runs of the remote calls, and the theorems at such inputs.
use cpp26_experiments.Base.{
  ℕ, ◌+◌, ◌%◌, ◌≡◌, refl, true, List, [], ◌∷◌, none, some, arith, get_elem?, ltb,
}
use cpp26_experiments.Reflect.Words.{little, big}
use cpp26_experiments.Reflect.Types.{Ty, integral, aggregate, nil, cons}
use cpp26_experiments.Reflect.Encoding.{encode, footprint}
use cpp26_experiments.Message.Hybrid.{Buffer}
use cpp26_experiments.Rpc.Outcome.{returned, undefined, out_of_range}
use cpp26_experiments.Rpc.Message.{MessageType}
use cpp26_experiments.Rpc.Service.{Method, Member, function, case_count}
use cpp26_experiments.Rpc.Messages.{request}
use cpp26_experiments.Rpc.Protocol.{numbered, request_lem}
use cpp26_experiments.Rpc.Dispatch.{dispatch_index}
use cpp26_experiments.Rpc.Channel.{call, handle, run}
use cpp26_experiments.Rpc.Channel.Calls.{call-handle}
use cpp26_experiments.Rpc.Channel.Loop.{AllHold, done, next, run-Served}
use cpp26_experiments.Rpc.Hybrid.{hybrid_message}
use cpp26_experiments.Rpc.Policies.{
  ProxyMember, DispatchMember, annotated_is_remote, annotated_dispatch, annotated_proxies,
  annotated_dispatchers, make_proxy, make_dispatcher,
}
use cpp26_experiments.Rpc.Agreement.{annotated_agree, sent_index, answer_index}
use cpp26_experiments.Meta.Sample.{sample, callback_tag}
use cpp26_experiments.Meta.Members.{named_members_of, has_annotation}
use cpp26_experiments.Rpc.Policy.{make_members, make_members_agree, total}

-- A counter: `std::uint32_t add(std::uint32_t)` and `void reset()`.
abbrev add : Method ℕ
add = record {
  parameters = cons (integral 4) nil;
  result = some (integral 4);
  run = λ s args. ((s + args.0) % 4294967296, (s + args.0) % 4294967296);
}

abbrev reset : Method ℕ
reset = record { parameters = nil; result = none; run = λ s args. (0, tt) }

abbrev members : List (Member ℕ)
members = function add ∷ function reset ∷ []

abbrev sizes : Ty → ℕ
sizes t = 4

abbrev message : MessageType
message = hybrid_message 58 (omega arith)

call-handle_example :
    call little sizes message
      (handle big sizes message members 40)
      0
      (cons (integral 4) nil)
      (some (integral 4))
      (2, tt)
    ≡ returned (42, 42)
unfolding footprint
call-handle_example =
    call-handle sizes message little big members 0 add 40 (2, tt) (omega arith) refl (omega arith)
      (omega arith) (omega arith) (omega arith)

abbrev pair_up : ℕ → ℕ → ℕ × ℕ
pair_up i m = (i, m)

make_members_agree_example :
    (get_elem? (make_members (total (ltb 2) (pair_up)) 0 (1 ∷ 5 ∷ 2 ∷ 7 ∷ [])) 1
      ≡ some (pair_up 1 7))
    × (get_elem? (make_members (total (ltb 2) (◌+◌)) 0 (1 ∷ 5 ∷ 2 ∷ 7 ∷ [])) 1 ≡ some 8)
make_members_agree_example = make_members_agree (ltb 2) (pair_up) (◌+◌) (1 ∷ 5 ∷ 2 ∷ 7 ∷ []) 1

-- An index past the two members but within the stamped cases, and one past those.
unreachable_index : dispatch_index little sizes message members 0 2 [] ≡ undefined
unfolding dispatch_index case_count
unreachable_index = refl

unknown_index : dispatch_index little sizes message members 0 4 [] ≡ out_of_range
unfolding dispatch_index case_count
unknown_index = refl

reset_request :
    (t : Buffer) × (request little sizes message 1 nil tt ≡ some t)
    × message.serializer.Holds t (numbered 1 (encode (aggregate nil) tt))
unfolding footprint
reset_request = request_lem little sizes message 1 nil tt (omega arith) (omega arith)

run-Served_example :
    (sent : List Buffer) × (run little sizes message true members 7
        (reset_request.0 ∷ message.empty ∷ [])
      ≡ returned (record { stopped = true; service = 0; sent = sent; left = [] }))
    × AllHold sizes message sent (numbered 1 [] ∷ [])
run-Served_example =
    run-Served sizes message little members [] (omega arith)
      (next {requests = []} 1 reset tt refl tt (omega arith) reset_request.2 done)

-- The callback of the service of the sample compiler.
annotated_agree_example :
    ((p : ProxyMember ℕ) × (get_elem?
          (make_proxy sample callback_tag (annotated_proxies sample callback_tag) 20)
          0
        ≡ some p)
      × (sent_index p.type ≡ 0)
      × (p.name ≡ sample.identifier_of 21))
    × ((d : DispatchMember ℕ) × (get_elem?
            (make_dispatcher sample callback_tag (annotated_dispatchers sample callback_tag) 20)
            0
          ≡ some d)
        × (annotated_dispatch sample callback_tag 0 21 ≡ some d)
        × (answer_index d ≡ 0))
unfolding annotated_is_remote named_members_of has_annotation
annotated_agree_example = annotated_agree sample callback_tag 20 0 21 refl
