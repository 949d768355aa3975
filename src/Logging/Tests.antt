-- ===== src/Logging/Tests.antt =====
-- Runs of the logging service, and the theorems at such inputs.
use cpp26_experiments.Base.{◌++◌, some, none, ℕ, Bytes, arith, ◌≡◌, refl, List, [], ◌∷◌, codes}
use cpp26_experiments.Logging.Threads.{unnamed, store, erase}
use cpp26_experiments.Logging.Line.{level_text}
use cpp26_experiments.Logging.Terminal.{Terminal, print_message, handle}
use cpp26_experiments.Logging.Terminal.Shown.{severity_of, text_of, handle_lem}
use cpp26_experiments.Trie.Lookup.{c_string}
use cpp26_experiments.Logging.Service.{
  Message, print, spawn, Event, Location, rename, thread_get_info, on_spawn, on_rename,
}
use cpp26_experiments.Reflect.Words.{little, of_object}
use cpp26_experiments.Reflect.Types.{Ty, integral, range, aggregate, nil, cons}
use cpp26_experiments.Reflect.Code.{deserialize, deserialize_integral, repeat_read}
use cpp26_experiments.Reflect.Encoding.{encode}
use cpp26_experiments.Message.View.{read}
use cpp26_experiments.Rpc.Outcome.{Outcome}
use cpp26_experiments.Rpc.Service.{case_count}
use cpp26_experiments.Rpc.Dispatch.{dispatch, dispatch_index, dispatch_member, eval}
use cpp26_experiments.Rpc.Protocol.{numbered}
use cpp26_experiments.Rpc.Hybrid.{hybrid_message}
use cpp26_experiments.Logging.Remote.{members}
use cpp26_experiments.Logging.Calls.{Call, spawned, exited, renamed, adopted, after}
use cpp26_experiments.Logging.History.{fresh, thread_get_info-after}

abbrev worker : List Call
worker =
    adopted 4 7 1
    ∷ renamed 3 7 (codes "worker")
    ∷ spawned 2 7
    ∷ exited 1 7
    ∷ renamed 0 7 (codes "old")
    ∷ []

thread_get_info-after_example :
    thread_get_info 7 (after worker (fresh (99 ∷ [])))
    ≡ record { id = 7; name = codes "worker"; parent = 1 }
thread_get_info-after_example = thread_get_info-after (99 ∷ []) worker 7

-- A thread that is renamed before it is spawned is shown with the id 0.
renamed_first : (thread_get_info 7 (on_rename 0 7 (codes "early") (fresh []))).id ≡ 0
unfolding thread_get_info on_rename store erase
renamed_first = refl

-- The sinks are told of a renaming with the name before it.
told_before :
    (on_rename 5 7 (codes "new") (on_spawn 2 7 (fresh (99 ∷ [])))).told
    ≡ (99, Event.spawn 2 (unnamed 7)) ∷ (99, rename 5 (unnamed 7) (codes "new")) ∷ []
unfolding on_rename on_spawn store erase
told_before = refl

abbrev no_text : ℕ → Bytes → Location × Bytes
no_text address bytes = (record { file = []; function = []; line = 0; column = 0 }, [])

abbrev sizes : Ty → ℕ
sizes t = 1

-- `ThreadInfo::set_name` sends the id and the name, without a timestamp: the service reads the id
-- as the timestamp, and past the end of the message.
set_name_misread :
    dispatch little sizes (hybrid_message 58 (omega arith)) (members little no_text) (fresh []) (
      numbered 2 (
        encode
          (aggregate (cons (integral 8) (cons (range (integral 1)) nil)))
          (7, (codes "worker", tt))))
    ≡ Outcome.undefined
unfolding dispatch dispatch_index dispatch_member eval encode deserialize deserialize_integral read
    of_object repeat_read case_count
set_name_misread = refl

-- A terminal that shows the colour and the text.
abbrev plain_format : Message → Bytes → Bytes
plain_format message color = color ++ message.text

abbrev quiet_terminal : Terminal
quiet_terminal = record {
  minimum_severity = 1;
  color_map = codes "t" ∷ codes "d" ∷ codes "i" ∷ codes "w" ∷ codes "e" ∷ codes "f" ∷ [];
  printed = [];
}

abbrev a_warning : Message
a_warning = record {
  severity = 3;
  thread = unnamed 7;
  timestamp = 5;
  location = record { file = []; function = []; line = 0; column = 0 };
  text = codes "low";
}

handle_lem_example :
    handle plain_format (spawn 4 (unnamed 7) ∷ print a_warning ∷ []) quiet_terminal
    ≡ some (record quiet_terminal { printed = codes "wlow" ∷ [] })
unfolding severity_of text_of c_string
handle_lem_example =
    handle_lem plain_format (spawn 4 (unnamed 7) ∷ print a_warning ∷ []) quiet_terminal
      (omega arith)

-- A severity past the last has a level text, but no colour.
unknown_severity :
    print_message plain_format (record a_warning { severity = 6 }) quiet_terminal ≡ none
unfolding print_message
unknown_severity = refl

invalid_level : level_text 6 [] ≡ codes "INVALID"
unfolding level_text
invalid_level = refl
