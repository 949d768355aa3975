-- ===== src/Logging/Terminal/Shown.antt =====
-- What the terminal sink of include/erl/_impl/log/sinks/terminal.hpp puts out for a history of events.
use cpp26_experiments.Base.{
  ℕ, ◌<◌, ◌≡◌, refl, ltb, List, [], ◌∷◌, ◌++◌, Option, none, some, Bytes, codes, length, get_elem?,
  if◌then◌else◌, All, arith, append_assoc, append-nil, sym, ap, ◌∙◌, Bool-cases, inl, inr,
  get_elem?_total,
}
use cpp26_experiments.Util.Strings.{utos}
use cpp26_experiments.Trie.Lookup.{c_string}
use cpp26_experiments.Logging.Threads.{CachedThreadInfo}
use cpp26_experiments.Logging.Service.{
  Location, Message, Event, print, spawn, exit, rename, set_parent,
}
use cpp26_experiments.Logging.Terminal.{Terminal, message_of, print_message, handle}

-- The fields of what is shown of an event: a thread's event has the lowest severity, its own thread
-- and time, no location, and a text of the thread's id and name.
unfoldable pub severity_of : Event → ℕ
severity_of (print message) = message.severity
severity_of _ = 0

unfoldable pub thread_of : Event → CachedThreadInfo
thread_of (print message) = message.thread
thread_of (spawn timestamp thread) = thread
thread_of (exit timestamp thread) = thread
thread_of (rename timestamp thread name) = thread
thread_of (set_parent timestamp thread parent) = thread

unfoldable pub time_of : Event → ℕ
time_of (print message) = message.timestamp
time_of (spawn timestamp thread) = timestamp
time_of (exit timestamp thread) = timestamp
time_of (rename timestamp thread name) = timestamp
time_of (set_parent timestamp thread parent) = timestamp

abbrev location_of : Event → Location
location_of (print message) = message.location
location_of _ = record { file = []; function = []; line = 0; column = 0 }

unfoldable pub text_of : Event → Bytes
text_of (print message) = message.text
text_of (spawn timestamp thread) = codes "thread " ++ (utos thread.id ++ codes " started")
text_of (exit timestamp thread) =
    codes "thread " ++ (utos thread.id ++ (codes " `" ++ (thread.name ++ codes "` exited")))
text_of (rename timestamp thread name) =
    codes "thread "
    ++ (utos thread.id
        ++ (codes " `" ++ (thread.name ++ (codes "` renamed to `" ++ (name ++ codes "`")))))
text_of (set_parent timestamp thread parent) =
    codes "thread "
    ++ (utos thread.id
        ++ (codes " `"
            ++ (thread.name
                ++ (codes "` parent set to "
                    ++ (utos parent.id ++ (codes " `" ++ (parent.name ++ codes "`")))))))

-- The message of an event, field by field.
abbrev pub said : Event → Message
said event = record {
  severity = severity_of event;
  thread = thread_of event;
  timestamp = time_of event;
  location = location_of event;
  text = text_of event;
}

message_of-text : (event : Event) → (message_of event).text ≡ text_of event
unfolding message_of text_of
message_of-text (print message) = refl
message_of-text (spawn timestamp thread) = refl
message_of-text (exit timestamp thread) = simp append_assoc
message_of-text (rename timestamp thread name) = simp append_assoc
message_of-text (set_parent timestamp thread parent) = simp append_assoc

said-fields : (event : Event) → record (message_of event) { text = text_of event } ≡ said event
unfolding message_of severity_of thread_of time_of
said-fields (print message) = refl
said-fields (spawn timestamp thread) = refl
said-fields (exit timestamp thread) = refl
said-fields (rename timestamp thread name) = refl
said-fields (set_parent timestamp thread parent) = refl

message_of-said : (event : Event) → message_of event ≡ said event
message_of-said event =
    ap (λ (l : Bytes). record (message_of event) { text = l }) (message_of-text event)
    ∙ said-fields event

module _ (formatter : Message → Bytes → Bytes) where
  abbrev pub color_of : Option Bytes → Bytes
  color_of none = []
  color_of (some color) = color

  -- What a terminal of a minimum severity and a table of colours shows of a message.
  abbrev pub line_of : ℕ → List Bytes → Message → List Bytes
  line_of minimum colors message =
      if ltb message.severity minimum
      then []
      else c_string (formatter message (color_of (get_elem? colors message.severity))) ∷ []

  print_message_lem :
      (message : Message) (terminal : Terminal)
      → message.severity < length terminal.color_map
      → print_message formatter message terminal
        ≡ some (record terminal {
          printed =
              terminal.printed ++ line_of terminal.minimum_severity terminal.color_map message;
        })
  unfolding print_message
  print_message_lem message terminal h =
      let color = get_elem?_total terminal.color_map message.severity h in
      elim (Bool-cases (ltb message.severity terminal.minimum_severity)) [
        | inl quiet ↦ ground (arith, quiet, append-nil terminal.printed)
        | inr loud ↦ ground (arith, loud, color.1)
      ]

  abbrev pub lines_of : ℕ → List Bytes → List Event → List Bytes
  lines_of minimum colors [] = []
  lines_of minimum colors (event ∷ events) =
      line_of minimum colors (said event) ++ lines_of minimum colors events

  -- For a table with a colour for the severity of every event: a terminal puts out one line
  -- for each event of at least its minimum severity, in order and in the colour of the
  -- severity, and nothing for the others. A message has its own severity; the start, the end,
  -- the renaming and the new parent of a thread have the lowest one, 0, and are told at their
  -- time as a text of the names and ids about the thread that they happen to.
  pub handle_lem :
      (events : List Event) (terminal : Terminal)
      → All (λ (e : Event). severity_of e < length terminal.color_map) events
      → handle formatter events terminal
        ≡ some (record terminal {
          printed =
              terminal.printed ++ lines_of terminal.minimum_severity terminal.color_map events;
        })
  unfolding handle
  handle_lem [] terminal h =
      ap (λ (l : List Bytes). some (record terminal { printed = l }))
        (sym (append-nil terminal.printed))
  handle_lem (event ∷ events) terminal h =
      let line = line_of terminal.minimum_severity terminal.color_map (said event) in
      let later = lines_of terminal.minimum_severity terminal.color_map events in
      let told =
        ap (λ (m : Message). print_message formatter m terminal) (message_of-said event)
        ∙ print_message_lem (said event) terminal h.0 in
      rw told (
        handle_lem events (record terminal { printed = terminal.printed ++ line }) h.1
        ∙ ap (λ (l : List Bytes). some (record terminal { printed = l }))
            (append_assoc terminal.printed line later))
