-- ===== src/Logging/Terminal.antt =====
-- include/erl/_impl/log/sinks/terminal.hpp: `Terminal`.
pub mod Shown
use cpp26_experiments.Base.{
  ℕ, ◌<◌, ◌≡◌, ltb, Bool, not, List, [], ◌∷◌, ◌++◌, map, Option, none, some, ◌>>=◌, Bytes, codes,
  length, get_elem?, if◌then◌else◌, All, arith, append_assoc, append-nil, sym, ap, Bool-cases, inl,
  inr, get_elem?_total, subst,
}
use cpp26_experiments.Util.Strings.{utos}
use cpp26_experiments.Meta.Members.{filter}
use cpp26_experiments.Trie.Lookup.{c_string}
use cpp26_experiments.Logging.Threads.{CachedThreadInfo}
use cpp26_experiments.Logging.Service.{Message, Event, print, spawn, exit, rename, set_parent}

-- The lines that were put out stand with the sink's fields.
pub record Terminal : Type 0 where
  pub minimum_severity : ℕ
  pub color_map : List Bytes
  pub printed : List Bytes

-- A message of severity `TRACE` about a thread.
abbrev pub trace : ℕ → CachedThreadInfo → Bytes → Message
trace timestamp thread text = record {
  severity = 0;
  thread = thread;
  timestamp = timestamp;
  location = record { file = []; function = []; line = 0; column = 0 };
  text = text;
}

-- Thread id and name, as the texts show them.
abbrev pub shown : CachedThreadInfo → Bytes
shown thread = utos thread.id ++ (codes " `" ++ (thread.name ++ codes "`"))

-- What each operation of the sink prints.
unfoldable pub message_of : Event → Message
message_of (print message) = message
message_of (spawn timestamp thread) =
    trace timestamp thread (codes "thread " ++ (utos thread.id ++ codes " started"))
message_of (exit timestamp thread) =
    trace timestamp thread (codes "thread " ++ (shown thread ++ codes " exited"))
message_of (rename timestamp thread name) =
    trace timestamp thread
      (codes "thread " ++ (shown thread ++ (codes " renamed to `" ++ (name ++ codes "`"))))
message_of (set_parent timestamp thread parent) =
    trace timestamp thread
      (codes "thread " ++ (shown thread ++ (codes " parent set to " ++ shown parent)))

-- `formatter` is the sink's `LogFormat`.
module _ (formatter : Message → Bytes → Bytes) where
  -- `Terminal::print`. The table of colours is indexed without a check; `puts` ends at a null character.
  unfoldable pub print_message : Message → Terminal → Option Terminal
  print_message message terminal =
      if ltb message.severity terminal.minimum_severity
      then some terminal
      else (get_elem? terminal.color_map message.severity >>= (λ color. some (record terminal {
        printed = terminal.printed ++ (c_string (formatter message color) ∷ []);
      })))

  -- The operations of the sink in turn.
  unfoldable pub handle : List Event → Terminal → Option Terminal
  handle [] terminal = some terminal
  handle (event ∷ events) terminal = do
    terminal' ← print_message (message_of event) terminal
    handle events terminal'
