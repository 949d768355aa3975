-- ===== src/Logging/Line.antt =====
-- include/erl/_impl/log/format/log.hpp: how a message becomes a line.
use cpp26_experiments.Base.{ℕ, List, [], ◌∷◌, ◌++◌, Option, none, some, Bytes, codes, get_elem?}
use cpp26_experiments.Logging.Service.{Message}
use cpp26_experiments.Logging.Color.{make_ansi_code}

pub record MessageArgs : Type 0 where
  pub level_id : ℕ
  pub level : Bytes
  pub thread_id : ℕ
  pub thread : Bytes
  pub timestamp : ℕ
  pub file : Bytes
  pub file_name : Bytes
  pub function : Bytes
  pub line : ℕ
  pub column : ℕ
  pub message : Bytes

-- `enumerator_names<Severity>`
abbrev pub severity_names : List Bytes
severity_names =
    codes "TRACE" ∷ codes "DEBUG" ∷ codes "INFO" ∷ codes "WARN" ∷ codes "ERROR" ∷ codes "FATAL" ∷ []

abbrev pub name_or : Option Bytes → Bytes
name_or none = codes "INVALID"
name_or (some name) = name

-- The severities past `FATAL` are those without a name. `Reset` stands behind a coloured level.
unfoldable pub level_text : ℕ → Bytes → Bytes
level_text severity [] = name_or (get_elem? severity_names severity)
level_text severity (c ∷ color) =
    (c ∷ color) ++ (name_or (get_elem? severity_names severity) ++ make_ansi_code 0)

-- `format` is what the format string was compiled to, `to_local` the time zone's conversion, and
-- `filename` the last part of a path.
module _ (format : MessageArgs → Bytes) (to_local : ℕ → ℕ) (filename : Bytes → Bytes) where
  -- `LogFormat::operator()`
  unfoldable pub log_line : Message → Bytes → Bytes
  log_line msg color = format (record {
    level_id = msg.severity;
    level = level_text msg.severity color;
    thread_id = msg.thread.id;
    thread = msg.thread.name;
    timestamp = to_local msg.timestamp;
    file = msg.location.file;
    file_name = filename msg.location.file;
    function = msg.location.function;
    line = msg.location.line;
    column = msg.location.column;
    message = msg.text;
  })
