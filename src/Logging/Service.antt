-- ===== src/Logging/Service.antt =====
-- `LoggingService`: include/erl/_impl/log/logger.hpp and src/logging/logger.cpp.
use cpp26_experiments.Base.{
  ℕ, ◌==◌, true, false, List, [], ◌∷◌, ◌++◌, map, Option, none, some, ◌>>=◌, Bytes,
}
use cpp26_experiments.Message.View.{between, remainder}
use cpp26_experiments.Reflect.Words.{Endian}
use cpp26_experiments.Reflect.Types.{Ty, integral, aggregate, enumeration, pointer, nil, cons}
use cpp26_experiments.Reflect.Code.{deserialize}
use cpp26_experiments.Logging.Threads.{
  CachedThreadInfo, unnamed, Table, find, or_default, erase, store,
}

-- What a sink is told. A time point is the timestamp that it was made from.
pub record Location : Type 0 where
  pub file : Bytes
  pub function : Bytes
  pub line : ℕ
  pub column : ℕ

pub record Message : Type 0 where
  pub severity : ℕ
  pub thread : CachedThreadInfo
  pub timestamp : ℕ
  pub location : Location
  pub text : Bytes

pub data Event : Type 0 where
  print : Message → Event
  spawn : ℕ → CachedThreadInfo → Event
  exit : ℕ → CachedThreadInfo → Event
  rename : ℕ → CachedThreadInfo → Bytes → Event
  set_parent : ℕ → CachedThreadInfo → CachedThreadInfo → Event

-- A sink is its address; `told` collects the calls of the sinks, the oldest first.
pub record Service : Type 0 where
  pub sinks : List ℕ
  pub threads : Table
  pub told : List (ℕ × Event)

-- `LoggingService::dispatch`
abbrev pub dispatch : Event → Service → Service
dispatch event s = record s { told = s.told ++ map (λ sink. (sink, event)) s.sinks }

unfoldable pub thread_get_info : ℕ → Service → CachedThreadInfo
thread_get_info thread s = elim (find thread s.threads) [ some info ↦ info | none ↦ unnamed thread ]

-- A default entry made by `threads[thread]`, then the id set, then the sinks told.
unfoldable pub on_spawn : ℕ → ℕ → Service → Service
on_spawn timestamp thread s =
    let info = record (or_default (find thread s.threads)) { id = thread } in
    dispatch (spawn timestamp info) (record s { threads = store thread info s.threads })

unfoldable pub on_exit : ℕ → ℕ → Service → Service
on_exit timestamp thread s =
    let told : Service = elim (find thread s.threads) [
      | some info ↦ dispatch (exit timestamp info) s
      | none ↦ dispatch (exit timestamp (unnamed thread)) s
    ] in
    record told { threads = erase thread told.threads }

unfoldable pub on_rename : ℕ → ℕ → Bytes → Service → Service
on_rename timestamp thread name s =
    let info = or_default (find thread s.threads) in
    let told = dispatch (rename timestamp info name) s in
    record told { threads = store thread (record info { name = name }) told.threads }

-- Both entries are made before either is changed; the two references may be to the same one.
unfoldable pub on_set_parent : ℕ → ℕ → ℕ → Service → Service
on_set_parent timestamp thread parent_id s =
    let made = store thread (or_default (find thread s.threads)) s.threads in
    let parent = record (or_default (find parent_id made)) { id = parent_id } in
    let named = store parent_id parent made in
    let info = or_default (find thread named) in
    let told = dispatch (set_parent timestamp info parent) (record s { threads = named }) in
    record told { threads = store thread (record info { parent = parent_id }) told.threads }

unfoldable pub add_sink : ℕ → Service → Service
add_sink sink s = record s { sinks = s.sinks ++ sink ∷ [] }

unfoldable pub without : ℕ → List ℕ → List ℕ
without sink [] = []
without sink (x ∷ xs) = elim (x == sink) [ true ↦ without sink xs | false ↦ x ∷ without sink xs ]

unfoldable pub remove_sink : ℕ → Service → Service
remove_sink sink s = record s { sinks = without sink s.sinks }

-- `LoggingEvent`, as `Reflect` sees it: severity, thread, timestamp, and the formatter's address.
abbrev pub logging_event : Ty
logging_event = aggregate (
    cons (enumeration 1)
      (cons (aggregate (cons (integral 8) nil)) (cons (integral 8) (cons pointer nil))))

-- `formatter` is the code at an address: it reads the arguments and formats them.
module _ (endian : Endian) (formatter : ℕ → Bytes → Location × Bytes) where
  unfoldable pub handle_print : Bytes → Service → Option Service
  handle_print bytes s = do
    (event, reader) ← deserialize endian logging_event (between [] bytes)
    let (location, text) = formatter event.1.1.1.0 (remainder reader)
    some (
        dispatch
          (print (record {
            severity = event.0;
            thread = thread_get_info event.1.0.0 s;
            timestamp = event.1.1.0;
            location = location;
            text = text;
          }))
          s)
