-- ===== src/Logging/Calls.antt =====
-- Histories of the calls of `LoggingService` (src/logging/logger.cpp), and what they say of a
-- thread.
use cpp26_experiments.Base.{ℕ, ◌==◌, Bool, true, false, List, [], ◌∷◌, Bytes, codes, ◌||◌}
use cpp26_experiments.Logging.Threads.{CachedThreadInfo}
use cpp26_experiments.Logging.Service.{Service, on_spawn, on_exit, on_rename, on_set_parent}

pub data Call : Type 0 where
  spawned : ℕ → ℕ → Call
  exited : ℕ → ℕ → Call
  renamed : ℕ → ℕ → Bytes → Call
  adopted : ℕ → ℕ → ℕ → Call

abbrev pub perform : Call → Service → Service
perform (spawned timestamp thread) s = on_spawn timestamp thread s
perform (exited timestamp thread) s = on_exit timestamp thread s
perform (renamed timestamp thread name) s = on_rename timestamp thread name s
perform (adopted timestamp thread parent) s = on_set_parent timestamp thread parent s

-- The newest call first.
abbrev pub after : List Call → Service → Service
after [] s = s
after (call ∷ calls) s = perform call (after calls s)

-- What the history says of a thread, if it is known at all: the newest call that concerns it
-- decides each of the three.
abbrev pub known : List Call → ℕ → Bool
known [] t = false
known (spawned timestamp thread ∷ calls) t = thread == t || known calls t
known (exited timestamp thread ∷ calls) t = elim (thread == t) [
  | true ↦ false
  | false ↦ known calls t
]
known (renamed timestamp thread name ∷ calls) t = thread == t || known calls t
known (adopted timestamp thread parent ∷ calls) t = thread == t || (parent == t || known calls t)

abbrev pub name_of : List Call → ℕ → Bytes
name_of [] t = codes "<unnamed>"
name_of (spawned timestamp thread ∷ calls) t = name_of calls t
name_of (exited timestamp thread ∷ calls) t = elim (thread == t) [
  | true ↦ codes "<unnamed>"
  | false ↦ name_of calls t
]
name_of (renamed timestamp thread name ∷ calls) t = elim (thread == t) [
  | true ↦ name
  | false ↦ name_of calls t
]
name_of (adopted timestamp thread parent ∷ calls) t = name_of calls t

abbrev pub parent_of : List Call → ℕ → ℕ
parent_of [] t = 0
parent_of (spawned timestamp thread ∷ calls) t = parent_of calls t
parent_of (exited timestamp thread ∷ calls) t = elim (thread == t) [
  | true ↦ 0
  | false ↦ parent_of calls t
]
parent_of (renamed timestamp thread name ∷ calls) t = parent_of calls t
parent_of (adopted timestamp thread parent ∷ calls) t = elim (thread == t) [
  | true ↦ parent
  | false ↦ parent_of calls t
]

-- The id that is stored: 0 until a call sets it.
abbrev pub id_of : List Call → ℕ → ℕ
id_of [] t = 0
id_of (spawned timestamp thread ∷ calls) t = elim (thread == t) [ true ↦ t | false ↦ id_of calls t ]
id_of (exited timestamp thread ∷ calls) t = elim (thread == t) [ true ↦ 0 | false ↦ id_of calls t ]
id_of (renamed timestamp thread name ∷ calls) t = id_of calls t
id_of (adopted timestamp thread parent ∷ calls) t = elim (parent == t) [
  | true ↦ t
  | false ↦ id_of calls t
]

abbrev pub described : List Call → ℕ → CachedThreadInfo
described calls t = record {
  id = id_of calls t;
  name = name_of calls t;
  parent = parent_of calls t;
}
