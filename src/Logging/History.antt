-- ===== src/Logging/History.antt =====
-- The table of threads of `LoggingService` (src/logging/logger.cpp) after a history of calls.
use cpp26_experiments.Base.{
  ℕ, ◌≡◌, refl, ap, ◌==◌, ==_iff, Bool, true, false, List, [], ◌∷◌, none, some, Bytes, arith,
  Bool-cases, Option-cases, inl, inr,
}
use cpp26_experiments.Logging.Threads.{
  CachedThreadInfo, unnamed, find, or_default, store, find-store, find-erase,
}
use cpp26_experiments.Logging.Service.{
  Service, thread_get_info, on_spawn, on_exit, on_rename, on_set_parent,
}
use cpp26_experiments.Logging.Calls.{
  Call, spawned, exited, renamed, adopted, after, known, described,
}

-- The table holds what the history says.
Agrees : List Call → Service → Type 0
Agrees calls s =
    (t : ℕ)
    → (or_default (find t s.threads) ≡ described calls t)
      × ((elim (find t s.threads) as (λ _. Bool) [ none ↦ false | some info ↦ true ])
          ≡ known calls t)

empty-Agrees : (sinks : List ℕ) → Agrees [] (record { sinks = sinks; threads = []; told = [] })
unfolding Agrees
empty-Agrees sinks t = (refl, refl)

spawn-Agrees :
    (timestamp thread : ℕ) (calls : List Call) (s : Service)
    → Agrees calls s
    → Agrees (spawned timestamp thread ∷ calls) (on_spawn timestamp thread s)
unfolding Agrees on_spawn
spawn-Agrees timestamp thread calls s h t = elim (Bool-cases (thread == t)) [
  | inl same ↦ ground (
    arith,
    same,
    h thread,
    ap (λ n. described calls n) ((==_iff thread t).0 same),
    ap (known calls) ((==_iff thread t).0 same),
    find-store thread t (record (or_default (find thread s.threads)) { id = thread }) s.threads,
  )
  | inr other ↦ ground (
    arith,
    other,
    h t,
    find-store thread t (record (or_default (find thread s.threads)) { id = thread }) s.threads,
  )
]

exit-Agrees :
    (timestamp thread : ℕ) (calls : List Call) (s : Service)
    → Agrees calls s
    → Agrees (exited timestamp thread ∷ calls) (on_exit timestamp thread s)
unfolding Agrees on_exit
exit-Agrees timestamp thread calls s h t = elim (Option-cases (find thread s.threads)) [
  | inl absent ↦ ground (arith, absent, h t, find-erase thread t s.threads)
  | inr (info, present) ↦ ground (arith, present, h t, find-erase thread t s.threads)
]

rename-Agrees :
    (timestamp thread : ℕ) (name : Bytes) (calls : List Call) (s : Service)
    → Agrees calls s
    → Agrees (renamed timestamp thread name ∷ calls) (on_rename timestamp thread name s)
unfolding Agrees on_rename
rename-Agrees timestamp thread name calls s h t = elim (Bool-cases (thread == t)) [
  | inl same ↦ ground (
    arith,
    same,
    h thread,
    ap (λ n. described calls n) ((==_iff thread t).0 same),
    find-store thread t (record (or_default (find thread s.threads)) { name = name }) s.threads,
  )
  | inr other ↦ ground (
    arith,
    other,
    h t,
    find-store thread t (record (or_default (find thread s.threads)) { name = name }) s.threads,
  )
]

-- An entry made by `threads[thread]` changes nothing that is said of any thread but that it is
-- known.
described_at :
    (calls : List Call) (t u : ℕ) → (t == u) ≡ true → described calls t ≡ described calls u
described_at calls t u same = ap (λ n. described calls n) ((==_iff t u).0 same)

set_parent-Agrees :
    (timestamp thread parent : ℕ) (calls : List Call) (s : Service)
    → Agrees calls s
    → Agrees (adopted timestamp thread parent ∷ calls) (on_set_parent timestamp thread parent s)
unfolding Agrees on_set_parent
set_parent-Agrees timestamp thread parent_id calls s h t =
    let made = store thread (or_default (find thread s.threads)) s.threads in
    let parent : CachedThreadInfo = record (or_default (find parent_id made)) { id = parent_id } in
    let named = store parent_id parent made in
    let info : CachedThreadInfo = record (or_default (find thread named)) { parent = parent_id } in
    elim (Bool-cases (thread == t)) [
      | inl same ↦ elim (Bool-cases (parent_id == t)) [
        | inl own ↦ ground (
          arith,
          same,
          own,
          h t,
          find-store thread t info named,
          find-store parent_id t parent made,
          find-store thread t (or_default (find thread s.threads)) s.threads,
          find-store parent_id thread parent made,
          find-store thread thread (or_default (find thread s.threads)) s.threads,
          h thread,
          described_at calls thread t same,
          (==_iff thread t).0 same,
          find-store thread parent_id (or_default (find thread s.threads)) s.threads,
          h parent_id,
          described_at calls parent_id t own,
          (==_iff parent_id t).0 own,
        )
        | inr other ↦ ground (
          arith,
          same,
          other,
          h t,
          find-store thread t info named,
          find-store parent_id t parent made,
          find-store thread t (or_default (find thread s.threads)) s.threads,
          find-store parent_id thread parent made,
          find-store thread thread (or_default (find thread s.threads)) s.threads,
          h thread,
          described_at calls thread t same,
          (==_iff thread t).0 same,
        )
      ]
      | inr different ↦ elim (Bool-cases (parent_id == t)) [
        | inl own ↦ ground (
          arith,
          different,
          own,
          h t,
          find-store thread t info named,
          find-store parent_id t parent made,
          find-store thread t (or_default (find thread s.threads)) s.threads,
          find-store thread parent_id (or_default (find thread s.threads)) s.threads,
          h parent_id,
          described_at calls parent_id t own,
          (==_iff parent_id t).0 own,
        )
        | inr other ↦ ground (
          arith,
          different,
          other,
          h t,
          find-store thread t info named,
          find-store parent_id t parent made,
          find-store thread t (or_default (find thread s.threads)) s.threads,
        )
      ]
    ]

abbrev pub fresh : List ℕ → Service
fresh sinks = record { sinks = sinks; threads = []; told = [] }

after-Agrees : (sinks : List ℕ) (calls : List Call) → Agrees calls (after calls (fresh sinks))
after-Agrees sinks [] = empty-Agrees sinks
after-Agrees sinks (spawned timestamp thread ∷ calls) =
    spawn-Agrees timestamp thread calls _ (after-Agrees sinks calls)
after-Agrees sinks (exited timestamp thread ∷ calls) =
    exit-Agrees timestamp thread calls _ (after-Agrees sinks calls)
after-Agrees sinks (renamed timestamp thread name ∷ calls) =
    rename-Agrees timestamp thread name calls _ (after-Agrees sinks calls)
after-Agrees sinks (adopted timestamp thread parent ∷ calls) =
    set_parent-Agrees timestamp thread parent calls _ (after-Agrees sinks calls)

-- After any sequence of spawn, exit, rename and set_parent on a service without threads, what
-- is printed of a thread is what the newest calls that concern it say: its name is that of its
-- last renaming since it last exited, its parent that of its last adoption since then; a thread
-- that is not known is unnamed, without a parent, and has the id that was asked for.
pub thread_get_info-after :
    (sinks : List ℕ) (calls : List Call) (t : ℕ)
    → thread_get_info t (after calls (fresh sinks))
      ≡ elim (known calls t) [ true ↦ described calls t | false ↦ unnamed t ]
unfolding thread_get_info Agrees
thread_get_info-after sinks calls t =
    let s = after calls (fresh sinks) in
    let agrees = after-Agrees sinks calls t in
    elim (Option-cases (find t s.threads)) [
      | inl absent ↦ ground (arith, absent, agrees)
      | inr (info, present) ↦ ground (arith, present, agrees)
    ]
