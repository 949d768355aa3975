-- ===== src/Logging/Threads.antt =====
-- The table of known threads: `CachedThreadInfo` of include/erl/_impl/log/message.hpp and the
-- `std::unordered_map` of `LoggingService`.
use cpp26_experiments.Base.{
  ℕ, ◌≡◌, ◌≢◌, refl, ◌==◌, true, false, List, [], ◌∷◌, Option, none, some, Bytes, codes, arith,
  Bool-cases, inl, inr, ==_iff, subst,
}

pub record CachedThreadInfo : Type 0 where
  pub id : ℕ
  pub name : Bytes
  pub parent : ℕ

-- The default member initializers.
abbrev pub unnamed : ℕ → CachedThreadInfo
unnamed id = record { id = id; name = codes "<unnamed>"; parent = 0 }

abbrev pub Table : Type 0
Table = List (ℕ × CachedThreadInfo)

-- `threads.find(thread)`
abbrev pub find : ℕ → Table → Option CachedThreadInfo
find thread [] = none
find thread (entry ∷ threads) = elim (entry.0 == thread) [
  | true ↦ some entry.1
  | false ↦ find thread threads
]

-- `threads[thread]`: a key that is not there gets a default entry.
abbrev pub or_default : Option CachedThreadInfo → CachedThreadInfo
or_default none = unnamed 0
or_default (some info) = info

-- `threads.erase(thread)`
unfoldable pub erase : ℕ → Table → Table
erase thread [] = []
erase thread (entry ∷ threads) = elim (entry.0 == thread) [
  | true ↦ erase thread threads
  | false ↦ entry ∷ erase thread threads
]

-- A write through the reference that `threads[thread]` returns.
unfoldable pub store : ℕ → CachedThreadInfo → Table → Table
store thread info threads = (thread, info) ∷ erase thread threads

pub find-erase_self : (thread : ℕ) (threads : Table) → find thread (erase thread threads) ≡ none
unfolding erase
find-erase_self thread [] = refl
find-erase_self thread (entry ∷ threads) = ground (arith, find-erase_self thread threads)

pub find-erase_other :
    (thread other : ℕ) (threads : Table)
    → other ≢ thread
    → find other (erase thread threads) ≡ find other threads
unfolding erase
find-erase_other thread other [] h = refl
find-erase_other thread other (entry ∷ threads) h =
    ground (arith, find-erase_other thread other threads h, h)

pub find-store_self :
    (thread : ℕ) (info : CachedThreadInfo) (threads : Table)
    → find thread (store thread info threads) ≡ some info
unfolding store
find-store_self thread info threads = ground arith

pub find-store_other :
    (thread other : ℕ) (info : CachedThreadInfo) (threads : Table)
    → other ≢ thread
    → find other (store thread info threads) ≡ find other threads
unfolding store
find-store_other thread other info threads h =
    ground (arith, find-erase_other thread other threads h, h)

pub find-store :
    (thread t : ℕ) (info : CachedThreadInfo) (threads : Table)
    → find t (store thread info threads)
      ≡ elim (thread == t) [ true ↦ some info | false ↦ find t threads ]
find-store thread t info threads = elim (Bool-cases (thread == t)) [
  | inl same ↦ rw same (
      subst (λ (n : ℕ). find n (store thread info threads) ≡ some info) ((==_iff thread t).0 same)
        (find-store_self thread info threads))
  | inr other ↦ rw other (find-store_other thread t info threads (ground (arith, other)))
]

pub find-erase :
    (thread t : ℕ) (threads : Table)
    → find t (erase thread threads) ≡ elim (thread == t) [ true ↦ none | false ↦ find t threads ]
find-erase thread t threads = elim (Bool-cases (thread == t)) [
  | inl same ↦ rw same (
      subst (λ (n : ℕ). find n (erase thread threads) ≡ none) ((==_iff thread t).0 same)
        (find-erase_self thread threads))
  | inr other ↦ rw other (find-erase_other thread t threads (ground (arith, other)))
]
