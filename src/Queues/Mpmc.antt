-- ===== src/Queues/Mpmc.antt =====
-- include/erl/_impl/queue/mpmc_bounded.hpp: `BoundedMPMC<T, N>` with any number of threads, each
-- load, store, exchange and access to an item a step of its own. A cell is found by its index
-- `pos & buffer_mask`, with N = 2^k. Positions are counted without wrap-around: a run is one that
-- hands out fewer than 2^63 of them, where the signed differences of the source are exact.
pub mod Invariant
pub mod Claims
pub mod Stores
pub mod Releases
pub mod Safety
mod Tests
use cpp26_experiments.Base.{
  ℕ, zero, suc, ◌+◌, ◌-◌, ◌^◌, ◌<◌, ◌≡◌, ◌==◌, Bool, true, false, Option, none, some, bit_and,
}

-- Where a thread is, with its local `pos`, the item that it pushes or the item that it took out.
pub data Thread (A : Type 0) : Type 0 where
  idle : Thread A
  push_at : ℕ → A → Thread A
  push_seen : ℕ → A → Thread A
  push_write : ℕ → A → Thread A
  push_publish : ℕ → A → Thread A
  pop_at : ℕ → Thread A
  pop_seen : ℕ → Thread A
  pop_read : ℕ → Thread A
  pop_release : ℕ → Option A → Thread A

abbrev pub assign {ℓ} : {B : Type ℓ} → (ℕ → B) → ℕ → B → ℕ → B
assign f i v j = elim (i == j) [ true ↦ v | false ↦ f j ]

-- `pushed` records, for the proofs, the item whose push claimed each position.
pub record State (A : Type 0) : Type 0 where
  pub sequence : ℕ → ℕ
  pub item : ℕ → Option A
  pub write_pos : ℕ
  pub read_pos : ℕ
  pub threads : ℕ → Thread A
  pub pushed : ℕ → Option A

abbrev pub goes : {A : Type 0} → State A → ℕ → Thread A → State A
goes s t th = record s { threads = assign s.threads t th }

module _ (k : ℕ) where
  abbrev pub cell : ℕ → ℕ
  cell pos = bit_and pos (2 ^ k - 1)

  -- The constructor: every cell's sequence number is its index.
  abbrev pub init : {A : Type 0} → State A
  init = record {
    sequence = λ i. i;
    item = λ i. none;
    write_pos = 0;
    read_pos = 0;
    threads = λ t. idle;
    pushed = λ p. none;
  }

  -- `compare_exchange_weak` may fail for no reason; it then loads the position.
  pub data Step {A : Type 0} (s : State A) (t : ℕ) : State A → Type 0 where
    push_start : (x : A) → s.threads t ≡ idle → Step s t (goes s t (push_at s.write_pos x))
    push_ready :
        (p : ℕ) (x : A)
        → s.threads t ≡ push_at p x
        → s.sequence (cell p) ≡ p
        → Step s t (goes s t (push_seen p x))
    push_full :
        (p : ℕ) (x : A)
        → s.threads t ≡ push_at p x
        → s.sequence (cell p) < p
        → Step s t (goes s t idle)
    push_late :
        (p : ℕ) (x : A)
        → s.threads t ≡ push_at p x
        → p < s.sequence (cell p)
        → Step s t (goes s t (push_at s.write_pos x))
    push_lost :
        (p : ℕ) (x : A) → s.threads t ≡ push_seen p x → Step s t (goes s t (push_at s.write_pos x))
    push_claim :
        (p : ℕ) (x : A)
        → s.threads t ≡ push_seen p x
        → s.write_pos ≡ p
        → Step s t (
            goes
              (record s { write_pos = p + 1; pushed = assign s.pushed p (some x) })
              t
              (push_write p x))
    push_store :
        (p : ℕ) (x : A)
        → s.threads t ≡ push_write p x
        → Step s t (goes (record s { item = assign s.item (cell p) (some x) }) t (push_publish p x))
    push_release :
        (p : ℕ) (x : A)
        → s.threads t ≡ push_publish p x
        → Step s t (goes (record s { sequence = assign s.sequence (cell p) (p + 1) }) t idle)
    pop_start : s.threads t ≡ idle → Step s t (goes s t (pop_at s.read_pos))
    pop_ready :
        (p : ℕ)
        → s.threads t ≡ pop_at p
        → s.sequence (cell p) ≡ p + 1
        → Step s t (goes s t (pop_seen p))
    pop_empty :
        (p : ℕ) → s.threads t ≡ pop_at p → s.sequence (cell p) < p + 1 → Step s t (goes s t idle)
    pop_late :
        (p : ℕ)
        → s.threads t ≡ pop_at p
        → p + 1 < s.sequence (cell p)
        → Step s t (goes s t (pop_at s.read_pos))
    pop_lost : (p : ℕ) → s.threads t ≡ pop_seen p → Step s t (goes s t (pop_at s.read_pos))
    pop_claim :
        (p : ℕ)
        → s.threads t ≡ pop_seen p
        → s.read_pos ≡ p
        → Step s t (goes (record s { read_pos = p + 1 }) t (pop_read p))
    pop_load :
        (p : ℕ) → s.threads t ≡ pop_read p → Step s t (goes s t (pop_release p (s.item (cell p))))
    pop_done :
        (p : ℕ) (d : Option A)
        → s.threads t ≡ pop_release p d
        → Step s t
            (goes (record s { sequence = assign s.sequence (cell p) (p + (2 ^ k - 1) + 1) }) t idle)

  pub data Reach {A : Type 0} (s : State A) : State A → Type 0 where
    here : Reach s s
    next : {u v : State A} (t : ℕ) → Reach s u → Step u t v → Reach s v
