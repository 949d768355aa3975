-- ===== src/Queues/Spsc/Concurrent.antt =====
-- spsc_bounded.hpp with one thread that pushes and one that pops: every load of a position that
-- the other thread stores, every store, and every access to a cell is a step of its own.
pub mod Invariant
pub mod Safety
use cpp26_experiments.Base.{
  ℕ, ◌≡◌, Bool, true, false, List, [], ◌∷◌, ◌++◌, some, set, get_elem?, ◌==◌, if◌then◌else◌,
}
use cpp26_experiments.Queues.Spsc.{Ring, next_pos}

-- Where the thread in `try_push` stands: outside, before the write to the cell, or before the
-- release store of `write_pos`.
pub data Producer (A : Type 0) : Type 0 where
  idle : Producer A
  storing : A → Producer A
  publishing : A → Producer A

-- Where the thread in `try_pop` stands: outside, before the read of the cell, or before the
-- release store of `read_pos`.
pub data Consumer (A : Type 0) : Type 0 where
  idle : Consumer A
  loading : Consumer A
  releasing : A → Consumer A

-- The history is what `try_push` has accepted and what `try_pop` has returned, oldest first.
pub record State (A : Type 0) : Type 0 where
  pub ring : Ring A
  pub producer : Producer A
  pub consumer : Consumer A
  pub pushed : List A
  pub popped : List A

abbrev pub see_read : {A : Type 0} → Ring A → Ring A
see_read q = record q { read_pos_cached = q.read_pos }

abbrev pub see_written : {A : Type 0} → Ring A → Ring A
see_written q = record q { write_pos_cached = q.write_pos }

module _ {A : Type 0} (k : ℕ) where
  pub data Step : State A → State A → Type 0 where
    -- `next != read_pos_cached`: the cell is known to be free
    push_known :
        (s : State A) (x : A)
        → s.producer ≡ Producer.idle
        → (next_pos k s.ring.write_pos == s.ring.read_pos_cached) ≡ false
        → Step s (record s { producer = storing x })
    -- `read_pos` is loaded, and the test made again
    push_reload :
        (s : State A) (x : A)
        → s.producer ≡ Producer.idle
        → (next_pos k s.ring.write_pos == s.ring.read_pos_cached) ≡ true
        → Step s (record s {
          ring = see_read s.ring;
          producer =
              if next_pos k s.ring.write_pos == s.ring.read_pos then Producer.idle else storing x;
        })
    push_store :
        (s : State A) (x : A)
        → s.producer ≡ storing x
        → Step s (record s {
          ring = record s.ring { buffer = set s.ring.buffer s.ring.write_pos x };
          producer = publishing x;
        })
    push_publish :
        (s : State A) (x : A)
        → s.producer ≡ publishing x
        → Step s (record s {
          ring = record s.ring { write_pos = next_pos k s.ring.write_pos };
          producer = Producer.idle;
          pushed = s.pushed ++ (x ∷ []);
        })
    pop_known :
        (s : State A)
        → s.consumer ≡ Consumer.idle
        → (s.ring.read_pos == s.ring.write_pos_cached) ≡ false
        → Step s (record s { consumer = loading })
    pop_reload :
        (s : State A)
        → s.consumer ≡ Consumer.idle
        → (s.ring.read_pos == s.ring.write_pos_cached) ≡ true
        → Step s (record s {
          ring = see_written s.ring;
          consumer = if s.ring.read_pos == s.ring.write_pos then Consumer.idle else loading;
        })
    pop_load :
        (s : State A) (x : A)
        → s.consumer ≡ loading
        → get_elem? s.ring.buffer s.ring.read_pos ≡ some x
        → Step s (record s { consumer = releasing x })
    pop_release :
        (s : State A) (x : A)
        → s.consumer ≡ releasing x
        → Step s (record s {
          ring = record s.ring { read_pos = next_pos k s.ring.read_pos };
          consumer = Consumer.idle;
          popped = s.popped ++ (x ∷ []);
        })

  pub data Reach (s : State A) : State A → Type 0 where
    here : Reach s s
    next : {t u : State A} → Reach s t → Step t u → Reach s u
