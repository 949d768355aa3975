-- ===== src/Queues/Tests.antt =====
-- Runs of the queues with N = 4, and the theorems at such inputs.
use cpp26_experiments.Base.{
  ◌<◌, ◌^◌, Bool, ℕ, ◌≡◌, ◌≢◌, ◌≤◌, refl, true, false, List, [], ◌∷◌, ◌++◌, some, inr, arith,
  length,
}
use cpp26_experiments.Queues.Retry as Retry
use cpp26_experiments.Queues.Fifo as Fifo
use cpp26_experiments.Queues.Spsc.Blocking.{blocking, pushing, popping}
use cpp26_experiments.Queues.Retry.{
  Others, Attempts, returned, pop_until, pop_until-returns, push-returns,
}
use cpp26_experiments.Queues.Basic.{pops, offers, pops-offers}
use cpp26_experiments.Queues.Fifo.{push, pop}
use cpp26_experiments.Queues.Spsc.{Ring, init, put, fetch, try_push, try_pop}
use cpp26_experiments.Queues.Spsc.Invariant.{Holds}
use cpp26_experiments.Queues.Spsc.Sequential.{try_push-Holds, try_pop-Holds}
use cpp26_experiments.Queues.Spsc.Concurrent.{
  State, storing, loading, Reach, here, next, push_known, push_store, push_publish, pop_reload,
}
use cpp26_experiments.Queues.Spsc.Concurrent.Safety.{fresh, fifo_always, cells_apart}

abbrev blank : List ℕ
blank = 0 ∷ 0 ∷ 0 ∷ 0 ∷ []

-- 7 and 8 stored round the end of the buffer; the writer has last seen the reader at 2.
abbrev wrapped : Ring ℕ
wrapped = record {
  buffer = 8 ∷ 5 ∷ 6 ∷ 7 ∷ [];
  write_pos = 1;
  write_pos_cached = 0;
  read_pos = 3;
  read_pos_cached = 2;
}

wrapped-Holds : Holds 2 wrapped (7 ∷ 8 ∷ [])
wrapped-Holds = record {
  seen_read = 2;
  reads = 3;
  seen_written = 4;
  writes = 5;
  seen_read-le-reads = omega arith;
  reads-le-seen_written = omega arith;
  seen_written-le-writes = omega arith;
  within = omega arith;
  stored = refl;
  at_write = refl;
  at_read = refl;
  at_write_cached = refl;
  at_read_cached = refl;
  sized = refl;
  window = (refl, (refl, tt));
}

third_push_fits_only_once :
    ((try_push 2 (try_push 2 wrapped 9).1 10).0 ≡ false) × ((try_push 2 wrapped 9).0 ≡ true)
unfolding try_push put
third_push_fits_only_once = (refl, refl)

pop_takes_oldest : (try_pop 2 wrapped).1 ≡ some 7
unfolding try_pop fetch
pop_takes_oldest = refl

try_push-Holds_example :
    ((try_push 2 wrapped 9).0 ≡ true) × Holds 2 (try_push 2 wrapped 9).1 (7 ∷ 8 ∷ 9 ∷ [])
unfolding push
try_push-Holds_example = try_push-Holds 2 (omega arith) 9 wrapped-Holds

try_pop-Holds_example :
    ((try_pop 2 wrapped).0 ≡ true)
    × ((try_pop 2 wrapped).1 ≡ some 7)
    × Holds 2 (try_pop 2 wrapped).2 (8 ∷ [])
unfolding pop
try_pop-Holds_example = try_pop-Holds 2 (omega arith) wrapped-Holds

-- 5 is pushed, the reader sees it, and the writer is about to store 6.
abbrev busy : State ℕ
busy = record {
  ring = record {
    buffer = 5 ∷ 0 ∷ 0 ∷ 0 ∷ [];
    write_pos = 1;
    write_pos_cached = 1;
    read_pos = 0;
    read_pos_cached = 0;
  };
  producer = storing 6;
  consumer = loading;
  pushed = 5 ∷ [];
  popped = [];
}

Reach-busy : Reach 2 (fresh 2 blank) busy
unfolding init
Reach-busy =
    next
      (next
        (next (next (next here (push_known _ 5 refl refl)) (push_store _ 5 refl))
          (push_publish _ 5 refl))
        (pop_reload _ refl refl))
      (push_known _ 6 refl refl)

fifo_always_example : (stored : List ℕ) × (5 ∷ [] ≡ [] ++ stored) × (length stored ≤ 3)
fifo_always_example = fifo_always 2 blank (omega arith) refl Reach-busy

cells_apart_example : busy.ring.write_pos ≢ busy.ring.read_pos
cells_apart_example = cells_apart 2 blank 6 (omega arith) refl Reach-busy refl refl

abbrev offered : List (Bool × ℕ)
offered = (true, 7) ∷ (false, 8) ∷ (true, 9) ∷ []

-- A refused push leaves nothing behind; a stopped reader gets what is queued first.
pops-offers_example : pops {T = ℕ} 0 true 4 (offers offered []) ≡ some (7 ∷ 9 ∷ 0 ∷ 0 ∷ [], [])
pops-offers_example = pops-offers {T = ℕ} 0 offered 2

abbrev narrow_four : 2 ^ 2 < 2 ^ 64
narrow_four = omega arith

-- A reader that waits on the empty queue while the writer pushes 7.
abbrev empty_ring : Ring ℕ
empty_ring = record {
  buffer = blank;
  write_pos = 0;
  write_pos_cached = 0;
  read_pos = 0;
  read_pos_cached = 0;
}

empty_ring-Holds : Holds 2 empty_ring []
empty_ring-Holds = record {
  seen_read = 0;
  reads = 0;
  seen_written = 0;
  writes = 0;
  seen_read-le-reads = omega arith;
  reads-le-seen_written = omega arith;
  seen_written-le-writes = omega arith;
  within = omega arith;
  stored = refl;
  at_write = refl;
  at_read = refl;
  at_write_cached = refl;
  at_read_cached = refl;
  sized = refl;
  window = tt;
}

abbrev pushes_seven : Others (blocking {A = ℕ} 2 narrow_four)
pushes_seven = pushing 2 narrow_four 7

pop_until-returns_example :
    (x : ℕ) × (q' : Ring ℕ) × (ys : List ℕ) × (pop_until
        (blocking 2 narrow_four)
        0
        ((false, pushes_seven) ∷ (false, pushes_seven) ∷ [])
        empty_ring
      ≡ returned x q')
    × Holds 2 q' ys
unfolding Fifo.push
pop_until-returns_example =
    pop_until-returns (blocking 2 narrow_four) 0 ((false, pushes_seven) ∷ []) false pushes_seven []
      empty_ring [] empty_ring-Holds (inr (λ e. cc (e)))

-- A writer that pushes 9 while the reader pops.
abbrev pops_one : Others (blocking {A = ℕ} 2 narrow_four)
pops_one = popping 2 narrow_four

push-returns_example :
    (q' : Ring ℕ) × (ys : List ℕ) × (Retry.push
        (blocking 2 narrow_four)
        9
        (pops_one ∷ pops_one ∷ [])
        wrapped
      ≡ returned tt q')
    × Holds 2 q' (ys ++ (9 ∷ []))
unfolding Fifo.pop
push-returns_example =
    push-returns (blocking 2 narrow_four) 9 (pops_one ∷ []) pops_one [] wrapped (7 ∷ 8 ∷ [])
      wrapped-Holds (omega arith)
