-- ===== src/Queues/Spsc/Blocking.antt =====
-- `BoundedSPSC` of include/erl/_impl/queue/spsc_bounded.hpp as a queue that `QueueBase` waits on.
use cpp26_experiments.Base.{ℕ, ◌-◌, ◌^◌, ◌<◌}
use cpp26_experiments.Queues.Fifo as Fifo
use cpp26_experiments.Queues.Retry.{Attempts, Others}
use cpp26_experiments.Queues.Spsc.{Ring, try_push, try_pop}
use cpp26_experiments.Queues.Spsc.Invariant.{Holds}
use cpp26_experiments.Queues.Spsc.Sequential.{try_push-Holds, try_pop-Holds}

module _ {A : Type 0} (k : ℕ) (narrow : 2 ^ k < 2 ^ 64) where
  abbrev pub blocking : Attempts (Ring A) A
  blocking = record {
    capacity = 2 ^ k - 1;
    Holds = Holds k;
    try_push = try_push k;
    try_pop = try_pop k;
    push_lem = λ q xs x h. try_push-Holds k narrow x h;
    pop_lem = λ q xs h. try_pop-Holds k narrow h;
  }

  -- The other thread tries to push or to pop.
  abbrev pub pushing : A → Others blocking
  pushing x = record {
    act = λ q. (try_push k q x).1;
    change = λ xs. (Fifo.push (2 ^ k - 1) xs x).1;
    act_lem = λ q xs h. (try_push-Holds k narrow x h).1;
  }

  abbrev pub popping : Others blocking
  popping = record {
    act = λ q. (try_pop k q).2;
    change = λ xs. (Fifo.pop xs).2;
    act_lem = λ q xs h. (try_pop-Holds k narrow h).2;
  }
