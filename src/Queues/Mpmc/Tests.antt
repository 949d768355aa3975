-- ===== src/Queues/Mpmc/Tests.antt =====
-- A run of two threads over a queue of 4 cells, and the theorems at its states.
use cpp26_experiments.Base.{ℕ, ◌+◌, ◌≡◌, ◌≢◌, refl, inl, some, arith}
use cpp26_experiments.Queues.Mpmc.{
  idle, push_at, push_seen, push_write, push_publish, pop_at, pop_seen, pop_read, pop_release,
  assign, State, goes, cell, init, push_start, push_ready, push_claim, push_store, push_release,
  pop_start, pop_ready, pop_claim, pop_load, Reach, here, next,
}
use cpp26_experiments.Queues.Mpmc.Safety.{pop_gets_pushed, store_alone}

-- Thread 0 pushes 9.
abbrev loaded : State ℕ
loaded = goes (init 2) 0 (push_at 0 9)

abbrev seen : State ℕ
seen = goes loaded 0 (push_seen 0 9)

abbrev claimed : State ℕ
claimed =
    goes (record seen { write_pos = 0 + 1; pushed = assign seen.pushed 0 (some 9) }) 0
      (push_write 0 9)

abbrev stored : State ℕ
stored =
    goes (record claimed { item = assign claimed.item (cell 2 0) (some 9) }) 0 (push_publish 0 9)

abbrev published : State ℕ
published = goes (record stored { sequence = assign stored.sequence (cell 2 0) (0 + 1) }) 0 idle

-- Thread 1 pops it.
abbrev asked : State ℕ
asked = goes published 1 (pop_at 0)

abbrev found : State ℕ
found = goes asked 1 (pop_seen 0)

abbrev taken : State ℕ
taken = goes (record found { read_pos = 0 + 1 }) 1 (pop_read 0)

abbrev moved : State ℕ
moved = goes taken 1 (pop_release 0 (taken.item (cell 2 0)))

claimed_reached : Reach 2 (init 2) claimed
claimed_reached =
    next {u = seen} 0
      (next {u = loaded} 0 (next {u = init 2} 0 here (push_start 9 refl))
        (push_ready 0 9 refl refl))
      (push_claim 0 9 refl refl)

published_reached : Reach 2 (init 2) published
published_reached =
    next {u = stored} 0 (next {u = claimed} 0 claimed_reached (push_store 0 9 refl))
      (push_release 0 9 refl)

moved_reached : Reach 2 (init 2) moved
moved_reached =
    next {u = taken} 1
      (next {u = found} 1
        (next {u = asked} 1 (next {u = published} 1 published_reached (pop_start refl))
          (pop_ready 0 refl refl))
        (pop_claim 0 refl refl))
      (pop_load 0 refl)

pop_gets_pushed_example : (x : ℕ) × (taken.item (cell 2 0) ≡ some x) × (moved.pushed 0 ≡ some x)
pop_gets_pushed_example =
    pop_gets_pushed 2 (omega arith) 1 0 (taken.item (cell 2 0)) moved_reached refl

-- Thread 1 claims the next cell while thread 0 has not stored its item yet.
abbrev behind : State ℕ
behind = goes claimed 1 (push_at 1 8)

abbrev behind_seen : State ℕ
behind_seen = goes behind 1 (push_seen 1 8)

abbrev both : State ℕ
both =
    goes (record behind_seen { write_pos = 1 + 1; pushed = assign behind_seen.pushed 1 (some 8) }) 1
      (push_write 1 8)

both_reached : Reach 2 (init 2) both
both_reached =
    next {u = behind_seen} 1
      (next {u = behind} 1 (next {u = claimed} 1 claimed_reached (push_start 8 refl))
        (push_ready 1 8 refl refl))
      (push_claim 1 8 refl refl)

store_alone_example : cell 2 0 ≢ cell 2 1
store_alone_example = store_alone 2 (omega arith) 0 1 0 9 both_reached (omega arith) refl (inl refl)
