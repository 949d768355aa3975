-- ===== src/Queues/Spsc/Sequential.antt =====
-- The operations of include/erl/_impl/queue/spsc_bounded.hpp run alone, against a bounded FIFO.
use cpp26_experiments.Base.{
  ℕ, ◌+◌, ◌-◌, ◌^◌, ◌<◌, ◌≡◌, ℕ_discrete, refl, true, false, List, [], ◌∷◌, arith, length, ◌==◌,
}
use cpp26_experiments.Queues.Spsc.{Ring, next_pos, put, fetch, try_push, try_pop, is_empty}
use cpp26_experiments.Queues.Fifo.{push, pop}
use cpp26_experiments.Queues.Spsc.Invariant.{
  Holds, refresh_read-Holds, refresh_write-Holds, put-Holds, fetch-Holds, push_tests, pop_tests,
}

module _ {A : Type 0} (k : ℕ) (narrow : 2 ^ k < 2 ^ 64) where
  -- For a capacity N = 2^k below 2^64: run alone on a valid queue, try_push answers and acts
  -- as the push of a FIFO of at most N - 1 items.
  pub try_push-Holds :
      {q : Ring A} {xs : List A} (x : A)
      → Holds k q xs
      → ((try_push k q x).0 ≡ (push (2 ^ k - 1) xs x).0)
        × Holds k (try_push k q x).1 (push (2 ^ k - 1) xs x).1
  unfolding try_push push put refresh_read-Holds
  try_push-Holds {q} {xs} x h =
      let (cached, exact) = push_tests k narrow h in
      elim (ℕ_discrete (h.writes + 1) (h.seen_read + 2 ^ k)) [
        | yes p ↦ elim (ℕ_discrete (h.writes + 1) (h.reads + 2 ^ k)) [
          | yes p' ↦
              let cached' : (next_pos k q.write_pos == q.read_pos_cached) ≡ true =
                ground (arith, cached) in
              let exact' : (next_pos k q.write_pos == q.read_pos) ≡ true = ground (arith, exact) in
              let full : (length xs == 2 ^ k - 1) ≡ true = ground (arith, h) in
              rw (cached', exact', full) (refl, refresh_read-Holds k narrow h)
          | no n' ↦
              let cached' : (next_pos k q.write_pos == q.read_pos_cached) ≡ true =
                ground (arith, cached) in
              let exact' : (next_pos k q.write_pos == q.read_pos) ≡ false = ground (arith, exact) in
              let full : (length xs == 2 ^ k - 1) ≡ false = ground (arith, h) in
              rw (cached', exact', full)
                (refl, put-Holds k narrow x (refresh_read-Holds k narrow h) (omega (arith, h)))
        ]
        | no n ↦
            let cached' : (next_pos k q.write_pos == q.read_pos_cached) ≡ false =
              ground (arith, cached) in
            let full : (length xs == 2 ^ k - 1) ≡ false = ground (arith, h) in
            rw (cached', full) (refl, put-Holds k narrow x h (omega (arith, h)))
      ]

  -- For a capacity N = 2^k below 2^64: run alone on a valid queue, try_pop answers, hands out
  -- and acts as the pop of a FIFO.
  pub try_pop-Holds :
      {q : Ring A} {xs : List A}
      → Holds k q xs
      → ((try_pop k q).0 ≡ (pop xs).0)
        × ((try_pop k q).1 ≡ (pop xs).1)
        × Holds k (try_pop k q).2 (pop xs).2
  unfolding try_pop pop fetch refresh_write-Holds
  try_pop-Holds {q} {xs = []} h =
      let (cached, exact) = pop_tests k narrow h in
      let cached' : (q.read_pos == q.write_pos_cached) ≡ true = ground (arith, h, cached) in
      let exact' : (q.read_pos == q.write_pos) ≡ true = ground (arith, h, exact) in
      rw (cached', exact') (refl, refl, refresh_write-Holds k narrow h)
  try_pop-Holds {q} {xs = x ∷ xs} h =
      let (cached, exact) = pop_tests k narrow h in
      let exact' : (q.read_pos == q.write_pos) ≡ false = ground (arith, h, exact) in
      elim (ℕ_discrete h.reads h.seen_written) [
        | yes p ↦
            let cached' : (q.read_pos == q.write_pos_cached) ≡ true = ground (arith, cached) in
            let (e, h') =
              fetch-Holds k narrow (refresh_write-Holds k narrow h) (omega (arith, h)) in
            rw (cached', exact') (refl, e, h')
        | no n ↦
            let cached' : (q.read_pos == q.write_pos_cached) ≡ false = ground (arith, cached) in
            let (e, h') = fetch-Holds k narrow h (omega (arith, h)) in rw (cached') (refl, e, h')
      ]

  -- `is_empty` is exact while no other thread runs.
  pub is_empty-Holds : {q : Ring A} {xs : List A} → Holds k q xs → is_empty k q ≡ (length xs == 0)
  unfolding is_empty
  is_empty-Holds {q} {xs} h = ground (arith, h, pop_tests k narrow h)
