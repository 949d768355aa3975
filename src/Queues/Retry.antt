-- ===== src/Queues/Retry.antt =====
-- include/erl/_impl/queue/base.hpp: the loops of `QueueBase` around `try_push` and `try_pop`, with what
-- other threads do to the queue while this one yields.
use cpp26_experiments.Base.{
  ℕ, ◌≡◌, ◌≢◌, refl, Bool, true, false, List, [], ◌∷◌, ◌++◌, Option, none, some, ◌⊎◌, inl, inr,
  arith, Bool-cases, length, ◌==◌,
}
use cpp26_experiments.Queues.Fifo as Fifo

-- What a queue offers: its attempts are those of a bounded list that it holds.
pub record Attempts (Q T : Type 0) : Type 1 where
  pub capacity : ℕ
  pub Holds : Q → List T → Type 0
  pub try_push : Q → T → Bool × Q
  pub try_pop : Q → Bool × Option T × Q
  pub push_lem :
      (q : Q) (xs : List T) (x : T)
      → Holds q xs
      → ((try_push q x).0 ≡ (Fifo.push capacity xs x).0)
        × Holds (try_push q x).1 (Fifo.push capacity xs x).1
  pub pop_lem :
      (q : Q) (xs : List T)
      → Holds q xs
      → ((try_pop q).0 ≡ (Fifo.pop xs).0)
        × ((try_pop q).1 ≡ (Fifo.pop xs).1)
        × Holds (try_pop q).2 (Fifo.pop xs).2

-- What others do to a queue, and to the list that it holds.
pub record Others {Q T : Type 0} (queue : Attempts Q T) : Type 0 where
  pub act : Q → Q
  pub change : List T → List T
  pub act_lem : (q : Q) (xs : List T) → queue.Holds q xs → queue.Holds (act q) (change xs)

-- A loop that has returned, with the queue behind it, or one that still tries.
pub data Loop (R Q : Type 0) : Type 0 where
  returned : R → Q → Loop R Q
  trying : Q → Loop R Q

abbrev pub value_or : {T : Type 0} → T → Option T → T
value_or default none = default
value_or default (some x) = x

module _ {Q T : Type 0} (queue : Attempts Q T) where
  -- `pop(token)`, of the default value: each element is what the token says after an attempt that
  -- fails, and what others do then.
  unfoldable pub pop_until : T → List (Bool × Others queue) → Q → Loop T Q
  pop_until default [] q = trying q
  pop_until default ((stop, others) ∷ later) q = elim (queue.try_pop q).0 [
    | true ↦ returned (value_or default (queue.try_pop q).1) (queue.try_pop q).2
    | false ↦ elim stop [
      | true ↦ returned default (queue.try_pop q).2
      | false ↦ pop_until default later (others.act (queue.try_pop q).2)
    ]
  ]

  -- `pop()`
  unfoldable pub pop : T → List (Others queue) → Q → Loop T Q
  pop default [] q = trying q
  pop default (others ∷ later) q = elim (queue.try_pop q).0 [
    | true ↦ returned (value_or default (queue.try_pop q).1) (queue.try_pop q).2
    | false ↦ pop default later (others.act (queue.try_pop q).2)
  ]

  -- `push`
  unfoldable pub push : T → List (Others queue) → Q → Loop (Unit {0}) Q
  push x [] q = trying q
  push x (others ∷ later) q = elim (queue.try_push q x).0 [
    | true ↦ returned tt (queue.try_push q x).1
    | false ↦ push x later (others.act (queue.try_push q x).1)
  ]

  -- What others alone make of the list.
  abbrev pub left_alone : List (Bool × Others queue) → List T → List T
  left_alone [] xs = xs
  left_alone (step ∷ later) xs = left_alone later (step.1.change xs)

  abbrev pub left_to : List (Others queue) → List T → List T
  left_to [] xs = xs
  left_to (step ∷ later) xs = left_to later (step.change xs)

  -- An attempt fails on the empty list only, or on the full one, and leaves it.
  pop_failed :
      (q : Q) (xs : List T)
      → queue.Holds q xs
      → (queue.try_pop q).0 ≡ false
      → (xs ≡ []) × queue.Holds (queue.try_pop q).2 xs
  unfolding Fifo.pop
  pop_failed q [] h e = (refl, (queue.pop_lem q [] h).2)
  pop_failed q (x ∷ xs) h e = absurd (cc (e, (queue.pop_lem q (x ∷ xs) h).0))

  push_failed :
      (q : Q) (xs : List T) (x : T)
      → queue.Holds q xs
      → (queue.try_push q x).0 ≡ false
      → (length xs ≡ queue.capacity) × queue.Holds (queue.try_push q x).1 xs
  unfolding Fifo.push
  push_failed q xs x h e = elim (Bool-cases (length xs == queue.capacity)) [
    | inl full ↦ (ground (arith, full), rw full at (queue.push_lem q xs x h).1)
    | inr room ↦ absurd (ground (arith, e, room, (queue.push_lem q xs x h).0))
  ]

  pushed :
      (q : Q) (xs : List T) (x : T)
      → queue.Holds q xs
      → (queue.try_push q x).0 ≡ true
      → queue.Holds (queue.try_push q x).1 (xs ++ (x ∷ []))
  unfolding Fifo.push
  pushed q xs x h e = elim (Bool-cases (length xs == queue.capacity)) [
    | inl full ↦ absurd (ground (arith, e, full, (queue.push_lem q xs x h).0))
    | inr room ↦ rw room at (queue.push_lem q xs x h).1
  ]

  -- For a queue whose attempts are those of a bounded list: if at some attempt the token asks
  -- to stop, or the list would not be empty had only the others worked on it, then the
  -- waiting pop has returned by that attempt, and leaves a queue that holds a list.
  pub pop_until-returns :
      (default : T) (before : List (Bool × Others queue)) (stop : Bool) (others : Others queue)
      (later : List (Bool × Others queue)) (q : Q) (xs : List T)
      → queue.Holds q xs
      → (stop ≡ true) ⊎ (left_alone before xs ≢ [])
      → (x : T) × (q' : Q) × (ys : List T) × (pop_until default
            (before ++ ((stop, others) ∷ later))
            q
          ≡ returned x q')
        × queue.Holds q' ys
  unfolding pop_until
  pop_until-returns default [] stop others later q xs held h =
      elim (Bool-cases (queue.try_pop q).0) [
        | inl e ↦ (
          value_or default (queue.try_pop q).1,
          (queue.try_pop q).2,
          (Fifo.pop xs).2,
          ground (arith, e),
          (queue.pop_lem q xs held).2,
        )
        | inr e ↦
            let failed = pop_failed q xs held e in
            (
              default,
              (queue.try_pop q).2,
              xs,
              elim h [ inl s ↦ ground (arith, e, s) | inr some_left ↦ absurd (some_left failed.0) ],
              failed.1,
            )
      ]
  pop_until-returns default ((early, step) ∷ before) stop others later q xs held h =
      elim (Bool-cases (queue.try_pop q).0) [
        | inl e ↦ (
          value_or default (queue.try_pop q).1,
          (queue.try_pop q).2,
          (Fifo.pop xs).2,
          ground (arith, e),
          (queue.pop_lem q xs held).2,
        )
        | inr e ↦
            let failed = pop_failed q xs held e in
            elim (Bool-cases early) [
              | inl t ↦ (default, (queue.try_pop q).2, xs, ground (arith, e, t), failed.1)
              | inr f ↦
                  let rest =
                    pop_until-returns default before stop others later
                      (step.act (queue.try_pop q).2) (step.change xs)
                      (step.act_lem (queue.try_pop q).2 xs failed.1) h in
                  (rest.0, rest.1, rest.2, ground (arith, e, f, rest.3), rest.4)
            ]
      ]

  -- For a queue whose attempts are those of a bounded list: if at some attempt the list would
  -- not have the capacity as its length had only the others worked on it, then the retrying
  -- push has returned by that attempt, and the queue holds a list with the element at its
  -- end.
  pub push-returns :
      (x : T) (before : List (Others queue)) (others : Others queue) (later : List (Others queue))
      (q : Q) (xs : List T)
      → queue.Holds q xs
      → length (left_to before xs) ≢ queue.capacity
      → (q' : Q) × (ys : List T) × (push x (before ++ (others ∷ later)) q ≡ returned tt q')
        × queue.Holds q' (ys ++ (x ∷ []))
  unfolding push Fifo.push
  push-returns x [] others later q xs held h = elim (Bool-cases (queue.try_push q x).0) [
    | inl t ↦ ((queue.try_push q x).1, xs, ground (arith, t), pushed q xs x held t)
    | inr f ↦ absurd (h (push_failed q xs x held f).0)
  ]
  push-returns x (step ∷ before) others later q xs held h =
      elim (Bool-cases (queue.try_push q x).0) [
        | inl t ↦ ((queue.try_push q x).1, xs, ground (arith, t), pushed q xs x held t)
        | inr f ↦
            let failed = push_failed q xs x held f in
            let rest =
              push-returns x before others later (step.act (queue.try_push q x).1) (step.change xs)
                (step.act_lem (queue.try_push q x).1 xs failed.1) h in
            (rest.0, rest.1, ground (arith, f, rest.2), rest.3)
      ]
