-- ===== src/Queues/Fifo.antt =====
-- The contract of the bounded queues: a first-in, first-out list of at most `cap` items.
use cpp26_experiments.Base.{
  ℕ, Bool, true, false, List, [], ◌∷◌, ◌++◌, Option, none, some, ◌==◌, if◌then◌else◌, length,
}

module _ {A : Type 0} where
  -- A push onto a full queue is refused.
  unfoldable pub push : ℕ → List A → A → Bool × List A
  push cap xs x = if length xs == cap then (false, xs) else (true, xs ++ (x ∷ []))

  -- A pop of an empty queue fails.
  unfoldable pub pop : List A → Bool × Option A × List A
  pop [] = (false, none, [])
  pop (x ∷ xs) = (true, some x, xs)
