-- ===== src/Queues/Basic.antt =====
-- include/erl/_impl/queue/basic.hpp: `BasicQueue`, a `std::queue` under a mutex. Every operation
-- holds the lock from its start to its end, so that a run is a sequence of operations; `owns` is
-- what `try_to_lock` found, `stop` what the stop token says when the wait ends.
use cpp26_experiments.Base.{
  ℕ, zero, suc, ◌+◌, ◌≡◌, refl, ◌∙◌, sym, ap, append-nil, append_assoc, arith, Bool, true, false,
  List, [], ◌∷◌, ◌++◌, Option, none, some, ◌>>=◌, length, replicate,
}

module _ {T : Type 0} where
  unfoldable pub push : T → List T → List T
  push x queue = queue ++ x ∷ []

  unfoldable pub try_push : Bool → T → List T → Bool × List T
  try_push owns x queue = elim owns [ true ↦ (true, queue ++ x ∷ []) | false ↦ (false, queue) ]

  -- none is the wait, which goes on while the queue is empty and no stop is requested. An empty
  -- queue and a stop give the default value.
  unfoldable pub pop : T → Bool → List T → Option (T × List T)
  pop default stop [] = elim stop [ true ↦ some (default, []) | false ↦ none ]
  pop default stop (x ∷ queue) = some (x, queue)

  unfoldable pub try_pop : Bool → List T → Bool × Option T × List T
  try_pop owns [] = (false, none, [])
  try_pop owns (x ∷ queue) = elim owns [
    | true ↦ (true, some x, queue)
    | false ↦ (false, none, x ∷ queue)
  ]

  unfoldable pub is_empty : List T → Bool
  is_empty [] = true
  is_empty (x ∷ queue) = false

  -- So many pops in a row.
  abbrev pub pops : T → Bool → ℕ → List T → Option (List T × List T)
  pops default stop zero queue = some ([], queue)
  pops default stop (suc n) queue = do
    (x, queue') ← pop default stop queue
    (xs, queue'') ← pops default stop n queue'
    some (x ∷ xs, queue'')

  pops_stopped : (default : T) (n : ℕ) → pops default true n [] ≡ some (replicate n default, [])
  unfolding pop
  pops_stopped default zero = refl
  pops_stopped default (suc n) = rw (pops_stopped default n) refl

  -- Pushes in order, by threads that found the lock free or not.
  abbrev pub offers : List (Bool × T) → List T → List T
  offers [] queue = queue
  offers (offer ∷ rest) queue = offers rest (try_push offer.0 offer.1 queue).1

  abbrev pub taken : List (Bool × T) → List T
  taken [] = []
  taken (offer ∷ rest) = elim offer.0 [ true ↦ offer.1 ∷ taken rest | false ↦ taken rest ]

  offers-taken : (os : List (Bool × T)) (queue : List T) → offers os queue ≡ queue ++ taken os
  unfolding try_push
  offers-taken [] queue = sym (append-nil queue)
  offers-taken ((true, x) ∷ rest) queue =
      offers-taken rest (queue ++ x ∷ []) ∙ append_assoc queue (x ∷ []) (taken rest)
  offers-taken ((false, x) ∷ rest) queue = offers-taken rest queue

  pops_drain :
      (default : T) (queue : List T) (m n : ℕ)
      → n ≡ length queue + m
      → pops default true n queue ≡ some (queue ++ replicate m default, [])
  unfolding pop
  pops_drain default [] m n e =
      let same : n ≡ m = omega (arith, e) in
      ap (λ (n : ℕ). pops default true n []) same ∙ pops_stopped default m
  pops_drain default (x ∷ queue) m zero e = absurd (omega (arith, e))
  pops_drain default (x ∷ queue) m (suc n) e =
      rw (pops_drain default queue m n (omega (arith, e))) refl

  -- Whatever pushes found the lock free: popping with a stop requested, as many times as
  -- items were accepted and m times more, gives the accepted items in order, then the default
  -- value m times, and leaves the queue empty.
  pub pops-offers :
      (default : T) (os : List (Bool × T)) (m : ℕ)
      → pops default true (length (taken os) + m) (offers os [])
        ≡ some (taken os ++ replicate m default, [])
  pops-offers default os m =
      rw (offers-taken os []) (pops_drain default (taken os) m (length (taken os) + m) refl)
