-- ===== src/Rpc/Outcome.antt =====
-- How a call can end: with a value, with `std::out_of_range`, or in undefined behaviour.
use cpp26_experiments.Base.{Option, none, some}

pub data Outcome {ℓ} (A : Type ℓ) : Type ℓ where
  returned : A → Outcome A
  out_of_range : Outcome A
  undefined : Outcome A

infixl 5 ◌>>=◌
abbrev pub ◌>>=◌ {ℓ κ} : {A : Type ℓ} {B : Type κ} → Outcome A → (A → Outcome B) → Outcome B
returned a >>= f = f a
out_of_range >>= f = out_of_range
undefined >>= f = undefined

-- In code that throws nothing, only undefined behaviour is left.
abbrev pub defined {ℓ} : {A : Type ℓ} → Option A → Outcome A
defined none = undefined
defined (some a) = returned a
