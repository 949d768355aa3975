-- ===== src/Args/Outcome.antt =====
-- How `parse_args` of include/erl/_impl/config/args.hpp can end: with a value, with a message and
-- `std::exit(1)`, or in undefined behaviour.
use cpp26_experiments.Base.{Bytes, List}

-- The message of an exit: a missing argument of an option, an unknown option, a missing argument, a
-- value that its constraint refuses.
pub data Failure : Type 0 where
  missing_of_option : Bytes → Bytes → Failure
  unknown_option : Bytes → Failure
  missing_required : Bytes → Failure
  validation_failed : List Bytes → Failure

pub data Outcome {ℓ} (A : Type ℓ) : Type ℓ where
  done : A → Outcome A
  exited : Failure → Outcome A
  undefined : Outcome A

infixl 5 ◌>>=◌
abbrev pub ◌>>=◌ {ℓ κ} : {A : Type ℓ} {B : Type κ} → Outcome A → (A → Outcome B) → Outcome B
done a >>= f = f a
exited failure >>= f = exited failure
undefined >>= f = undefined
