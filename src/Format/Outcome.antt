-- ===== src/Format/Outcome.antt =====
-- How `do_parse` of include/erl/_impl/format/named.hpp can end: with a value, with the text of an
-- error, or in an access out of bounds, which no constant evaluation gets past.
use cpp26_experiments.Base.{Bytes, Option, none, some}

pub data Outcome {ℓ} (A : Type ℓ) : Type ℓ where
  ok : A → Outcome A
  invalid : Bytes → Outcome A
  undefined : Outcome A

infixl 5 ◌>>=◌
abbrev pub ◌>>=◌ {ℓ κ} : {A : Type ℓ} {B : Type κ} → Outcome A → (A → Outcome B) → Outcome B
ok a >>= f = f a
invalid message >>= f = invalid message
undefined >>= f = undefined

abbrev pub access {ℓ} : {A : Type ℓ} → Option A → Outcome A
access none = undefined
access (some a) = ok a
