-- ===== src/Rpc/Service.antt =====
-- A service and its remote members, as `Dispatcher<Members...>` sees them.
use cpp26_experiments.Base.{ℕ, leb, if◌then◌else◌, Option, none, some, Bytes}
use cpp26_experiments.Rpc.Outcome.{Outcome}
use cpp26_experiments.Reflect.Types.{Ty, Tys, El, Fields}

-- `void` is none.
abbrev pub Returned : Option Ty → Type 0
Returned none = Unit
Returned (some ty) = El ty

-- A member function that may change the service's state S, with the reflected parameters and
-- result that its proxy and its dispatcher are generated from.
pub record Method (S : Type 0) : Type 0 where
  pub parameters : Tys
  pub result : Option Ty
  pub run : S → Fields parameters → S × Returned result

-- A handler is given the raw bytes of the message, which it may not be able to read.
pub record Handler (S : Type 0) : Type 0 where
  pub result : Option Ty
  pub run : S → Bytes → Outcome (S × Returned result)

pub data Member (S : Type 0) : Type 0 where
  function : Method S → Member S
  custom : Handler S → Member S

-- `strategy_idx`, as the number of cases that the chosen `DispatchStrategy` stamps.
unfoldable pub case_count : ℕ → ℕ
case_count members =
    if leb members 4 then 4 else if leb members 16 then 16 else if leb members 64 then 64 else 256
