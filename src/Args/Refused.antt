-- ===== src/Args/Refused.antt =====
-- Command lines with a value that its constraint refuses: `validate` of
-- include/erl/_impl/config/args.hpp ends the program.
use cpp26_experiments.Base.{
  ◌≡◌, List, [], ◌∷◌, ◌++◌, Option, none, some, Bytes, length, arith, length-append, inl, inr, ◌⊎◌,
}
use cpp26_experiments.Args.Outcome.{exited, validation_failed}
use cpp26_experiments.Args.Parser.{Argument, Spec, checked_value, evaluate, parse_args}
use cpp26_experiments.Args.Values.{Checked, checked, failed, parse_value, validate}
use cpp26_experiments.Args.Render.{Shaped, givens, positional-Shaped}
use cpp26_experiments.Args.Lines.{
  Use, AllUses, rendered, rendered-IsStop, length-rendered, option_loop-rendered,
}

-- What is printed about the first value that is refused.
abbrev pub first_refusal : List Argument → List Bytes → Option (List Bytes)
first_refusal arguments [] = none
first_refusal [] (v ∷ vs) = none
first_refusal (argument ∷ arguments) (v ∷ vs) =
    elim (validate argument.target (parse_value argument.target.type v)) [
      | failed lines ↦ some lines
      | checked valid ↦ first_refusal arguments vs
    ]

Checked-cases :
    (c : Checked (Unit {0})) → ((lines : List Bytes) × (c ≡ failed lines)) ⊎ (c ≡ checked tt)
Checked-cases (failed lines) = inl (lines, λ i. failed lines)
Checked-cases (checked valid) = inr (λ i. checked tt)

evaluate-refused :
    (arguments : List Argument) (vs lines : List Bytes)
    → first_refusal arguments vs ≡ some lines
    → evaluate (givens vs arguments) ≡ exited (validation_failed lines)
unfolding evaluate checked_value
evaluate-refused arguments [] lines h = ground (arith, h)
evaluate-refused [] (v ∷ vs) lines h = ground (arith, h)
evaluate-refused (argument ∷ arguments) (v ∷ vs) lines h =
    elim (Checked-cases (validate argument.target (parse_value argument.target.type v))) [
      | inl (said, c) ↦ ground (arith, c, h)
      | inr c ↦ ground (arith, c, evaluate-refused arguments vs lines (ground (arith, c, h)))
    ]

-- For a specification, values for its first arguments that do not start with a minus, the other
-- arguments being optional, one of them refused by the constraint of its argument, and options
-- of the specification that no command hides, each with accepted values: reading the command
-- line that says so exits with the lines that are printed about the first refused value,
-- whatever the options are.
pub parse_args-refused :
    (spec : Spec) (program : Bytes) (vs lines : List Bytes) (uses : List Use)
    → Shaped spec.arguments vs
    → AllUses spec uses
    → first_refusal spec.arguments vs ≡ some lines
    → parse_args spec (program ∷ (vs ++ rendered uses)) ≡ exited (validation_failed lines)
unfolding parse_args
parse_args-refused spec program vs lines uses shaped h refused = ground (
  arith,
  positional-Shaped spec.arguments (program ∷ []) vs (rendered uses) shaped (rendered-IsStop uses),
  option_loop-rendered (length (vs ++ rendered uses)) spec (program ∷ vs) uses
      (omega (arith, length-append vs (rendered uses), length-rendered uses)) h,
  evaluate-refused spec.arguments vs lines refused,
)
