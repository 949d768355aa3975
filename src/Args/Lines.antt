-- ===== src/Args/Lines.antt =====
-- Command lines for include/erl/_impl/config/args.hpp (`parse_args`): values for the arguments,
-- then options with theirs.
use cpp26_experiments.Base.{
  ℕ, zero, suc, ◌≤◌, ◌≡◌, refl, List, [], ◌∷◌, ◌++◌, none, some, Bytes, length, arith,
  length-append, inl, inr,
}
use cpp26_experiments.Args.Outcome.{done}
use cpp26_experiments.Args.Parser.{
  CliOption, Spec, Unevaluated, Run, option_loop, run_options, parse_args,
}
use cpp26_experiments.Args.Lookup.{lookup, first_option-none, first_option-found}
use cpp26_experiments.Args.Render.{
  reading, valid-reading, valid-end, flag, IsStop, Fills, placed, givens, Fills-Shaped,
  positional-Shaped, evaluate-givens, check_required-Fills,
}

-- An option of the line, and the values behind it.
pub record Use : Type 0 where
  pub option : CliOption
  pub values : List Bytes

abbrev pub AllUses : Spec → List Use → Type 0
AllUses spec [] = Unit
AllUses spec (use' ∷ uses) =
    (lookup spec.commands use'.option.name ≡ none)
    × (lookup spec.options use'.option.name ≡ some use'.option)
    × Fills use'.option.arguments use'.values
    × AllUses spec uses

abbrev pub rendered : List Use → List Bytes
rendered [] = []
rendered (use' ∷ uses) = flag use'.option.name ∷ (use'.values ++ rendered uses)

abbrev pub runs : List Use → List Run
runs [] = []
runs (use' ∷ uses) = (use'.option.name, placed use'.values use'.option.arguments) ∷ runs uses

abbrev pub kept : List Use → List (Bytes × List Unevaluated)
kept [] = []
kept (use' ∷ uses) = (use'.option.name, givens use'.values use'.option.arguments) ∷ kept uses

pub rendered-IsStop : (uses : List Use) → IsStop (rendered uses)
unfolding IsStop
rendered-IsStop [] = inl refl
rendered-IsStop (use' ∷ uses) = inr (use'.option.name, use'.values ++ rendered uses, refl)

pub length-rendered : (uses : List Use) → length uses ≤ length (rendered uses)
length-rendered [] = omega arith
length-rendered (use' ∷ uses) =
    omega (arith, length-append use'.values (rendered uses), length-rendered uses)

run_options-kept :
    (spec : Spec) (uses : List Use) → AllUses spec uses → run_options (kept uses) ≡ done (runs uses)
unfolding run_options
run_options-kept spec [] h = refl
run_options-kept spec (use' ∷ uses) h =
    ground
      (arith, evaluate-givens use'.option.arguments use'.values h.2, run_options-kept spec uses h.3)

-- A round for each option is enough.
pub option_loop-rendered :
    (fuel : ℕ) (spec : Spec) (before : List Bytes) (uses : List Use)
    → length uses ≤ fuel
    → AllUses spec uses
    → option_loop fuel spec (reading before (rendered uses)) ≡ done ([], kept uses)
unfolding option_loop
option_loop-rendered zero spec before [] enough h = refl
option_loop-rendered (suc fuel) spec before [] enough h = ground (arith, valid-end before)
option_loop-rendered zero spec before (use' ∷ uses) enough h = absurd (omega arith)
option_loop-rendered (suc fuel) spec before (use' ∷ uses) enough h =
    let name = use'.option.name in
    let ahead = use'.values ++ rendered uses in
    ground (
      arith,
      valid-reading before ahead (flag name),
      first_option-none spec.commands name before ahead h.0,
      first_option-found spec.options use'.option name before use'.values (rendered uses) h.1 h.2
          (rendered-IsStop uses),
      option_loop-rendered fuel spec (before ++ flag name ∷ use'.values) uses (omega arith) h.3,
    )

-- For a specification, values for its first arguments that do not start with a minus and that
-- the constraints of the arguments accept, the other arguments being optional, and options of
-- the specification that no command hides, each with such values for its own arguments: reading
-- the command line that says so puts the value that each text stands for in the place of its
-- argument, runs no command, and keeps the options in order.
pub parse_args-rendered :
    (spec : Spec) (program : Bytes) (vs : List Bytes) (uses : List Use)
    → Fills spec.arguments vs
    → AllUses spec uses
    → parse_args spec (program ∷ (vs ++ rendered uses))
      ≡ done (record { arguments = placed vs spec.arguments; commands = []; options = runs uses })
unfolding parse_args
parse_args-rendered spec program vs uses fills h = ground (
  arith,
  positional-Shaped spec.arguments (program ∷ []) vs (rendered uses)
      (Fills-Shaped spec.arguments vs fills) (rendered-IsStop uses),
  option_loop-rendered (length (vs ++ rendered uses)) spec (program ∷ vs) uses
      (omega (arith, length-append vs (rendered uses), length-rendered uses)) h,
  evaluate-givens spec.arguments vs fills,
  check_required-Fills spec.arguments vs fills,
  run_options-kept spec uses h,
)
