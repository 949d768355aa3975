-- ===== src/Args/Tests.antt =====
-- Runs of the command line parser, and the theorem at such an input.
mod Making
use cpp26_experiments.Base.{
  Bool, not, ◌==◌, ◌++◌, ℕ, ◌≡◌, refl, true, false, List, [], ◌∷◌, codes, Bytes, if◌then◌else◌,
  length, take, drop, map, All, none, some, arith,
}
use cpp26_experiments.Args.Outcome.{done, exited, undefined, validation_failed}
use cpp26_experiments.Args.Parser.{
  Argument, CliOption, Spec, parse_args, positional, parse_argument, take_argument, option_loop,
  first_option, parse_option, option_arguments, checked_value, evaluate, check_required,
  run_options, Parsed,
}
use cpp26_experiments.Args.Progress.{option_loop_enough}
use cpp26_experiments.Args.Required.{parse_args-required}
use cpp26_experiments.Args.Make as Make
use cpp26_experiments.Args.Make.{
  compiled, make_spec, parse_members, parse_member, parse_command, parse_base, make_argument,
  make_option, validate,
}
use cpp26_experiments.Args.Made.{make_spec-arguments, numbered, OptionalLast}
use cpp26_experiments.Args.Construct.{
  Built, built, leading, case_count, visit, visit_case, ArgumentTuples, none_left, tuple, object,
  no_objects, default_construct, default_invoke,
}
use cpp26_experiments.Args.Constructed.{default_invoke_lem, default_construct-IsFilled}
use cpp26_experiments.Args.Values as Values
use cpp26_experiments.Args.Values.{
  Value, integer, text, Target, integer_type, text_type, checked, failed, parse_value, do_handle,
  handle_all, method, handle_option, failed_line, reverse_onto,
}
use cpp26_experiments.Args.Handled.{handle_option-enumerate}
use cpp26_experiments.Util.Strings.{stou, stou_from}
use cpp26_experiments.Meta.Packs.{enumerate, enumerate_from}
use cpp26_experiments.Meta.Sample.{sample, option_annotation}
use cpp26_experiments.Meta.Members.{has_annotation, is_derived_from}
use cpp26_experiments.Args.Lines.{Use, parse_args-rendered}
use cpp26_experiments.Args.Refused.{parse_args-refused}

-- A text without a constraint, and a number of at least 1.
abbrev pub text_target : Bytes → Target
text_target name = record {
  name = name;
  parent = codes "Settings";
  type = text_type;
  constraint = none;
}

abbrev pub not_zero : Value → Bool × List Bytes
not_zero (integer n) = (not (n == 0), codes "value != 0" ∷ [])
not_zero (text t) = (true, [])

abbrev pub number_target : Bytes → Bytes → Target
number_target name parent = record {
  name = name;
  parent = parent;
  type = integer_type 32;
  constraint = some not_zero;
}

abbrev pub path : Argument
path = record {
  index = 0;
  name = codes "path";
  is_optional = false;
  is_variadic = false;
  target = text_target (codes "path");
}

abbrev depth : Argument
depth = record {
  index = 0;
  name = codes "depth";
  is_optional = true;
  is_variadic = false;
  target = number_target (codes "depth") (codes "limit");
}

abbrev limit : CliOption
limit = record { name = codes "limit"; arguments = depth ∷ [] }

abbrev verbose : CliOption
verbose = record { name = codes "verbose"; arguments = [] }

abbrev spec : Spec
spec = record { arguments = path ∷ []; commands = []; options = limit ∷ verbose ∷ [] }

abbrev uses : List Use
uses =
    record { option = verbose; values = [] }
    ∷ record { option = limit; values = codes "3" ∷ [] }
    ∷ []

parse_args-rendered_example :
    parse_args spec
      (codes "tool" ∷ codes "src" ∷ codes "--verbose" ∷ codes "--limit" ∷ codes "3" ∷ [])
    ≡ done (record {
      arguments = (0, text (codes "src")) ∷ [];
      commands = [];
      options = (codes "verbose", []) ∷ (codes "limit", (0, integer 3) ∷ []) ∷ [];
    })
unfolding parse_value stou stou_from Values.validate
parse_args-rendered_example =
    parse_args-rendered spec (codes "tool") (codes "src" ∷ []) uses (refl, refl, tt)
      (refl, refl, tt, (refl, refl, (refl, refl, tt), tt))

-- A depth of 0 is refused by its constraint.
depth_refused :
    parse_args spec (codes "tool" ∷ codes "src" ∷ codes "--limit" ∷ codes "0" ∷ [])
    ≡ exited (
        validation_failed (
          codes "Validation failed for argument `depth` of `limit`"
          ∷ failed_line (codes "value != 0")
          ∷ []))
unfolding parse_args positional parse_argument take_argument option_loop first_option parse_option
    option_arguments evaluate checked_value check_required run_options parse_value stou stou_from
    Values.validate reverse_onto
depth_refused = refl

-- `times` must not be 0.
abbrev times : Argument
times = record {
  index = 1;
  name = codes "times";
  is_optional = true;
  is_variadic = false;
  target = number_target (codes "times") (codes "Settings");
}

abbrev counted : Spec
counted = record { arguments = path ∷ times ∷ []; commands = []; options = verbose ∷ [] }

parse_args-refused_example :
    parse_args counted (codes "tool" ∷ codes "src" ∷ codes "0" ∷ codes "--verbose" ∷ [])
    ≡ exited (
        validation_failed (
          codes "Validation failed for argument `times` of `Settings`"
          ∷ failed_line (codes "value != 0")
          ∷ []))
unfolding parse_value stou stou_from Values.validate reverse_onto
parse_args-refused_example =
    parse_args-refused counted (codes "tool") (codes "src" ∷ codes "0" ∷ [])
      (codes "Validation failed for argument `times` of `Settings`"
        ∷ failed_line (codes "value != 0")
        ∷ [])
      (record { option = verbose; values = [] } ∷ []) (refl, (refl, tt)) (refl, refl, tt, tt) refl

-- A negative number is taken for the argument, and its null handler is called.
negative_number : parse_args spec (codes "tool" ∷ codes "-5" ∷ []) ≡ undefined
unfolding parse_args positional parse_argument take_argument option_loop evaluate
negative_number = refl

-- The first two characters of an option are not looked at.
no_dashes :
    parse_args spec (codes "tool" ∷ codes "src" ∷ codes "unverbose" ∷ [])
    ≡ done (record {
      arguments = (0, text (codes "src")) ∷ [];
      commands = [];
      options = (codes "verbose", []) ∷ [];
    })
unfolding parse_args positional parse_argument take_argument option_loop first_option parse_option
    option_arguments evaluate checked_value check_required run_options parse_value Values.validate
no_dashes = refl

-- An argument of one character in the place of an option.
one_character : parse_args spec (codes "tool" ∷ codes "src" ∷ codes "v" ∷ []) ≡ undefined
unfolding parse_args positional parse_argument take_argument option_loop first_option parse_option
one_character = refl

-- `option_loop` on this line is over after two rounds.
option_loop_enough_example :
    option_loop 5 spec (record { args = codes "tool" ∷ codes "--verbose" ∷ []; cursor = 1 })
    ≡ option_loop 1 spec (record { args = codes "tool" ∷ codes "--verbose" ∷ []; cursor = 1 })
option_loop_enough_example =
    option_loop_enough 4 1 spec
      (record { args = codes "tool" ∷ codes "--verbose" ∷ []; cursor = 1 }) (omega arith)

abbrev parsed_src : Parsed
parsed_src = record { arguments = (0, text (codes "src")) ∷ []; commands = []; options = [] }

src_run : parse_args spec (codes "tool" ∷ codes "src" ∷ []) ≡ done parsed_src
unfolding parse_args positional parse_argument take_argument option_loop evaluate checked_value
    check_required run_options parse_value Values.validate
src_run = refl

parse_args-required_example :
    All (λ (a : Argument). a.is_optional ≡ true) (drop 1 spec.arguments)
    × (map (λ (v : ℕ × Value). v.0) parsed_src.arguments
        ≡ map (λ (a : Argument). a.index) (take 1 spec.arguments))
parse_args-required_example =
    parse_args-required spec (codes "tool" ∷ codes "src" ∷ []) parsed_src src_run
