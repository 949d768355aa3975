-- ===== src/Args/Tests/Making.antt =====
-- Runs of the making of a specification and of the calls of handlers, and the theorems at such inputs.
use cpp26_experiments.Base.{
  ◌==◌, ◌++◌, ℕ, ◌≡◌, refl, true, false, List, [], ◌∷◌, codes, if◌then◌else◌, length, none, some,
  arith,
}
use cpp26_experiments.Args.Parser.{Spec}
use cpp26_experiments.Args.Make as Make
use cpp26_experiments.Args.Make.{
  compiled, make_spec, parse_members, parse_member, parse_command, parse_base, make_argument,
  make_option, validate,
}
use cpp26_experiments.Args.Made.{make_spec-arguments, numbered, OptionalLast}
use cpp26_experiments.Args.Construct.{
  Built, built, leading, case_count, visit, visit_case, ArgumentTuples, none_left, tuple, object,
  no_objects, default_construct, default_invoke,
}
use cpp26_experiments.Args.Constructed.{default_invoke_lem, default_construct-IsFilled}
use cpp26_experiments.Args.Values as Values
use cpp26_experiments.Args.Values.{
  Value, integer, text, Target, integer_type, text_type, checked, failed, parse_value, do_handle,
  handle_all, method, handle_option, failed_line, reverse_onto,
}
use cpp26_experiments.Args.Handled.{handle_option-enumerate}
use cpp26_experiments.Util.Strings.{stou, stou_from}
use cpp26_experiments.Meta.Packs.{enumerate, enumerate_from}
use cpp26_experiments.Meta.Sample.{sample, option_annotation}
use cpp26_experiments.Meta.Members.{has_annotation, is_derived_from}
use cpp26_experiments.Args.Tests.{text_target, number_target, path}

abbrev sample_target : ℕ → Target
sample_target r = if r == 1 then text_target (codes "path") else text_target []

-- The specification of a type with a required, an optional and an option member.
abbrev sample_spec : Spec
sample_spec = record {
  arguments =
      path
      ∷ record {
        index = 1;
        name = codes "depth";
        is_optional = true;
        is_variadic = false;
        target = text_target [];
      }
      ∷ [];
  commands = [];
  options =
      record {
        name = codes "verbose";
        arguments =
            record {
              index = 0;
              name = codes "verbose";
              is_optional = true;
              is_variadic = false;
              target = text_target [];
            }
            ∷ [];
      }
      ∷ [];
}

sample_run : make_spec sample option_annotation 6 4 sample_target 0 ≡ compiled sample_spec
unfolding make_spec parse_members parse_member Make.parse_argument parse_command Make.parse_option
    parse_base make_argument make_option validate has_annotation is_derived_from
sample_run = refl

make_spec-arguments_example :
    (sample_spec.arguments ≡ numbered sample option_annotation 6 4 sample_target 0 (1 ∷ 2 ∷ []))
    × OptionalLast sample_spec.arguments
unfolding has_annotation
make_spec-arguments_example =
    make_spec-arguments sample option_annotation 6 4 sample_target 0 sample_spec sample_run

default_invoke_example : default_invoke {V = ℕ} length 1 (some 7 ∷ some 8 ∷ none ∷ []) ≡ built 2
unfolding leading case_count
default_invoke_example =
    default_invoke_lem {V = ℕ} length 1 (some 7 ∷ some 8 ∷ none ∷ []) (omega arith)

-- All of four arguments with default values are given: there is no case for it.
all_given :
    default_invoke {V = ℕ} length 0 (some 1 ∷ some 2 ∷ some 3 ∷ some 4 ∷ []) ≡ Built.undefined
unfolding default_invoke visit visit_case leading case_count
all_given = refl

abbrev derived : ArgumentTuples ℕ
derived = tuple (tuple none_left 1 (some 5 ∷ []) none_left) 1 (some 6 ∷ none ∷ []) none_left

default_construct-IsFilled_example :
    default_construct derived
    ≡ built (object (object no_objects (5 ∷ []) no_objects) (6 ∷ []) no_objects)
unfolding leading case_count
default_construct-IsFilled_example = default_construct-IsFilled derived (omega arith)

-- An option of a count that must not be 0, and an optional label.
abbrev count_target : Target
count_target = number_target (codes "count") (codes "repeat")

abbrev label_target : Target
label_target = record {
  name = codes "label";
  parent = codes "repeat";
  type = text_type;
  constraint = none;
}

abbrev append_values : List Value → List Value → List Value
append_values vs obj = obj ++ vs

handle_option-enumerate_example :
    handle_option (method 1 append_values) 2 (enumerate ((count_target, codes "12") ∷ [])) []
    ≡ checked (built (integer 12 ∷ []))
unfolding Values.validate parse_value stou stou_from case_count
handle_option-enumerate_example =
    handle_option-enumerate append_values 1 ((count_target, codes "12") ∷ []) 1 [] (refl, tt)
      (omega arith) (omega arith)

-- A count of 0 is refused, and nothing is called.
zero_count :
    handle_option (method 1 append_values) 2 (enumerate ((count_target, codes "0") ∷ [])) []
    ≡ failed (
        codes "Validation failed for argument `count` of `repeat`"
        ∷ failed_line (codes "value != 0")
        ∷ [])
unfolding handle_option handle_all do_handle Values.validate parse_value stou stou_from enumerate
    enumerate_from reverse_onto
zero_count = refl
