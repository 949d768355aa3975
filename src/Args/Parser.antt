-- ===== src/Args/Parser.antt =====
-- include/erl/_impl/config/args.hpp: `ArgParser`, the parsing of arguments and options, and
-- `parse_args`.
use cpp26_experiments.Base.{
  ℕ, zero, suc, ◌==◌, ltb, leb, Bool, true, false, ◌&&◌, List, [], ◌∷◌, Option, none, some, Bytes,
  length, get_elem?, drop, bytes_eq, if◌then◌else◌,
}
use cpp26_experiments.Args.Outcome.{
  missing_of_option, unknown_option, missing_required, validation_failed, Outcome, done, exited,
  undefined, ◌>>=◌,
}
use cpp26_experiments.Args.Values.{Value, Target, checked, failed, parse_value, validate}

pub record ArgParser : Type 0 where
  pub args : List Bytes
  pub cursor : ℕ

abbrev pub valid : ArgParser → Bool
valid parser = ltb parser.cursor (length parser.args)

-- `args[cursor]`, which is not checked.
abbrev pub current : ArgParser → Outcome Bytes
current parser = elim (get_elem? parser.args parser.cursor) [
  | none ↦ undefined
  | some arg ↦ done arg
]

abbrev pub advance : ArgParser → ArgParser
advance parser = record parser { cursor = suc parser.cursor }

-- An argument; `target` is what its handler is instantiated with.
pub record Argument : Type 0 where
  pub index : ℕ
  pub name : Bytes
  pub is_optional : Bool
  pub is_variadic : Bool
  pub target : Target

pub record CliOption : Type 0 where
  pub name : Bytes
  pub arguments : List Argument

pub record Spec : Type 0 where
  pub arguments : List Argument
  pub commands : List CliOption
  pub options : List CliOption

-- `Argument::Unevaluated`: the text for an argument, or a null handler.
pub data Unevaluated : Type 0 where
  given : Argument → Bytes → Unevaluated
  unset : Unevaluated

-- `Argument::Unevaluated::do_parse`. The first character of an empty argument is undefined. A
-- minus before a digit is taken for an argument, of which nothing is kept.
unfoldable pub take_argument :
    Argument → Bytes → ArgParser → Outcome (Bool × Unevaluated × ArgParser)
take_argument argument [] parser = undefined
take_argument argument (c ∷ text) parser =
    if c == 45
    then elim text [
      | [] ↦ done (false, unset, parser)
      | d ∷ rest ↦
          if leb 48 d && leb d 57
          then done (true, unset, advance parser)
          else done (false, unset, parser)
    ]
    else done (true, given argument (c ∷ text), advance parser)

unfoldable pub parse_argument : Argument → ArgParser → Outcome (Bool × Unevaluated × ArgParser)
parse_argument argument parser =
    if valid parser
    then (do arg ← current parser; take_argument argument arg parser)
    else done (false, unset, parser)

-- The arguments of an option, in order: one that is not there is passed over if it is optional.
unfoldable pub option_arguments :
    Bytes → List Argument → ArgParser → Outcome (List Unevaluated × ArgParser)
option_arguments arg_name [] parser = done ([], parser)
option_arguments arg_name (argument ∷ arguments) parser = do
  (found, value, parser') ← parse_argument argument parser
  elim found [
    | true ↦ do
      (values, parser'') ← option_arguments arg_name arguments parser'
      done (value ∷ values, parser'')
    | false ↦ elim argument.is_optional [
      | true ↦ option_arguments arg_name arguments parser'
      | false ↦ exited (missing_of_option argument.name arg_name)
    ]
  ]

-- `remove_prefix(2)` of a shorter text is undefined. The two characters are not looked at.
abbrev pub remove_prefix : Bytes → Outcome Bytes
remove_prefix [] = undefined
remove_prefix (c ∷ []) = undefined
remove_prefix (c ∷ (d ∷ text)) = done text

-- `Option::Unevaluated::do_parse`; none where the name is another.
unfoldable pub parse_option :
    CliOption → ArgParser → Outcome (Option (List Unevaluated) × ArgParser)
parse_option option parser = do
  arg ← current parser
  arg_name ← remove_prefix arg
  elim (bytes_eq arg_name option.name) [
    | true ↦ do
      (values, parser') ← option_arguments arg_name option.arguments (advance parser)
      done (some values, parser')
    | false ↦ done (none, parser)
  ]

-- The fold over the options, up to the first that takes the argument.
unfoldable pub first_option :
    List CliOption → ArgParser → Outcome (Option (Bytes × List Unevaluated) × ArgParser)
first_option [] parser = done (none, parser)
first_option (option ∷ options) parser = do
  (values, parser') ← parse_option option parser
  elim values [
    | some vs ↦ done (some (option.name, vs), parser')
    | none ↦ first_option options parser'
  ]

-- The value of a text, and the exit where the constraint of its argument refuses it.
unfoldable pub checked_value : Argument → Bytes → Outcome Value
checked_value argument text =
    let value = parse_value argument.target.type text in
    elim (validate argument.target value) [
      | failed lines ↦ exited (validation_failed lines)
      | checked valid ↦ done value
    ]

-- The values by their places in the tuple, in the order of the calls. Calling a null handler is
-- undefined.
unfoldable pub evaluate : List Unevaluated → Outcome (List (ℕ × Value))
evaluate [] = done []
evaluate (unset ∷ arguments) = undefined
evaluate (given argument text ∷ arguments) = do
  value ← checked_value argument text
  values ← evaluate arguments
  done ((argument.index, value) ∷ values)

-- An option's name, and its arguments by their places.
abbrev pub Run : Type 0
Run = Bytes × List (ℕ × Value)

-- The positional arguments, up to the first that is not there.
unfoldable pub positional : List Argument → ArgParser → Outcome (List Unevaluated × ArgParser)
positional [] parser = done ([], parser)
positional (argument ∷ arguments) parser = do
  (found, value, parser') ← parse_argument argument parser
  elim found [
    | true ↦ do (values, parser'') ← positional arguments parser'; done (value ∷ values, parser'')
    | false ↦ done ([], parser')
  ]

-- The loop over the options: commands run at once, options are kept. Each round takes at least
-- one argument; `fuel` bounds the rounds.
unfoldable pub option_loop :
    ℕ → Spec → ArgParser → Outcome (List Run × List (Bytes × List Unevaluated))
option_loop zero spec parser = done ([], [])
option_loop (suc fuel) spec parser = elim (valid parser) [
  | false ↦ done ([], [])
  | true ↦ do
    (command, parser') ← first_option spec.commands parser
    elim command [
      | some (name, arguments) ↦ do
        values ← evaluate arguments
        (commands, options) ← option_loop fuel spec parser'
        done ((name, values) ∷ commands, options)
      | none ↦ do
        (option, parser'') ← first_option spec.options parser'
        elim option [
          | some (name, arguments) ↦ do
            (commands, options) ← option_loop fuel spec parser''
            done (commands, (name, arguments) ∷ options)
          | none ↦ do arg ← current parser''; exited (unknown_option arg)
        ]
    ]
]

unfoldable pub check_required : List Argument → Outcome (Unit {0})
check_required [] = done tt
check_required (argument ∷ arguments) = elim argument.is_optional [
  | true ↦ check_required arguments
  | false ↦ exited (missing_required argument.name)
]

unfoldable pub run_options : List (Bytes × List Unevaluated) → Outcome (List Run)
run_options [] = done []
run_options (option ∷ options) = do
  values ← evaluate option.1
  runs ← run_options options
  done ((option.0, values) ∷ runs)

-- What `parse_args` builds its object from: the argument tuple, the commands that ran on the way,
-- and the options that are run on the object.
pub record Parsed : Type 0 where
  pub arguments : List (ℕ × Value)
  pub commands : List Run
  pub options : List Run

unfoldable pub parse_args : Spec → List Bytes → Outcome Parsed
parse_args spec [] = undefined
parse_args spec (program ∷ rest) = do
  (parsed_args, parser) ← positional spec.arguments (record { args = program ∷ rest; cursor = 1 })
  (commands, parsed_opts) ← option_loop (length rest) spec parser
  arguments ← evaluate parsed_args
  ready ← check_required (drop (length parsed_args) spec.arguments)
  options ← run_options parsed_opts
  done (record { arguments = arguments; commands = commands; options = options })
