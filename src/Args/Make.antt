-- ===== src/Args/Make.antt =====
-- include/erl/_impl/config/args.hpp: the specification of a command line, made at compile time from
-- the members of a type.
use cpp26_experiments.Base.{
  ℕ, ◌+◌, Bool, true, false, not, ◌&&◌, ◌||◌, List, [], ◌∷◌, ◌++◌, map, Option, none, some, Bytes,
  codes, length, if◌then◌else◌,
}
use cpp26_experiments.Meta.Info.{Compiler}
use cpp26_experiments.Meta.Members.{filter, has_annotation, is_derived_from}
use cpp26_experiments.Meta.Packs.{enumerate}
use cpp26_experiments.Args.Values.{Target}
use cpp26_experiments.Args.Parser.{Argument, CliOption, Spec}

-- A value, or the message of `compile_error`.
pub data Compiled {ℓ} (A : Type ℓ) : Type ℓ where
  compiled : A → Compiled A
  compile_error : Bytes → Compiled A

infixl 5 ◌>>=◌
abbrev pub ◌>>=◌ {ℓ κ} : {A : Type ℓ} {B : Type κ} → Compiled A → (A → Compiled B) → Compiled B
compiled a >>= f = f a
compile_error message >>= f = compile_error message

-- `Spec::Parser`: `bases` and `subcommands` are never filled.
pub record SpecParser : Type 0 where
  pub arguments : List Argument
  pub commands : List CliOption
  pub options : List CliOption

-- `Spec::Parser::validate`, at an argument and those behind it.
unfoldable pub validate : Bool → Bool → List Argument → Compiled (Unit {0})
validate has_variadic has_optional [] = compiled tt
validate has_variadic has_optional (argument ∷ arguments) =
    let behind_variadic = validate true has_optional arguments in
    let behind_optional = validate has_variadic true arguments in
    let behind_required = validate has_variadic has_optional arguments in
    if has_variadic
    then compile_error (codes "Non-variadic argument after a variadic argument is not allowed.")
    else (if argument.is_variadic
        then behind_variadic
        else (if argument.is_optional
            then behind_optional
            else (if has_optional
                then compile_error
                    (codes "Non-optional argument after an optional argument is not allowed.")
                else behind_required)))

module _ {Info : Type 0} (std : Compiler Info) (option_annotation descend_annotation cli : Info)
    (target_of : Info → Target) where
  -- `Argument`'s constructor; `is_variadic` keeps its initializer. `target_of` is what the compiler
  -- instantiates the handler with: the type of the parameter or member, and its constraint.
  unfoldable pub make_argument : ℕ → Info → Argument
  make_argument idx reflection = record {
    index = idx;
    name = std.identifier_of reflection;
    is_optional =
        if std.is_function_parameter reflection
        then std.has_default_argument reflection
        else std.has_default_member_initializer reflection;
    is_variadic = false;
    target = target_of reflection;
  }

  -- `Option`'s constructor.
  unfoldable pub make_option : Bytes → Info → CliOption
  make_option name reflection = record {
    name = name;
    arguments =
        if std.is_object_type (std.type_of reflection)
        then make_argument 0 reflection ∷ []
        else map (λ p. make_argument p.0 p.1) (enumerate (std.parameters_of reflection));
  }

  -- `Spec::Parser::parse_argument`; none where it returns false.
  unfoldable pub parse_argument : Info → SpecParser → Option SpecParser
  parse_argument r parser =
      if not (std.is_nonstatic_data_member r)
      then none
      else (if has_annotation std r option_annotation || has_annotation std r descend_annotation
          then none
          else some (record parser {
            arguments =
                parser.arguments
                ++ (make_argument
                      (length (std.bases_of (std.parent_of r)) + length parser.arguments) r
                    ∷ []);
          }))

  -- `Spec::Parser::parse_command`
  unfoldable pub parse_command : Info → SpecParser → Option SpecParser
  parse_command r parser =
      if (std.is_function r && std.is_static_member r) && has_annotation std r option_annotation
      then some (record parser {
        commands = parser.commands ++ (make_option (std.identifier_of r) r ∷ []);
      })
      else none

  -- `Spec::Parser::parse_option`; the parser comes back as it was where it returns false.
  unfoldable pub parse_option : Info → SpecParser → Compiled SpecParser
  parse_option r parser =
      let added = record parser {
        options = parser.options ++ (make_option (std.identifier_of r) r ∷ []);
      } in
      if not (has_annotation std r option_annotation)
      then compiled parser
      else (if std.is_nonstatic_data_member r
          then (if not (std.has_default_member_initializer r)
              then compile_error (
                  codes "Option "
                  ++ (std.identifier_of r ++ codes " lacks a default member initializer."))
              else compiled added)
          else (if not (std.is_function r) || std.is_static_member r
              then compiled parser
              else compiled added))

  -- A round of `Spec::Parser::parse`.
  unfoldable pub parse_member : Info → SpecParser → Compiled SpecParser
  parse_member member parser =
      if not (std.is_public member) || not (std.has_identifier member)
      then compiled parser
      else elim (parse_argument member parser) [
        | some parser' ↦ compiled parser'
        | none ↦ elim (parse_command member parser) [
          | some parser' ↦ compiled parser'
          | none ↦ parse_option member parser
        ]
      ]

  unfoldable pub parse_members : List Info → SpecParser → Compiled SpecParser
  parse_members [] parser = compiled parser
  parse_members (member ∷ members) parser = do
    parser' ← parse_member member parser
    parse_members members parser'

  unfoldable pub parse_templates : Info → List Info → SpecParser → SpecParser
  parse_templates r [] parser = parser
  parse_templates r (fnc_template ∷ templates) parser =
      parse_templates r templates (elim (std.substitute fnc_template r) [
        | none ↦ parser
        | some fnc ↦
            if has_annotation std fnc option_annotation
            then record parser {
              commands = parser.commands ++ (make_option (std.identifier_of fnc_template) fnc ∷ []);
            }
            else parser
      ])

  -- `Spec::Parser::parse_base`
  unfoldable pub parse_base : Info → SpecParser → SpecParser
  parse_base r parser =
      if is_derived_from std (std.dealias r) cli
      then parse_templates r (filter std.is_function_template (std.members_of cli)) parser
      else parser

  -- `Spec`'s constructor.
  unfoldable pub make_spec : Info → Compiled Spec
  make_spec r =
      let type = if std.is_type r then r else std.type_of r in
      parse_members (std.members_of type) (record { arguments = []; commands = []; options = [] })
      >>= (λ parser.
          let whole = parse_base type parser in
          validate false false whole.arguments >>= (λ valid. compiled (record {
            arguments = whole.arguments;
            commands = whole.commands;
            options = whole.options;
          })))
