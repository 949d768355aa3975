-- ===== src/Args/Lookup.antt =====
-- Which option takes an argument: the fold over the options in `parse_args` of
-- include/erl/_impl/config/args.hpp.
use cpp26_experiments.Base.{
  ◌≡◌, refl, subst, true, false, List, [], ◌∷◌, ◌++◌, Option, none, some, Bytes, bytes_eq, arith,
  append_assoc, inl, inr, Bool-cases,
}
use cpp26_experiments.Args.Outcome.{done}
use cpp26_experiments.Args.Parser.{CliOption, parse_option, first_option}
use cpp26_experiments.Args.Render.{
  reading, current-reading, advance-reading, flag, IsStop, Fills, givens, option_arguments-Fills,
}

-- The first option of that name.
abbrev pub lookup : List CliOption → Bytes → Option CliOption
lookup [] name = none
lookup (option ∷ options) name = elim (bytes_eq name option.name) [
  | true ↦ some option
  | false ↦ lookup options name
]

pub first_option-none :
    (options : List CliOption) (name : Bytes) (before ahead : List Bytes)
    → lookup options name ≡ none
    → first_option options (reading before (flag name ∷ ahead))
      ≡ done (none, reading before (flag name ∷ ahead))
unfolding first_option parse_option
first_option-none [] name before ahead h = refl
first_option-none (option ∷ options) name before ahead h =
    elim (Bool-cases (bytes_eq name option.name)) [
      | inl e ↦ ground (arith, e, h)
      | inr e ↦ ground (
        arith,
        e,
        h,
        current-reading before ahead (flag name),
        first_option-none options name before ahead,
      )
    ]

parse_option-found :
    (option : CliOption) (name : Bytes) (before vs ahead : List Bytes)
    → bytes_eq name option.name ≡ true
    → Fills option.arguments vs
    → IsStop ahead
    → parse_option option (reading before (flag name ∷ (vs ++ ahead)))
      ≡ done (some (givens vs option.arguments), reading (before ++ flag name ∷ vs) ahead)
unfolding parse_option
parse_option-found option name before vs ahead e fills stop = ground (
  arith,
  e,
  current-reading before (vs ++ ahead) (flag name),
  advance-reading before (vs ++ ahead) (flag name),
  option_arguments-Fills name option.arguments (before ++ flag name ∷ []) vs ahead fills stop,
  append_assoc before (flag name ∷ []) vs,
)

parse_option-other :
    (option : CliOption) (name : Bytes) (before ahead : List Bytes)
    → bytes_eq name option.name ≡ false
    → parse_option option (reading before (flag name ∷ ahead))
      ≡ done (none, reading before (flag name ∷ ahead))
unfolding parse_option
parse_option-other option name before ahead e =
    ground (arith, e, current-reading before ahead (flag name))

lookup-at :
    (other : CliOption) (options : List CliOption) (option : CliOption) (name : Bytes)
    → bytes_eq name other.name ≡ true
    → lookup (other ∷ options) name ≡ some option
    → other ≡ option
lookup-at other options option name e h = ground (arith, e, h)

lookup-past :
    (other : CliOption) (options : List CliOption) (option : CliOption) (name : Bytes)
    → bytes_eq name other.name ≡ false
    → lookup (other ∷ options) name ≡ some option
    → lookup options name ≡ some option
lookup-past other options option name e h = ground (arith, e, h)

first_option-at :
    (other : CliOption) (options : List CliOption) (option : CliOption) (name : Bytes)
    (before vs ahead : List Bytes)
    → other ≡ option
    → bytes_eq name other.name ≡ true
    → Fills option.arguments vs
    → IsStop ahead
    → first_option (other ∷ options) (reading before (flag name ∷ (vs ++ ahead)))
      ≡ done
          (some (option.name, givens vs option.arguments), reading (before ++ flag name ∷ vs) ahead)
unfolding first_option
first_option-at other options option name before vs ahead same e fills stop =
    subst
      (λ (o : CliOption).
        Fills o.arguments vs
        → first_option (other ∷ options) (reading before (flag name ∷ (vs ++ ahead)))
          ≡ done (some (o.name, givens vs o.arguments), reading (before ++ flag name ∷ vs) ahead))
      same (λ fills'. ground (arith, parse_option-found other name before vs ahead e fills' stop))
      fills

pub first_option-found :
    (options : List CliOption) (option : CliOption) (name : Bytes) (before vs ahead : List Bytes)
    → lookup options name ≡ some option
    → Fills option.arguments vs
    → IsStop ahead
    → first_option options (reading before (flag name ∷ (vs ++ ahead)))
      ≡ done
          (some (option.name, givens vs option.arguments), reading (before ++ flag name ∷ vs) ahead)
unfolding first_option
first_option-found [] option name before vs ahead h fills stop = ground (arith, h)
first_option-found (other ∷ options) option name before vs ahead h fills stop =
    elim (Bool-cases (bytes_eq name other.name)) [
      | inl e ↦
          first_option-at other options option name before vs ahead
            (lookup-at other options option name e h) e fills stop
      | inr e ↦ ground (
        arith,
        parse_option-other other name before (vs ++ ahead) e,
        first_option-found options option name before vs ahead
            (lookup-past other options option name e h) fills stop,
      )
    ]
