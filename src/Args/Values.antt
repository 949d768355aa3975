-- ===== src/Args/Values.antt =====
-- include/erl/_impl/config/args.hpp: what becomes of an argument's text.
use cpp26_experiments.Base.{
  ℕ, ◌%◌, ◌^◌, ◌==◌, Bool, List, [], ◌∷◌, ◌++◌, map, Option, none, some, Bytes, codes, set,
  replicate, if◌then◌else◌,
}
use cpp26_experiments.Util.Strings.{stou}
use cpp26_experiments.Logging.Color.{make_ansi_code}
use cpp26_experiments.Args.Construct.{Built, built, undefined, default_invoke}

-- The types that `parse_value` tells apart: `bool`, an integer of a number of bits, and one that is
-- made from a text.
pub data ValueType : Type 0 where
  bool_type : ValueType
  integer_type : ℕ → ValueType
  text_type : ValueType

pub data Value : Type 0 where
  integer : ℕ → Value
  text : Bytes → Value

-- The conversion of what `stou` returns: a signed integer is its two's complement.
unfoldable pub parse_value : ValueType → Bytes → Value
parse_value bool_type value = integer (if stou value == 0 then 0 else 1)
parse_value (integer_type width) value = integer (stou value % 2 ^ width)
parse_value text_type value = text value

-- A constraint, as what its `eval_verbose` returns and the terms that fail.
abbrev pub Constraint : Type 0
Constraint = Value → Bool × List Bytes

-- A parameter or member that an argument stands for.
pub record Target : Type 0 where
  pub name : Bytes
  pub parent : Bytes
  pub type : ValueType
  pub constraint : Option Constraint

-- A value, or what is printed before `std::exit(1)`.
pub data Checked {ℓ} (A : Type ℓ) : Type ℓ where
  checked : A → Checked A
  failed : List Bytes → Checked A

-- `std::views::reverse`, onto a list.
unfoldable pub reverse_onto : List Bytes → List Bytes → List Bytes
reverse_onto done [] = done
reverse_onto done (x ∷ xs) = reverse_onto (x ∷ done) xs

-- A failed term, in blue and red.
unfoldable pub failed_line : Bytes → Bytes
failed_line term =
    codes "    => "
    ++ (make_ansi_code 34
        ++ (term
            ++ (make_ansi_code 0
                ++ (codes " evaluated to "
                    ++ (make_ansi_code 31 ++ (codes "false" ++ make_ansi_code 0))))))

-- `Argument::Unevaluated::validate`
unfoldable pub validate : Target → Value → Checked (Unit {0})
validate target value = elim target.constraint [
  | none ↦ checked tt
  | some constraint ↦
      if (constraint value).0
      then checked tt
      else failed (
          (codes "Validation failed for argument `"
            ++ (target.name ++ (codes "` of `" ++ (target.parent ++ codes "`"))))
          ∷ map failed_line (reverse_onto [] (constraint value).1))
]

-- `Argument::Unevaluated::do_handle`, on the tuple of arguments.
unfoldable pub do_handle : ℕ → Target → Bytes → List (Option Value) → Checked (List (Option Value))
do_handle idx target argument arguments =
    let value = parse_value target.type argument in
    elim (validate target value) [
      | failed lines ↦ failed lines
      | checked valid ↦ checked (set arguments idx (some value))
    ]

-- The loop of `Option::Unevaluated::do_handle` over the arguments of an option.
unfoldable pub handle_all :
    List (ℕ × (Target × Bytes)) → List (Option Value) → Checked (List (Option Value))
handle_all [] arguments = checked arguments
handle_all ((idx, (target, argument)) ∷ given) arguments =
    elim (do_handle idx target argument arguments) [
      | failed lines ↦ failed lines
      | checked arguments' ↦ handle_all given arguments'
    ]

-- What an option's handler is: a member function, with the number of parameters that it needs, or a
-- data member. `S` is the state of the object.
pub data OptionTarget (S : Type 0) : Type 0 where
  method : ℕ → (List Value → S → S) → OptionTarget S
  data_member : (Value → S → S) → OptionTarget S

unfoldable pub call_handler : {S : Type 0} → OptionTarget S → List (Option Value) → S → Built S
call_handler (method required fnc) arg_tuple obj =
    default_invoke (λ values. fnc values obj) required arg_tuple
call_handler (data_member assign) [] obj = undefined
call_handler (data_member assign) (none ∷ arg_tuple) obj = undefined
call_handler (data_member assign) (some value ∷ arg_tuple) obj = built (assign value obj)

-- `Option::Unevaluated::do_handle`, of `count` parameters.
unfoldable pub handle_option :
    {S : Type 0} → OptionTarget S → ℕ → List (ℕ × (Target × Bytes)) → S → Checked (Built S)
handle_option target count given obj = elim (handle_all given (replicate count none)) [
  | failed lines ↦ failed lines
  | checked arg_tuple ↦ checked (call_handler target arg_tuple obj)
]
