-- ===== src/Expect/Evaluate.antt =====
-- include/erl/_impl/expect.hpp: `eval_operator`, on operands that are an `unsigned` or a `bool`, and `expect`.
use cpp26_experiments.Base.{
  ℕ, ◌+◌, ◌-◌, ◌*◌, ◌/◌, ◌%◌, ◌^◌, ◌==◌, ltb, leb, Bool, true, false, not, ◌&&◌, ◌||◌, [], ◌∷◌,
  Option, Bytes, bit_and, bit_or, bit_xor, if◌then◌else◌,
}
use cpp26_experiments.Util.Operators.{Operators}
use cpp26_experiments.Expect.Expr.{Expr, constant, placeholder, binary, transform, print_names}

-- An operand, or what an evaluation comes to: an `unsigned`, a `bool`, a value of some other type
-- (the `int` of an arithmetic on two `bool`s, an ordering, nothing), or undefined behaviour.
pub data Operand : Type 0 where
  number : ℕ → Operand
  truth : Bool → Operand
  other_type : Operand
  undefined : Operand

abbrev pub of_bool : Bool → ℕ
of_bool true = 1
of_bool false = 0

-- The conversion of an operand to `unsigned`, where it has one.
abbrev pub as_number : Operand → ℕ
as_number (number n) = n
as_number (truth b) = of_bool b
as_number other_type = 0
as_number undefined = 0

abbrev pub nonzero : ℕ → Operand → Operand
nonzero rhs result = if rhs == 0 then undefined else result

-- A shift by the width or more is undefined.
abbrev pub in_width : ℕ → Operand → Operand
in_width rhs result = if ltb rhs 32 then result else undefined

-- Two `bool`s are promoted to `int`, an `unsigned` with either is an `unsigned`.
abbrev pub arithmetic : Operand → Operand → ℕ → Operand
arithmetic (truth a) (truth b) result = other_type
arithmetic lhs rhs result = number result

-- A shift has the type of its promoted left operand.
abbrev pub shifted : Operand → ℕ → Operand
shifted (truth a) result = other_type
shifted lhs result = number result

abbrev pub compare_with : (ℕ → ℕ → Bool) → Operand → Operand → Operand
compare_with test lhs rhs = truth (test (as_number lhs) (as_number rhs))

abbrev pub is_true : Operand → Bool
is_true operand = not (as_number operand == 0)

-- The operators on operands that are an `unsigned` or a `bool`. An assignment and a comma return a
-- reference to a parameter that is gone; an operator without a branch returns nothing.
unfoldable pub eval_operator : Operators → Operand → Operand → Operand
eval_operator Operators.op_plus lhs rhs =
    arithmetic lhs rhs ((as_number lhs + as_number rhs) % 2 ^ 32)
eval_operator Operators.op_minus lhs rhs =
    arithmetic lhs rhs ((as_number lhs + (2 ^ 32 - as_number rhs)) % 2 ^ 32)
eval_operator Operators.op_star lhs rhs =
    arithmetic lhs rhs (as_number lhs * as_number rhs % 2 ^ 32)
eval_operator Operators.op_slash lhs rhs =
    nonzero (as_number rhs) (arithmetic lhs rhs (as_number lhs / as_number rhs))
eval_operator Operators.op_percent lhs rhs =
    nonzero (as_number rhs) (arithmetic lhs rhs (as_number lhs % as_number rhs))
eval_operator Operators.op_caret lhs rhs =
    arithmetic lhs rhs (bit_xor (as_number lhs) (as_number rhs))
eval_operator Operators.op_ampersand lhs rhs =
    arithmetic lhs rhs (bit_and (as_number lhs) (as_number rhs))
eval_operator Operators.op_pipe lhs rhs =
    arithmetic lhs rhs (bit_or (as_number lhs) (as_number rhs))
eval_operator Operators.op_equals lhs rhs = undefined
eval_operator Operators.op_plus_equals lhs rhs = undefined
eval_operator Operators.op_minus_equals lhs rhs = undefined
eval_operator Operators.op_star_equals lhs rhs = undefined
eval_operator Operators.op_slash_equals lhs rhs = undefined
eval_operator Operators.op_percent_equals lhs rhs = undefined
eval_operator Operators.op_caret_equals lhs rhs = undefined
eval_operator Operators.op_ampersand_equals lhs rhs = undefined
eval_operator Operators.op_pipe_equals lhs rhs = undefined
eval_operator Operators.op_equals_equals lhs rhs = compare_with ◌==◌ lhs rhs
eval_operator Operators.op_exclamation_equals lhs rhs = compare_with (λ a b. not (a == b)) lhs rhs
eval_operator Operators.op_less lhs rhs = compare_with ltb lhs rhs
eval_operator Operators.op_greater lhs rhs = compare_with (λ a b. ltb b a) lhs rhs
eval_operator Operators.op_less_equals lhs rhs = compare_with leb lhs rhs
eval_operator Operators.op_greater_equals lhs rhs = compare_with (λ a b. leb b a) lhs rhs
eval_operator Operators.op_ampersand_ampersand lhs rhs = truth (is_true lhs && is_true rhs)
eval_operator Operators.op_pipe_pipe lhs rhs = truth (is_true lhs || is_true rhs)
eval_operator Operators.op_less_less lhs rhs =
    in_width (as_number rhs) (shifted lhs (as_number lhs * 2 ^ as_number rhs % 2 ^ 32))
eval_operator Operators.op_greater_greater lhs rhs =
    in_width (as_number rhs) (shifted lhs (as_number lhs / 2 ^ as_number rhs))
eval_operator Operators.op_less_less_equals lhs rhs = undefined
eval_operator Operators.op_greater_greater_equals lhs rhs = undefined
eval_operator Operators.op_comma lhs rhs = undefined
eval_operator _ lhs rhs = other_type

-- `eval_operator` where an operand may be undefined, or of a type that is not modelled, already.
abbrev pub lifted : Operators → Operand → Operand → Operand
lifted op undefined rhs = undefined
lifted op other_type rhs = other_type
lifted op (number l) undefined = undefined
lifted op (number l) other_type = other_type
lifted op (number l) (number r) = eval_operator op (number l) (number r)
lifted op (number l) (truth r) = eval_operator op (number l) (truth r)
lifted op (truth l) undefined = undefined
lifted op (truth l) other_type = other_type
lifted op (truth l) (number r) = eval_operator op (truth l) (number r)
lifted op (truth l) (truth r) = eval_operator op (truth l) (truth r)

module _ {V : Type 0} where
  -- `Expect::transform`, and `expect`: only an operator's term has something to transform.
  unfoldable pub expect : Expr V → Expr V
  expect (constant v) = constant v
  expect (placeholder i) = placeholder i
  expect (binary op rhs lhs) = transform (binary op rhs lhs)

  -- `Expect::to_string`
  unfoldable pub constraint_text : (V → Bytes) → Bytes → Expr V → Option Bytes
  constraint_text format replacement e = print_names format (replacement ∷ []) e
