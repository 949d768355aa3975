-- ===== src/Expect/Expr.antt =====
-- include/erl/_impl/expect.hpp: `BinaryExpr` and `Placeholder` with their evaluation, their
-- printing, and the transformation of chained comparisons.
use cpp26_experiments.Base.{
  ℕ, Bool, true, false, List, ◌++◌, Option, none, some, ◌>>=◌, Bytes, codes, get_elem?,
}
use cpp26_experiments.Util.Operators.{
  Operators, to_string, op_less, op_less_equals, op_greater, op_greater_equals, op_equals_equals,
  op_exclamation_equals, op_ampersand_ampersand,
}

-- In a binary expression the source's `rhs` comes first and is the operand on the left of the
-- operator; `lhs` is the one on its right.
pub data Expr (V : Type 0) : Type 0 where
  constant : V → Expr V
  placeholder : ℕ → Expr V
  binary : Operators → Expr V → Expr V → Expr V

unfoldable pub is_comparison : Operators → Bool
is_comparison op_less = true
is_comparison op_less_equals = true
is_comparison op_greater = true
is_comparison op_greater_equals = true
is_comparison op_equals_equals = true
is_comparison op_exclamation_equals = true
is_comparison _ = false

abbrev pub parenthesized : Operators → Bytes → Bytes → Bytes
parenthesized op left right =
    codes "(" ++ left ++ codes " " ++ to_string op ++ codes " " ++ right ++ codes ")"

-- `V` has the values of every operand, `apply` is what `eval_operator` does: the C++ operator
-- on operands of these types. A placeholder without an argument does not compile, so that the
-- arguments are a function of the index.
module _ {V : Type 0} where
  unfoldable pub is_binary_comparison : Expr V → Bool
  is_binary_comparison (binary op rhs lhs) = is_comparison op
  is_binary_comparison (constant v) = false
  is_binary_comparison (placeholder i) = false

  unfoldable pub eval : (Operators → V → V → V) → (ℕ → V) → Expr V → V
  eval apply args (constant v) = v
  eval apply args (placeholder i) = args i
  eval apply args (binary op rhs lhs) = apply op (eval apply args rhs) (eval apply args lhs)

  abbrev pub is_constant : Expr V → Bool
  is_constant (constant v) = true
  is_constant (placeholder i) = false
  is_constant (binary op rhs lhs) = false

  -- Both `to_string` functions: `shown` prints a placeholder and `format` a constant. Where both
  -- operands are constants no branch of the source returns, which is none.
  unfoldable pub print : (ℕ → Option Bytes) → (V → Bytes) → Expr V → Option Bytes
  print shown format (constant v) = some (format v)
  print shown format (placeholder i) = shown i
  print shown format (binary op rhs lhs) = do
    left ← print shown format rhs
    right ← print shown format lhs
    elim (is_constant rhs) [
      | true ↦ elim (is_constant lhs) [ true ↦ none | false ↦ some (parenthesized op left right) ]
      | false ↦ some (parenthesized op left right)
    ]

  -- `to_string(args)`
  abbrev pub print_args : (V → Bytes) → (ℕ → V) → Expr V → Option Bytes
  print_args format args e = print (λ i. some (format (args i))) format e

  -- `to_string(replacements)`: an index past the vector's end is undefined.
  abbrev pub print_names : (V → Bytes) → List Bytes → Expr V → Option Bytes
  print_names format replacements e = print (λ i. get_elem? replacements i) format e

  unfoldable pub get_left_most : Expr V → Expr V
  get_left_most (binary op rhs lhs) = get_left_most lhs
  get_left_most (constant v) = constant v
  get_left_most (placeholder i) = placeholder i

  unfoldable pub get_right_most : Expr V → Expr V
  get_right_most (binary op rhs lhs) = get_right_most rhs
  get_right_most (constant v) = constant v
  get_right_most (placeholder i) = placeholder i

  -- The branches of `transform` on a comparison, given what the two operands come to.
  abbrev pub split_chain : Operators → Bool → Bool → (rhs lhs rhs' lhs' : Expr V) → Expr V
  split_chain op true true rhs lhs rhs' lhs' =
      binary op_ampersand_ampersand
        (binary op_ampersand_ampersand rhs' (binary op (get_left_most rhs) (get_right_most lhs)))
        lhs'
  split_chain op true false rhs lhs rhs' lhs' =
      binary op_ampersand_ampersand rhs' (binary op (get_left_most rhs) lhs)
  split_chain op false true rhs lhs rhs' lhs' =
      binary op_ampersand_ampersand (binary op rhs (get_right_most lhs)) lhs'
  split_chain op false false rhs lhs rhs' lhs' = binary op rhs lhs

  unfoldable pub transform : Expr V → Expr V
  transform (constant v) = constant v
  transform (placeholder i) = placeholder i
  transform (binary op rhs lhs) =
      let rhs' = transform rhs in
      let lhs' = transform lhs in
      elim (is_comparison op) [
        | true ↦
            split_chain op (is_binary_comparison rhs) (is_binary_comparison lhs) rhs lhs rhs' lhs'
        | false ↦ binary op rhs lhs
      ]
