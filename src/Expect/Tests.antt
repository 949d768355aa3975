-- ===== src/Expect/Tests.antt =====
-- Runs of the expectations, and the theorems at such inputs. The values are numbers, true if not 0.
use cpp26_experiments.Base.{
  ℕ, ◌+◌, ◌-◌, ◌≡◌, refl, not, Bool, true, false, ◌&&◌, ◌==◌, ltb, leb, [], ◌∷◌, none, some, arith,
  codes, Bytes,
}
use cpp26_experiments.Util.Operators.{
  Operators, op_less, op_less_equals, op_plus, op_minus, op_star, op_equals_equals,
  op_ampersand_ampersand, to_string,
}
use cpp26_experiments.Expect.Expr.{
  Expr, constant, placeholder, binary, eval, transform, print_args, print, get_left_most,
  is_comparison, is_binary_comparison,
}
use cpp26_experiments.Expect.Verbose.{eval_verbose, eval_verbose-eval}
use cpp26_experiments.Expect.Evaluate.{Operand, number, other_type, lifted, eval_operator}
use cpp26_experiments.Expect.Chain.{transform-IsChain}

abbrev flag : Bool → ℕ
flag true = 1
flag false = 0

abbrev truthy : ℕ → Bool
truthy v = not (v == 0)

abbrev apply : Operators → ℕ → ℕ → ℕ
apply op_less a b = flag (ltb a b)
apply op_less_equals a b = flag (leb a b)
apply op_equals_equals a b = flag (a == b)
apply op_plus a b = a + b
apply op_minus a b = a - b
apply op_ampersand_ampersand a b = flag (truthy a && truthy b)
apply _ a b = 0

apply-and : (a b : ℕ) → truthy (apply op_ampersand_ampersand a b) ≡ (truthy a && truthy b)
apply-and a b = ground arith

abbrev args : ℕ → ℕ
args i = 7

-- `0 < _0 <= 9`
abbrev bounded : Expr ℕ
bounded = binary op_less_equals (binary op_less (constant 0) (placeholder 0)) (constant 9)

transform-IsChain_example : truthy (eval apply args (transform bounded)) ≡ true
unfolding is_comparison eval
transform-IsChain_example =
    transform-IsChain apply truthy args apply-and op_less_equals
      (binary op_less (constant 0) (placeholder 0)) (constant 9) (refl, (refl, tt, tt), tt)

abbrev digit : ℕ → Bytes
digit v = (48 + v) ∷ []

-- `_0 < 5`
abbrev small : Expr ℕ
small = binary op_less (placeholder 0) (constant 5)

eval_verbose-eval_example :
    eval_verbose apply truthy digit args small []
    ≡ some (eval apply args small, codes "(7 < 5)" ∷ [])
unfolding eval to_string
eval_verbose-eval_example = eval_verbose-eval apply truthy digit args small [] (tt, tt, refl)

-- `_0 < _1 + 1 < _2`: the operand taken over is the 1 of the sum.
abbrev sum : Expr ℕ
sum = binary op_plus (placeholder 1) (constant 1)

sum_in_chain :
    transform (binary op_less (binary op_less (placeholder 0) sum) (placeholder 2))
    ≡ binary op_ampersand_ampersand
        (binary op_less (placeholder 0) sum)
        (binary op_less (constant 1) (placeholder 2))
unfolding transform get_left_most is_comparison is_binary_comparison
sum_in_chain = refl

-- `_0 < 1 < 2`: the second comparison of the transformed chain has no printable operand.
two_constants :
    print_args digit args
      (transform (binary op_less (binary op_less (placeholder 0) (constant 1)) (constant 2)))
    ≡ none
unfolding transform get_left_most is_comparison is_binary_comparison print
two_constants = refl

-- `_0 - _1 < 1`, where both are 7: the expectation holds, and the difference, 0, is recorded.
zero_difference :
    eval_verbose apply truthy digit args
      (binary op_less (binary op_minus (placeholder 0) (placeholder 1)) (constant 1))
      []
    ≡ some (1, codes "(7 - 7)" ∷ [])
unfolding eval_verbose print to_string
zero_difference = refl

-- `_0 * 3 + 1`, of 32 bits.
abbrev scaled : Expr Operand
scaled = binary op_plus (binary op_star (placeholder 0) (constant (number 3))) (constant (number 1))

scaled_wraps : eval lifted (λ _. number 4294967295) scaled ≡ number 4294967294
unfolding eval eval_operator
scaled_wraps = refl

-- `(_0 < 2) - (_0 < 9)`: the difference of two truths is an `int`.
truths_subtracted :
    eval lifted
      (λ _. number 7)
      (binary op_minus
        (binary op_less (placeholder 0) (constant (number 2)))
        (binary op_less (placeholder 0) (constant (number 9))))
    ≡ other_type
unfolding eval eval_operator
truths_subtracted = refl
