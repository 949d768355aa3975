-- ===== src/Util/Tests.antt =====
-- Runs of the helpers, and the theorems at such inputs.
use cpp26_experiments.Base.{◌≡◌, refl, true, some, arith, codes}
use cpp26_experiments.Util.Operators.{to_operator, to_string, op_spaceship, to_operator-to_string}
use cpp26_experiments.Util.Strings.{utos, utos_loop, stou, is_integer, stou-utos}

digits_of_a_number : utos 4294967298 ≡ codes "4294967298"
unfolding utos utos_loop
digits_of_a_number = refl

-- A minus alone counts as an integer.
lone_minus : is_integer (codes "-") ≡ true
unfolding is_integer
lone_minus = refl

stou-utos_example : stou (utos 4294967298) ≡ 2
stou-utos_example = stou-utos 4294967298 (omega arith)

to_operator-to_string_example : to_operator (to_string op_spaceship) ≡ some op_spaceship
to_operator-to_string_example = to_operator-to_string op_spaceship
