-- ===== src/Util/Operators.antt =====
-- include/erl/_impl/util/operators.hpp: the operators of the meta library and their spellings.
use cpp26_experiments.Base.{
  ℕ, ◌≡◌, refl, ◌==◌, true, false, List, [], ◌∷◌, Option, none, some, Bytes, codes,
}
use cpp26_experiments.Util.Hash.{hash, absorb, mix}

pub data Operators : Type 0 where
  op_new : Operators
  op_delete : Operators
  op_array_new : Operators
  op_array_delete : Operators
  op_co_await : Operators
  op_parentheses : Operators
  op_square_brackets : Operators
  op_arrow : Operators
  op_arrow_star : Operators
  op_tilde : Operators
  op_exclamation : Operators
  op_plus : Operators
  op_minus : Operators
  op_star : Operators
  op_slash : Operators
  op_percent : Operators
  op_caret : Operators
  op_ampersand : Operators
  op_pipe : Operators
  op_equals : Operators
  op_plus_equals : Operators
  op_minus_equals : Operators
  op_star_equals : Operators
  op_slash_equals : Operators
  op_percent_equals : Operators
  op_caret_equals : Operators
  op_ampersand_equals : Operators
  op_pipe_equals : Operators
  op_equals_equals : Operators
  op_exclamation_equals : Operators
  op_less : Operators
  op_greater : Operators
  op_less_equals : Operators
  op_greater_equals : Operators
  op_spaceship : Operators
  op_ampersand_ampersand : Operators
  op_pipe_pipe : Operators
  op_less_less : Operators
  op_greater_greater : Operators
  op_less_less_equals : Operators
  op_greater_greater_equals : Operators
  op_plus_plus : Operators
  op_minus_minus : Operators
  op_comma : Operators

unfoldable pub to_string : Operators → Bytes
to_string op_new = codes "new"
to_string op_delete = codes "delete"
to_string op_array_new = codes "new[]"
to_string op_array_delete = codes "delete[]"
to_string op_co_await = codes "co_await"
to_string op_parentheses = codes "()"
to_string op_square_brackets = codes "[]"
to_string op_arrow = codes "->"
to_string op_arrow_star = codes "->*"
to_string op_tilde = codes "~"
to_string op_exclamation = codes "!"
to_string op_plus = codes "+"
to_string op_minus = codes "-"
to_string op_star = codes "*"
to_string op_slash = codes "/"
to_string op_percent = codes "%"
to_string op_caret = codes "^"
to_string op_ampersand = codes "&"
to_string op_pipe = codes "|"
to_string op_equals = codes "="
to_string op_plus_equals = codes "+="
to_string op_minus_equals = codes "-="
to_string op_star_equals = codes "*="
to_string op_slash_equals = codes "/="
to_string op_percent_equals = codes "%="
to_string op_caret_equals = codes "^="
to_string op_ampersand_equals = codes "&="
to_string op_pipe_equals = codes "|="
to_string op_equals_equals = codes "=="
to_string op_exclamation_equals = codes "!="
to_string op_less = codes "<"
to_string op_greater = codes ">"
to_string op_less_equals = codes "<="
to_string op_greater_equals = codes ">="
to_string op_spaceship = codes "<=>"
to_string op_ampersand_ampersand = codes "&&"
to_string op_pipe_pipe = codes "||"
to_string op_less_less = codes "<<"
to_string op_greater_greater = codes ">>"
to_string op_less_less_equals = codes "<<="
to_string op_greater_greater_equals = codes ">>="
to_string op_plus_plus = codes "++"
to_string op_minus_minus = codes "--"
to_string op_comma = codes ","

-- The labels of the `switch` in `to_operator`, in their order.
abbrev pub labels : List (Bytes × Operators)
labels =
    (codes "new", op_new)
    ∷ (codes "delete", op_delete)
    ∷ (codes "new[]", op_array_new)
    ∷ (codes "delete[]", op_array_delete)
    ∷ (codes "co_await", op_co_await)
    ∷ (codes "()", op_parentheses)
    ∷ (codes "[]", op_square_brackets)
    ∷ (codes "->", op_arrow)
    ∷ (codes "->*", op_arrow_star)
    ∷ (codes "~", op_tilde)
    ∷ (codes "!", op_exclamation)
    ∷ (codes "+", op_plus)
    ∷ (codes "-", op_minus)
    ∷ (codes "*", op_star)
    ∷ (codes "/", op_slash)
    ∷ (codes "%", op_percent)
    ∷ (codes "^", op_caret)
    ∷ (codes "&", op_ampersand)
    ∷ (codes "|", op_pipe)
    ∷ (codes "=", op_equals)
    ∷ (codes "+=", op_plus_equals)
    ∷ (codes "-=", op_minus_equals)
    ∷ (codes "*=", op_star_equals)
    ∷ (codes "/=", op_slash_equals)
    ∷ (codes "%=", op_percent_equals)
    ∷ (codes "^=", op_caret_equals)
    ∷ (codes "&=", op_ampersand_equals)
    ∷ (codes "|=", op_pipe_equals)
    ∷ (codes "==", op_equals_equals)
    ∷ (codes "!=", op_exclamation_equals)
    ∷ (codes "<", op_less)
    ∷ (codes ">", op_greater)
    ∷ (codes "<=", op_less_equals)
    ∷ (codes ">=", op_greater_equals)
    ∷ (codes "<=>", op_spaceship)
    ∷ (codes "&&", op_ampersand_ampersand)
    ∷ (codes "||", op_pipe_pipe)
    ∷ (codes "<<", op_less_less)
    ∷ (codes ">>", op_greater_greater)
    ∷ (codes "<<=", op_less_less_equals)
    ∷ (codes ">>=", op_greater_greater_equals)
    ∷ (codes "++", op_plus_plus)
    ∷ (codes "--", op_minus_minus)
    ∷ (codes ",", op_comma)
    ∷ []

unfoldable pub find_label : ℕ → List (Bytes × Operators) → Option Operators
find_label value [] = none
find_label value (label ∷ rest) = elim (value == hash label.0) [
  | true ↦ some label.1
  | false ↦ find_label value rest
]

-- The `switch` compares hashes; none is the value-initialized result where no label has the hash.
unfoldable pub to_operator : Bytes → Option Operators
to_operator text = find_label (hash text) labels

-- An operator's spelling is read back as that operator: no label above it has the same hash.
pub to_operator-to_string : (op : Operators) → to_operator (to_string op) ≡ some op
unfolding to_operator find_label to_string hash absorb mix
to_operator-to_string op_new = refl
to_operator-to_string op_delete = refl
to_operator-to_string op_array_new = refl
to_operator-to_string op_array_delete = refl
to_operator-to_string op_co_await = refl
to_operator-to_string op_parentheses = refl
to_operator-to_string op_square_brackets = refl
to_operator-to_string op_arrow = refl
to_operator-to_string op_arrow_star = refl
to_operator-to_string op_tilde = refl
to_operator-to_string op_exclamation = refl
to_operator-to_string op_plus = refl
to_operator-to_string op_minus = refl
to_operator-to_string op_star = refl
to_operator-to_string op_slash = refl
to_operator-to_string op_percent = refl
to_operator-to_string op_caret = refl
to_operator-to_string op_ampersand = refl
to_operator-to_string op_pipe = refl
to_operator-to_string op_equals = refl
to_operator-to_string op_plus_equals = refl
to_operator-to_string op_minus_equals = refl
to_operator-to_string op_star_equals = refl
to_operator-to_string op_slash_equals = refl
to_operator-to_string op_percent_equals = refl
to_operator-to_string op_caret_equals = refl
to_operator-to_string op_ampersand_equals = refl
to_operator-to_string op_pipe_equals = refl
to_operator-to_string op_equals_equals = refl
to_operator-to_string op_exclamation_equals = refl
to_operator-to_string op_less = refl
to_operator-to_string op_greater = refl
to_operator-to_string op_less_equals = refl
to_operator-to_string op_greater_equals = refl
to_operator-to_string op_spaceship = refl
to_operator-to_string op_ampersand_ampersand = refl
to_operator-to_string op_pipe_pipe = refl
to_operator-to_string op_less_less = refl
to_operator-to_string op_greater_greater = refl
to_operator-to_string op_less_less_equals = refl
to_operator-to_string op_greater_greater_equals = refl
to_operator-to_string op_plus_plus = refl
to_operator-to_string op_minus_minus = refl
to_operator-to_string op_comma = refl
