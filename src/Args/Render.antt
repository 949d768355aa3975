-- ===== src/Args/Render.antt =====
-- Runs of arguments for the `do_parse` functions of include/erl/_impl/config/args.hpp, and how a
-- parser moves over them.
use cpp26_experiments.Base.{
  ℕ, ◌≡◌, refl, sym, ap₂, subst, ◌⊎◌, inl, inr, ◌==◌, not, Bool, true, false, List, [], ◌∷◌, ◌++◌,
  some, Bytes, length, get_elem?, drop, arith, append_assoc, length-append, append-nil,
}
use cpp26_experiments.Args.Outcome.{done}
use cpp26_experiments.Args.Values.{Value, checked, parse_value, validate}
use cpp26_experiments.Args.Parser.{
  ArgParser, valid, current, advance, Argument, Unevaluated, given, unset, take_argument,
  parse_argument, option_arguments, checked_value, evaluate, positional, check_required,
}

-- A parser between the arguments that it has taken and those ahead.
abbrev pub reading : List Bytes → List Bytes → ArgParser
reading before ahead = record { args = before ++ ahead; cursor = length before }

get_elem?-reading :
    (before ahead : List Bytes) (x : Bytes)
    → get_elem? (before ++ x ∷ ahead) (length before) ≡ some x
get_elem?-reading [] ahead x = refl
get_elem?-reading (y ∷ before) ahead x = get_elem?-reading before ahead x

pub current-reading :
    (before ahead : List Bytes) (x : Bytes) → current (reading before (x ∷ ahead)) ≡ done x
current-reading before ahead x = ground (arith, get_elem?-reading before ahead x)

pub valid-reading :
    (before ahead : List Bytes) (x : Bytes) → valid (reading before (x ∷ ahead)) ≡ true
valid-reading before ahead x = ground (arith, length-append before (x ∷ ahead))

pub valid-end : (before : List Bytes) → valid (reading before []) ≡ false
valid-end before = ground (arith, length-append before [])

pub advance-reading :
    (before ahead : List Bytes) (x : Bytes)
    → advance (reading before (x ∷ ahead)) ≡ reading (before ++ x ∷ []) ahead
advance-reading before ahead x =
    ap₂ (λ (args : List Bytes) (cursor : ℕ). record { args = args; cursor = cursor })
      (sym (append_assoc before (x ∷ []) ahead)) (omega (arith, length-append before (x ∷ [])))

-- A value that is not taken for an option.
abbrev pub plain : Bytes → Bool
plain [] = false
plain (c ∷ text) = not (c == 45)

abbrev pub flag : Bytes → Bytes
flag name = 45 ∷ 45 ∷ name

-- Nothing ahead, or an option.
unfoldable pub IsStop : List Bytes → Type 0
IsStop ahead = (ahead ≡ []) ⊎ ((name : Bytes) × (rest : List Bytes) × (ahead ≡ flag name ∷ rest))

-- A value that the constraint of its argument accepts, if it has one.
abbrev pub Accepted : Argument → Bytes → Type 0
Accepted argument v = validate argument.target (parse_value argument.target.type v) ≡ checked tt

-- Accepted values for the first of the arguments, and the rest of them optional.
abbrev pub Fills : List Argument → List Bytes → Type 0
Fills [] [] = Unit
Fills [] (v ∷ vs) = ⊥
Fills (argument ∷ arguments) [] = (argument.is_optional ≡ true) × Fills arguments []
Fills (argument ∷ arguments) (v ∷ vs) = (plain v ≡ true) × Accepted argument v × Fills arguments vs

-- Values that are not taken for options for the first of the arguments, and the rest of them optional.
abbrev pub Shaped : List Argument → List Bytes → Type 0
Shaped [] [] = Unit
Shaped [] (v ∷ vs) = ⊥
Shaped (argument ∷ arguments) [] = (argument.is_optional ≡ true) × Shaped arguments []
Shaped (argument ∷ arguments) (v ∷ vs) = (plain v ≡ true) × Shaped arguments vs

pub Fills-Shaped :
    (arguments : List Argument) (vs : List Bytes) → Fills arguments vs → Shaped arguments vs
Fills-Shaped [] [] h = tt
Fills-Shaped [] (v ∷ vs) h = absurd h
Fills-Shaped (argument ∷ arguments) [] h = (h.0, Fills-Shaped arguments [] h.1)
Fills-Shaped (argument ∷ arguments) (v ∷ vs) h = (h.0, Fills-Shaped arguments vs h.2)

abbrev pub placed : List Bytes → List Argument → List (ℕ × Value)
placed [] arguments = []
placed (v ∷ vs) [] = []
placed (v ∷ vs) (argument ∷ arguments) =
    (argument.index, parse_value argument.target.type v) ∷ placed vs arguments

abbrev pub givens : List Bytes → List Argument → List Unevaluated
givens [] arguments = []
givens (v ∷ vs) [] = []
givens (v ∷ vs) (argument ∷ arguments) = given argument v ∷ givens vs arguments

parse_argument-plain :
    (argument : Argument) (before ahead : List Bytes) (v : Bytes)
    → plain v ≡ true
    → parse_argument argument (reading before (v ∷ ahead))
      ≡ done (true, given argument v, reading (before ++ v ∷ []) ahead)
unfolding parse_argument take_argument
parse_argument-plain argument before ahead [] h = ground (arith, h)
parse_argument-plain argument before ahead (c ∷ text) h = ground (
  arith,
  h,
  valid-reading before ahead (c ∷ text),
  current-reading before ahead (c ∷ text),
  advance-reading before ahead (c ∷ text),
)

parse_argument-IsStop :
    (argument : Argument) (before ahead : List Bytes)
    → IsStop ahead
    → parse_argument argument (reading before ahead) ≡ done (false, unset, reading before ahead)
unfolding parse_argument take_argument IsStop
parse_argument-IsStop argument before ahead (inl e) =
    subst
      (λ (xs : List Bytes).
        parse_argument argument (reading before xs) ≡ done (false, unset, reading before xs))
      (sym e) (rw (valid-end before) refl)
parse_argument-IsStop argument before ahead (inr (name, rest, e)) =
    subst
      (λ (xs : List Bytes).
        parse_argument argument (reading before xs) ≡ done (false, unset, reading before xs))
      (sym e)
      (ground
        (arith, valid-reading before rest (flag name), current-reading before rest (flag name)))

pub option_arguments-Fills :
    (arg_name : Bytes) (arguments : List Argument) (before vs ahead : List Bytes)
    → Fills arguments vs
    → IsStop ahead
    → option_arguments arg_name arguments (reading before (vs ++ ahead))
      ≡ done (givens vs arguments, reading (before ++ vs) ahead)
unfolding option_arguments
option_arguments-Fills arg_name [] before [] ahead h stop = rw (append-nil before) refl
option_arguments-Fills arg_name [] before (v ∷ vs) ahead h stop = absurd h
option_arguments-Fills arg_name (argument ∷ arguments) before [] ahead h stop =
    rw (parse_argument-IsStop argument before ahead stop) (
      ground (
        arith,
        h.0,
        option_arguments-Fills arg_name arguments before [] ahead h.1 stop,
        append-nil before,
      ))
option_arguments-Fills arg_name (argument ∷ arguments) before (v ∷ vs) ahead h stop = ground (
  arith,
  parse_argument-plain argument before (vs ++ ahead) v h.0,
  option_arguments-Fills arg_name arguments (before ++ v ∷ []) vs ahead h.2 stop,
  append_assoc before (v ∷ []) vs,
)

pub positional-Shaped :
    (arguments : List Argument) (before vs ahead : List Bytes)
    → Shaped arguments vs
    → IsStop ahead
    → positional arguments (reading before (vs ++ ahead))
      ≡ done (givens vs arguments, reading (before ++ vs) ahead)
unfolding positional
positional-Shaped [] before [] ahead h stop = rw (append-nil before) refl
positional-Shaped [] before (v ∷ vs) ahead h stop = absurd h
positional-Shaped (argument ∷ arguments) before [] ahead h stop =
    ground (arith, parse_argument-IsStop argument before ahead stop, append-nil before)
positional-Shaped (argument ∷ arguments) before (v ∷ vs) ahead h stop = ground (
  arith,
  parse_argument-plain argument before (vs ++ ahead) v h.0,
  positional-Shaped arguments (before ++ v ∷ []) vs ahead h.1 stop,
  append_assoc before (v ∷ []) vs,
)

pub evaluate-givens :
    (arguments : List Argument) (vs : List Bytes)
    → Fills arguments vs
    → evaluate (givens vs arguments) ≡ done (placed vs arguments)
unfolding evaluate checked_value
evaluate-givens arguments [] h = refl
evaluate-givens [] (v ∷ vs) h = absurd h
evaluate-givens (argument ∷ arguments) (v ∷ vs) h =
    ground (arith, h.1, evaluate-givens arguments vs h.2)

pub check_required-Fills :
    (arguments : List Argument) (vs : List Bytes)
    → Fills arguments vs
    → check_required (drop (length (givens vs arguments)) arguments) ≡ done tt
unfolding check_required
check_required-Fills [] [] h = refl
check_required-Fills [] (v ∷ vs) h = absurd h
check_required-Fills (argument ∷ arguments) [] h = rw h.0 (check_required-Fills arguments [] h.1)
check_required-Fills (argument ∷ arguments) (v ∷ vs) h = check_required-Fills arguments vs h.2
