-- ===== src/Args/Required.antt =====
-- The arguments that `parse_args` of include/erl/_impl/config/args.hpp returns with.
use cpp26_experiments.Base.{
  ℕ, suc, ◌==◌, ◌≡◌, refl, sym, ap, subst, Bool, true, false, List, [], ◌∷◌, Bytes, length, take,
  drop, map, arith, All, Bool-cases, inl, inr, ◌⊎◌,
}
use cpp26_experiments.Args.Outcome.{done}
use cpp26_experiments.Args.Parser.{
  ArgParser, valid, current, Argument, Spec, Unevaluated, given, unset, take_argument,
  parse_argument, positional, checked_value, evaluate, check_required, option_loop, run_options,
  Parsed, parse_args,
}
use cpp26_experiments.Args.Values.{Value}
use cpp26_experiments.Args.Progress.{bind_done, Outcome-cases}

-- What stands for an argument goes to its place.
abbrev For : Unevaluated → Argument → Type 0
For v a = (v ≡ unset) ⊎ ((text : Bytes) × (v ≡ given a text))

abbrev Served : List Unevaluated → List Argument → Type 0
Served [] arguments = Unit
Served (v ∷ vs) [] = ⊥
Served (v ∷ vs) (a ∷ arguments) = For v a × Served vs arguments

take_argument_lem :
    (a : Argument) (text : Bytes) (p p' : ArgParser) (b : Bool) (v : Unevaluated)
    → take_argument a text p ≡ done (b, v, p')
    → For v a
unfolding take_argument
take_argument_lem a [] p p' b v e = cc
take_argument_lem a (c ∷ []) p p' b v e = elim (Bool-cases (c == 45)) [
  | inl t ↦ inl (ground (arith, e, t))
  | inr f ↦ inr (c ∷ [], ground (arith, e, f))
]
take_argument_lem a (c ∷ (d ∷ text)) p p' b v e = elim (Bool-cases (c == 45)) [
  | inl t ↦ inl (ground (arith, e, t))
  | inr f ↦ inr (c ∷ (d ∷ text), ground (arith, e, f))
]

parse_argument_lem :
    (a : Argument) (p p' : ArgParser) (b : Bool) (v : Unevaluated)
    → parse_argument a p ≡ done (b, v, p')
    → For v a
unfolding parse_argument
parse_argument_lem a p p' b v e = elim (Bool-cases (valid p)) [
  | inr f ↦ inl (ground (arith, e, f))
  | inl t ↦ elim (Outcome-cases (current p)) [
    | inl (text, c) ↦ take_argument_lem a text p p' b v (ground (arith, e, t, c))
    | inr (inl (f, c)) ↦ absurd (ground (arith, e, t, c))
    | inr (inr c) ↦ absurd (ground (arith, e, t, c))
  ]
]

positional_lem :
    (arguments : List Argument) (p p' : ArgParser) (vs : List Unevaluated)
    → positional arguments p ≡ done (vs, p')
    → Served vs arguments
unfolding positional
positional_lem [] p p' vs e =
    let none_left : [] ≡ vs = ground (arith, e) in
    subst (λ (x : List Unevaluated). Served x []) none_left tt
positional_lem (a ∷ arguments) p p' vs e = elim (Outcome-cases (parse_argument a p)) [
  | inr (inl (f, c)) ↦ absurd (ground (arith, e, c))
  | inr (inr c) ↦ absurd (ground (arith, e, c))
  | inl ((false, v, q), c) ↦
      let none_left : [] ≡ vs = ground (arith, e, c) in
      subst (λ (x : List Unevaluated). Served x (a ∷ arguments)) none_left tt
  | inl ((true, v, q), c) ↦ elim (Outcome-cases (positional arguments q)) [
    | inr (inl (f, d)) ↦ absurd (ground (arith, e, c, d))
    | inr (inr d) ↦ absurd (ground (arith, e, c, d))
    | inl ((ws, q'), d) ↦
        let all : v ∷ ws ≡ vs = ground (arith, e, c, d) in
        subst (λ (x : List Unevaluated). Served x (a ∷ arguments)) all
          (parse_argument_lem a p q true v c, positional_lem arguments q q' ws d)
  ]
]

-- The places of the values are those of the arguments, in order.
evaluate_lem :
    (vs : List Unevaluated) (arguments : List Argument) (values : List (ℕ × Value))
    → Served vs arguments
    → evaluate vs ≡ done values
    → (length values ≡ length vs)
      × (map (λ (v : ℕ × Value). v.0) values
          ≡ map (λ (a : Argument). a.index) (take (length vs) arguments))
unfolding evaluate
evaluate_lem [] arguments values h e =
    let empty : [] ≡ values = ground (arith, e) in
    subst (λ (x : List (ℕ × Value)). (length x ≡ 0) × (map (λ (v : ℕ × Value). v.0) x ≡ [])) empty
      (refl, refl)
evaluate_lem (v ∷ vs) [] values h e = absurd h
evaluate_lem (unset ∷ vs) (a ∷ arguments) values h e = cc
evaluate_lem (given argument text ∷ vs) (a ∷ arguments) values h e =
    let read = bind_done (checked_value argument text) _ values e in
    let rest = bind_done (evaluate vs) _ values read.2 in
    let all : (argument.index, read.0) ∷ rest.0 ≡ values = ground (arith, rest.2) in
    let ih = evaluate_lem vs arguments rest.0 h.1 rest.1 in
    let place : argument.index ≡ a.index = elim h.0 [ inl u ↦ cc | inr (t, g) ↦ cc ] in
    subst
      (λ (x : List (ℕ × Value)).
        (length x ≡ suc (length vs))
        × (map (λ (v : ℕ × Value). v.0) x
            ≡ map (λ (b : Argument). b.index) (take (suc (length vs)) (a ∷ arguments))))
      all (ap suc ih.0, ground (arith, place, ih.1))

check_required_lem :
    (arguments : List Argument) (u : Unit {0})
    → check_required arguments ≡ done u
    → All (λ (a : Argument). a.is_optional ≡ true) arguments
unfolding check_required
check_required_lem [] u e = tt
check_required_lem (a ∷ arguments) u e = elim (Bool-cases a.is_optional) [
  | inl t ↦ (t, check_required_lem arguments u (ground (arith, e, t)))
  | inr f ↦ absurd (ground (arith, e, f))
]

-- If a command line is read to its end, then every argument beyond those that have a value is
-- optional, and the values have the places of the first arguments, in order.
pub parse_args-required :
    (spec : Spec) (argv : List Bytes) (parsed : Parsed)
    → parse_args spec argv ≡ done parsed
    → All (λ (a : Argument). a.is_optional ≡ true) (drop (length parsed.arguments) spec.arguments)
      × (map (λ (v : ℕ × Value). v.0) parsed.arguments
          ≡ map (λ (a : Argument). a.index) (take (length parsed.arguments) spec.arguments))
unfolding parse_args
parse_args-required spec [] parsed e = cc
parse_args-required spec (program ∷ rest) parsed e =
    let first =
      bind_done (positional spec.arguments (record { args = program ∷ rest; cursor = 1 })) _ parsed
        e in
    let loop = bind_done (option_loop (length rest) spec first.0.1) _ parsed first.2 in
    let values = bind_done (evaluate first.0.0) _ parsed loop.2 in
    let checked =
      bind_done (check_required (drop (length first.0.0) spec.arguments)) _ parsed values.2 in
    let ran = bind_done (run_options loop.0.1) _ parsed checked.2 in
    let kept : values.0 ≡ parsed.arguments = ground (arith, ran.2) in
    let places =
      evaluate_lem first.0.0 spec.arguments values.0
        (positional_lem spec.arguments _ first.0.1 first.0.0 first.1) values.1 in
    subst
      (λ (x : List (ℕ × Value)).
        All (λ (a : Argument). a.is_optional ≡ true) (drop (length x) spec.arguments)
        × (map (λ (v : ℕ × Value). v.0) x
            ≡ map (λ (a : Argument). a.index) (take (length x) spec.arguments)))
      kept
      (subst
        (λ (n : ℕ).
          All (λ (a : Argument). a.is_optional ≡ true) (drop n spec.arguments)
          × (map (λ (v : ℕ × Value). v.0) values.0
              ≡ map (λ (a : Argument). a.index) (take n spec.arguments)))
        (sym places.0) (check_required_lem _ checked.0 checked.1, places.1))
