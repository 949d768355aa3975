-- ===== src/Args/Progress.antt =====
-- How far the parts of `parse_args` of include/erl/_impl/config/args.hpp move the cursor, and when
-- its loop is over.
use cpp26_experiments.Base.{
  ℕ, zero, suc, ◌+◌, ◌≤◌, ◌<◌, ◌≡◌, refl, sym, ap, ◌∙◌, subst, Bool, true, false, List, [], ◌∷◌,
  Option, none, some, Bytes, length, arith, Bool-cases, inl, inr, ◌⊎◌, bytes_eq,
}
use cpp26_experiments.Args.Outcome.{Failure, Outcome, done, exited, undefined, ◌>>=◌}
use cpp26_experiments.Args.Parser.{
  ArgParser, valid, current, advance, Argument, CliOption, Spec, Unevaluated, take_argument,
  parse_argument, option_arguments, remove_prefix, parse_option, first_option, option_loop,
}

pub bind_done {ℓ κ} :
    {A : Type ℓ} {B : Type κ} (o : Outcome A) (f : A → Outcome B) (b : B)
    → (o >>= f) ≡ done b
    → (a : A) × (o ≡ done a) × (f a ≡ done b)
bind_done (done a) f b e = (a, refl, e)
bind_done (exited m) f b e = cc
bind_done undefined f b e = cc

pub Outcome-cases {ℓ} :
    {A : Type ℓ} (o : Outcome A)
    → ((a : A) × (o ≡ done a)) ⊎ (((f : Failure) × (o ≡ exited f)) ⊎ (o ≡ undefined))
Outcome-cases (done a) = inl (a, refl)
Outcome-cases (exited f) = inr (inl (f, refl))
Outcome-cases undefined = inr (inr refl)

abbrev Moves : ArgParser → ArgParser → Type 0
Moves p p' = (p'.args ≡ p.args) × (p.cursor ≤ p'.cursor)

take_argument_lem :
    (a : Argument) (text : Bytes) (p p' : ArgParser) (b : Bool) (v : Unevaluated)
    → take_argument a text p ≡ done (b, v, p')
    → Moves p p'
unfolding take_argument
take_argument_lem a [] p p' b v e = cc
take_argument_lem a (c ∷ []) p p' b v e = ground (arith, e)
take_argument_lem a (c ∷ (d ∷ text)) p p' b v e = ground (arith, e)

parse_argument_lem :
    (a : Argument) (p p' : ArgParser) (b : Bool) (v : Unevaluated)
    → parse_argument a p ≡ done (b, v, p')
    → Moves p p'
unfolding parse_argument
parse_argument_lem a p p' b v e = elim (Bool-cases (valid p)) [
  | inr f ↦ ground (arith, e, f)
  | inl t ↦ elim (Outcome-cases (current p)) [
    | inl (text, c) ↦ take_argument_lem a text p p' b v (ground (arith, e, t, c))
    | inr (inl (f, c)) ↦ absurd (ground (arith, e, t, c))
    | inr (inr c) ↦ absurd (ground (arith, e, t, c))
  ]
]

option_arguments_lem :
    (name : Bytes) (args : List Argument) (p p' : ArgParser) (vs : List Unevaluated)
    → option_arguments name args p ≡ done (vs, p')
    → Moves p p'
unfolding option_arguments
option_arguments_lem name [] p p' vs e = ground (arith, e)
option_arguments_lem name (a ∷ args) p p' vs e = elim (Outcome-cases (parse_argument a p)) [
  | inr (inl (f, c)) ↦ absurd (ground (arith, e, c))
  | inr (inr c) ↦ absurd (ground (arith, e, c))
  | inl ((true, v, q), c) ↦ elim (Outcome-cases (option_arguments name args q)) [
    | inl ((ws, q'), d) ↦ ground (
      arith,
      e,
      c,
      d,
      parse_argument_lem a p q true v c,
      option_arguments_lem name args q q' ws d,
    )
    | inr (inl (f, d)) ↦ absurd (ground (arith, e, c, d))
    | inr (inr d) ↦ absurd (ground (arith, e, c, d))
  ]
  | inl ((false, v, q), c) ↦ elim (Bool-cases a.is_optional) [
    | inl t ↦ ground (
      arith,
      parse_argument_lem a p q false v c,
      option_arguments_lem name args q p' vs (ground (arith, e, c, t)),
    )
    | inr f ↦ absurd (ground (arith, e, c, f))
  ]
]

-- An option that is found has stepped over its name.
abbrev Passes : {A : Type 0} → Option A → ArgParser → ArgParser → Type 0
Passes none p p' = p' ≡ p
Passes (some vs) p p' = (p'.args ≡ p.args) × (p.cursor < p'.cursor)

parse_option_lem :
    (o : CliOption) (p p' : ArgParser) (r : Option (List Unevaluated))
    → parse_option o p ≡ done (r, p')
    → Passes r p p'
unfolding parse_option
parse_option_lem o p p' r e = elim (Outcome-cases (current p)) [
  | inr (inl (f, c)) ↦ absurd (ground (arith, e, c))
  | inr (inr c) ↦ absurd (ground (arith, e, c))
  | inl (arg, c) ↦ elim (Outcome-cases (remove_prefix arg)) [
    | inr (inl (f, d)) ↦ absurd (ground (arith, e, c, d))
    | inr (inr d) ↦ absurd (ground (arith, e, c, d))
    | inl (name, d) ↦ elim (Bool-cases (bytes_eq name o.name)) [
      | inr f ↦
          let left : r ≡ none = ground (arith, e, c, d, f) in
          let same : p' ≡ p = ground (arith, e, c, d, f) in
          subst (λ (x : Option (List Unevaluated)). Passes x p p') (sym left) same
      | inl t ↦ elim (Outcome-cases (option_arguments name o.arguments (advance p))) [
        | inr (inl (f, g)) ↦ absurd (ground (arith, e, c, d, t, g))
        | inr (inr g) ↦ absurd (ground (arith, e, c, d, t, g))
        | inl ((vs, q), g) ↦
            let right : r ≡ some vs = ground (arith, e, c, d, t, g) in
            let same : q ≡ p' = ground (arith, e, c, d, t, g) in
            let moves = option_arguments_lem name o.arguments (advance p) q vs g in
            subst (λ (x : Option (List Unevaluated)). Passes x p p') (sym right)
              (subst (λ (x : ArgParser). (x.args ≡ p.args) × (p.cursor < x.cursor)) same
                (moves.0, omega (arith, moves.1)))
      ]
    ]
  ]
]

first_option_lem :
    (os : List CliOption) (p p' : ArgParser) (r : Option (Bytes × List Unevaluated))
    → first_option os p ≡ done (r, p')
    → Passes r p p'
unfolding first_option
first_option_lem [] p p' r e =
    let left : r ≡ none = ground (arith, e) in
    subst (λ (x : Option (Bytes × List Unevaluated)). Passes x p p') (sym left) (ground (arith, e))
first_option_lem (o ∷ os) p p' r e = elim (Outcome-cases (parse_option o p)) [
  | inr (inl (f, c)) ↦ absurd (ground (arith, e, c))
  | inr (inr c) ↦ absurd (ground (arith, e, c))
  | inl ((none, q), c) ↦
      let same = parse_option_lem o p q none c in
      first_option_lem os p p' r
        (ap (λ (x : ArgParser). first_option os x) (sym same) ∙ ground (arith, e, c))
  | inl ((some vs, q), c) ↦
      let right : r ≡ some (o.name, vs) = ground (arith, e, c) in
      let same : q ≡ p' = ground (arith, e, c) in
      subst (λ (x : Option (Bytes × List Unevaluated)). Passes x p p') (sym right)
        (subst (λ (x : ArgParser). (x.args ≡ p.args) × (p.cursor < x.cursor)) same
          (parse_option_lem o p q (some vs) c))
]

-- One more round of fuel changes nothing once the fuel covers the arguments that are left.
pub option_loop-fuel :
    (fuel : ℕ) (spec : Spec) (p : ArgParser)
    → length p.args ≤ fuel + p.cursor
    → option_loop (suc fuel) spec p ≡ option_loop fuel spec p
unfolding option_loop
option_loop-fuel zero spec p h = ground (arith, h)
option_loop-fuel (suc fuel) spec p h = elim (Bool-cases (valid p)) [
  | inr f ↦ ground (arith, f)
  | inl t ↦ elim (Outcome-cases (first_option spec.commands p)) [
    | inr (inl (f, c)) ↦ ground (arith, t, c)
    | inr (inr c) ↦ ground (arith, t, c)
    | inl ((some (name, vs), q), c) ↦
        let moves = first_option_lem spec.commands p q (some (name, vs)) c in
        ground
          (arith, t, c, option_loop-fuel fuel spec q (omega (arith, ap length moves.0, moves.1, h)))
    | inl ((none, q), c) ↦
        let stays = first_option_lem spec.commands p q none c in
        elim (Outcome-cases (first_option spec.options q)) [
          | inr (inl (f, d)) ↦ ground (arith, t, c, d)
          | inr (inr d) ↦ ground (arith, t, c, d)
          | inl ((none, q'), d) ↦ ground (arith, t, c, d)
          | inl ((some (name, vs), q'), d) ↦
              let moves = first_option_lem spec.options q q' (some (name, vs)) d in
              let ih = option_loop-fuel fuel spec q' (
                omega (
                  arith,
                  ap length moves.0,
                  ap (λ (x : ArgParser). length x.args) stays,
                  ap (λ (x : ArgParser). x.cursor) stays,
                  moves.1,
                  h,
                )) in
              ground (arith, t, c, d, ih)
        ]
  ]
]

-- Once the fuel covers the arguments that are left, more of it changes nothing: each round of
-- the loop over the options takes an argument, ends with a message, or is undefined.
pub option_loop_enough :
    (k fuel : ℕ) (spec : Spec) (p : ArgParser)
    → length p.args ≤ fuel + p.cursor
    → option_loop (k + fuel) spec p ≡ option_loop fuel spec p
option_loop_enough zero fuel spec p h = ap (λ (n : ℕ). option_loop n spec p) (omega arith)
option_loop_enough (suc k) fuel spec p h =
    ap (λ (n : ℕ). option_loop n spec p) (omega arith)
    ∙ option_loop-fuel (k + fuel) spec p (omega (arith, h))
    ∙ option_loop_enough k fuel spec p h
