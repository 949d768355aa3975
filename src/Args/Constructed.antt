-- ===== src/Args/Constructed.antt =====
-- What include/erl/_impl/config/default_construct.hpp hands to a constructor or a function.
use cpp26_experiments.Base.{
  ℕ, ◌-◌, ◌≤◌, ◌<◌, ◌≡◌, refl, ◌∙◌, ltb, leb, List, [], ◌∷◌, Option, none, some, length,
  if◌then◌else◌, arith,
}
use cpp26_experiments.Args.Construct.{
  Built, built, thrown, undefined, ◌>>=◌, leading, case_count, visit_case, visit, dereference,
  ArgumentTuples, none_left, tuple, Objects, no_objects, object, construct, default_construct,
  default_invoke,
}

-- The values before the first argument that has none.
abbrev pub values : {V : Type 0} → List (Option V) → List V
values [] = []
values (none ∷ arguments) = []
values (some v ∷ arguments) = v ∷ values arguments

leading_bound : {V : Type 0} (arguments : List (Option V)) → leading arguments ≤ length arguments
unfolding leading
leading_bound [] = omega arith
leading_bound (none ∷ arguments) = omega arith
leading_bound (some v ∷ arguments) = omega (arith, leading_bound arguments)

dereference-leading :
    {V : Type 0} (arguments : List (Option V))
    → dereference (leading arguments) arguments ≡ built (values arguments)
unfolding dereference leading
dereference-leading [] = refl
dereference-leading (none ∷ arguments) = refl
dereference-leading (some v ∷ arguments) = ground (arith, dereference-leading arguments)

-- All branches of `visit`.
visit_lem :
    {V R : Type 0} (required : ℕ) (visitor : ℕ → Built R) (arguments : List (Option V))
    → required ≤ length arguments
    → visit required visitor arguments ≡ (
        if ltb (leading arguments) required
        then thrown
        else (if leb (case_count (length arguments - required)) (leading arguments - required)
            then undefined
            else visitor (leading arguments)))
unfolding visit visit_case case_count
visit_lem required visitor arguments h = ground (arith, h, leading_bound arguments)

-- For a function with no more required parameters than parameters: too few leading values
-- throw, as many optional ones as the chosen switch has cases or more are undefined, and
-- otherwise the function gets exactly the values before the first that is missing.
pub default_invoke_lem :
    {V R : Type 0} (fnc : List V → R) (required : ℕ) (arguments : List (Option V))
    → required ≤ length arguments
    → default_invoke fnc required arguments ≡ (
        if ltb (leading arguments) required
        then thrown
        else (if leb (case_count (length arguments - required)) (leading arguments - required)
            then undefined
            else built (fnc (values arguments))))
unfolding default_invoke
default_invoke_lem fnc required arguments h =
    let called =
      visit_lem required (λ n. dereference n arguments >>= (λ vs. built (fnc vs))) arguments h in
    called ∙ ground (arith, dereference-leading arguments)

-- Each type's tuple has a value for every required member, and a case for as many as it has.
abbrev pub IsFilled : {V : Type 0} → ArgumentTuples V → Type 0
IsFilled none_left = Unit
IsFilled (tuple bases required members others) =
    IsFilled bases
    × required ≤ leading members
    × leading members - required < case_count (length members - required)
    × IsFilled others

-- The objects without regard to failure: each from its bases and the leading values.
abbrev pub objects : {V : Type 0} → ArgumentTuples V → Objects V
objects none_left = no_objects
objects (tuple bases required members others) =
    object (objects bases) (values members) (objects others)

-- For types whose tuples have a value for every required member and fewer given optional ones
-- than the chosen switch has cases: the objects are made of exactly the values before the first
-- that is missing, the bases first, and no optional without a value is read.
pub default_construct-IsFilled :
    {V : Type 0} (tuples : ArgumentTuples V)
    → IsFilled tuples
    → default_construct tuples ≡ built (objects tuples)
unfolding default_construct
default_construct-IsFilled none_left h = refl
default_construct-IsFilled (tuple bases required members others) h =
    let called =
      visit_lem required (construct (default_construct bases) members) members
        (omega (arith, h.1, leading_bound members)) in
    ground (
      arith,
      called,
      h.1,
      h.2,
      dereference-leading members,
      default_construct-IsFilled bases h.0,
      default_construct-IsFilled others h.3,
    )
