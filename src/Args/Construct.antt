-- ===== src/Args/Construct.antt =====
-- include/erl/_impl/config/default_construct.hpp: objects made, and functions called, from a tuple of
-- optional arguments.
use cpp26_experiments.Base.{
  ℕ, zero, suc, ◌+◌, ◌-◌, ◌==◌, ltb, leb, not, ◌&&◌, List, [], ◌∷◌, Option, none, some, length,
  if◌then◌else◌,
}
use cpp26_experiments.Meta.Info.{Compiler}
use cpp26_experiments.Meta.Members.{filter}

-- A value, or the exception that is thrown, or undefined behaviour: an index without a case, or an
-- optional without a value.
pub data Built {ℓ} (A : Type ℓ) : Type ℓ where
  built : A → Built A
  thrown : Built A
  undefined : Built A

infixl 5 ◌>>=◌
abbrev pub ◌>>=◌ {ℓ κ} : {A : Type ℓ} {B : Type κ} → Built A → (A → Built B) → Built B
built a >>= f = f a
thrown >>= f = thrown
undefined >>= f = undefined

-- `required_args_count`
unfoldable pub required_args_count : {Info : Type 0} → Compiler Info → Info → ℕ
required_args_count std reflection =
    if std.is_function reflection
    then length (filter (λ x. not (std.has_default_argument x)) (std.parameters_of reflection))
    else (if std.is_type reflection
        then length (
            filter (λ x. not (std.has_default_member_initializer x))
              (std.nonstatic_data_members_of reflection))
        else 0)

-- `index` of `visit`: how many arguments stand before the first that has no value.
unfoldable pub leading : {V : Type 0} → List (Option V) → ℕ
leading [] = 0
leading (none ∷ arguments) = 0
leading (some v ∷ arguments) = suc (leading arguments)

-- The cases of the strategy that is chosen.
unfoldable pub case_count : ℕ → ℕ
case_count branches =
    if leb branches 4
    then 4
    else (if leb branches 16 then 16 else (if leb branches 64 then 64 else 256))

-- `VisitStrategy::visit`, of `offset` arguments and the index of a case.
unfoldable pub visit_case : {R : Type 0} → ℕ → ℕ → (ℕ → Built R) → ℕ → Built R
visit_case offset branches visitor index =
    if ltb index (case_count branches) && leb index branches
    then visitor (offset + index)
    else undefined

-- `visit`, of the arguments behind those of the bases. The visitor gets the length of its sequence.
unfoldable pub visit : {V R : Type 0} → ℕ → (ℕ → Built R) → List (Option V) → Built R
visit required visitor arguments =
    let index = leading arguments in
    let branches = length arguments - required in
    if ltb index required
    then thrown
    else (if branches == 0
        then visitor (length arguments)
        else visit_case required branches visitor (index - required))

-- `*get<Idx>(args)...`, of a sequence of that length.
unfoldable pub dereference : {V : Type 0} → ℕ → List (Option V) → Built (List V)
dereference zero arguments = built []
dereference (suc n) [] = undefined
dereference (suc n) (none ∷ arguments) = undefined
dereference (suc n) (some v ∷ arguments) = do values ← dereference n arguments; built (v ∷ values)

-- The argument tuples of a list of types: those of the first type's bases, the number of its
-- required members, what is given for its members, and the tuples of the types behind it.
pub data ArgumentTuples (V : Type 0) : Type 0 where
  none_left : ArgumentTuples V
  tuple : ArgumentTuples V → ℕ → List (Option V) → ArgumentTuples V → ArgumentTuples V

-- The objects made of them: the first object's bases and the members that were initialised.
pub data Objects (V : Type 0) : Type 0 where
  no_objects : Objects V
  object : Objects V → List V → Objects V → Objects V

-- The visitor of `default_construct`, given what the bases come to.
abbrev pub construct :
    {V : Type 0} → Built (Objects V) → List (Option V) → ℕ → Built (Objects V × List V)
construct bases members n = do
  made_bases ← bases
  values ← dereference n members
  built (made_bases, values)

-- `default_construct`, of each type in turn.
unfoldable pub default_construct : {V : Type 0} → ArgumentTuples V → Built (Objects V)
default_construct none_left = built no_objects
default_construct (tuple bases required members others) = do
  first ← visit required (construct (default_construct bases) members) members
  made_others ← default_construct others
  built (object first.0 first.1 made_others)

-- `default_invoke`, of what the function does with its arguments.
unfoldable pub default_invoke : {V R : Type 0} → (List V → R) → ℕ → List (Option V) → Built R
default_invoke fnc required arguments =
    visit required (λ n. dereference n arguments >>= (λ values. built (fnc values))) arguments
