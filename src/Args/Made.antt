-- ===== src/Args/Made.antt =====
-- The arguments of a specification that is made by include/erl/_impl/config/args.hpp.
use cpp26_experiments.Base.{
  ℕ, suc, ◌+◌, ◌≡◌, refl, sym, ap, ◌∙◌, subst, Bool, true, false, not, ◌&&◌, ◌||◌, List, [], ◌∷◌,
  ◌++◌, length, arith, All, Bool-cases, Option-cases, inl, inr, if◌then◌else◌, append_assoc,
  append-nil, length-append,
}
use cpp26_experiments.Meta.Info.{Compiler}
use cpp26_experiments.Meta.Members.{filter, has_annotation}
use cpp26_experiments.Args.Parser.{Argument, Spec}
use cpp26_experiments.Args.Values.{Target}
use cpp26_experiments.Args.Make.{
  Compiled, compiled, compile_error, ◌>>=◌, SpecParser, validate, make_argument, make_option,
  parse_argument, parse_command, parse_option, parse_member, parse_members, parse_templates,
  parse_base, make_spec,
}

-- Behind an optional argument every argument is optional.
abbrev pub OptionalLast : List Argument → Type 0
OptionalLast [] = Unit
OptionalLast (a ∷ arguments) =
    (a.is_optional ≡ true → All (λ (b : Argument). b.is_optional ≡ true) arguments)
    × OptionalLast arguments

validate_optional :
    (arguments : List Argument) (u : Unit {0})
    → All (λ (b : Argument). b.is_variadic ≡ false) arguments
    → validate false true arguments ≡ compiled u
    → All (λ (b : Argument). b.is_optional ≡ true) arguments
unfolding validate
validate_optional [] u h e = tt
validate_optional (a ∷ arguments) u h e = elim (Bool-cases a.is_optional) [
  | inl t ↦ (t, validate_optional arguments u h.1 (ground (arith, e, h.0, t)))
  | inr f ↦ absurd (ground (arith, e, h.0, f))
]

OptionalLast-All :
    (arguments : List Argument)
    → All (λ (b : Argument). b.is_optional ≡ true) arguments
    → OptionalLast arguments
OptionalLast-All [] h = tt
OptionalLast-All (a ∷ arguments) h = (λ t. h.1, OptionalLast-All arguments h.1)

validate-OptionalLast :
    (arguments : List Argument) (u : Unit {0})
    → All (λ (b : Argument). b.is_variadic ≡ false) arguments
    → validate false false arguments ≡ compiled u
    → OptionalLast arguments
unfolding validate
validate-OptionalLast [] u h e = tt
validate-OptionalLast (a ∷ arguments) u h e = elim (Bool-cases a.is_optional) [
  | inl t ↦
      let rest = validate_optional arguments u h.1 (ground (arith, e, h.0, t)) in
      (λ x. rest, OptionalLast-All arguments rest)
  | inr f ↦ (
    λ t. absurd (ground (arith, t, f)),
    validate-OptionalLast arguments u h.1 (ground (arith, e, h.0, f)),
  )
]

bind_compiled {ℓ κ} :
    {A : Type ℓ} {B : Type κ} (o : Compiled A) (f : A → Compiled B) (b : B)
    → (o >>= f) ≡ compiled b
    → (a : A) × (o ≡ compiled a) × (f a ≡ compiled b)
bind_compiled (compiled a) f b e = (a, refl, e)
bind_compiled (compile_error m) f b e = cc

module _ {Info : Type 0} (std : Compiler Info) (option_annotation descend_annotation cli : Info)
    (target_of : Info → Target) where
  -- The members that become arguments.
  abbrev pub is_setting : Info → Bool
  is_setting r =
      (std.is_public r && std.has_identifier r)
      && (std.is_nonstatic_data_member r
          && not
              (has_annotation std r option_annotation || has_annotation std r descend_annotation))

  -- They are numbered in order, behind the bases.
  abbrev pub numbered : ℕ → List Info → List Argument
  numbered k [] = []
  numbered k (r ∷ rs) =
      make_argument std option_annotation descend_annotation cli target_of
        (length (std.bases_of (std.parent_of r)) + k) r
      ∷ numbered (suc k) rs

  parse_member_lem :
      (r : Info) (p p' : SpecParser)
      → parse_member std option_annotation descend_annotation cli target_of r p ≡ compiled p'
      → p'.arguments ≡ (
          if is_setting r
          then p.arguments ++ numbered (length p.arguments) (r ∷ [])
          else p.arguments)
  unfolding parse_member parse_argument parse_command parse_option
  parse_member_lem r p p' e = ground (arith, e)

  parse_members_lem :
      (rs : List Info) (p p' : SpecParser)
      → parse_members std option_annotation descend_annotation cli target_of rs p ≡ compiled p'
      → p'.arguments ≡ p.arguments ++ numbered (length p.arguments) (filter is_setting rs)
  unfolding parse_members
  parse_members_lem [] p p' e =
      let same : p ≡ p' = ground (arith, e) in
      ap (λ (q : SpecParser). q.arguments) (sym same) ∙ sym (append-nil p.arguments)
  parse_members_lem (r ∷ rs) p p' e =
      let got =
        bind_compiled (parse_member std option_annotation descend_annotation cli target_of r p)
          (λ (q : SpecParser).
            parse_members std option_annotation descend_annotation cli target_of rs q)
          p' e in
      let now = parse_member_lem r p got.0 got.1 in
      let later = parse_members_lem rs got.0 p' got.2 in
      elim (Bool-cases (is_setting r)) [
        | inr f ↦
            let same : got.0.arguments ≡ p.arguments = ground (arith, now, f) in
            let kept : filter is_setting (r ∷ rs) ≡ filter is_setting rs = ground (arith, f) in
            later
            ∙ ap (λ (a : List Argument). a ++ numbered (length a) (filter is_setting rs)) same
            ∙ ap (λ (l : List Info). p.arguments ++ numbered (length p.arguments) l) (sym kept)
        | inl t ↦
            let longer : got.0.arguments ≡ p.arguments ++ numbered (length p.arguments) (r ∷ []) =
              ground (arith, now, t) in
            let kept : filter is_setting (r ∷ rs) ≡ r ∷ filter is_setting rs = ground (arith, t) in
            let more : length (p.arguments ++ numbered (length p.arguments) (r ∷ []))
                ≡ suc (length p.arguments) =
              omega (arith, length-append p.arguments (numbered (length p.arguments) (r ∷ []))) in
            later
            ∙ ap (λ (a : List Argument). a ++ numbered (length a) (filter is_setting rs)) longer
            ∙ ap
                (λ (n : ℕ).
                  (p.arguments ++ numbered (length p.arguments) (r ∷ []))
                  ++ numbered n (filter is_setting rs))
                more
            ∙ append_assoc p.arguments (numbered (length p.arguments) (r ∷ []))
                (numbered (suc (length p.arguments)) (filter is_setting rs))
            ∙ ap (λ (l : List Info). p.arguments ++ numbered (length p.arguments) l) (sym kept)
      ]

  parse_templates_lem :
      (r : Info) (ts : List Info) (p : SpecParser)
      → (parse_templates std option_annotation descend_annotation cli target_of r ts p).arguments
        ≡ p.arguments
  unfolding parse_templates
  parse_templates_lem r [] p = refl
  parse_templates_lem r (t ∷ ts) p = elim (Option-cases (std.substitute t r)) [
    | inl n ↦ ground (arith, n, parse_templates_lem r ts p)
    | inr (fnc, n) ↦
        let c =
          p.commands
          ++ (make_option std option_annotation descend_annotation cli target_of
                (std.identifier_of t) fnc
              ∷ []) in
        ground (
          arith,
          n,
          parse_templates_lem r ts p,
          parse_templates_lem r ts (record p { commands = c }),
        )
  ]

  parse_base_lem :
      (r : Info) (p : SpecParser)
      → (parse_base std option_annotation descend_annotation cli target_of r p).arguments
        ≡ p.arguments
  unfolding parse_base
  parse_base_lem r p =
      ground (arith, parse_templates_lem r (filter std.is_function_template (std.members_of cli)) p)

  numbered_lem :
      (k : ℕ) (rs : List Info) → All (λ (b : Argument). b.is_variadic ≡ false) (numbered k rs)
  unfolding make_argument
  numbered_lem k [] = tt
  numbered_lem k (r ∷ rs) = (refl, numbered_lem (suc k) rs)

  -- The type whose members are read.
  abbrev pub settings_type : Info → Info
  settings_type r = if std.is_type r then r else std.type_of r

  -- If a specification is made of a type, then its arguments are the public named data
  -- members that are annotated neither as an option nor to be descended into, in order and
  -- numbered from behind the bases, and behind an optional argument every argument is
  -- optional.
  pub make_spec-arguments :
      (r : Info) (spec : Spec)
      → make_spec std option_annotation descend_annotation cli target_of r ≡ compiled spec
      → (spec.arguments ≡ numbered 0 (filter is_setting (std.members_of (settings_type r))))
        × OptionalLast spec.arguments
  unfolding make_spec
  make_spec-arguments r spec e =
      let got =
        bind_compiled
          (parse_members std option_annotation descend_annotation cli target_of
            (std.members_of (settings_type r))
            (record { arguments = []; commands = []; options = [] }))
          _ spec e in
      let whole =
        parse_base std option_annotation descend_annotation cli target_of (settings_type r) got.0 in
      let valid = bind_compiled (validate false false whole.arguments) _ spec got.2 in
      let made : spec.arguments ≡ whole.arguments = ground (arith, valid.2) in
      let listed =
        parse_base_lem (settings_type r) got.0
        ∙ parse_members_lem (std.members_of (settings_type r)) _ got.0 got.1 in
      (
        made ∙ listed,
        subst (λ (a : List Argument). OptionalLast a) (sym made)
            (validate-OptionalLast whole.arguments valid.0
              (subst (λ (a : List Argument). All (λ (b : Argument). b.is_variadic ≡ false) a)
                (sym listed)
                (numbered_lem 0 (filter is_setting (std.members_of (settings_type r)))))
              valid.1),
      )
