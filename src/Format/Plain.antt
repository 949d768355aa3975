-- ===== src/Format/Plain.antt =====
-- `do_parse` of include/erl/_impl/format/named.hpp on format strings without a named or a numbered
-- field.
use cpp26_experiments.Base.{
  ℕ, zero, suc, ◌+◌, ◌-◌, ◌≤◌, ◌≡◌, refl, sym, ap, ◌∙◌, subst, true, false, List, [], ◌∷◌, ◌++◌,
  Bytes, length, take, drop, arith, Option-cases, Bool-cases, inl, inr, ◌==◌,
}
use cpp26_experiments.Meta.Info.{Compiler}
use cpp26_experiments.Format.Outcome.{ok}
use cpp26_experiments.Format.Scan.{Parser, skip_to}
use cpp26_experiments.Format.Scan as Scan
use cpp26_experiments.Format.Fragments.{
  Fragment, push, render, FormatParser, Location, push_text, advance, move_to, between,
}
use cpp26_experiments.Format.Fields.{field, behind_brace, round}
use cpp26_experiments.Format.Named.{named_lem}
use cpp26_experiments.Format.Moves.{bind_ok, push_text_same}
use cpp26_experiments.Format.Loop.{parse_loop}

take_empty : (k : ℕ) → take {A = ℕ} k [] ≡ []
take_empty zero = refl
take_empty (suc k) = refl

take_plus : (s n : ℕ) (xs : Bytes) → take s xs ++ take n (drop s xs) ≡ take (s + n) xs
take_plus zero n xs = let e : n ≡ 0 + n = omega arith in ap (λ (k : ℕ). take k xs) e
take_plus (suc s) zero [] = sym (take_empty (suc s + zero))
take_plus (suc s) (suc n) [] = sym (take_empty (suc s + suc n))
take_plus (suc s) n (x ∷ xs) =
    ap (λ (t : Bytes). x ∷ t) (take_plus s n xs)
    ∙ (let e : suc (s + n) ≡ suc s + n = omega arith in ap (λ (k : ℕ). take k (x ∷ xs)) e)

render_last :
    (d : ℕ) (out : Bytes) (fs : List Fragment) (f : Fragment)
    → render d out (fs ++ (f ∷ [])) ≡ push d (render d out fs) f
unfolding render
render_last d out [] f = refl
render_last d out (g ∷ fs) f = render_last d (push d out g) fs f

module _ {Info : Type 0} (std : Compiler Info) (location : Location) (arg_types : List Info)
    (source : Bytes) where
  -- The fragments show the text up to `fragment_start`, whatever the number of arguments.
  pub record Plain (state : FormatParser Info) : Type 0 where
    pub text_lem : state.parser.text ≡ source
    pub start_lem : state.fragment_start ≤ state.parser.cursor
    pub shown : (d : ℕ) → render d [] state.fragments ≡ take state.fragment_start source
    pub accessors_lem : state.accessors ≡ []
    pub direct_lem : length state.direct ≡ length arg_types

  pub push_text_lem : (state : FormatParser Info) → Plain state → Plain (push_text state)
  unfolding push_text push
  push_text_lem state p = elim (Bool-cases (state.fragment_start == state.parser.cursor)) [
    | inl e ↦ rw e p
    | inr e ↦ rw e (record {
      text_lem = p.text_lem;
      start_lem = omega arith;
      shown = λ d.
          render_last d [] state.fragments _
          ∙ ap
              (λ (t : Bytes).
                t
                ++ take (state.parser.cursor - state.fragment_start)
                    (drop state.fragment_start state.parser.text))
              (p.shown d)
          ∙ ap
              (λ (t : Bytes).
                take state.fragment_start source
                ++ take (state.parser.cursor - state.fragment_start) (drop state.fragment_start t))
              p.text_lem
          ∙ take_plus state.fragment_start (state.parser.cursor - state.fragment_start) source
          ∙ ap (λ (n : ℕ). take n source) (omega (arith, p.start_lem));
      accessors_lem = p.accessors_lem;
      direct_lem = p.direct_lem;
    })
  ]

  emptied : (state : FormatParser Info) → Plain state → Plain (record state { has_empty = true })
  emptied state p = record {
    text_lem = p.text_lem;
    start_lem = p.start_lem;
    shown = p.shown;
    accessors_lem = p.accessors_lem;
    direct_lem = p.direct_lem;
  }

  -- The cursor moves on.
  moved :
      (state : FormatParser Info) (parser : Parser)
      → parser.text ≡ state.parser.text
      → state.parser.cursor ≤ parser.cursor
      → Plain state
      → Plain (move_to state parser)
  moved state parser same le p = record {
    text_lem = same ∙ p.text_lem;
    start_lem = omega (arith, p.start_lem);
    shown = p.shown;
    accessors_lem = p.accessors_lem;
    direct_lem = p.direct_lem;
  }

  -- A field keeps the text plain only if it has no name.
  field_lem :
      (s found s' : FormatParser Info)
      → field std location arg_types s found ≡ ok s'
      → s'.has_positional ≡ false
      → (found.has_positional ≡ false) × (Plain found → Plain s')
  unfolding field
  field_lem s found s' e h = elim (Bool-cases (s.parser.cursor == found.parser.cursor)) [
    | inl t ↦ elim (Bool-cases found.has_positional) [
      | inl p ↦ absurd (ground (arith, e, t, p))
      | inr p ↦
          let same : push_text (advance (record found { has_empty = true })) ≡ s' =
            ground (arith, e, t, p) in
          (
            p,
            λ plain.
                subst (λ (x : FormatParser Info). Plain x) same
                  (push_text_lem _ (
                    moved (record found { has_empty = true }) _ refl (omega arith)
                      (emptied found plain))),
          )
    ]
    | inr t ↦ elim (Bool-cases found.has_empty) [
      | inl p ↦ absurd (ground (arith, e, t, p))
      | inr p ↦ absurd (
          ground (
            arith,
            e,
            t,
            p,
            h,
            named_lem std location arg_types (between found s.parser.cursor found.parser.cursor)
                (record found { has_positional = true }) s',
          ))
    ]
  ]

  behind_brace_lem :
      (c : ℕ) (s s' : FormatParser Info)
      → behind_brace std location arg_types c s ≡ ok s'
      → s'.has_positional ≡ false
      → (s.has_positional ≡ false) × (Plain s → Plain s')
  unfolding behind_brace skip_to
  behind_brace_lem c s s' e h = elim (Bool-cases (c == 123)) [
    | inl t ↦
        let skipped = move_to s (skip_to (125 ∷ []) s.parser) in
        let same : push_text skipped ≡ s' = ground (arith, e, t) in
        (
          sym (push_text_same skipped).1
              ∙ ap (λ (x : FormatParser Info). x.has_positional) same
              ∙ h,
          λ plain.
              subst (λ (x : FormatParser Info). Plain x) same
                (push_text_lem skipped (moved s _ refl (omega arith) plain)),
        )
    | inr t ↦
        let found = move_to (push_text s) (skip_to (125 ∷ (58 ∷ [])) (push_text s).parser) in
        let out = field_lem (push_text s) found s' (ground (arith, e, t)) h in
        (
          sym (push_text_same s).1 ∙ out.0,
          λ plain. out.1 (moved (push_text s) _ refl (omega arith) (push_text_lem s plain)),
        )
  ]

  advanced : (s : FormatParser Info) → Plain s → Plain (advance s)
  advanced s plain = moved s _ refl (omega arith) plain

  round_lem :
      (s s' : FormatParser Info)
      → round std location arg_types s ≡ ok s'
      → s'.has_positional ≡ false
      → (s.has_positional ≡ false) × (Plain s → Plain s')
  unfolding round
  round_lem s s' e h = elim (Option-cases (Scan.current s.parser)) [
    | inl n ↦ absurd (ground (arith, e, n))
    | inr (c, n) ↦ elim (Bool-cases (c == 123)) [
      | inr t ↦
          let same : advance s ≡ s' = ground (arith, e, n, t) in
          (
            ground (arith, same, h),
            λ plain. subst (λ (x : FormatParser Info). Plain x) same (advanced s plain),
          )
      | inl t ↦ elim (Option-cases (Scan.current (advance s).parser)) [
        | inl m ↦ absurd (ground (arith, e, n, t, m))
        | inr (d, m) ↦
            let out = behind_brace_lem d (advance s) s' (ground (arith, e, n, t, m)) h in
            (out.0, λ plain. out.1 (advanced s plain))
      ]
    ]
  ]

  pub parse_loop-Plain :
      (fuel : ℕ) (s s' : FormatParser Info)
      → parse_loop std location arg_types fuel s ≡ ok s'
      → s'.has_positional ≡ false
      → (s.has_positional ≡ false) × (Plain s → Plain s')
  unfolding parse_loop
  parse_loop-Plain zero s s' e h =
      let same : s ≡ s' = ground (arith, e) in
      (ground (arith, same, h), λ plain. subst (λ (x : FormatParser Info). Plain x) same plain)
  parse_loop-Plain (suc fuel) s s' e h = elim (Bool-cases (Scan.is_valid s.parser)) [
    | inr t ↦
        let same : s ≡ s' = ground (arith, e, t) in
        (ground (arith, same, h), λ plain. subst (λ (x : FormatParser Info). Plain x) same plain)
    | inl t ↦
        let got =
          bind_ok (round std location arg_types s)
            (λ (x : FormatParser Info). parse_loop std location arg_types fuel x) s'
            (ground (arith, e, t)) in
        let later = parse_loop-Plain fuel got.0 s' got.2 h in
        let now = round_lem s got.0 got.1 later.0 in (now.0, λ plain. later.1 (now.1 plain))
  ]
