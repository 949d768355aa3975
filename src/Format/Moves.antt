-- ===== src/Format/Moves.antt =====
-- How the loop of `do_parse` of include/erl/_impl/format/named.hpp moves the cursor.
use cpp26_experiments.Base.{
  ℕ, zero, suc, ◌+◌, ◌≤◌, ◌<◌, ◌≡◌, refl, ap, ◌∙◌, subst, true, false, List, [], ◌∷◌, Bytes, length,
  arith, none, some, Option-cases, Bool-cases, inl, inr, ◌==◌, get_elem?,
}
use cpp26_experiments.Util.Strings.{stou}
use cpp26_experiments.Meta.Info.{Compiler}
use cpp26_experiments.Format.Accessor.{get_accessor}
use cpp26_experiments.Format.Outcome.{Outcome, ok, invalid, undefined, ◌>>=◌}
use cpp26_experiments.Format.Scan.{Parser, skip_to}
use cpp26_experiments.Format.Scan as Scan
use cpp26_experiments.Format.Fragments.{
  FormatParser, Location, push_text, push_text_of, push_accessor, advance, move_to, between,
}
use cpp26_experiments.Format.Fields.{
  find_dot, by_index, by_accessor, implicit_field, named, field, behind_brace, round,
}
use cpp26_experiments.Format.Loop.{parse_loop}

pub bind_ok {ℓ κ} :
    {A : Type ℓ} {B : Type κ} (o : Outcome A) (f : A → Outcome B) (b : B)
    → (o >>= f) ≡ ok b
    → (a : A) × (o ≡ ok a) × (f a ≡ ok b)
bind_ok (ok a) f b e = (a, refl, e)
bind_ok (invalid m) f b e = cc
bind_ok undefined f b e = cc

module _ {Info : Type 0} where
  pub push_text_same :
      (state : FormatParser Info)
      → ((push_text state).parser ≡ state.parser)
        × ((push_text state).has_positional ≡ state.has_positional)
  unfolding push_text
  push_text_same state = elim (Bool-cases (state.fragment_start == state.parser.cursor)) [
    | inl e ↦ rw e (refl, refl)
    | inr e ↦ rw e (refl, refl)
  ]

  abbrev Moves : FormatParser Info → FormatParser Info → Type 0
  Moves s s' = (s'.parser.text ≡ s.parser.text) × (s.parser.cursor ≤ s'.parser.cursor)

module _ {Info : Type 0} (std : Compiler Info) (location : Location) (arg_types : List Info) where
  by_index_lem :
      (index : ℕ) (s s' : FormatParser Info)
      → by_index std location arg_types index s ≡ ok s'
      → Moves s s'
  unfolding by_index push_text_of
  by_index_lem index s s' e = elim (Option-cases (get_elem? s.direct index)) [
    | inl n ↦ absurd (ground (arith, n, e))
    | inr (none, n) ↦ (ground (arith, n, e), ground (arith, n, e))
    | inr (some k, n) ↦ (ground (arith, n, e), ground (arith, n, e))
  ]

  by_accessor_lem :
      (index : ℕ) (expression : Bytes) (s s' : FormatParser Info)
      → by_accessor std location arg_types index expression s ≡ ok s'
      → Moves s s'
  unfolding by_accessor push_accessor
  by_accessor_lem index expression s s' e = elim (Option-cases (get_elem? arg_types index)) [
    | inl n ↦ absurd (ground (arith, n, e))
    | inr (arg_type, n) ↦ elim (Option-cases (get_accessor std expression index arg_type)) [
      | inl m ↦ absurd (ground (arith, n, m, e))
      | inr (accessor, m) ↦ (ground (arith, n, m, e), ground (arith, n, m, e))
    ]
  ]

  implicit_field_lem :
      (name : Bytes) (s s' : FormatParser Info)
      → implicit_field std location arg_types name s ≡ ok s'
      → Moves s s'
  unfolding implicit_field
  implicit_field_lem name s s' e = ground (arith, e, by_accessor_lem 0 name s s')

  named_lem :
      (name : Bytes) (s s' : FormatParser Info)
      → named std location arg_types name s ≡ ok s'
      → Moves s s'
  unfolding named
  named_lem name s s' e = elim (Option-cases (find_dot name)) [
    | inl n ↦ ground (arith, e, n, implicit_field_lem name s s', by_index_lem (stou name) s s')
    | inr ((before, behind), n) ↦ ground (
      arith,
      e,
      n,
      implicit_field_lem name s s',
      by_index_lem (stou name) s s',
      by_accessor_lem (stou before) behind s s',
    )
  ]

  field_lem :
      (s found s' : FormatParser Info)
      → field std location arg_types s found ≡ ok s'
      → Moves found s'
  unfolding field
  field_lem s found s' e = ground (
    arith,
    e,
    named_lem (between found s.parser.cursor found.parser.cursor)
        (record found { has_positional = true }) s',
    push_text_same (advance (record found { has_empty = true })),
  )

  behind_brace_lem :
      (c : ℕ) (s s' : FormatParser Info)
      → behind_brace std location arg_types c s ≡ ok s'
      → Moves s s'
  unfolding behind_brace skip_to
  behind_brace_lem c s s' e =
      let skipped = move_to s (skip_to (125 ∷ []) s.parser) in
      let found = move_to (push_text s) (skip_to (125 ∷ (58 ∷ [])) (push_text s).parser) in
      ground (arith, e, push_text_same skipped, push_text_same s, field_lem (push_text s) found s')

  -- A round takes at least one character.
  round_lem :
      (s s' : FormatParser Info)
      → round std location arg_types s ≡ ok s'
      → (s'.parser.text ≡ s.parser.text) × (s.parser.cursor < s'.parser.cursor)
  unfolding round
  round_lem s s' e = elim (Option-cases (Scan.current s.parser)) [
    | inl n ↦ absurd (ground (arith, e, n))
    | inr (c, n) ↦ elim (Bool-cases (c == 123)) [
      | inr t ↦ (ground (arith, e, n, t), ground (arith, e, n, t))
      | inl t ↦ elim (Option-cases (Scan.current (advance s).parser)) [
        | inl m ↦ absurd (ground (arith, e, n, t, m))
        | inr (d, m) ↦
            let out = behind_brace_lem d (advance s) s' (ground (arith, e, n, t, m)) in
            (out.0, omega (arith, out.1))
      ]
    ]
  ]

  -- With a fuel that covers the text behind the cursor, a loop over a format string that is
  -- not given up has read the text to its end, and has left the text as it was.
  pub parse_loop-is_valid :
      (fuel : ℕ) (s s' : FormatParser Info)
      → length s.parser.text ≤ fuel + s.parser.cursor
      → parse_loop std location arg_types fuel s ≡ ok s'
      → (s'.parser.text ≡ s.parser.text) × (Scan.is_valid s'.parser ≡ false)
  unfolding parse_loop
  parse_loop-is_valid zero s s' h e =
      let same : s ≡ s' = ground (arith, e) in
      subst
        (λ (x : FormatParser Info).
          (x.parser.text ≡ s.parser.text) × (Scan.is_valid x.parser ≡ false))
        same (refl, ground (arith, h))
  parse_loop-is_valid (suc fuel) s s' h e = elim (Bool-cases (Scan.is_valid s.parser)) [
    | inr t ↦
        let same : s ≡ s' = ground (arith, e, t) in
        subst
          (λ (x : FormatParser Info).
            (x.parser.text ≡ s.parser.text) × (Scan.is_valid x.parser ≡ false))
          same (refl, t)
    | inl t ↦
        let got =
          bind_ok (round std location arg_types s)
            (λ (x : FormatParser Info). parse_loop std location arg_types fuel x) s'
            (ground (arith, e, t)) in
        let step = round_lem s got.0 got.1 in
        let later =
          parse_loop-is_valid fuel got.0 s' (omega (arith, ap length step.0, step.1, h)) got.2 in
        (later.0 ∙ step.0, later.1)
  ]
