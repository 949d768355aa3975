-- ===== src/Format/Whole.antt =====
-- What `do_parse` of include/erl/_impl/format/named.hpp makes of a format string.
use cpp26_experiments.Base.{
  ℕ, ◌≤◌, ◌≡◌, refl, ap, ap₂, ◌∙◌, if◌then◌else◌, false, List, [], Bytes, length, take, arith,
  take_all, length-replicate, none,
}
use cpp26_experiments.Meta.Info.{Compiler}
use cpp26_experiments.Meta.Packs.{sequence}
use cpp26_experiments.Format.Outcome.{ok}
use cpp26_experiments.Format.Accessor.{Accessor}
use cpp26_experiments.Format.Fragments.{FormatParser, Location, push_text, render}
use cpp26_experiments.Format.Moves.{parse_loop-is_valid}
use cpp26_experiments.Format.Plain.{Plain, push_text_lem, parse_loop-Plain}
use cpp26_experiments.Format.Loop.{Transformed, used_indices, start, transform, parse_loop}

module _ {Info : Type 0} (std : Compiler Info) (location : Location) (arg_types : List Info) where
  abbrev built : Bytes → List ℕ → List (Accessor Info) → Transformed Info
  built fmt direct_list accessors = record {
    fmt = fmt;
    direct_list = direct_list;
    accessors = accessors;
  }

  push_text_start :
      (state : FormatParser Info) → (push_text state).fragment_start ≡ state.parser.cursor
  unfolding push_text
  push_text_start state = ground arith

  start-Plain :
      (source : Bytes) → Plain std location arg_types source (start source (length arg_types))
  unfolding render
  start-Plain source = record {
    text_lem = refl;
    start_lem = omega arith;
    shown = λ d. refl;
    accessors_lem = refl;
    direct_lem = length-replicate (length arg_types) none;
  }

  -- If the loop over a format string ends without a named or a numbered field, the string is
  -- handed on unchanged, with all arguments in order and no accessor.
  pub transform-parse_loop :
      (source : Bytes) (state : FormatParser Info)
      → parse_loop std location arg_types (length source) (start source (length arg_types))
        ≡ ok state
      → state.has_positional ≡ false
      → transform state
        ≡ record { fmt = source; direct_list = sequence (length arg_types); accessors = [] }
  unfolding transform
  transform-parse_loop source state e h =
      let plain =
        (parse_loop-Plain std location arg_types source (length source)
            (start source (length arg_types)) state e h).1
          (start-Plain source) in
      let stops =
        parse_loop-is_valid std location arg_types (length source) (start source (length arg_types))
          state (omega arith) e in
      let pushed = push_text_lem std location arg_types source state plain in
      let passed : length source ≤ state.parser.cursor =
        ground (arith, stops.1, ap length stops.0) in
      let shown = (push_text state).fragments in
      let all = sequence (length arg_types) in
      let direct : (if state.has_positional
            then used_indices 0 state.direct
            else sequence (length state.direct))
          ≡ all =
        ground (arith, h, plain.direct_lem) in
      let whole : render (length all) [] shown ≡ source =
        pushed.shown (length all)
        ∙ ap (λ (n : ℕ). take n source) (push_text_start state)
        ∙ take_all state.parser.cursor source passed in
      ap (λ (d : List ℕ). built (render (length d) [] shown) d state.accessors) direct
      ∙ ap₂ (λ (t : Bytes) (a : List (Accessor Info)). built t all a) whole plain.accessors_lem
