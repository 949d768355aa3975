-- ===== src/Format/Fields.antt =====
-- include/erl/_impl/format/named.hpp: the body of the loop of `do_parse`.
use cpp26_experiments.Base.{
  ℕ, suc, ◌==◌, Bool, true, false, List, [], ◌∷◌, ◌++◌, Option, none, some, Bytes, codes, length,
  get_elem?, set, if◌then◌else◌,
}
use cpp26_experiments.Util.Strings.{utos, stou, is_integer, is_digit}
use cpp26_experiments.Meta.Info.{Compiler}
use cpp26_experiments.Format.Outcome.{Outcome, ok, invalid, ◌>>=◌, access}
use cpp26_experiments.Format.Scan as Scan
use cpp26_experiments.Format.Scan.{skip_to}
use cpp26_experiments.Format.Accessor.{get_accessor}
use cpp26_experiments.Format.Fragments.{
  FormatParser, Location, move_to, advance, between, push_text, push_text_of, push_accessor, error,
}

-- `name.find('.')`: what stands before the first dot and behind it.
unfoldable pub find_dot : Bytes → Option (Bytes × Bytes)
find_dot [] = none
find_dot (c ∷ name) =
    let later = find_dot name in
    if c == 46
    then some ([], name)
    else elim later [ none ↦ none | some (before, behind) ↦ some (c ∷ before, behind) ]

abbrev pub starts_with_digit : Bytes → Bool
starts_with_digit [] = false
starts_with_digit (c ∷ name) = is_digit c

module _ {Info : Type 0} (std : Compiler Info) (location : Location) (arg_types : List Info) where
  -- A field by number. The numbers are handed out in the order of use.
  unfoldable pub by_index : ℕ → FormatParser Info → Outcome (FormatParser Info)
  by_index index state = do
    number ← access (get_elem? state.direct index)
    elim number [
      | none ↦ ok (
          push_text_of (utos state.used) (record state {
            direct = set state.direct index (some state.used);
            used = suc state.used;
          }))
      | some k ↦ ok (push_text_of (utos k) state)
    ]

  -- A field by accessor.
  unfoldable pub by_accessor : ℕ → Bytes → FormatParser Info → Outcome (FormatParser Info)
  by_accessor index expression state = do
    arg_type ← access (get_elem? arg_types index)
    accessor ← access (get_accessor std expression index arg_type)
    ok (
        advance (
          push_accessor (length (state.accessors ++ (accessor ∷ [])))
            (record state { accessors = state.accessors ++ (accessor ∷ []) })))

  unfoldable pub implicit_field : Bytes → FormatParser Info → Outcome (FormatParser Info)
  implicit_field name state =
      if length arg_types == 1
      then by_accessor 0 name state
      else invalid (
          error location
            (codes "Field names cannot be directly used if there's more than one argument") state)

  unfoldable pub named : Bytes → FormatParser Info → Outcome (FormatParser Info)
  named name state = if is_integer name then by_index (stou name) state else elim (find_dot name) [
    | none ↦ implicit_field name state
    | some (before, behind) ↦
        if starts_with_digit name
        then by_accessor (stou before) behind state
        else implicit_field name state
  ]

  -- Behind the brace of a field. `found` is the state behind the field's name.
  unfoldable pub field : FormatParser Info → FormatParser Info → Outcome (FormatParser Info)
  field state found =
      if state.parser.cursor == found.parser.cursor
      then (if found.has_positional
          then invalid (
              error location (codes "Either all or no arguments can be positional")
                (record found { has_empty = true }))
          else ok (push_text (advance (record found { has_empty = true }))))
      else (if found.has_empty
          then invalid (
              error location (codes "Either all or no arguments can be positional")
                (record found { has_positional = true }))
          else named (between found state.parser.cursor found.parser.cursor)
              (record found { has_positional = true }))

  -- Behind a brace, at `c`.
  unfoldable pub behind_brace : ℕ → FormatParser Info → Outcome (FormatParser Info)
  behind_brace c state =
      if c == 123
      then ok (push_text (move_to state (skip_to (125 ∷ []) state.parser)))
      else field (push_text state)
          (move_to (push_text state) (skip_to (125 ∷ (58 ∷ [])) (push_text state).parser))

  unfoldable pub round : FormatParser Info → Outcome (FormatParser Info)
  round state = do
    c ← access (Scan.current state.parser)
    elim (c == 123) [
      | false ↦ ok (advance state)
      | true ↦ do d ← access (Scan.current (advance state).parser); behind_brace d (advance state)
    ]
