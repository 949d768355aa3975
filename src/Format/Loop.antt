-- ===== src/Format/Loop.antt =====
-- include/erl/_impl/format/named.hpp: `FormatParser::parse`.
use cpp26_experiments.Base.{
  ℕ, zero, suc, true, false, List, [], ◌∷◌, Option, none, some, Bytes, length, replicate,
  if◌then◌else◌,
}
use cpp26_experiments.Meta.Info.{Compiler}
use cpp26_experiments.Meta.Packs.{sequence}
use cpp26_experiments.Format.Outcome.{Outcome, ok, ◌>>=◌}
use cpp26_experiments.Format.Scan as Scan
use cpp26_experiments.Format.Accessor.{Accessor}
use cpp26_experiments.Format.Fragments.{FormatParser, Location, push_text, render}
use cpp26_experiments.Format.Fields.{round}

-- `Transformed`, of a format string without an error.
pub record Transformed (Info : Type 0) : Type 0 where
  pub fmt : Bytes
  pub direct_list : List ℕ
  pub accessors : List (Accessor Info)

-- The places of `direct` that are not -1, in order.
unfoldable pub used_indices : ℕ → List (Option ℕ) → List ℕ
used_indices x [] = []
used_indices x (none ∷ direct) = used_indices (suc x) direct
used_indices x (some number ∷ direct) = x ∷ used_indices (suc x) direct

module _ {Info : Type 0} where
  abbrev pub start : Bytes → ℕ → FormatParser Info
  start source argc = record {
    parser = record { text = source; cursor = 0 };
    fragments = [];
    fragment_start = 0;
    direct = replicate argc none;
    used = 0;
    accessors = [];
    has_empty = false;
    has_positional = false;
  }

  -- Behind the loop.
  unfoldable pub transform : FormatParser Info → Transformed Info
  transform state =
      let direct_indices =
        if state.has_positional
        then used_indices 0 state.direct
        else sequence (length state.direct) in
      record {
        fmt = render (length direct_indices) [] (push_text state).fragments;
        direct_list = direct_indices;
        accessors = state.accessors;
      }

module _ {Info : Type 0} (std : Compiler Info) (location : Location) (arg_types : List Info) where
  -- The loop; each round moves the cursor, and `fuel` bounds the rounds.
  unfoldable pub parse_loop : ℕ → FormatParser Info → Outcome (FormatParser Info)
  parse_loop zero state = ok state
  parse_loop (suc fuel) state = elim (Scan.is_valid state.parser) [
    | false ↦ ok state
    | true ↦ do state' ← round std location arg_types state; parse_loop fuel state'
  ]

  unfoldable pub parse : Bytes → Outcome (Transformed Info)
  parse source = do
    state ← parse_loop (length source) (start source (length arg_types))
    ok (transform state)
