-- ===== src/Format/Tests.antt =====
-- Runs of the model of include/erl/_impl/format/named.hpp, and the theorems at such inputs.
use cpp26_experiments.Base.{
  ℕ, true, false, List, [], ◌∷◌, none, Bytes, codes, ◌≡◌, refl, arith, length,
}
use cpp26_experiments.Util.Strings.{utos, utos_loop, stou, stou_from, is_integer, is_digit}
use cpp26_experiments.Meta.Sample.{sample}
use cpp26_experiments.Meta.Packs.{sequence}
use cpp26_experiments.Meta.Members.{get_nth_member, get_member_index, find_name}
use cpp26_experiments.Format.Outcome.{ok}
use cpp26_experiments.Format.Scan.{distance_to, skip_to, count_brace}
use cpp26_experiments.Format.Scan as Scan
use cpp26_experiments.Format.Accessor.{get_accessor, fields_of, field_of, split, pieces, member}
use cpp26_experiments.Format.Fragments.{
  FormatParser, Location, text_fragment, push_text, push_text_of, push_accessor, render, push,
}
use cpp26_experiments.Format.Fields.{
  round, behind_brace, field, named, implicit_field, by_accessor, by_index, find_dot,
}
use cpp26_experiments.Format.Loop.{start, transform, used_indices, parse_loop, parse}
use cpp26_experiments.Format.Whole.{transform-parse_loop}
use cpp26_experiments.Format.Moves.{parse_loop-is_valid}

abbrev here : Location
here = record { file_name = codes "main.cpp"; line = 3; column = 5 }

abbrev source : Bytes
source = codes "a{}{{b}}"

abbrev two_arguments : List ℕ
two_arguments = 1 ∷ (2 ∷ [])

abbrev ended : FormatParser ℕ
ended = record {
  parser = record { text = source; cursor = 8 };
  fragments =
      text_fragment (codes "a{")
      ∷ (text_fragment (codes "}") ∷ (text_fragment (codes "{{b}") ∷ []));
  fragment_start = 7;
  direct = none ∷ (none ∷ []);
  used = 0;
  accessors = [];
  has_empty = true;
  has_positional = false;
}

loop_run : parse_loop sample here two_arguments (length source) (start source 2) ≡ ok ended
unfolding parse_loop round behind_brace field push_text skip_to distance_to count_brace
loop_run = refl

transform-parse_loop_example :
    transform ended ≡ record { fmt = source; direct_list = sequence 2; accessors = [] }
transform-parse_loop_example =
    transform-parse_loop sample here two_arguments source ended loop_run refl

parse_loop-is_valid_example : (ended.parser.text ≡ source) × (Scan.is_valid ended.parser ≡ false)
parse_loop-is_valid_example =
    parse_loop-is_valid sample here two_arguments 8 (start source 2) ended (omega arith) loop_run

-- The numbers are handed out in the order of use, and the arguments passed in their own order.
swapped :
    parse sample here two_arguments (codes "{1} {0}")
    ≡ ok (record { fmt = codes "{0} {1}"; direct_list = 0 ∷ (1 ∷ []); accessors = [] })
unfolding parse parse_loop round behind_brace field push_text skip_to distance_to count_brace named
    by_index push_text_of is_integer is_digit stou stou_from utos utos_loop transform used_indices
    render push
swapped = refl

-- A member by name, of the only argument.
by_name :
    parse sample here (0 ∷ []) (codes "{depth}")
    ≡ ok (record {
      fmt = codes "{0}";
      direct_list = [];
      accessors = record { index = 0; fields = member 2 ∷ [] } ∷ [];
    })
unfolding parse parse_loop round behind_brace field push_text skip_to distance_to count_brace named
    by_index implicit_field by_accessor push_accessor is_integer is_digit find_dot get_accessor
    fields_of field_of split pieces get_nth_member get_member_index find_name utos utos_loop
    transform used_indices render push
by_name = refl
