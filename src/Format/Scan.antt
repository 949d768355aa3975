-- ===== src/Format/Scan.antt =====
-- include/erl/_impl/util/parser.hpp: `Parser`.
use cpp26_experiments.Base.{
  ℕ, suc, ◌+◌, ◌-◌, ◌%◌, ◌^◌, ◌==◌, ltb, Bool, ◌&&◌, ◌||◌, List, [], ◌∷◌, Option, Bytes, length,
  get_elem?, drop, if◌then◌else◌,
}
use cpp26_experiments.Util.Strings.{is_whitespace}
use cpp26_experiments.Meta.Members.{any_of}

pub record Parser : Type 0 where
  pub text : Bytes
  pub cursor : ℕ

abbrev pub is_valid : Parser → Bool
is_valid parser = ltb parser.cursor (length parser.text)

-- An access past the end is undefined.
abbrev pub current : Parser → Option ℕ
current parser = get_elem? parser.text parser.cursor

-- How far `skip_whitespace` moves the cursor, over what is left of the text.
unfoldable pub whitespace_length : Bytes → ℕ
whitespace_length [] = 0
whitespace_length (c ∷ text) =
    let more = whitespace_length text in if is_whitespace c || c == 92 then suc more else 0

unfoldable pub skip_whitespace : Parser → Parser
skip_whitespace parser = record parser {
  cursor = parser.cursor + whitespace_length (drop parser.cursor parser.text);
}

-- `++brace_count` or `--brace_count`, of 32 bits.
unfoldable pub count_brace : ℕ → ℕ → ℕ
count_brace c brace_count =
    if c == 91 || c == 123 || c == 40
    then (brace_count + 1) % 2 ^ 32
    else (if c == 93 || c == 125 || c == 41
        then (brace_count + (2 ^ 32 - 1)) % 2 ^ 32
        else brace_count)

-- How far `skip_to` moves the cursor, over what is left of the text.
unfoldable pub distance_to : List ℕ → ℕ → Bytes → ℕ
distance_to needles brace_count [] = 0
distance_to needles brace_count (c ∷ text) =
    let more = distance_to needles (count_brace c brace_count) text in
    if brace_count == 0 && any_of (λ needle. c == needle) needles then 0 else suc more

unfoldable pub skip_to : List ℕ → Parser → Parser
skip_to needles parser = record parser {
  cursor = parser.cursor + distance_to needles 0 (drop parser.cursor parser.text);
}
