-- ===== src/Format/Fragments.antt =====
-- include/erl/_impl/format/named.hpp: the fragments of a format string, and the state of
-- `FormatParser` with the locals of `do_parse`.
use cpp26_experiments.Base.{
  ℕ, suc, ◌+◌, ◌-◌, ◌%◌, ◌^◌, ◌==◌, Bool, List, [], ◌∷◌, ◌++◌, Option, Bytes, codes, length, take,
  drop, replicate, if◌then◌else◌,
}
use cpp26_experiments.Util.Strings.{utos}
use cpp26_experiments.Format.Scan.{Parser}
use cpp26_experiments.Format.Accessor.{Accessor}

pub data Fragment : Type 0 where
  text_fragment : Bytes → Fragment
  accessor_fragment : ℕ → Fragment

-- `Fragment::push`, of an `int` that is one less than `direct`. The difference stops at 0, as the
-- source's clamp does.
unfoldable pub push : ℕ → Bytes → Fragment → Bytes
push direct out (text_fragment text) = out ++ text
push direct out (accessor_fragment index) = out ++ utos ((direct + index) - 1)

unfoldable pub render : ℕ → Bytes → List Fragment → Bytes
render direct out [] = out
render direct out (fragment ∷ fragments) = render direct (push direct out fragment) fragments

-- `direct` holds the number of each argument that is named by its place; none is -1.
pub record FormatParser (Info : Type 0) : Type 0 where
  pub parser : Parser
  pub fragments : List Fragment
  pub fragment_start : ℕ
  pub direct : List (Option ℕ)
  pub used : ℕ
  pub accessors : List (Accessor Info)
  pub has_empty : Bool
  pub has_positional : Bool

pub record Location : Type 0 where
  pub file_name : Bytes
  pub line : ℕ
  pub column : ℕ

module _ {Info : Type 0} where
  abbrev pub move_to : FormatParser Info → Parser → FormatParser Info
  move_to state parser = record state { parser = parser }

  abbrev pub advance : FormatParser Info → FormatParser Info
  advance state = move_to state (record state.parser { cursor = suc state.parser.cursor })

  -- `data.substr(first, last - first)`
  abbrev pub between : FormatParser Info → ℕ → ℕ → Bytes
  between state first last = take (last - first) (drop first state.parser.text)

  -- `push_text()`: the text since the last fragment, if there is any.
  unfoldable pub push_text : FormatParser Info → FormatParser Info
  push_text state = if state.fragment_start == state.parser.cursor then state else record state {
    fragments =
        state.fragments
        ++ (text_fragment (between state state.fragment_start state.parser.cursor) ∷ []);
    fragment_start = state.parser.cursor;
  }

  -- `push_text` of a text that is not empty.
  unfoldable pub push_text_of : Bytes → FormatParser Info → FormatParser Info
  push_text_of str state = record state {
    fragments = state.fragments ++ (text_fragment str ∷ []);
    fragment_start = state.parser.cursor;
  }

  unfoldable pub push_accessor : ℕ → FormatParser Info → FormatParser Info
  push_accessor index state = record state {
    fragments = state.fragments ++ (accessor_fragment index ∷ []);
    fragment_start = state.parser.cursor;
  }

  -- `FormatParser::error`, where a fragment has been started behind the first character.
  unfoldable pub error : Location → Bytes → FormatParser Info → Bytes
  error location message state =
      let line = utos location.line in
      codes "Invalid format string\n"
      ++ (location.file_name
          ++ (codes ":"
              ++ (line
                  ++ (codes ":"
                      ++ (utos ((location.column + (2 ^ 32 - 1)) % 2 ^ 32)
                          ++ (codes ": error: "
                              ++ (message
                                  ++ (codes "\n"
                                      ++ (codes "  "
                                          ++ (line
                                              ++ (codes " | "
                                                  ++ (state.parser.text
                                                      ++ (codes "\n"
                                                          ++ (replicate (5 + length line) 32
                                                            ++ (replicate (state.fragment_start - 1)
                                                            32
                                                            ++ (codes "^"
                                                            ++ (replicate
                                                            ((state.parser.cursor + 1)
                                                            - state.fragment_start)
                                                            126
                                                            ++ (codes "\n"
                                                            ++ codes
                                                            "raised from:"))))))))))))))))))
