-- ===== src/Trie/Lookup.antt =====
-- `State`, `Root` and the conversion to them of include/erl/_impl/util/trie.hpp.
use cpp26_experiments.Base.{
  ℕ, ◌+◌, ◌-◌, ◌%◌, ◌^◌, ◌==◌, Bool, true, false, not, ◌&&◌, [], ◌∷◌, Bytes, length, drop,
  if◌then◌else◌,
}
use cpp26_experiments.Trie.Tree.{States, end, state}

-- The word index of a state: that of its last transition of an empty prefix, or 0.
unfoldable pub index_of : ℕ → States → ℕ
index_of index end = index
index_of index (state [] transitions word_index others) = index_of word_index others
index_of index (state (c ∷ prefix) transitions word_index others) = index_of index others

-- The conversion to `std::meta::info`, of a vector of states.
unfoldable pub convert : States → States
convert end = end
convert (state [] transitions word_index others) = convert others
convert (state (c ∷ prefix) transitions word_index others) =
    state (c ∷ prefix) (convert transitions) (index_of 0 transitions) (convert others)

-- `transition` is handed over as a C string, which ends at the first null character.
unfoldable pub c_string : Bytes → Bytes
c_string [] = []
c_string (c ∷ text) = if c == 0 then [] else c ∷ c_string text

unfoldable pub starts_with : Bytes → Bytes → Bool
starts_with text [] = true
starts_with [] (d ∷ prefix) = false
starts_with (c ∷ text) (d ∷ prefix) = (c == d) && starts_with text prefix

-- The tests at the head of `State::visit`, of a text that is not empty.
unfoldable pub enters : Bytes → ℕ → Bytes → Bool
enters transition word_index str =
    if length transition == 1
    then (if not (word_index == 0) && not (length str == 1)
        then false
        else starts_with str transition)
    else starts_with str (c_string transition)

-- `State::visit`, folded by `||` over the transitions: what it returns, beside the visitor's
-- `result`.
unfoldable pub visit : States → Bytes → ℕ → Bool × ℕ
visit end str result = (false, result)
visit (state transition transitions word_index others) str result =
    elim (enters transition word_index str) [
      | true ↦ elim (drop (length transition) str) [
        | [] ↦ elim (word_index == 0) [ true ↦ visit others str 0 | false ↦ (true, word_index) ]
        | c ∷ rest ↦
            let inner = visit transitions (c ∷ rest) result in
            elim inner.0 [ true ↦ (true, inner.1) | false ↦ visit others str inner.1 ]
      ]
      | false ↦ visit others str result
    ]

-- `Root::matches`
unfoldable pub matches : States → Bytes → Bool
matches transitions [] = false
matches transitions (c ∷ str) = (visit transitions (c ∷ str) 0).0

-- `Root::find`; `result` starts as -1U, and one is taken from it.
unfoldable pub find : States → Bytes → ℕ
find transitions [] = 2 ^ 32 - 1
find transitions (c ∷ str) = ((visit transitions (c ∷ str) (2 ^ 32 - 1)).1 + (2 ^ 32 - 1)) % 2 ^ 32
