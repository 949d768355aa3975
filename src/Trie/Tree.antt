-- ===== src/Trie/Tree.antt =====
-- `ParsedState` of include/erl/_impl/util/trie.hpp: how the tree of a list of words is built.
use cpp26_experiments.Base.{
  ℕ, zero, suc, ◌+◌, ◌%◌, ◌^◌, ◌==◌, ltb, Bool, true, false, List, [], ◌∷◌, Option, none, some,
  Bytes, length, take, drop, bytes_eq, if◌then◌else◌, ◌>>=◌,
}

-- A vector of `ParsedState`: the prefix, the transitions and the word index of its first element,
-- and the elements behind it. A pack of `State` has the same fields.
pub data States : Type 0 where
  end : States
  state : Bytes → States → ℕ → States → States

-- `<` of two string views, by the codes of their characters.
unfoldable pub text_lt : Bytes → Bytes → Bool
text_lt x [] = false
text_lt [] (d ∷ y) = true
text_lt (c ∷ x) (d ∷ y) = let later = text_lt x y in if c == d then later else ltb c d

unfoldable pub sort_insert : Bytes → List Bytes → List Bytes
sort_insert w [] = w ∷ []
sort_insert w (x ∷ xs) = if text_lt x w then x ∷ sort_insert w xs else w ∷ (x ∷ xs)

unfoldable pub sort : List Bytes → List Bytes
sort [] = []
sort (w ∷ ws) = sort_insert w (sort ws)

-- The distance to what `std::ranges::find` returns.
unfoldable pub position : List Bytes → Bytes → ℕ
position [] w = 0
position (x ∷ xs) w = let later = position xs w in if bytes_eq x w then 0 else suc later

-- `s.prefix.starts_with(word[i])`
abbrev pub starts_with_char : Bytes → ℕ → Bool
starts_with_char [] c = false
starts_with_char (d ∷ p) c = d == c

-- `match_len`: `std::mismatch` is not given the end of the word, and none is that it reads there.
unfoldable pub mismatch : Bytes → Bytes → Option ℕ
mismatch [] w = some 0
mismatch (c ∷ p) [] = none
mismatch (c ∷ p) (d ∷ w) =
    let later = mismatch p w in if c == d then later >>= (λ m. some (suc m)) else some 0

-- The end of a round, at the state whose prefix agrees with `match_len` characters of the word: it
-- is split in two if that is not all of it. `walk` is the rounds that follow, on what is left of the
-- word.
abbrev pub descend :
    (Bytes → States → Option States)
    → Bytes
    → ℕ
    → Bool
    → Bytes
    → States
    → ℕ
    → States
    → Option States
descend walk word match_len true prefix transitions index others = do
  transitions' ← walk (drop match_len word) (state (drop match_len prefix) transitions 0 end)
  some (state (take match_len prefix) transitions' index others)
descend walk word match_len false prefix transitions index others = do
  transitions' ← walk (drop match_len word) transitions
  some (state prefix transitions' index others)

-- A round of the loop over a word, of which `c` is the first character, at the transitions of
-- `node`.
unfoldable pub round : (Bytes → States → Option States) → Bytes → ℕ → ℕ → States → Option States
round walk word c word_idx end = some (state word (state [] end word_idx end) 0 end)
round walk word c word_idx (state prefix transitions index others) =
    let later = round walk word c word_idx others in
    elim (starts_with_char prefix c) [
      | true ↦ do
        match_len ← mismatch prefix word
        descend walk word match_len (ltb match_len (length prefix)) prefix transitions index others
      | false ↦ do others' ← later; some (state prefix transitions index others')
    ]

-- The loop over a word. Each round takes at least one character, and `fuel` bounds the rounds.
unfoldable pub insert : ℕ → ℕ → Bytes → States → Option States
insert fuel word_idx [] root = some root
insert zero word_idx (c ∷ word) root = some root
insert (suc fuel) word_idx (c ∷ word) root = round (insert fuel word_idx) (c ∷ word) c word_idx root

unfoldable pub insert_all : List Bytes → List Bytes → States → Option States
insert_all words [] root = some root
insert_all words (word ∷ sorted_words) root = do
  root' ← insert (length word) ((position words word + 1) % 2 ^ 32) word root
  insert_all words sorted_words root'

-- `ParsedState::make`: the transitions of the root.
unfoldable pub make : List Bytes → Option States
make words = insert_all words (sort words) end
