-- ===== src/Trie/Tests.antt =====
-- Runs of the model of include/erl/_impl/util/trie.hpp, and the theorem at such an input.
use cpp26_experiments.Base.{
  ℕ, zero, suc, ◌++◌, List, [], ◌∷◌, some, Bytes, codes, ◌≡◌, refl, ◌-◌, ◌^◌, get_elem?, arith,
}
use cpp26_experiments.Trie.Tree.{
  States, end, state, make, sort, sort_insert, text_lt, insert_all, insert, round, mismatch,
  position,
}
use cpp26_experiments.Trie.Lookup.{find, visit, enters, starts_with, c_string, convert, index_of}
use cpp26_experiments.Trie.Sound.{find-make}
use cpp26_experiments.Trie.Exact.{PrefixFree, find-position}

abbrev some_words : List Bytes
some_words = codes "help" ∷ codes "hello" ∷ codes "world" ∷ codes "hell" ∷ []

abbrev leaf : ℕ → States
leaf index = state [] end index end

-- The tree of these words.
abbrev some_tree : States
some_tree =
    state (codes "hel")
      (state (codes "l") (state [] end 4 (state (codes "o") (leaf 2) 0 end)) 0
        (state (codes "p") (leaf 1) 0 end))
      0 (state (codes "world") (leaf 3) 0 end)

make_run : make some_words ≡ some some_tree
unfolding make sort sort_insert text_lt insert_all insert round mismatch position
make_run = refl

find-make_example :
    get_elem? some_words (find (convert some_tree) (codes "world")) ≡ some (codes "world")
unfolding find visit enters starts_with c_string convert index_of
find-make_example =
    find-make some_words (codes "world") (omega arith) some_tree (omega arith) make_run
      (omega arith)

abbrev lookup : Bytes → ℕ
lookup str = find (convert some_tree) str

-- Behind a word that ends in a state of one character, the words that go on are not found.
word_behind_word : lookup (codes "hello") ≡ 2 ^ 32 - 2
unfolding find visit enters starts_with c_string convert index_of
word_behind_word = refl

-- A prefix of words and an empty text give -1U, any other text -2U.
prefix_alone : lookup (codes "hel") ≡ 2 ^ 32 - 1
unfolding find visit enters starts_with c_string convert index_of
prefix_alone = refl

empty_text : lookup [] ≡ 2 ^ 32 - 1
unfolding find
empty_text = refl

-- Two words of which none starts the other.
abbrev two_words : List Bytes
two_words = codes "to" ∷ codes "at" ∷ []

same_tail : (u e : Bytes) → u ≡ u ++ e → e ≡ []
same_tail [] e h = cc
same_tail (c ∷ u) e h = same_tail u e (cc (h))

two_words-PrefixFree : PrefixFree two_words
two_words-PrefixFree u e zero zero h k = same_tail u e (cc (h, k))
two_words-PrefixFree [] e zero (suc zero) h k = cc
two_words-PrefixFree (c ∷ u) e zero (suc zero) h k = absurd (ground (arith, h, k))
two_words-PrefixFree [] e (suc zero) zero h k = cc
two_words-PrefixFree (c ∷ u) e (suc zero) zero h k = absurd (ground (arith, h, k))
two_words-PrefixFree u e (suc zero) (suc zero) h k = same_tail u e (cc (h, k))
two_words-PrefixFree u e zero (suc (suc j)) h k = cc
two_words-PrefixFree u e (suc zero) (suc (suc j)) h k = cc
two_words-PrefixFree u e (suc (suc i)) j h k = cc

find-position_example :
    (tree : States) × (make two_words ≡ some tree)
    × (find (convert tree) (codes "at") ≡ position two_words (codes "at"))
find-position_example =
    find-position two_words 1 (codes "at") (omega arith) (omega arith) two_words-PrefixFree refl
      (omega arith)
