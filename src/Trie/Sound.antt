-- ===== src/Trie/Sound.antt =====
-- Lookups in the tree of a list of words, of include/erl/_impl/util/trie.hpp.
use cpp26_experiments.Base.{
  ℕ, ◌+◌, ◌%◌, ◌-◌, ◌^◌, ◌≡◌, ◌<◌, subst, sym, Bool, List, [], ◌∷◌, some, Bytes, length, arith, All,
  get_elem?, get_elem?_bound, refl,
}
use cpp26_experiments.Trie.Tree.{States, make, position}
use cpp26_experiments.Trie.Lookup.{convert, visit, find}
use cpp26_experiments.Trie.Entries.{Visited, convert_lem, visit_lem}
use cpp26_experiments.Trie.Build.{NonNull}
use cpp26_experiments.Trie.Words.{Indexed, make_lem}

module _ (words : List Bytes) (str : Bytes) (short : length words < 2 ^ 32 - 2) where
  -- What the visitor left, less one, is the word's place.
  visited_word :
      (out : Bool × ℕ)
      → Visited (Indexed words) str (2 ^ 32 - 1) out
      → (out.1 + (2 ^ 32 - 1)) % 2 ^ 32 < length words
      → get_elem? words ((out.1 + (2 ^ 32 - 1)) % 2 ^ 32) ≡ some str
  visited_word out (Visited.found index n h) lt =
      let place : (index + (2 ^ 32 - 1)) % 2 ^ 32 ≡ position words str =
        omega (arith, h.0, get_elem?_bound words (position words str) str h.1) in
      subst (λ (k : ℕ). get_elem? words k ≡ some str) (sym place) h.1
  visited_word out Visited.missed lt = absurd (omega arith)
  visited_word out Visited.cleared lt = absurd (omega arith)

  find_cases :
      (tree : States)
      → All NonNull words
      → make words ≡ some tree
      → (text : Bytes) → text ≡ str
      → find (convert tree) text < length words
      → get_elem? words (find (convert tree) text) ≡ some str
  unfolding find
  find_cases tree h eq [] same lt = absurd (omega arith)
  find_cases tree h eq (c ∷ text) same lt =
      visited_word (visit (convert tree) (c ∷ text) (2 ^ 32 - 1))
        (subst
          (λ (t : Bytes).
            Visited (Indexed words) t (2 ^ 32 - 1) (visit (convert tree) (c ∷ text) (2 ^ 32 - 1)))
          same
          (visit_lem (Indexed words) (convert tree) (c ∷ text) (2 ^ 32 - 1)
            (convert_lem (Indexed words) tree (make_lem words tree h eq))))
        lt

  -- For fewer than 2^32 - 2 words without null characters and the tree that is made of them:
  -- if the lookup of a text gives a number below the number of words, then the text is the
  -- word at that place.
  pub find-make :
      (tree : States)
      → All NonNull words
      → make words ≡ some tree
      → find (convert tree) str < length words
      → get_elem? words (find (convert tree) str) ≡ some str
  unfolding find
  find-make tree h eq lt = find_cases tree h eq str refl lt
