-- ===== src/Trie/Order.antt =====
-- The order of the words that include/erl/_impl/util/trie.hpp sorts.
use cpp26_experiments.Base.{
  ◌≡◌, refl, true, false, List, [], ◌∷◌, ◌++◌, none, Bytes, arith, All, Bool-cases, Option-cases,
  inl, inr,
}
use cpp26_experiments.Trie.Tree.{text_lt, sort, sort_insert, mismatch}
use cpp26_experiments.Trie.Words.{All-mono, All-sort_insert}

text_lt_asym : (x y : Bytes) → text_lt x y ≡ true → text_lt y x ≡ false
unfolding text_lt
text_lt_asym x [] h = cc
text_lt_asym [] (d ∷ y) h = refl
text_lt_asym (c ∷ x) (d ∷ y) h = ground (arith, text_lt_asym x y)

text_ge_trans : (x y z : Bytes) → text_lt x y ≡ false → text_lt y z ≡ false → text_lt x z ≡ false
unfolding text_lt
text_ge_trans x y [] h k = refl
text_ge_trans x [] (e ∷ z) h k = cc
text_ge_trans [] (d ∷ y) (e ∷ z) h k = cc
text_ge_trans (c ∷ x) (d ∷ y) (e ∷ z) h k = ground (arith, text_ge_trans x y z)

-- What both start with does not count.
pub text_lt-append : (x a b : Bytes) → text_lt (x ++ a) (x ++ b) ≡ text_lt a b
unfolding text_lt
text_lt-append [] a b = refl
text_lt-append (c ∷ x) a b = ground (arith, text_lt-append x a b)

-- A word that ends inside a prefix is smaller than what has the prefix.
pub mismatch-text_lt : (p w e : Bytes) → mismatch p w ≡ none → text_lt w (p ++ e) ≡ true
unfolding mismatch text_lt
mismatch-text_lt [] w e h = cc
mismatch-text_lt (c ∷ p) [] e h = refl
mismatch-text_lt (c ∷ p) (d ∷ w) e h = elim (Option-cases (mismatch p w)) [
  | inl n ↦ ground (arith, h, n, mismatch-text_lt p w e n)
  | inr (k, n) ↦ absurd (ground (arith, h, n))
]

-- No word is smaller than one that stands before it.
abbrev pub Sorted : List Bytes → Type 0
Sorted [] = Unit
Sorted (w ∷ ws) = All (λ (v : Bytes). text_lt v w ≡ false) ws × Sorted ws

sort_insert-Sorted : (w : Bytes) (ws : List Bytes) → Sorted ws → Sorted (sort_insert w ws)
unfolding sort_insert
sort_insert-Sorted w [] h = (tt, tt)
sort_insert-Sorted w (x ∷ xs) h = elim (Bool-cases (text_lt x w)) [
  | inl e ↦ rw e (
    All-sort_insert (λ (v : Bytes). text_lt v x ≡ false) w xs (text_lt_asym x w e) h.0,
    sort_insert-Sorted w xs h.1,
  )
  | inr e ↦ rw e (
    (
      e,
      All-mono (λ (v : Bytes). text_lt v x ≡ false) (λ (v : Bytes). text_lt v w ≡ false) xs
          (λ v g. text_ge_trans v x w g e) h.0,
    ),
    h,
  )
]

pub sort-Sorted : (ws : List Bytes) → Sorted (sort ws)
unfolding sort
sort-Sorted [] = tt
sort-Sorted (w ∷ ws) = sort_insert-Sorted w (sort ws) (sort-Sorted ws)
