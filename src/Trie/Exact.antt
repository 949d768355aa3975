-- ===== src/Trie/Exact.antt =====
-- The tree that include/erl/_impl/util/trie.hpp makes of a list of words, and the lookup of each of them.
use cpp26_experiments.Base.{
  ℕ, zero, suc, ◌+◌, ◌-◌, ◌%◌, ◌^◌, ◌≡◌, ◌≢◌, ◌<◌, refl, ap, ◌∙◌, subst, Bool, true, List, [], ◌∷◌,
  ◌++◌, some, Bytes, arith, All, Bool-cases, inl, inr, length, get_elem?, get_elem?_bound,
}
use cpp26_experiments.Trie.Tree.{
  States, end, insert, insert_all, make, sort, sort_insert, position, text_lt,
}
use cpp26_experiments.Trie.Lookup.{convert, visit, find}
use cpp26_experiments.Trie.Entries.{Entries, Visited, visit_lem, convert_lem}
use cpp26_experiments.Trie.Build.{bind_some, NonNull, insert_lem}
use cpp26_experiments.Trie.Words.{Indexed, All-sort, All-both, position_lem, make_lem}
use cpp26_experiments.Trie.Order.{Sorted, sort-Sorted}
use cpp26_experiments.Trie.Total.{Ahead, insert-Grows, make_total}
use cpp26_experiments.Trie.Live.{Bushy, Below, Entries-mono}
use cpp26_experiments.Trie.Back.{Before, Entries-both, insert-Has}
use cpp26_experiments.Trie.Complete.{Free, IsFound, Entries-IsFound}

-- Where a word starts another, it is that word.
abbrev pub PrefixFree : List Bytes → Type 0
PrefixFree words =
    (u e : Bytes) (i j : ℕ)
    → get_elem? words i ≡ some u
    → get_elem? words j ≡ some (u ++ e)
    → e ≡ []

abbrev index_in : List Bytes → Bytes → ℕ
index_in words w = (position words w + 1) % 2 ^ 32

module _ (words : List Bytes) (P : Bytes → ℕ → Type 0) where
  -- What holds of all words of the tree holds of those that were in it and of those inserted.
  insert_all-Has :
      (ws : List Bytes) (ts ts' : States)
      → All (λ (w : Bytes). NonNull w × (get_elem? words (position words w) ≡ some w)) ws
      → All NonNull ws
      → Sorted ws
      → Bushy ts
      → Entries (Ahead ws) ts
      → Entries (Indexed words) ts
      → insert_all words ws ts ≡ some ts'
      → Entries P ts'
      → Entries P ts × All (λ (w : Bytes). 0 < length w → P w (index_in words w)) ws
  unfolding insert_all
  insert_all-Has [] ts ts' hw hn s b h x eq p =
      let same : ts' ≡ ts = cc (eq) in (subst (λ (t : States). Entries P t) same p, tt)
  insert_all-Has (w ∷ ws) ts ts' hw hn s b h x eq p =
      let index = index_in words w in
      let got = bind_some (insert (length w) index w ts) (λ t. insert_all words ws t) ts' eq in
      let grown =
        insert-Grows (length w) index w ts hn.0 b
          (Entries-mono (Ahead (w ∷ ws)) (Below w) ts (λ e k a. a.0) h) in
      let same : grown.0 ≡ got.0 = cc (grown.1, got.1) in
      let ahead =
        insert_lem (length w) index (Ahead ws) w ts got.0 hn.0 s.0
          (Entries-mono (Ahead (w ∷ ws)) (Ahead ws) ts (λ e k a. a.1) h) got.1 in
      let known =
        insert_lem (length w) index (Indexed words) w ts got.0 hn.0 (refl, hw.0.1) x got.1 in
      let later =
        insert_all-Has ws got.0 ts' hw.1 hn.1 s.1 (subst (λ (t : States). Bushy t) same grown.2)
          ahead known got.2 p in
      let before =
        Entries-mono (λ e k. Ahead (w ∷ ws) e k × Indexed words e k) (Before w index) ts
          (λ e k a. (a.0.0, λ eq. a.1.0 ∙ ap (λ (v : Bytes). index_in words v) eq))
          (Entries-both (Ahead (w ∷ ws)) (Indexed words) ts h x) in
      let now =
        insert-Has (length w) index P w ts got.0 (omega arith) hn.0 b before got.1 later.0 in
      (now.0, (λ pos. now.1 (inr pos), later.1))

sort_insert-All :
    (Q : Bytes → Type 0) (w : Bytes) (ws : List Bytes) → All Q (sort_insert w ws) → Q w × All Q ws
unfolding sort_insert
sort_insert-All Q w [] h = h
sort_insert-All Q w (x ∷ xs) h = elim (Bool-cases (text_lt x w)) [
  | inl e ↦
      let parts : Q x × All Q (sort_insert w xs) = rw (e, sort_insert) at h in
      let rest = sort_insert-All Q w xs parts.1 in (rest.0, (parts.0, rest.1))
  | inr e ↦
      let parts : Q w × (Q x × All Q xs) = rw (e, sort_insert) at h in
      (parts.0, (parts.1.0, parts.1.1))
]

sort-All : (Q : Bytes → Type 0) (ws : List Bytes) → All Q (sort ws) → All Q ws
unfolding sort
sort-All Q [] h = tt
sort-All Q (w ∷ ws) h =
    let parts = sort_insert-All Q w (sort ws) h in (parts.0, sort-All Q ws parts.1)

All_at :
    (Q : Bytes → Type 0) (ws : List Bytes) (i : ℕ) (w : Bytes)
    → All Q ws
    → get_elem? ws i ≡ some w
    → Q w
All_at Q [] i w h e = cc
All_at Q (x ∷ xs) zero w h e = let same : x ≡ w = cc (e) in subst Q same h.0
All_at Q (x ∷ xs) (suc i) w h e = All_at Q xs i w h.1 e

visited_position :
    (words : List Bytes) (w : Bytes) (out : Bool × ℕ)
    → length words < 2 ^ 32 - 2
    → Visited (Indexed words) w (2 ^ 32 - 1) out
    → out.0 ≡ true
    → (out.1 + (2 ^ 32 - 1)) % 2 ^ 32 ≡ position words w
visited_position words w out short (Visited.found index n h) e =
    omega (arith, h.0, get_elem?_bound words (position words w) w h.1)
visited_position words w out short Visited.missed e = cc
visited_position words w out short Visited.cleared e = cc

nonzero_index :
    (words : List Bytes) (u : Bytes) (k : ℕ) → length words < 2 ^ 32 - 2 → Indexed words u k → k ≢ 0
nonzero_index words u k short a z =
    absurd (omega (arith, a.0, z, get_elem?_bound words (position words u) u a.1))

-- For fewer than 2^32 - 2 words without null characters, of which none starts another: the tree
-- is made, no word is read past its end, and the lookup of a word that is not empty gives its
-- first place in the list.
pub find-position :
    (words : List Bytes) (i : ℕ) (w : Bytes)
    → All NonNull words
    → length words < 2 ^ 32 - 2
    → PrefixFree words
    → get_elem? words i ≡ some w
    → 0 < length w
    → (tree : States) × (make words ≡ some tree) × (find (convert tree) w ≡ position words w)
unfolding make find
find-position words i [] hn short free at pos = absurd (omega arith)
find-position words i (c ∷ w) hn short free at pos =
    let made = make_total words hn in
    let known = make_lem words made.0 hn made.1 in
    let isfree : Free (Indexed words) = (
      λ u e k j a b. free u e (position words u) (position words (u ++ e)) a.1 b.1,
      λ u k a. nonzero_index words u k short a,
    ) in
    let founds = Entries-IsFound (Indexed words) made.0 isfree known in
    let listed =
      All-both NonNull (λ (v : Bytes). get_elem? words (position words v) ≡ some v) words hn
        (position_lem words) in
    let all =
      (insert_all-Has words (IsFound made.0) (sort words) end made.0
        (All-sort (λ (v : Bytes). NonNull v × (get_elem? words (position words v) ≡ some v)) words
          listed)
        (All-sort NonNull words hn) (sort-Sorted words) tt tt tt made.1 founds).1 in
    let here =
      All_at (λ (v : Bytes). 0 < length v → IsFound made.0 v (index_in words v)) words i (c ∷ w)
        (sort-All (λ (v : Bytes). 0 < length v → IsFound made.0 v (index_in words v)) words all)
        at in
    (
      made.0,
      made.1,
      visited_position words (c ∷ w) (visit (convert made.0) (c ∷ w) (2 ^ 32 - 1)) short
          (visit_lem (Indexed words) (convert made.0) (c ∷ w) (2 ^ 32 - 1)
            (convert_lem (Indexed words) made.0 known))
          (here pos pos (2 ^ 32 - 1)),
    )
