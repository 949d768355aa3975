-- ===== src/Trie/Words.antt =====
-- The words that `ParsedState::make` of include/erl/_impl/util/trie.hpp sorts and inserts, with their
-- places.
use cpp26_experiments.Base.{
  ℕ, ◌+◌, ◌%◌, ◌^◌, ◌≡◌, refl, ap, subst, List, [], ◌∷◌, some, Bytes, length, All, Bool-cases, inl,
  inr, get_elem?, bytes_eq, bytes_eq_sound, bytes_eq_refl,
}
use cpp26_experiments.Trie.Tree.{
  States, end, insert, insert_all, make, sort, sort_insert, position, text_lt,
}
use cpp26_experiments.Trie.Entries.{Entries}
use cpp26_experiments.Trie.Build.{NonNull, bind_some, insert_lem}

module _ (words : List Bytes) where
  -- A word at its place in the list, under the index that is kept for it.
  abbrev pub Indexed : Bytes → ℕ → Type 0
  Indexed w index =
      (index ≡ (position words w + 1) % 2 ^ 32) × (get_elem? words (position words w) ≡ some w)

  insert_all_lem :
      (ws : List Bytes) (ts ts' : States)
      → All (λ (w : Bytes). NonNull w × (get_elem? words (position words w) ≡ some w)) ws
      → Entries Indexed ts
      → insert_all words ws ts ≡ some ts'
      → Entries Indexed ts'
  unfolding insert_all
  insert_all_lem [] ts ts' hw h eq =
      let same : ts ≡ ts' = cc (eq) in subst (λ (t : States). Entries Indexed t) same h
  insert_all_lem (w ∷ ws) ts ts' hw h eq =
      let index = (position words w + 1) % 2 ^ 32 in
      let got = bind_some (insert (length w) index w ts) _ ts' eq in
      insert_all_lem ws got.0 ts' hw.1
        (insert_lem (length w) index Indexed w ts got.0 hw.0.0 (refl, hw.0.1) h got.1) got.2

pub All-sort_insert :
    (Q : Bytes → Type 0) (w : Bytes) (ws : List Bytes) → Q w → All Q ws → All Q (sort_insert w ws)
unfolding sort_insert
All-sort_insert Q w [] h hs = (h, tt)
All-sort_insert Q w (x ∷ xs) h hs = elim (Bool-cases (text_lt x w)) [
  | inl e ↦ rw e (hs.0, All-sort_insert Q w xs h hs.1)
  | inr e ↦ rw e (h, hs)
]

pub All-sort : (Q : Bytes → Type 0) (ws : List Bytes) → All Q ws → All Q (sort ws)
unfolding sort
All-sort Q [] h = tt
All-sort Q (w ∷ ws) h = All-sort_insert Q w (sort ws) h.0 (All-sort Q ws h.1)

pub All-mono :
    (Q R : Bytes → Type 0) (ws : List Bytes) → ((w : Bytes) → Q w → R w) → All Q ws → All R ws
All-mono Q R [] f h = tt
All-mono Q R (w ∷ ws) f h = (f w h.0, All-mono Q R ws f h.1)

-- What stands in a list is at its position.
pub position_lem :
    (words : List Bytes) → All (λ (w : Bytes). get_elem? words (position words w) ≡ some w) words
unfolding position
position_lem [] = tt
position_lem (x ∷ xs) = (
  rw (bytes_eq_refl x) refl,
  All-mono (λ (w : Bytes). get_elem? xs (position xs w) ≡ some w) _ xs
      (λ w h. elim (Bool-cases (bytes_eq x w)) [
        | inl e ↦ rw e (ap some (bytes_eq_sound x w e))
        | inr e ↦ rw e h
      ])
      (position_lem xs),
)

pub All-both :
    (Q R : Bytes → Type 0) (ws : List Bytes)
    → All Q ws
    → All R ws
    → All (λ (w : Bytes). Q w × R w) ws
All-both Q R [] q r = tt
All-both Q R (w ∷ ws) q r = ((q.0, r.0), All-both Q R ws q.1 r.1)

pub make_lem :
    (words : List Bytes) (ts : States)
    → All NonNull words
    → make words ≡ some ts
    → Entries (Indexed words) ts
unfolding make
make_lem words ts h eq =
    insert_all_lem words (sort words) end ts
      (All-sort _ words (All-both NonNull _ words h (position_lem words))) tt eq
