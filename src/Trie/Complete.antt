-- ===== src/Trie/Complete.antt =====
-- The lookup of `State` of include/erl/_impl/util/trie.hpp in trees where no word goes on behind another.
use cpp26_experiments.Base.{
  ℕ, ◌≡◌, ◌≢◌, ◌<◌, refl, sym, ap, ◌∙◌, subst, ◌==◌, true, false, [], ◌∷◌, ◌++◌, Bytes, drop, arith,
  Bool-cases, inl, inr, length, ◌⊎◌, append_assoc, append-nil, drop_append, length-append,
}
use cpp26_experiments.Trie.Tree.{States, end, state}
use cpp26_experiments.Trie.Lookup.{index_of, convert, starts_with, enters, visit}
use cpp26_experiments.Trie.Entries.{Entries, index_of_lem, c_string_lem, drop-cases}
use cpp26_experiments.Trie.Build.{NonNull}
use cpp26_experiments.Trie.Live.{Entries-mono}
use cpp26_experiments.Trie.Back.{Entries-both}

starts_with-append : (x a : Bytes) → starts_with (x ++ a) x ≡ true
unfolding starts_with
starts_with-append [] a = refl
starts_with-append (c ∷ x) a = ground (arith, starts_with-append x a)

-- A state lets in what has its prefix, if it is longer than a character, is no word, or is all of it.
enters-append :
    (t : Bytes) (index : ℕ) (a : Bytes)
    → NonNull t
    → (index ≡ 0) ⊎ (a ≡ [])
    → enters t index (t ++ a) ≡ true
unfolding enters
enters-append t index a h (inl z) = ground (arith, z, c_string_lem t h, starts_with-append t a)
enters-append t index a h (inr z) =
    ground (arith, c_string_lem t h, starts_with-append t a, ap length z, length-append t a)

-- A word in the states behind is found.
visit_others :
    (t : Bytes) (ts : States) (index : ℕ) (others : States) (str : Bytes) (result : ℕ)
    → ((r : ℕ) → (visit others str r).0 ≡ true)
    → (visit (state t ts index others) str result).0 ≡ true
unfolding visit
visit_others t ts index others str result h = elim (Bool-cases (enters t index str)) [
  | inr e ↦ rw (e, visit) (h result)
  | inl e ↦
      rw (e, visit)
        (elim (drop-cases (drop (length t) str)) [
          | inl d ↦
              rw (d, visit)
                (elim (Bool-cases (index == 0)) [
                  | inl z ↦ rw (z, visit) (h 0)
                  | inr z ↦ rw (z, visit) refl
                ])
          | inr (c, r, d) ↦
              rw (d, visit)
                (elim (Bool-cases (visit ts (c ∷ r) result).0) [
                  | inl i ↦ rw (i, visit) refl
                  | inr i ↦ rw (i, visit) (h (visit ts (c ∷ r) result).1)
                ])
        ])
]

-- A word that ends at a state, and one that goes on in its transitions.
visit_here :
    (t : Bytes) (ts : States) (index : ℕ) (others : States) (result : ℕ)
    → NonNull t
    → index ≢ 0
    → (visit (state t ts index others) t result).0 ≡ true
unfolding visit
visit_here t ts index others result h n =
    let e : enters t index t ≡ true =
      ap (λ (w : Bytes). enters t index w) (sym (append-nil t))
      ∙ enters-append t index [] h (inr refl) in
    let d : drop (length t) t ≡ [] =
      ap (λ (w : Bytes). drop (length t) w) (sym (append-nil t))
      ∙ drop_append (length t) t [] refl in
    let z : (index == 0) ≡ false = ground (arith, n) in
    rw (e, visit) (rw (d, visit) (rw (z, visit) refl))

visit_on :
    (t : Bytes) (ts : States) (index : ℕ) (others : States) (c : ℕ) (r : Bytes) (result : ℕ)
    → NonNull t
    → index ≡ 0
    → (visit ts (c ∷ r) result).0 ≡ true
    → (visit (state t ts index others) (t ++ (c ∷ r)) result).0 ≡ true
unfolding visit
visit_on t ts index others c r result h n i =
    let e = enters-append t index (c ∷ r) h (inl n) in
    let d : drop (length t) (t ++ (c ∷ r)) ≡ c ∷ r = drop_append (length t) t (c ∷ r) refl in
    rw (e, visit) (rw (d, visit) (rw (i, visit) refl))

-- The index of a state is not 0 where a word ends at it.
index_of_nonzero :
    (index : ℕ) (ts : States) → Entries (λ e k. k ≢ 0) ts → index ≢ 0 → index_of index ts ≢ 0
unfolding index_of
index_of_nonzero index end h n = n
index_of_nonzero index (state [] ts i others) h n = index_of_nonzero i others h.1 h.0
index_of_nonzero index (state (c ∷ p) ts i others) h n = index_of_nonzero index others h.2 n

index_of_ended :
    (index : ℕ) (ts : States)
    → Entries (λ e k. k ≢ 0) ts
    → Entries (λ e k. e ≡ [] → index_of index ts ≢ 0) ts
unfolding index_of
index_of_ended index end h = tt
index_of_ended index (state [] ts i others) h =
    (λ e. index_of_nonzero i others h.1 h.0, index_of_ended i others h.1)
index_of_ended index (state (c ∷ p) ts i others) h = (
  h.0,
  Entries-mono (λ e k. k ≢ 0) (λ e k. c ∷ (p ++ e) ≡ [] → index_of index others ≢ 0) ts
      (λ e k n eq. cc (eq)) h.1,
  index_of_ended index others h.2,
)

-- No word goes on behind another, and none has the index 0.
abbrev pub Free : (Bytes → ℕ → Type 0) → Type 0
Free W =
    ((u e : Bytes) (k j : ℕ) → W u k → W (u ++ e) j → e ≡ [])
    × ((u : Bytes) (k : ℕ) → W u k → k ≢ 0)

abbrev pub IsFound : States → Bytes → ℕ → Type 0
IsFound ts e k = 0 < length e → (result : ℕ) → (visit (convert ts) e result).0 ≡ true

below_found :
    (W : Bytes → ℕ → Type 0) (t : Bytes) (ts : States) (others : States) (e : Bytes) (k : ℕ)
    → Free W
    → NonNull t
    → Entries (λ w. W (t ++ w)) ts
    → W (t ++ e) k
    → (e ≡ [] → index_of 0 ts ≢ 0)
    → IsFound ts e k
    → (result : ℕ) → (visit (state t (convert ts) (index_of 0 ts) others) (t ++ e) result).0 ≡ true
below_found W t ts others [] k free h hs w ended found result =
    subst (λ (v : Bytes). (visit (state t (convert ts) (index_of 0 ts) others) v result).0 ≡ true)
      (sym (append-nil t)) (visit_here t (convert ts) (index_of 0 ts) others result h (ended refl))
below_found W t ts others (c ∷ r) k free h hs w ended found result =
    elim (Bool-cases (index_of 0 ts == 0)) [
      | inl z ↦
          visit_on t (convert ts) (index_of 0 ts) others c r result h (ground (arith, z))
            (found (omega arith) result)
      | inr z ↦
          let here =
            index_of_lem (λ w. W (t ++ w)) 0 ts hs (λ n. absurd (n refl)) (ground (arith, z)) in
          let prefix = subst (λ (v : Bytes). W v (index_of 0 ts)) (append-nil t) here in
          absurd (cc (free.0 t (c ∷ r) (index_of 0 ts) k prefix w))
    ]

pub Entries-IsFound :
    (W : Bytes → ℕ → Type 0) (ts : States) → Free W → Entries W ts → Entries (IsFound ts) ts
unfolding convert
Entries-IsFound W end free h = tt
Entries-IsFound W (state [] ts i others) free h =
    (λ pos. absurd (omega arith), Entries-IsFound W others free h.1)
Entries-IsFound W (state (c ∷ p) ts i others) free h =
    let inner : Bytes → ℕ → Type 0 = λ e k. W (c ∷ (p ++ e)) k in
    let free' : Free inner = (
      λ u e k j a b.
          free.0 (c ∷ (p ++ u)) e k j a
            (subst (λ (v : Bytes). W (c ∷ v) j) (sym (append_assoc p u e)) b),
      λ u k a. free.1 (c ∷ (p ++ u)) k a,
    ) in
    let found = Entries-IsFound inner ts free' h.1 in
    let ended =
      index_of_ended 0 ts (Entries-mono inner (λ e k. k ≢ 0) ts (λ e k a. free'.1 e k a) h.1) in
    let both =
      Entries-both inner (λ e k. (e ≡ [] → index_of 0 ts ≢ 0) × IsFound ts e k) ts h.1
        (Entries-both (λ e k. e ≡ [] → index_of 0 ts ≢ 0) (IsFound ts) ts ended found) in
    (
      h.0,
      Entries-mono (λ e k. inner e k × ((e ≡ [] → index_of 0 ts ≢ 0) × IsFound ts e k))
          (λ e. IsFound (state (c ∷ p) ts i others) (c ∷ (p ++ e))) ts
          (λ e k b pos result.
            below_found W (c ∷ p) ts (convert others) e k free h.0 h.1 b.0 b.1.0 b.1.1 result)
          both,
      Entries-mono (IsFound others) (IsFound (state (c ∷ p) ts i others)) others
          (λ e k f pos result.
            visit_others (c ∷ p) (convert ts) (index_of 0 ts) (convert others) e result (f pos))
          (Entries-IsFound W others free h.2),
    )
