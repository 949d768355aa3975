-- ===== src/Trie/Entries.antt =====
-- The words that a tree of include/erl/_impl/util/trie.hpp holds, and the lookup against them.
use cpp26_experiments.Base.{
  ◌⊎◌, ℕ, ◌≡◌, ◌≢◌, refl, sym, ap, subst, ◌==◌, Bool, true, false, [], ◌∷◌, ◌++◌, Bytes, length,
  drop, arith, All, Bool-cases, inl, inr, append-nil, ◌∙◌,
}
use cpp26_experiments.Trie.Tree.{States, end, state}
use cpp26_experiments.Trie.Lookup.{index_of, convert, c_string, starts_with, enters, visit}

-- Every word of a tree has the property of the word and its index, and no prefix holds a null
-- character.
abbrev pub Entries : (Bytes → ℕ → Type 0) → States → Type 0
Entries P end = Unit
Entries P (state [] transitions index others) = P [] index × Entries P others
Entries P (state (c ∷ prefix) transitions index others) =
    All (λ (d : ℕ). d ≢ 0) (c ∷ prefix)
    × Entries (λ (w : Bytes). P (c ∷ (prefix ++ w))) transitions
    × Entries P others

-- The same of the states that the lookup goes through, where an index of 0 is no word.
abbrev pub Accepts : (Bytes → ℕ → Type 0) → States → Type 0
Accepts P end = Unit
Accepts P (state prefix transitions index others) =
    All (λ (d : ℕ). d ≢ 0) prefix
    × (index ≢ 0 → P prefix index)
    × Accepts (λ (w : Bytes). P (prefix ++ w)) transitions
    × Accepts P others

pub index_of_lem :
    (P : Bytes → ℕ → Type 0) (index : ℕ) (ts : States)
    → Entries P ts
    → (index ≢ 0 → P [] index)
    → index_of index ts ≢ 0
    → P [] (index_of index ts)
unfolding index_of
index_of_lem P index end h base = base
index_of_lem P index (state [] ts i others) h base = index_of_lem P i others h.1 (λ n. h.0)
index_of_lem P index (state (c ∷ p) ts i others) h base = index_of_lem P index others h.2 base

pub convert_lem : (P : Bytes → ℕ → Type 0) (ts : States) → Entries P ts → Accepts P (convert ts)
unfolding convert
convert_lem P end h = tt
convert_lem P (state [] ts i others) h = convert_lem P others h.1
convert_lem P (state (c ∷ p) ts i others) h = (
  h.0,
  λ n.
      subst (λ (w : Bytes). P (c ∷ w) (index_of 0 ts)) (append-nil p)
        (index_of_lem (λ (w : Bytes). P (c ∷ (p ++ w))) 0 ts h.1 (λ m. absurd (m refl)) n),
  convert_lem (λ (w : Bytes). P (c ∷ (p ++ w))) ts h.1,
  convert_lem P others h.2,
)

pub c_string_lem : (text : Bytes) → All (λ (d : ℕ). d ≢ 0) text → c_string text ≡ text
unfolding c_string
c_string_lem [] h = refl
c_string_lem (c ∷ text) h = ground (arith, h.0, c_string_lem text h.1)

starts_with-drop :
    (text prefix : Bytes)
    → starts_with text prefix ≡ true
    → prefix ++ drop (length prefix) text ≡ text
unfolding starts_with
starts_with-drop text [] h = refl
starts_with-drop [] (d ∷ prefix) h = cc
starts_with-drop (c ∷ text) (d ∷ prefix) h = ground (arith, starts_with-drop text prefix)

-- A text that a state lets in starts with its prefix.
enters-drop :
    (prefix : Bytes) (index : ℕ) (str : Bytes)
    → All (λ (d : ℕ). d ≢ 0) prefix
    → enters prefix index str ≡ true
    → prefix ++ drop (length prefix) str ≡ str
unfolding enters
enters-drop prefix index str h e =
    ground (arith, e, c_string_lem prefix h, starts_with-drop str prefix)

pub drop-cases : (xs : Bytes) → (xs ≡ []) ⊎ ((c : ℕ) × (r : Bytes) × (xs ≡ c ∷ r))
drop-cases [] = inl refl
drop-cases (c ∷ r) = inr (c, r, refl)

-- What `State::visit` comes to: a word of the tree under its index, or no word, and then the
-- result is what it was, or 0.
pub data Visited (P : Bytes → ℕ → Type 0) (str : Bytes) (result : ℕ) : Bool × ℕ → Type 0 where
  found : (index : ℕ) → index ≢ 0 → P str index → Visited P str result (true, index)
  missed : Visited P str result (false, result)
  cleared : Visited P str result (false, 0)

after :
    (P : Bytes → ℕ → Type 0) (str : Bytes) (result : ℕ) (out : Bool × ℕ)
    → Visited P str 0 out
    → Visited P str result out
after P str result (true, _) (Visited.found index n h) = found index n h
after P str result (false, r) Visited.missed = cleared
after P str result (false, r) Visited.cleared = cleared

module _ (P : Bytes → ℕ → Type 0) (prefix : Bytes) (str rest : Bytes) (split : prefix ++ rest ≡ str)
    (result : ℕ) where
  -- The transitions of a state, and then the states behind it.
  inside :
      (inner : Bool × ℕ) (later : ℕ → Bool × ℕ)
      → Visited (λ (w : Bytes). P (prefix ++ w)) rest result inner
      → ((r : ℕ) → Visited P str r (later r))
      → Visited P str result (elim inner.0 [ true ↦ (true, inner.1) | false ↦ later inner.1 ])
  inside (true, _) later (Visited.found index n h) others =
      found index n (subst (λ (w : Bytes). P w index) split h)
  inside (false, r) later Visited.missed others = others r
  inside (false, r) later Visited.cleared others = after P str result (later 0) (others 0)

pub visit_lem :
    (P : Bytes → ℕ → Type 0) (ts : States) (str : Bytes) (result : ℕ)
    → Accepts P ts
    → Visited P str result (visit ts str result)
unfolding visit
visit_lem P end str result h = missed
visit_lem P (state p ts i others) str result h =
    let later : (r : ℕ) → Visited P str r (visit others str r) =
      λ r. visit_lem P others str r h.3 in
    elim (Bool-cases (enters p i str)) [
      | inl e ↦
          let split = enters-drop p i str h.0 e in
          rw (e, visit)
            (elim (drop-cases (drop (length p) str)) [
              | inl d ↦
                  rw (d, visit)
                    (elim (Bool-cases (i == 0)) [
                      | inl z ↦ rw (z, visit) (after P str result _ (later 0))
                      | inr z ↦
                          rw (z, visit)
                            (found i (ground (arith, z)) (
                              subst (λ (w : Bytes). P w i)
                                (sym (append-nil p) ∙ ap (λ (r : Bytes). p ++ r) (sym d) ∙ split)
                                (h.1 (ground (arith, z)))))
                    ])
              | inr (c, r, d) ↦
                  rw (d, visit)
                    (inside P p str (c ∷ r) (ap (λ (x : Bytes). p ++ x) (sym d) ∙ split) result
                      (visit ts (c ∷ r) result) (visit others str)
                      (visit_lem (λ (w : Bytes). P (p ++ w)) ts (c ∷ r) result h.2) later)
            ])
      | inr e ↦ rw (e, visit) (later result)
    ]
