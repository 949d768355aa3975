-- ===== src/Trie/Live.antt =====
-- Trees of include/erl/_impl/util/trie.hpp with a word below every state, and their order against a word.
use cpp26_experiments.Base.{
  ℕ, ◌≡◌, ◌<◌, refl, sym, ap, ◌∙◌, ltb, Bool, true, false, [], ◌∷◌, ◌++◌, Option, none, some, Bytes,
  take, drop, arith, inl, inr, length, ◌⊎◌, take-append-drop, fun_ext,
}
use cpp26_experiments.Trie.Tree.{
  States, end, state, mismatch, round, descend, starts_with_char, text_lt,
}
use cpp26_experiments.Trie.Entries.{Entries}
use cpp26_experiments.Trie.Order.{text_lt-append, mismatch-text_lt}

pub Entries-mono :
    (P Q : Bytes → ℕ → Type 0) (ts : States)
    → ((w : Bytes) (k : ℕ) → P w k → Q w k)
    → Entries P ts
    → Entries Q ts
Entries-mono P Q end f h = tt
Entries-mono P Q (state [] ts i others) f h = (f [] i h.0, Entries-mono P Q others f h.1)
Entries-mono P Q (state (c ∷ p) ts i others) f h = (
  h.0,
  Entries-mono (λ w. P (c ∷ (p ++ w))) (λ w. Q (c ∷ (p ++ w))) ts (λ w. f (c ∷ (p ++ w))) h.1,
  Entries-mono P Q others f h.2,
)

-- There is a word in the tree.
abbrev pub Live : States → Type 0
Live end = ⊥
Live (state [] ts i others) = Unit
Live (state (c ∷ p) ts i others) = Live ts ⊎ Live others

-- There is one below every state.
abbrev pub Bushy : States → Type 0
Bushy end = Unit
Bushy (state [] ts i others) = Bushy others
Bushy (state (c ∷ p) ts i others) = Live ts × Bushy ts × Bushy others

pub Live_word :
    (P : Bytes → ℕ → Type 0) (ts : States) → Live ts → Entries P ts → (w : Bytes) × (k : ℕ) × P w k
Live_word P end l h = absurd l
Live_word P (state [] ts i others) l h = ([], i, h.0)
Live_word P (state (c ∷ p) ts i others) (inl l) h =
    let inner = Live_word (λ (w : Bytes). P (c ∷ (p ++ w))) ts l h.1 in
    (c ∷ (p ++ inner.0), inner.1, inner.2)
Live_word P (state (c ∷ p) ts i others) (inr l) h = Live_word P others l h.2

-- No word of the tree is larger than this one.
abbrev pub Below : Bytes → Bytes → ℕ → Type 0
Below w e k = text_lt w e ≡ false

-- The insertion gives a tree, which has no fewer words.
abbrev pub Grows : States → Option States → Type 0
Grows ts o = (ts' : States) × (o ≡ some ts') × Bushy ts' × (Live ts → Live ts')

pub Bushy-intro :
    (p : Bytes) (ts : States) (i : ℕ) (others : States)
    → 0 < length p
    → Live ts
    → Bushy ts
    → Bushy others
    → Bushy (state p ts i others)
Bushy-intro [] ts i others n l b o = absurd (omega arith)
Bushy-intro (c ∷ p) ts i others n l b o = (l, b, o)

pub Live-intro :
    (p : Bytes) (ts : States) (i : ℕ) (others : States)
    → 0 < length p
    → Live ts
    → Live (state p ts i others)
Live-intro [] ts i others n l = tt
Live-intro (c ∷ p) ts i others n l = inl l

pub Bushy-elim :
    (p : Bytes) (ts : States) (i : ℕ) (others : States)
    → 0 < length p
    → Bushy (state p ts i others)
    → Live ts × Bushy ts × Bushy others
Bushy-elim [] ts i others n b = absurd (omega arith)
Bushy-elim (c ∷ p) ts i others n b = b

-- What is not larger than the word has nothing larger behind what they share.
pub below :
    (m : ℕ) (w p : Bytes)
    → take m p ≡ take m w
    → ◌≡◌ {A = Bytes → ℕ → Type 0} (λ e k. Below w (take m p ++ e) k) (Below (drop m w))
below m w p same = fun_ext (λ (e : Bytes). fun_ext (λ (k : ℕ).
    ap (λ (b : Bool). b ≡ false)
      (ap (λ (v : Bytes). text_lt v (take m p ++ e))
          (sym (take-append-drop m w) ∙ ap (λ (v : Bytes). v ++ drop m w) (sym same))
        ∙ text_lt-append (take m p) (drop m w) e)))

pub Bushy-others :
    (p : Bytes) (ts : States) (i : ℕ) (others : States) → Bushy (state p ts i others) → Bushy others
Bushy-others [] ts i others b = b
Bushy-others (c ∷ p) ts i others b = b.2

pub Bushy-replace :
    (p : Bytes) (ts : States) (i : ℕ) (others others' : States)
    → Bushy (state p ts i others)
    → Bushy others'
    → Bushy (state p ts i others')
Bushy-replace [] ts i others others' b o = o
Bushy-replace (c ∷ p) ts i others others' b o = (b.0, b.1, o)

pub Live-replace :
    (p : Bytes) (ts : States) (i : ℕ) (others others' : States)
    → (Live others → Live others')
    → Live (state p ts i others)
    → Live (state p ts i others')
Live-replace [] ts i others others' f l = tt
Live-replace (c ∷ p) ts i others others' f (inl l) = inl l
Live-replace (c ∷ p) ts i others others' f (inr l) = inr (f l)

-- A word that ends inside a prefix would be smaller than the words below it.
pub too_short :
    (p : Bytes) (c : ℕ) (r : Bytes) (ts : States) (i : ℕ) (others : States)
    → starts_with_char p c ≡ true
    → mismatch p (c ∷ r) ≡ none
    → Bushy (state p ts i others)
    → Entries (Below (c ∷ r)) (state p ts i others)
    → ⊥
too_short [] c r ts i others s n b h = cc
too_short (d ∷ p) c r ts i others s n b h =
    let word = Live_word (λ (e : Bytes). Below (c ∷ r) (d ∷ (p ++ e))) ts b.0 h.1 in
    let smaller = mismatch-text_lt (d ∷ p) (c ∷ r) word.0 n in
    absurd (ground (arith, smaller, word.2))

-- A round at a state whose prefix starts with the word's character.
pub entered :
    (walk : Bytes → States → Option States) (p : Bytes) (c : ℕ) (r : Bytes) (index : ℕ)
    (ts : States) (i : ℕ) (others : States) (m : ℕ)
    → starts_with_char p c ≡ true
    → mismatch p (c ∷ r) ≡ some m
    → round walk (c ∷ r) c index (state p ts i others)
      ≡ descend walk (c ∷ r) m (ltb m (length p)) p ts i others
unfolding round
entered walk p c r index ts i others m s n = rw (s, round) (rw (n, round) refl)
