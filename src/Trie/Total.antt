-- ===== src/Trie/Total.antt =====
-- `ParsedState::make` of include/erl/_impl/util/trie.hpp on words in order.
use cpp26_experiments.Base.{
  ℕ, zero, suc, ◌+◌, ◌%◌, ◌^◌, ◌≡◌, ◌≤◌, ◌<◌, refl, sym, ap, ◌∙◌, subst, ltb, ltb→lt, Bool, true,
  false, List, [], ◌∷◌, ◌++◌, Option, some, ◌>>=◌, Bytes, take, drop, length-drop, length-take,
  arith, All, Bool-cases, Option-cases, inl, inr, length, take_all,
}
use cpp26_experiments.Trie.Tree.{
  States, end, state, mismatch, round, descend, insert, insert_all, make, sort, position,
  starts_with_char, text_lt,
}
use cpp26_experiments.Trie.Entries.{Entries}
use cpp26_experiments.Trie.Build.{
  NonNull, All-drop, Entries-elim, Entries-others, Entries-cut, mismatch_lem, mismatch_pos,
  insert_lem,
}
use cpp26_experiments.Trie.Words.{All-sort}
use cpp26_experiments.Trie.Order.{Sorted, sort-Sorted}
use cpp26_experiments.Trie.Live.{
  Live, Bushy, Below, Grows, Bushy-intro, Live-intro, Bushy-elim, below, Bushy-others,
  Bushy-replace, Live-replace, too_short, entered, Entries-mono,
}

module _ (walk : Bytes → States → Option States)
    (grows : (w : Bytes) (ts : States)
      → NonNull w
      → Bushy ts
      → Entries (Below w) ts
      → Grows ts (walk w ts)) where
  descend-Grows :
      (w p : Bytes) (ts : States) (i : ℕ) (others : States) (m : ℕ) (b : Bool)
      → ltb m (length p) ≡ b
      → NonNull w
      → 0 < m × m ≤ length p × take m p ≡ take m w
      → NonNull p × Entries (λ (e : Bytes). Below w (p ++ e)) ts
      → Live ts × Bushy ts × Bushy others
      → Grows (state p ts i others) (descend walk w m b p ts i others)
  descend-Grows w p ts i others m true lt hw bound parts bushy =
      let cut = Entries-cut (Below w) m p ts parts.0 (ltb→lt m (length p) lt) parts.1 in
      let inner =
        grows (drop m w) (state (drop m p) ts 0 end) (All-drop m w hw)
          (Bushy-intro (drop m p) ts 0 end (omega (arith, length-drop m p, ltb→lt m (length p) lt))
            bushy.0 bushy.1 tt)
          (subst (λ (P : Bytes → ℕ → Type 0). Entries P (state (drop m p) ts 0 end))
            (below m w p bound.2) cut) in
      let live = inner.3 (
        Live-intro (drop m p) ts 0 end (omega (arith, length-drop m p, ltb→lt m (length p) lt))
          bushy.0) in
      let longer : 0 < length (take m p) =
        omega (arith, length-take m p, bound.0, ltb→lt m (length p) lt) in
      (
        state (take m p) inner.0 i others,
        ap (λ (o : Option States). o >>= (λ t. some (state (take m p) t i others))) inner.1,
        Bushy-intro (take m p) inner.0 i others longer live inner.2 bushy.2,
        λ l. Live-intro (take m p) inner.0 i others longer live,
      )
  descend-Grows w p ts i others m false ge hw bound parts bushy =
      let all : take m p ≡ p = take_all m p (ground (arith, ge)) in
      let inner = grows (drop m w) ts (All-drop m w hw) bushy.1 (
        subst (λ (P : Bytes → ℕ → Type 0). Entries P ts)
          (ap (λ (q : Bytes). λ (e : Bytes) (k : ℕ). Below w (q ++ e) k) (sym all)
            ∙ below m w p bound.2)
          parts.1) in
      let longer : 0 < length p = omega (arith, bound.0, bound.1) in
      (
        state p inner.0 i others,
        ap (λ (o : Option States). o >>= (λ t. some (state p t i others))) inner.1,
        Bushy-intro p inner.0 i others longer (inner.3 bushy.0) inner.2 bushy.2,
        λ l. Live-intro p inner.0 i others longer (inner.3 bushy.0),
      )

  round-Grows :
      (c : ℕ) (r : Bytes) (index : ℕ) (ts : States)
      → NonNull (c ∷ r)
      → Bushy ts
      → Entries (Below (c ∷ r)) ts
      → Grows ts (round walk (c ∷ r) c index ts)
  unfolding round
  round-Grows c r index end hw b h =
      (state (c ∷ r) (state [] end index end) 0 end, refl, (tt, tt, tt), λ l. inl tt)
  round-Grows c r index (state p ts i others) hw b h = elim (Bool-cases (starts_with_char p c)) [
    | inl s ↦ elim (Option-cases (mismatch p (c ∷ r))) [
      | inl n ↦ absurd (too_short p c r ts i others s n b h)
      | inr (m, n) ↦
          let pos = mismatch_pos p c r m s n in
          let agree = mismatch_lem p (c ∷ r) m n in
          let parts = Entries-elim (Below (c ∷ r)) p ts i others pos.1 h in
          let found =
            descend-Grows (c ∷ r) p ts i others m (ltb m (length p)) refl hw
              (pos.0, agree.1, agree.0) (parts.0, parts.1) (Bushy-elim p ts i others pos.1 b) in
          (found.0, entered walk p c r index ts i others m s n ∙ found.1, found.2, found.3)
    ]
    | inr s ↦
        let rest =
          round-Grows c r index others hw (Bushy-others p ts i others b)
            (Entries-others (Below (c ∷ r)) p ts i others h) in
        (
          state p ts i rest.0,
          ground (arith, s, rest.1),
          Bushy-replace p ts i others rest.0 b rest.2,
          Live-replace p ts i others rest.0 rest.3,
        )
  ]

pub insert-Grows :
    (fuel index : ℕ) (w : Bytes) (ts : States)
    → NonNull w
    → Bushy ts
    → Entries (Below w) ts
    → Grows ts (insert fuel index w ts)
unfolding insert
insert-Grows fuel index [] ts hw b h = (ts, refl, b, λ l. l)
insert-Grows zero index (c ∷ w) ts hw b h = (ts, refl, b, λ l. l)
insert-Grows (suc fuel) index (c ∷ w) ts hw b h =
    round-Grows (insert fuel index) (insert-Grows fuel index) c w index ts hw b h

-- No word of the tree is larger than one that is still to come.
abbrev pub Ahead : List Bytes → Bytes → ℕ → Type 0
Ahead ws e k = All (λ (v : Bytes). text_lt v e ≡ false) ws

insert_all-Sorted :
    (words ws : List Bytes) (ts : States)
    → All NonNull ws
    → Sorted ws
    → Bushy ts
    → Entries (Ahead ws) ts
    → (tree : States) × (insert_all words ws ts ≡ some tree)
unfolding insert_all
insert_all-Sorted words [] ts hw s b h = (ts, refl)
insert_all-Sorted words (w ∷ ws) ts hw s b h =
    let index = (position words w + 1) % 2 ^ 32 in
    let grown =
      insert-Grows (length w) index w ts hw.0 b
        (Entries-mono (Ahead (w ∷ ws)) (Below w) ts (λ e k a. a.0) h) in
    let kept =
      insert_lem (length w) index (Ahead ws) w ts grown.0 hw.0 s.0
        (Entries-mono (Ahead (w ∷ ws)) (Ahead ws) ts (λ e k a. a.1) h) grown.1 in
    let rest = insert_all-Sorted words ws grown.0 hw.1 s.1 grown.2 kept in
    (rest.0, ap (λ (o : Option States). o >>= (λ t. insert_all words ws t)) grown.1 ∙ rest.1)

-- The tree of words without a null character is made.
pub make_total :
    (words : List Bytes) → All NonNull words → (tree : States) × (make words ≡ some tree)
unfolding make
make_total words h =
    insert_all-Sorted words (sort words) end (All-sort NonNull words h) (sort-Sorted words) tt tt
