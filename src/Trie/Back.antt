-- ===== src/Trie/Back.antt =====
-- The words of a tree of include/erl/_impl/util/trie.hpp before and after an insertion.
use cpp26_experiments.Base.{
  ℕ, zero, suc, ◌≡◌, ◌≤◌, ◌<◌, refl, sym, ap, ◌∙◌, subst, ltb, ltb→lt, Bool, true, false, [], ◌∷◌,
  ◌++◌, Option, some, Bytes, take, drop, arith, Bool-cases, Option-cases, inl, inr, length, ◌⊎◌,
  take-append-drop, take_all, fun_ext, append_assoc, append-nil, length-take, length-drop,
}
use cpp26_experiments.Trie.Tree.{
  States, end, state, mismatch, round, descend, insert, starts_with_char, text_lt,
}
use cpp26_experiments.Trie.Entries.{Entries}
use cpp26_experiments.Trie.Build.{
  bind_some, NonNull, All-drop, Entries-elim, Entries-intro, Entries-others, Entries-replace,
  Entries-cut, mismatch_lem, mismatch_pos,
}
use cpp26_experiments.Trie.Live.{
  Live, Bushy, Below, Live_word, Bushy-intro, Bushy-elim, Live-intro, Bushy-others, below, entered,
  too_short, Entries-mono,
}

-- No word of the tree is larger, and the word itself has this index.
abbrev pub Before : Bytes → ℕ → Bytes → ℕ → Type 0
Before w index e k = Below w e k × (e ≡ w → k ≡ index)

pub Entries-both :
    (P Q : Bytes → ℕ → Type 0) (ts : States)
    → Entries P ts
    → Entries Q ts
    → Entries (λ w k. P w k × Q w k) ts
Entries-both P Q end p q = tt
Entries-both P Q (state [] ts i others) p q = ((p.0, q.0), Entries-both P Q others p.1 q.1)
Entries-both P Q (state (c ∷ x) ts i others) p q = (
  p.0,
  Entries-both (λ w. P (c ∷ (x ++ w))) (λ w. Q (c ∷ (x ++ w))) ts p.1 q.1,
  Entries-both P Q others p.2 q.2,
)

-- `Before` below a prefix that the word shares.
before :
    (m : ℕ) (w p : Bytes) (index : ℕ) (ts : States)
    → take m p ≡ take m w
    → Entries (λ e. Before w index (take m p ++ e)) ts
    → Entries (Before (drop m w) index) ts
before m w p index ts same h =
    Entries-mono (λ e. Before w index (take m p ++ e)) (Before (drop m w) index) ts
      (λ e k b. (
        subst (λ (R : Bytes → ℕ → Type 0). R e k) (below m w p same) b.0,
        λ eq. b.1 (
            ap (λ (v : Bytes). take m p ++ v) eq
            ∙ ap (λ (v : Bytes). v ++ drop m w) same
            ∙ take-append-drop m w),
      ))
      h

abbrev pub Has : (Bytes → ℕ → Type 0) → ℕ → Bytes → States → Type 0
Has P index w ts = Entries P ts × ((Live ts ⊎ (0 < length w)) → P w index)

abbrev pub Back : ℕ → ℕ → (Bytes → States → Option States) → Type 1
Back n index walk =
    (P : Bytes → ℕ → Type 0) (w : Bytes) (ts ts' : States)
    → length w ≤ n
    → NonNull w
    → Bushy ts
    → Entries (Before w index) ts
    → walk w ts ≡ some ts'
    → Entries P ts'
    → Has P index w ts

-- Nothing but the empty word is not larger than it.
last_word :
    (P : Bytes → ℕ → Type 0) (index : ℕ) (w : Bytes) (k : ℕ)
    → P w k
    → Before [] index w k
    → P [] index
unfolding text_lt
last_word P index [] k p b = subst (λ (i : ℕ). P [] i) (b.1 refl) p
last_word P index (c ∷ w) k p b = absurd (cc (b.0))

module _ (n index : ℕ) (walk : Bytes → States → Option States) (back : Back n index walk) where
  descend-Has :
      (P : Bytes → ℕ → Type 0) (w p : Bytes) (ts : States) (i : ℕ) (others ts' : States) (m : ℕ)
      (b : Bool)
      → ltb m (length p) ≡ b
      → length w ≤ suc n
      → NonNull w
      → 0 < m × m ≤ length p × take m p ≡ take m w
      → NonNull p × Entries (λ e. Before w index (p ++ e)) ts
      → Live ts × Bushy ts × Bushy others
      → descend walk w m b p ts i others ≡ some ts'
      → Entries P ts'
      → Entries P (state p ts i others) × P w index
  descend-Has P w p ts i others ts' m true lt len hw bound parts bushy eq h =
      let got = bind_some (walk (drop m w) (state (drop m p) ts 0 end)) _ ts' eq in
      let same : ts' ≡ state (take m p) got.0 i others = cc (got.2) in
      let longer : 0 < length (take m p) =
        omega (arith, length-take m p, bound.0, ltb→lt m (length p) lt) in
      let rest : 0 < length (drop m p) = omega (arith, length-drop m p, ltb→lt m (length p) lt) in
      let opened =
        Entries-elim P (take m p) got.0 i others longer
          (subst (λ (t : States). Entries P t) same h) in
      let inner =
        back (λ e. P (take m p ++ e)) (drop m w) (state (drop m p) ts 0 end) got.0
          (omega (arith, length-drop m w, len, bound.0)) (All-drop m w hw)
          (Bushy-intro (drop m p) ts 0 end rest bushy.0 bushy.1 tt)
          (before m w p index (state (drop m p) ts 0 end) bound.2
            (Entries-cut (Before w index) m p ts parts.0 (ltb→lt m (length p) lt) parts.1))
          got.1 opened.1 in
      let below_cut = Entries-elim (λ e. P (take m p ++ e)) (drop m p) ts 0 end rest inner.0 in
      let whole : 0 < length p = omega (arith, bound.0, bound.1) in
      let joined : (λ (e : Bytes). P (take m p ++ (drop m p ++ e))) ≡ (λ (e : Bytes). P (p ++ e)) =
        fun_ext (λ (e : Bytes).
          ap (λ (v : Bytes). P v)
            (sym (append_assoc (take m p) (drop m p) e)
              ∙ ap (λ (v : Bytes). v ++ e) (take-append-drop m p))) in
      let word = inner.1 (inl (Live-intro (drop m p) ts 0 end rest bushy.0)) in
      (
        Entries-intro P p ts i others whole parts.0
            (subst (λ (R : Bytes → ℕ → Type 0). Entries R ts) joined below_cut.1) opened.2,
        subst (λ (v : Bytes). P v index)
            (ap (λ (v : Bytes). v ++ drop m w) bound.2 ∙ take-append-drop m w) word,
      )
  descend-Has P w p ts i others ts' m false ge len hw bound parts bushy eq h =
      let got = bind_some (walk (drop m w) ts) _ ts' eq in
      let same : ts' ≡ state p got.0 i others = cc (got.2) in
      let all : take m p ≡ p = take_all m p (ground (arith, ge)) in
      let longer : 0 < length p = omega (arith, bound.0, bound.1) in
      let opened =
        Entries-elim P p got.0 i others longer (subst (λ (t : States). Entries P t) same h) in
      let inner =
        back (λ e. P (p ++ e)) (drop m w) ts got.0 (omega (arith, length-drop m w, len, bound.0))
          (All-drop m w hw) bushy.1
          (before m w p index ts bound.2
            (subst (λ (q : Bytes). Entries (λ e. Before w index (q ++ e)) ts) (sym all) parts.1))
          got.1 opened.1 in
      let word = inner.1 (inl bushy.0) in
      (
        Entries-intro P p ts i others longer parts.0 inner.0 opened.2,
        subst (λ (v : Bytes). P v index)
            (ap (λ (q : Bytes). q ++ drop m w) (sym all ∙ bound.2) ∙ take-append-drop m w) word,
      )

  round-Has :
      (P : Bytes → ℕ → Type 0) (c : ℕ) (r : Bytes) (ts ts' : States)
      → length (c ∷ r) ≤ suc n
      → NonNull (c ∷ r)
      → Bushy ts
      → Entries (Before (c ∷ r) index) ts
      → round walk (c ∷ r) c index ts ≡ some ts'
      → Entries P ts'
      → Entries P ts × P (c ∷ r) index
  unfolding round
  round-Has P c r end ts' len hw b q eq h =
      let same : ts' ≡ state (c ∷ r) (state [] end index end) 0 end = cc (eq) in
      let opened = subst (λ (t : States). Entries P t) same h in
      (tt, subst (λ (w : Bytes). P w index) (append-nil (c ∷ r)) opened.1.0)
  round-Has P c r (state p ts i others) ts' len hw b q eq h =
      elim (Bool-cases (starts_with_char p c)) [
        | inl s ↦ elim (Option-cases (mismatch p (c ∷ r))) [
          | inl none_left ↦ absurd (
              too_short p c r ts i others s none_left b (
                Entries-mono (Before (c ∷ r) index) (Below (c ∷ r)) (state p ts i others)
                  (λ e k x. x.0) q))
          | inr (m, e) ↦
              let pos = mismatch_pos p c r m s e in
              let agree = mismatch_lem p (c ∷ r) m e in
              let parts = Entries-elim (Before (c ∷ r) index) p ts i others pos.1 q in
              descend-Has P (c ∷ r) p ts i others ts' m (ltb m (length p)) refl len hw
                (pos.0, agree.1, agree.0) (parts.0, parts.1) (Bushy-elim p ts i others pos.1 b)
                (sym (entered walk p c r index ts i others m s e) ∙ eq) h
        ]
        | inr s ↦
            let got = bind_some (round walk (c ∷ r) c index others) _ ts' (rw (s, round) at eq) in
            let same : ts' ≡ state p ts i got.0 = cc (got.2) in
            let opened = subst (λ (t : States). Entries P t) same h in
            let rest =
              round-Has P c r others got.0 len hw (Bushy-others p ts i others b)
                (Entries-others (Before (c ∷ r) index) p ts i others q) got.1
                (Entries-others P p ts i got.0 opened) in
            (Entries-replace P p ts i got.0 others opened rest.0, rest.1)
      ]

pub insert-Has : (fuel index : ℕ) → Back fuel index (insert fuel index)
unfolding insert
insert-Has fuel index P [] ts ts' len hw b q eq h =
    let same : ts' ≡ ts = cc (eq) in
    let kept = subst (λ (t : States). Entries P t) same h in
    (
      kept,
      λ l. elim l [
        | inl live ↦
            let word =
              Live_word (λ w k. P w k × Before [] index w k) ts live
                (Entries-both P (Before [] index) ts kept q) in
            last_word P index word.0 word.1 word.2.0 word.2.1
        | inr pos ↦ absurd (omega arith)
      ],
    )
insert-Has zero index P (c ∷ w) ts ts' len hw b q eq h = absurd (omega arith)
insert-Has (suc fuel) index P (c ∷ w) ts ts' len hw b q eq h =
    let found =
      round-Has fuel index (insert fuel index) (insert-Has fuel index) P c w ts ts' len hw b q eq
        h in
    (found.0, λ l. found.1)
