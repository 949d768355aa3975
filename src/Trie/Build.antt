-- ===== src/Trie/Build.antt =====
-- What `ParsedState::make` of include/erl/_impl/util/trie.hpp puts into the tree.
use cpp26_experiments.Base.{
  ℕ, zero, suc, ◌≡◌, ◌≢◌, ◌≤◌, ◌<◌, refl, sym, ap, subst, ◌==◌, Bool, true, false, [], ◌∷◌, ◌++◌,
  Option, none, some, Bytes, length, take, drop, arith, All, Bool-cases, inl, inr, fun_ext,
  append_assoc, append-nil, ◌∙◌, ltb, ltb→lt, take-append-drop, length-drop, length-take, ◌>>=◌,
  Option-cases, take_all,
}
use cpp26_experiments.Trie.Tree.{
  States, end, state, mismatch, round, descend, insert, starts_with_char,
}
use cpp26_experiments.Trie.Entries.{Entries}

abbrev pub NonNull : Bytes → Type 0
NonNull = All (λ (d : ℕ). d ≢ 0)

pub bind_some {ℓ κ} :
    {A : Type ℓ} {B : Type κ} (o : Option A) (f : A → Option B) (b : B)
    → (o >>= f) ≡ some b
    → (a : A) × (o ≡ some a) × (f a ≡ some b)
bind_some none f b e = cc
bind_some (some a) f b e = (a, refl, e)

All-take : (m : ℕ) (w : Bytes) → NonNull w → NonNull (take m w)
All-take zero w h = tt
All-take (suc m) [] h = tt
All-take (suc m) (c ∷ w) h = (h.0, All-take m w h.1)

pub All-drop : (m : ℕ) (w : Bytes) → NonNull w → NonNull (drop m w)
All-drop zero w h = h
All-drop (suc m) [] h = tt
All-drop (suc m) (c ∷ w) h = All-drop m w h.1

-- The tree and the word agree up to where the mismatch is.
pub mismatch_lem :
    (p w : Bytes) (m : ℕ) → mismatch p w ≡ some m → (take m p ≡ take m w) × (m ≤ length p)
unfolding mismatch
mismatch_lem [] w m e = (ground (arith, e), ground (arith, e))
mismatch_lem (c ∷ p) [] m e = cc
mismatch_lem (c ∷ p) (d ∷ w) m e = elim (Bool-cases (c == d)) [
  | inl t ↦ elim (Option-cases (mismatch p w)) [
    | inl n ↦ absurd (ground (arith, t, n, e))
    | inr (k, s) ↦
        let ih = mismatch_lem p w k s in
        let ek : m ≡ suc k = ground (arith, t, s, e) in
        rw ek (ground (arith, t, ih.0), ground (arith, t, ih.1))
  ]
  | inr f ↦ let ez : m ≡ 0 = ground (arith, f, e) in rw ez (refl, omega arith)
]

pub Entries-intro :
    (P : Bytes → ℕ → Type 0) (p : Bytes) (ts : States) (i : ℕ) (others : States)
    → 0 < length p
    → NonNull p
    → Entries (λ (w : Bytes). P (p ++ w)) ts
    → Entries P others
    → Entries P (state p ts i others)
Entries-intro P [] ts i others n h e o = absurd (omega arith)
Entries-intro P (c ∷ p) ts i others n h e o = (h, e, o)

le_of : {a b : ℕ} → ltb a b ≡ false → b ≤ a
le_of h = ground (arith, h)

-- A prefix that is cut in two holds the same words.
pub Entries-cut :
    (P : Bytes → ℕ → Type 0) (m : ℕ) (p : Bytes) (ts : States)
    → NonNull p
    → m < length p
    → Entries (λ (w : Bytes). P (p ++ w)) ts
    → Entries (λ (w : Bytes). P (take m p ++ w)) (state (drop m p) ts 0 end)
Entries-cut P m p ts h lt e =
    Entries-intro (λ (w : Bytes). P (take m p ++ w)) (drop m p) ts 0 end
      (omega (arith, length-drop m p)) (All-drop m p h)
      (subst (λ (Q : Bytes → ℕ → Type 0). Entries Q ts)
        (fun_ext (λ (w : Bytes).
          ap (λ (v : Bytes). P v)
            (ap (λ (v : Bytes). v ++ w) (sym (take-append-drop m p))
              ∙ append_assoc (take m p) (drop m p) w)))
        e)
      tt

abbrev pub Keeps : ℕ → (Bytes → States → Option States) → Type 1
Keeps index walk =
    (P : Bytes → ℕ → Type 0) (word : Bytes) (ts ts' : States)
    → NonNull word
    → P word index
    → Entries P ts
    → walk word ts ≡ some ts'
    → Entries P ts'

-- Where the first characters agree, at least one is matched, and the prefix is not empty.
pub mismatch_pos :
    (p : Bytes) (c : ℕ) (r : Bytes) (m : ℕ)
    → starts_with_char p c ≡ true
    → mismatch p (c ∷ r) ≡ some m
    → (0 < m) × (0 < length p)
unfolding mismatch
mismatch_pos [] c r m s e = cc
mismatch_pos (d ∷ p) c r m s e = elim (Option-cases (mismatch p r)) [
  | inl n ↦ absurd (ground (arith, n, s, e))
  | inr (k, n) ↦ (ground (arith, n, s, e), omega arith)
]

pub Entries-elim :
    (P : Bytes → ℕ → Type 0) (p : Bytes) (ts : States) (i : ℕ) (others : States)
    → 0 < length p
    → Entries P (state p ts i others)
    → NonNull p × Entries (λ (w : Bytes). P (p ++ w)) ts × Entries P others
Entries-elim P [] ts i others n h = absurd (omega arith)
Entries-elim P (c ∷ p) ts i others n h = h

pub Entries-others :
    (P : Bytes → ℕ → Type 0) (p : Bytes) (ts : States) (i : ℕ) (others : States)
    → Entries P (state p ts i others)
    → Entries P others
Entries-others P [] ts i others h = h.1
Entries-others P (c ∷ p) ts i others h = h.2

pub Entries-replace :
    (P : Bytes → ℕ → Type 0) (p : Bytes) (ts : States) (i : ℕ) (others others' : States)
    → Entries P (state p ts i others)
    → Entries P others'
    → Entries P (state p ts i others')
Entries-replace P [] ts i others others' h o = (h.0, o)
Entries-replace P (c ∷ p) ts i others others' h o = (h.0, h.1, o)

module _ (index : ℕ) (walk : Bytes → States → Option States) (keeps : Keeps index walk) where
  -- The rest of a round, whether the prefix is split or not.
  descend_lem :
      (P : Bytes → ℕ → Type 0) (word p : Bytes) (ts : States) (i : ℕ) (others ts' : States) (m : ℕ)
      (b : Bool)
      → ltb m (length p) ≡ b
      → NonNull word
      → P (take m p ++ drop m word) index
      → 0 < m × m ≤ length p
      → NonNull p × Entries (λ (w : Bytes). P (p ++ w)) ts × Entries P others
      → descend walk word m b p ts i others ≡ some ts'
      → Entries P ts'
  descend_lem P word p ts i others ts' m true lt hw pw bound parts eq =
      let got = bind_some (walk (drop m word) (state (drop m p) ts 0 end)) _ ts' eq in
      let same : state (take m p) got.0 i others ≡ ts' = cc (got.2) in
      let split = Entries-cut P m p ts parts.0 (ltb→lt m (length p) lt) parts.1 in
      let inner =
        keeps (λ (w : Bytes). P (take m p ++ w)) (drop m word) _ got.0 (All-drop m word hw) pw split
          got.1 in
      subst (λ (t : States). Entries P t) same
        (Entries-intro P (take m p) got.0 i others
          (omega (arith, length-take m p, bound.0, ltb→lt m (length p) lt)) (All-take m p parts.0)
          inner parts.2)
  descend_lem P word p ts i others ts' m false ge hw pw bound parts eq =
      let got = bind_some (walk (drop m word) ts) _ ts' eq in
      let same : state p got.0 i others ≡ ts' = cc (got.2) in
      let all : take m p ≡ p = take_all m p (le_of ge) in
      let inner =
        keeps (λ (w : Bytes). P (p ++ w)) (drop m word) ts got.0 (All-drop m word hw)
          (subst (λ (q : Bytes). P (q ++ drop m word) index) all pw) parts.1 got.1 in
      subst (λ (t : States). Entries P t) same
        (Entries-intro P p got.0 i others (omega (arith, bound.0, bound.1)) parts.0 inner parts.2)

  round_lem :
      (P : Bytes → ℕ → Type 0) (c : ℕ) (r : Bytes) (ts ts' : States)
      → NonNull (c ∷ r)
      → P (c ∷ r) index
      → Entries P ts
      → round walk (c ∷ r) c index ts ≡ some ts'
      → Entries P ts'
  unfolding round
  round_lem P c r end ts' hw pw h eq =
      let same : state (c ∷ r) (state [] end index end) 0 end ≡ ts' = cc (eq) in
      subst (λ (t : States). Entries P t) same
        (hw, (subst (λ (w : Bytes). P w index) (sym (append-nil (c ∷ r))) pw, tt), tt)
  round_lem P c r (state p ts i others) ts' hw pw h eq = elim (Bool-cases (starts_with_char p c)) [
    | inl s ↦
        let got = bind_some (mismatch p (c ∷ r)) _ ts' (rw (s, round) at eq) in
        let pos = mismatch_pos p c r got.0 s got.1 in
        let agree = mismatch_lem p (c ∷ r) got.0 got.1 in
        let whole : P (take got.0 p ++ drop got.0 (c ∷ r)) index =
          rw agree.0 (rw (take-append-drop got.0 (c ∷ r)) pw) in
        descend_lem P (c ∷ r) p ts i others ts' got.0 _ refl hw whole (pos.0, agree.1)
          (Entries-elim P p ts i others pos.1 h) got.2
    | inr s ↦
        let got = bind_some (round walk (c ∷ r) c index others) _ ts' (rw (s, round) at eq) in
        let same : state p ts i got.0 ≡ ts' = cc (got.2) in
        subst (λ (t : States). Entries P t) same
          (Entries-replace P p ts i others got.0 h
            (round_lem P c r others got.0 hw pw (Entries-others P p ts i others h) got.1))
  ]

pub insert_lem : (fuel index : ℕ) → Keeps index (insert fuel index)
unfolding insert
insert_lem fuel index P [] ts ts' hw pw h eq =
    let same : ts ≡ ts' = cc (eq) in subst (λ (t : States). Entries P t) same h
insert_lem zero index P (c ∷ word) ts ts' hw pw h eq =
    let same : ts ≡ ts' = cc (eq) in subst (λ (t : States). Entries P t) same h
insert_lem (suc fuel) index P (c ∷ word) ts ts' hw pw h eq =
    round_lem index (insert fuel index) (insert_lem fuel index) P c word ts ts' hw pw h eq
