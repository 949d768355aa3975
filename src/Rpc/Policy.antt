-- ===== src/Rpc/Policy.antt =====
-- Which members of a service are remote, and how they are numbered: `Policy` of
-- include/erl/_impl/rpc/proxy.hpp.
use cpp26_experiments.Base.{
  ℕ, zero, suc, ◌+◌, ◌≡◌, refl, ◌∙◌, ap, Bool, true, false, List, [], ◌∷◌, Option, none, some,
  arith, get_elem?,
}
use cpp26_experiments.Meta.Members.{filter}

-- One policy of the pack `Ps...`, with the function that makes a member (of the proxy or of the
-- dispatcher); none is the null reflection.
pub record Rule (M P : Type 0) : Type 0 where
  pub is_remote : M → Bool
  pub make_member : ℕ → M → Option P

abbrev pub push_made : {P : Type 0} → Option P × ℕ → (ℕ → List P) → List P
push_made (none, index) rest = rest index
push_made (some member, index) rest = member ∷ rest index

module _ {M P : Type 0} where
  -- The fold over the policies, and the index after it: it grows with every policy that takes the
  -- member for a remote one, whether or not a member is made.
  unfoldable pub first_made : List (Rule M P) → ℕ → M → Option P × ℕ
  first_made [] index fnc = (none, index)
  first_made (rule ∷ rules) index fnc = elim (rule.is_remote fnc) [
    | true ↦ elim (rule.make_member index fnc) [
      | some member ↦ (some member, suc index)
      | none ↦ first_made rules (suc index) fnc
    ]
    | false ↦ first_made rules index fnc
  ]

  -- The loop of `make_proxy` and of `make_dispatcher`, without the client pointer in front.
  unfoldable pub make_members : List (Rule M P) → ℕ → List M → List P
  make_members rules index [] = []
  make_members rules index (fnc ∷ fncs) =
      push_made (first_made rules index fnc) (λ index'. make_members rules index' fncs)

abbrev pub numbered_from : {M P : Type 0} → (ℕ → M → P) → ℕ → List M → List P
numbered_from make index [] = []
numbered_from make index (fnc ∷ fncs) = make index fnc ∷ numbered_from make (suc index) fncs

abbrev pub made : {M P : Type 0} → (M → P) → Option M → Option P
made make none = none
made make (some fnc) = some (make fnc)

module _ {M : Type 0} (is_remote : M → Bool) where
  abbrev pub total : {P : Type 0} → (ℕ → M → P) → List (Rule M P)
  total make =
      record { is_remote = is_remote; make_member = λ index fnc. some (make index fnc) } ∷ []

  make_members-total :
      {P : Type 0} (make : ℕ → M → P) (index : ℕ) (fncs : List M)
      → make_members (total make) index fncs ≡ numbered_from make index (filter is_remote fncs)
  unfolding make_members first_made
  make_members-total make index [] = refl
  make_members-total make index (fnc ∷ fncs) =
      ground (arith, make_members-total make index fncs, make_members-total make (suc index) fncs)

  numbered_from-place :
      {P : Type 0} (make : ℕ → M → P) (index i : ℕ) (fncs : List M)
      → get_elem? (numbered_from make index fncs) i ≡ made (make (index + i)) (get_elem? fncs i)
  numbered_from-place make index i [] = refl
  numbered_from-place make index zero (fnc ∷ fncs) = ap (λ (n : ℕ). some (make n fnc)) (omega arith)
  numbered_from-place make index (suc i) (fnc ∷ fncs) =
      numbered_from-place make (suc index) i fncs
      ∙ ap (λ (n : ℕ). made (make n) (get_elem? fncs i)) (omega arith)

  make_members-place :
      {P : Type 0} (make : ℕ → M → P) (fncs : List M) (i : ℕ)
      → get_elem? (make_members (total make) 0 fncs) i
        ≡ made (make i) (get_elem? (filter is_remote fncs) i)
  make_members-place make fncs i =
      ap (λ members. get_elem? members i) (make_members-total make 0 fncs)
      ∙ numbered_from-place make 0 i (filter is_remote fncs)
      ∙ ap (λ (n : ℕ). made (make n) (get_elem? (filter is_remote fncs) i)) (omega arith)

  -- Where a policy makes a member for every function that it takes for remote: the i-th
  -- member of the proxy and the i-th of the dispatcher are made from the i-th remote
  -- function, each with the index i, so that the index that a proxy sends selects the
  -- function that it stands for.
  pub make_members_agree :
      {P D : Type 0} (proxy : ℕ → M → P) (dispatcher : ℕ → M → D) (fncs : List M) (i : ℕ)
      → (get_elem? (make_members (total proxy) 0 fncs) i
          ≡ made (proxy i) (get_elem? (filter is_remote fncs) i))
        × (get_elem? (make_members (total dispatcher) 0 fncs) i
            ≡ made (dispatcher i) (get_elem? (filter is_remote fncs) i))
  make_members_agree proxy dispatcher fncs i =
      (make_members-place proxy fncs i, make_members-place dispatcher fncs i)
