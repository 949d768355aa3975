-- ===== src/Rpc/Agreement.antt =====
-- The proxies and the dispatchers that `Annotated` of include/erl/_impl/rpc/proxy.hpp makes.
use cpp26_experiments.Base.{
  ℕ, zero, suc, ◌+◌, ◌≡◌, refl, ap, ◌∙◌, subst, Bool, true, List, [], ◌∷◌, Option, some, ◌>>=◌,
  arith, get_elem?, Bool-cases, Option-cases, inl, inr,
}
use cpp26_experiments.Meta.Info.{Compiler}
use cpp26_experiments.Meta.Members.{filter, named_members_of}
use cpp26_experiments.Rpc.Policy.{Rule, make_members, first_made}
use cpp26_experiments.Rpc.Policies.{
  ProxyType, function_proxy, custom_proxy, function_template_proxy, ProxyMember, DispatchMember,
  function_dispatcher, custom_dispatcher, function_template_dispatcher, return_of,
  annotated_is_remote, annotated_proxy, annotated_dispatch, annotated_proxies,
  annotated_dispatchers, make_proxy, make_dispatcher,
}

-- The index that a proxy's member sends, and the one that a dispatcher's member answers with.
abbrev pub sent_index : {Info : Type 0} → ProxyType Info → ℕ
sent_index (function_proxy index r) = index
sent_index (custom_proxy index r h) = index
sent_index (function_template_proxy index f) = index

abbrev pub answer_index : {Info : Type 0} → DispatchMember Info → ℕ
answer_index (function_dispatcher f index) = index
answer_index (custom_dispatcher f index) = index
answer_index (function_template_dispatcher f index) = index

-- A policy that makes a member of every function that it takes for remote: the members are those of
-- the remote functions, in order.
module _ {M P : Type 0} (rule : Rule M P)
    (makes : (index : ℕ) (fnc : M)
      → rule.is_remote fnc ≡ true
      → (p : P) × (rule.make_member index fnc ≡ some p)) where
  make_members-filter :
      (index i : ℕ) (fncs : List M)
      → get_elem? (make_members (rule ∷ []) index fncs) i
        ≡ (get_elem? (filter rule.is_remote fncs) i >>= rule.make_member (index + i))
  unfolding make_members first_made
  make_members-filter index i [] = refl
  make_members-filter index zero (fnc ∷ fncs) = elim (Bool-cases (rule.is_remote fnc)) [
    | inr f ↦ ground (arith, f, make_members-filter index zero fncs)
    | inl t ↦
        let made = makes index fnc t in
        let same : index + 0 ≡ index = omega arith in
        ground (arith, t, made.1, ap (λ (n : ℕ). rule.make_member n fnc) same)
  ]
  make_members-filter index (suc i) (fnc ∷ fncs) = elim (Bool-cases (rule.is_remote fnc)) [
    | inr f ↦ ground (arith, f, make_members-filter index (suc i) fncs)
    | inl t ↦
        let made = makes index fnc t in
        let same : suc index + i ≡ index + suc i = omega arith in
        let rest =
          make_members-filter (suc index) i fncs
          ∙ ap (λ (n : ℕ). get_elem? (filter rule.is_remote fncs) i >>= rule.make_member n) same in
        ground (arith, t, made.1, rest)
  ]

filter_here :
    {A : Type 0} (p : A → Bool) (x : A) (xs : List A) (i : ℕ) (a : A)
    → p x ≡ true
    → get_elem? (x ∷ filter p xs) i ≡ some a
    → ((j : ℕ) (b : A) → get_elem? (filter p xs) j ≡ some b → p b ≡ true)
    → p a ≡ true
filter_here p x xs zero a t e rest =
    let same : x ≡ a = ground (arith, e) in subst (λ b. p b ≡ true) same t
filter_here p x xs (suc i) a t e rest = rest i a e

filter_sound :
    {A : Type 0} (p : A → Bool) (xs : List A) (i : ℕ) (a : A)
    → get_elem? (filter p xs) i ≡ some a
    → p a ≡ true
filter_sound p [] i a e = cc
filter_sound p (x ∷ xs) i a e = elim (Bool-cases (p x)) [
  | inr f ↦ filter_sound p xs i a (ground (arith, e, f))
  | inl t ↦ filter_here p x xs i a t (ground (arith, e, t)) (filter_sound p xs)
]

module _ {Info : Type 0} (std : Compiler Info) (callback_tag : Info) where
  annotated_proxy_made :
      (index : ℕ) (fnc : Info)
      → annotated_is_remote std callback_tag fnc ≡ true
      → (p : ProxyMember Info) × (annotated_proxy std callback_tag index fnc ≡ some p)
        × (sent_index p.type ≡ index)
        × (p.name ≡ std.identifier_of fnc)
  unfolding annotated_is_remote annotated_proxy
  annotated_proxy_made index fnc r = elim (Bool-cases (std.is_function fnc)) [
    | inl f ↦ elim (Option-cases (std.handler_of fnc)) [
      | inl h ↦ (
        record {
          type = function_proxy index (return_of std callback_tag fnc);
          name = std.identifier_of fnc;
        },
        ground (arith, f, h),
        refl,
        refl,
      )
      | inr (handler, h) ↦ (
        record {
          type = custom_proxy index (return_of std callback_tag fnc) fnc;
          name = std.identifier_of fnc;
        },
        ground (arith, f, h),
        refl,
        refl,
      )
    ]
    | inr f ↦ elim (Option-cases (std.substitute_nothing fnc)) [
      | inl n ↦ absurd (ground (arith, r, f, n))
      | inr (base, n) ↦ elim (Option-cases (std.handler_of base)) [
        | inl h ↦ absurd (ground (arith, r, f, n, h))
        | inr (handler, h) ↦ (
          record {
            type = custom_proxy index (return_of std callback_tag base) fnc;
            name = std.identifier_of fnc;
          },
          ground (arith, f, n, h),
          refl,
          refl,
        )
      ]
    ]
  ]

  annotated_dispatch_made :
      (index : ℕ) (fnc : Info)
      → annotated_is_remote std callback_tag fnc ≡ true
      → (d : DispatchMember Info) × (annotated_dispatch std callback_tag index fnc ≡ some d)
        × (answer_index d ≡ index)
  unfolding annotated_is_remote annotated_dispatch
  annotated_dispatch_made index fnc r = elim (Bool-cases (std.is_function fnc)) [
    | inl f ↦ elim (Option-cases (std.handler_of fnc)) [
      | inl h ↦ (function_dispatcher fnc index, ground (arith, f, h), refl)
      | inr (handler, h) ↦ (custom_dispatcher handler index, ground (arith, f, h), refl)
    ]
    | inr f ↦ elim (Option-cases (std.substitute_nothing fnc)) [
      | inl n ↦ absurd (ground (arith, r, f, n))
      | inr (base, n) ↦ elim (Option-cases (std.handler_of base)) [
        | inl h ↦ absurd (ground (arith, r, f, n, h))
        | inr (handler, h) ↦ (custom_dispatcher handler index, ground (arith, f, n, h), refl)
      ]
    ]
  ]

  -- For every service, the i-th of its public functions that the policy of annotations takes
  -- for remote: the i-th member of the proxy has its name and sends the index i, and the i-th
  -- member of the dispatcher is the one made for it and answers with the index i.
  pub annotated_agree :
      (service : Info) (i : ℕ) (fnc : Info)
      → get_elem? (filter (annotated_is_remote std callback_tag) (named_members_of std service)) i
        ≡ some fnc
      → ((p : ProxyMember Info) × (get_elem?
              (make_proxy std callback_tag (annotated_proxies std callback_tag) service)
              i
            ≡ some p)
          × (sent_index p.type ≡ i)
          × (p.name ≡ std.identifier_of fnc))
        × ((d : DispatchMember Info) × (get_elem?
                (make_dispatcher std callback_tag (annotated_dispatchers std callback_tag) service)
                i
              ≡ some d)
            × (annotated_dispatch std callback_tag i fnc ≡ some d)
            × (answer_index d ≡ i))
  unfolding make_proxy make_dispatcher
  annotated_agree service i fnc e =
      let remote =
        filter_sound (annotated_is_remote std callback_tag) (named_members_of std service) i fnc
          e in
      let p = annotated_proxy_made i fnc remote in
      let d = annotated_dispatch_made i fnc remote in
      let ps =
        make_members-filter
          (record {
            is_remote = annotated_is_remote std callback_tag;
            make_member = annotated_proxy std callback_tag;
          })
          (λ n f r. let m = annotated_proxy_made n f r in (m.0, m.1)) 0 i
          (named_members_of std service) in
      let ds =
        make_members-filter
          (record {
            is_remote = annotated_is_remote std callback_tag;
            make_member = annotated_dispatch std callback_tag;
          })
          (λ n f r. let m = annotated_dispatch_made n f r in (m.0, m.1)) 0 i
          (named_members_of std service) in
      let same : 0 + i ≡ i = omega arith in
      (
        (
          p.0,
          ps
              ∙ ap (λ (o : Option Info). o >>= annotated_proxy std callback_tag (0 + i)) e
              ∙ ap (λ (n : ℕ). annotated_proxy std callback_tag n fnc) same
              ∙ p.1,
          p.2,
          p.3,
        ),
        (
          d.0,
          ds
              ∙ ap (λ (o : Option Info). o >>= annotated_dispatch std callback_tag (0 + i)) e
              ∙ ap (λ (n : ℕ). annotated_dispatch std callback_tag n fnc) same
              ∙ d.1,
          d.1,
          d.2,
        ),
      )
