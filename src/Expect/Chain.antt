-- ===== src/Expect/Chain.antt =====
-- Chained comparisons and `transform` of include/erl/_impl/expect.hpp.
use cpp26_experiments.Base.{
  ℕ, ◌≡◌, refl, sym, ap, ◌∙◌, Bool, true, false, ◌&&◌, List, [], ◌∷◌, ◌++◌, Bool-cases, inl, inr,
  arith,
}
use cpp26_experiments.Util.Operators.{Operators, op_ampersand_ampersand}
use cpp26_experiments.Expect.Expr.{
  Expr, constant, placeholder, binary, is_comparison, is_binary_comparison, eval, get_left_most,
  get_right_most, split_chain, transform,
}

module _ {V : Type 0} where
  -- Comparisons all the way down to constants and placeholders.
  abbrev pub IsChain : Expr V → Type 0
  IsChain (constant v) = Unit
  IsChain (placeholder i) = Unit
  IsChain (binary op rhs lhs) = (is_comparison op ≡ true) × IsChain rhs × IsChain lhs

  -- The chain as it is written: its first operand, and each operator with the operand after it.
  abbrev pub first : Expr V → Expr V
  first (constant v) = constant v
  first (placeholder i) = placeholder i
  first (binary op rhs lhs) = first rhs

  abbrev pub links : Expr V → List (Operators × Expr V)
  links (constant v) = []
  links (placeholder i) = []
  links (binary op rhs lhs) = links rhs ++ (op, first lhs) ∷ links lhs

  get_right_most-first : (e : Expr V) → get_right_most e ≡ first e
  unfolding get_right_most
  get_right_most-first (constant v) = refl
  get_right_most-first (placeholder i) = refl
  get_right_most-first (binary op rhs lhs) = get_right_most-first rhs

  module _ (apply : Operators → V → V → V) (truthy : V → Bool) (args : ℕ → V) where
    -- Every neighbouring pair compares true.
    abbrev pub compared : Expr V → List (Operators × Expr V) → Bool
    compared e [] = true
    compared e (link ∷ rest) =
        truthy (apply link.0 (eval apply args e) (eval apply args link.1)) && compared link.1 rest

    Bool_assoc : (a b c : Bool) → ((a && b) && c) ≡ (a && (b && c))
    Bool_assoc true b c = refl
    Bool_assoc false b c = refl

    -- The last operand of a chain, and what a chain behind it adds.
    last : Expr V → List (Operators × Expr V) → Expr V
    last e [] = e
    last e (link ∷ rest) = last link.1 rest

    last-append :
        (e : Expr V) (before : List (Operators × Expr V)) (link : Operators × Expr V)
        (after : List (Operators × Expr V))
        → last e (before ++ link ∷ after) ≡ last link.1 after
    unfolding last
    last-append e [] link after = refl
    last-append e (x ∷ before) link after = last-append x.1 before link after

    get_left_most-last : (e : Expr V) → get_left_most e ≡ last (first e) (links e)
    unfolding get_left_most last
    get_left_most-last (constant v) = refl
    get_left_most-last (placeholder i) = refl
    get_left_most-last (binary op rhs lhs) =
        get_left_most-last lhs
        ∙ sym (last-append (first rhs) (links rhs) (op, first lhs) (links lhs))

    compared-append :
        (e : Expr V) (before : List (Operators × Expr V)) (link : Operators × Expr V)
        (after : List (Operators × Expr V))
        → compared e (before ++ link ∷ after) ≡ (
            compared e before
            && (truthy (apply link.0 (eval apply args (last e before)) (eval apply args link.1))
                && compared link.1 after))
    unfolding last
    compared-append e [] link after = refl
    compared-append e (x ∷ before) link after =
        ap (λ b. truthy (apply x.0 (eval apply args e) (eval apply args x.1)) && b)
          (compared-append x.1 before link after)
        ∙ sym (
            Bool_assoc (truthy (apply x.0 (eval apply args e) (eval apply args x.1)))
              (compared x.1 before) _)

    -- An operand that is no comparison is a chain of one.
    atom-links : (e : Expr V) → IsChain e → is_binary_comparison e ≡ false → links e ≡ []
    unfolding is_binary_comparison
    atom-links (constant v) h e = refl
    atom-links (placeholder i) h e = refl
    atom-links (binary op rhs lhs) h e = ground (arith, h.0)

    -- What a transformed operand contributes: nothing if it is no comparison.
    IsCompared : Expr V → Expr V → Type 0
    IsCompared e e' =
        is_binary_comparison e ≡ true → truthy (eval apply args e') ≡ compared (first e) (links e)

    compared-atom :
        (e : Expr V)
        → IsChain e
        → is_binary_comparison e ≡ false
        → compared (first e) (links e) ≡ true
    compared-atom e h single = rw (atom-links e h single) refl

    atom-left : (e : Expr V) → IsChain e → is_binary_comparison e ≡ false → get_left_most e ≡ e
    unfolding is_binary_comparison get_left_most
    atom-left (constant v) h single = refl
    atom-left (placeholder i) h single = refl
    atom-left (binary op rhs lhs) h single = ground (arith, h.0, single)

    atom-right : (e : Expr V) → IsChain e → is_binary_comparison e ≡ false → get_right_most e ≡ e
    unfolding is_binary_comparison get_right_most
    atom-right (constant v) h single = refl
    atom-right (placeholder i) h single = refl
    atom-right (binary op rhs lhs) h single = ground (arith, h.0, single)

    transform-comparison :
        (op : Operators) (rhs lhs : Expr V)
        → is_comparison op ≡ true
        → transform (binary op rhs lhs)
          ≡ split_chain op
              (is_binary_comparison rhs)
              (is_binary_comparison lhs)
              rhs
              lhs
              (transform rhs)
              (transform lhs)
    unfolding transform
    transform-comparison op rhs lhs h = ground (arith, h)

    -- The whole chain is the left one, the comparison in the middle, and the right one.
    neighbours :
        (op : Operators) (rhs lhs : Expr V)
        → (compared (first rhs) (links rhs)
            && (truthy (
                  apply op
                    (eval apply args (get_left_most rhs))
                    (eval apply args (get_right_most lhs)))
                && compared (first lhs) (links lhs)))
          ≡ compared (first rhs) (links (binary op rhs lhs))
    neighbours op rhs lhs =
        rw (get_left_most-last rhs, get_right_most-first lhs)
          (sym (compared-append (first rhs) (links rhs) (op, first lhs) (links lhs)))

    module _
        (and_law : (a b : V)
          → truthy (apply op_ampersand_ampersand a b) ≡ (truthy a && truthy b)) where
      -- Each branch of `transform` is the left chain, the middle comparison and the right chain.
      split_chain-compared :
          (op : Operators) (rhs lhs rhs' lhs' : Expr V)
          → IsChain rhs
          → IsChain lhs
          → IsCompared rhs rhs'
          → IsCompared lhs lhs'
          → truthy (
              eval apply args (
                split_chain op
                  (is_binary_comparison rhs)
                  (is_binary_comparison lhs)
                  rhs
                  lhs
                  rhs'
                  lhs'))
            ≡ (compared (first rhs) (links rhs)
                && (truthy (
                      apply op
                        (eval apply args (get_left_most rhs))
                        (eval apply args (get_right_most lhs)))
                    && compared (first lhs) (links lhs)))
      unfolding eval IsCompared
      split_chain-compared op rhs lhs rhs' lhs' hr hl left right =
          let middle =
            apply op (eval apply args (get_left_most rhs)) (eval apply args (get_right_most lhs)) in
          elim (Bool-cases (is_binary_comparison rhs)) [
            | inl r ↦ elim (Bool-cases (is_binary_comparison lhs)) [
              | inl l ↦ ground (
                arith,
                r,
                l,
                left r,
                right l,
                and_law (eval apply args rhs') middle,
                and_law (apply op_ampersand_ampersand (eval apply args rhs') middle)
                    (eval apply args lhs'),
              )
              | inr l ↦ ground (
                arith,
                r,
                l,
                left r,
                compared-atom lhs hl l,
                ap (eval apply args) (atom-right lhs hl l),
                and_law (eval apply args rhs') middle,
              )
            ]
            | inr r ↦ elim (Bool-cases (is_binary_comparison lhs)) [
              | inl l ↦ ground (
                arith,
                r,
                l,
                right l,
                compared-atom rhs hr r,
                ap (eval apply args) (atom-left rhs hr r),
                and_law middle (eval apply args lhs'),
              )
              | inr l ↦ ground (
                arith,
                r,
                l,
                compared-atom rhs hr r,
                compared-atom lhs hl l,
                ap (eval apply args) (atom-left rhs hr r),
                ap (eval apply args) (atom-right lhs hl l),
              )
            ]
          ]

      transform_lem : (e : Expr V) → IsChain e → IsCompared e (transform e)
      unfolding transform IsCompared is_binary_comparison
      transform_lem (constant v) h = λ b. absurd (ground (arith, b))
      transform_lem (placeholder i) h = λ b. absurd (ground (arith, b))
      transform_lem (binary op rhs lhs) h = λ b.
          ap (λ e. truthy (eval apply args e)) (transform-comparison op rhs lhs h.0)
          ∙ split_chain-compared op rhs lhs (transform rhs) (transform lhs) h.1 h.2
              (transform_lem rhs h.1) (transform_lem lhs h.2)
          ∙ neighbours op rhs lhs

      -- For an && that is the conjunction, and a comparison whose operands are
      -- comparisons down to constants and placeholders: the transformed expression is
      -- true exactly if every two neighbouring operands compare true, however the
      -- comparisons are nested.
      pub transform-IsChain :
          (op : Operators) (rhs lhs : Expr V)
          → IsChain (binary op rhs lhs)
          → truthy (eval apply args (transform (binary op rhs lhs)))
            ≡ compared (first (binary op rhs lhs)) (links (binary op rhs lhs))
      unfolding IsCompared is_binary_comparison
      transform-IsChain op rhs lhs h = transform_lem (binary op rhs lhs) h h.0
