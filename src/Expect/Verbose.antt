-- ===== src/Expect/Verbose.antt =====
-- include/erl/_impl/expect.hpp: `eval_verbose`, which also records the terms that failed.
use cpp26_experiments.Base.{
  ℕ, ◌≡◌, refl, sym, ap, ◌∙◌, Bool, true, false, ◌&&◌, List, [], ◌∷◌, ◌++◌, Option, some, ◌>>=◌,
  Bytes, append_assoc, append-nil, Bool-cases, inl, inr, arith,
}
use cpp26_experiments.Util.Operators.{Operators}
use cpp26_experiments.Expect.Expr.{
  Expr, constant, placeholder, binary, eval, is_constant, print, print_args, parenthesized,
}

module _ {V : Type 0} (apply : Operators → V → V → V) (truthy : V → Bool) (format : V → Bytes)
    (args : ℕ → V) where
  -- A result that is false adds the term's text.
  abbrev pub recorded : V → Expr V → List Bytes → Option (V × List Bytes)
  recorded result e failed_terms = elim (truthy result) [
    | true ↦ some (result, failed_terms)
    | false ↦ do text ← print_args format args e; some (result, failed_terms ++ text ∷ [])
  ]

  -- The operands are evaluated from left to right, as compilers of the Clang family do.
  unfoldable pub eval_verbose : Expr V → List Bytes → Option (V × List Bytes)
  eval_verbose (constant v) failed_terms = some (v, failed_terms)
  eval_verbose (placeholder i) failed_terms = some (args i, failed_terms)
  eval_verbose (binary op rhs lhs) failed_terms = do
    (left, failed) ← eval_verbose rhs failed_terms
    (right, failed') ← eval_verbose lhs failed
    recorded (apply op left right) (binary op rhs lhs) failed'

  -- No operator stands between two constants.
  abbrev pub IsPrintable : Expr V → Type 0
  IsPrintable (constant v) = Unit
  IsPrintable (placeholder i) = Unit
  IsPrintable (binary op rhs lhs) =
      IsPrintable rhs × IsPrintable lhs × ((is_constant rhs && is_constant lhs) ≡ false)

  abbrev pub text : Expr V → Bytes
  text (constant v) = format v
  text (placeholder i) = format (args i)
  text (binary op rhs lhs) = parenthesized op (text rhs) (text lhs)

  -- The operator terms, each behind its operands.
  abbrev pub terms : Expr V → List (Expr V)
  terms (constant v) = []
  terms (placeholder i) = []
  terms (binary op rhs lhs) = terms rhs ++ terms lhs ++ binary op rhs lhs ∷ []

  abbrev pub failures : List (Expr V) → List Bytes
  failures [] = []
  failures (e ∷ es) = elim (truthy (eval apply args e)) [
    | true ↦ failures es
    | false ↦ text e ∷ failures es
  ]

  -- An expression without an operator between two constants prints with its operators between its
  -- operands.
  pub print_args-text : (e : Expr V) → IsPrintable e → print_args format args e ≡ some (text e)
  unfolding print
  print_args-text (constant v) h = refl
  print_args-text (placeholder i) h = refl
  print_args-text (binary op rhs lhs) h =
      ground (arith, print_args-text rhs h.0, print_args-text lhs h.1, h.2)

  failures-append : (es fs : List (Expr V)) → failures (es ++ fs) ≡ failures es ++ failures fs
  failures-append [] fs = refl
  failures-append (e ∷ es) fs = ground (arith, failures-append es fs)

  failures-node :
      (failed_terms : List Bytes) (op : Operators) (rhs lhs : Expr V)
      → ((failed_terms ++ failures (terms rhs)) ++ failures (terms lhs))
          ++ failures (binary op rhs lhs ∷ [])
        ≡ failed_terms ++ failures (terms (binary op rhs lhs))
  failures-node failed_terms op rhs lhs =
      let before = failures (terms rhs) in
      let between = failures (terms lhs) in
      let last = failures (binary op rhs lhs ∷ []) in
      ap (λ texts. texts ++ last) (append_assoc failed_terms before between)
      ∙ append_assoc failed_terms (before ++ between) last
      ∙ ap (λ texts. failed_terms ++ texts)
          (sym (
            failures-append (terms rhs ++ terms lhs) (binary op rhs lhs ∷ [])
            ∙ ap (λ texts. texts ++ last) (failures-append (terms rhs) (terms lhs))))

  -- What a term adds to the record.
  record_lem :
      (op : Operators) (rhs lhs : Expr V) (failed : List Bytes)
      → IsPrintable (binary op rhs lhs)
      → recorded (apply op (eval apply args rhs) (eval apply args lhs)) (binary op rhs lhs) failed
        ≡ some (eval apply args (binary op rhs lhs), failed ++ failures (binary op rhs lhs ∷ []))
  unfolding eval
  record_lem op rhs lhs failed h =
      elim (Bool-cases (truthy (apply op (eval apply args rhs) (eval apply args lhs)))) [
        | inl t ↦ ground (arith, t, append-nil failed)
        | inr f ↦ ground (arith, f, print_args-text (binary op rhs lhs) h)
      ]

  -- For an expression without an operator between two constants: the verbose evaluation
  -- returns what the plain one does, and adds the texts of exactly the operator terms that
  -- came out false, operands before the term that they belong to.
  pub eval_verbose-eval :
      (e : Expr V) (failed_terms : List Bytes)
      → IsPrintable e
      → eval_verbose e failed_terms ≡ some (eval apply args e, failed_terms ++ failures (terms e))
  unfolding eval_verbose eval
  eval_verbose-eval (constant v) failed_terms h = rw append-nil refl
  eval_verbose-eval (placeholder i) failed_terms h = rw append-nil refl
  eval_verbose-eval (binary op rhs lhs) failed_terms h =
      let node = binary op rhs lhs in
      let failed = (failed_terms ++ failures (terms rhs)) ++ failures (terms lhs) in
      rw
        (
          eval_verbose-eval rhs failed_terms h.0,
          eval_verbose-eval lhs (failed_terms ++ failures (terms rhs)) h.1,
        )
        (record_lem op rhs lhs failed h
          ∙ ap (λ texts. some (eval apply args node, texts))
              (failures-node failed_terms op rhs lhs))
