-- ===== src/Args/Handled.antt =====
-- An option's arguments on their way to its function: include/erl/_impl/config/args.hpp and
-- include/erl/_impl/config/default_construct.hpp.
use cpp26_experiments.Base.{
  ℕ, zero, suc, ◌+◌, ◌-◌, ◌≤◌, ◌<◌, ◌≡◌, refl, sym, ap, ◌∙◌, List, [], ◌∷◌, ◌++◌, map, Option, none,
  some, Bytes, length, set, replicate, arith, All, append_assoc, length-append, length-replicate,
  length-map,
}
use cpp26_experiments.Meta.Packs.{enumerate_from, enumerate}
use cpp26_experiments.Args.Construct.{built, leading, case_count}
use cpp26_experiments.Args.Constructed.{values, default_invoke_lem}
use cpp26_experiments.Args.Values.{
  Value, Target, checked, parse_value, validate, do_handle, handle_all, method, call_handler,
  handle_option,
}

abbrev pub parsed : Target × Bytes → Value
parsed given = parse_value given.0.type given.1

-- The value of an argument satisfies its constraint, if it has one.
abbrev pub Accepted : Target × Bytes → Type 0
Accepted given = validate given.0 (parsed given) ≡ checked tt

set-append :
    {A : Type 0} (front : List A) (x v : A) (rest : List A)
    → set (front ++ (x ∷ rest)) (length front) v ≡ front ++ (v ∷ rest)
set-append [] x v rest = refl
set-append (y ∷ front) x v rest = ap (λ l. y ∷ l) (set-append front x v rest)

-- Each value goes to the next place of the tuple.
handle_all-enumerate_from :
    (given : List (Target × Bytes)) (front : List (Option Value)) (rest : ℕ)
    → All Accepted given
    → handle_all
        (enumerate_from (length front) given)
        (front ++ replicate (length given + rest) none)
      ≡ checked
          (front ++ (map (λ (g : Target × Bytes). some (parsed g)) given ++ replicate rest none))
unfolding handle_all do_handle enumerate_from
handle_all-enumerate_from [] front rest h =
    ap (λ (n : ℕ). checked (front ++ replicate n none)) (omega arith)
handle_all-enumerate_from (g ∷ given) front rest h =
    let v = some (parsed g) in
    let shape : length (g ∷ given) + rest ≡ suc (length given + rest) = omega arith in
    let put =
      ap (λ (n : ℕ). set (front ++ replicate n none) (length front) v) shape
      ∙ set-append front none v (replicate (length given + rest) none)
      ∙ sym (append_assoc front (v ∷ []) (replicate (length given + rest) none)) in
    let next : suc (length front) ≡ length (front ++ (v ∷ [])) =
      omega (arith, length-append front (v ∷ [])) in
    let later = handle_all-enumerate_from given (front ++ (v ∷ [])) rest h.1 in
    rw (h.0, handle_all)
      (ap (λ (a : List (Option Value)). handle_all (enumerate_from (suc (length front)) given) a)
          put
        ∙ ap
            (λ (n : ℕ).
              handle_all (enumerate_from n given)
                ((front ++ (v ∷ [])) ++ replicate (length given + rest) none))
            next
        ∙ later
        ∙ ap checked (
            append_assoc front (v ∷ [])
              (map (λ (x : Target × Bytes). some (parsed x)) given ++ replicate rest none)))

leading-map :
    (given : List (Target × Bytes)) (rest : ℕ)
    → (leading (map (λ (g : Target × Bytes). some (parsed g)) given ++ replicate rest none)
        ≡ length given)
      × (values (map (λ (g : Target × Bytes). some (parsed g)) given ++ replicate rest none)
          ≡ map parsed given)
unfolding leading
leading-map [] zero = (refl, refl)
leading-map [] (suc rest) = (refl, refl)
leading-map (g ∷ given) rest =
    let ih = leading-map given rest in (ap suc ih.0, ap (λ (l : List Value). parsed g ∷ l) ih.1)

-- For an option whose handler is a member function, at least its required arguments given, each
-- with a value that satisfies its constraint, and fewer optional ones than the chosen switch
-- has cases: the function is called with exactly the values of the arguments, in order.
pub handle_option-enumerate :
    {S : Type 0} (fnc : List Value → S → S) (required : ℕ) (given : List (Target × Bytes))
    (rest : ℕ) (obj : S)
    → All Accepted given
    → required ≤ length given
    → length given - required < case_count ((length given + rest) - required)
    → handle_option (method required fnc) (length given + rest) (enumerate given) obj
      ≡ checked (built (fnc (map parsed given) obj))
unfolding handle_option call_handler enumerate
handle_option-enumerate fnc required given rest obj h enough fits =
    let tuple = map (λ (g : Target × Bytes). some (parsed g)) given ++ replicate rest none in
    let handled = handle_all-enumerate_from given [] rest h in
    let lead = leading-map given rest in
    let size : length tuple ≡ length given + rest = omega (
      arith,
      length-append (map (λ (g : Target × Bytes). some (parsed g)) given) (replicate rest none),
      length-map (λ (g : Target × Bytes). some (parsed g)) given,
      length-replicate {A = Option Value} rest none,
    ) in
    let called =
      default_invoke_lem (λ (vs : List Value). fnc vs obj) required tuple
        (omega (arith, size, enough)) in
    rw (handled, handle_option)
      (ap checked (called ∙ ground (arith, lead.0, lead.1, size, enough, fits)))
