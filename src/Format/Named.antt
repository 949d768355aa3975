-- ===== src/Format/Named.antt =====
-- Fields with a name in include/erl/_impl/format/named.hpp, and whether there was one.
use cpp26_experiments.Base.{
  ℕ, ◌≡◌, List, Bytes, arith, none, some, Option-cases, inl, inr, get_elem?,
}
use cpp26_experiments.Meta.Info.{Compiler}
use cpp26_experiments.Format.Outcome.{ok}
use cpp26_experiments.Format.Fragments.{FormatParser, Location, push_text_of, push_accessor}
use cpp26_experiments.Util.Strings.{stou}
use cpp26_experiments.Format.Accessor.{get_accessor}
use cpp26_experiments.Format.Fields.{find_dot, by_index, by_accessor, implicit_field, named}

module _ {Info : Type 0} (std : Compiler Info) (location : Location) (arg_types : List Info) where
  by_index_lem :
      (index : ℕ) (s s' : FormatParser Info)
      → by_index std location arg_types index s ≡ ok s'
      → s'.has_positional ≡ s.has_positional
  unfolding by_index push_text_of
  by_index_lem index s s' e = elim (Option-cases (get_elem? s.direct index)) [
    | inl n ↦ absurd (ground (arith, n, e))
    | inr (none, n) ↦ ground (arith, n, e)
    | inr (some k, n) ↦ ground (arith, n, e)
  ]

  by_accessor_lem :
      (index : ℕ) (expression : Bytes) (s s' : FormatParser Info)
      → by_accessor std location arg_types index expression s ≡ ok s'
      → s'.has_positional ≡ s.has_positional
  unfolding by_accessor push_accessor
  by_accessor_lem index expression s s' e = elim (Option-cases (get_elem? arg_types index)) [
    | inl n ↦ absurd (ground (arith, n, e))
    | inr (arg_type, n) ↦ elim (Option-cases (get_accessor std expression index arg_type)) [
      | inl m ↦ absurd (ground (arith, n, m, e))
      | inr (accessor, m) ↦ ground (arith, n, m, e)
    ]
  ]

  implicit_field_lem :
      (name : Bytes) (s s' : FormatParser Info)
      → implicit_field std location arg_types name s ≡ ok s'
      → s'.has_positional ≡ s.has_positional
  unfolding implicit_field
  implicit_field_lem name s s' e = ground (arith, e, by_accessor_lem 0 name s s')

  pub named_lem :
      (name : Bytes) (s s' : FormatParser Info)
      → named std location arg_types name s ≡ ok s'
      → s'.has_positional ≡ s.has_positional
  unfolding named
  named_lem name s s' e = elim (Option-cases (find_dot name)) [
    | inl n ↦ ground (arith, e, n, implicit_field_lem name s s', by_index_lem (stou name) s s')
    | inr ((before, behind), n) ↦ ground (
      arith,
      e,
      n,
      implicit_field_lem name s s',
      by_index_lem (stou name) s s',
      by_accessor_lem (stou before) behind s s',
    )
  ]
