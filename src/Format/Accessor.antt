-- ===== src/Format/Accessor.antt =====
-- include/erl/_impl/format/named.hpp: `Accessor`, `MemberAccessor` and their kin, and
-- `get_accessor`.
use cpp26_experiments.Base.{
  ℕ, ◌++◌, ◌==◌, true, false, List, [], ◌∷◌, Option, some, Bytes, if◌then◌else◌, ◌>>=◌,
}
use cpp26_experiments.Util.Strings.{is_integer, stou}
use cpp26_experiments.Meta.Info.{Compiler}
use cpp26_experiments.Meta.Members.{get_nth_member, get_member_index}

-- One step from an object to a part of it.
pub data Field (Info : Type 0) : Type 0 where
  member : Info → Field Info
  subscript : ℕ → Field Info
  element : ℕ → Field Info

-- The argument's number, and the steps from there.
pub record Accessor (Info : Type 0) : Type 0 where
  pub index : ℕ
  pub fields : List (Field Info)

-- `std::views::split` by dots: the pieces, of which an empty text has none.
unfoldable pub pieces : Bytes → Bytes → List Bytes
pieces piece [] = piece ∷ []
pieces piece (c ∷ text) = elim (c == 46) [
  | true ↦ piece ∷ pieces [] text
  | false ↦ pieces (piece ++ (c ∷ [])) text
]

unfoldable pub split : Bytes → List Bytes
split [] = []
split (c ∷ text) = pieces [] (c ∷ text)

module _ {Info : Type 0} (std : Compiler Info) where
  -- One round of the loop: the field, and its type.
  unfoldable pub field_of : Bytes → Info → Option (Field Info × Info)
  field_of subfield type =
      if is_integer subfield
      then (if std.is_subscriptable type
          then some (subscript (stou subfield), std.subscript_result type)
          else (if std.is_tuple_like type
              then (do
                type' ← std.tuple_element (stou subfield) type
                some (element (stou subfield), type'))
              else (do
                r ← get_nth_member std type (stou subfield)
                some (member r, std.type_of r))))
      else (do
        r ← get_nth_member std type (get_member_index std type subfield)
        some (member r, std.type_of r))

  unfoldable pub fields_of : List Bytes → Info → Option (List (Field Info))
  fields_of [] type = some []
  fields_of (subfield ∷ subfields) type = do
    (field, type') ← field_of subfield (std.remove_cvref type)
    fields ← fields_of subfields type'
    some (field ∷ fields)

  unfoldable pub get_accessor : Bytes → ℕ → Info → Option (Accessor Info)
  get_accessor expression index type = do
    fields ← fields_of (split expression) type
    some (record { index = index; fields = fields })
