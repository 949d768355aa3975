-- ===== src/Meta/Members.antt =====
-- include/erl/_impl/util/meta.hpp: members and annotations.
use cpp26_experiments.Base.{
  ℕ, suc, ◌-◌, ◌^◌, ◌==◌, ltb, Bool, true, false, not, ◌&&◌, ◌||◌, List, [], ◌∷◌, map, Option,
  Bytes, length, get_elem?, bytes_eq, if◌then◌else◌,
}
use cpp26_experiments.Meta.Info.{Compiler}

abbrev pub filter {ℓ} : {A : Type ℓ} → (A → Bool) → List A → List A
filter p [] = []
filter p (x ∷ xs) = let kept = filter p xs in if p x then x ∷ kept else kept

abbrev pub any_of {ℓ} : {A : Type ℓ} → (A → Bool) → List A → Bool
any_of p [] = false
any_of p (x ∷ xs) = p x || any_of p xs

abbrev pub is_empty {ℓ} : {A : Type ℓ} → List A → Bool
is_empty [] = true
is_empty (x ∷ xs) = false

-- `std::distance(names.begin(), std::ranges::find(names, name))`, which is the length where the name
-- is not found.
unfoldable pub find_name : List Bytes → Bytes → ℕ
find_name [] name = 0
find_name (x ∷ names) name =
    let later = find_name names name in if bytes_eq x name then 0 else suc later

module _ {Info : Type 0} (std : Compiler Info) where
  unfoldable pub is_derived_from : Info → Info → Bool
  is_derived_from derived base =
      any_of (λ tmp. std.same (std.type_of tmp) (std.dealias base)) (std.bases_of derived)

  unfoldable pub member_functions_of : Info → List Info
  member_functions_of reflection =
      filter (λ r. not (std.is_operator_function r))
        (filter (λ r. not (std.is_conversion_function r))
          (filter (λ r. not (std.is_special_member_function r))
            (filter std.is_function (filter std.is_public (std.members_of reflection)))))

  unfoldable pub nonstatic_member_functions_of : Info → List Info
  nonstatic_member_functions_of reflection =
      filter (λ r. not (std.is_static_member r)) (member_functions_of reflection)

  unfoldable pub static_member_functions_of : Info → List Info
  static_member_functions_of reflection =
      filter std.is_static_member (member_functions_of reflection)

  unfoldable pub named_members_of : Info → List Info
  named_members_of reflection = filter std.has_identifier (std.members_of reflection)

  -- The test in the loop of `get_annotations`.
  abbrev pub annotated_as : Info → Info → Bool
  annotated_as type annotation =
      (std.is_type type && std.same type (std.type_of annotation))
      || (std.is_template type
          && std.has_template_arguments (std.type_of annotation)
          && std.same (std.template_of (std.type_of annotation)) type)

  unfoldable pub get_annotations : Info → Info → List Info
  get_annotations item type = filter (annotated_as type) (std.annotations_of item)

  -- The first of them, whose access is not checked.
  unfoldable pub get_annotation : Info → Info → Option Info
  get_annotation item type = get_elem? (get_annotations item type) 0

  -- `has_annotation` of a type or a template. `std::meta::annotations_of` with a type keeps the
  -- annotations of that type.
  unfoldable pub has_annotation : Info → Info → Bool
  has_annotation item type =
      if std.is_type type
      then not (
          is_empty (
            filter (λ annotation. std.same type (std.type_of annotation))
              (std.annotations_of item)))
      else (if std.is_template type
          then any_of
              (λ annotation.
                std.has_template_arguments (std.type_of annotation)
                && std.same (std.template_of (std.type_of annotation)) type)
              (std.annotations_of item)
          else false)

  unfoldable pub get_nth_member : Info → ℕ → Option Info
  get_nth_member reflection n = get_elem? (std.nonstatic_data_members_of reflection) n

  unfoldable pub get_member_names : Info → List Bytes
  get_member_names type = map std.identifier_of (std.nonstatic_data_members_of type)

  -- -1UZ where there is no such member.
  unfoldable pub get_member_index : Info → Bytes → ℕ
  get_member_index type name =
      let names = map std.identifier_of (std.nonstatic_data_members_of type) in
      if ltb (find_name names name) (length names) then find_name names name else 2 ^ 64 - 1

  unfoldable pub has_member : Info → Bytes → Bool
  has_member type name = not (get_member_index type name == (2 ^ 64 - 1))
