-- ===== src/Meta/Info.antt =====
-- What the repository asks of the compiler: the functions of `std::meta`, and the type traits of
-- include/erl/_impl/util/concepts.hpp that it decides.
use cpp26_experiments.Base.{ℕ, Bool, List, Bytes, Option}

pub record Compiler (Info : Type 0) : Type 0 where
  pub members_of : Info → List Info
  pub nonstatic_data_members_of : Info → List Info
  pub parameters_of : Info → List Info
  pub bases_of : Info → List Info
  pub annotations_of : Info → List Info
  pub type_of : Info → Info
  pub template_of : Info → Info
  pub parent_of : Info → Info
  pub dealias : Info → Info
  pub remove_cvref : Info → Info
  pub identifier_of : Info → Bytes
  pub display_string_of : Info → Bytes
  pub same : Info → Info → Bool
  pub is_public : Info → Bool
  pub is_type : Info → Bool
  pub is_template : Info → Bool
  pub is_function : Info → Bool
  pub is_function_template : Info → Bool
  pub is_function_parameter : Info → Bool
  pub is_object_type : Info → Bool
  pub is_nonstatic_data_member : Info → Bool
  pub is_static_member : Info → Bool
  pub is_special_member_function : Info → Bool
  pub is_conversion_function : Info → Bool
  pub is_operator_function : Info → Bool
  pub has_identifier : Info → Bool
  pub has_template_arguments : Info → Bool
  pub has_default_argument : Info → Bool
  pub has_default_member_initializer : Info → Bool
  -- The instance of a function template for a type, where there is one.
  pub substitute : Info → Info → Option Info
  -- Its instance without arguments, where there is one.
  pub substitute_nothing : Info → Option Info
  pub return_type_of : Info → Info
  -- The function of a `Handler` annotation, as `annotation_of_type` finds it.
  pub handler_of : Info → Option Info
  pub is_subscriptable : Info → Bool
  pub subscript_result : Info → Info
  pub is_tuple_like : Info → Bool
  pub tuple_element : ℕ → Info → Option Info
