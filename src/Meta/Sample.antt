-- ===== src/Meta/Sample.antt =====
-- A compiler for the runs of the models that ask one (include/erl/_impl/util/meta.hpp): it knows a
-- settings type 0 with three data members, the last an option, and a service 20 with one callback.
use cpp26_experiments.Base.{ℕ, Bool, true, false, ◌==◌, ◌||◌, [], ◌∷◌, none, codes, if◌then◌else◌}
use cpp26_experiments.Meta.Info.{Compiler}

abbrev pub option_annotation : ℕ
option_annotation = 8

abbrev pub callback_tag : ℕ
callback_tag = 7

abbrev pub is_data : ℕ → Bool
is_data r = r == 1 || r == 2 || r == 3

abbrev pub sample : Compiler ℕ
sample = record {
  members_of = λ r. if r == 0 then 1 ∷ (2 ∷ (3 ∷ [])) else (if r == 20 then 21 ∷ [] else []);
  nonstatic_data_members_of = λ r. if r == 0 then 1 ∷ (2 ∷ (3 ∷ [])) else [];
  parameters_of = λ r. [];
  bases_of = λ r. [];
  annotations_of = λ r. if r == 3 then 9 ∷ [] else (if r == 21 then 10 ∷ [] else []);
  type_of = λ r. if r == 9 then 8 else (if r == 10 then 7 else 5);
  template_of = λ r. r;
  parent_of = λ r. 0;
  dealias = λ r. r;
  remove_cvref = λ r. r;
  identifier_of =
      λ r. if r == 1 then codes "path" else (if r == 2 then codes "depth" else codes "verbose");
  display_string_of = λ r. [];
  same = λ r s. r == s;
  is_public = λ r. true;
  is_type = λ r. r == 0 || r == 7 || r == 8;
  is_template = λ r. false;
  is_function = λ r. r == 21;
  is_function_template = λ r. false;
  is_function_parameter = λ r. false;
  is_object_type = λ r. r == 5;
  is_nonstatic_data_member = is_data;
  is_static_member = λ r. false;
  is_special_member_function = λ r. false;
  is_conversion_function = λ r. false;
  is_operator_function = λ r. false;
  has_identifier = λ r. true;
  has_template_arguments = λ r. false;
  has_default_argument = λ r. false;
  has_default_member_initializer = λ r. r == 2 || r == 3;
  substitute = λ f r. none;
  substitute_nothing = λ f. none;
  return_type_of = λ r. 5;
  handler_of = λ r. none;
  is_subscriptable = λ r. false;
  subscript_result = λ r. r;
  is_tuple_like = λ r. false;
  tuple_element = λ n r. none;
}
