-- ===== src/Rpc/Policies.antt =====
-- include/erl/_impl/rpc/proxy.hpp: `DefaultPolicy`, `InProcess` and `Annotated`, and what they make
-- of the members of a service.
use cpp26_experiments.Base.{
  ℕ, Bool, true, false, ◌&&◌, ◌||◌, List, [], ◌∷◌, Option, none, some, Bytes, if◌then◌else◌, ◌>>=◌,
}
use cpp26_experiments.Meta.Info.{Compiler}
use cpp26_experiments.Meta.Members.{named_members_of, has_annotation}
use cpp26_experiments.Rpc.Policy.{Rule, make_members}

-- A member of a proxy: its type with the index in it, and its name.
pub data ProxyType (Info : Type 0) : Type 0 where
  -- `FunctionProxy`, of a result type.
  function_proxy : ℕ → Info → ProxyType Info
  -- `CustomProxy`, of a result type and a handler that makes the message.
  custom_proxy : ℕ → Info → Info → ProxyType Info
  -- `FunctionTemplateProxy`, of a function template.
  function_template_proxy : ℕ → Info → ProxyType Info

pub record ProxyMember (Info : Type 0) : Type 0 where
  pub type : ProxyType Info
  pub name : Bytes

-- A member of a dispatcher, of the function that it calls and its index.
pub data DispatchMember (Info : Type 0) : Type 0 where
  function_dispatcher : Info → ℕ → DispatchMember Info
  custom_dispatcher : Info → ℕ → DispatchMember Info
  function_template_dispatcher : Info → ℕ → DispatchMember Info

abbrev pub is_some {ℓ} : {A : Type ℓ} → Option A → Bool
is_some none = false
is_some (some a) = true

module _ {Info : Type 0} (std : Compiler Info) (callback_tag : Info) where
  abbrev pub data_member : ProxyType Info → Info → ProxyMember Info
  data_member type fnc = record { type = type; name = std.identifier_of fnc }

  -- `DefaultPolicy`
  unfoldable pub default_is_remote : Info → Bool
  default_is_remote member = std.is_public member && std.is_function member

  unfoldable pub default_proxy : ℕ → Info → ProxyMember Info
  default_proxy index fnc = data_member (function_proxy index (std.return_type_of fnc)) fnc

  unfoldable pub default_dispatch : ℕ → Info → DispatchMember Info
  default_dispatch index fnc = function_dispatcher fnc index

  -- `InProcess`
  unfoldable pub in_process_is_remote : Info → Bool
  in_process_is_remote member =
      if std.is_public member
      then std.is_function_template member && is_some (std.substitute_nothing member)
      else false

  unfoldable pub in_process_proxy : ℕ → Info → ProxyMember Info
  in_process_proxy index fnc = data_member (function_template_proxy index fnc) fnc

  unfoldable pub in_process_dispatch : ℕ → Info → DispatchMember Info
  in_process_dispatch index fnc = function_template_dispatcher fnc index

  -- `Annotated`
  unfoldable pub annotated_is_remote : Info → Bool
  annotated_is_remote member =
      if std.is_public member
      then (if std.is_function member
          then has_annotation std member callback_tag || is_some (std.handler_of member)
          else (if std.is_function_template member
              then elim (std.substitute_nothing member) [
                | none ↦ false
                | some base ↦ is_some (std.handler_of base)
              ]
              else false))
      else false

  unfoldable pub return_of : Info → Info
  return_of member = elim (std.handler_of member) [
    | some fnc ↦ std.return_type_of fnc
    | none ↦ std.return_type_of member
  ]

  -- None is the null reflection; a template without an instance does not compile.
  unfoldable pub annotated_proxy : ℕ → Info → Option (ProxyMember Info)
  annotated_proxy index fnc =
      if std.is_function fnc
      then (if is_some (std.handler_of fnc)
          then some (data_member (custom_proxy index (return_of fnc) fnc) fnc)
          else some (data_member (function_proxy index (return_of fnc)) fnc))
      else (do
        base ← std.substitute_nothing fnc
        elim (is_some (std.handler_of base)) [
          | true ↦ some (data_member (custom_proxy index (return_of base) fnc) fnc)
          | false ↦ none
        ])

  -- None is `std::unreachable`, or a template without an instance.
  unfoldable pub annotated_dispatch : ℕ → Info → Option (DispatchMember Info)
  annotated_dispatch index fnc =
      if std.is_function fnc
      then elim (std.handler_of fnc) [
        | some handler ↦ some (custom_dispatcher handler index)
        | none ↦ some (function_dispatcher fnc index)
      ]
      else (do
        base ← std.substitute_nothing fnc
        elim (std.handler_of base) [
          | some handler ↦ some (custom_dispatcher handler index)
          | none ↦ none
        ])

  abbrev pub annotated_proxies : List (Rule Info (ProxyMember Info))
  annotated_proxies = record { is_remote = annotated_is_remote; make_member = annotated_proxy } ∷ []

  abbrev pub annotated_dispatchers : List (Rule Info (DispatchMember Info))
  annotated_dispatchers =
      record { is_remote = annotated_is_remote; make_member = annotated_dispatch } ∷ []

  -- The members of a proxy, behind the client, and those of a dispatcher.
  unfoldable pub make_proxy : List (Rule Info (ProxyMember Info)) → Info → List (ProxyMember Info)
  make_proxy policies service = make_members policies 0 (named_members_of std service)

  unfoldable pub make_dispatcher :
      List (Rule Info (DispatchMember Info)) → Info → List (DispatchMember Info)
  make_dispatcher policies service = make_members policies 0 (named_members_of std service)
