-- ===== src/Validation/Actions.antt =====
-- The linter's checks of actions (src/qbt_rules/rules_validation.py: `action_list`, `action`, `param`).
use qbt_rules.Prelude.{
  ℕ, suc, String, Bool, true, false, ◌&&◌, ◌||◌, Option, none, some, List, [], ◌∷◌, any, map, not,
  str_in, str_eq, is_some, if◌then◌else◌,
}
use qbt_rules.Value.{
  Value, null, num, str, list, dict, Items, nil, cons, Fields, end, field, get, get_or_null,
  has_key, truthy, py_eq,
}
use qbt_rules.Utils.{codes, to_lower, is_infix}
use qbt_rules.Conditions.{Runtime}
use qbt_rules.Conditions.State.{cached}
use qbt_rules.Schema.{
  ParamType, bool_param, string_param, int_param, list_param, regex_param, template_param,
  any_param, enum_param, ParamSpec, action_types, notify_services,
}
use qbt_rules.Validation.{
  error, warning, key, index, Place, ◌/:◌, not_a_mapping, not_a_list, ignored_key, missing_field,
  not_whole, not_choice, no_actions, no_type, unknown_action, ignored_keep, invalid_service,
  no_message, no_url, Report, clean, add, add_on_key, ◌<+>◌,
}
use qbt_rules.Validation.Values.{effective, bool_value, check_regex}
use qbt_rules.Validation.Conditions.{ref_siblings, ignored_keys}

abbrev spec_of : Value → Option (List ParamSpec)
spec_of (str s) = cached s action_types
spec_of v = none

-- `"keep" in str(name).lower()`
abbrev names_keep : String → Bool
names_keep name = is_infix (codes "keep") (map to_lower (codes name))

abbrev pub param_names : List ParamSpec → List String
param_names = map (λ p. p.name)

abbrev is_action_key : String → Bool
is_action_key k = str_eq k "type" || str_eq k "params"

-- the parameters that the action does not have
unfoldable pub check_param_names : String → List String → Fields → Place → Report
unfolding ◌<+>◌ is_infix to_lower
check_param_names action_type names end path = clean
check_param_names action_type names (field k v fs) path =
    (if str_in k names
      then clean
      else if str_eq action_type "delete_torrent" && names_keep k
      then add_on_key error ignored_keep (path /: key "params" /: key k)
      else add_on_key warning (ignored_key k) (path /: key "params" /: key k))
    <+> check_param_names action_type names fs path

module _ (rt : Runtime) (notifications : Option Fields) (vars : Fields) where
  abbrev check_type : ParamType → Value → Place → Report
  check_type bool_param v path = bool_value rt vars v path
  check_type list_param (list vs) path = clean
  check_type list_param v path = add warning not_a_list path
  check_type int_param (num n) path = if n.is_int then clean else add warning not_whole path
  check_type int_param v path = add warning not_whole path
  check_type (enum_param choices) v path =
      if any (py_eq v) choices then clean else add error not_choice path
  check_type regex_param v path = check_regex rt vars v path
  check_type string_param v path = clean
  check_type template_param v path = clean
  check_type any_param v path = clean

  unfoldable pub param : ParamType → Value → Place → Report
  unfolding effective bool_value py_eq
  param t raw path =
      let (v, known) = effective rt vars raw in if known then check_type t v path else clean

  abbrev check_param : ParamSpec → Option Value → Place → Report
  check_param spec none path =
      if spec.required then add error (missing_field spec.name) path else clean
  check_param spec (some v) path = param spec.param_type v (path /: key "params" /: key spec.name)

  unfoldable pub check_params : List ParamSpec → Fields → Place → Report
  unfolding ◌<+>◌ param get
  check_params [] params path = clean
  check_params (spec ∷ specs) params path =
      check_param spec (get spec.name params) path <+> check_params specs params path

  -- `(self.notifications or {})`
  abbrev defaults : Fields
  defaults = elim notifications [ none ↦ end | some fs ↦ fs ]

  abbrev default_service : Value
  default_service = elim (get "service" defaults) [ none ↦ str "generic" | some v ↦ v ]

  abbrev service_given : Fields → Value
  service_given params = elim (get "service" params) [ none ↦ default_service | some v ↦ v ]

  abbrev is_null : Value → Bool
  is_null null = true
  is_null _ = false

  unfoldable pub check_notify : Fields → Place → Report
  unfolding ◌<+>◌ effective py_eq truthy get
  check_notify params path =
      let (service, known) = effective rt vars (service_given params) in
      (if known && not (has_key "service" params) && not (any (py_eq service) notify_services)
        then add error invalid_service path
        else clean)
      <+> (if known
            && is_null (get_or_null "message" params)
            && not (py_eq service (str "generic") && has_key "body" params)
          then add error no_message path
          else clean)
      <+> (if is_some notifications
            && not (truthy (get_or_null "url" params))
            && not (truthy (get_or_null "webhook_url" defaults))
          then add error no_url path
          else clean)

  abbrev check_spec : String → Option (List ParamSpec) → Option Value → Place → Report
  check_spec action_type none params path = add error unknown_action (path /: key "type")
  check_spec action_type (some specs) (some (dict params)) path =
      check_param_names action_type (param_names specs) params path
      <+> check_params specs params path
      <+> (if str_eq action_type "notify" then check_notify params path else clean)
  check_spec action_type (some specs) none path =
      check_params specs end path
      <+> (if str_eq action_type "notify" then check_notify end path else clean)
  check_spec action_type (some specs) (some v) path = add error not_a_mapping (path /: key "params")

  abbrev text_or_empty : Value → String
  text_or_empty (str s) = s
  text_or_empty _ = ""

  unfoldable pub action : Value → Place → Report
  unfolding ◌<+>◌ ref_siblings ignored_keys check_param_names check_params check_notify cached get
  action (dict fs) path =
      if has_key "$ref" fs then ref_siblings fs path else (elim (get "type" fs) [
        | none ↦ add error no_type path
        | some t ↦
            ignored_keys is_action_key fs path
            <+> check_spec (text_or_empty t) (spec_of t) (get "params" fs) path
      ])
  action v path = add error not_a_mapping path

  unfoldable pub actions_from : ℕ → Items → Place → Report
  unfolding action ◌<+>◌
  actions_from i nil path = clean
  actions_from i (cons v vs) path = action v (path /: index i) <+> actions_from (suc i) vs path

  abbrev check_actions : Bool → Value → Place → Report
  check_actions in_rule (list nil) path = if in_rule then add warning no_actions path else clean
  check_actions in_rule (list (cons v vs)) path = actions_from 0 (cons v vs) path
  check_actions in_rule v path = add error not_a_list path

  unfoldable pub action_list : Bool → Value → Place → Report
  unfolding action actions_from ref_siblings get
  action_list in_rule (dict fs) path =
      if has_key "$ref" fs
      then ref_siblings fs path
      else if has_key "type" fs && not in_rule
      then action (dict fs) path
      else add error not_a_list path
  action_list in_rule v path = check_actions in_rule v path
