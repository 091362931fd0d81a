-- ===== src/Validation/Conditions.antt =====
-- The linter's checks of conditions (src/qbt_rules/rules_validation.py: `top_conditions`,
-- `condition_block`, `group`, `condition`, `field`, `ref_siblings`).
use qbt_rules.Prelude.{
  ℕ, suc, String, Bool, ◌&&◌, ◌||◌, Option, none, some, not, str_in, str_eq, if◌then◌else◌,
}
use qbt_rules.Value.{
  Value, null, str, list, dict, Items, nil, cons, Fields, end, field, get, has_key,
}
use qbt_rules.Utils.{split_dot}
use qbt_rules.Conditions.{type_error, err, Runtime}
use qbt_rules.Conditions.State.{cached}
use qbt_rules.Conditions.Evaluate.{has_group, operator_text}
use qbt_rules.Schema.{field_namespaces, tracker_field_names, Kind, operators, condition_groups}
use qbt_rules.Validation.{
  error, warning, info, key, index, Place, ◌/:◌, missing_keys, ignored_key, beside_ref,
  matches_nothing, matches_everything, no_group, several_groups, invalid_conditions,
  invalid_condition, empty_group, invalid_field, unknown_namespace, unknown_tracker_field,
  unknown_operator, Report, clean, add, add_on_key, ◌<+>◌,
}
use qbt_rules.Validation.Values.{value}

-- One issue for all the keys beside `$ref`; it names the first.
unfoldable pub ref_siblings : Fields → Place → Report
ref_siblings end path = clean
ref_siblings (field k v fs) path =
    let rest = ref_siblings fs path in
    if str_eq k "$ref" then rest else add error (beside_ref k) path

-- `field`
abbrev pub check_field_parts : Option (String × String) → Place → Report
check_field_parts none path = add error invalid_field path
check_field_parts (some (namespace, name)) path =
    if not (str_in namespace field_namespaces)
    then add error unknown_namespace path
    else if str_eq namespace "tracker" && not (str_in name tracker_field_names)
    then add error unknown_tracker_field path
    else clean

unfoldable pub check_field : Value → Place → Report
unfolding split_dot
check_field (str path_text) path = check_field_parts (split_dot path_text) path
check_field v path = add error invalid_field path

-- `schema.OPERATORS.get(operator)`
unfoldable pub kind_of : Value → Option Kind
unfolding cached
kind_of op = cached (operator_text op) operators

-- the keys that are there and that `keep` does not name
unfoldable pub ignored_keys : (String → Bool) → Fields → Place → Report
unfolding ◌<+>◌
ignored_keys known end path = clean
ignored_keys known (field k v fs) path =
    (if known k then clean else add_on_key warning (ignored_key k) (path /: key k))
    <+> ignored_keys known fs path

abbrev pub is_leaf_key : String → Bool
is_leaf_key k = str_eq k "field" || str_eq k "operator" || str_eq k "value"

abbrev pub first_missing : Fields → String
first_missing fs =
    if not (has_key "field" fs)
    then "field"
    else if not (has_key "operator" fs)
    then "operator"
    else "value"

abbrev pub several : Fields → Bool
several fs =
    (has_key "all" fs && (has_key "any" fs || has_key "none" fs))
    || (has_key "any" fs && has_key "none" fs)

module _ (rt : Runtime) (vars : Fields) where
  abbrev pub check_value : Option Kind → Option Value → Place → Report
  check_value none v path = add error unknown_operator (path /: key "operator")
  check_value (some kind) none path = clean
  check_value (some kind) (some v) path = value rt vars kind v (path /: key "value")

  -- `operator not in schema.OPERATORS` raises where the operator is a list or a mapping, which
  -- Python does not hash.
  unfoldable pub check_operator : Option Value → Option Value → Place → Report
  unfolding kind_of value
  check_operator none v path = clean
  check_operator (some (list vs)) v path = err type_error
  check_operator (some (dict fs)) v path = err type_error
  check_operator (some op) v path = check_value (kind_of op) v path

  -- a condition with neither a reference nor a group
  unfoldable pub check_leaf : Fields → Place → Report
  unfolding ◌<+>◌ ignored_keys check_field check_operator get
  check_leaf fs path =
      (if has_key "field" fs && has_key "operator" fs && has_key "value" fs
        then clean
        else add error (missing_keys (first_missing fs)) path)
      <+> ignored_keys is_leaf_key fs path
      <+> (elim (get "field" fs) [ none ↦ clean | some v ↦ check_field v (path /: key "field") ])
      <+> check_operator (get "operator" fs) (get "value" fs) path

  -- The functions over `Fields` look a group up and check what they find.
  unfoldable mutual
    pub condition : Value → Place → Report
    condition (dict fs) path =
        if has_key "$ref" fs
        then ref_siblings fs path
        else if has_group fs
        then (if several fs then add error several_groups path else clean)
          <+> group_at "all" fs path
          <+> group_at "any" fs path
          <+> group_at "none" fs path
        else check_leaf fs path
    condition v path = add error invalid_condition path

    pub group_at : String → Fields → Place → Report
    group_at name end path = clean
    group_at name (field k v fs) path =
        if str_eq k name then group v (path /: key name) else group_at name fs path

    pub group : Value → Place → Report
    group (list nil) path = add warning empty_group path
    group (list (cons v vs)) path = condition v (path /: index 0) <+> conditions_from 1 vs path
    group v path = add error invalid_conditions path

    pub conditions_from : ℕ → Items → Place → Report
    conditions_from i nil path = clean
    conditions_from i (cons v vs) path =
        condition v (path /: index i) <+> conditions_from (suc i) vs path

  abbrev groups_of : Fields → Place → Report
  groups_of fs path = group_at "all" fs path <+> group_at "any" fs path <+> group_at "none" fs path

  unfoldable pub top_conditions : Value → Place → Report
  unfolding condition ref_siblings ignored_keys ◌<+>◌ get
  top_conditions null path = add error matches_nothing path
  top_conditions (list nil) path = add warning matches_everything path
  top_conditions (list (cons v vs)) path = conditions_from 0 (cons v vs) path
  top_conditions (dict fs) path =
      if has_key "$ref" fs
      then ref_siblings fs path
      else ignored_keys (λ k. str_in k condition_groups) fs path
        <+> (if has_group fs then clean else add error no_group path)
        <+> groups_of fs path
  top_conditions v path = add error invalid_conditions path

  unfoldable pub condition_block : Value → Place → Report
  unfolding condition ref_siblings ◌<+>◌ get
  condition_block (list vs) path = conditions_from 0 vs path
  condition_block (dict fs) path =
      if has_key "$ref" fs
      then ref_siblings fs path
      else if has_group fs
      then groups_of fs path <+> (if several fs then add info several_groups path else clean)
      else condition (dict fs) path
  condition_block v path = add error invalid_condition path
