-- ===== src/Validation/Linter.antt =====
-- `run`, `rule` and `unused_refs` of the linter, and `lint_rules` (src/qbt_rules/rules_validation.py).
use qbt_rules.Prelude.{
  ℕ, zero, suc, ◌+◌, String, Bool, true, false, Option, none, some, List, [], ◌∷◌, ◌++◌, length,
  str_in, str_append, if◌then◌else◌,
}
use qbt_rules.Value.{
  Value, null, bool, num, str, list, dict, Items, nil, cons, Fields, end, field, get, get_or_null,
}
use qbt_rules.Utils.{codes}
use qbt_rules.Conditions.{Runtime}
use qbt_rules.Resolver.{mapping}
use qbt_rules.Schema.{rule_keys, top_level_keys}
use qbt_rules.Validation.{
  error, warning, info, key, index, Place, ◌/:◌, not_a_mapping, unknown_key, unused,
  invalid_context, Report, clean, add, add_on_key, Severity, ◌<+>◌,
}
use qbt_rules.Validation.Values.{var_token, bool_value}
use qbt_rules.Validation.Conditions.{top_conditions, condition_block}
use qbt_rules.Validation.Actions.{action_list}

-- an issue for each key that is not in a list
unfoldable pub unknown_keys : Severity → List String → Fields → Place → Report
unfolding ◌<+>◌
unknown_keys severity known end path = clean
unknown_keys severity known (field k v fs) path =
    (if str_in k known then clean else add_on_key severity (unknown_key k) (path /: key k))
    <+> unknown_keys severity known fs path

-- `_VAR_TOKEN.findall(node)`
unfoldable pub vars_in_text : ℕ → String → List String
unfolding var_token
vars_in_text skip String.[] = []
vars_in_text (suc skip) (String.◌∷◌ c s) = vars_in_text skip s
vars_in_text zero (String.◌∷◌ c s) = elim (var_token (String.◌∷◌ c s)) [
  | none ↦ vars_in_text 0 s
  | some (name, rest) ↦ name ∷ vars_in_text (length (codes name) + 7) s
]

abbrev ref_name : Option Value → List String
ref_name (some (str path)) = path ∷ []
ref_name _ = []

-- `used_vars` and `used_refs` of every value in a document
unfoldable mutual
  pub used_vars : Value → List String
  used_vars (str s) = vars_in_text 0 s
  used_vars (dict fs) = vars_in_fields fs
  used_vars (list vs) = vars_in_items vs
  used_vars null = []
  used_vars (bool b) = []
  used_vars (num n) = []

  pub vars_in_fields : Fields → List String
  vars_in_fields end = []
  vars_in_fields (field k v fs) = used_vars v ++ vars_in_fields fs

  pub vars_in_items : Items → List String
  vars_in_items nil = []
  vars_in_items (cons v vs) = used_vars v ++ vars_in_items vs

unfoldable mutual
  pub used_refs : Value → List String
  used_refs (dict fs) = ref_name (get "$ref" fs) ++ refs_in_fields fs
  used_refs (list vs) = refs_in_items vs
  used_refs null = []
  used_refs (bool b) = []
  used_refs (num n) = []
  used_refs (str s) = []

  pub refs_in_fields : Fields → List String
  refs_in_fields end = []
  refs_in_fields (field k v fs) = used_refs v ++ refs_in_fields fs

  pub refs_in_items : Items → List String
  refs_in_items nil = []
  refs_in_items (cons v vs) = used_refs v ++ refs_in_items vs

unfoldable pub unused_names : String → List String → String → Fields → Report
unfolding ◌<+>◌
unused_names front used group end = clean
unused_names front used group (field k v fs) =
    (if str_in (str_append front k) used
      then clean
      else add_on_key info (unused k) (key "refs" ∷ key group ∷ key k ∷ []))
    <+> unused_names front used group fs

-- the parts of the document that may use a name
abbrev pub users : Fields → Fields → Value
users raw refs = list (
    cons (get_or_null "rules" raw)
      (cons (get_or_null "conditions" refs) (cons (get_or_null "actions" refs) nil)))

unfoldable pub unused_refs : Fields → Fields → Report
unfolding ◌<+>◌ unused_names used_vars used_refs get
unused_refs raw refs =
    let refs_used = used_refs (users raw refs) in
    let vars_used = used_vars (users raw refs) in
    unused_names "conditions." refs_used "conditions" (mapping (get "conditions" refs))
    <+> unused_names "actions." refs_used "actions" (mapping (get "actions" refs))
    <+> unused_names "" vars_used "vars" (mapping (get "vars" refs))

abbrev refs_groups : List String
refs_groups = "vars" ∷ "conditions" ∷ "actions" ∷ "meta" ∷ []

abbrev all_text : Items → Bool
all_text nil = true
all_text (cons (str s) vs) = all_text vs
all_text (cons v vs) = false

abbrev check_context : Value → Place → Report
check_context null path = clean
check_context (str s) path = clean
check_context (list vs) path = if all_text vs then clean else add warning invalid_context path
check_context v path = add warning invalid_context path

abbrev check_meta : Option Value → Place → Report
check_meta none path = clean
check_meta (some (dict fs)) path = clean
check_meta (some v) path = add error not_a_mapping path

abbrev pub if_there : Option Value → (Value → Report) → Report
if_there none check = clean
if_there (some v) check = check v

module _ (rt : Runtime) (notifications : Option Fields) (vars : Fields) where
  unfoldable pub rule : Fields → Place → Report
  unfolding ◌<+>◌ unknown_keys bool_value top_conditions action_list get
  rule fs path =
      unknown_keys info rule_keys fs path
      <+> if_there (get "enabled" fs) (λ v. bool_value rt vars v (path /: key "enabled"))
      <+> if_there (get "stop_on_match" fs)
          (λ v. bool_value rt vars v (path /: key "stop_on_match"))
      <+> check_meta (get "meta" fs) (path /: key "meta")
      <+> check_context (get_or_null "context" fs) (path /: key "context")
      <+> if_there (get "conditions" fs) (λ v. top_conditions rt vars v (path /: key "conditions"))
      <+> if_there (get "actions" fs)
          (λ v. action_list rt notifications vars true v (path /: key "actions"))

  abbrev pub rule_if : Value → Place → Report
  rule_if (dict fs) path = rule fs path
  rule_if v path = clean

  unfoldable pub rules_from : ℕ → Items → Report
  unfolding rule ◌<+>◌
  rules_from i nil = clean
  rules_from i (cons v vs) = rule_if v (key "rules" ∷ index i ∷ []) <+> rules_from (suc i) vs

  abbrev pub check_all_rules : Option Value → Report
  check_all_rules (some (list vs)) = rules_from 0 vs
  check_all_rules _ = clean

  -- every named block of a group
  unfoldable pub condition_blocks : Fields → Report
  unfolding condition_block ◌<+>◌
  condition_blocks end = clean
  condition_blocks (field k v fs) =
      condition_block rt vars v (key "refs" ∷ key "conditions" ∷ key k ∷ []) <+> condition_blocks fs

  unfoldable pub action_blocks : Fields → Report
  unfolding action_list ◌<+>◌
  action_blocks end = clean
  action_blocks (field k v fs) =
      action_list rt notifications vars false v (key "refs" ∷ key "actions" ∷ key k ∷ [])
      <+> action_blocks fs

  abbrev pub check_blocks : Fields → Option Value → Report
  check_blocks raw (some (dict refs)) =
      unknown_keys warning refs_groups refs (key "refs" ∷ [])
      <+> condition_blocks (mapping (get "conditions" refs))
      <+> action_blocks (mapping (get "actions" refs))
      <+> unused_refs raw refs
  check_blocks raw refs = clean

  unfoldable pub run : Fields → Report
  unfolding ◌<+>◌ unknown_keys condition_blocks action_blocks unused_refs rules_from get
  run raw =
      unknown_keys warning top_level_keys raw []
      <+> check_blocks raw (get "refs" raw)
      <+> check_all_rules (get "rules" raw)

-- The linter's `vars` are those of the document.
unfoldable pub lint_rules : Runtime → Option Fields → Fields → Report
unfolding run get
lint_rules rt notifications raw =
    run rt notifications (mapping (get "vars" (mapping (get "refs" raw)))) raw
