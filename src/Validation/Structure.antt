-- ===== src/Validation/Structure.antt =====
-- `check_rules_structure` of src/qbt_rules/rules_validation.py: what the loader requires of rules.yml.
use qbt_rules.Prelude.{
  ℕ, suc, String, false, Option, none, some, List, [], ◌∷◌, ◌++◌, not, str_in, str_eq,
  if◌then◌else◌,
}
use qbt_rules.Value.{Value, null, str, list, dict, Items, nil, cons, Fields, get, has_key}
use qbt_rules.Validation.{
  error, key, index, Place, ◌/:◌, not_a_mapping, not_a_list, missing_id, invalid_id, duplicate_id,
  missing_field, Issue, Problem,
}

abbrev pub issue : Problem → Place → Issue
issue p path = record { severity = error; problem = p; path = path; on_key = false }

-- what is there and neither None nor a mapping
abbrev pub check_mapping : Option Value → Place → List Issue
check_mapping none path = []
check_mapping (some null) path = []
check_mapping (some (dict fs)) path = []
check_mapping (some v) path = issue not_a_mapping path ∷ []

abbrev refs_path : Place
refs_path = key "refs" ∷ []

unfoldable pub check_refs : Option Value → List Issue
unfolding get
check_refs (some (dict refs)) =
    check_mapping (get "vars" refs) (refs_path /: key "vars")
    ++ check_mapping (get "conditions" refs) (refs_path /: key "conditions")
    ++ check_mapping (get "actions" refs) (refs_path /: key "actions")
check_refs refs = check_mapping refs refs_path

abbrev pub require : String → Fields → Place → List Issue
require name rule path = if has_key name rule then [] else issue (missing_field name) path ∷ []

abbrev pub rule_id : Option Value → String
rule_id (some (str s)) = s
rule_id _ = ""

-- What the loop finds in one rule, and the identifiers seen after it.
unfoldable pub check_rule : List String → Place → Value → List Issue × List String
unfolding get
check_rule seen path (dict rule) =
    if not (has_key "id" rule)
    then (issue missing_id path ∷ [], seen)
    else if str_eq (rule_id (get "id" rule)) ""
    then (issue invalid_id (path /: key "id") ∷ [], seen)
    else (
      (if str_in (rule_id (get "id" rule)) seen
            then issue duplicate_id (path /: key "id") ∷ []
            else [])
          ++ require "conditions" rule path
          ++ require "actions" rule path,
      rule_id (get "id" rule) ∷ seen,
    )
check_rule seen path v = (issue not_a_mapping path ∷ [], seen)

unfoldable pub check_rules : List String → ℕ → Items → List Issue
unfolding check_rule
check_rules seen i nil = []
check_rules seen i (cons v vs) =
    let (issues, seen') = check_rule seen (key "rules" ∷ index i ∷ []) v in
    issues ++ check_rules seen' (suc i) vs

abbrev pub check_rule_list : Option Value → List Issue
check_rule_list none = []
check_rule_list (some (list vs)) = check_rules [] 0 vs
check_rule_list (some v) = issue not_a_list (key "rules" ∷ []) ∷ []

unfoldable pub check_rules_structure : Value → List Issue
unfolding check_refs check_rules get
check_rules_structure (dict raw) = check_refs (get "refs" raw) ++ check_rule_list (get "rules" raw)
check_rules_structure v = issue not_a_mapping [] ∷ []
