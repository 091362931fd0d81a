-- ===== src/Validation/Rules.antt =====
-- `check_resolution` and the verdict of `validate_rules_text` (src/qbt_rules/rules_validation.py). The
-- source merges the resolver's errors that fall on one place; here each stands by its rule.
use qbt_rules.Prelude.{String, Bool, true, false, ◌&&◌, Option, none, some, List, [], ◌∷◌, ◌++◌}
use qbt_rules.Value.{Value, str, list, dict, Items, nil, cons, Fields, get}
use qbt_rules.Conditions.{Runtime}
use qbt_rules.Resolver.{
  ResolverError, Outcome, done, raised, out_of_fuel, RuleResolver, new_resolver, mapping,
}
use qbt_rules.Resolver.Rule.{resolve_rule}
use qbt_rules.Validation.{no_errors}
use qbt_rules.Validation.Structure.{check_rules_structure}
use qbt_rules.Validation.Linter.{lint_rules}

abbrev pub if_raised : String → Outcome Fields → List (String × ResolverError)
if_raised id (raised e) = (id, e) ∷ []
if_raised id (done rule) = []
if_raised id out_of_fuel = []

abbrev pub resolved_as :
    RuleResolver → Runtime → Option Value → Fields → List (String × ResolverError)
resolved_as r rt (some (str id)) rule = if_raised id (resolve_rule r rt rule)
resolved_as r rt _ rule = []

abbrev pub check_one : RuleResolver → Runtime → Value → List (String × ResolverError)
check_one r rt (dict rule) = resolved_as r rt (get "id" rule) rule
check_one r rt v = []

unfoldable pub check_each : RuleResolver → Runtime → Items → List (String × ResolverError)
unfolding resolve_rule get
check_each r rt nil = []
check_each r rt (cons v vs) = check_one r rt v ++ check_each r rt vs

abbrev pub rules_of : Option Value → Items
rules_of (some (list vs)) = vs
rules_of _ = nil

unfoldable pub check_resolution : Runtime → Fields → List (String × ResolverError)
unfolding check_each new_resolver get
check_resolution rt raw =
    check_each (new_resolver (mapping (get "refs" raw)) none (mapping (get "instances" raw))) rt
      (rules_of (get "rules" raw))

abbrev pub nothing_in {ℓ} : {A : Type ℓ} → List A → Bool
nothing_in [] = true
nothing_in (x ∷ xs) = false

-- `result["valid"]` of the document that the text holds
unfoldable pub is_valid : Runtime → Option Fields → Value → Bool
unfolding check_rules_structure check_resolution lint_rules no_errors
is_valid rt notifications (dict raw) =
    nothing_in (check_rules_structure (dict raw))
    && nothing_in (check_resolution rt raw)
    && no_errors (lint_rules rt notifications raw)
is_valid rt notifications v = false
