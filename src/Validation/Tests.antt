-- ===== src/Validation/Tests.antt =====
-- Documents checked by src/qbt_rules/rules_validation.py.
use qbt_rules.Prelude.{String, ◌≡◌, refl, true, false, ◌&&◌, none, [], inl, all}
use qbt_rules.Value.{
  Value, bool, num, str, list, dict, Items, nil, cons, Fields, end, field, int, to_list,
}
use qbt_rules.Conditions.{ok, err, type_error}
use qbt_rules.Conditions.State.{no_stats}
use qbt_rules.Conditions.Snapshot.{conditions_hold}
use qbt_rules.Resolver.{done, new_resolver}
use qbt_rules.Resolver.Rule.{resolve_rule}
use qbt_rules.Validation.{clean, no_errors}
use qbt_rules.Validation.Conditions.{top_conditions, condition, condition_block}
use qbt_rules.Validation.Structure.{check_rules}
use qbt_rules.Validation.Actions.{action}
use qbt_rules.Validation.Linter.{lint_rules}
use qbt_rules.Validation.Rules.{is_valid, nothing_in}
use qbt_rules.Validation.Operators.{benign}
use qbt_rules.Validation.Leaves.{AnswersOrFails}
use qbt_rules.Validation.Sound.{valid_rule_evaluates}
use qbt_rules.Validation.Resolves.{valid_rule_resolves}
use qbt_rules.Validation.Ids.{is_rule, ids, distinct, check_rules_accepts}
use qbt_rules.Examples.{runtime, snapshot}

abbrev seeded : Value
seeded = dict (
    field "field" (str "info.ratio")
      (field "operator" (str "contains") (field "value" (str "2") end)))

abbrev reference : String → Value
reference path = dict (field "$ref" (str path) end)

abbrev actions : Value
actions = list (cons (dict (field "type" (str "stop") end)) nil)

abbrev rule_of : Value → Fields
rule_of conditions =
    field "id" (str "r1") (field "conditions" conditions (field "actions" actions end))

abbrev refs : Fields
refs = field "conditions" (dict (field "seeded" seeded end)) end

abbrev document : Value → Fields
document conditions =
    field "refs" (dict refs) (field "rules" (list (cons (dict (rule_of conditions)) nil)) end)

abbrev in_list : Value
in_list = list (cons (reference "conditions.seeded") nil)

abbrev whole : Value
whole = reference "conditions.seeded"

is_valid-in_list : is_valid runtime none (dict (document in_list)) ≡ true
unfolding is_valid qbt_rules.Resolver.◌>>=◌ qbt_rules.Resolver.follow_ref qbt_rules.Utils.split_dot
    qbt_rules.Resolver.lookup_ref qbt_rules.Resolver.Tokens.substitute_fields
    qbt_rules.Resolver.Tokens.substitute_text qbt_rules.Validation.Conditions.check_leaf
is_valid-in_list = refl

resolves_in_list :
    resolve_rule (new_resolver refs none end) runtime (rule_of in_list)
    ≡ done (rule_of (list (cons seeded nil)))
unfolding resolve_rule qbt_rules.Resolver.◌>>=◌ qbt_rules.Value.get new_resolver
    qbt_rules.Resolver.follow_ref qbt_rules.Utils.split_dot qbt_rules.Resolver.lookup_ref
    qbt_rules.Resolver.Tokens.substitute_fields qbt_rules.Resolver.Tokens.substitute_text
resolves_in_list = refl

-- A whole `conditions` that refers to a single condition is accepted without an issue.
is_valid-whole : is_valid runtime none (dict (document whole)) ≡ true
unfolding is_valid qbt_rules.Resolver.◌>>=◌ qbt_rules.Resolver.follow_ref qbt_rules.Utils.split_dot
    qbt_rules.Resolver.lookup_ref qbt_rules.Resolver.Tokens.substitute_fields
    qbt_rules.Resolver.Tokens.substitute_text qbt_rules.Validation.Conditions.check_leaf
is_valid-whole = refl

lint_rules-whole : lint_rules runtime none (document whole) ≡ clean
unfolding lint_rules qbt_rules.Validation.Conditions.check_leaf
lint_rules-whole = refl

resolves_whole :
    resolve_rule (new_resolver refs none end) runtime (rule_of whole) ≡ done (rule_of seeded)
unfolding resolve_rule qbt_rules.Resolver.◌>>=◌ qbt_rules.Value.get new_resolver
    qbt_rules.Resolver.follow_ref qbt_rules.Utils.split_dot qbt_rules.Resolver.lookup_ref
    qbt_rules.Resolver.Tokens.substitute_fields qbt_rules.Resolver.Tokens.substitute_text
resolves_whole = refl

-- The engine reads only groups there, so that it matches every torrent.
whole_matches :
    (torrent : Fields) → conditions_hold runtime snapshot no_stats torrent seeded ≡ ok true
unfolding conditions_hold qbt_rules.Conditions.Snapshot.groups_hold
    qbt_rules.Conditions.Snapshot.all_hold
whole_matches torrent = refl

-- An operator that is a list ends the linter with Python's TypeError.
list_operator :
    lint_rules runtime none (
      document (
        list (
          cons
            (dict (
              field "field"
                (str "info.ratio")
                (field "operator" (list nil) (field "value" (str "2") end))))
            nil)))
    ≡ err type_error
unfolding lint_rules qbt_rules.Validation.Conditions.check_leaf
list_operator = refl

rejects_field :
    no_errors (
      condition runtime end
        (dict (
          field "field"
            (str "nope.ratio")
            (field "operator" (str "==") (field "value" (str "2") end))))
        [])
    ≡ false
unfolding no_errors condition qbt_rules.Value.get qbt_rules.Validation.Conditions.check_leaf
rejects_field = refl

rejects_keep :
    no_errors (
      action runtime none end
        (dict (
          field "type"
            (str "delete_torrent")
            (field "params" (dict (field "keep_files" (bool true) end)) end)))
        [])
    ≡ false
unfolding no_errors action
rejects_keep = refl

answers : AnswersOrFails snapshot
answers = record {
  trackers = λ h. refl;
  files = λ h. refl;
  peers = λ h. refl;
  webseeds = λ h. refl;
  properties = λ h. refl;
  transfer = refl;
  app = refl;
}

valid_rule_evaluates_example :
    benign (conditions_hold runtime snapshot no_stats end (list (cons seeded nil))) ≡ true
unfolding qbt_rules.Value.get
valid_rule_evaluates_example =
    valid_rule_evaluates runtime none (document in_list) (rule_of in_list) is_valid-in_list
      (inl refl) none end (rule_of (list (cons seeded nil))) (list (cons seeded nil))
      resolves_in_list refl snapshot no_stats end answers

valid_rule_resolves_example :
    (fs' : Fields) × (resolve_rule (new_resolver refs none end) runtime (rule_of in_list)
      ≡ done fs')
unfolding qbt_rules.Value.get
valid_rule_resolves_example =
    valid_rule_resolves runtime none (document in_list) (rule_of in_list) is_valid-in_list
      (inl refl)

abbrev twice : Items
twice = cons (dict (rule_of in_list)) (cons (dict (rule_of whole)) nil)

check_rules_accepts_example :
    nothing_in (check_rules [] 0 twice) ≡ all is_rule (to_list twice) && distinct (ids twice)
check_rules_accepts_example = check_rules_accepts twice
