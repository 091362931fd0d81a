-- ===== src/Resolver/Tests.antt =====
-- Rules resolved by src/qbt_rules/resolver.py, with blocks that refer to each other.
use qbt_rules.Prelude.{String, ◌≡◌, ◌≢◌, refl, true, none, some, []}
use qbt_rules.Prelude.Int.{pos}
use qbt_rules.Value.{Value, num, str, list, dict, Items, nil, cons, Fields, end, field, int}
use qbt_rules.Resolver.{
  Outcome, done, raised, out_of_fuel, circular_ref, RuleResolver, new_resolver,
}
use qbt_rules.Resolver.Rule.{expand, resolve_rule}
use qbt_rules.Resolver.Total.{resolve_rule_terminates}
use qbt_rules.Resolver.Plain.{is_plain, plain_fields, expand_once}
use qbt_rules.Resolver.Untouched.{has_no_token, fields_have_none, resolve_rule-plain}
use qbt_rules.Examples.{runtime, start_rule_of}

abbrev ref_to : String → Value
ref_to path = dict (field "$ref" (str path) end)

abbrev ratio : Value
ratio = dict (
    field "field" (str "info.ratio")
      (field "operator" (str ">=") (field "value" (str "${vars.min_ratio}") end)))

abbrev blocks : Fields
blocks =
    field "seeded" (list (cons ratio nil))
      (field "left" (ref_to "conditions.right") (field "right" (ref_to "conditions.left") end))

abbrev refs : Fields
refs =
    field "vars" (dict (field "min_ratio" (num (int (pos 2))) end))
      (field "conditions" (dict blocks) end)

abbrev resolver : RuleResolver
resolver = new_resolver refs none end

abbrev rule_with : String → Fields
rule_with path = field "id" (str "r1") (field "conditions" (list (cons (ref_to path) nil)) end)

abbrev seeded : Value
seeded = list (
    cons
      (dict (
        field "field" (str "info.ratio")
          (field "operator" (str ">=") (field "value" (num (int (pos 2))) end))))
      nil)

-- The block is spliced into the list, and the whole token keeps the variable's type.
resolves_block :
    resolve_rule resolver runtime (rule_with "conditions.seeded")
    ≡ done (field "id" (str "r1") (field "conditions" seeded end))
unfolding resolve_rule qbt_rules.Resolver.◌>>=◌ qbt_rules.Value.get new_resolver
    qbt_rules.Resolver.follow_ref qbt_rules.Utils.split_dot qbt_rules.Resolver.lookup_ref
    qbt_rules.Resolver.Tokens.substitute_fields qbt_rules.Resolver.Tokens.substitute_text
resolves_block = refl

finds_cycle :
    resolve_rule resolver runtime (rule_with "conditions.left")
    ≡ raised (circular_ref "conditions.left")
unfolding resolve_rule qbt_rules.Resolver.◌>>=◌ qbt_rules.Value.get new_resolver
    qbt_rules.Resolver.follow_ref qbt_rules.Utils.split_dot qbt_rules.Resolver.lookup_ref
finds_cycle = refl

resolve_rule_terminates_example :
    resolve_rule resolver runtime (rule_with "conditions.left") ≢ out_of_fuel
resolve_rule_terminates_example =
    resolve_rule_terminates resolver runtime (rule_with "conditions.left")

expands_block : expand resolver none (ref_to "conditions.seeded") ≡ done (list (cons ratio nil))
unfolding expand new_resolver qbt_rules.Resolver.follow_ref qbt_rules.Utils.split_dot
    qbt_rules.Resolver.◌>>=◌ qbt_rules.Resolver.lookup_ref
expands_block = refl

expand_once_example :
    (is_plain (list (cons ratio nil)) ≡ true)
    × (expand resolver (some []) (list (cons ratio nil)) ≡ done (list (cons ratio nil)))
expand_once_example =
    expand_once resolver resolver none (some []) (ref_to "conditions.seeded")
      (list (cons ratio nil)) expands_block

plain_rule : plain_fields (start_rule_of "stoppedUP") ≡ true
unfolding is_plain qbt_rules.Value.get
plain_rule = refl

no_token : fields_have_none (start_rule_of "stoppedUP") ≡ true
unfolding has_no_token qbt_rules.Resolver.Tokens.count_opening qbt_rules.Utils.starts_with
no_token = refl

resolve_rule-plain_example :
    resolve_rule resolver runtime (start_rule_of "stoppedUP") ≡ done (start_rule_of "stoppedUP")
resolve_rule-plain_example =
    resolve_rule-plain resolver runtime (start_rule_of "stoppedUP") plain_rule no_token
