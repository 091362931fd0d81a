-- ===== src/Resolver/Rule.antt =====
-- `resolve_rule` of src/qbt_rules/resolver.py: references first, then tokens, which see the rule as it was
-- written. The fuel is the number of references that have a block.
use qbt_rules.Prelude.{
  String, ◌||◌, Option, none, some, List, [], ◌∷◌, length, str_eq, if◌then◌else◌,
}
use qbt_rules.Value.{Value, Fields, end, field, get, put}
use qbt_rules.Conditions.{Runtime}
use qbt_rules.Resolver.{Outcome, done, ◌>>=◌, RuleResolver, expand_refs, ref_paths}
use qbt_rules.Resolver.Tokens.{substitute_fields}

module _ (r : RuleResolver) where
  unfoldable pub expand : Option (List String) → Value → Outcome Value
  unfolding expand_refs ref_paths
  expand allowed v = expand_refs r allowed (length (ref_paths r)) [] v

  abbrev pub expand_found : String → Option Value → Fields → Outcome Fields
  expand_found key none resolved = done resolved
  expand_found key (some v) resolved =
      expand (some (key ∷ [])) v >>= (λ v'. done (put key v' resolved))

  -- `resolved[key] = ...`, with references of the group of the same name
  unfoldable pub expand_key : String → Fields → Outcome Fields
  unfolding expand put
  expand_key key resolved = expand_found key (get key resolved) resolved

  -- every other key but `id`
  unfoldable pub expand_others : Fields → Outcome Fields
  unfolding expand
  expand_others end = done end
  expand_others (field key v fs) =
      (if str_eq key "conditions" || str_eq key "actions" || str_eq key "id"
        then done v
        else expand none v)
      >>= (λ v'. expand_others fs >>= (λ fs'. done (field key v' fs')))

  unfoldable pub expand_rule : Fields → Outcome Fields
  unfolding expand_key expand_others
  expand_rule rule = expand_key "conditions" rule >>= expand_key "actions" >>= expand_others

  unfoldable pub resolve_rule : Runtime → Fields → Outcome Fields
  unfolding expand_rule
  resolve_rule rt rule = expand_rule rule >>= substitute_fields rt r rule
