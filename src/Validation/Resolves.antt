-- ===== src/Validation/Resolves.antt =====
-- In a document that validates (src/qbt_rules/rules_validation.py), every rule resolves.
use qbt_rules.Prelude.{
  String, ◌≡◌, ◌≢◌, inl, inr, refl, sym, subst, true, Option, none, some, List, [], ◌∷◌, ◌++◌, all,
  not, str_eq, arith, ◌∙◌,
}
use qbt_rules.Value.{
  Value, null, bool, num, str, list, dict, Items, nil, cons, Fields, get, to_list,
}
use qbt_rules.Conditions.{Runtime}
use qbt_rules.Resolver.{Outcome, done, raised, out_of_fuel, RuleResolver, new_resolver, mapping}
use qbt_rules.Resolver.Rule.{resolve_rule}
use qbt_rules.Resolver.Total.{resolve_rule_terminates}
use qbt_rules.Validation.Structure.{check_refs, check_rule_list, check_rules_structure, rule_id}
use qbt_rules.Validation.Rules.{
  is_valid, rules_of, check_resolution, check_each, check_one, resolved_as, if_raised, nothing_in,
}
use qbt_rules.Validation.Evaluable.{left_true, right_true}
use qbt_rules.Validation.Ids.{is_rule, ids, distinct, check_rules_accepts}
use qbt_rules.Validation.Sound.{IsIn}

nothing_left :
    {A : Type 0} (a b : List A)
    → nothing_in (a ++ b) ≡ true
    → (nothing_in a ≡ true) × (nothing_in b ≡ true)
nothing_left [] b h = (refl, h)
nothing_left (i ∷ a) b h = ground (arith, h)

-- what the outcome is, if it is neither of the others
is_done :
    (id : String) (o : Outcome Fields)
    → o ≢ out_of_fuel
    → nothing_in (if_raised id o) ≡ true
    → (fs' : Fields) × (o ≡ done fs')
is_done id (done fs') p h = (fs', refl)
is_done id (raised e) p h = ground (arith, h)
is_done id out_of_fuel p h = absurd (p refl)

module _ (r : RuleResolver) (rt : Runtime) where
  named_resolves :
      (fs : Fields) (o : Option Value)
      → not (str_eq (rule_id o) "") ≡ true
      → nothing_in (resolved_as r rt o fs) ≡ true
      → (fs' : Fields) × (resolve_rule r rt fs ≡ done fs')
  named_resolves fs (some (str id)) e h =
      is_done id (resolve_rule r rt fs) (resolve_rule_terminates r rt fs) h
  named_resolves fs none e h = ground (arith, e)
  named_resolves fs (some null) e h = ground (arith, e)
  named_resolves fs (some (bool b)) e h = ground (arith, e)
  named_resolves fs (some (num n)) e h = ground (arith, e)
  named_resolves fs (some (list vs)) e h = ground (arith, e)
  named_resolves fs (some (dict gs)) e h = ground (arith, e)

  each_resolves :
      (vs : Items) (fs : Fields)
      → all is_rule (to_list vs) ≡ true
      → nothing_in (check_each r rt vs) ≡ true
      → IsIn (dict fs) vs
      → (fs' : Fields) × (resolve_rule r rt fs ≡ done fs')
  unfolding check_each
  each_resolves nil fs p h m = absurd m
  each_resolves (cons v vs) fs p h (inl e) =
      named_resolves fs (get "id" fs)
        (left_true _ _ (
          left_true _ _
            (subst (λ w. is_rule w ≡ true) e (left_true (is_rule v) (all is_rule (to_list vs)) p))))
        (subst (λ w. nothing_in (check_one r rt w) ≡ true) e
          ((nothing_left (check_one r rt v) (check_each r rt vs) h).0))
  each_resolves (cons v vs) fs p h (inr m) =
      each_resolves vs fs (right_true (is_rule v) (all is_rule (to_list vs)) p)
        ((nothing_left (check_one r rt v) (check_each r rt vs) h).1) m

listed_rules :
    (o : Option Value)
    → nothing_in (check_rule_list o) ≡ true
    → all is_rule (to_list (rules_of o)) ≡ true
listed_rules (some (list vs)) h = left_true _ (distinct (ids vs)) (sym (check_rules_accepts vs) ∙ h)
listed_rules none h = refl
listed_rules (some null) h = refl
listed_rules (some (bool b)) h = refl
listed_rules (some (num n)) h = refl
listed_rules (some (str s)) h = refl
listed_rules (some (dict gs)) h = refl

-- Every rule of a document that validates resolves to a rule, with the document's references and
-- instances and no instance chosen.
pub valid_rule_resolves :
    (rt : Runtime) (notifications : Option Fields) (raw fs : Fields)
    → is_valid rt notifications (dict raw) ≡ true
    → IsIn (dict fs) (rules_of (get "rules" raw))
    → (fs' : Fields) × (resolve_rule
          (new_resolver (mapping (get "refs" raw)) none (mapping (get "instances" raw)))
          rt
          fs
        ≡ done fs')
unfolding is_valid check_resolution check_rules_structure
valid_rule_resolves rt notifications raw fs v m =
    each_resolves (new_resolver (mapping (get "refs" raw)) none (mapping (get "instances" raw))) rt
      (rules_of (get "rules" raw)) fs
      (listed_rules (get "rules" raw) (
        (nothing_left (check_refs (get "refs" raw)) (check_rule_list (get "rules" raw))
          (left_true _ _ (left_true _ _ v))).1))
      (right_true _ _ (left_true _ _ v)) m
