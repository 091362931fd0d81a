-- ===== src/Validation/Sound.antt =====
-- A rules file that validates (src/qbt_rules/rules_validation.py) gives rules that the resolver
-- (src/qbt_rules/resolver.py) resolves and the evaluator (src/qbt_rules/engine.py) can evaluate.
use qbt_rules.Prelude.{
  ℕ, suc, String, ◌≡◌, ◌⊎◌, inl, inr, refl, subst, true, false, Option, none, some, [], ◌∷◌,
}
use qbt_rules.Value.{Value, null, bool, num, str, list, dict, Items, nil, cons, Fields, get}
use qbt_rules.Conditions.{Runtime}
use qbt_rules.Conditions.State.{Stats}
use qbt_rules.Conditions.Snapshot.{Snapshot, conditions_hold}
use qbt_rules.Resolver.{done, new_resolver, mapping}
use qbt_rules.Resolver.Plain.{IfDone}
use qbt_rules.Resolver.Rule.{resolve_rule}
use qbt_rules.Validation.{Place, key, index, ◌/:◌, no_errors}
use qbt_rules.Validation.Conditions.{top_conditions}
use qbt_rules.Validation.Linter.{
  rule, rule_if, rules_from, check_all_rules, check_blocks, run, lint_rules, if_there,
}
use qbt_rules.Validation.Rules.{is_valid, rules_of}
use qbt_rules.Validation.Evaluable.{blocks_evaluable, right_true}
use qbt_rules.Validation.Reports.{clean_both}
use qbt_rules.Validation.Accepted.{top_lem, blocks_lem}
use qbt_rules.Validation.Operators.{benign}
use qbt_rules.Validation.Leaves.{AnswersOrFails}
use qbt_rules.Validation.Evaluated.{conditions_hold-benign}
use qbt_rules.Validation.Resolved.{top_if, Ready, resolved-Ready}

abbrev pub IsIn : Value → Items → Type 0
IsIn v nil = ⊥
IsIn v (cons w ws) = (w ≡ v) ⊎ IsIn v ws

module _ (rt : Runtime) (notifications : Option Fields) (vars : Fields) where
  blocks_accepted :
      (raw : Fields) (refs : Option Value)
      → no_errors (check_blocks rt notifications vars raw refs) ≡ true
      → blocks_evaluable (mapping (get "conditions" (mapping refs))) ≡ true
  unfolding get
  blocks_accepted raw (some (dict refs)) h =
      blocks_lem rt vars notifications (mapping (get "conditions" refs))
        ((clean_both _ _ ((clean_both _ _ h).1)).0)
  blocks_accepted raw none h = refl
  blocks_accepted raw (some null) h = refl
  blocks_accepted raw (some (bool b)) h = refl
  blocks_accepted raw (some (num n)) h = refl
  blocks_accepted raw (some (str s)) h = refl
  blocks_accepted raw (some (list vs)) h = refl

  if_there_lem :
      (o : Option Value) (path : Place)
      → no_errors (if_there o (λ v. top_conditions rt vars v path)) ≡ true
      → top_if true o ≡ true
  if_there_lem none path h = refl
  if_there_lem (some v) path h = top_lem rt vars v path h

  rule_accepted :
      (fs : Fields) (path : Place)
      → no_errors (rule rt notifications vars fs path) ≡ true
      → top_if true (get "conditions" fs) ≡ true
  unfolding rule
  rule_accepted fs path h = if_there_lem (get "conditions" fs) (path /: key "conditions") (
      (clean_both _ _ (
        (clean_both _ _ (
          (clean_both _ _
            ((clean_both _ _ ((clean_both _ _ ((clean_both _ _ h).1)).1)).1)).1)).1)).0)

  rules_accepted :
      (i : ℕ) (fs : Fields) (vs : Items)
      → no_errors (rules_from rt notifications vars i vs) ≡ true
      → IsIn (dict fs) vs
      → top_if true (get "conditions" fs) ≡ true
  unfolding rules_from
  rules_accepted i fs nil h m = absurd m
  rules_accepted i fs (cons v vs) h (inl e) = rule_accepted fs (key "rules" ∷ index i ∷ []) (
      subst (λ w. no_errors (rule_if rt notifications vars w (key "rules" ∷ index i ∷ [])) ≡ true) e
        ((clean_both (rule_if rt notifications vars v (key "rules" ∷ index i ∷ []))
          (rules_from rt notifications vars (suc i) vs) h).0))
  rules_accepted i fs (cons v vs) h (inr m) =
      rules_accepted (suc i) fs vs
        ((clean_both (rule_if rt notifications vars v (key "rules" ∷ index i ∷ []))
          (rules_from rt notifications vars (suc i) vs) h).1)
        m

  listed_accepted :
      (o : Option Value) (fs : Fields)
      → no_errors (check_all_rules rt notifications vars o) ≡ true
      → IsIn (dict fs) (rules_of o)
      → top_if true (get "conditions" fs) ≡ true
  listed_accepted (some (list vs)) fs h m = rules_accepted 0 fs vs h m
  listed_accepted none fs h m = absurd m
  listed_accepted (some null) fs h m = absurd m
  listed_accepted (some (bool b)) fs h m = absurd m
  listed_accepted (some (num n)) fs h m = absurd m
  listed_accepted (some (str s)) fs h m = absurd m
  listed_accepted (some (dict gs)) fs h m = absurd m

  run_accepted :
      (raw fs : Fields)
      → no_errors (run rt notifications vars raw) ≡ true
      → IsIn (dict fs) (rules_of (get "rules" raw))
      → (blocks_evaluable (mapping (get "conditions" (mapping (get "refs" raw)))) ≡ true)
        × (top_if true (get "conditions" fs) ≡ true)
  unfolding run
  run_accepted raw fs h m =
      let (hb, hr) = clean_both _ _ ((clean_both _ _ h).1) in
      (blocks_accepted raw (get "refs" raw) hb, listed_accepted (get "rules" raw) fs hr m)

-- what a ready rule's evaluation gives, if the rule resolves
Ready-benign :
    (rt : Runtime) (snap : Snapshot) (stats : Stats) (torrent fs' : Fields) (conditions : Value)
    → AnswersOrFails snap
    → Ready false fs'
    → get "conditions" fs' ≡ some conditions
    → benign (conditions_hold rt snap stats torrent conditions) ≡ true
Ready-benign rt snap stats torrent fs' conditions answers h e =
    conditions_hold-benign rt snap stats torrent answers conditions (rw e at h)

-- In a document that validates, a rule that resolves, for whatever instance, has conditions whose
-- evaluation, on every torrent and snapshot whose requests answer or raise something else, raises
-- neither KeyError nor OperatorError.
pub valid_rule_evaluates :
    (rt : Runtime) (notifications : Option Fields) (raw fs : Fields)
    → is_valid rt notifications (dict raw) ≡ true
    → IsIn (dict fs) (rules_of (get "rules" raw))
    → (instance_id : Option String) (instances fs' : Fields) (conditions : Value)
    → resolve_rule (new_resolver (mapping (get "refs" raw)) instance_id instances) rt fs ≡ done fs'
    → get "conditions" fs' ≡ some conditions
    → (snap : Snapshot) (stats : Stats) (torrent : Fields) → AnswersOrFails snap
    → benign (conditions_hold rt snap stats torrent conditions) ≡ true
unfolding is_valid lint_rules new_resolver
valid_rule_evaluates rt notifications raw fs v m instance_id instances fs' conditions e c snap stats
      torrent answers =
    let vars = mapping (get "vars" (mapping (get "refs" raw))) in
    let (hb, ht) = run_accepted rt notifications vars raw fs (right_true _ _ v) m in
    let r = new_resolver (mapping (get "refs" raw)) instance_id instances in
    Ready-benign rt snap stats torrent fs' conditions answers
      (subst (IfDone (Ready false)) e (resolved-Ready r hb rt fs ht)) c
