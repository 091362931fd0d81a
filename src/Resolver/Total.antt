-- ===== src/Resolver/Total.antt =====
-- `resolve_rule` of src/qbt_rules/resolver.py ends on every rule, whatever the blocks refer to.
use qbt_rules.Prelude.{
  ℕ, zero, suc, ◌≤◌, String, ◌≡◌, ◌≢◌, refl, ap, Bool, true, false, ◌||◌, Option, none, some, List,
  [], ◌∷◌, length, count_if, not, str_in, str_eq, if◌then◌else◌, arith,
}
use qbt_rules.Value.{
  Value, null, bool, num, str, list, dict, Items, nil, cons, Fields, end, field, get, put,
}
use Prim.Native.Char.{Char}
use qbt_rules.Utils.{split, split_dot, starts_with}
use qbt_rules.Conditions.Operators.{to_str}
use qbt_rules.Conditions.{Runtime}
use qbt_rules.Resolver.{Outcome, done, out_of_fuel, ◌>>=◌, RuleResolver, ref_paths}
use qbt_rules.Resolver.Tokens.{
  drop_last, drop_two, first_part, is_whole_token, runtime_token_namespaces, match_token,
  token_rest, var_of, resolve_var, segment_in, walk_segments, field_of, resolve_rule_field,
  resolve_token, emitted, interpolate, substitute_text, substitute_tokens, substitute_fields,
  substitute_items,
}
use qbt_rules.Resolver.Rule.{
  expand, expand_found, expand_key, expand_others, expand_rule, resolve_rule,
}
use qbt_rules.Resolver.Termination.{is_finished, is_finished-bind, remaining, expand_refs-finishes}

count_if-le : (p : String → Bool) (xs : List String) → count_if p xs ≤ length xs
count_if-le p [] = omega arith
count_if-le p (x ∷ xs) = ground (arith, count_if-le p xs)

is_finished-if :
    {A : Type 0} (b : Bool) (m n : Outcome A)
    → is_finished m ≡ true
    → is_finished n ≡ true
    → is_finished (if b then m else n) ≡ true
is_finished-if true m n p q = p
is_finished-if false m n p q = q

var_of-finishes :
    (vars : Fields) (path : String) (parts : Option (String × String))
    → is_finished (var_of vars path parts) ≡ true
var_of-finishes vars path none = refl
var_of-finishes vars path (some (group, name)) = ground arith

segment_in-finishes :
    (path segment : String) (v : Value) → is_finished (segment_in path segment v) ≡ true
segment_in-finishes path segment (dict fs) = ground arith
segment_in-finishes path segment _ = refl

walk_segments-finishes :
    (path : String) (segs : List String) (v : Value)
    → is_finished (walk_segments path segs v) ≡ true
unfolding walk_segments
walk_segments-finishes path [] v = refl
walk_segments-finishes path (segment ∷ segs) v =
    is_finished-bind (segment_in path segment v) (walk_segments path segs)
      (segment_in-finishes path segment v) (λ w. walk_segments-finishes path segs w)

field_of-finishes :
    (path : String) (parts : List String) (rule : Fields)
    → is_finished (field_of path parts rule) ≡ true
field_of-finishes path [] rule = refl
field_of-finishes path (first ∷ []) rule = refl
field_of-finishes path (first ∷ second ∷ segs) rule =
    is_finished-if (str_eq first "rule") _ _
      (walk_segments-finishes path (second ∷ segs) (dict rule)) refl

resolve_token-finishes :
    (r : RuleResolver) (path : String) (rule : Fields)
    → is_finished (resolve_token r path rule) ≡ true
unfolding resolve_token resolve_var resolve_rule_field
resolve_token-finishes r path rule =
    is_finished-if (str_eq path "rule" || starts_with path "rule.") (resolve_rule_field path rule)
      (resolve_var r path) (field_of-finishes path (split b'.' path) rule)
      (var_of-finishes r.vars path (split_dot path))

module _ (rt : Runtime) (r : RuleResolver) (rule : Fields) where
  emitted-finishes : (o : Option String) (c : Char) → is_finished (emitted rt r rule o c) ≡ true
  emitted-finishes none c = refl
  emitted-finishes (some path) c =
      is_finished-bind (resolve_token r path rule) (λ v. done (to_str rt v))
        (resolve_token-finishes r path rule) (λ v. refl)

  interpolate-finishes : (skip : ℕ) (s : String) → is_finished (interpolate rt r rule skip s) ≡ true
  unfolding interpolate
  interpolate-finishes zero String.[] = refl
  interpolate-finishes (suc skip) String.[] = refl
  interpolate-finishes (suc skip) (String.◌∷◌ c s) = interpolate-finishes skip s
  interpolate-finishes zero (String.◌∷◌ c s) =
      is_finished-bind _ _ (emitted-finishes (match_token (String.◌∷◌ c s)) c) (λ front.
        is_finished-bind _ _ (interpolate-finishes (token_rest (match_token (String.◌∷◌ c s))) s)
          (λ rest. refl))

  substitute_text-finishes : (s : String) → is_finished (substitute_text rt r rule s) ≡ true
  unfolding substitute_text
  substitute_text-finishes s =
      let path = drop_last (drop_two s) in
      is_finished-if (is_whole_token s) _ _
        (is_finished-if (str_in (first_part path) runtime_token_namespaces) (done (str s))
          (resolve_token r path rule) refl (resolve_token-finishes r path rule))
        (is_finished-bind (interpolate rt r rule zero s) (λ t. done (str t))
          (interpolate-finishes zero s) (λ t. refl))

  mutual
    unfolding substitute_tokens

    tokens_finish : (v : Value) → is_finished (substitute_tokens rt r rule v) ≡ true
    tokens_finish null = refl
    tokens_finish (bool b) = refl
    tokens_finish (num n) = refl
    tokens_finish (str s) = substitute_text-finishes s
    tokens_finish (list vs) = is_finished-bind _ _ (token_items_finish vs) (λ vs'. refl)
    tokens_finish (dict fs) = is_finished-bind _ _ (token_fields_finish fs) (λ fs'. refl)

    token_fields_finish : (fs : Fields) → is_finished (substitute_fields rt r rule fs) ≡ true
    token_fields_finish end = refl
    token_fields_finish (field k v fs) =
        is_finished-bind _ _ (tokens_finish v)
          (λ v'. is_finished-bind _ _ (token_fields_finish fs) (λ fs'. refl))

    token_items_finish : (vs : Items) → is_finished (substitute_items rt r rule vs) ≡ true
    token_items_finish nil = refl
    token_items_finish (cons v vs) =
        is_finished-bind _ _ (tokens_finish v)
          (λ v'. is_finished-bind _ _ (token_items_finish vs) (λ vs'. refl))

module _ (r : RuleResolver) where
  expand-finishes :
      (allowed : Option (List String)) (v : Value) → is_finished (expand r allowed v) ≡ true
  unfolding expand remaining
  expand-finishes allowed v =
      expand_refs-finishes r allowed (length (ref_paths r)) [] v
        (count_if-le (λ p. not (str_in p [])) (ref_paths r))

  expand_found-finishes :
      (key : String) (o : Option Value) (fs : Fields) → is_finished (expand_found r key o fs) ≡ true
  expand_found-finishes key none fs = refl
  expand_found-finishes key (some v) fs =
      is_finished-bind (expand r (some (key ∷ [])) v) (λ v'. done (put key v' fs))
        (expand-finishes (some (key ∷ [])) v) (λ v'. refl)

  expand_others-finishes : (fs : Fields) → is_finished (expand_others r fs) ≡ true
  unfolding expand_others
  expand_others-finishes end = refl
  expand_others-finishes (field key v fs) =
      is_finished-bind _ _
        (is_finished-if (str_eq key "conditions" || str_eq key "actions" || str_eq key "id")
          (done v) (expand r none v) refl (expand-finishes none v))
        (λ v'. is_finished-bind _ _ (expand_others-finishes fs) (λ fs'. refl))

  resolve_rule-finishes :
      (rt : Runtime) (rule : Fields) → is_finished (resolve_rule r rt rule) ≡ true
  unfolding resolve_rule expand_rule expand_key
  resolve_rule-finishes rt rule =
      is_finished-bind (expand_rule r rule) (substitute_fields rt r rule)
        (is_finished-bind (expand_key r "conditions" rule >>= expand_key r "actions")
          (expand_others r)
          (is_finished-bind (expand_key r "conditions" rule) (expand_key r "actions")
            (expand_found-finishes "conditions" (get "conditions" rule) rule)
            (λ fs. expand_found-finishes "actions" (get "actions" fs) fs))
          expand_others-finishes)
        (token_fields_finish rt r rule)

  -- Resolving a rule ends with a rule or an exception, whatever the blocks refer to and however
  -- deep: the number of references that have a block bounds how many are followed one inside the
  -- other.
  pub resolve_rule_terminates :
      (rt : Runtime) (rule : Fields) → resolve_rule r rt rule ≢ out_of_fuel
  resolve_rule_terminates rt rule e =
      ground (arith, resolve_rule-finishes rt rule, ap (λ m. is_finished m) e)
