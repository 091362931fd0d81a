-- ===== src/Conditions/Evaluate.antt =====
-- `evaluate` of src/qbt_rules/engine.py and what it calls, without the optional trace.
use qbt_rules.Prelude.{
  String, Bool, true, false, ◌||◌, Option, none, some, any, not, str_eq, if◌then◌else◌,
}
use qbt_rules.Value.{
  Value, null, str, list, dict, Items, nil, cons, Fields, end, field, get, has_key, to_list, py_eq,
}
use qbt_rules.Utils.{contains}
use qbt_rules.Conditions.{type_error, key_error, Result, ok, err, Runtime}
use qbt_rules.Conditions.State.{State, Action, pure, raise, lift, ◌>>=◌}
use qbt_rules.Conditions.Operators.{apply_operator}
use qbt_rules.Conditions.Lookup.{get_field_value}
use qbt_rules.Api.{Api}

-- `_evaluate_context`: the required context is a text or a list of texts.
unfoldable pub evaluate_context : Option String → Value → Bool
evaluate_context none required = false
evaluate_context (some current) (list items) = any (py_eq (str current)) (to_list items)
evaluate_context (some current) required = py_eq (str current) required

-- `any(group in condition for group in ("all", "any", "none"))`
abbrev pub has_group : Fields → Bool
has_group fs = has_key "all" fs || has_key "any" fs || has_key "none" fs

-- An operator that is no text equals none of the known operators.
abbrev pub operator_text : Value → String
operator_text (str s) = s
operator_text _ = ""

-- A loop over what is no list: an empty text or dictionary runs no round, any other raises, for its
-- items are texts and no conditions.
abbrev pub loop_over : Value → Bool → Result Bool
loop_over (str s) b = if str_eq s "" then ok b else err type_error
loop_over (dict end) b = ok b
loop_over _ b = err type_error

abbrev pub context_allows : Option String → Value → Bool
context_allows current null = true
context_allows current required = evaluate_context current required

-- Whatever is raised, DataNotReadyError or not, the rule does not match.
abbrev pub caught : {W : Type 0} → Result Bool × State W → Bool × State W
caught (ok b, s) = (b, s)
caught (err e, s) = (false, s)

module _ {W : Type 0} (rt : Runtime) (api : Api W) (torrent : Fields) where
  abbrev pub compare_field : Value → Value → Value → Action W Bool
  compare_field (str path) op value =
      get_field_value api torrent path
      >>= (λ actual. lift (apply_operator rt actual (operator_text op) value))
  compare_field _ op value = raise type_error

  -- `condition["field"]`, `condition["operator"]`, `condition["value"]`, in this order
  abbrev pub leaf_parts : Option Value → Option Value → Option Value → Action W Bool
  leaf_parts (some path) (some op) (some value) = compare_field path op value
  leaf_parts _ _ _ = raise key_error

  unfoldable pub evaluate_leaf : Fields → Action W Bool
  evaluate_leaf fs = leaf_parts (get "field" fs) (get "operator" fs) (get "value" fs)

  -- `_evaluate_condition` and `_evaluate_groups`, `_evaluate_all`, `_evaluate_any`, `_evaluate_none`.
  -- The functions over `Fields` look a group up and evaluate what they find.
  unfoldable mutual
    pub evaluate_condition : Value → Action W Bool
    evaluate_condition (dict fs) =
        if has_group fs
        then group_all fs >>= (λ a.
          if a then group_any fs >>= (λ b. if b then group_none fs else pure false) else pure false)
        else evaluate_leaf fs
    evaluate_condition _ = raise type_error

    pub group_all : Fields → Action W Bool
    group_all end = pure true
    group_all (field k v fs) = if str_eq k "all" then evaluate_all v else group_all fs

    pub group_any : Fields → Action W Bool
    group_any end = pure true
    group_any (field k v fs) = if str_eq k "any" then evaluate_any v else group_any fs

    pub group_none : Fields → Action W Bool
    group_none end = pure true
    group_none (field k v fs) =
        if str_eq k "none" then evaluate_any v >>= (λ b. pure (not b)) else group_none fs

    pub evaluate_all : Value → Action W Bool
    evaluate_all (list vs) = evaluate_all_items vs
    evaluate_all v = lift (loop_over v true)

    pub evaluate_any : Value → Action W Bool
    evaluate_any (list vs) = evaluate_any_items vs
    evaluate_any v = lift (loop_over v false)

    pub evaluate_all_items : Items → Action W Bool
    evaluate_all_items nil = pure true
    evaluate_all_items (cons v vs) =
        evaluate_condition v >>= (λ b. if b then evaluate_all_items vs else pure false)

    pub evaluate_any_items : Items → Action W Bool
    evaluate_any_items nil = pure false
    evaluate_any_items (cons v vs) =
        evaluate_condition v >>= (λ b. if b then pure true else evaluate_any_items vs)

  -- `_evaluate_groups` at the top level
  unfoldable pub evaluate_groups : Value → Action W Bool
  evaluate_groups (dict fs) = group_all fs >>= (λ a.
      if a then group_any fs >>= (λ b. if b then group_none fs else pure false) else pure false)
  evaluate_groups (str s) =
      if contains "all" s || contains "any" s || contains "none" s
      then raise type_error
      else pure true
  evaluate_groups _ = raise type_error

  -- A bare list is an implicit `all`.
  unfoldable pub evaluate_conditions : Value → Action W Bool
  unfolding evaluate_groups
  evaluate_conditions (list vs) = evaluate_all_items vs
  evaluate_conditions conditions = evaluate_groups conditions

  unfoldable pub evaluate : Value → Option String → Value → State W → Bool × State W
  unfolding evaluate_conditions evaluate_context
  evaluate conditions current required s =
      if context_allows current required
      then caught (evaluate_conditions conditions s)
      else (false, s)
