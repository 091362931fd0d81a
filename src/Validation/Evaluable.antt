-- ===== src/Validation/Evaluable.antt =====
-- Conditions that the evaluator (src/qbt_rules/engine.py) can evaluate without a missing key or an unknown
-- operator.
use qbt_rules.Prelude.{
  String, ◌≡◌, refl, Bool, true, false, ◌&&◌, Option, some, str_eq, is_some, if◌then◌else◌, arith,
}
use qbt_rules.Value.{Value, str, list, dict, Items, nil, cons, Fields, end, field, get, has_key}
use qbt_rules.Conditions.Evaluate.{has_group}
use qbt_rules.Validation.Conditions.{kind_of}

unfoldable pub operator_ok : Option Value → Bool
unfolding kind_of
operator_ok (some (str s)) = is_some (kind_of (str s))
operator_ok _ = false

abbrev pub leaf_ok : Fields → Bool
leaf_ok fs = has_key "field" fs && operator_ok (get "operator" fs) && has_key "value" fs

-- Every condition in it is a mapping with a list for each group, or with a field, a known
-- operator and a value; or a reference, where these are allowed.
unfoldable mutual
  pub evaluable : Bool → Value → Bool
  evaluable refs (dict fs) =
      if has_key "$ref" fs
      then refs
      else if has_group fs
      then group_evaluable refs "all" fs
        && group_evaluable refs "any" fs
        && group_evaluable refs "none" fs
      else leaf_ok fs
  evaluable refs _ = false

  pub group_evaluable : Bool → String → Fields → Bool
  group_evaluable refs name end = true
  group_evaluable refs name (field k v fs) =
      if str_eq k name then list_evaluable refs v else group_evaluable refs name fs

  pub list_evaluable : Bool → Value → Bool
  list_evaluable refs (list vs) = items_evaluable refs vs
  list_evaluable refs _ = false

  pub items_evaluable : Bool → Items → Bool
  items_evaluable refs nil = true
  items_evaluable refs (cons v vs) = evaluable refs v && items_evaluable refs vs

-- The value of a rule's `conditions`, and a named block.
abbrev pub top_evaluable : Bool → Value → Bool
top_evaluable refs (list vs) = items_evaluable refs vs
top_evaluable refs (dict fs) =
    if has_key "$ref" fs
    then refs
    else group_evaluable refs "all" fs
      && group_evaluable refs "any" fs
      && group_evaluable refs "none" fs
top_evaluable refs v = false

abbrev pub block_evaluable : Bool → Value → Bool
block_evaluable refs (list vs) = items_evaluable refs vs
block_evaluable refs v = evaluable refs v

abbrev pub blocks_evaluable : Fields → Bool
blocks_evaluable end = true
blocks_evaluable (field k v fs) = block_evaluable true v && blocks_evaluable fs

pub both_true : (a b : Bool) → a ≡ true → b ≡ true → a && b ≡ true
both_true true true p q = refl
both_true true false p q = q
both_true false b p q = p

pub left_true : (a b : Bool) → a && b ≡ true → a ≡ true
left_true true b h = refl
left_true false b h = h

pub right_true : (a b : Bool) → a && b ≡ true → b ≡ true
right_true true b h = h
right_true false b h = ground (arith, h)
