-- ===== src/Conditions/Negation.antt =====
-- The negative operators of `_apply_operator` against the positive ones.
use qbt_rules.Prelude.{String, ◌≡◌, refl, Bool, true, false, arith}
use qbt_rules.Value.{Value, null, bool, num, str, list, dict, Items, nil, cons}
use qbt_rules.Conditions.{Result, Runtime}
use qbt_rules.Conditions.Operators.{
  apply_operator, all_items, any_item, scalar_operator, negate, is_negative, and_then, or_else,
}

-- The tests that have an operator each way.
pub data Test : Type 0 where
  equals member containing : Test

abbrev pub positive_op : Test → String
positive_op equals = "=="
positive_op member = "in"
positive_op containing = "contains"

abbrev pub negative_op : Test → String
negative_op equals = "!="
negative_op member = "not_in"
negative_op containing = "not_contains"

is_negative-positive_op : (t : Test) → is_negative (positive_op t) ≡ false
unfolding is_negative
is_negative-positive_op equals = refl
is_negative-positive_op _ = refl

is_negative-negative_op : (t : Test) → is_negative (negative_op t) ≡ true
unfolding is_negative
is_negative-negative_op equals = refl
is_negative-negative_op _ = refl

module _ (rt : Runtime) where
  scalar_negation :
      (t : Test) (v e : Value)
      → scalar_operator rt v (negative_op t) e ≡ negate (scalar_operator rt v (positive_op t) e)
  unfolding scalar_operator
  scalar_negation equals v e = refl
  scalar_negation _ v e = refl

  negate-or_else :
      (a b c d : Result Bool) → a ≡ negate c → b ≡ negate d → and_then a b ≡ negate (or_else c d)
  negate-or_else a b c d p q = ground arith

  mutual
    unfolding apply_operator

    negation_block :
        (v : Value) (t : Test) (e : Value)
        → apply_operator rt v (negative_op t) e ≡ negate (apply_operator rt v (positive_op t) e)
    negation_block null t e = rw (is_negative-negative_op t) (rw (is_negative-positive_op t))
    negation_block (bool b) t e = scalar_negation t (bool b) e
    negation_block (num n) t e = scalar_negation t (num n) e
    negation_block (str s) t e = scalar_negation t (str s) e
    negation_block (dict fs) t e = scalar_negation t (dict fs) e
    negation_block (list vs) t e =
        ground (arith, is_negative-negative_op t, is_negative-positive_op t, negation_items vs t e)

    negation_items :
        (vs : Items) (t : Test) (e : Value)
        → all_items rt vs (negative_op t) e ≡ negate (any_item rt vs (positive_op t) e)
    negation_items nil t e = refl
    negation_items (cons v vs) t e =
        negate-or_else (apply_operator rt v (negative_op t) e) (all_items rt vs (negative_op t) e)
          (apply_operator rt v (positive_op t) e) (any_item rt vs (positive_op t) e)
          (negation_block v t e) (negation_items vs t e)

  -- The operators !=, not_in and not_contains give the opposite of ==, in and contains on every
  -- value, on None, on empty lists and on lists nested to any depth, and raise where those raise.
  pub apply_operator-negation :
      (t : Test) (v e : Value)
      → apply_operator rt v (negative_op t) e ≡ negate (apply_operator rt v (positive_op t) e)
  apply_operator-negation t v e = negation_block v t e
