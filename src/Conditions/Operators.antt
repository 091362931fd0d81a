-- ===== src/Conditions/Operators.antt =====
-- `_apply_operator` of src/qbt_rules/engine.py.
use qbt_rules.Prelude.{
  String, Bool, true, false, ◌||◌, Option, none, some, not, if◌then◌else◌, str_eq, any,
}
use qbt_rules.Prelude.Int.{ℤ, pos}
use qbt_rules.Value.{
  Value, null, bool, num, str, list, Items, nil, cons, Number, int, to_list, py_eq, num_lt, num_le,
  truncate_ℤ,
}
use qbt_rules.Utils.{contains}
use qbt_rules.Utils.Sizes.{is_larger_than, is_smaller_than, is_older_than, is_newer_than}
use qbt_rules.Conditions.{
  overflow_error, operator_error, type_error, value_error, regex_error, Result, ok, err, Runtime,
}

-- `operator in ["!=", "not_in", "not_contains"]`
unfoldable pub is_negative : String → Bool
is_negative op = str_eq op "!=" || str_eq op "not_in" || str_eq op "not_contains"

-- `float(actual)` comes first, and what the comparison catches there hides `float(expected)`.
abbrev pub compare_floats :
    (Number → Number → Bool) → Result (Option Number) → Result (Option Number) → Result Bool
compare_floats test (err e) expected = err e
compare_floats test (ok none) expected = ok false
compare_floats test (ok (some a)) (err e) = err e
compare_floats test (ok (some a)) (ok none) = ok false
compare_floats test (ok (some a)) (ok (some b)) = ok (test a b)

abbrev pub or_overflow : Option Number → Result (Option Number)
or_overflow none = err overflow_error
or_overflow (some x) = ok (some x)

abbrev pub negate : Result Bool → Result Bool
negate (ok b) = ok (not b)
negate (err e) = err e

abbrev pub is_empty : Items → Bool
is_empty nil = true
is_empty (cons v vs) = false

abbrev pub and_then : Result Bool → Result Bool → Result Bool
and_then (ok true) r = r
and_then (ok false) r = ok false
and_then (err e) r = err e

abbrev pub or_else : Result Bool → Result Bool → Result Bool
or_else (ok true) r = ok true
or_else (ok false) r = r
or_else (err e) r = err e

module _ (rt : Runtime) where
  abbrev pub to_str : Value → String
  to_str (str s) = s
  to_str v = rt.repr v

  -- `float(v)`; `ok none` is the ValueError or TypeError that the comparison catches, and an
  -- OverflowError passes
  abbrev pub to_float : Value → Result (Option Number)
  to_float (num n) = if n.is_int then or_overflow (rt.float_of_int n.mantissa) else ok (some n)
  to_float (bool true) = ok (some (int (pos 1)))
  to_float (bool false) = ok (some (int (pos 0)))
  to_float (str s) = ok (rt.parse_float s)
  to_float _ = ok none

  -- `int(v)`
  abbrev pub to_int : Value → Result ℤ
  to_int (num n) = ok (truncate_ℤ n.mantissa n.scale)
  to_int (bool true) = ok (pos 1)
  to_int (bool false) = ok (pos 0)
  to_int (str s) = elim (rt.parse_int s) [ none ↦ err value_error | some z ↦ ok z ]
  to_int _ = err type_error

  -- `expected in str(actual)`, or any of a list of expected texts
  unfoldable pub contains_value : Value → Value → Result Bool
  contains_value actual (list items) =
      ok (any (λ item. contains (to_str item) (to_str actual)) (to_list items))
  contains_value actual (str s) = ok (contains s (to_str actual))
  contains_value actual _ = err type_error

  -- `actual in expected` of a list, `actual == expected` of anything else
  unfoldable pub is_in : Value → Value → Bool
  is_in actual (list items) = any (py_eq actual) (to_list items)
  is_in actual expected = py_eq actual expected

  abbrev pub on_int : Value → (ℤ → Bool) → Result Bool
  on_int v test = elim (to_int v) [ ok z ↦ ok (test z) | err e ↦ err e ]

  -- The operators on a value that is neither None nor a list.
  unfoldable pub scalar_operator : Value → String → Value → Result Bool
  unfolding contains_value is_in
  scalar_operator actual op expected =
      if str_eq op "=="
      then ok (py_eq actual expected)
      else if str_eq op "!="
      then ok (not (py_eq actual expected))
      else if str_eq op "contains"
      then contains_value actual expected
      else if str_eq op "not_contains"
      then negate (contains_value actual expected)
      else if str_eq op "matches"
      then (elim (rt.search (to_str expected) (to_str actual)) [
        | none ↦ err regex_error
        | some found ↦ ok found
      ])
      else if str_eq op "in"
      then ok (is_in actual expected)
      else if str_eq op "not_in"
      then ok (not (is_in actual expected))
      else if str_eq op ">"
      then compare_floats (λ a b. num_lt b a) (to_float actual) (to_float expected)
      else if str_eq op "<"
      then compare_floats num_lt (to_float actual) (to_float expected)
      else if str_eq op ">="
      then compare_floats (λ a b. num_le b a) (to_float actual) (to_float expected)
      else if str_eq op "<="
      then compare_floats num_le (to_float actual) (to_float expected)
      else if str_eq op "smaller_than"
      then on_int actual (λ z. is_smaller_than rt.float_bytes z (to_str expected))
      else if str_eq op "larger_than"
      then on_int actual (λ z. is_larger_than rt.float_bytes z (to_str expected))
      else if str_eq op "older_than"
      then on_int actual (λ z. is_older_than rt.now z (to_str expected))
      else if str_eq op "newer_than"
      then on_int actual (λ z. is_newer_than rt.now z (to_str expected))
      else err operator_error

  -- A list passes a negative operator if all its items do, any other operator if one item does.
  unfoldable mutual
    pub apply_operator : Value → String → Value → Result Bool
    apply_operator null op expected = ok (is_negative op)
    apply_operator (list vs) op expected =
        if is_empty vs
        then ok (is_negative op)
        else if is_negative op
        then all_items vs op expected
        else any_item vs op expected
    apply_operator v op expected = scalar_operator v op expected

    pub all_items : Items → String → Value → Result Bool
    all_items nil op expected = ok true
    all_items (cons v vs) op expected =
        and_then (apply_operator v op expected) (all_items vs op expected)

    pub any_item : Items → String → Value → Result Bool
    any_item nil op expected = ok false
    any_item (cons v vs) op expected =
        or_else (apply_operator v op expected) (any_item vs op expected)
