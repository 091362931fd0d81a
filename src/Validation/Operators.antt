-- ===== src/Validation/Operators.antt =====
-- The operators of src/qbt_rules/schema.py in the evaluator (src/qbt_rules/engine.py): what they may raise.
use qbt_rules.Prelude.{
  String, ◌≡◌, refl, subst, Bool, true, false, Option, none, some, List, [], ◌∷◌, str_eq, eq_iff,
  is_some, Bool-cases, inl, inr, if◌then◌else◌, arith,
}
use qbt_rules.Prelude.Int.{ℤ}
use qbt_rules.Value.{Number, Value, null, bool, num, str, list, dict, Items, nil, cons}
use qbt_rules.Conditions.{
  Exc, data_not_ready, field_error, operator_error, type_error, value_error, key_error, regex_error,
  api_error, overflow_error, Result, ok, err, Runtime,
}
use qbt_rules.Conditions.State.{cached}
use qbt_rules.Conditions.Operators.{
  apply_operator, all_items, any_item, scalar_operator, is_negative, contains_value, on_int, negate,
  to_float, or_overflow, compare_floats, and_then, or_else, is_empty,
}
use qbt_rules.Conditions.Evaluate.{operator_text}
use qbt_rules.Schema.{operators, Kind}
use qbt_rules.Validation.Conditions.{kind_of}
use qbt_rules.Validation.Evaluable.{operator_ok}

-- Neither a missing key nor an unknown operator.
abbrev pub is_benign : Exc → Bool
is_benign key_error = false
is_benign operator_error = false
is_benign (data_not_ready path hash) = true
is_benign field_error = true
is_benign type_error = true
is_benign value_error = true
is_benign regex_error = true
is_benign api_error = true
is_benign overflow_error = true

abbrev pub benign {ℓ} : {A : Type ℓ} → Result A → Bool
benign (ok a) = true
benign (err e) = is_benign e

abbrev pub AllKeys : (P : String → Type 0) → List (String × Kind) → Type 0
AllKeys P [] = Unit
AllKeys P ((k, v) ∷ l) = P k × AllKeys P l

-- A key of a table is one of its keys.
pub known_key :
    (P : String → Type 0) (s : String) (l : List (String × Kind))
    → AllKeys P l
    → is_some (cached s l) ≡ true
    → P s
unfolding cached
known_key P s [] a h = ground (arith, h)
known_key P s ((k, v) ∷ l) (p, a) h = elim (Bool-cases (str_eq k s)) [
  | inl e ↦ subst P ((eq_iff k s).0 e) p
  | inr e ↦ known_key P s l a (rw e at h)
]

module _ (rt : Runtime) where
  on_int-benign : (v : Value) (test : ℤ → Bool) → benign (on_int rt v test) ≡ true
  on_int-benign (str s) test = ground arith
  on_int-benign null test = refl
  on_int-benign (bool true) test = refl
  on_int-benign (bool false) test = refl
  on_int-benign (num n) test = refl
  on_int-benign (list vs) test = refl
  on_int-benign (dict fs) test = refl

  contains-benign : (actual expected : Value) → benign (contains_value rt actual expected) ≡ true
  unfolding contains_value
  contains-benign actual (str s) = refl
  contains-benign actual null = refl
  contains-benign actual (bool b) = refl
  contains-benign actual (num n) = refl
  contains-benign actual (list vs) = refl
  contains-benign actual (dict fs) = refl

  negate-benign : (r : Result Bool) → benign r ≡ true → benign (negate r) ≡ true
  negate-benign (ok b) h = refl
  negate-benign (err e) h = h

  search-benign :
      (o : Option Bool)
      → benign {A = Bool} (elim o [ none ↦ err regex_error | some found ↦ ok found ]) ≡ true
  search-benign none = refl
  search-benign (some b) = refl

  overflow-benign : (o : Option Number) → benign (or_overflow o) ≡ true
  overflow-benign none = refl
  overflow-benign (some x) = refl

  float-benign : (v : Value) → benign (to_float rt v) ≡ true
  float-benign (num n) = elim (Bool-cases n.is_int) [
    | inl e ↦ rw e (overflow-benign (rt.float_of_int n.mantissa))
    | inr e ↦ rw e
  ]
  float-benign (bool true) = refl
  float-benign (bool false) = refl
  float-benign (str s) = refl
  float-benign null = refl
  float-benign (list vs) = refl
  float-benign (dict fs) = refl

  compare-benign :
      (test : Number → Number → Bool) (a b : Result (Option Number))
      → benign a ≡ true
      → benign b ≡ true
      → benign (compare_floats test a b) ≡ true
  compare-benign test (err e) b h k = h
  compare-benign test (ok none) b h k = refl
  compare-benign test (ok (some x)) (err e) h k = k
  compare-benign test (ok (some x)) (ok none) h k = refl
  compare-benign test (ok (some x)) (ok (some y)) h k = refl

  number-benign :
      (test : Number → Number → Bool) (actual expected : Value)
      → benign (compare_floats test (to_float rt actual) (to_float rt expected)) ≡ true
  number-benign test actual expected =
      compare-benign test _ _ (float-benign actual) (float-benign expected)

  abbrev pub Benign : String → Type 0
  Benign op = (actual expected : Value) → benign (scalar_operator rt actual op expected) ≡ true

  scalar-Benign : AllKeys Benign operators
  unfolding scalar_operator
  scalar-Benign = (
    λ actual expected. refl,
    (
      λ actual expected. refl,
      (
        λ actual expected. contains-benign actual expected,
        (
          λ actual expected.
              negate-benign (contains_value rt actual expected) (contains-benign actual expected),
          (
            λ actual expected. search-benign _,
            (
              λ actual expected. refl,
              (
                λ actual expected. refl,
                (
                  number-benign _,
                  (
                    number-benign _,
                    (
                      number-benign _,
                      (
                        number-benign _,
                        (
                          λ actual expected. on_int-benign actual _,
                          (
                            λ actual expected. on_int-benign actual _,
                            (
                              λ actual expected. on_int-benign actual _,
                              (λ actual expected. on_int-benign actual _, tt),
                            ),
                          ),
                        ),
                      ),
                    ),
                  ),
                ),
              ),
            ),
          ),
        ),
      ),
    ),
  )

  pub known_operator : (op : Value) → operator_ok (some op) ≡ true → Benign (operator_text op)
  unfolding operator_ok kind_of
  known_operator (str s) h = known_key Benign s operators scalar-Benign h
  known_operator null h = ground (arith, h)
  known_operator (bool b) h = ground (arith, h)
  known_operator (num n) h = ground (arith, h)
  known_operator (list vs) h = ground (arith, h)
  known_operator (dict fs) h = ground (arith, h)

  and_then-benign :
      (r s : Result Bool) → benign r ≡ true → benign s ≡ true → benign (and_then r s) ≡ true
  and_then-benign (ok true) s p q = q
  and_then-benign (ok false) s p q = refl
  and_then-benign (err e) s p q = p

  or_else-benign :
      (r s : Result Bool) → benign r ≡ true → benign s ≡ true → benign (or_else r s) ≡ true
  or_else-benign (ok true) s p q = refl
  or_else-benign (ok false) s p q = q
  or_else-benign (err e) s p q = p

  pub if-benign :
      (b : Bool) (r s : Result Bool)
      → benign r ≡ true
      → benign s ≡ true
      → benign (if b then r else s) ≡ true
  if-benign true r s p q = p
  if-benign false r s p q = q

  module _ (op : String) (known : Benign op) where
    mutual
      unfolding apply_operator

      pub apply-benign : (v expected : Value) → benign (apply_operator rt v op expected) ≡ true
      apply-benign null expected = refl
      apply-benign (list vs) expected = if-benign (is_empty vs) (ok (is_negative op)) _ refl (
          if-benign (is_negative op) (all_items rt vs op expected) (any_item rt vs op expected)
            (all_items-benign vs expected) (any_item-benign vs expected))
      apply-benign (bool b) expected = known (bool b) expected
      apply-benign (num n) expected = known (num n) expected
      apply-benign (str s) expected = known (str s) expected
      apply-benign (dict fs) expected = known (dict fs) expected

      all_items-benign :
          (vs : Items) (expected : Value) → benign (all_items rt vs op expected) ≡ true
      all_items-benign nil expected = refl
      all_items-benign (cons v vs) expected =
          and_then-benign (apply_operator rt v op expected) (all_items rt vs op expected)
            (apply-benign v expected) (all_items-benign vs expected)

      any_item-benign : (vs : Items) (expected : Value) → benign (any_item rt vs op expected) ≡ true
      any_item-benign nil expected = refl
      any_item-benign (cons v vs) expected =
          or_else-benign (apply_operator rt v op expected) (any_item rt vs op expected)
            (apply-benign v expected) (any_item-benign vs expected)
