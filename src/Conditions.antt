-- ===== src/Conditions.antt =====
-- src/qbt_rules/engine.py, ConditionEvaluator: what a condition's evaluation may raise, and what it takes
-- from Python's library. A call that changes the evaluator's caches is an `Action`, whose state survives
-- an exception.
pub mod Operators
pub mod Negation
pub mod State
pub mod Lookup
pub mod Evaluate
pub mod Snapshot
pub mod Caching
pub mod Transparency
pub mod Missing
mod Tests
use qbt_rules.Prelude.{
  ℕ, String, ◌≡◌, ◌⊎◌, refl, Bool, true, false, Option, none, some, List, [], ◌∷◌, if◌then◌else◌,
}
use qbt_rules.Prelude.Int.{ℤ, pos}
use qbt_rules.Value.{Value, null, bool, num, str, list, dict, Number, Items, Fields}

-- src/qbt_rules/errors.py and Python's own exceptions. `evaluate` tells only the first from the others.
pub data Exc : Type 0 where
  data_not_ready : String → String → Exc
  field_error operator_error type_error value_error key_error regex_error api_error overflow_error :
      Exc

pub data Result {ℓ} (A : Type ℓ) : Type ℓ where
  ok : A → Result A
  err : Exc → Result A

-- Python's library, as far as it is used and not written out: `str` of a value that is no text,
-- `float` and `int` of a text (`none` is a ValueError), `float` of an int, which rounds (`none` is an
-- OverflowError), `re.search` (`none` is a re.error),
-- `int(float(t) * m)`, over 8 for bits, and time.time() in microseconds.
pub record Runtime : Type 0 where
  pub repr : Value → String
  pub parse_float : String → Option Number
  pub float_of_int : ℤ → Option Number
  pub parse_int : String → Option ℤ
  pub search : String → String → Option Bool
  pub float_bytes : List ℕ → ℕ → Bool → ℕ
  pub now : ℕ
