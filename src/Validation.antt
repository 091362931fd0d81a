-- ===== src/Validation.antt =====
-- src/qbt_rules/rules_validation.py: the issues of a rules file. A message is a constructor; the positions
-- in the text, which come from the YAML library's nodes, are left out.
pub mod Structure
pub mod Values
pub mod Conditions
pub mod Actions
pub mod Linter
pub mod Evaluable
pub mod Reports
pub mod Accepted
pub mod Operators
pub mod Leaves
pub mod Evaluated
pub mod Carried
pub mod Expanded
pub mod Substituted
pub mod Rules
pub mod Resolved
pub mod Sound
pub mod Ids
pub mod Resolves
mod Tests
use qbt_rules.Prelude.{ℕ, String, Bool, true, false, ◌&&◌, List, [], ◌∷◌, ◌++◌, all}
use qbt_rules.Conditions.{Result, ok, err}

pub data Severity : Type 0 where
  error warning info : Severity

pub data Part : Type 0 where
  key : String → Part
  index : ℕ → Part

abbrev pub Place : Type 0
Place = List Part

infixl 60 ◌/:◌
abbrev pub ◌/:◌ : Place → Part → Place
path /: part = path ++ part ∷ []

pub data Problem : Type 0 where
  not_a_mapping not_a_list missing_id invalid_id duplicate_id : Problem
  missing_field missing_keys ignored_key beside_ref unknown_key unused : String → Problem
  invalid_context matches_nothing matches_everything no_group several_groups : Problem
  invalid_conditions invalid_condition empty_group : Problem
  invalid_field unknown_namespace unknown_tracker_field unknown_operator : Problem
  runtime_token not_number not_duration not_size means_bits invalid_regex not_text : Problem
  false_text not_bool not_whole not_choice : Problem
  no_actions no_type unknown_action ignored_keep invalid_service no_message no_url : Problem

pub record Issue : Type 0 where
  pub severity : Severity
  pub problem : Problem
  pub path : Place
  pub on_key : Bool

-- The linter's issues so far, or the exception that ends it.
abbrev pub Report : Type 0
Report = Result (List Issue)

abbrev pub clean : Report
clean = ok []

-- `self.add(severity, message, path)`
abbrev pub add : Severity → Problem → Place → Report
add s p path = ok (record { severity = s; problem = p; path = path; on_key = false } ∷ [])

abbrev pub add_on_key : Severity → Problem → Place → Report
add_on_key s p path = ok (record { severity = s; problem = p; path = path; on_key = true } ∷ [])

-- One check after the other.
infixr 6 ◌<+>◌
unfoldable pub ◌<+>◌ : Report → Report → Report
ok a <+> ok b = ok (a ++ b)
ok a <+> err e = err e
err e <+> r = err e

abbrev pub not_error : Issue → Bool
not_error i = elim i.severity [ error ↦ false | warning ↦ true | info ↦ true ]

-- `counts[ERROR] == 0`
unfoldable pub no_errors : Report → Bool
no_errors (ok issues) = all not_error issues
no_errors (err e) = false
