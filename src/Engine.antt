-- ===== src/Engine.antt =====
-- src/qbt_rules/engine.py, RulesEngine: the statistics of a run and its state. The torrents are the
-- dictionaries that the run shares and updates; `processed` is the set of hashes that a
-- stop_on_match rule has claimed.
pub mod Refresh
pub mod Run
pub mod Invariant
pub mod Counting
pub mod DryRun
pub mod Claims
pub mod Following
mod Tests
use qbt_rules.Prelude.{
  ℕ, suc, ◌+◌, String, Bool, true, false, Option, none, some, List, [], ◌∷◌, ◌++◌, str_eq, str_in,
  is_some, if◌then◌else◌,
}
use qbt_rules.Value.{Value, Fields}
use qbt_rules.Conditions.{Result, ok, err}
use qbt_rules.Actions.{Executor}

pub record RuleTotals : Type 0 where
  pub matched : ℕ
  pub actions_executed : ℕ
  pub actions_skipped : ℕ
  pub errors : ℕ

abbrev pub no_totals : RuleTotals
no_totals = record { matched = 0; actions_executed = 0; actions_skipped = 0; errors = 0 }

pub record RuleStats : Type 0 where
  pub total_torrents : ℕ
  pub processed : ℕ
  pub rules_matched : ℕ
  pub actions_executed : ℕ
  pub actions_skipped : ℕ
  pub errors : ℕ
  pub by_rule : List (String × RuleTotals)

abbrev pub new_stats : RuleStats
new_stats = record {
  total_torrents = 0;
  processed = 0;
  rules_matched = 0;
  actions_executed = 0;
  actions_skipped = 0;
  errors = 0;
  by_rule = [];
}

-- `by_rule.setdefault(rule_id, zeros)`
unfoldable pub set_default : String → List (String × RuleTotals) → List (String × RuleTotals)
set_default k [] = (k, no_totals) ∷ []
set_default k ((j, t) ∷ l) = if str_eq j k then (j, t) ∷ l else (j, t) ∷ set_default k l

-- An increment of `rule_totals`, the entry of `by_rule` that is there by then.
unfoldable pub bump :
    String → (RuleTotals → RuleTotals) → List (String × RuleTotals) → List (String × RuleTotals)
bump k f [] = (k, f no_totals) ∷ []
bump k f ((j, t) ∷ l) = if str_eq j k then (j, f t) ∷ l else (j, t) ∷ bump k f l

-- The increments of one rule's totals.
abbrev pub add_match : RuleTotals → RuleTotals
add_match t = record t { matched = t.matched + 1 }

abbrev pub add_executed : RuleTotals → RuleTotals
add_executed t = record t { actions_executed = t.actions_executed + 1 }

abbrev pub add_skipped : RuleTotals → RuleTotals
add_skipped t = record t { actions_skipped = t.actions_skipped + 1 }

abbrev pub add_error : RuleTotals → RuleTotals
add_error t = record t { errors = t.errors + 1 }

-- The four places that count, each in the aggregate and in the rule's totals.
unfoldable pub count_match : String → RuleStats → RuleStats
unfolding bump
count_match k s = record s {
  rules_matched = s.rules_matched + 1;
  by_rule = bump k add_match s.by_rule;
}

unfoldable pub count_executed : String → RuleStats → RuleStats
unfolding bump
count_executed k s = record s {
  actions_executed = s.actions_executed + 1;
  by_rule = bump k add_executed s.by_rule;
}

unfoldable pub count_skipped : String → RuleStats → RuleStats
unfolding bump
count_skipped k s = record s {
  actions_skipped = s.actions_skipped + 1;
  by_rule = bump k add_skipped s.by_rule;
}

unfoldable pub count_error : String → RuleStats → RuleStats
unfolding bump
count_error k s = record s { errors = s.errors + 1; by_rule = bump k add_error s.by_rule }

pub record Engine (W : Type 0) : Type 0 where
  pub executor : Executor W
  pub stats : RuleStats
  pub processed : List String

-- `processed_torrents.add(hash)`
unfoldable pub add_to_set : String → List String → List String
add_to_set k ks = if str_in k ks then ks else ks ++ k ∷ []

abbrev pub Running : Type 0 → Type 0 → Type 0
Running W A = Engine W → Result A × Engine W

-- An exception ends the run; the engine keeps what was done before it.
unfoldable pub proceed :
    {W A B : Type 0} → (A → Running W B) → Result A × Engine W → Result B × Engine W
proceed f (ok a, g) = f a g
proceed f (err e, g) = (err e, g)
