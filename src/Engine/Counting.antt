-- ===== src/Engine/Counting.antt =====
-- The counters of RulesEngine.run (src/qbt_rules/engine.py): those of the run and those of its rules.
use qbt_rules.Prelude.{
  ℕ, ◌+◌, String, ◌≡◌, refl, sym, subst, ◌∙◌, Bool, true, false, Option, List, [], ◌∷◌, arith,
}
use qbt_rules.Value.{Fields}
use qbt_rules.Conditions.{Result, ok, err, Runtime}
use qbt_rules.Api.{Api}
use qbt_rules.Actions.{Services}
use qbt_rules.Actions.Execute.{execute}
use qbt_rules.Engine.{
  RuleTotals, no_totals, RuleStats, new_stats, Engine, set_default, bump, count_match,
  count_executed, count_skipped, count_error, add_match, add_executed, add_skipped, add_error,
}
use qbt_rules.Engine.Refresh.{state_of, tag_set}
use qbt_rules.Engine.Run.{rule_id, absorb, claim, refresh, after_action, process_action, run}
use qbt_rules.Engine.Invariant.{Kept, run-keeps}

-- One counter, summed over the rules.
unfoldable pub sum_of : (RuleTotals → ℕ) → List (String × RuleTotals) → ℕ
sum_of p [] = 0
sum_of p ((k, t) ∷ l) = p t + sum_of p l

sum_of-bump :
    (p : RuleTotals → ℕ) (d : ℕ) (k : String) (f : RuleTotals → RuleTotals)
    (l : List (String × RuleTotals))
    → ((t : RuleTotals) → p (f t) ≡ p t + d)
    → p no_totals ≡ 0
    → sum_of p (bump k f l) ≡ sum_of p l + d
unfolding sum_of bump
sum_of-bump p d k f [] step zero = omega (arith, step no_totals)
sum_of-bump p d k f ((j, t) ∷ l) step zero =
    let rest = sum_of-bump p d k f l step zero in ground (arith, step t, rest)

sum_of-set_default :
    (p : RuleTotals → ℕ) (k : String) (l : List (String × RuleTotals))
    → p no_totals ≡ 0
    → sum_of p (set_default k l) ≡ sum_of p l
unfolding sum_of set_default
sum_of-set_default p k [] zero = omega arith
sum_of-set_default p k ((j, t) ∷ l) zero =
    let rest = sum_of-set_default p k l zero in ground (arith, rest)

-- The counters of the run are the sums of the rules' counters.
pub record Tallied (s : RuleStats) : Type 0 where
  pub matched : sum_of (λ t. t.matched) s.by_rule ≡ s.rules_matched
  pub executed : sum_of (λ t. t.actions_executed) s.by_rule ≡ s.actions_executed
  pub skipped : sum_of (λ t. t.actions_skipped) s.by_rule ≡ s.actions_skipped
  pub errors : sum_of (λ t. t.errors) s.by_rule ≡ s.errors

pub Tallied-new_stats : Tallied new_stats
unfolding sum_of
Tallied-new_stats = record { matched = refl; executed = refl; skipped = refl; errors = refl }

sum_of-same :
    (p : RuleTotals → ℕ) (k : String) (f : RuleTotals → RuleTotals) (l : List (String × RuleTotals))
    {n : ℕ}
    → ((t : RuleTotals) → p (f t) ≡ p t)
    → p no_totals ≡ 0
    → sum_of p l ≡ n
    → sum_of p (bump k f l) ≡ n
sum_of-same p k f l step zero e =
    let rest = sum_of-bump p 0 k f l (λ t. omega (arith, step t)) zero in omega arith

sum_of-more :
    (p : RuleTotals → ℕ) (k : String) (f : RuleTotals → RuleTotals) (l : List (String × RuleTotals))
    {n : ℕ}
    → ((t : RuleTotals) → p (f t) ≡ p t + 1)
    → p no_totals ≡ 0
    → sum_of p l ≡ n
    → sum_of p (bump k f l) ≡ n + 1
sum_of-more p k f l step zero e = let rest = sum_of-bump p 1 k f l step zero in omega arith

Tallied-count_match : (k : String) (s : RuleStats) → Tallied s → Tallied (count_match k s)
unfolding count_match
Tallied-count_match k s i = record {
  matched = sum_of-more (λ t. t.matched) k add_match s.by_rule (λ t. refl) refl i.matched;
  executed =
      sum_of-same (λ t. t.actions_executed) k add_match s.by_rule (λ t. refl) refl i.executed;
  skipped = sum_of-same (λ t. t.actions_skipped) k add_match s.by_rule (λ t. refl) refl i.skipped;
  errors = sum_of-same (λ t. t.errors) k add_match s.by_rule (λ t. refl) refl i.errors;
}

Tallied-count_executed : (k : String) (s : RuleStats) → Tallied s → Tallied (count_executed k s)
unfolding count_executed
Tallied-count_executed k s i = record {
  matched = sum_of-same (λ t. t.matched) k add_executed s.by_rule (λ t. refl) refl i.matched;
  executed =
      sum_of-more (λ t. t.actions_executed) k add_executed s.by_rule (λ t. refl) refl i.executed;
  skipped =
      sum_of-same (λ t. t.actions_skipped) k add_executed s.by_rule (λ t. refl) refl i.skipped;
  errors = sum_of-same (λ t. t.errors) k add_executed s.by_rule (λ t. refl) refl i.errors;
}

Tallied-count_skipped : (k : String) (s : RuleStats) → Tallied s → Tallied (count_skipped k s)
unfolding count_skipped
Tallied-count_skipped k s i = record {
  matched = sum_of-same (λ t. t.matched) k add_skipped s.by_rule (λ t. refl) refl i.matched;
  executed =
      sum_of-same (λ t. t.actions_executed) k add_skipped s.by_rule (λ t. refl) refl i.executed;
  skipped = sum_of-more (λ t. t.actions_skipped) k add_skipped s.by_rule (λ t. refl) refl i.skipped;
  errors = sum_of-same (λ t. t.errors) k add_skipped s.by_rule (λ t. refl) refl i.errors;
}

Tallied-count_error : (k : String) (s : RuleStats) → Tallied s → Tallied (count_error k s)
unfolding count_error
Tallied-count_error k s i = record {
  matched = sum_of-same (λ t. t.matched) k add_error s.by_rule (λ t. refl) refl i.matched;
  executed =
      sum_of-same (λ t. t.actions_executed) k add_error s.by_rule (λ t. refl) refl i.executed;
  skipped = sum_of-same (λ t. t.actions_skipped) k add_error s.by_rule (λ t. refl) refl i.skipped;
  errors = sum_of-more (λ t. t.errors) k add_error s.by_rule (λ t. refl) refl i.errors;
}

Tallied-start :
    (k : String) (s : RuleStats)
    → Tallied s
    → Tallied (record s { by_rule = set_default k s.by_rule })
Tallied-start k s i = record {
  matched = sum_of-set_default (λ t. t.matched) k s.by_rule refl ∙ i.matched;
  executed = sum_of-set_default (λ t. t.actions_executed) k s.by_rule refl ∙ i.executed;
  skipped = sum_of-set_default (λ t. t.actions_skipped) k s.by_rule refl ∙ i.skipped;
  errors = sum_of-set_default (λ t. t.errors) k s.by_rule refl ∙ i.errors;
}

Tallied-claim :
    {W : Type 0} (stop : Bool) (torrent : Fields) (g : Engine W)
    → Tallied g.stats
    → Tallied ((claim stop torrent g).stats)
Tallied-claim false torrent g i = i
Tallied-claim true torrent g i = i

module _ {W : Type 0} where
  stats-absorb :
      (pre : Option String) (tags : List String) (torrent : Fields) (g : Engine W)
      (m : Result (Option Fields) × W)
      → (absorb pre tags torrent g m).1.stats ≡ g.stats
  stats-absorb pre tags torrent g (ok found, w) = refl
  stats-absorb pre tags torrent g (err e, w) = refl

module _ {W : Type 0} (rt : Runtime) (api : Api W) (services : Services W) (dry_run : Bool) where
  Tallied-after_action :
      (k : String) (torrent : Fields) (g : Engine W) (r : Result (Bool × Bool))
      → Tallied g.stats
      → Tallied ((after_action rt api services dry_run k torrent g r).1.stats)
  unfolding refresh
  Tallied-after_action k torrent g (err e) i = i
  Tallied-after_action k torrent g (ok (false, skipped)) i = Tallied-count_error k g.stats i
  Tallied-after_action k torrent g (ok (true, true)) i = Tallied-count_skipped k g.stats i
  Tallied-after_action k torrent g (ok (true, false)) i =
      subst (λ (s : RuleStats). Tallied s)
        (sym (
          stats-absorb (state_of torrent) (tag_set torrent) torrent
            (record g { stats = count_executed k g.stats }) _))
        (Tallied-count_executed k g.stats i)

  Kept-Tallied : Kept rt api services dry_run (λ g. Tallied g.stats)
  unfolding process_action
  Kept-Tallied = record {
    acted = λ k torrent action g i.
        Tallied-after_action k torrent
          (record g { executor = (execute rt api services dry_run torrent action g.executor).1 })
          ((execute rt api services dry_run torrent action g.executor).0) i;
    looked = λ g s i. i;
    counted = λ k g i. Tallied-count_match k g.stats i;
    claimed = λ stop torrent g i. Tallied-claim stop torrent g i;
    started = λ rule g i. Tallied-start (rule_id rule) g.stats i;
  }

  -- If the counters of the run are the sums of the counters of the rules before a run, they are
  -- after it, even if the run raised.
  pub run-Tallied :
      (context torrent_hash : Option String) (rules : List Fields) (g : Engine W)
      → Tallied g.stats
      → Tallied ((run rt api services dry_run context torrent_hash rules g).1.stats)
  run-Tallied context torrent_hash rules g i =
      (run-keeps rt api services dry_run (λ g. Tallied g.stats) Kept-Tallied context torrent_hash
        rules g (λ st w g i. i)
        (λ n m g i. record {
          matched = i.matched;
          executed = i.executed;
          skipped = i.skipped;
          errors = i.errors;
        })
        i).holds
