-- ===== src/Engine/Tests.antt =====
-- Runs of the rules engine (src/qbt_rules/engine.py) on a small server.
use qbt_rules.Prelude.{◌≡◌, refl, true, false, none, List, [], ◌∷◌}
use qbt_rules.Value.{Fields}
use qbt_rules.Api.{start_torrents}
use qbt_rules.Engine.{new_stats, Engine}
use qbt_rules.Prelude.Int.{pos}
use qbt_rules.Prelude.{count_if}
use qbt_rules.Conditions.State.{count_of}
use qbt_rules.Engine.Refresh.{snapshot_stats, follow_update, follow_delete, state_of}
use qbt_rules.Engine.Following.{
  in_state, snapshot_stats_state, follow_update_state, follow_delete_state,
}
use qbt_rules.Engine.Run.{run, process_rules}
use qbt_rules.Engine.Counting.{Tallied, Tallied-new_stats, run-Tallied}
use qbt_rules.Engine.DryRun.{run_dry_run_sends_nothing}
use qbt_rules.Engine.Claims.{AllPassed, none_left, passed, Idled, process_rules_passed}
use qbt_rules.Examples.{
  runtime, server, services, stopped_torrent, paused_torrent, start_rule_of, first_engine,
  first_executor, Server,
}

abbrev two_rules : List Fields
two_rules = start_rule_of "pausedDL" ∷ start_rule_of "stoppedUP" ∷ []

-- Each torrent is matched by one rule; only the paused one is started.
started_one :
    (run runtime server services false none none two_rules first_engine).1.executor.sent
    ≡ start_torrents "bb" ∷ []
unfolding run qbt_rules.Engine.proceed qbt_rules.Value.get qbt_rules.Value.truthy
    qbt_rules.Conditions.Evaluate.evaluate qbt_rules.Conditions.Evaluate.evaluate_all_items
    qbt_rules.Conditions.Evaluate.evaluate_leaf qbt_rules.Conditions.Lookup.get_field_value
    qbt_rules.Conditions.Operators.apply_operator qbt_rules.Conditions.Operators.scalar_operator
    qbt_rules.Value.py_eq qbt_rules.Actions.Execute.execute
    qbt_rules.Actions.Idempotency.should_skip_idempotent qbt_rules.Utils.is_infix
    qbt_rules.Engine.add_to_set qbt_rules.Value.update
started_one = refl

claimed_both :
    (run runtime server services false none none two_rules first_engine).1.stats.processed ≡ 2
unfolding run qbt_rules.Engine.proceed qbt_rules.Value.get qbt_rules.Value.truthy
    qbt_rules.Conditions.Evaluate.evaluate qbt_rules.Conditions.Evaluate.evaluate_all_items
    qbt_rules.Conditions.Evaluate.evaluate_leaf qbt_rules.Conditions.Lookup.get_field_value
    qbt_rules.Conditions.Operators.apply_operator qbt_rules.Conditions.Operators.scalar_operator
    qbt_rules.Value.py_eq qbt_rules.Actions.Execute.execute
    qbt_rules.Actions.Idempotency.should_skip_idempotent qbt_rules.Utils.is_infix
    qbt_rules.Engine.add_to_set qbt_rules.Value.update
claimed_both = refl

run-Tallied_example :
    Tallied ((run runtime server services false none none two_rules first_engine).1.stats)
run-Tallied_example =
    run-Tallied runtime server services false none none two_rules first_engine Tallied-new_stats

run_dry_run_sends_nothing_example :
    ((run runtime server services true none none two_rules first_engine).1.executor.sent ≡ [])
    × ((run runtime server services true none none two_rules first_engine).1.stats.actions_executed
        ≡ 0)
run_dry_run_sends_nothing_example =
    run_dry_run_sends_nothing runtime server services none none two_rules first_engine

abbrev claimed_engine : Engine Server
claimed_engine = record {
  executor = first_executor;
  stats = new_stats;
  processed = "aa" ∷ "bb" ∷ [];
}

both_passed : AllPassed claimed_engine.processed (stopped_torrent ∷ paused_torrent ∷ [])
unfolding qbt_rules.Value.get qbt_rules.Value.truthy
both_passed =
    passed {torrent = stopped_torrent} refl (passed {torrent = paused_torrent} refl none_left)

process_rules_passed_example : Idled (stopped_torrent ∷ paused_torrent ∷ []) claimed_engine (
    process_rules runtime server services false none two_rules
      (stopped_torrent ∷ paused_torrent ∷ [])
      claimed_engine)
process_rules_passed_example =
    process_rules_passed runtime server services false none two_rules
      (stopped_torrent ∷ paused_torrent ∷ []) claimed_engine both_passed

abbrev fleet : List Fields
fleet = paused_torrent ∷ stopped_torrent ∷ []

snapshot_stats_state_example :
    count_of "stoppedUP" (snapshot_stats fleet).state ≡ pos (count_if (in_state "stoppedUP") fleet)
snapshot_stats_state_example = snapshot_stats_state "stoppedUP" fleet

follow_update_state_example :
    count_of "pausedDL"
      (follow_update (state_of stopped_torrent) [] paused_torrent (snapshot_stats fleet)).state
    ≡ pos (count_if (in_state "pausedDL") (paused_torrent ∷ paused_torrent ∷ []))
follow_update_state_example =
    follow_update_state "pausedDL" (paused_torrent ∷ []) [] stopped_torrent paused_torrent []
      (snapshot_stats fleet) (snapshot_stats_state "pausedDL" fleet)

follow_delete_state_example :
    count_of "stoppedUP"
      (follow_delete (state_of stopped_torrent) [] stopped_torrent (snapshot_stats fleet)).state
    ≡ pos (count_if (in_state "stoppedUP") (paused_torrent ∷ []))
follow_delete_state_example =
    follow_delete_state "stoppedUP" (paused_torrent ∷ []) [] stopped_torrent stopped_torrent []
      (snapshot_stats fleet) (snapshot_stats_state "stoppedUP" fleet)
