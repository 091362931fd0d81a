-- ===== src/Actions/Tests.antt =====
-- Runs of the action executor (src/qbt_rules/engine.py) on a small server.
use qbt_rules.Prelude.{◌+◌, ◌≤◌, ◌≡◌, refl, true, false, some, [], ◌∷◌, length}
use qbt_rules.Value.{str, dict, list, cons, nil, end, field}
use qbt_rules.Conditions.{ok, err, type_error}
use qbt_rules.Api.{start_torrents}
use qbt_rules.Actions.Idempotency.{already_done}
use qbt_rules.Actions.Execute.{execute}
use qbt_rules.Actions.Safety.{execute_dry_run_sends_nothing}
use qbt_rules.Actions.Commands.{execute_sends_at_most_two}
use qbt_rules.Examples.{
  runtime, server, services, stopped_torrent, paused_torrent, start_action, first_executor,
}

-- A paused torrent is started.
starts_paused :
    (execute runtime server services false paused_torrent start_action first_executor).1.sent
    ≡ start_torrents "bb" ∷ []
unfolding execute qbt_rules.Value.get qbt_rules.Actions.Idempotency.should_skip_idempotent
    qbt_rules.Utils.is_infix
starts_paused = refl

execute_dry_run_sends_nothing_example :
    (execute runtime server services true paused_torrent start_action first_executor).1.sent ≡ []
execute_dry_run_sends_nothing_example =
    execute_dry_run_sends_nothing runtime server services paused_torrent start_action first_executor

execute_sends_at_most_two_example :
    length (execute runtime server services false paused_torrent start_action first_executor).1.sent
    ≤ 0 + 2
execute_sends_at_most_two_example =
    execute_sends_at_most_two runtime server services false paused_torrent start_action
      first_executor

paused_is_stopped : already_done paused_torrent "stop" (dict end) ≡ some (ok true)
unfolding already_done qbt_rules.Utils.is_infix qbt_rules.Value.get
paused_is_stopped = refl

-- A mapping in place of the list of tags stands for its keys; a list in the list raises.
keys_are_tags :
    already_done paused_torrent "remove_tag"
      (dict (field "tags" (dict (field "x" (str "y") end)) end))
    ≡ some (ok true)
unfolding already_done qbt_rules.Value.get qbt_rules.Conditions.Lookup.parse_tags
keys_are_tags = refl

nested_tags :
    already_done paused_torrent "remove_tag" (dict (field "tags" (list (cons (list nil) nil)) end))
    ≡ some (err type_error)
unfolding already_done qbt_rules.Value.get
nested_tags = refl

-- On qBittorrent 5 a stopped torrent is in the state stoppedUP: `start` is reported as skipped.
start_skipped :
    (execute runtime server services false stopped_torrent start_action first_executor).0
    ≡ ok (true, true)
unfolding execute qbt_rules.Value.get qbt_rules.Actions.Idempotency.should_skip_idempotent
    qbt_rules.Utils.is_infix
start_skipped = refl
