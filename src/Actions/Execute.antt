-- ===== src/Actions/Execute.antt =====
-- `_execute_action`, `_log_dry_run` and `execute` of src/qbt_rules/engine.py.
use qbt_rules.Prelude.{
  ℕ, suc, String, Bool, true, false, ◌||◌, Option, none, some, List, [], ◌∷◌, map, any, str_eq, ◌+◌,
  if◌then◌else◌,
}
use qbt_rules.Prelude.Int.{pos, negsuc}
use qbt_rules.Value.{
  Value, bool, num, str, list, dict, nil, Fields, end, get, put, truthy, py_eq, of_list, int,
}
use qbt_rules.Conditions.{key_error, Result, ok, err, Runtime}
use qbt_rules.Conditions.State.{Evaluator, Action, pure}
use qbt_rules.Conditions.Lookup.{text_of, hash_of, parse_tags}
use qbt_rules.Api.{
  Api, Command, stop_torrents, start_torrents, recheck_torrents, reannounce_torrents,
  force_start_torrents, delete_torrents, set_category, add_tags, remove_tags, set_upload_limit,
  set_download_limit, increase_priority, decrease_priority, set_top_priority, set_bottom_priority,
  set_file_priority,
}
use qbt_rules.Actions.{Executor, Doing, Services, returns, reading, ◌>>=◌, send}
use qbt_rules.Actions.Idempotency.{
  param, parse_file_priority, or_null, file_index, file_priority_targets, torrent_files,
  should_skip_idempotent,
}

-- `params.get(key, default)`
abbrev pub param_or : String → Value → Value → Result Value
param_or key default params = elim (param key params) [
  | err e ↦ err e
  | ok none ↦ ok default
  | ok (some v) ↦ ok v
]

abbrev pub given : {W A : Type 0} → Result A → Doing W A
given r x = (r, x)

-- The loop that keeps the cached file list current.
unfoldable pub mark_files : List Value → ℕ → ℕ → List Fields → List Fields
mark_files wanted priority position [] = []
mark_files wanted priority position (f ∷ fs) =
    (if any (py_eq (file_index position f)) wanted
      then put "priority" (num (int (pos priority))) f
      else f)
    ∷ mark_files wanted priority (suc position) fs

-- A later entry of a key stands before the earlier ones.
abbrev pub cache_files : String → List Fields → Evaluator → Evaluator
cache_files h files e = record e { files_cache = (h, files) ∷ e.files_cache }

-- The types that send one request which the torrent's hash determines.
unfoldable pub plain_command : String → String → Option Command
plain_command h action_type =
    if str_eq action_type "stop"
    then some (stop_torrents h)
    else if str_eq action_type "start"
    then some (start_torrents h)
    else if str_eq action_type "force_start"
    then some (force_start_torrents h true)
    else if str_eq action_type "release_force_start"
    then some (force_start_torrents h false)
    else if str_eq action_type "recheck"
    then some (recheck_torrents h)
    else if str_eq action_type "reannounce"
    then some (reannounce_torrents h)
    else if str_eq action_type "increase_priority"
    then some (increase_priority h)
    else if str_eq action_type "decrease_priority"
    then some (decrease_priority h)
    else if str_eq action_type "set_top_priority"
    then some (set_top_priority h)
    else if str_eq action_type "set_bottom_priority"
    then some (set_bottom_priority h)
    else none

-- An action for what it reads, its value dropped.
abbrev pub discard : {W A : Type 0} → Action W A → Action W (Unit {0})
discard m s = (elim ((m s).0) [ ok a ↦ ok tt | err e ↦ err e ], (m s).1)

module _ {W : Type 0} where
  unfoldable pub keep_current : Fields → List Value → ℕ → List Fields → Action W (Unit {0})
  unfolding mark_files
  keep_current torrent wanted priority files s = (
    ok tt,
    record s {
      evaluator = cache_files (hash_of torrent) (mark_files wanted priority 0 files) s.evaluator;
    },
  )

abbrev pub caught :
    {W : Type 0} → Result (Bool × Bool) × Executor W → Result (Bool × Bool) × Executor W
caught (ok r, x) = (ok r, x)
caught (err e, x) = (ok (false, false), x)

abbrev pub or_empty : Option Value → Value
or_empty none = dict end
or_empty (some v) = v

abbrev pub count_applied : {W : Type 0} → Executor W → Executor W
count_applied x = record x { already_applied = x.already_applied + 1 }

module _ {W : Type 0} (rt : Runtime) (api : Api W) (services : Services W) where
  -- after a success the cached list follows
  abbrev pub follow : Fields → List Value → ℕ → Bool → Doing W Bool
  follow torrent wanted priority false = returns false
  follow torrent wanted priority true =
      reading (torrent_files rt api torrent)
      >>= (λ files. reading (keep_current torrent wanted priority files) >>= (λ _. returns true))

  abbrev pub set_priorities : Fields → Option (List Value) → Option ℕ → Doing W Bool
  set_priorities torrent (some targets) (some priority) =
      send api (set_file_priority (hash_of torrent) targets priority)
      >>= follow torrent targets priority
  set_priorities torrent _ _ = returns false

  unfoldable pub execute_set_file_priority : Fields → Value → Doing W Bool
  unfolding file_priority_targets torrent_files keep_current send
  execute_set_file_priority torrent params =
      reading (file_priority_targets rt api torrent params) >>= (λ targets.
        given (param "priority" params)
        >>= (λ p. set_priorities torrent targets (parse_file_priority rt api (or_null p))))

  -- the second request of `set_tags`, after the first if there are tags to remove
  abbrev pub replace_tags : Fields → List String → Value → Doing W Bool
  replace_tags torrent [] tags = send api (add_tags (hash_of torrent) tags)
  replace_tags torrent (t ∷ ts) tags =
      send api (remove_tags (hash_of torrent) (list (of_list (map str (t ∷ ts)))))
      >>= (λ _. send api (add_tags (hash_of torrent) tags))

  -- The types that read their parameters; an unknown type is logged and fails.
  unfoldable pub parameter_action : Fields → String → Value → Doing W Bool
  unfolding execute_set_file_priority param
  parameter_action torrent action_type params =
      let h = hash_of torrent in
      if str_eq action_type "delete_torrent"
      then given (param_or "delete_files" (bool true) params)
        >>= (λ v. send api (delete_torrents h (truthy v)))
      else if str_eq action_type "set_category"
      then given (param_or "category" (str "") params) >>= (λ v. send api (set_category h v))
      else if str_eq action_type "add_tag"
      then given (param_or "tags" (list nil) params) >>= (λ v. send api (add_tags h v))
      else if str_eq action_type "remove_tag"
      then given (param_or "tags" (list nil) params) >>= (λ v. send api (remove_tags h v))
      else if str_eq action_type "set_tags"
      then given (param_or "tags" (list nil) params) >>= replace_tags torrent (parse_tags torrent)
      else if str_eq action_type "set_upload_limit"
      then given (param_or "limit" (num (int (negsuc 0))) params)
        >>= (λ v. send api (set_upload_limit h v))
      else if str_eq action_type "set_download_limit"
      then given (param_or "limit" (num (int (negsuc 0))) params)
        >>= (λ v. send api (set_download_limit h v))
      else if str_eq action_type "set_file_priority"
      then execute_set_file_priority torrent params
      else if str_eq action_type "notify"
      then reading (services.notify torrent params)
      else if str_eq action_type "arr_blocklist"
      then reading (services.arr_blocklist torrent params)
      else returns false

  unfoldable pub execute_action : Fields → String → Value → Doing W Bool
  unfolding plain_command parameter_action
  execute_action torrent action_type params = elim (plain_command (hash_of torrent) action_type) [
    | some c ↦ send api c
    | none ↦ parameter_action torrent action_type params
  ]

  -- What a dry run reads for its log line.
  unfoldable pub log_dry_run : Fields → String → Value → Action W (Unit {0})
  unfolding file_priority_targets param
  log_dry_run torrent action_type params =
      if str_eq action_type "delete_torrent" || str_eq action_type "arr_blocklist"
      then (λ s. (elim (param "service" params) [ ok v ↦ ok tt | err e ↦ err e ], s))
      else if str_eq action_type "notify"
      then services.preview torrent params
      else if str_eq action_type "set_file_priority"
      then discard (file_priority_targets rt api torrent params)
      else pure tt

  -- The body of the `try`: (success, skipped).
  abbrev pub after_check : Bool → Fields → String → Value → Bool → Doing W (Bool × Bool)
  after_check dry_run torrent action_type params true = λ x. (ok (true, true), count_applied x)
  after_check true torrent action_type params false =
      reading (log_dry_run torrent action_type params) >>= (λ _. returns (true, true))
  after_check false torrent action_type params false =
      execute_action torrent action_type params >>= (λ success. returns (success, false))

  unfoldable pub attempt : Bool → Fields → String → Value → Doing W (Bool × Bool)
  unfolding execute_action log_dry_run
  attempt dry_run torrent action_type params =
      reading (should_skip_idempotent rt api torrent action_type params)
      >>= after_check dry_run torrent action_type params

  -- `action["type"]` stands before the `try`: an action without a type raises.
  unfoldable pub execute : Bool → Fields → Fields → Doing W (Bool × Bool)
  unfolding attempt
  execute dry_run torrent action x = elim (get "type" action) [
    | none ↦ (err key_error, x)
    | some t ↦
        caught (attempt dry_run torrent (text_of (some t)) (or_empty (get "params" action)) x)
  ]
