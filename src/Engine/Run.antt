-- ===== src/Engine/Run.antt =====
-- RulesEngine.run of src/qbt_rules/engine.py: each rule in file order, each torrent, each action.
use qbt_rules.Prelude.{
  String, Bool, true, false, ◌||◌, Option, none, some, List, [], ◌∷◌, keep, length, not, str_eq,
  str_in, if◌then◌else◌,
}
use qbt_rules.Value.{Value, list, dict, Items, nil, cons, Fields, end, get, get_or_null, truthy}
use qbt_rules.Conditions.{type_error, Result, ok, err, Runtime}
use qbt_rules.Conditions.State.{Stats, State}
use qbt_rules.Conditions.Lookup.{text_of, hash_of}
use qbt_rules.Conditions.Evaluate.{evaluate}
use qbt_rules.Api.{Api}
use qbt_rules.Actions.{Executor, Services}
use qbt_rules.Actions.Execute.{execute}
use qbt_rules.Engine.{
  Engine, Running, proceed, set_default, count_match, count_executed, count_skipped, count_error,
  add_to_set,
}
use qbt_rules.Engine.Refresh.{
  state_of, tag_set, fetched, refreshed_torrent, refreshed_stats, snapshot_stats,
}

-- `rule.get("id", "unnamed")`
abbrev pub rule_id : Fields → String
rule_id rule = elim (get "id" rule) [ none ↦ "unnamed" | some v ↦ text_of (some v) ]

-- `rule.get(key, default)` as a condition
abbrev pub flag : String → Bool → Fields → Bool
flag key default rule = elim (get key rule) [ none ↦ default | some v ↦ truthy v ]

-- `rule.get("meta", {}).get("description")` raises where `meta` is no dictionary.
abbrev pub has_label : Option Value → Bool
has_label none = true
has_label (some (dict fs)) = true
has_label (some v) = false

abbrev pub conditions_of : Fields → Value
conditions_of rule = elim (get "conditions" rule) [ none ↦ dict end | some v ↦ v ]

-- An action that is no dictionary raises at `action["type"]`, as one without a type does.
abbrev pub action_fields : Value → Fields
action_fields (dict fs) = fs
action_fields _ = end

abbrev pub action_list : Items → List Fields
action_list nil = []
action_list (cons v vs) = action_fields v ∷ action_list vs

-- `rule.get("actions", [])`, which the loader has checked to be a list
abbrev pub actions_of : Option Value → List Fields
actions_of (some (list vs)) = action_list vs
actions_of _ = []

abbrev pub with_stats : {W : Type 0} → Stats → W → Executor W → Executor W
with_stats st w x = record x {
  core = record { evaluator = record x.core.evaluator { stats = st }; world = w };
}

-- After an executed action: fetch the torrent again. A failure is only logged.
abbrev pub absorb :
    {W : Type 0}
    → Option String
    → List String
    → Fields
    → Engine W
    → Result (Option Fields) × W
    → Fields × Engine W
absorb pre_state pre_tags torrent g (err e, w) =
    (torrent, record g { executor = with_stats g.executor.core.evaluator.stats w g.executor })
absorb pre_state pre_tags torrent g (ok found, w) = (
  refreshed_torrent torrent (fetched found),
  record g {
    executor =
        with_stats
          (refreshed_stats pre_state pre_tags torrent (fetched found)
            g.executor.core.evaluator.stats)
          w g.executor;
  },
)

abbrev pub claim : {W : Type 0} → Bool → Fields → Engine W → Engine W
claim false torrent g = g
claim true torrent g = record g { processed = add_to_set (hash_of torrent) g.processed }

abbrev pub with_core : {W : Type 0} → Engine W → State W → Engine W
with_core g s = record g { executor = record g.executor { core = s } }

abbrev pub start_rule : {W : Type 0} → Fields → Engine W → Engine W
start_rule rule g = record g {
  stats = record g.stats { by_rule = set_default (rule_id rule) g.stats.by_rule };
}

-- `stats.processed = len(processed_torrents)`
abbrev pub conclude : {W : Type 0} → List Fields → Running W (Unit {0})
conclude ts g = (ok tt, record g { stats = record g.stats { processed = length g.processed } })

abbrev pub selected : Option String → List Fields → List Fields
selected none ts = ts
selected (some h) ts = if str_eq h "" then ts else keep (λ t. str_eq (hash_of t) h) ts

-- A single torrent was asked for and is not there.
abbrev pub not_found : Option String → List Fields → Bool
not_found (some h) [] = not (str_eq h "")
not_found _ _ = false

abbrev pub prepared : {W : Type 0} → List Fields → List Fields → W → Engine W → Engine W
prepared all_torrents torrents w g = record g {
  executor = with_stats (snapshot_stats all_torrents) w g.executor;
  stats = record g.stats { total_torrents = length torrents };
}

module _ {W : Type 0} (rt : Runtime) (api : Api W) (services : Services W) (dry_run : Bool) where
  unfoldable pub refresh : Option String → List String → Fields → Engine W → Fields × Engine W
  refresh pre_state pre_tags torrent g =
      absorb pre_state pre_tags torrent g (api.get_torrent (hash_of torrent) g.executor.core.world)

  -- What `execute` returned, counted.
  abbrev pub after_action :
      String → Fields → Engine W → Result (Bool × Bool) → Result Fields × Engine W
  after_action k torrent g (err e) = (err e, g)
  after_action k torrent g (ok (false, skipped)) =
      (ok torrent, record g { stats = count_error k g.stats })
  after_action k torrent g (ok (true, true)) =
      (ok torrent, record g { stats = count_skipped k g.stats })
  after_action k torrent g (ok (true, false)) =
      let (t, g') =
        refresh (state_of torrent) (tag_set torrent) torrent
          (record g { stats = count_executed k g.stats }) in
      (ok t, g')

  unfoldable pub process_action : String → Fields → Fields → Engine W → Result Fields × Engine W
  unfolding refresh
  process_action k torrent action g =
      let (r, x) = execute rt api services dry_run torrent action g.executor in
      after_action k torrent (record g { executor = x }) r

  unfoldable pub process_actions :
      String → List Fields → Fields → Engine W → Result Fields × Engine W
  process_actions k [] torrent g = (ok torrent, g)
  process_actions k (a ∷ as') torrent g =
      proceed (λ t. process_actions k as' t) (process_action k torrent a g)

  -- A torrent that the rule looks at.
  abbrev pub on_match : Fields → Fields → Bool → Engine W → Result Fields × Engine W
  on_match rule torrent false g = (ok torrent, g)
  on_match rule torrent true g =
      proceed (λ t g'. (ok t, claim (flag "stop_on_match" false rule) t g'))
        (process_actions (rule_id rule) (actions_of (get "actions" rule)) torrent
          (record g { stats = count_match (rule_id rule) g.stats }))

  unfoldable pub consider : Option String → Fields → Fields → Engine W → Result Fields × Engine W
  unfolding process_actions process_action
  consider context rule torrent g =
      let (matched, s) =
        evaluate rt api torrent (conditions_of rule) context (get_or_null "context" rule)
          g.executor.core in
      on_match rule torrent matched (with_core g s)

  -- Claimed and deleted torrents are passed over.
  unfoldable pub process_torrent :
      Option String → Fields → Fields → Engine W → Result Fields × Engine W
  unfolding consider
  process_torrent context rule torrent g =
      if str_in (hash_of torrent) g.processed || truthy (get_or_null "_deleted" torrent)
      then (ok torrent, g)
      else consider context rule torrent g

  unfoldable pub process_torrents :
      Option String → Fields → List Fields → Engine W → Result (List Fields) × Engine W
  process_torrents context rule [] g = (ok [], g)
  process_torrents context rule (t ∷ ts) g =
      proceed
        (λ t' g'. proceed (λ ts' g''. (ok (t' ∷ ts'), g'')) (process_torrents context rule ts g'))
        (process_torrent context rule t g)

  unfoldable pub process_rule :
      Option String → Fields → List Fields → Engine W → Result (List Fields) × Engine W
  unfolding process_torrents process_torrent
  process_rule context rule torrents g =
      if not (has_label (get "meta" rule))
      then (err type_error, g)
      else if not (flag "enabled" true rule)
      then (ok torrents, g)
      else process_torrents context rule torrents (start_rule rule g)

  unfoldable pub process_rules :
      Option String → List Fields → List Fields → Engine W → Result (List Fields) × Engine W
  process_rules context [] torrents g = (ok torrents, g)
  process_rules context (r ∷ rs) torrents g =
      proceed (λ ts. process_rules context rs ts) (process_rule context r torrents g)

  abbrev pub run_on :
      Option String
      → Option String
      → List Fields
      → Engine W
      → Result (List Fields) × W
      → Result (Unit {0}) × Engine W
  run_on context torrent_hash rules g (err e, w) =
      (err e, record g { executor = with_stats g.executor.core.evaluator.stats w g.executor })
  run_on context torrent_hash rules g (ok all_torrents, w) =
      let torrents = selected torrent_hash all_torrents in
      if not_found torrent_hash torrents
      then (ok tt, record g { executor = with_stats g.executor.core.evaluator.stats w g.executor })
      else proceed conclude
          (process_rules context rules torrents (prepared all_torrents torrents w g))

  unfoldable pub run :
      Option String → Option String → List Fields → Engine W → Result (Unit {0}) × Engine W
  unfolding process_rules process_rule
  run context torrent_hash rules g =
      run_on context torrent_hash rules g (api.get_torrents g.executor.core.world)
