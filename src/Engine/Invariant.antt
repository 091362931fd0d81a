-- ===== src/Engine/Invariant.antt =====
-- What every step of RulesEngine.run (src/qbt_rules/engine.py) keeps, the whole run keeps: an exception ends
-- the run wherever it is raised.
use qbt_rules.Prelude.{
  ℕ, String, Bool, true, false, ◌||◌, Option, List, [], ◌∷◌, length, not, str_in, if◌then◌else◌,
}
use qbt_rules.Value.{Fields, get, get_or_null, truthy}
use qbt_rules.Conditions.{type_error, Result, ok, err, Runtime}
use qbt_rules.Conditions.State.{Stats, State}
use qbt_rules.Conditions.Evaluate.{evaluate}
use qbt_rules.Conditions.Lookup.{hash_of}
use qbt_rules.Api.{Api}
use qbt_rules.Actions.{Services}
use qbt_rules.Engine.{Engine, Running, proceed, count_match}
use qbt_rules.Engine.Refresh.{snapshot_stats}
use qbt_rules.Engine.Run.{
  rule_id, flag, has_label, conditions_of, actions_of, with_stats, claim, with_core, start_rule,
  conclude, selected, not_found, prepared, process_action, process_actions, on_match, consider,
  process_torrent, process_torrents, process_rule, process_rules, run_on, run,
}

-- The steps that a run is made of.
pub record Kept {W : Type 0} (rt : Runtime) (api : Api W) (services : Services W) (dry_run : Bool)
    (I : Engine W → Type 0) : Type 0 where
  pub acted :
      (k : String) (torrent action : Fields) (g : Engine W)
      → I g
      → I ((process_action rt api services dry_run k torrent action g).1)
  pub looked : (g : Engine W) (s : State W) → I g → I (with_core g s)
  pub counted : (k : String) (g : Engine W) → I g → I (record g { stats = count_match k g.stats })
  pub claimed : (stop : Bool) (torrent : Fields) (g : Engine W) → I g → I (claim stop torrent g)
  pub started : (rule : Fields) (g : Engine W) → I g → I (start_rule rule g)

pub record After {W A : Type 0} (I : Engine W → Type 0) (m : Result A × Engine W) : Type 0 where
  pub holds : I (m.1)

module _ {W : Type 0} (I : Engine W → Type 0) where
  After-if :
      {A : Type 0} (b : Bool) (l r : Result A × Engine W)
      → After I l
      → After I r
      → After I (if b then l else r)
  After-if true l r pl pr = pl
  After-if false l r pl pr = pr

  pub proceed-keeps :
      {A B : Type 0} (f : A → Running W B) (m : Result A × Engine W)
      → After I m
      → ((a : A) (g : Engine W) → I g → After I (f a g))
      → After I (proceed f m)
  unfolding proceed
  proceed-keeps f (ok a, g) i step = step a g i.holds
  proceed-keeps f (err e, g) i step = record { holds = i.holds }

module _ {W : Type 0} (rt : Runtime) (api : Api W) (services : Services W) (dry_run : Bool)
    (I : Engine W → Type 0) (kept : Kept rt api services dry_run I) where
  pub process_actions-keeps :
      (k : String) (actions : List Fields) (torrent : Fields) (g : Engine W)
      → I g
      → After I (process_actions rt api services dry_run k actions torrent g)
  unfolding process_actions
  process_actions-keeps k [] torrent g i = record { holds = i }
  process_actions-keeps k (a ∷ as') torrent g i =
      proceed-keeps I _ _ (record { holds = kept.acted k torrent a g i })
        (λ t g' i'. process_actions-keeps k as' t g' i')

  on_match-keeps :
      (rule torrent : Fields) (matched : Bool) (g : Engine W)
      → I g
      → After I (on_match rt api services dry_run rule torrent matched g)
  on_match-keeps rule torrent false g i = record { holds = i }
  on_match-keeps rule torrent true g i =
      proceed-keeps I _ _
        (process_actions-keeps (rule_id rule) (actions_of (get "actions" rule)) torrent _
          (kept.counted (rule_id rule) g i))
        (λ t g' i'. record { holds = kept.claimed (flag "stop_on_match" false rule) t g' i' })

  process_torrent-keeps :
      (context : Option String) (rule torrent : Fields) (g : Engine W)
      → I g
      → After I (process_torrent rt api services dry_run context rule torrent g)
  unfolding process_torrent consider
  process_torrent-keeps context rule torrent g i =
      let r =
        evaluate rt api torrent (conditions_of rule) context (get_or_null "context" rule)
          g.executor.core in
      After-if I (str_in (hash_of torrent) g.processed || truthy (get_or_null "_deleted" torrent))
        (ok torrent, g) (on_match rt api services dry_run rule torrent (r.0) (with_core g (r.1)))
        (record { holds = i })
        (on_match-keeps rule torrent (r.0) (with_core g (r.1)) (kept.looked g (r.1) i))

  process_torrents-keeps :
      (context : Option String) (rule : Fields) (torrents : List Fields) (g : Engine W)
      → I g
      → After I (process_torrents rt api services dry_run context rule torrents g)
  unfolding process_torrents
  process_torrents-keeps context rule [] g i = record { holds = i }
  process_torrents-keeps context rule (t ∷ ts) g i =
      proceed-keeps I _ _ (process_torrent-keeps context rule t g i) (λ t' g' i'.
        proceed-keeps I _ _ (process_torrents-keeps context rule ts g' i')
          (λ ts' g'' i''. record { holds = i'' }))

  process_rule-keeps :
      (context : Option String) (rule : Fields) (torrents : List Fields) (g : Engine W)
      → I g
      → After I (process_rule rt api services dry_run context rule torrents g)
  unfolding process_rule
  process_rule-keeps context rule torrents g i =
      let walk =
        process_torrents rt api services dry_run context rule torrents (start_rule rule g) in
      After-if I (not (has_label (get "meta" rule))) (err type_error, g)
        (if not (flag "enabled" true rule) then (ok torrents, g) else walk) (record { holds = i })
        (After-if I (not (flag "enabled" true rule)) (ok torrents, g) walk (record { holds = i })
          (process_torrents-keeps context rule torrents (start_rule rule g)
            (kept.started rule g i)))

  pub process_rules-keeps :
      (context : Option String) (rules torrents : List Fields) (g : Engine W)
      → I g
      → After I (process_rules rt api services dry_run context rules torrents g)
  unfolding process_rules
  process_rules-keeps context [] torrents g i = record { holds = i }
  process_rules-keeps context (r ∷ rs) torrents g i =
      proceed-keeps I _ _ (process_rule-keeps context r torrents g i)
        (λ ts g' i'. process_rules-keeps context rs ts g' i')

  -- The frame of a run: the snapshot, and the number of claimed torrents at the end.
  run_on-keeps :
      (context torrent_hash : Option String) (rules : List Fields) (g : Engine W)
      → ((st : Stats) (w : W) (g : Engine W)
          → I g
          → I (record g { executor = with_stats st w g.executor }))
      → ((n m : ℕ) (g : Engine W)
          → I g
          → I (record g { stats = record g.stats { total_torrents = n; processed = m } }))
      → I g
      → (r : Result (List Fields) × W)
      → After I (run_on rt api services dry_run context torrent_hash rules g r)
  run_on-keeps context torrent_hash rules g framed totals i (err e, w) = record {
    holds = framed _ w g i;
  }
  run_on-keeps context torrent_hash rules g framed totals i (ok all_torrents, w) =
      let torrents = selected torrent_hash all_torrents in
      let g' = prepared all_torrents torrents w g in
      After-if I (not_found torrent_hash torrents)
        (ok tt, record g { executor = with_stats g.executor.core.evaluator.stats w g.executor })
        (proceed conclude (process_rules rt api services dry_run context rules torrents g'))
        (record { holds = framed g.executor.core.evaluator.stats w g i })
        (proceed-keeps I conclude (process_rules rt api services dry_run context rules torrents g')
          (process_rules-keeps context rules torrents g' (
            totals (length torrents) g.stats.processed _
              (framed (snapshot_stats all_torrents) w g i)))
          (λ ts g'' i'. record { holds = totals g''.stats.total_torrents _ g'' i' }))

  pub run-keeps :
      (context torrent_hash : Option String) (rules : List Fields) (g : Engine W)
      → ((st : Stats) (w : W) (g : Engine W)
          → I g
          → I (record g { executor = with_stats st w g.executor }))
      → ((n m : ℕ) (g : Engine W)
          → I g
          → I (record g { stats = record g.stats { total_torrents = n; processed = m } }))
      → I g
      → After I (run rt api services dry_run context torrent_hash rules g)
  unfolding run
  run-keeps context torrent_hash rules g framed totals i =
      run_on-keeps context torrent_hash rules g framed totals i
        (api.get_torrents g.executor.core.world)
