-- ===== src/Engine/DryRun.antt =====
-- A dry run of RulesEngine.run (src/qbt_rules/engine.py).
use qbt_rules.Prelude.{
  String, ◌≡◌, refl, ◌∙◌, Bool, true, false, Option, some, List, arith, Option-cases, inl, inr,
}
use qbt_rules.Value.{Value, Fields, get}
use qbt_rules.Conditions.{Result, ok, err, Runtime}
use qbt_rules.Conditions.Lookup.{text_of}
use qbt_rules.Api.{Api}
use qbt_rules.Actions.{Executor, Doing, Services, reading, ◌>>=◌, proceed}
use qbt_rules.Actions.Idempotency.{should_skip_idempotent}
use qbt_rules.Actions.Execute.{after_check, attempt, caught, or_empty, execute, log_dry_run}
use qbt_rules.Actions.Safety.{execute_dry_run_sends_nothing, execute-typed, execute-untyped}
use qbt_rules.Engine.{Engine, count_match, count_skipped, count_error}
use qbt_rules.Engine.Run.{claim, after_action, process_action, run}
use qbt_rules.Engine.Invariant.{Kept, run-keeps}

-- Whether `execute` reported an action that was carried out.
abbrev pub carried_out : Result (Bool × Bool) → Bool
carried_out (ok (true, false)) = true
carried_out (ok (true, true)) = false
carried_out (ok (false, skipped)) = false
carried_out (err e) = false

record Idle {W : Type 0} (m : Doing W (Bool × Bool)) : Type 0 where
  at : (x : Executor W) → carried_out ((m x).0) ≡ false

module _ {W : Type 0} where
  Idle-bind :
      {A : Type 0} (m : Doing W A) (f : A → Doing W (Bool × Bool))
      → ((a : A) → Idle (f a))
      → Idle (m >>= f)
  Idle-bind {A} m f k = record { at = λ x. rest (m x).0 (m x).1 }
    where
      rest : (r : Result A) (y : Executor W) → carried_out ((proceed r f y).0) ≡ false
      rest (ok a) y = (k a).at y
      rest (err _) y = refl

  carried_out-caught :
      (m : Result (Bool × Bool) × Executor W)
      → carried_out (m.0) ≡ false
      → carried_out ((caught m).0) ≡ false
  carried_out-caught (ok r, x) e = e
  carried_out-caught (err _, x) e = refl

module _ {W : Type 0} (rt : Runtime) (api : Api W) (services : Services W) where
  Idle-dry :
      (torrent : Fields) (action_type : String) (params : Value)
      → Idle (attempt rt api services true torrent action_type params)
  unfolding attempt
  Idle-dry torrent action_type params =
      Idle-bind (reading (should_skip_idempotent rt api torrent action_type params)) _ check
    where
      check :
          (skip : Bool) → Idle (after_check rt api services true torrent action_type params skip)
      check true = record { at = λ x. refl }
      check false =
          Idle-bind (reading (log_dry_run rt api services torrent action_type params)) _
            (λ _. record { at = λ x. refl })

  carried_out-execute :
      (torrent action : Fields) (x : Executor W)
      → carried_out ((execute rt api services true torrent action x).0) ≡ false
  carried_out-execute torrent action x = elim (Option-cases (get "type" action)) [
    | inl e ↦ rw (execute-untyped rt api services true torrent action x e)
    | inr (t, e) ↦
        let params = or_empty (get "params" action) in
        let m = attempt rt api services true torrent (text_of (some t)) params x in
        rw (execute-typed rt api services true torrent action x t e)
          (carried_out-caught m ((Idle-dry torrent (text_of (some t)) params).at x))
  ]

  -- Nothing sent and nothing counted as executed since the engine `start`.
  record Untouched (start g : Engine W) : Type 0 where
    sent : g.executor.sent ≡ start.executor.sent
    executed : g.stats.actions_executed ≡ start.stats.actions_executed

  Untouched-after_action :
      (start : Engine W) (k : String) (torrent : Fields) (g : Engine W) (r : Result (Bool × Bool))
      → carried_out r ≡ false
      → Untouched start g
      → Untouched start ((after_action rt api services true k torrent g r).1)
  unfolding count_skipped count_error
  Untouched-after_action start k torrent g (err e) idle i = i
  Untouched-after_action start k torrent g (ok (false, skipped)) idle i = record {
    sent = i.sent;
    executed = i.executed;
  }
  Untouched-after_action start k torrent g (ok (true, true)) idle i = record {
    sent = i.sent;
    executed = i.executed;
  }
  Untouched-after_action start k torrent g (ok (true, false)) idle i = ground (arith, idle)

  Untouched-claim :
      (start : Engine W) (stop : Bool) (torrent : Fields) (g : Engine W)
      → Untouched start g
      → Untouched start (claim stop torrent g)
  Untouched-claim start false torrent g i = i
  Untouched-claim start true torrent g i = record { sent = i.sent; executed = i.executed }

  Kept-Untouched : (start : Engine W) → Kept rt api services true (λ g. Untouched start g)
  unfolding process_action count_match
  Kept-Untouched start = record {
    acted = λ k torrent action g i.
        Untouched-after_action start k torrent
          (record g { executor = (execute rt api services true torrent action g.executor).1 })
          ((execute rt api services true torrent action g.executor).0)
          (carried_out-execute torrent action g.executor)
          (record {
            sent = execute_dry_run_sends_nothing rt api services torrent action g.executor ∙ i.sent;
            executed = i.executed;
          });
    looked = λ g s i. record { sent = i.sent; executed = i.executed };
    counted = λ k g i. record { sent = i.sent; executed = i.executed };
    claimed = λ stop torrent g i. Untouched-claim start stop torrent g i;
    started = λ rule g i. record { sent = i.sent; executed = i.executed };
  }

  -- A dry run, whatever the rules, the torrents and the answers of the server are and wherever it
  -- raises, sends no command to qBittorrent and counts no action as executed.
  pub run_dry_run_sends_nothing :
      (context torrent_hash : Option String) (rules : List Fields) (g : Engine W)
      → ((run rt api services true context torrent_hash rules g).1.executor.sent ≡ g.executor.sent)
        × ((run rt api services true context torrent_hash rules g).1.stats.actions_executed
            ≡ g.stats.actions_executed)
  run_dry_run_sends_nothing context torrent_hash rules g =
      let kept =
        (run-keeps rt api services true (λ g'. Untouched g g') (Kept-Untouched g) context
          torrent_hash rules g (λ st w g' i. record { sent = i.sent; executed = i.executed })
          (λ n m g' i. record { sent = i.sent; executed = i.executed })
          (record { sent = refl; executed = refl })).holds in
      (kept.sent, kept.executed)
