-- ===== src/Worker.antt =====
-- src/qbt_rules/worker.py: the loop that takes jobs off the queue, runs the engine for each and records
-- what came of it. The queue is the SQLite queue. The clock readings of a round are an argument, as
-- are the texts of a result and of an exception; a loop is the list of its rounds until it is stopped.
pub mod Served
pub mod Rounds
mod Tests
use qbt_rules.Prelude.{
  ℕ, zero, suc, ◌+◌, String, Bool, true, false, ◌||◌, Option, none, some, List, [], ◌∷◌, leb,
  if◌then◌else◌,
}
use qbt_rules.Value.{Fields}
use qbt_rules.Queue.{Job, QueueError, Outcome, returned, raised}
use qbt_rules.Sqlite.Statements.{Database}
use qbt_rules.Sqlite.{dequeue, update_status, cleanup_old_jobs}
use qbt_rules.Conditions.{Exc, Result, ok, err, Runtime}
use qbt_rules.Conditions.State.{new_evaluator}
use qbt_rules.Api.{Api}
use qbt_rules.Actions.{Services}
use qbt_rules.Engine.{RuleStats, new_stats, Engine}
use qbt_rules.Engine.Run.{run}

pub record Worker (W : Type 0) : Type 0 where
  pub queue : Database
  pub world : W
  -- `none` is minus infinity
  pub next_cleanup : Option ℕ
  pub last_job_completed : Option ℕ

-- What the clocks show in one round of the loop.
pub record Moment : Type 0 where
  pub monotonic : ℕ
  pub cleaned_at : ℕ
  pub dequeued_at : ℕ
  pub started_at : ℕ
  pub completed_at : ℕ
  pub failed_at : ℕ

pub record Settings (W : Type 0) : Type 0 where
  pub runtime : Runtime
  pub api : Api W
  pub services : Services W
  pub rules : List Fields
  pub is_dry_run : Bool
  pub cleanup_after : Option ℕ
  pub cleanup_interval : ℕ
  -- the result dictionary as the queue stores it, with its `dry_run`
  pub result_text : RuleStats → Bool → String
  -- `job_error` of an exception of the engine, and of the queue
  pub job_error : Exc → String
  pub queue_job_error : QueueError → String

abbrev pub is_due : Option ℕ → ℕ → Bool
is_due none now = true
is_due (some next) now = leb next now

abbrev pub new_engine : {W : Type 0} → W → Engine W
new_engine w = record {
  executor = record {
    core = record { evaluator = new_evaluator; world = w };
    already_applied = 0;
    sent = [];
  };
  stats = new_stats;
  processed = [];
}

module _ {W : Type 0} (settings : Settings W) where
  -- None and 0 switch the cleanup off.
  abbrev pub cleanup_every : Option ℕ → Moment → Worker W → Worker W
  cleanup_every none at wk = wk
  cleanup_every (some zero) at wk = wk
  cleanup_every (some (suc n)) at wk =
      if is_due wk.next_cleanup at.monotonic
      then record wk {
        next_cleanup = some (at.monotonic + settings.cleanup_interval);
        queue = (cleanup_old_jobs at.cleaned_at (suc n) wk.queue).1;
      }
      else wk

  unfoldable pub maybe_cleanup : Moment → Worker W → Worker W
  maybe_cleanup = cleanup_every settings.cleanup_after

  abbrev pub job_result : Bool → Result (Unit {0}) × Engine W → Result String × Engine W
  job_result dry_run (ok _, g) = (ok (settings.result_text g.stats dry_run), g)
  job_result dry_run (err e, g) = (err e, g)

  -- The engine that ran comes with the result.
  unfoldable pub execute_job : Option String → Option String → Bool → W → Result String × Engine W
  execute_job context hash_filter job_dry_run w =
      let dry_run = job_dry_run || settings.is_dry_run in
      job_result dry_run (
        run settings.runtime settings.api settings.services dry_run context hash_filter
          settings.rules (new_engine w))

  abbrev pub record_failure : Moment → String → String → Worker W → Worker W
  record_failure at job_id text wk = record wk {
    queue =
        (update_status job_id "failed" (some at.started_at) (some at.failed_at) none (some text)
          wk.queue).1;
  }

  -- An exception of the queue leads to the same `except` as one of the engine.
  abbrev pub record_success : Moment → String → Outcome Bool × Database → Worker W → Worker W
  record_success at job_id (returned found, db) wk = record wk {
    queue = db;
    last_job_completed = some at.completed_at;
  }
  record_success at job_id (raised e, db) wk =
      record_failure at job_id (settings.queue_job_error e) (record wk { queue = db })

  abbrev pub record_outcome : Moment → String → Result String → Worker W → Worker W
  record_outcome at job_id (ok text) wk =
      record_success at job_id
        (update_status job_id "completed" (some at.started_at) (some at.completed_at) (some text)
          none wk.queue)
        wk
  record_outcome at job_id (err e) wk = record_failure at job_id (settings.job_error e) wk

  unfoldable pub process_job : Moment → Job → Worker W → Worker W
  unfolding execute_job
  process_job at job wk =
      let (r, g) = execute_job job.context job.hash job.dry_run wk.world in
      record_outcome at job.job_id r (record wk { world = g.executor.core.world })

  abbrev pub serve : Moment → Outcome (Option Job) × Database → Worker W → Worker W
  serve at (returned none, db) wk = record wk { queue = db }
  serve at (returned (some job), db) wk = process_job at job (record wk { queue = db })
  serve at (raised e, db) wk = record wk { queue = db }

  -- One round of the loop; waiting leaves everything as it is.
  unfoldable pub round : Moment → Worker W → Worker W
  unfolding maybe_cleanup process_job
  round at wk = let wk' = maybe_cleanup at wk in serve at (dequeue at.dequeued_at wk'.queue) wk'

  unfoldable pub run_loop : List Moment → Worker W → Worker W
  unfolding round
  run_loop [] wk = wk
  run_loop (at ∷ ats) wk = run_loop ats (round at wk)
