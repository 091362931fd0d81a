-- ===== src/Worker/Tests.antt =====
-- Runs of the worker (src/qbt_rules/worker.py) on a queue of one job and a small server.
use qbt_rules.Prelude.{◌≤◌, ◌≡◌, refl, true, false, none, some, [], ◌∷◌, length, arith}
use qbt_rules.Sqlite.Statements.{Database}
use qbt_rules.Sqlite.{enqueue}
use qbt_rules.Sqlite.Fifo.{waiting}
use qbt_rules.Sqlite.Invariant.{IsWellFormed}
use qbt_rules.Sqlite.Lifecycle.{empty, here, next, enqueues, Reaches-IsWellFormed}
use qbt_rules.Worker.{Worker, Moment, Settings, execute_job, round, run_loop}
use qbt_rules.Worker.Rounds.{Served, round-Served, run_loop_drains, execute_job_dry_run}
use qbt_rules.Examples.{
  runtime, server, services, stopped_torrent, paused_torrent, start_rule_of, Server,
}

abbrev settings : Settings Server
settings = record {
  runtime = runtime;
  api = server;
  services = services;
  rules = start_rule_of "pausedDL" ∷ [];
  is_dry_run = false;
  cleanup_after = some 86400;
  cleanup_interval = 3600;
  result_text = λ stats dry_run. "{}";
  job_error = λ e. "error";
  queue_job_error = λ e. "error";
}

abbrev one_job : Database
one_job = (enqueue "j1" 5 none none false empty).1

one_job-IsWellFormed : IsWellFormed one_job
one_job-IsWellFormed = Reaches-IsWellFormed (next here (enqueues empty "j1" 5 none none false))

abbrev worker : Worker Server
worker = record {
  queue = one_job;
  world = stopped_torrent ∷ paused_torrent ∷ [];
  next_cleanup = none;
  last_job_completed = none;
}

abbrev moment : Moment
moment = record {
  monotonic = 1;
  cleaned_at = 10;
  dequeued_at = 11;
  started_at = 12;
  completed_at = 13;
  failed_at = 14;
}

one_waits : length (waiting one_job) ≤ 1
unfolding waiting enqueue qbt_rules.Sqlite.Statements.insert_job
    qbt_rules.Sqlite.Statements.find_row qbt_rules.Sqlite.Statements.insert_queue
    qbt_rules.Sqlite.Statements.is_queued
one_waits = omega arith

round-Served_example : Served one_job (round settings moment worker).queue
round-Served_example = round-Served settings moment worker one_job-IsWellFormed

run_loop_drains_example : waiting (run_loop settings (moment ∷ []) worker).queue ≡ []
run_loop_drains_example =
    run_loop_drains settings (moment ∷ []) worker one_job-IsWellFormed one_waits

execute_job_dry_run_example :
    (execute_job settings none none true (paused_torrent ∷ [])).1.executor.sent ≡ []
execute_job_dry_run_example = execute_job_dry_run settings none none true (paused_torrent ∷ []) refl
