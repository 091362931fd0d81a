-- ===== src/Worker/Rounds.antt =====
-- What one round of the worker's loop, and the loop, do to the queue (src/qbt_rules/worker.py).
use mathlib.Core.List.{head?}
use qbt_rules.Prelude.{
  ℕ, zero, suc, ◌≤◌, String, ◌≡◌, ◌⊎◌, inl, inr, refl, ◌∙◌, ap, Bool, true, false, ◌||◌, Option,
  none, some, List, [], ◌∷◌, length, arith, subst, Bool-cases,
}
use qbt_rules.Queue.{
  Job, JobStatus, processing, completed, failed, validate_status, Outcome, returned, raised,
}
use qbt_rules.Sqlite.Statements.{Database}
use qbt_rules.Sqlite.{dequeue}
use qbt_rules.Sqlite.Invariant.{IsWellFormed}
use qbt_rules.Sqlite.Preserved.{
  dequeue-IsWellFormed, cleanup_old_jobs-IsWellFormed, update_status_valid,
}
use qbt_rules.Sqlite.Fifo.{waiting, served, rest_of, dequeue_fifo}
use qbt_rules.Sqlite.Cleanup.{cleanup_keeps_waiting}
use qbt_rules.Sqlite.Lifecycle.{status_of}
use qbt_rules.Conditions.{Result, ok, err}
use qbt_rules.Engine.{Engine}
use qbt_rules.Engine.Run.{run}
use qbt_rules.Engine.DryRun.{run_dry_run_sends_nothing}
use qbt_rules.Worker.{
  Worker, Moment, Settings, is_due, new_engine, cleanup_every, maybe_cleanup, job_result,
  execute_job, record_failure, record_outcome, process_job, serve, round, run_loop,
}
use qbt_rules.Worker.Served.{update_status-Ended, Handed, dequeue-Handed}

abbrev pub IsSettled : Option JobStatus → Type 0
IsSettled o = (o ≡ some completed) ⊎ (o ≡ some failed)

-- The queue after a job was processed.
pub record Settled (k : String) (before after : Database) : Type 0 where
  pub formed : IsWellFormed after
  pub same_waiting : waiting after ≡ waiting before
  pub status : IsSettled (status_of k after)

-- The queue after a round: the job that was first, if any, is over, and the others wait as before.
pub record Served (before after : Database) : Type 0 where
  pub formed : IsWellFormed after
  pub rest : waiting after ≡ rest_of (waiting before)
  pub over : (k : String) → head? (waiting before) ≡ some k → IsSettled (status_of k after)

nothing_left : {A : Type 0} (xs : List A) → length xs ≤ 0 → xs ≡ []
nothing_left [] h = refl
nothing_left (x ∷ xs) h = ground (arith, h)

shorter : (xs : List String) (n : ℕ) → length xs ≤ suc n → length (rest_of xs) ≤ n
shorter [] n h = omega arith
shorter (x ∷ xs) n h = omega (arith, h)

module _ {W : Type 0} (settings : Settings W) where
  record_failure-Settled :
      (at : Moment) (k text : String) (wk : Worker W)
      → status_of k wk.queue ≡ some processing
      → IsWellFormed wk.queue
      → Settled k wk.queue (record_failure settings at k text wk).queue
  unfolding validate_status
  record_failure-Settled at k text wk p w =
      let e =
        update_status-Ended k "failed" failed (some at.started_at) (some at.failed_at) none
          (some text) wk.queue refl refl p w in
      record { formed = e.formed; same_waiting = e.same_waiting; status = inr e.status }

  record_outcome-Settled :
      (at : Moment) (k : String) (r : Result String) (wk : Worker W)
      → status_of k wk.queue ≡ some processing
      → IsWellFormed wk.queue
      → Settled k wk.queue (record_outcome settings at k r wk).queue
  unfolding validate_status
  record_outcome-Settled at k (err e) wk p w =
      record_failure-Settled at k (settings.job_error e) wk p w
  record_outcome-Settled at k (ok text) wk p w =
      let e =
        update_status-Ended k "completed" completed (some at.started_at) (some at.completed_at)
          (some text) none wk.queue refl refl p w in
      let valid =
        update_status_valid k "completed" (some at.started_at) (some at.completed_at) (some text)
          none wk.queue completed refl in
      rw valid (record {
        formed = rw valid at e.formed;
        same_waiting = rw valid at e.same_waiting;
        status = inl (rw valid at e.status);
      })

  process_job-Settled :
      (at : Moment) (job : Job) (wk : Worker W)
      → status_of job.job_id wk.queue ≡ some processing
      → IsWellFormed wk.queue
      → Settled job.job_id wk.queue (process_job settings at job wk).queue
  unfolding process_job
  process_job-Settled at job wk p w =
      let m = execute_job settings job.context job.hash job.dry_run wk.world in
      record_outcome-Settled at job.job_id (m.0) (record wk { world = m.1.executor.core.world }) p w

  serve-Served :
      (at : Moment) (before : Database) (m : Outcome (Option Job) × Database) (wk : Worker W)
      → IsWellFormed (m.1)
      → Handed m
      → served (m.0) ≡ head? (waiting before)
      → waiting (m.1) ≡ rest_of (waiting before)
      → Served before (serve settings at m wk).queue
  serve-Served at before (returned none, db) wk w h first rest = record {
    formed = w;
    rest = rest;
    over = λ k e. ground (arith, first, e);
  }
  serve-Served at before (raised x, db) wk w h first rest = record {
    formed = w;
    rest = rest;
    over = λ k e. ground (arith, first, e);
  }
  serve-Served at before (returned (some job), db) wk w h first rest =
      let done = process_job-Settled at job (record wk { queue = db }) h w in
      record {
        formed = done.formed;
        rest = done.same_waiting ∙ rest;
        over = λ k e.
            let same : job.job_id ≡ k = ground (arith, first, e) in
            subst
              (λ j.
                IsSettled
                  (status_of j (process_job settings at job (record wk { queue = db })).queue))
              same done.status;
      }

  cleanup_every-waiting :
      (period : Option ℕ) (at : Moment) (wk : Worker W)
      → IsWellFormed wk.queue
      → IsWellFormed (cleanup_every settings period at wk).queue
        × (waiting (cleanup_every settings period at wk).queue ≡ waiting wk.queue)
  cleanup_every-waiting none at wk w = (w, refl)
  cleanup_every-waiting (some zero) at wk w = (w, refl)
  cleanup_every-waiting (some (suc n)) at wk w =
      elim (Bool-cases (is_due wk.next_cleanup at.monotonic)) [
        | inl due ↦ rw due (
          cleanup_old_jobs-IsWellFormed at.cleaned_at (suc n) wk.queue w,
          cleanup_keeps_waiting at.cleaned_at (suc n) wk.queue w,
        )
        | inr early ↦ rw early (w, refl)
      ]

  -- A cleanup, or none, leaves the queue of waiting jobs as it is.
  maybe_cleanup-waiting :
      (at : Moment) (wk : Worker W)
      → IsWellFormed wk.queue
      → IsWellFormed (maybe_cleanup settings at wk).queue
        × (waiting (maybe_cleanup settings at wk).queue ≡ waiting wk.queue)
  unfolding maybe_cleanup
  maybe_cleanup-waiting at wk w = cleanup_every-waiting settings.cleanup_after at wk w

  -- From well-formed tables, a round of the worker leaves well-formed tables, the job that was
  -- first in the queue, if any, completed or failed whatever the engine did, and the other jobs
  -- waiting in their order.
  pub round-Served :
      (at : Moment) (wk : Worker W)
      → IsWellFormed wk.queue
      → Served wk.queue (round settings at wk).queue
  unfolding round
  round-Served at wk w =
      let (w', same) = maybe_cleanup-waiting at wk w in
      let wk' = maybe_cleanup settings at wk in
      let (first, rest) = dequeue_fifo at.dequeued_at wk'.queue w' in
      serve-Served at wk.queue (dequeue at.dequeued_at wk'.queue) wk'
        (dequeue-IsWellFormed at.dequeued_at wk'.queue w')
        (dequeue-Handed at.dequeued_at wk'.queue w') (first ∙ ap head? same)
        (rest ∙ ap rest_of same)

  -- From well-formed tables, at least as many rounds of the worker as jobs wait leave no job
  -- waiting.
  pub run_loop_drains :
      (ats : List Moment) (wk : Worker W)
      → IsWellFormed wk.queue
      → length (waiting wk.queue) ≤ length ats
      → waiting (run_loop settings ats wk).queue ≡ []
  unfolding run_loop
  run_loop_drains [] wk w enough = nothing_left (waiting wk.queue) enough
  run_loop_drains (at ∷ ats) wk w enough =
      let done = round-Served at wk w in
      run_loop_drains ats (round settings at wk) done.formed
        (rw done.rest (shorter (waiting wk.queue) (length ats) enough))

  job_result-engine :
      (dry_run : Bool) (m : Result (Unit {0}) × Engine W) → (job_result settings dry_run m).1 ≡ m.1
  job_result-engine dry_run (ok _, g) = refl
  job_result-engine dry_run (err e, g) = refl

  sends_nothing :
      (context hash_filter : Option String) (w : W) (dry_run : Bool)
      → dry_run ≡ true
      → (job_result settings dry_run (
          run settings.runtime settings.api settings.services dry_run context hash_filter
            settings.rules
            (new_engine w))).1.executor.sent
        ≡ []
  sends_nothing context hash_filter w false dry = ground (arith, dry)
  sends_nothing context hash_filter w true dry =
      ap (λ g. g.executor.sent) (job_result-engine true _)
      ∙ (run_dry_run_sends_nothing settings.runtime settings.api settings.services context
          hash_filter settings.rules (new_engine w)).0

  -- If the job asks for a dry run or the server is configured for one, executing the job sends no
  -- command to qBittorrent.
  pub execute_job_dry_run :
      (context hash_filter : Option String) (job_dry_run : Bool) (w : W)
      → (job_dry_run || settings.is_dry_run) ≡ true
      → (execute_job settings context hash_filter job_dry_run w).1.executor.sent ≡ []
  unfolding execute_job
  execute_job_dry_run context hash_filter job_dry_run w dry =
      sends_nothing context hash_filter w (job_dry_run || settings.is_dry_run) dry
