-- ===== src/Sqlite.antt =====
-- src/qbt_rules/queue_backends/sqlite_queue.py: the SQLite queue. `Database` holds the rows of the
-- tables `jobs` and `queue`; each SQL statement is a function on it, and each method runs its
-- statements in the source's order. What the environment chooses (the UUID, the clock) is an
-- argument. The proofs are in the modules below.
pub mod Statements
pub mod Rows
pub mod Invariant
pub mod Preserved
pub mod Fifo
pub mod Lifecycle
pub mod Taken
pub mod Queries
pub mod Counting
pub mod Cleanup
pub mod Schema
pub mod Tests
use qbt_rules.Prelude.{
  ℕ, ◌-◌, ◌*◌, String, Bool, true, false, ◌&&◌, Option, none, some, List, [], ◌∷◌, map, not, ltb,
  if◌then◌else◌, length, take, drop, keep, count_if, is_some, str_eq, ◌==◌,
}
use Prim.Native.Nat.{min}
use mathlib.Core.Option
use qbt_rules.Queue.{
  JobStatus, pending, processing, completed, failed, cancelled, status_text, validate_status,
  same_status, is_finished, Job, Outcome, returned, raised, value_error,
}
use Statements.{
  Row, Database, find_row, insert_job, insert_queue, select_next, update_rows, delete_queue, is_old,
  delete_old, matches_filters, sort_rows,
}

unfoldable pub row_to_dict : Row → Job
row_to_dict row = record {
  job_id = row.id;
  context = row.context;
  hash = row.hash;
  dry_run = not (row.dry_run == 0);
  status = row.status;
  created_at = row.created_at;
  started_at = row.started_at;
  completed_at = row.completed_at;
  result = elim row.result [ none ↦ none | some t ↦ if str_eq t "" then none else some t ];
  error = row.error;
}

-- BEGIN IMMEDIATE; the body; COMMIT, or ROLLBACK and raise again.
unfoldable pub transaction {ℓ} :
    {A : Type ℓ} → (Database → Outcome (A × Database)) → Database → Outcome A × Database
transaction body db = elim (body db) [
  | returned (a, db') ↦ (returned a, db')
  | raised e ↦ (raised e, db)
]

abbrev pub then_do {ℓ κ} : {A : Type ℓ} {B : Type κ} → Outcome A → (A → Outcome B) → Outcome B
then_do (returned a) f = f a
then_do (raised e) f = raised e

abbrev pub new_row : String → ℕ → Option String → Option String → Bool → Row
new_row job_id created_at context hash_filter dry_run = record {
  id = job_id;
  context = context;
  hash = hash_filter;
  status = pending;
  created_at = created_at;
  started_at = none;
  completed_at = none;
  result = none;
  error = none;
  dry_run = if dry_run then 1 else 0;
}

-- `job_id` is the fresh UUID and `now` the clock.
unfoldable pub enqueue :
    String → ℕ → Option String → Option String → Bool → Database → Outcome String × Database
unfolding transaction
enqueue job_id now context hash_filter dry_run = transaction λ db.
    then_do (insert_job (new_row job_id now context hash_filter dry_run) db)
      λ db₁. then_do (insert_queue job_id 0 db₁) λ db₂. returned (job_id, db₂)

abbrev pub mark_processing : ℕ → Row → Row
mark_processing now r = record r { status = processing; started_at = some now }

unfoldable pub dequeue : ℕ → Database → Outcome (Option Job) × Database
unfolding transaction
dequeue now = transaction λ db. elim (select_next db.queue) [
  | none ↦ returned (none, db)
  | some q ↦
      let jobs' = update_rows q.job_id (mark_processing now) db.jobs in
      returned (
        Option.map row_to_dict (find_row q.job_id jobs'),
        record db { jobs = jobs'; queue = delete_queue q.job_id db.queue },
      )
]

unfoldable pub get_job : String → Database → Option Job
get_job job_id db = Option.map row_to_dict (find_row job_id db.jobs)

-- `limit` and `offset` are not negative: the API and the dashboard see to it.
unfoldable pub list_jobs : Option String → Option String → ℕ → ℕ → Database → List Job
list_jobs status context limit offset db =
    map row_to_dict (
      take (min limit 100)
        (drop offset (sort_rows (keep (matches_filters status context) db.jobs))))

unfoldable pub count_jobs : Option String → Option String → Database → ℕ
count_jobs status context db = count_if (matches_filters status context) db.jobs

-- `column = ?` for each argument that is not None.
abbrev pub or_old {ℓ} : {A : Type ℓ} → Option A → Option A → Option A
or_old none old = old
or_old (some v) old = some v

abbrev pub set_fields : JobStatus → Option ℕ → Option ℕ → Option String → Option String → Row → Row
set_fields status started_at completed_at result error r = record r {
  status = status;
  started_at = or_old started_at r.started_at;
  completed_at = or_old completed_at r.completed_at;
  result = or_old result r.result;
  error = or_old error r.error;
}

unfoldable pub update_status :
    String
    → String
    → Option ℕ
    → Option ℕ
    → Option String
    → Option String
    → Database
    → Outcome Bool × Database
update_status job_id status started_at completed_at result error db =
    elim (validate_status status) [
      | none ↦ (raised value_error, db)
      | some s ↦ (
        returned (is_some (find_row job_id db.jobs)),
        record db {
          jobs = update_rows job_id (set_fields s started_at completed_at result error) db.jobs;
        },
      )
    ]

abbrev pub mark_cancelled : Row → Row
mark_cancelled r = record r { status = cancelled }

abbrev pub is_pending : Option Row → Bool
is_pending none = false
is_pending (some r) = same_status r.status pending

unfoldable pub cancel_job : String → Database → Outcome Bool × Database
unfolding transaction
cancel_job job_id = transaction λ db.
    if not (is_pending (find_row job_id db.jobs))
    then returned (false, db)
    else returned (
      true,
      record db {
        jobs = update_rows job_id mark_cancelled db.jobs;
        queue = delete_queue job_id db.queue;
      },
    )

-- What a cleanup runs after the DELETE to give the space back.
pub data Maintenance : Type 0 where
  vacuum checkpoint_truncate : Maintenance

abbrev pub vacuum_min_rows : ℕ
vacuum_min_rows = 1000

-- `deleted > VACUUM_MIN_ROWS and deleted > total * VACUUM_MIN_SHARE`, the share being a quarter
unfoldable pub should_vacuum : ℕ → ℕ → Bool
should_vacuum deleted total = ltb vacuum_min_rows deleted && ltb total (deleted * 4)

unfoldable pub maintenance : ℕ → ℕ → List Maintenance
unfolding should_vacuum
maintenance deleted total =
    if ltb 0 deleted
    then (if should_vacuum deleted total
        then vacuum ∷ checkpoint_truncate ∷ []
        else checkpoint_truncate ∷ [])
    else []

-- A cutoff before the epoch removes nothing, as a cutoff of 0 does.
unfoldable pub cleanup_old_jobs : ℕ → ℕ → Database → (ℕ × List Maintenance) × Database
unfolding maintenance
cleanup_old_jobs now retention_period db =
    let cutoff = now - retention_period * 1000000 in
    let total = length db.jobs in
    let deleted = count_if (is_old cutoff) db.jobs in
    ((deleted, maintenance deleted total), delete_old cutoff db)

unfoldable pub get_queue_depth : Database → ℕ
unfolding count_jobs
get_queue_depth = count_jobs (some (status_text pending)) none

pub record QueueStats : Type 0 where
  pub total_jobs : ℕ
  pub n_pending : ℕ
  pub n_processing : ℕ
  pub n_completed : ℕ
  pub n_failed : ℕ
  pub n_cancelled : ℕ

-- The counts of `get_stats`; the average execution time is left out. Each is a query of its own in
-- autocommit mode, between which other connections can write: `reads n` is the database as the
-- query number `n` finds it.
unfoldable pub get_stats : (ℕ → Database) → QueueStats
unfolding count_jobs
get_stats reads = record {
  total_jobs = count_jobs none none (reads 0);
  n_pending = count_jobs (some (status_text pending)) none (reads 1);
  n_processing = count_jobs (some (status_text processing)) none (reads 2);
  n_completed = count_jobs (some (status_text completed)) none (reads 3);
  n_failed = count_jobs (some (status_text failed)) none (reads 4);
  n_cancelled = count_jobs (some (status_text cancelled)) none (reads 5);
}
