-- ===== src/Sqlite/Statements.antt =====
-- The SQL statements of src/qbt_rules/queue_backends/sqlite_queue.py, on the rows of the two tables.
use qbt_rules.Prelude.{
  ℕ, ◌+◌, String, Bool, true, false, ◌&&◌, ◌||◌, Option, none, some, List, [], ◌∷◌, ◌++◌, ltb,
  if◌then◌else◌, keep, is_some, str_eq, ◌==◌, not,
}
use qbt_rules.Queue.{
  JobStatus, Outcome, returned, raised, integrity_error, is_finished, status_text,
}

-- A row of `jobs`: `dry_run` is an INTEGER, the nullable columns are options.
pub record Row : Type 0 where
  pub id : String
  pub context : Option String
  pub hash : Option String
  pub status : JobStatus
  pub created_at : ℕ
  pub started_at : Option ℕ
  pub completed_at : Option ℕ
  pub result : Option String
  pub error : Option String
  pub dry_run : ℕ

-- A row of `queue`: `id` is its AUTOINCREMENT key.
pub record QueueRow : Type 0 where
  pub id : ℕ
  pub job_id : String
  pub priority : ℕ

pub record Database : Type 0 where
  pub jobs : List Row
  pub queue : List QueueRow
  -- the next AUTOINCREMENT value
  pub next_id : ℕ

-- SELECT * FROM jobs WHERE id = ?
unfoldable pub find_row : String → List Row → Option Row
find_row k [] = none
find_row k (r ∷ rs) = if str_eq r.id k then some r else find_row k rs

-- SELECT 1 FROM queue WHERE job_id = ?
unfoldable pub is_queued : String → List QueueRow → Bool
is_queued k [] = false
is_queued k (q ∷ qs) = str_eq q.job_id k || is_queued k qs

-- INSERT INTO jobs: the primary key must be new.
unfoldable pub insert_job : Row → Database → Outcome Database
insert_job r db =
    if is_some (find_row r.id db.jobs)
    then raised integrity_error
    else returned (record db { jobs = db.jobs ++ r ∷ [] })

-- INSERT INTO queue (job_id, priority): `job_id` is UNIQUE and refers to a row of `jobs`.
unfoldable pub insert_queue : String → ℕ → Database → Outcome Database
insert_queue k p db =
    if is_queued k db.queue || not (is_some (find_row k db.jobs))
    then raised integrity_error
    else returned (record db {
      queue = db.queue ++ (record { id = db.next_id; job_id = k; priority = p }) ∷ [];
      next_id = db.next_id + 1;
    })

-- Which of two queue rows ORDER BY priority DESC, id ASC puts first.
abbrev pub comes_before : QueueRow → QueueRow → Bool
comes_before a b = ltb b.priority a.priority || (a.priority == b.priority && ltb a.id b.id)

abbrev pub better : QueueRow → Option QueueRow → QueueRow
better a none = a
better a (some b) = if comes_before b a then b else a

-- SELECT job_id FROM queue ORDER BY priority DESC, id ASC LIMIT 1
unfoldable pub select_next : List QueueRow → Option QueueRow
select_next [] = none
select_next (q ∷ qs) = some (better q (select_next qs))

-- UPDATE jobs SET ... WHERE id = ?
unfoldable pub update_rows : String → (Row → Row) → List Row → List Row
update_rows k f [] = []
update_rows k f (r ∷ rs) = (if str_eq r.id k then f r else r) ∷ update_rows k f rs

-- DELETE FROM queue WHERE job_id = ?
unfoldable pub delete_queue : String → List QueueRow → List QueueRow
delete_queue k [] = []
delete_queue k (q ∷ qs) =
    let rest = delete_queue k qs in if str_eq q.job_id k then rest else q ∷ rest

-- COALESCE(completed_at, created_at)
abbrev pub finished_at : Row → ℕ
finished_at r = elim r.completed_at [ none ↦ r.created_at | some t ↦ t ]

-- The WHERE clause of the cleanup.
unfoldable pub is_old : ℕ → Row → Bool
is_old cutoff r = is_finished r.status && ltb (finished_at r) cutoff

-- ON DELETE CASCADE: the queue rows whose job is deleted go with it.
unfoldable pub cascade : List Row → List QueueRow → List QueueRow
cascade deleted [] = []
cascade deleted (q ∷ qs) =
    let rest = cascade deleted qs in if is_some (find_row q.job_id deleted) then rest else q ∷ rest

-- DELETE FROM jobs WHERE ..., and the rows that it removes from `queue`.
unfoldable pub delete_old : ℕ → Database → Database
unfolding is_old cascade
delete_old cutoff db = record db {
  jobs = keep (λ r. not (is_old cutoff r)) db.jobs;
  queue = cascade (keep (is_old cutoff) db.jobs) db.queue;
}

-- AND status = ? AND context = ?, each only if the argument is given and not empty.
abbrev pub given : Option String → Option String
given none = none
given (some t) = if str_eq t "" then none else some t

abbrev pub text_matches : Option String → Option String → Bool
text_matches none column = true
text_matches (some t) none = false
text_matches (some t) (some c) = str_eq c t

unfoldable pub matches_filters : Option String → Option String → Row → Bool
matches_filters status context r =
    text_matches (given status) (some (status_text r.status))
    && text_matches (given context) r.context

-- ORDER BY created_at DESC, rows of one time in table order.
unfoldable pub insert_row : Row → List Row → List Row
insert_row r [] = r ∷ []
insert_row r (x ∷ xs) =
    let rest = insert_row r xs in if ltb r.created_at x.created_at then x ∷ rest else r ∷ x ∷ xs

unfoldable pub sort_rows : List Row → List Row
unfolding insert_row
sort_rows [] = []
sort_rows (r ∷ rs) = insert_row r (sort_rows rs)
