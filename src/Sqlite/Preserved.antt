-- ===== src/Sqlite/Preserved.antt =====
-- Each call of the SQLite queue keeps the two tables well formed.
use mathlib.Core.List.{map-append}
use qbt_rules.Prelude.{
  ℕ, ◌+◌, ◌*◌, ◌-◌, String, ◌≡◌, refl, ◌∙◌, Bool, true, false, Option, none, some, [], ◌∷◌, ◌++◌,
  not, eq_refl, arith, is_some, str_eq, eq_iff, Bool-cases, Option-cases, inl, inr, keep,
}
use qbt_rules.Queue.{
  integrity_error, JobStatus, pending, returned, raised, value_error, validate_status, same_status,
}
use qbt_rules.Sqlite.Statements.{
  Row, QueueRow, Database, find_row, insert_job, insert_queue, select_next, update_rows,
  delete_queue, is_old, delete_old,
}
use qbt_rules.Sqlite.Rows.{
  row_ids, queue_ids, Distinct-append, str_in-row_ids, str_in-queue_ids, find_row-append,
  is_queued-append, is_queued-delete, is_queued-cascade, find_row-update, row_ids-update,
  find_row-keep, Distinct-keep,
}
use qbt_rules.Sqlite.{
  enqueue, dequeue, cancel_job, cleanup_old_jobs, update_status, new_row, mark_processing,
  mark_cancelled, set_fields, is_pending, get_job,
}
use qbt_rules.Sqlite.Invariant.{
  IsWellFormed, Numbered-append, Numbered-delete, Numbered-cascade, Distinct-delete,
  Distinct-cascade,
}

-- The two inserts of `enqueue`, where the key is new.
unfoldable pub with_job : Row → Database → Database
with_job r db = record db {
  jobs = db.jobs ++ r ∷ [];
  queue = db.queue ++ (record { id = db.next_id; job_id = r.id; priority = 0 }) ∷ [];
  next_id = db.next_id + 1;
}

with_job-IsWellFormed :
    (r : Row) (db : Database)
    → IsWellFormed db
    → find_row r.id db.jobs ≡ none
    → r.status ≡ pending
    → IsWellFormed (with_job r db)
unfolding with_job
with_job-IsWellFormed r db w new p = record {
  keys =
      let e : row_ids (db.jobs ++ r ∷ []) ≡ row_ids db.jobs ++ r.id ∷ [] =
        map-append _ db.jobs (r ∷ []) in
      rw e (Distinct-append (row_ids db.jobs) r.id w.keys (str_in-row_ids r.id db.jobs ∙ rw new));
  unique =
      let e : queue_ids (db.queue ++ (record { id = db.next_id; job_id = r.id; priority = 0 }) ∷ [])
          ≡ queue_ids db.queue ++ r.id ∷ [] =
        map-append _ db.queue _ in
      rw e (
        Distinct-append (queue_ids db.queue) r.id w.unique
          (str_in-queue_ids r.id db.queue ∙ w.agree r.id ∙ rw new));
  numbered = Numbered-append 0 db.queue db.next_id r.id w.numbered;
  agree = λ k.
      rw (is_queued-append k db.queue _)
        (rw (find_row-append k db.jobs r) (ground (arith, w.agree k, new, p, eq_iff r.id k)));
}

-- `enqueue` under a new key: both inserts succeed.
pub enqueue_new :
    (k : String) (now : ℕ) (context hash : Option String) (dry : Bool) (db : Database)
    → IsWellFormed db
    → find_row k db.jobs ≡ none
    → enqueue k now context hash dry db ≡ (returned k, with_job (new_row k now context hash dry) db)
unfolding enqueue insert_job insert_queue with_job
enqueue_new k now context hash dry db w new =
    ground (arith, find_row-append k db.jobs (new_row k now context hash dry), w.agree k, eq_refl k)

-- `enqueue` under a key that is taken raises and changes nothing.
pub enqueue_taken :
    (k : String) (now : ℕ) (context hash : Option String) (dry : Bool) (db : Database) (r : Row)
    → find_row k db.jobs ≡ some r
    → enqueue k now context hash dry db ≡ (raised integrity_error, db)
unfolding enqueue insert_job
enqueue_taken k now context hash dry db r old = ground arith

pub enqueue-IsWellFormed :
    (k : String) (now : ℕ) (context hash : Option String) (dry : Bool) (db : Database)
    → IsWellFormed db
    → IsWellFormed (enqueue k now context hash dry db).1
enqueue-IsWellFormed k now context hash dry db w = elim (Option-cases (find_row k db.jobs)) [
  | inl new ↦
      rw (enqueue_new k now context hash dry db w new)
        (with_job-IsWellFormed (new_row k now context hash dry) db w new refl)
  | inr (r, old) ↦ rw (enqueue_taken k now context hash dry db r old) w
]

-- One job's row is rewritten to a status that is not pending, and its queue row removed.
unfoldable pub leave_queue : String → (Row → Row) → Database → Database
leave_queue k f db = record db { jobs = update_rows k f db.jobs; queue = delete_queue k db.queue }

module _ (k : String) (f : Row → Row) (keeps_id : (r : Row) → (f r).id ≡ r.id) where
  leave_queue-IsWellFormed :
      (db : Database)
      → ((r : Row) → same_status (f r).status pending ≡ false)
      → IsWellFormed db
      → IsWellFormed (leave_queue k f db)
  unfolding leave_queue
  leave_queue-IsWellFormed db leaves w = record {
    keys = rw (row_ids-update f keeps_id k db.jobs) w.keys;
    unique = Distinct-delete k db.queue w.unique;
    numbered = Numbered-delete k 0 db.queue db.next_id w.numbered;
    agree = λ j. rw (is_queued-delete j k db.queue) (
        rw (find_row-update f keeps_id j k db.jobs) (elim (Option-cases (find_row j db.jobs)) [
          | inl e ↦ rw (w.agree j) (rw e (ground arith))
          | inr (r, e) ↦ rw (w.agree j) (rw e (ground (arith, leaves r)))
        ]));
  }

  -- A job that is not in the queue keeps out of it.
  update-IsWellFormed :
      (db : Database)
      → is_pending (find_row k db.jobs) ≡ false
      → ((r : Row) → same_status (f r).status pending ≡ false)
      → IsWellFormed db
      → IsWellFormed (record db { jobs = update_rows k f db.jobs })
  update-IsWellFormed db out leaves w = record {
    keys = rw (row_ids-update f keeps_id k db.jobs) w.keys;
    unique = w.unique;
    numbered = w.numbered;
    agree = λ j. rw (w.agree j) (
        rw (find_row-update f keeps_id j k db.jobs) (elim (Bool-cases (str_eq k j)) [
          | inl e ↦
              let same = (eq_iff k j).0 e in
              rw e (
                rw (← same) (elim (Option-cases (find_row k db.jobs)) [
                  | inl n ↦ rw n
                  | inr (r, n) ↦ rw n (ground (arith, leaves r, out, n))
                ]))
          | inr e ↦ rw e
        ]));
  }

pub dequeue-none :
    (now : ℕ) (db : Database) → select_next db.queue ≡ none → dequeue now db ≡ (returned none, db)
unfolding dequeue
dequeue-none now db e = ground arith

pub dequeue-some :
    (now : ℕ) (db : Database) (q : QueueRow)
    → select_next db.queue ≡ some q
    → dequeue now db ≡ (
      returned (get_job q.job_id (leave_queue q.job_id (mark_processing now) db)),
      leave_queue q.job_id (mark_processing now) db,
    )
unfolding dequeue leave_queue get_job
dequeue-some now db q e = ground arith

pub cancel_job_pending :
    (k : String) (db : Database)
    → is_pending (find_row k db.jobs) ≡ true
    → cancel_job k db ≡ (returned true, leave_queue k mark_cancelled db)
unfolding cancel_job leave_queue
cancel_job_pending k db e = ground arith

pub cancel_job_other :
    (k : String) (db : Database)
    → is_pending (find_row k db.jobs) ≡ false
    → cancel_job k db ≡ (returned false, db)
unfolding cancel_job
cancel_job_other k db e = ground arith

pub update_status_invalid :
    (k status : String) (started completed : Option ℕ) (result error : Option String)
    (db : Database)
    → validate_status status ≡ none
    → update_status k status started completed result error db ≡ (raised value_error, db)
unfolding update_status
update_status_invalid k status started completed result error db e = ground arith

pub update_status_valid :
    (k status : String) (started completed : Option ℕ) (result error : Option String)
    (db : Database) (s : JobStatus)
    → validate_status status ≡ some s
    → update_status k status started completed result error db ≡ (
      returned (is_some (find_row k db.jobs)),
      record db { jobs = update_rows k (set_fields s started completed result error) db.jobs },
    )
unfolding update_status
update_status_valid k status started completed result error db s e = ground arith

-- Only the text of `pending` reads back as `pending`.
pub validate_status-ne_pending :
    (status : String) (s : JobStatus)
    → validate_status status ≡ some s
    → str_eq status "pending" ≡ false
    → same_status s pending ≡ false
unfolding validate_status
validate_status-ne_pending status s e h = ground arith

pub dequeue-IsWellFormed :
    (now : ℕ) (db : Database) → IsWellFormed db → IsWellFormed (dequeue now db).1
dequeue-IsWellFormed now db w = elim (Option-cases (select_next db.queue)) [
  | inl e ↦ rw (dequeue-none now db e) w
  | inr (q, e) ↦
      rw (dequeue-some now db q e)
        (leave_queue-IsWellFormed q.job_id (mark_processing now) (λ r. refl) db (λ r. refl) w)
]

pub cancel_job-IsWellFormed :
    (k : String) (db : Database) → IsWellFormed db → IsWellFormed (cancel_job k db).1
cancel_job-IsWellFormed k db w = elim (Bool-cases (is_pending (find_row k db.jobs))) [
  | inl e ↦
      rw (cancel_job_pending k db e)
        (leave_queue-IsWellFormed k mark_cancelled (λ r. refl) db (λ r. refl) w)
  | inr e ↦ rw (cancel_job_other k db e) w
]

-- The worker's calls: the job has left the queue, and the new status is not pending.
pub update_status-IsWellFormed :
    (k status : String) (started completed : Option ℕ) (result error : Option String)
    (db : Database)
    → is_pending (find_row k db.jobs) ≡ false
    → str_eq status "pending" ≡ false
    → IsWellFormed db
    → IsWellFormed (update_status k status started completed result error db).1
update_status-IsWellFormed k status started completed result error db out other w =
    elim (Option-cases (validate_status status)) [
      | inl e ↦ rw (update_status_invalid k status started completed result error db e) w
      | inr (s, e) ↦ rw (update_status_valid k status started completed result error db s e) (
          update-IsWellFormed k (set_fields s started completed result error) (λ r. refl) db out
            (λ r. validate_status-ne_pending status s e other) w)
    ]

pub cleanup_old_jobs-IsWellFormed :
    (now retention : ℕ) (db : Database)
    → IsWellFormed db
    → IsWellFormed (cleanup_old_jobs now retention db).1
unfolding cleanup_old_jobs delete_old
cleanup_old_jobs-IsWellFormed now retention db w =
    let cutoff = now - retention * 1000000 in
    record {
      keys = Distinct-keep _ db.jobs w.keys;
      unique = Distinct-cascade (keep (is_old cutoff) db.jobs) db.queue w.unique;
      numbered = Numbered-cascade (keep (is_old cutoff) db.jobs) 0 db.queue db.next_id w.numbered;
      agree = λ k. rw (is_queued-cascade k (keep (is_old cutoff) db.jobs) db.queue) (
          rw (find_row-keep (λ r. not (is_old cutoff r)) k db.jobs w.keys) (
            rw (find_row-keep (is_old cutoff) k db.jobs w.keys) (
              rw (w.agree k) (elim (Option-cases (find_row k db.jobs)) [
                | inl e ↦ rw e
                | inr (r, e) ↦ rw e (unfold is_old in ground arith)
              ]))));
    }
