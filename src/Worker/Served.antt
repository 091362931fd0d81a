-- ===== src/Worker/Served.antt =====
-- What the worker (src/qbt_rules/worker.py) relies on in the queue: the job that it is handed, and its end.
use mathlib.Core.Option
use qbt_rules.Prelude.{
  ℕ, String, ◌≡◌, refl, sym, ◌∙◌, ap, false, Option, none, some, arith, eq_refl, Option-cases, inl,
  inr, str_eq,
}
use qbt_rules.Queue.{Job, JobStatus, processing, validate_status, returned, raised, Outcome}
use qbt_rules.Sqlite.Statements.{Row, Database, find_row, select_next}
use qbt_rules.Sqlite.Rows.{queue_ids, find_row-update}
use qbt_rules.Sqlite.{dequeue, update_status, is_pending, set_fields, mark_processing, row_to_dict}
use qbt_rules.Sqlite.Invariant.{IsWellFormed}
use qbt_rules.Sqlite.Preserved.{
  dequeue-none, dequeue-some, leave_queue, update_status_valid, update_status-IsWellFormed,
}
use qbt_rules.Sqlite.Fifo.{waiting, queued_row, find_row-id}
use qbt_rules.Sqlite.Lifecycle.{status_of, select_next-is_queued}

-- The queue after a job's end.
pub record Ended (k : String) (s : JobStatus) (before after : Database) : Type 0 where
  pub formed : IsWellFormed after
  pub same_waiting : waiting after ≡ waiting before
  pub status : status_of k after ≡ some s

processing_out :
    (k : String) (db : Database)
    → status_of k db ≡ some processing
    → is_pending (find_row k db.jobs) ≡ false
processing_out k db h = ground arith

settled :
    (s : JobStatus) (started finished_at : Option ℕ) (result error : Option String) (o : Option Row)
    → Option.map (λ r. r.status) o ≡ some processing
    → Option.map (λ r. r.status) (Option.map (set_fields s started finished_at result error) o)
      ≡ some s
settled s started finished_at result error none h = ground (arith, h)
settled s started finished_at result error (some r) h = refl

pub update_status-Ended :
    (k text : String) (s : JobStatus) (started finished_at : Option ℕ)
    (result error : Option String) (db : Database)
    → validate_status text ≡ some s
    → str_eq text "pending" ≡ false
    → status_of k db ≡ some processing
    → IsWellFormed db
    → Ended k s db (update_status k text started finished_at result error db).1
unfolding waiting
update_status-Ended k text s started finished_at result error db valid other at w =
    let e = update_status_valid k text started finished_at result error db s valid in
    record {
      formed =
          update_status-IsWellFormed k text started finished_at result error db
            (processing_out k db at) other w;
      same_waiting = ap (λ m. queue_ids (m.1.queue)) e;
      status =
          ap (λ m. status_of k (m.1)) e
          ∙ rw
              (find_row-update (set_fields s started finished_at result error) (λ r. refl) k k
                db.jobs)
              (rw (eq_refl k) (settled s started finished_at result error (find_row k db.jobs) at));
    }

-- A job that a dequeue hands out is processing then.
abbrev pub Handed : Outcome (Option Job) × Database → Type 0
Handed (returned (some job), db) = status_of job.job_id db ≡ some processing
Handed (returned none, db) = Unit {0}
Handed (raised e, db) = Unit {0}

handed :
    (now : ℕ) (k : String) (db : Database) (r : Row)
    → find_row k db.jobs ≡ some r
    → status_of
        (row_to_dict (mark_processing now r)).job_id
        (leave_queue k (mark_processing now) db)
      ≡ some processing
unfolding row_to_dict leave_queue
handed now k db r found =
    rw (find_row-id k db.jobs r found) (
      rw (find_row-update (mark_processing now) (λ r. refl) k k db.jobs)
        (rw (eq_refl k) (rw found)))

pub dequeue-Handed : (now : ℕ) (db : Database) → IsWellFormed db → Handed (dequeue now db)
dequeue-Handed now db w = elim (Option-cases (select_next db.queue)) [
  | inl e ↦ rw (dequeue-none now db e) tt
  | inr (q, e) ↦
      let queued = select_next-is_queued db.queue q e in
      let (r, found, got) = queued_row now q.job_id db (sym (w.agree q.job_id) ∙ queued) in
      rw (dequeue-some now db q e) (rw got (handed now q.job_id db r found))
]
