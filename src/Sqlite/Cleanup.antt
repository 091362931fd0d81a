-- ===== src/Sqlite/Cleanup.antt =====
-- What a cleanup removes, and what a status update writes.
use qbt_rules.Prelude.{
  ℕ, ◌+◌, ◌*◌, ◌-◌, String, ◌≡◌, refl, sym, ◌∙◌, ap, Bool, true, false, ◌&&◌, ◌==◌, Option, none,
  some, List, [], ◌∷◌, not, eq_refl, arith, if◌then◌else◌, str_eq, keep, length, count_if, ltb,
}
use mathlib.Core.Option
use qbt_rules.Queue.{JobStatus, pending, validate_status, same_status, is_finished}
use qbt_rules.Sqlite.Statements.{
  Row, QueueRow, Database, find_row, is_queued, is_old, delete_old, finished_at, cascade,
}
use qbt_rules.Sqlite.Rows.{or_else, queue_ids, find_row-update, find_row-keep, only_if}
use qbt_rules.Sqlite.{get_job, update_status, cleanup_old_jobs, set_fields, is_pending, row_to_dict}
use qbt_rules.Sqlite.Invariant.{IsWellFormed}
use qbt_rules.Sqlite.Fifo.{waiting}
use qbt_rules.Sqlite.Preserved.{update_status_valid}

length-keep-not :
    (p : Row → Bool) (rs : List Row) → count_if p rs + length (keep (λ r. not (p r)) rs) ≡ length rs
length-keep-not p [] = omega arith
length-keep-not p (r ∷ rs) = ground (arith, length-keep-not p rs)

-- From well-formed tables, a cleanup removes exactly the finished jobs that are older than the
-- retention period, leaves every other job as it was, and returns how many it removed.
pub cleanup_exact :
    (now retention : ℕ) (db : Database) (k : String)
    → IsWellFormed db
    → let after = (cleanup_old_jobs now retention db).1 in
      (find_row k after.jobs
        ≡ only_if
            (λ r. not (is_finished r.status && ltb (finished_at r) (now - retention * 1000000)))
            (find_row k db.jobs))
      × ((cleanup_old_jobs now retention db).0.0 + length after.jobs ≡ length db.jobs)
unfolding cleanup_old_jobs delete_old is_old
cleanup_exact now retention db k w = (
  find_row-keep (λ r. not (is_old (now - retention * 1000000) r)) k db.jobs w.keys,
  length-keep-not (is_old (now - retention * 1000000)) db.jobs,
)

is_old_pending :
    (cutoff : ℕ) (r : Row) → same_status r.status pending ≡ true → is_old cutoff r ≡ false
unfolding is_old
is_old_pending cutoff r h = ground arith

-- Nothing that waits leaves the queue by a cleanup.
cascade-none :
    (gone : List Row) (qs : List QueueRow)
    → ((k : String) → is_queued k qs ≡ true → find_row k gone ≡ none)
    → cascade gone qs ≡ qs
unfolding cascade is_queued
cascade-none gone [] h = refl
cascade-none gone (q ∷ qs) h =
    rw (h q.job_id (rw (eq_refl q.job_id)))
      (ap (λ x. q ∷ x) (cascade-none gone qs (λ k e. h k (ground arith))))

-- From well-formed tables, a cleanup leaves the queue of waiting jobs as it was.
pub cleanup_keeps_waiting :
    (now retention : ℕ) (db : Database)
    → IsWellFormed db
    → waiting (cleanup_old_jobs now retention db).1 ≡ waiting db
unfolding waiting cleanup_old_jobs delete_old
cleanup_keeps_waiting now retention db w =
    let cutoff = now - retention * 1000000 in
    ap queue_ids (
      cascade-none (keep (is_old cutoff) db.jobs) db.queue λ k e.
        find_row-keep (is_old cutoff) k db.jobs w.keys
        ∙ pending_not_old cutoff (find_row k db.jobs) (sym (w.agree k) ∙ e))
  where
    pending_not_old :
        (cutoff : ℕ) (o : Option Row) → is_pending o ≡ true → only_if (is_old cutoff) o ≡ none
    pending_not_old cutoff none h = refl
    pending_not_old cutoff (some r) h = ground (arith, is_old_pending cutoff r h)

-- A stored text, where an empty one stands for none.
abbrev pub text_of : Option String → Option String
text_of none = none
text_of (some t) = if str_eq t "" then none else some t

-- After an update to a valid status, get_job reads from the updated job that status, each of the
-- fields started_at, completed_at, result and error as given or else as before, and id, context,
-- hash, dry_run and created_at as before; it reads any other job as before.
pub get_job-update_status :
    (j k status : String) (started done : Option ℕ) (result error : Option String) (db : Database)
    (s : JobStatus)
    → validate_status status ≡ some s
    → get_job j (update_status k status started done result error db).1 ≡ (
        if str_eq k j
        then Option.map
            (λ r. record {
              job_id = r.id;
              context = r.context;
              hash = r.hash;
              dry_run = not (r.dry_run == 0);
              status = s;
              created_at = r.created_at;
              started_at = or_else started r.started_at;
              completed_at = or_else done r.completed_at;
              result = text_of (or_else result r.result);
              error = or_else error r.error;
            })
            (find_row j db.jobs)
        else get_job j db)
unfolding get_job row_to_dict
get_job-update_status j k status started done result error db s e =
    rw (update_status_valid k status started done result error db s e) (
      rw (find_row-update (set_fields s started done result error) (λ r. refl) j k db.jobs)
        (updated (str_eq k j) (find_row j db.jobs)))
  where
    updated :
        (b : Bool) (o : Option Row)
        → Option.map row_to_dict
            (if b then Option.map (set_fields s started done result error) o else o)
          ≡ (if b
              then Option.map (λ r. row_to_dict (set_fields s started done result error r)) o
              else Option.map row_to_dict o)
    updated true none = refl
    updated true (some r) = refl
    updated false o = refl
