-- ===== src/Sqlite/Lifecycle.antt =====
-- The life of the queue: the calls that the server, the worker and the scheduler make, in any order.
use qbt_rules.Prelude.{
  ℕ, String, ◌≡◌, refl, sym, ◌∙◌, ap, Bool, true, false, Option, none, some, List, [], ◌∷◌, not,
  eq_refl, arith, if◌then◌else◌, str_eq, eq_iff, Bool-cases, Option-cases, inl, inr, ◌*◌, ◌-◌,
}
use mathlib.Core.Option
use qbt_rules.Queue.{
  JobStatus, pending, processing, cancelled, validate_status, same_status, is_finished,
}
use qbt_rules.Sqlite.Statements.{
  Row, QueueRow, Database, find_row, is_queued, update_rows, select_next, is_old, delete_old,
}
use qbt_rules.Sqlite.Rows.{find_row-update, find_row-append, find_row-keep, only_if, or_else}
use qbt_rules.Sqlite.{
  enqueue, dequeue, cancel_job, update_status, cleanup_old_jobs, new_row, mark_processing,
  mark_cancelled, set_fields, is_pending,
}
use qbt_rules.Sqlite.Invariant.{IsWellFormed}
use qbt_rules.Sqlite.Preserved.{
  enqueue-IsWellFormed, dequeue-IsWellFormed, cancel_job-IsWellFormed, update_status-IsWellFormed,
  cleanup_old_jobs-IsWellFormed, enqueue_new, enqueue_taken, dequeue-none, dequeue-some,
  cancel_job_pending, cancel_job_other, update_status_valid, update_status_invalid,
  validate_status-ne_pending, leave_queue, with_job,
}

abbrev pub empty : Database
empty = record { jobs = []; queue = []; next_id = 1 }

abbrev pub status_of : String → Database → Option JobStatus
status_of k db = Option.map (λ r. r.status) (find_row k db.jobs)

-- One call. `update_status` itself does not look at the old status, and takes any valid new one. A
-- call of it counts here if the job is not pending, as it is once the worker has dequeued it, and the
-- new status is not pending either.
pub data Call : Database → Database → Type 0 where
  enqueues :
      (db : Database) (k : String) (now : ℕ) (context hash : Option String) (dry : Bool)
      → Call db (enqueue k now context hash dry db).1
  dequeues : (db : Database) (now : ℕ) → Call db (dequeue now db).1
  cancels : (db : Database) (k : String) → Call db (cancel_job k db).1
  updates :
      (db : Database) (k status : String) (started completed_at : Option ℕ)
      (result error : Option String)
      → is_pending (find_row k db.jobs) ≡ false
      → str_eq status "pending" ≡ false
      → Call db (update_status k status started completed_at result error db).1
  cleans : (db : Database) (now retention : ℕ) → Call db (cleanup_old_jobs now retention db).1

pub data Reaches (start : Database) : Database → Type 0 where
  here : Reaches start start
  next : {a b : Database} → Reaches start a → Call a b → Reaches start b

pub Call-IsWellFormed : {a b : Database} → Call a b → IsWellFormed a → IsWellFormed b
Call-IsWellFormed (enqueues db k now context hash dry) w =
    enqueue-IsWellFormed k now context hash dry db w
Call-IsWellFormed (dequeues db now) w = dequeue-IsWellFormed now db w
Call-IsWellFormed (cancels db k) w = cancel_job-IsWellFormed k db w
Call-IsWellFormed (updates db k status started done result error out other) w =
    update_status-IsWellFormed k status started done result error db out other w
Call-IsWellFormed (cleans db now retention) w = cleanup_old_jobs-IsWellFormed now retention db w

empty-IsWellFormed : IsWellFormed empty
unfolding find_row is_queued
empty-IsWellFormed = record { keys = tt; unique = tt; numbered = omega arith; agree = λ k. refl }

-- After any sequence of calls on an empty queue in which each update_status is of a job that is
-- not pending, or not there, and to a text other than pending, keys stay unique, queue rows stay
-- numbered, and a job waits in the queue exactly while its status is pending.
pub Reaches-IsWellFormed : {db : Database} → Reaches empty db → IsWellFormed db
Reaches-IsWellFormed here = empty-IsWellFormed
Reaches-IsWellFormed (next r c) = Call-IsWellFormed c (Reaches-IsWellFormed r)

pub data Operation : Type 0 where
  enqueuing dequeuing cancelling updating cleaning : Operation

abbrev pub operation : {a b : Database} → Call a b → Operation
operation (enqueues db k now context hash dry) = enqueuing
operation (dequeues db now) = dequeuing
operation (cancels db k) = cancelling
operation (updates db k status started completed_at result error out other) = updating
operation (cleans db now retention) = cleaning

-- The edges of a job's life, as one call of an operation can change its status; `none` is a job that
-- does not exist.
pub data Edge : Operation → Option JobStatus → Option JobStatus → Type 0 where
  stays : {o : Operation} → {s : Option JobStatus} → Edge o s s
  created : Edge enqueuing none (some pending)
  taken : Edge dequeuing (some pending) (some processing)
  withdrawn : Edge cancelling (some pending) (some cancelled)
  updated :
      (s t : JobStatus)
      → same_status s pending ≡ false
      → same_status t pending ≡ false
      → Edge updating (some s) (some t)
  removed : (s : JobStatus) → is_finished s ≡ true → Edge cleaning (some s) none

-- An UPDATE of one row moves no other job, and that one along its edge.
module _ (k : String) (f : Row → Row) (keeps_id : (r : Row) → (f r).id ≡ r.id) (db : Database) where
  Edge-update :
      (o : Operation) (j : String)
      → ((r : Row) → find_row k db.jobs ≡ some r → Edge o (some r.status) (some (f r).status))
      → Edge o
          (Option.map (λ r. r.status) (find_row j db.jobs))
          (Option.map (λ r. r.status) (find_row j (update_rows k f db.jobs)))
  Edge-update o j moves =
      rw (find_row-update f keeps_id j k db.jobs) (elim (Bool-cases (str_eq k j)) [
        | inl e ↦
            rw (e, ← (eq_iff k j).0 e)
              (elim (Option-cases (find_row k db.jobs)) [
                | inl n ↦ rw n stays
                | inr (r, n) ↦ rw n (moves r n)
              ])
        | inr e ↦ rw e stays
      ])

Edge-created :
    (r : Row) (rs : List Row) (j : String)
    → r.status ≡ pending
    → Edge enqueuing (Option.map (λ r. r.status) (find_row j rs)) (
        Option.map
          (λ r. r.status)
          (or_else (find_row j rs) (if str_eq r.id j then some r else none)))
Edge-created r rs j p = elim (Option-cases (find_row j rs)) [
  | inl n ↦
      rw n (elim (Bool-cases (str_eq r.id j)) [ inl e ↦ rw (e, p) created | inr e ↦ rw e stays ])
  | inr (x, n) ↦ rw n stays
]

pending_row : (r : Row) → same_status r.status pending ≡ true → r.status ≡ pending
pending_row r h = ground arith

pub select_next-is_queued :
    (qs : List QueueRow) (q : QueueRow) → select_next qs ≡ some q → is_queued q.job_id qs ≡ true
unfolding select_next is_queued
select_next-is_queued [] q h = cc
select_next-is_queued (x ∷ xs) q h = elim (Option-cases (select_next xs)) [
  | inl n ↦ ground (arith, n, eq_refl q.job_id)
  | inr (y, n) ↦ ground (arith, n, eq_refl q.job_id, select_next-is_queued xs y n)
]

not_pending :
    (r : Row) (o : Option Row)
    → o ≡ some r
    → is_pending o ≡ false
    → same_status r.status pending ≡ false
not_pending r o found h = sym (ap is_pending found) ∙ h

Edge-removed :
    (cutoff : ℕ) (o : Option Row)
    → Edge cleaning
        (Option.map (λ r. r.status) o)
        (Option.map (λ r. r.status) (only_if (λ r. not (is_old cutoff r)) o))
unfolding is_old
Edge-removed cutoff none = stays
Edge-removed cutoff (some r) = elim (Bool-cases (is_old cutoff r)) [
  | inl e ↦ rw e (removed r.status (ground (arith, e)))
  | inr e ↦ rw e stays
]

-- From well-formed tables, a call changes the status of a job only as its operation may: an
-- enqueue makes a new job pending, a dequeue takes a pending job to processing, a cancel takes a
-- pending job to cancelled, a cleanup removes a finished job, and an update_status, made of a job
-- that is not pending, or not there, and to a text other than pending, leads from one status that
-- is not pending to another; every other status stays as it was.
pub Call-Edge :
    {a b : Database} (c : Call a b)
    → IsWellFormed a
    → (j : String) → Edge (operation c) (status_of j a) (status_of j b)
Call-Edge (enqueues db k now context hash dry) w j = elim (Option-cases (find_row k db.jobs)) [
  | inl n ↦ rw (enqueue_new k now context hash dry db w n) (
      unfold with_job in
      rw (find_row-append j db.jobs (new_row k now context hash dry))
        (Edge-created (new_row k now context hash dry) db.jobs j refl))
  | inr (r, n) ↦ rw (enqueue_taken k now context hash dry db r n) stays
]
Call-Edge (dequeues db now) w j = elim (Option-cases (select_next db.queue)) [
  | inl n ↦ rw (dequeue-none now db n) stays
  | inr (q, n) ↦ rw (dequeue-some now db q n) (
      unfold leave_queue in
      Edge-update q.job_id (mark_processing now) (λ r. refl) db dequeuing j
        λ r found.
          rw
            (pending_row r (
              sym (ap is_pending found)
              ∙ sym (w.agree q.job_id)
              ∙ select_next-is_queued db.queue q n))
            taken)
]
Call-Edge (cancels db k) w j = elim (Bool-cases (is_pending (find_row k db.jobs))) [
  | inl e ↦ rw (cancel_job_pending k db e) (
      unfold leave_queue in
      Edge-update k mark_cancelled (λ r. refl) db cancelling j
        λ r found. rw (pending_row r (sym (ap is_pending found) ∙ e)) withdrawn)
  | inr e ↦ rw (cancel_job_other k db e) stays
]
Call-Edge (updates db k status started done result error out other) w j =
    elim (Option-cases (validate_status status)) [
      | inl e ↦ rw (update_status_invalid k status started done result error db e) stays
      | inr (s, e) ↦ rw (update_status_valid k status started done result error db s e) (
          Edge-update k (set_fields s started done result error) (λ r. refl) db updating j
            λ r found.
              updated r.status s (not_pending r (find_row k db.jobs) found out)
                (validate_status-ne_pending status s e other))
    ]
Call-Edge (cleans db now retention) w j =
    unfold cleanup_old_jobs delete_old in
    rw (find_row-keep (λ r. not (is_old (now - retention * 1000000) r)) j db.jobs w.keys)
      (Edge-removed (now - retention * 1000000) (find_row j db.jobs))
