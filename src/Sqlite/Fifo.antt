-- ===== src/Sqlite/Fifo.antt =====
-- The queue table as a first-in first-out queue of job ids.
use mathlib.Core.Path.{ap₂}
use mathlib.Core.List.{map-append, head?}
use qbt_rules.Prelude.{
  ℕ, zero, suc, String, ◌≡◌, refl, sym, ◌∙◌, ap, Bool, true, false, Option, none, some, List, [],
  ◌∷◌, ◌++◌, map, eq_refl, arith, eq_iff, Distinct, Option-cases, inl, inr, str_in, length,
}
use qbt_rules.Queue.{Job, Outcome, returned, raised}
use qbt_rules.Sqlite.Statements.{
  Row, QueueRow, Database, find_row, is_queued, select_next, delete_queue,
}
use qbt_rules.Sqlite.Rows.{queue_ids, find_row-update}
use qbt_rules.Sqlite.{enqueue, dequeue, get_job, mark_processing, is_pending, row_to_dict}
use qbt_rules.Sqlite.Invariant.{IsWellFormed, Numbered}
use qbt_rules.Sqlite.Preserved.{
  with_job, enqueue_new, dequeue-none, dequeue-some, dequeue-IsWellFormed, leave_queue,
}

-- The abstract queue: the ids that wait, the next one first.
unfoldable pub waiting : Database → List String
waiting db = queue_ids db.queue

-- The row of the smallest key comes first, since all priorities are 0.
select_next-head :
    (lo : ℕ) (qs : List QueueRow) (hi : ℕ) → Numbered lo qs hi → select_next qs ≡ head? qs
unfolding select_next
select_next-head lo [] hi n = refl
select_next-head lo (q ∷ []) hi n = refl
select_next-head lo (q ∷ p ∷ qs) hi n = ground (arith, select_next-head (suc q.id) (p ∷ qs) hi n.2)

delete_queue-missing :
    (k : String) (qs : List QueueRow) → str_in k (queue_ids qs) ≡ false → delete_queue k qs ≡ qs
unfolding delete_queue
delete_queue-missing k [] h = refl
delete_queue-missing k (q ∷ qs) h =
    ground (arith, delete_queue-missing k qs, eq_iff k q.job_id, eq_iff q.job_id k)

delete_queue-head :
    (q : QueueRow) (qs : List QueueRow)
    → Distinct (queue_ids (q ∷ qs))
    → delete_queue q.job_id (q ∷ qs) ≡ qs
unfolding delete_queue
delete_queue-head q qs d = rw (eq_refl q.job_id) (delete_queue-missing q.job_id qs d.0)

-- The id of the job that a dequeue hands out.
abbrev pub served : Outcome (Option Job) → Option String
served (returned none) = none
served (returned (some job)) = some job.job_id
served (raised e) = none

abbrev pub rest_of : List String → List String
rest_of [] = []
rest_of (k ∷ ks) = ks

pub find_row-id : (k : String) (rs : List Row) (r : Row) → find_row k rs ≡ some r → r.id ≡ k
unfolding find_row
find_row-id k [] r h = cc
find_row-id k (x ∷ xs) r h = ground (arith, find_row-id k xs r, eq_iff x.id k)

-- A queued job is found after the statements of `dequeue`, now processing.
pub queued_row :
    (now : ℕ) (k : String) (db : Database)
    → is_pending (find_row k db.jobs) ≡ true
    → (r : Row) × (find_row k db.jobs ≡ some r)
      × (get_job k (leave_queue k (mark_processing now) db)
          ≡ some (row_to_dict (mark_processing now r)))
unfolding get_job leave_queue
queued_row now k db h = elim (Option-cases (find_row k db.jobs)) [
  | inl e ↦ ground (arith, e, h)
  | inr (r, e) ↦ (
    r,
    e,
    rw (find_row-update (mark_processing now) (λ r. refl) k k db.jobs) (rw (eq_refl k) (rw e)),
  )
]

dequeue_cases :
    (now : ℕ) (db : Database) (qs : List QueueRow)
    → db.queue ≡ qs
    → IsWellFormed db
    → (served (dequeue now db).0 ≡ head? (queue_ids qs))
      × (waiting (dequeue now db).1 ≡ rest_of (queue_ids qs))
unfolding waiting
dequeue_cases now db [] e w =
    rw (dequeue-none now db (select_next-head 0 db.queue db.next_id w.numbered ∙ ap head? e))
      (refl, ap queue_ids e)
dequeue_cases now db (q ∷ qs) e w =
    let first = select_next-head 0 db.queue db.next_id w.numbered ∙ ap head? e in
    let there : is_queued q.job_id db.queue ≡ true =
      ap (is_queued q.job_id) e ∙ unfold is_queued in rw (eq_refl q.job_id) in
    let (r, found, got) = queued_row now q.job_id db (sym (w.agree q.job_id) ∙ there) in
    rw (dequeue-some now db q first) (
      rw got (unfold row_to_dict in ap some (find_row-id q.job_id db.jobs r found)),
      unfold leave_queue in
          ap (λ x. queue_ids (delete_queue q.job_id x)) e
          ∙ ap queue_ids (delete_queue-head q qs (rw e at w.unique)),
    )

-- From well-formed tables, a dequeue hands out the job at the head of the queue and removes that
-- job alone; on an empty queue it returns None.
pub dequeue_fifo :
    (now : ℕ) (db : Database)
    → IsWellFormed db
    → (served (dequeue now db).0 ≡ head? (waiting db))
      × (waiting (dequeue now db).1 ≡ rest_of (waiting db))
unfolding waiting
dequeue_fifo now db w = dequeue_cases now db db.queue refl w

-- From well-formed tables, an enqueue under a fresh id puts the job at the end of the queue.
pub enqueue_fifo :
    (k : String) (now : ℕ) (context hash : Option String) (dry : Bool) (db : Database)
    → IsWellFormed db
    → find_row k db.jobs ≡ none
    → waiting (enqueue k now context hash dry db).1 ≡ waiting db ++ k ∷ []
unfolding waiting with_job
enqueue_fifo k now context hash dry db w new =
    rw (enqueue_new k now context hash dry db w new) (map-append _ db.queue _)

-- The ids that `n` dequeues in a row hand out.
unfoldable pub drain : ℕ → ℕ → Database → List (Option String)
drain now zero db = []
drain now (suc n) db = served (dequeue now db).0 ∷ drain now n (dequeue now db).1

drain_all :
    (now : ℕ) (ks : List String) (db : Database)
    → IsWellFormed db
    → waiting db ≡ ks
    → drain now (length ks) db ≡ map some ks
unfolding drain
drain_all now [] db w e = refl
drain_all now (k ∷ ks) db w e =
    let (first, rest) = dequeue_fifo now db w in
    ap₂ ◌∷◌ (first ∙ ap head? e)
      (drain_all now ks (dequeue now db).1 (dequeue-IsWellFormed now db w) (rest ∙ ap rest_of e))

-- From well-formed tables, as many dequeues as jobs wait hand out every waiting job once, in the
-- order of the queue.
pub drain_in_order :
    (now : ℕ) (db : Database)
    → IsWellFormed db
    → drain now (length (waiting db)) db ≡ map some (waiting db)
drain_in_order now db w = drain_all now (waiting db) db w refl
