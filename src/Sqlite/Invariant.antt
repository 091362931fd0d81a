-- ===== src/Sqlite/Invariant.antt =====
-- What holds of the two tables between two calls, and that each call keeps it.
use qbt_rules.Prelude.{
  ℕ, suc, ◌+◌, ◌≤◌, String, ◌≡◌, refl, false, List, [], ◌∷◌, ◌++◌, arith, is_some, str_eq, Distinct,
  Bool-cases, inl, inr, str_in,
}
use qbt_rules.Sqlite.Statements.{
  Row, QueueRow, Database, find_row, is_queued, delete_queue, cascade,
}
use qbt_rules.Sqlite.Rows.{row_ids, queue_ids}
use qbt_rules.Sqlite.{is_pending}

-- Queue rows stand in the order of their keys, below the next key, all with priority 0.
abbrev pub Numbered : ℕ → List QueueRow → ℕ → Type 0
Numbered lo [] hi = lo ≤ hi
Numbered lo (q ∷ qs) hi = (lo ≤ q.id) × (q.priority ≡ 0) × Numbered (suc q.id) qs hi

pub record IsWellFormed (db : Database) : Type 0 where
  -- the primary key of `jobs`
  pub keys : Distinct (row_ids db.jobs)
  -- `job_id` is UNIQUE in `queue`
  pub unique : Distinct (queue_ids db.queue)
  pub numbered : Numbered 0 db.queue db.next_id
  -- a job is in the queue exactly while its status is pending
  pub agree : (k : String) → is_queued k db.queue ≡ is_pending (find_row k db.jobs)

Numbered-weaken :
    (lo lo' : ℕ) (qs : List QueueRow) (hi : ℕ) → lo' ≤ lo → Numbered lo qs hi → Numbered lo' qs hi
Numbered-weaken lo lo' [] hi h n = omega arith
Numbered-weaken lo lo' (q ∷ qs) hi h n = (omega arith, n.1, n.2)

pub Numbered-append :
    (lo : ℕ) (qs : List QueueRow) (hi : ℕ) (k : String)
    → Numbered lo qs hi
    → Numbered lo (qs ++ (record { id = hi; job_id = k; priority = 0 }) ∷ []) (hi + 1)
Numbered-append lo [] hi k n = (n, refl, omega arith)
Numbered-append lo (q ∷ qs) hi k n = (n.0, n.1, Numbered-append (suc q.id) qs hi k n.2)

pub Numbered-delete :
    (k : String) (lo : ℕ) (qs : List QueueRow) (hi : ℕ)
    → Numbered lo qs hi
    → Numbered lo (delete_queue k qs) hi
unfolding delete_queue
Numbered-delete k lo [] hi n = n
Numbered-delete k lo (q ∷ qs) hi n = elim (Bool-cases (str_eq q.job_id k)) [
  | inl e ↦
      rw e (Numbered-delete k lo qs hi (Numbered-weaken (suc q.id) lo qs hi (omega arith) n.2))
  | inr e ↦ rw e (n.0, n.1, Numbered-delete k (suc q.id) qs hi n.2)
]

pub Numbered-cascade :
    (gone : List Row) (lo : ℕ) (qs : List QueueRow) (hi : ℕ)
    → Numbered lo qs hi
    → Numbered lo (cascade gone qs) hi
unfolding cascade
Numbered-cascade gone lo [] hi n = n
Numbered-cascade gone lo (q ∷ qs) hi n = elim (Bool-cases (is_some (find_row q.job_id gone))) [
  | inl e ↦
      rw e (Numbered-cascade gone lo qs hi (Numbered-weaken (suc q.id) lo qs hi (omega arith) n.2))
  | inr e ↦ rw e (n.0, n.1, Numbered-cascade gone (suc q.id) qs hi n.2)
]

str_in-delete :
    (x k : String) (qs : List QueueRow)
    → str_in x (queue_ids qs) ≡ false
    → str_in x (queue_ids (delete_queue k qs)) ≡ false
unfolding delete_queue
str_in-delete x k [] h = refl
str_in-delete x k (q ∷ qs) h = ground (arith, str_in-delete x k qs)

pub Distinct-delete :
    (k : String) (qs : List QueueRow)
    → Distinct (queue_ids qs)
    → Distinct (queue_ids (delete_queue k qs))
unfolding delete_queue
Distinct-delete k [] d = tt
Distinct-delete k (q ∷ qs) d = elim (Bool-cases (str_eq q.job_id k)) [
  | inl e ↦ rw e (Distinct-delete k qs d.1)
  | inr e ↦ rw e (str_in-delete q.job_id k qs d.0, Distinct-delete k qs d.1)
]

str_in-cascade :
    (x : String) (gone : List Row) (qs : List QueueRow)
    → str_in x (queue_ids qs) ≡ false
    → str_in x (queue_ids (cascade gone qs)) ≡ false
unfolding cascade
str_in-cascade x gone [] h = refl
str_in-cascade x gone (q ∷ qs) h = ground (arith, str_in-cascade x gone qs)

pub Distinct-cascade :
    (gone : List Row) (qs : List QueueRow)
    → Distinct (queue_ids qs)
    → Distinct (queue_ids (cascade gone qs))
unfolding cascade
Distinct-cascade gone [] d = tt
Distinct-cascade gone (q ∷ qs) d = elim (Bool-cases (is_some (find_row q.job_id gone))) [
  | inl e ↦ rw e (Distinct-cascade gone qs d.1)
  | inr e ↦ rw e (str_in-cascade q.job_id gone qs d.0, Distinct-cascade gone qs d.1)
]
