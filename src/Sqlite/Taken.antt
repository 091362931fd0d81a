-- ===== src/Sqlite/Taken.antt =====
-- What the other calls on the queue (src/qbt_rules/queue_backends/sqlite_queue.py) do to a job between
-- the worker's `dequeue` of it and its `update_status`.
use qbt_rules.Prelude.{String, ◌≡◌, Bool, true, false, Option, some, arith}
use qbt_rules.Queue.{JobStatus, processing}
use qbt_rules.Sqlite.Statements.{Database}
use qbt_rules.Sqlite.Invariant.{IsWellFormed}
use qbt_rules.Sqlite.Lifecycle.{
  Call, Call-IsWellFormed, Call-Edge, Operation, enqueuing, dequeuing, cancelling, updating,
  cleaning, operation, Edge, stays, created, taken, withdrawn, updated, removed, status_of,
}

abbrev pub is_update : Operation → Bool
is_update updating = true
is_update enqueuing = false
is_update dequeuing = false
is_update cancelling = false
is_update cleaning = false

-- Any calls but update_status, which in this program only the worker makes.
pub data Meanwhile (start : Database) : Database → Type 0 where
  nothing : Meanwhile start start
  then_call :
      {a b : Database}
      → Meanwhile start a
      → (c : Call a b) → is_update (operation c) ≡ false
      → Meanwhile start b

Edge-processing :
    {o : Operation} {s t : Option JobStatus}
    → Edge o s t
    → is_update o ≡ false
    → s ≡ some processing
    → t ≡ some processing
Edge-processing stays u e = e
Edge-processing created u e = cc
Edge-processing taken u e = cc
Edge-processing withdrawn u e = cc
Edge-processing (updated s t h i) u e = cc
Edge-processing (removed s h) u e = ground (arith, h, e)

Meanwhile-IsWellFormed : {a b : Database} → Meanwhile a b → IsWellFormed a → IsWellFormed b
Meanwhile-IsWellFormed nothing w = w
Meanwhile-IsWellFormed (then_call m c u) w = Call-IsWellFormed c (Meanwhile-IsWellFormed m w)

-- From well-formed tables, a job that is processing stays so whatever enqueues, dequeues, cancels
-- and cleanups are made, in whatever order, so long as no update_status is made.
pub taken_stays :
    {a b : Database} (k : String)
    → Meanwhile a b
    → IsWellFormed a
    → status_of k a ≡ some processing
    → status_of k b ≡ some processing
taken_stays k nothing w e = e
taken_stays k (then_call m c u) w e =
    Edge-processing (Call-Edge c (Meanwhile-IsWellFormed m w) k) u (taken_stays k m w e)
