-- ===== src/Queue.antt =====
-- src/qbt_rules/queue_manager.py: job statuses, the job dictionary and the outcome of a call that
-- may raise. Timestamps are microseconds since the epoch; ISO strings of one UTC offset, which the
-- backends store, are ordered as the numbers are.
use qbt_rules.Prelude.{ℕ, String, Bool, true, false, Option, none, some, str_eq, if◌then◌else◌}

pub data JobStatus : Type 0 where
  pending processing completed failed cancelled : JobStatus

-- The texts of the constants, and `validate_status`, which reads one back.
unfoldable pub status_text : JobStatus → String
status_text pending = "pending"
status_text processing = "processing"
status_text completed = "completed"
status_text failed = "failed"
status_text cancelled = "cancelled"

unfoldable pub validate_status : String → Option JobStatus
validate_status s =
    if str_eq s "pending"
    then some pending
    else if str_eq s "processing"
    then some processing
    else if str_eq s "completed"
    then some completed
    else if str_eq s "failed"
    then some failed
    else if str_eq s "cancelled"
    then some cancelled
    else none

abbrev pub same_status : JobStatus → JobStatus → Bool
same_status pending pending = true
same_status processing processing = true
same_status completed completed = true
same_status failed failed = true
same_status cancelled cancelled = true
same_status _ _ = false

-- The statuses that a cleanup may remove.
abbrev pub is_finished : JobStatus → Bool
is_finished completed = true
is_finished failed = true
is_finished cancelled = true
is_finished _ = false

-- The dictionary that a backend hands out. `result` is its JSON text.
pub record Job : Type 0 where
  pub job_id : String
  pub context : Option String
  pub hash : Option String
  pub dry_run : Bool
  pub status : JobStatus
  pub created_at : ℕ
  pub started_at : Option ℕ
  pub completed_at : Option ℕ
  pub result : Option String
  pub error : Option String

-- The exceptions that the backends raise.
pub data QueueError : Type 0 where
  value_error integrity_error : QueueError

pub data Outcome {ℓ} (A : Type ℓ) : Type ℓ where
  returned : A → Outcome A
  raised : QueueError → Outcome A
