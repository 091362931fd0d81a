-- ===== src/Sqlite/Schema.antt =====
-- Schema creation and migration of src/qbt_rules/queue_backends/sqlite_queue.py: `_init_database`,
-- `_create_schema_v1` and `_migrate_schema`. The connection is in autocommit mode, so each statement
-- is durable by itself, and a process can stop between any two: `run_statements` takes the number of
-- statements that were carried out.
use Prim.Native.Nat.{max}
use qbt_rules.Prelude.{
  ℕ, zero, suc, ◌≡◌, refl, Bool, true, false, Option, none, some, List, [], ◌∷◌, ◌++◌, arith, ltb,
  ◌||◌, not, if◌then◌else◌, take, ◌==◌,
}

pub data Index : Type 0 where
  idx_jobs_status idx_jobs_created_at idx_jobs_context idx_jobs_completed_at : Index
  idx_queue_priority : Index

-- What the file holds of the schema: the rows of `schema_version` (none, if the table is not
-- there), the tables of version 1 with their indexes, and the column that version 2 adds.
pub record Schema : Type 0 where
  pub versions : Option (List ℕ)
  pub has_jobs : Bool
  pub has_queue : Bool
  pub has_status_index : Bool
  pub has_created_at_index : Bool
  pub has_context_index : Bool
  pub has_completed_at_index : Bool
  pub has_priority_index : Bool
  pub has_dry_run : Bool

pub data Statement : Type 0 where
  create_version_table create_jobs create_queue add_dry_run : Statement
  create_index : Index → Statement
  insert_version : ℕ → Statement

abbrev pub versions_of : Option (List ℕ) → List ℕ
versions_of none = []
versions_of (some vs) = vs

-- An index that is there already is left as it is.
unfoldable pub add_index : Index → Schema → Schema
add_index idx_jobs_status s = record s { has_status_index = true }
add_index idx_jobs_created_at s = record s { has_created_at_index = true }
add_index idx_jobs_context s = record s { has_context_index = true }
add_index idx_jobs_completed_at s = record s { has_completed_at_index = true }
add_index idx_queue_priority s = record s { has_priority_index = true }

unfoldable pub has_table_of : Index → Schema → Bool
has_table_of idx_queue_priority s = s.has_queue
has_table_of _ s = s.has_jobs

-- One statement; `none` is an sqlite3.OperationalError (no such table, or a column that is there
-- already).
unfoldable pub run_statement : Statement → Schema → Option Schema
unfolding add_index has_table_of
run_statement create_version_table s = some (record s { versions = some (versions_of s.versions) })
run_statement create_jobs s = some (record s { has_jobs = true })
run_statement create_queue s = some (record s { has_queue = true })
run_statement (create_index i) s = if has_table_of i s then some (add_index i s) else none
run_statement add_dry_run s =
    if not s.has_jobs || s.has_dry_run then none else some (record s { has_dry_run = true })
run_statement (insert_version v) s =
    some (record s { versions = some (versions_of s.versions ++ v ∷ []) })

unfoldable pub run_statements : List Statement → Schema → Option Schema
unfolding run_statement
run_statements [] s = some s
run_statements (x ∷ xs) s = elim (run_statement x s) [
  | none ↦ none
  | some s' ↦ run_statements xs s'
]

-- SELECT MAX(version) FROM schema_version
unfoldable pub max_version : List ℕ → Option ℕ
max_version [] = none
max_version (v ∷ vs) = elim (max_version vs) [ none ↦ some v | some w ↦ some (max v w) ]

abbrev pub schema_version : ℕ
schema_version = 2

unfoldable pub create_schema_v1 : List Statement
create_schema_v1 =
    create_jobs
    ∷ create_index idx_jobs_status
    ∷ create_index idx_jobs_created_at
    ∷ create_index idx_jobs_context
    ∷ create_index idx_jobs_completed_at
    ∷ create_queue
    ∷ create_index idx_queue_priority
    ∷ []

unfoldable pub migrate_schema : ℕ → List Statement
migrate_schema from_version = if ltb from_version 2 then add_dry_run ∷ insert_version 2 ∷ [] else []

-- The statements that `_init_database` carries out after its version table, by the version it read.
unfoldable pub upgrade : Option ℕ → List Statement
unfolding create_schema_v1 migrate_schema
upgrade none = create_schema_v1 ++ insert_version 1 ∷ migrate_schema 1
upgrade (some v) = if ltb v schema_version then migrate_schema v else []

unfoldable pub plan : Schema → List Statement
unfolding upgrade max_version
plan s = create_version_table ∷ upgrade (max_version (versions_of s.versions))

unfoldable pub init_database : Schema → Option Schema
unfolding run_statements plan
init_database s = run_statements (plan s) s

-- The schema of version 2, and the files that a released version can have left.
abbrev pub fresh : Schema
fresh = record {
  versions = none;
  has_jobs = false;
  has_queue = false;
  has_status_index = false;
  has_created_at_index = false;
  has_context_index = false;
  has_completed_at_index = false;
  has_priority_index = false;
  has_dry_run = false;
}

abbrev pub version_1 : Schema
version_1 = record {
  versions = some (1 ∷ []);
  has_jobs = true;
  has_queue = true;
  has_status_index = true;
  has_created_at_index = true;
  has_context_index = true;
  has_completed_at_index = true;
  has_priority_index = true;
  has_dry_run = false;
}

abbrev pub version_2 : Schema
version_2 = record {
  versions = some (1 ∷ 2 ∷ []);
  has_jobs = true;
  has_queue = true;
  has_status_index = true;
  has_created_at_index = true;
  has_context_index = true;
  has_completed_at_index = true;
  has_priority_index = true;
  has_dry_run = true;
}

-- A new file, a file of version 1 and a file of version 2 all end as the same version 2.
pub init_converges :
    (init_database fresh ≡ some version_2)
    × (init_database version_1 ≡ some version_2)
    × (init_database version_2 ≡ some version_2)
unfolding init_database
init_converges = (refl, refl, refl)

-- A start that stops after its first `n` statements.
unfoldable pub interrupted : ℕ → Schema → Option Schema
unfolding run_statements plan
interrupted n s = run_statements (take n (plan s)) s

-- The next start after such a stop.
unfoldable pub restart : ℕ → Schema → Option Schema
unfolding interrupted init_database
restart n s = elim (interrupted n s) [ none ↦ none | some s' ↦ init_database s' ]

take-nil : (n : ℕ) → take {A = Statement} n [] ≡ []
take-nil zero = refl
take-nil (suc n) = refl

-- If the creation of a new file stops after n statements, the next start completes it to version
-- 2 with its tables and indexes, except after 10 statements, when the next start raises.
pub restart-fresh : (n : ℕ) → restart n fresh ≡ (if n == 10 then none else some version_2)
unfolding restart
restart-fresh zero = refl
restart-fresh (suc zero) = refl
restart-fresh (suc (suc zero)) = refl
restart-fresh (suc (suc (suc zero))) = refl
restart-fresh (suc (suc (suc (suc zero)))) = refl
restart-fresh (suc (suc (suc (suc (suc zero))))) = refl
restart-fresh (suc (suc (suc (suc (suc (suc zero)))))) = refl
restart-fresh (suc (suc (suc (suc (suc (suc (suc zero))))))) = refl
restart-fresh (suc (suc (suc (suc (suc (suc (suc (suc zero)))))))) = refl
restart-fresh (suc (suc (suc (suc (suc (suc (suc (suc (suc zero))))))))) = refl
restart-fresh (suc (suc (suc (suc (suc (suc (suc (suc (suc (suc zero)))))))))) = refl
restart-fresh (suc (suc (suc (suc (suc (suc (suc (suc (suc (suc (suc n))))))))))) =
    rw (take-nil n) (ground arith)

-- If the upgrade of a version 1 file stops after n statements, the next start completes it to
-- version 2, except after 2 statements, when the next start raises.
pub restart-version_1 : (n : ℕ) → restart n version_1 ≡ (if n == 2 then none else some version_2)
unfolding restart
restart-version_1 zero = refl
restart-version_1 (suc zero) = refl
restart-version_1 (suc (suc zero)) = refl
restart-version_1 (suc (suc (suc n))) = rw (take-nil n) (ground arith)
