-- ===== src/Sqlite/Counting.antt =====
-- Counts: the statistics, and the depth of the queue.
use qbt_rules.Prelude.{
  ℕ, suc, String, ◌≡◌, refl, sym, ◌∙◌, ap, Bool, true, false, ◌||◌, Option, none, some, List, [],
  ◌∷◌, eq_refl, arith, if◌then◌else◌, is_some, str_eq, eq_iff, Bool-cases, inl, inr, keep, length,
  length-keep, count_if, str_in, Distinct,
}
use qbt_rules.Queue.{
  JobStatus, pending, processing, completed, failed, cancelled, status_text, same_status,
}
use qbt_rules.Sqlite.Statements.{Row, QueueRow, Database, find_row, given, matches_filters}
use qbt_rules.Sqlite.Rows.{
  row_ids, queue_ids, str_in-row_ids, str_in-queue_ids, find_row-keep, only_if, Distinct-keep,
}
use qbt_rules.Sqlite.{count_jobs, get_stats, get_queue_depth, is_pending}
use qbt_rules.Sqlite.Invariant.{IsWellFormed}
use qbt_rules.Sqlite.Fifo.{waiting}

status_text-eq : (s t : JobStatus) → str_eq (status_text s) (status_text t) ≡ same_status s t
unfolding status_text
status_text-eq pending pending = refl
status_text-eq pending _ = refl
status_text-eq processing processing = refl
status_text-eq processing _ = refl
status_text-eq completed completed = refl
status_text-eq completed _ = refl
status_text-eq failed failed = refl
status_text-eq failed _ = refl
status_text-eq cancelled cancelled = refl
status_text-eq cancelled _ = refl

given-status_text : (s : JobStatus) → given (some (status_text s)) ≡ some (status_text s)
unfolding status_text
given-status_text pending = refl
given-status_text _ = refl

one_status :
    (s : JobStatus) (r : Row)
    → matches_filters (some (status_text s)) none r ≡ same_status r.status s
unfolding matches_filters
one_status s r = rw (given-status_text s) (rw (status_text-eq r.status s) (ground arith))

count-ext :
    (p q : Row → Bool) (rs : List Row) → ((r : Row) → p r ≡ q r) → count_if p rs ≡ count_if q rs
count-ext p q [] h = refl
count-ext p q (r ∷ rs) h = ground (arith, h r, count-ext p q rs h)

count_status :
    (s : JobStatus) (db : Database)
    → count_jobs (some (status_text s)) none db ≡ count_if (λ r. same_status r.status s) db.jobs
unfolding count_jobs
count_status s db = count-ext _ _ db.jobs (one_status s)

count_all : (rs : List Row) → count_if (matches_filters none none) rs ≡ length rs
unfolding matches_filters
count_all [] = refl
count_all (r ∷ rs) = ap suc (count_all rs)

-- Each count of get_stats is the number of jobs with the status of its name, and the total that
-- of all jobs, each in the database as its own query finds it, which other connections may have
-- changed in between.
pub get_stats_by_status :
    (reads : ℕ → Database)
    → let s = get_stats reads in
      (s.total_jobs ≡ length (reads 0).jobs)
      × (s.n_pending ≡ length (keep (λ r. same_status r.status pending) (reads 1).jobs))
      × (s.n_processing ≡ length (keep (λ r. same_status r.status processing) (reads 2).jobs))
      × (s.n_completed ≡ length (keep (λ r. same_status r.status completed) (reads 3).jobs))
      × (s.n_failed ≡ length (keep (λ r. same_status r.status failed) (reads 4).jobs))
      × (s.n_cancelled ≡ length (keep (λ r. same_status r.status cancelled) (reads 5).jobs))
unfolding get_stats count_jobs
get_stats_by_status reads = (
  count_all (reads 0).jobs,
  length_status pending (reads 1),
  length_status processing (reads 2),
  length_status completed (reads 3),
  length_status failed (reads 4),
  length_status cancelled (reads 5),
)
  where
    length_status :
        (s : JobStatus) (db : Database)
        → count_jobs (some (status_text s)) none db
          ≡ length (keep (λ r. same_status r.status s) db.jobs)
    length_status s db = count_status s db ∙ sym (length-keep (λ r. same_status r.status s) db.jobs)

-- Lists without repetition and with the same members are equally long.
without : String → List String → List String
without k [] = []
without k (x ∷ xs) = if str_eq x k then xs else x ∷ without k xs

str_in-without :
    (j k : String) (xs : List String)
    → Distinct xs
    → str_in j (without k xs) ≡ (if str_eq j k then false else str_in j xs)
unfolding without
str_in-without j k [] d = ground arith
str_in-without j k (x ∷ xs) d =
    ground (arith, str_in-without j k xs d.1, eq_iff x k, eq_iff j x, eq_iff j k, d.0)

length-without :
    (k : String) (xs : List String) → str_in k xs ≡ true → suc (length (without k xs)) ≡ length xs
unfolding without
length-without k [] h = cc
length-without k (x ∷ xs) h = ground (arith, length-without k xs, eq_iff x k, eq_iff k x)

Distinct-without : (k : String) (xs : List String) → Distinct xs → Distinct (without k xs)
unfolding without
Distinct-without k [] d = tt
Distinct-without k (x ∷ xs) d = elim (Bool-cases (str_eq x k)) [
  | inl e ↦ rw e d.1
  | inr e ↦ rw e (str_in-without x k xs d.1 ∙ rw e d.0, Distinct-without k xs d.1)
]

length-same_members :
    (xs ys : List String)
    → Distinct xs
    → Distinct ys
    → ((k : String) → str_in k xs ≡ str_in k ys)
    → length xs ≡ length ys
length-same_members [] [] dx dy h = refl
length-same_members [] (y ∷ ys) dx dy h = ground (arith, h y, eq_refl y)
length-same_members (x ∷ xs) ys dx dy h =
    let there : str_in x ys ≡ true = ground (arith, h x, eq_refl x) in
    omega (
      arith,
      length-without x ys there,
      length-same_members xs (without x ys) dx.1 (Distinct-without x ys dy)
          (λ k. same_tail x k xs ys dx.0 (h k) (str_in-without k x ys dy)),
    )
  where
    same_tail :
        (x k : String) (xs ys : List String)
        → str_in x xs ≡ false
        → (str_eq k x || str_in k xs) ≡ str_in k ys
        → str_in k (without x ys) ≡ (if str_eq k x then false else str_in k ys)
        → str_in k xs ≡ str_in k (without x ys)
    same_tail x k xs ys out e f = elim (Bool-cases (str_eq k x)) [
      | inl s ↦ rw (f, s, (eq_iff k x).0 s) out
      | inr s ↦ ground (arith, e, f, s)
    ]

pending_ids : List Row → List String
pending_ids rs = row_ids (keep (λ r. same_status r.status pending) rs)

str_in-pending_ids :
    (k : String) (rs : List Row)
    → Distinct (row_ids rs)
    → str_in k (pending_ids rs) ≡ is_pending (find_row k rs)
unfolding pending_ids
str_in-pending_ids k rs d =
    let p = λ (r : Row). same_status r.status pending in
    str_in-row_ids k (keep p rs)
    ∙ ap is_some (find_row-keep p k rs d)
    ∙ is_some-only_if (find_row k rs)
  where
    is_some-only_if :
        (o : Option Row) → is_some (only_if (λ r. same_status r.status pending) o) ≡ is_pending o
    is_some-only_if none = refl
    is_some-only_if (some r) = ground arith

length-pending_ids :
    (rs : List Row) → length (pending_ids rs) ≡ count_if (λ r. same_status r.status pending) rs
unfolding pending_ids
length-pending_ids [] = refl
length-pending_ids (r ∷ rs) = ground (arith, length-pending_ids rs)

length-ids : (qs : List QueueRow) → length (queue_ids qs) ≡ length qs
length-ids [] = refl
length-ids (q ∷ qs) = ap suc (length-ids qs)

-- From well-formed tables, the reported queue depth, a count of pending jobs, is the number of
-- jobs that wait in the queue.
pub get_queue_depth-waiting :
    (db : Database) → IsWellFormed db → get_queue_depth db ≡ length (waiting db)
unfolding get_queue_depth waiting pending_ids
get_queue_depth-waiting db w =
    count_status pending db
    ∙ sym (length-pending_ids db.jobs)
    ∙ length-same_members (pending_ids db.jobs) (queue_ids db.queue)
        (Distinct-keep (λ r. same_status r.status pending) db.jobs w.keys) w.unique
        λ k.
          str_in-pending_ids k db.jobs w.keys ∙ sym (w.agree k) ∙ sym (str_in-queue_ids k db.queue)
