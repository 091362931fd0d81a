-- ===== src/Sqlite/Tests.antt =====
-- Runs of the queue, and its theorems at concrete databases.
use Prim.Native.Nat.{min}
use mathlib.Core.Option
use qbt_rules.Prelude.{
  ◌≡◌, refl, ℕ, keep, ◌==◌, true, false, none, some, [], ◌∷◌, ◌++◌, ◌+◌, ◌-◌, ◌*◌, ◌&&◌, ltb, map,
  length, str_eq, not, if◌then◌else◌,
}
use mathlib.Core.List.{head?}
use qbt_rules.Queue.{
  pending, processing, completed, failed, cancelled, is_finished, validate_status, same_status,
}
use qbt_rules.Sqlite.Statements.{
  Database, find_row, is_queued, insert_job, insert_queue, select_next, update_rows, finished_at,
}
use qbt_rules.Sqlite.Rows.{only_if, or_else}
use qbt_rules.Sqlite.{
  enqueue, dequeue, cancel_job, update_status, cleanup_old_jobs, get_job, list_jobs, count_jobs,
  get_queue_depth, get_stats, is_pending,
}
use qbt_rules.Sqlite.Invariant.{IsWellFormed}
use qbt_rules.Sqlite.Lifecycle.{
  Edge, updating, Reaches, here, next, enqueues, dequeues, cancels, updates, empty, status_of,
  Reaches-IsWellFormed, Call-Edge,
}
use qbt_rules.Sqlite.Taken.{Meanwhile, nothing, then_call, taken_stays}
use qbt_rules.Sqlite.Fifo.{
  waiting, served, rest_of, drain, dequeue_fifo, enqueue_fifo, drain_in_order,
}
use qbt_rules.Sqlite.Queries.{Newest, list_jobs-Newest, length-list_jobs}
use qbt_rules.Sqlite.Counting.{get_queue_depth-waiting, get_stats_by_status}
use qbt_rules.Sqlite.Cleanup.{cleanup_exact, cleanup_keeps_waiting, get_job-update_status, text_of}
use qbt_rules.Sqlite.Schema.{restart, fresh, version_1, restart-fresh, restart-version_1}

abbrev one_job : Database
one_job = (enqueue "a" 10 none (some "abc") false empty).1

abbrev two_jobs : Database
two_jobs = (enqueue "b" 20 (some "weekly-cleanup") none true one_job).1

two_jobs-Reaches : Reaches empty two_jobs
two_jobs-Reaches =
    next (next here (enqueues empty "a" 10 none (some "abc") false))
      (enqueues one_job "b" 20 (some "weekly-cleanup") none true)

two_jobs-IsWellFormed : IsWellFormed two_jobs
two_jobs-IsWellFormed = Reaches-IsWellFormed two_jobs-Reaches

abbrev running : Database
running = (dequeue 30 two_jobs).1

abbrev done : Database
done = (update_status "a" "completed" (some 30) (some 40) (some "{}") none running).1

a_is_out : is_pending (find_row "a" running.jobs) ≡ false
unfolding dequeue enqueue insert_job insert_queue find_row is_queued select_next update_rows
a_is_out = refl

done-Reaches : Reaches empty done
done-Reaches =
    next (next two_jobs-Reaches (dequeues two_jobs 30))
      (updates running "a" "completed" (some 30) (some 40) (some "{}") none a_is_out refl)

waiting_two : waiting two_jobs ≡ "a" ∷ "b" ∷ []
unfolding waiting enqueue insert_job insert_queue find_row is_queued
waiting_two = refl

b_is_new : find_row "b" one_job.jobs ≡ none
unfolding enqueue insert_job insert_queue find_row is_queued
b_is_new = refl

a_is_processing : status_of "a" running ≡ some processing
unfolding dequeue enqueue insert_job insert_queue find_row is_queued select_next update_rows
a_is_processing = refl

-- While "a" runs, "c" is enqueued and "b" cancelled.
abbrev three_jobs : Database
three_jobs = (enqueue "c" 35 none none false running).1

abbrev without_b : Database
without_b = (cancel_job "b" three_jobs).1

while_running : Meanwhile running without_b
while_running =
    then_call (then_call nothing (enqueues running "c" 35 none none false) refl)
      (cancels three_jobs "b") refl

taken_stays_example : status_of "a" without_b ≡ some processing
taken_stays_example =
    taken_stays "a" while_running
      (Reaches-IsWellFormed (next two_jobs-Reaches (dequeues two_jobs 30))) a_is_processing

Reaches-IsWellFormed_example : IsWellFormed done
Reaches-IsWellFormed_example = Reaches-IsWellFormed done-Reaches

Call-Edge_example : Edge updating (status_of "a" running) (status_of "a" done)
Call-Edge_example =
    Call-Edge (updates running "a" "completed" (some 30) (some 40) (some "{}") none a_is_out refl)
      (Reaches-IsWellFormed (next two_jobs-Reaches (dequeues two_jobs 30))) "a"

dequeue_fifo_example :
    (served (dequeue 30 two_jobs).0 ≡ head? (waiting two_jobs))
    × (waiting (dequeue 30 two_jobs).1 ≡ rest_of (waiting two_jobs))
dequeue_fifo_example = dequeue_fifo 30 two_jobs two_jobs-IsWellFormed

enqueue_fifo_example :
    waiting (enqueue "b" 20 (some "weekly-cleanup") none true one_job).1
    ≡ waiting one_job ++ "b" ∷ []
enqueue_fifo_example =
    enqueue_fifo "b" 20 (some "weekly-cleanup") none true one_job
      (Reaches-IsWellFormed (next here (enqueues empty "a" 10 none (some "abc") false))) b_is_new

drain_in_order_example : drain 30 (length (waiting two_jobs)) two_jobs ≡ map some (waiting two_jobs)
drain_in_order_example = drain_in_order 30 two_jobs two_jobs-IsWellFormed

length-list_jobs_example :
    length (list_jobs none none 500 1 two_jobs)
    ≡ min (min 500 100) (count_jobs none none two_jobs - 1)
length-list_jobs_example = length-list_jobs none none 500 1 two_jobs

list_jobs-Newest_example : Newest (list_jobs none none 50 0 two_jobs)
list_jobs-Newest_example = list_jobs-Newest none none 50 0 two_jobs

get_queue_depth-waiting_example : get_queue_depth two_jobs ≡ length (waiting two_jobs)
get_queue_depth-waiting_example = get_queue_depth-waiting two_jobs two_jobs-IsWellFormed

-- The job "a" finishes while the queries run.
abbrev changing : ℕ → Database
changing n = if ltb n 3 then running else done

get_stats_by_status_example :
    let s = get_stats changing in
    (s.total_jobs ≡ length (changing 0).jobs)
    × (s.n_pending ≡ length (keep (λ r. same_status r.status pending) (changing 1).jobs))
    × (s.n_processing ≡ length (keep (λ r. same_status r.status processing) (changing 2).jobs))
    × (s.n_completed ≡ length (keep (λ r. same_status r.status completed) (changing 3).jobs))
    × (s.n_failed ≡ length (keep (λ r. same_status r.status failed) (changing 4).jobs))
    × (s.n_cancelled ≡ length (keep (λ r. same_status r.status cancelled) (changing 5).jobs))
get_stats_by_status_example = get_stats_by_status changing

cleanup_exact_example :
    let after = (cleanup_old_jobs 90000000 60 done).1 in
    (find_row "a" after.jobs
      ≡ only_if
          (λ r. not (is_finished r.status && ltb (finished_at r) (90000000 - 60 * 1000000)))
          (find_row "a" done.jobs))
    × ((cleanup_old_jobs 90000000 60 done).0.0 + length after.jobs ≡ length done.jobs)
cleanup_exact_example = cleanup_exact 90000000 60 done "a" (Reaches-IsWellFormed done-Reaches)

cleanup_keeps_waiting_example : waiting (cleanup_old_jobs 90000000 60 done).1 ≡ waiting done
cleanup_keeps_waiting_example =
    cleanup_keeps_waiting 90000000 60 done (Reaches-IsWellFormed done-Reaches)

get_job-update_status_example : get_job "a" done ≡ (
    if str_eq "a" "a"
    then Option.map
        (λ r. record {
          job_id = r.id;
          context = r.context;
          hash = r.hash;
          dry_run = not (r.dry_run == 0);
          status = completed;
          created_at = r.created_at;
          started_at = or_else (some 30) r.started_at;
          completed_at = or_else (some 40) r.completed_at;
          result = text_of (or_else (some "{}") r.result);
          error = or_else none r.error;
        })
        (find_row "a" running.jobs)
    else get_job "a" running)
get_job-update_status_example =
    get_job-update_status "a" "a" "completed" (some 30) (some 40) (some "{}") none running completed
      (unfold validate_status in refl)

restart-fresh_example : restart 10 fresh ≡ none
restart-fresh_example = restart-fresh 10

restart-version_1_example : restart 2 version_1 ≡ none
restart-version_1_example = restart-version_1 2
