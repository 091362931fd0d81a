-- ===== src/Scheduler/Tests.antt =====
-- A schedule with an entry for every second number (src/qbt_rules/scheduler.py).
use qbt_rules.Prelude.{
  ℕ, ◌+◌, ◌<◌, String, ◌≡◌, refl, Option, none, some, List, [], ◌∷◌, ◌++◌, All, str_eq,
  if◌then◌else◌, arith,
}
use qbt_rules.Scheduler.{Scheduler, new_entries, run_loop}
use qbt_rules.Scheduler.Firing.{run_loop_catches_up}

abbrev get_next : ℕ → ℕ × ℕ
get_next c = (c + 2, c + 2)

abbrev start : String → ℕ → ℕ
start cron now = now

-- The queue refuses the context "broken".
abbrev enqueue : String → List String → Option String × List String
enqueue context jobs =
    if str_eq context "broken" then (none, jobs) else (some context, jobs ++ context ∷ [])

abbrev scheduler : Scheduler ℕ (List String)
scheduler = record {
  entries = new_entries get_next enqueue start 0 (("a", "weekly") ∷ ("b", "broken") ∷ []);
  last_fire = none;
  queue = [];
}

rounds : (run_loop get_next enqueue (1 ∷ 2 ∷ 5 ∷ []) scheduler).queue ≡ "weekly" ∷ "weekly" ∷ []
unfolding run_loop new_entries
rounds = refl

run_loop_catches_up_example :
    All (λ e. 5 < e.next_fire) (run_loop get_next enqueue (5 ∷ 5 ∷ []) scheduler).entries
unfolding new_entries
run_loop_catches_up_example =
    run_loop_catches_up get_next enqueue 5 (5 ∷ 5 ∷ []) scheduler (λ c. omega arith)
      (omega arith, (omega arith, tt)) (omega arith, (omega arith, tt))
      (omega arith, (omega arith, tt))
