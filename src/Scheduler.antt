-- ===== src/Scheduler.antt =====
-- src/qbt_rules/scheduler.py: the loop that enqueues a job when a cron entry is due. The croniter library is
-- the parameters `croniter` and `get_next`; the queue is the parameter `enqueue`, which may raise
-- (`none`). Times are microseconds.
pub mod Firing
mod Tests
use qbt_rules.Prelude.{ℕ, String, Option, none, some, List, [], ◌∷◌, map, leb, if◌then◌else◌}

-- An entry of the schedule with the state of its iterator.
pub record Entry (C : Type 0) : Type 0 where
  pub cron : String
  pub context : String
  pub iter : C
  pub next_fire : ℕ

pub record LastFire : Type 0 where
  pub context : String
  pub job_id : String
  pub at : ℕ

pub record Scheduler (C W : Type 0) : Type 0 where
  pub entries : List (Entry C)
  pub last_fire : Option LastFire
  pub queue : W

module _ {C W : Type 0} (get_next : C → ℕ × C) (enqueue : String → W → Option String × W) where
  -- `entry["next_fire"] = entry["iter"].get_next(float)`
  abbrev pub advance : Entry C → Entry C
  advance e = record e { next_fire = (get_next e.iter).0; iter = (get_next e.iter).1 }

  -- `Scheduler.__init__`
  unfoldable pub new_entries : (String → ℕ → C) → ℕ → List (String × String) → List (Entry C)
  new_entries croniter now [] = []
  new_entries croniter now ((cron, context) ∷ rest) =
      let c = croniter cron now in
      record { cron = cron; context = context; iter = (get_next c).1; next_fire = (get_next c).0 }
      ∷ new_entries croniter now rest

  abbrev recorded : String → ℕ → Option String → Option LastFire → Option LastFire
  recorded context now none last = last
  recorded context now (some id) last = some (record { context = context; job_id = id; at = now })

  -- `_fire`: an exception of the queue is logged.
  unfoldable pub fire : ℕ → String → Option LastFire × W → Option LastFire × W
  fire now context (last, w) =
      let (id, w') = enqueue context w in (recorded context now id last, w')

  abbrev pub fire_if_due : ℕ → Entry C → Option LastFire × W → Option LastFire × W
  fire_if_due now e s = if leb e.next_fire now then fire now e.context s else s

  abbrev pub advance_if_due : ℕ → Entry C → Entry C
  advance_if_due now e = if leb e.next_fire now then advance e else e

  -- the loop over the entries in one round
  unfoldable pub check_entries :
      ℕ → List (Entry C) → Option LastFire × W → List (Entry C) × (Option LastFire × W)
  unfolding fire
  check_entries now [] s = ([], s)
  check_entries now (e ∷ es) s =
      let (es', s') = check_entries now es (fire_if_due now e s) in (advance_if_due now e ∷ es', s')

  unfoldable pub round : ℕ → Scheduler C W → Scheduler C W
  unfolding check_entries
  round now s =
      let (es, (last, w)) = check_entries now s.entries (s.last_fire, s.queue) in
      record { entries = es; last_fire = last; queue = w }

  -- `_run_loop`, for the rounds at these times
  unfoldable pub run_loop : List ℕ → Scheduler C W → Scheduler C W
  unfolding round
  run_loop [] s = s
  run_loop (now ∷ nows) s = run_loop nows (round now s)
