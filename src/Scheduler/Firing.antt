-- ===== src/Scheduler/Firing.antt =====
-- What the scheduler's loop (src/qbt_rules/scheduler.py) fires.
use qbt_rules.Prelude.{
  ℕ, zero, suc, ◌≤◌, ◌<◌, String, ◌≡◌, refl, ap, Option, List, [], ◌∷◌, ◌++◌, map, length, leb,
  Bool-cases, inl, inr, if◌then◌else◌, All, arith,
}
use qbt_rules.Scheduler.{
  Entry, LastFire, Scheduler, advance, fire_if_due, advance_if_due, check_entries, round, run_loop,
}

module _ {C W : Type 0} (get_next : C → ℕ × C) (enqueue : String → W → Option String × W) where
  -- The contexts of the due entries, in the order of the schedule.
  abbrev pub due : ℕ → List (Entry C) → List String
  due now [] = []
  due now (e ∷ es) = let rest = due now es in if leb e.next_fire now then e.context ∷ rest else rest

  abbrev pub after_round : ℕ → List (Entry C) → List (Entry C)
  after_round now es = map (advance_if_due get_next enqueue now) es

  -- The contexts of all the jobs of a loop: every entry fires in each round in which it is due.
  abbrev pub fired : List ℕ → List (Entry C) → List String
  fired [] es = []
  fired (now ∷ nows) es = due now es ++ fired nows (after_round now es)

  abbrev pub enqueue_all : List String → W → W
  enqueue_all [] w = w
  enqueue_all (context ∷ contexts) w = enqueue_all contexts ((enqueue context w).1)

  check_entries-entries :
      (now : ℕ) (es : List (Entry C)) (s : Option LastFire × W)
      → (check_entries get_next enqueue now es s).0 ≡ after_round now es
  unfolding check_entries
  check_entries-entries now [] s = refl
  check_entries-entries now (e ∷ es) s =
      ap (λ r. advance_if_due get_next enqueue now e ∷ r)
        (check_entries-entries now es (fire_if_due get_next enqueue now e s))

  round-entries :
      (now : ℕ) (s : Scheduler C W)
      → (round get_next enqueue now s).entries ≡ after_round now s.entries
  unfolding round
  round-entries now s = check_entries-entries now s.entries (s.last_fire, s.queue)

  -- What the iterator gives next is later than what the entry waits for.
  abbrev pub IsAhead : Entry C → Type 0
  IsAhead e = e.next_fire < (get_next e.iter).0

  -- What croniter promises: each time is later than the one before it.
  abbrev pub Increasing : Type 0
  Increasing = (c : C) → (get_next c).0 < (get_next ((get_next c).1)).0

  -- The time of the entry that comes `n` after its next one.
  abbrev pub nth_fire : ℕ → Entry C → ℕ
  nth_fire zero e = e.next_fire
  nth_fire (suc n) e = nth_fire n (advance get_next enqueue e)

  -- At most `n` times of the entry are not after `t`.
  abbrev pub HasRounds : ℕ → ℕ → Entry C → Type 0
  HasRounds t n e = t < nth_fire n e

  module _ (later : Increasing) (t now : ℕ) (reached : t ≤ now) where
    nth_fire-le : (n : ℕ) (e : Entry C) → IsAhead e → e.next_fire ≤ nth_fire n e
    nth_fire-le zero e a = omega arith
    nth_fire-le (suc n) e a =
        omega (arith, a, nth_fire-le n (advance get_next enqueue e) (later e.iter))

    entry_step :
        (n : ℕ) (e : Entry C)
        → IsAhead e
        → HasRounds t (suc n) e
        → IsAhead (advance_if_due get_next enqueue now e)
          × HasRounds t n (advance_if_due get_next enqueue now e)
    entry_step n e a h = elim (Bool-cases (leb e.next_fire now)) [
      | inl p ↦ rw (p) (later e.iter, h)
      | inr p ↦ rw (p) (a, ground (arith, p, reached, nth_fire-le n e a))
    ]

    entries_step :
        (n : ℕ) (es : List (Entry C))
        → All IsAhead es
        → All (HasRounds t (suc n)) es
        → All IsAhead (after_round now es) × All (HasRounds t n) (after_round now es)
    entries_step n [] a h = (tt, tt)
    entries_step n (e ∷ es) (a, as') (h, hs) =
        let (x, y) = entry_step n e a h in
        let (xs, ys) = entries_step n es as' hs in ((x, xs), (y, ys))

  catches_up :
      (t : ℕ) (nows : List ℕ) (s : Scheduler C W)
      → Increasing
      → All (λ now. t ≤ now) nows
      → All IsAhead s.entries
      → All (HasRounds t (length nows)) s.entries
      → All (HasRounds t 0) (run_loop get_next enqueue nows s).entries
  unfolding run_loop
  catches_up t [] s later r a h = h
  catches_up t (now ∷ nows) s later (r, rs) a h =
      let (a', h') = entries_step later t now r (length nows) s.entries a h in
      catches_up t nows (round get_next enqueue now s) later rs (rw (round-entries now s) a')
        (rw (round-entries now s) h')

  -- If the times of an entry increase, then after rounds at `t` or later, at least as many as any
  -- entry has times up to `t`, no entry has a time up to `t` left to fire, even if the queue
  -- raises.
  pub run_loop_catches_up :
      (t : ℕ) (nows : List ℕ) (s : Scheduler C W)
      → Increasing
      → All (λ now. t ≤ now) nows
      → All IsAhead s.entries
      → All (HasRounds t (length nows)) s.entries
      → All (λ e. t < e.next_fire) (run_loop get_next enqueue nows s).entries
  run_loop_catches_up t nows s later r a h =
      weaken (run_loop get_next enqueue nows s).entries (catches_up t nows s later r a h)
    where
      weaken : (es : List (Entry C)) → All (HasRounds t 0) es → All (λ e. t < e.next_fire) es
      weaken [] p = tt
      weaken (e ∷ es) (p, ps) = (p, weaken es ps)
