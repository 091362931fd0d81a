-- ===== src/Actions.antt =====
-- src/qbt_rules/engine.py, ActionExecutor: the executor shares the evaluator's caches, counts the actions
-- that were already applied, and sends commands to the server. `sent` records the commands, in
-- order; nothing reads it. The actions `notify` and `arr_blocklist`, which call other services, are
-- given as a parameter.
pub mod Idempotency
pub mod Execute
pub mod Safety
pub mod Commands
mod Tests
use qbt_rules.Prelude.{ℕ, String, Bool, true, false, Option, none, some, List, [], ◌∷◌, ◌++◌}
use qbt_rules.Value.{Value, Fields}
use qbt_rules.Conditions.{Exc, Result, ok, err}
use qbt_rules.Conditions.State.{State, Action}
use qbt_rules.Api.{Api, Command}

pub record Executor (W : Type 0) : Type 0 where
  pub core : State W
  pub already_applied : ℕ
  pub sent : List Command

abbrev pub Doing : Type 0 → Type 0 → Type 0
Doing W A = Executor W → Result A × Executor W

-- `_execute_notify`, `_execute_arr_blocklist`, and the message that a dry run renders for its log.
pub record Services (W : Type 0) : Type 0 where
  pub notify : Fields → Value → Action W Bool
  pub arr_blocklist : Fields → Value → Action W Bool
  pub preview : Fields → Value → Action W (Unit {0})

module _ {W A : Type 0} where
  abbrev pub returns : A → Doing W A
  returns a x = (ok a, x)

  abbrev pub raises : Exc → Doing W A
  raises e x = (err e, x)

  -- What touches the caches and the world, and sends no command.
  abbrev pub reading : Action W A → Doing W A
  reading m x = ((m x.core).0, record x { core = (m x.core).1 })

module _ {W A B : Type 0} where
  abbrev pub proceed : Result A → (A → Doing W B) → Doing W B
  proceed (ok a) f x = f a x
  proceed (err e) f x = (err e, x)

  infixl 5 ◌>>=◌
  abbrev pub ◌>>=◌ : Doing W A → (A → Doing W B) → Doing W B
  ◌>>=◌ m f x = let (r, x') = m x in proceed r f x'

module _ {W : Type 0} (api : Api W) where
  unfoldable pub send : Command → Doing W Bool
  send c x =
      let (r, w) = api.send c x.core.world in
      (r, record x { core = record x.core { world = w }; sent = x.sent ++ c ∷ [] })
