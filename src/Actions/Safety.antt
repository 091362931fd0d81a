-- ===== src/Actions/Safety.antt =====
-- Which commands `execute` (src/qbt_rules/engine.py) sends.
use qbt_rules.Prelude.{
  ℕ, ◌+◌, ◌≤◌, String, ◌≡◌, refl, ap, ◌∙◌, Bool, true, false, none, some, if◌then◌else◌, length,
  arith, Option-cases, inl, inr,
}
use qbt_rules.Value.{Value, Fields, get}
use qbt_rules.Conditions.{key_error, Result, ok, err, Runtime}
use qbt_rules.Conditions.State.{Action}
use qbt_rules.Conditions.Lookup.{text_of}
use qbt_rules.Api.{Api}
use qbt_rules.Actions.{Executor, Doing, Services, reading, ◌>>=◌, proceed}
use qbt_rules.Actions.Idempotency.{should_skip_idempotent}
use qbt_rules.Actions.Execute.{log_dry_run, after_check, attempt, caught, or_empty, execute}

-- An action that sends at most `n` commands.
pub record Sends {W A : Type 0} (n : ℕ) (m : Doing W A) : Type 0 where
  pub at : (x : Executor W) → length (m x).1.sent ≤ length x.sent + n

-- An action that sends nothing.
pub record Silent {W A : Type 0} (m : Doing W A) : Type 0 where
  pub at : (x : Executor W) → (m x).1.sent ≡ x.sent

module _ {W : Type 0} where
  pub Silent-reading : {A : Type 0} (m : Action W A) → Silent (reading m)
  Silent-reading m = record { at = λ x. refl }

  pub Silent-bind :
      {A B : Type 0} (m : Doing W A) (f : A → Doing W B)
      → Silent m
      → ((a : A) → Silent (f a))
      → Silent (m >>= f)
  Silent-bind {A} {B} m f km kf = record { at = λ x. rest x (m x).0 (m x).1 (km.at x) }
    where
      rest :
          (x : Executor W) (r : Result A) (y : Executor W)
          → y.sent ≡ x.sent
          → (proceed r f y).1.sent ≡ x.sent
      rest x (ok a) y e = (kf a).at y ∙ e
      rest x (err _) y e = e

  pub Silent-Sends : {A : Type 0} (n : ℕ) (m : Doing W A) → Silent m → Sends n m
  Silent-Sends n m k = record { at = λ x. omega (arith, ap length (k.at x)) }

  pub Sends-bind :
      {A B : Type 0} (n k : ℕ) (m : Doing W A) (f : A → Doing W B)
      → Sends n m
      → ((a : A) → Sends k (f a))
      → Sends (n + k) (m >>= f)
  Sends-bind {A} {B} n k m f km kf = record { at = λ x. rest x (m x).0 (m x).1 (km.at x) }
    where
      rest :
          (x : Executor W) (r : Result A) (y : Executor W)
          → length y.sent ≤ length x.sent + n
          → length (proceed r f y).1.sent ≤ length x.sent + (n + k)
      rest x (ok a) y e = omega (arith, (kf a).at y)
      rest x (err _) y e = omega arith

  pub Sends-if :
      {A : Type 0} (n : ℕ) (b : Bool) (l r : Doing W A)
      → Sends n l
      → Sends n r
      → Sends n (if b then l else r)
  Sends-if n true l r kl kr = kl
  Sends-if n false l r kl kr = kr

module _ {W : Type 0} (rt : Runtime) (api : Api W) (services : Services W) where
  Silent-dry :
      (torrent : Fields) (action_type : String) (params : Value)
      → Silent (attempt rt api services true torrent action_type params)
  unfolding attempt
  Silent-dry torrent action_type params =
      Silent-bind _ _ (Silent-reading (should_skip_idempotent rt api torrent action_type params))
        check
    where
      check :
          (skip : Bool) → Silent (after_check rt api services true torrent action_type params skip)
      check true = record { at = λ x. refl }
      check false =
          Silent-bind _ _ (Silent-reading (log_dry_run rt api services torrent action_type params))
            (λ _. record { at = λ x. refl })

  pub sent-caught : (m : Result (Bool × Bool) × Executor W) → (caught m).1 ≡ m.1
  sent-caught (ok r, x) = refl
  sent-caught (err e, x) = refl

  pub execute-typed :
      (dry : Bool) (torrent action : Fields) (x : Executor W) (t : Value)
      → get "type" action ≡ some t
      → execute rt api services dry torrent action x
        ≡ caught (
            attempt rt api services dry torrent
              (text_of (some t))
              (or_empty (get "params" action))
              x)
  unfolding execute
  execute-typed dry torrent action x t e = rw (execute, e)

  pub execute-untyped :
      (dry : Bool) (torrent action : Fields) (x : Executor W)
      → get "type" action ≡ none
      → execute rt api services dry torrent action x ≡ (err key_error, x)
  unfolding execute
  execute-untyped dry torrent action x e = rw (execute, e)

  -- Executing an action in a dry run sends no command to qBittorrent, whatever the action and the
  -- answers are.
  pub execute_dry_run_sends_nothing :
      (torrent action : Fields) (x : Executor W)
      → (execute rt api services true torrent action x).1.sent ≡ x.sent
  execute_dry_run_sends_nothing torrent action x = elim (Option-cases (get "type" action)) [
    | inl e ↦ rw (execute-untyped true torrent action x e)
    | inr (t, e) ↦
        let m =
          attempt rt api services true torrent (text_of (some t))
            (or_empty (get "params" action)) in
        rw (execute-typed true torrent action x t e) (
          ap (λ y. y.sent) (sent-caught (m x))
          ∙ (Silent-dry torrent (text_of (some t)) (or_empty (get "params" action))).at x)
  ]
