-- ===== src/Actions/Commands.antt =====
-- What `execute` (src/qbt_rules/engine.py) sends when it is not a dry run.
use qbt_rules.Prelude.{
  ℕ, ◌+◌, ◌≤◌, String, Bool, true, false, Option, none, some, List, [], ◌∷◌, str_eq, length,
  length-append, arith, Option-cases, inl, inr,
}
use qbt_rules.Value.{Value, Fields, get, truthy}
use qbt_rules.Conditions.{Result, Runtime}
use qbt_rules.Conditions.Lookup.{text_of, hash_of, parse_tags}
use qbt_rules.Api.{
  Api, Command, delete_torrents, set_category, add_tags, remove_tags, set_upload_limit,
  set_download_limit,
}
use qbt_rules.Actions.{Executor, Services, returns, ◌>>=◌, send}
use qbt_rules.Actions.Idempotency.{
  param, parse_file_priority, file_priority_targets, torrent_files, should_skip_idempotent, or_null,
}
use qbt_rules.Actions.Execute.{
  given, follow, set_priorities, execute_set_file_priority, replace_tags, plain_command,
  parameter_action, execute_action, log_dry_run, after_check, attempt, or_empty, execute,
  keep_current,
}
use qbt_rules.Actions.Safety.{
  sent-caught, Sends, Silent-reading, Silent-Sends, Sends-bind, Sends-if, execute-typed,
  execute-untyped,
}

module _ {W : Type 0} (rt : Runtime) (api : Api W) (services : Services W) where
  Sends-send : (c : Command) → Sends {W = W} 1 (send api c)
  unfolding send
  Sends-send c = record { at = λ x. omega (arith, length-append x.sent (c ∷ [])) }

  Sends-given : {A : Type 0} (n : ℕ) (r : Result A) → Sends {W = W} n (given r)
  Sends-given n r = record { at = λ x. omega arith }

  Sends-returns : {A : Type 0} (n : ℕ) (a : A) → Sends {W = W} n (returns a)
  Sends-returns n a = record { at = λ x. omega arith }

  Sends-param :
      (r : Result Value) (f : Value → Command) → Sends {W = W} 2 (given r >>= (λ v. send api (f v)))
  Sends-param r f = Sends-bind 1 1 _ _ (Sends-given 1 r) (λ v. Sends-send (f v))

  Sends-tags :
      (torrent : Fields) (ts : List String) (v : Value)
      → Sends {W = W} 2 (replace_tags rt api services torrent ts v)
  Sends-tags torrent [] v = record {
    at = λ x. omega (arith, (Sends-send (add_tags (hash_of torrent) v)).at x);
  }
  Sends-tags torrent (t ∷ ts) v = Sends-bind 1 1 _ _ (Sends-send _) (λ _. Sends-send _)

  Sends-follow :
      (torrent : Fields) (wanted : List Value) (n : ℕ) (b : Bool)
      → Sends {W = W} 0 (follow rt api services torrent wanted n b)
  Sends-follow torrent wanted n false = Sends-returns 0 false
  Sends-follow torrent wanted n true =
      Sends-bind 0 0 _ _ (Silent-Sends 0 _ (Silent-reading (torrent_files rt api torrent))) λ files.
        Sends-bind 0 0 _ _ (Silent-Sends 0 _ (Silent-reading (keep_current torrent wanted n files)))
          (λ _. Sends-returns 0 true)

  Sends-priorities :
      (torrent : Fields) (t : Option (List Value)) (p : Option ℕ)
      → Sends {W = W} 1 (set_priorities rt api services torrent t p)
  Sends-priorities torrent (some t) (some p) =
      Sends-bind 1 0 _ _ (Sends-send _) (Sends-follow torrent t p)
  Sends-priorities torrent none p = Sends-returns 1 false
  Sends-priorities torrent (some t) none = Sends-returns 1 false

  Sends-file_priority :
      (torrent : Fields) (params : Value)
      → Sends {W = W} 2 (execute_set_file_priority rt api services torrent params)
  unfolding execute_set_file_priority
  Sends-file_priority torrent params =
      Sends-bind 0 2 _ _
        (Silent-Sends 0 _ (Silent-reading (file_priority_targets rt api torrent params)))
        λ targets.
          Sends-bind 1 1 _ _ (Sends-given 1 (param "priority" params))
            (λ p. Sends-priorities torrent targets (parse_file_priority rt api (or_null p)))

  Sends-parameters :
      (torrent : Fields) (t : String) (params : Value)
      → Sends {W = W} 2 (parameter_action rt api services torrent t params)
  unfolding parameter_action
  Sends-parameters torrent t params =
      let h = hash_of torrent in
      Sends-if 2 (str_eq t "delete_torrent") _ _ (Sends-param _ (λ v. delete_torrents h (truthy v)))
        (Sends-if 2 (str_eq t "set_category") _ _ (Sends-param _ (set_category h)) (
          Sends-if 2 (str_eq t "add_tag") _ _ (Sends-param _ (add_tags h)) (
            Sends-if 2 (str_eq t "remove_tag") _ _ (Sends-param _ (remove_tags h)) (
              Sends-if 2 (str_eq t "set_tags") _ _
                (Sends-bind 0 2 _ _ (Sends-given 0 _) (Sends-tags torrent (parse_tags torrent)))
                (Sends-if 2 (str_eq t "set_upload_limit") _ _ (Sends-param _ (set_upload_limit h)) (
                  Sends-if 2 (str_eq t "set_download_limit") _ _
                    (Sends-param _ (set_download_limit h))
                    (Sends-if 2 (str_eq t "set_file_priority") _ _
                      (Sends-file_priority torrent params)
                      (Sends-if 2 (str_eq t "notify") _ _
                        (Silent-Sends 2 _ (Silent-reading (services.notify torrent params)))
                        (Sends-if 2 (str_eq t "arr_blocklist") _ _
                          (Silent-Sends 2 _
                            (Silent-reading (services.arr_blocklist torrent params)))
                          (Sends-returns 2 false))))))))))

  Sends-action :
      (torrent : Fields) (t : String) (params : Value)
      → Sends {W = W} 2 (execute_action rt api services torrent t params)
  unfolding execute_action
  Sends-action torrent t params = elim (Option-cases (plain_command (hash_of torrent) t)) [
    | inl e ↦ rw (execute_action, e) (Sends-parameters torrent t params)
    | inr (c, e) ↦ rw (execute_action, e) (record { at = λ x. omega (arith, (Sends-send c).at x) })
  ]

  Sends-attempt :
      (dry : Bool) (torrent : Fields) (t : String) (params : Value)
      → Sends 2 (attempt rt api services dry torrent t params)
  unfolding attempt
  Sends-attempt dry torrent t params =
      Sends-bind 0 2 _ _
        (Silent-Sends 0 _ (Silent-reading (should_skip_idempotent rt api torrent t params)))
        (check dry)
    where
      check :
          (dry : Bool) (skip : Bool)
          → Sends 2 (after_check rt api services dry torrent t params skip)
      check dry true = record { at = λ x. omega arith }
      check true false =
          Sends-bind 0 2 _ _
            (Silent-Sends 0 _ (Silent-reading (log_dry_run rt api services torrent t params)))
            (λ _. Sends-returns 2 (true, true))
      check false false =
          Sends-bind 2 0 _ _ (Sends-action torrent t params) (λ b. Sends-returns 0 (b, false))

  -- Executing an action sends at most two commands to qBittorrent, whatever the action and the
  -- answers are.
  pub execute_sends_at_most_two :
      (dry : Bool) (torrent action : Fields) (x : Executor W)
      → length (execute rt api services dry torrent action x).1.sent ≤ length x.sent + 2
  execute_sends_at_most_two dry torrent action x = elim (Option-cases (get "type" action)) [
    | inl e ↦ rw (execute-untyped rt api services dry torrent action x e) (omega arith)
    | inr (t, e) ↦
        let params = or_empty (get "params" action) in
        let m = attempt rt api services dry torrent (text_of (some t)) params x in
        rw (execute-typed rt api services dry torrent action x t e) (
          rw (sent-caught rt api services m)
            ((Sends-attempt dry torrent (text_of (some t)) params).at x))
  ]
