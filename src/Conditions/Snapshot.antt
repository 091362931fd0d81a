-- ===== src/Conditions/Snapshot.antt =====
-- The meaning of a condition on a fixed snapshot of the server, with no cache and no state: what
-- ConditionEvaluator (src/qbt_rules/engine.py) is to compute.
use qbt_rules.Prelude.{
  String, Bool, true, false, ◌||◌, Option, none, some, List, keep, not, str_eq, if◌then◌else◌,
}
use qbt_rules.Value.{Value, str, list, dict, Items, nil, cons, Fields, end, field, get, get_or_null}
use qbt_rules.Utils.{split_dot, contains}
use qbt_rules.Conditions.{field_error, type_error, key_error, Result, ok, err, Runtime}
use qbt_rules.Conditions.State.{Stats}
use qbt_rules.Conditions.Operators.{apply_operator}
use qbt_rules.Conditions.Lookup.{hash_of, info_value, list_values, is_http, file_values, stat_value}
use qbt_rules.Conditions.Evaluate.{has_group, operator_text, loop_over, context_allows}

-- What each read request answers.
pub record Snapshot : Type 0 where
  pub trackers : String → Result (List Fields)
  pub files : String → Result (List Fields)
  pub peers : String → Result (List Fields)
  pub webseeds : String → Result (List Fields)
  pub properties : String → Result Fields
  pub transfer : Result Fields
  pub app : Result Fields

module _ {A B : Type 0} where
  abbrev pub bind : Result A → (A → Result B) → Result B
  bind (ok a) f = f a
  bind (err e) f = err e

abbrev pub or_false : Result Bool → Bool
or_false (ok b) = b
or_false (err e) = false

module _ (rt : Runtime) (snap : Snapshot) (stats : Stats) (torrent : Fields) where
  unfoldable pub read_endpoint : String → String → String → Result Value
  read_endpoint path endpoint name =
      if str_eq endpoint "info"
      then ok (info_value name torrent)
      else if str_eq endpoint "trackers"
      then bind (snap.trackers (hash_of torrent))
          (λ items. ok (list_values name (keep is_http items)))
      else if str_eq endpoint "files"
      then bind (snap.files (hash_of torrent)) (file_values path (hash_of torrent) name)
      else if str_eq endpoint "peers"
      then bind (snap.peers (hash_of torrent)) (λ items. ok (list_values name items))
      else if str_eq endpoint "properties"
      then bind (snap.properties (hash_of torrent)) (λ props. ok (get_or_null name props))
      else if str_eq endpoint "webseeds"
      then bind (snap.webseeds (hash_of torrent)) (λ items. ok (list_values name items))
      else if str_eq endpoint "transfer"
      then bind snap.transfer (λ d. ok (get_or_null name d))
      else if str_eq endpoint "app"
      then bind snap.app (λ d. ok (get_or_null name d))
      else if str_eq endpoint "stats"
      then ok (stat_value stats name)
      else err field_error

  unfoldable pub read_field : String → Result Value
  unfolding read_endpoint
  read_field path = elim (split_dot path) [
    | none ↦ err field_error
    | some (endpoint, name) ↦ read_endpoint path endpoint name
  ]

  abbrev pub compares : Value → Value → Value → Result Bool
  compares (str path) op value =
      bind (read_field path) (λ actual. apply_operator rt actual (operator_text op) value)
  compares _ op value = err type_error

  abbrev pub parts_hold : Option Value → Option Value → Option Value → Result Bool
  parts_hold (some path) (some op) (some value) = compares path op value
  parts_hold _ _ _ = err key_error

  unfoldable pub leaf_holds : Fields → Result Bool
  leaf_holds fs = parts_hold (get "field" fs) (get "operator" fs) (get "value" fs)

  unfoldable mutual
    pub holds : Value → Result Bool
    holds (dict fs) =
        if has_group fs
        then bind (all_hold fs) (λ a.
          if a then bind (any_hold fs) (λ b. if b then none_hold fs else ok false) else ok false)
        else leaf_holds fs
    holds _ = err type_error

    pub all_hold : Fields → Result Bool
    all_hold end = ok true
    all_hold (field k v fs) = if str_eq k "all" then each_holds v else all_hold fs

    pub any_hold : Fields → Result Bool
    any_hold end = ok true
    any_hold (field k v fs) = if str_eq k "any" then some_holds v else any_hold fs

    pub none_hold : Fields → Result Bool
    none_hold end = ok true
    none_hold (field k v fs) =
        if str_eq k "none" then bind (some_holds v) (λ b. ok (not b)) else none_hold fs

    pub each_holds : Value → Result Bool
    each_holds (list vs) = each_item_holds vs
    each_holds v = loop_over v true

    pub some_holds : Value → Result Bool
    some_holds (list vs) = some_item_holds vs
    some_holds v = loop_over v false

    pub each_item_holds : Items → Result Bool
    each_item_holds nil = ok true
    each_item_holds (cons v vs) = bind (holds v) (λ b. if b then each_item_holds vs else ok false)

    pub some_item_holds : Items → Result Bool
    some_item_holds nil = ok false
    some_item_holds (cons v vs) = bind (holds v) (λ b. if b then ok true else some_item_holds vs)

  unfoldable pub groups_hold : Value → Result Bool
  groups_hold (dict fs) =
      bind (all_hold fs) (λ a.
        if a then bind (any_hold fs) (λ b. if b then none_hold fs else ok false) else ok false)
  groups_hold (str s) =
      if contains "all" s || contains "any" s || contains "none" s then err type_error else ok true
  groups_hold _ = err type_error

  unfoldable pub conditions_hold : Value → Result Bool
  conditions_hold (list vs) = each_item_holds vs
  conditions_hold v = groups_hold v

  -- Whether a rule with these conditions and this required context matches.
  unfoldable pub rule_matches : Value → Option String → Value → Bool
  rule_matches conditions current required =
      if context_allows current required then or_false (conditions_hold conditions) else false
