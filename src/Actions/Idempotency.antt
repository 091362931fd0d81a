-- ===== src/Actions/Idempotency.antt =====
-- `_should_skip_idempotent`, `_parse_file_priority`, `_file_priority_targets` and `_torrent_files` of
-- src/qbt_rules/engine.py.
use qbt_rules.Prelude.{
  ℕ, suc, String, Bool, true, false, ◌&&◌, ◌||◌, Option, none, some, List, [], ◌∷◌, map, all, any,
  not, str_eq, ◌==◌, if◌then◌else◌,
}
use qbt_rules.Prelude.Int.{pos}
use qbt_rules.Value.{
  Value, null, num, str, list, dict, Fields, field, end, get, get_or_null, to_list, truthy, py_eq,
  int,
}
use qbt_rules.Utils.{codes, to_lower, strip, is_digit, is_infix, take_digits}
use qbt_rules.Utils.Sizes.{same_codes}
use qbt_rules.Conditions.{type_error, Result, ok, err, Runtime}
use qbt_rules.Conditions.State.{Action, pure, lift, ◌>>=◌}
use qbt_rules.Conditions.Operators.{to_str}
use qbt_rules.Conditions.Lookup.{text_of, hash_of, parse_tags, through, files_slot}
use qbt_rules.Api.{Api}

-- `"paused" in torrent.get("state", "").lower()`
unfoldable pub is_paused : Fields → Bool
unfolding to_lower
is_paused torrent = is_infix (codes "paused") (map to_lower (codes (text_of (get "state" torrent))))

-- `params.get(key)`
unfoldable pub param : String → Value → Result (Option Value)
param key (dict fs) = ok (get key fs)
param key _ = err type_error

abbrev pub then_ok {ℓ κ} : {A : Type ℓ} {B : Type κ} → Result A → (A → Result B) → Result B
then_ok (ok a) f = f a
then_ok (err e) f = err e

abbrev pub chars : String → List Value
chars String.[] = []
chars (String.◌∷◌ c s) = str (String.◌∷◌ c "") ∷ chars s

abbrev pub keys_of : Fields → List Value
keys_of end = []
keys_of (field k v fs) = str k ∷ keys_of fs

abbrev pub is_hashable : Value → Bool
is_hashable (list vs) = false
is_hashable (dict fs) = false
is_hashable _ = true

-- `set(params.get("tags", []))`: of a text its characters, of a mapping its keys; a list in which an
-- item is a list or a mapping raises, as do null, Booleans and numbers.
abbrev pub tag_values : Option Value → Result (List Value)
tag_values none = ok []
tag_values (some (list vs)) =
    if all is_hashable (to_list vs) then ok (to_list vs) else err type_error
tag_values (some (str s)) = ok (chars s)
tag_values (some (dict fs)) = ok (keys_of fs)
tag_values (some _) = err type_error

unfoldable pub new_tags : Value → Result (List Value)
unfolding param
new_tags params = then_ok (param "tags" params) tag_values

abbrev pub has_tag : List String → Value → Bool
has_tag tags v = any (λ t. py_eq (str t) v) tags

-- The checks of `_should_skip_idempotent` that read the torrent and the parameters alone; `none`
-- for the other action types.
unfoldable pub already_done : Fields → String → Value → Option (Result Bool)
unfolding is_paused new_tags param
already_done torrent action_type params =
    if str_eq action_type "stop"
    then some (ok (is_paused torrent))
    else if str_eq action_type "start"
    then some (ok (not (is_paused torrent)))
    else if str_eq action_type "set_category"
    then some (
        then_ok (param "category" params)
          λ c. ok (py_eq (get_or_null "category" torrent) (elim c [ none ↦ null | some v ↦ v ])))
    else if str_eq action_type "add_tag"
    then some (then_ok (new_tags params) λ tags. ok (all (has_tag (parse_tags torrent)) tags))
    else if str_eq action_type "remove_tag"
    then some (then_ok (new_tags params) λ tags. ok (not (any (has_tag (parse_tags torrent)) tags)))
    else if str_eq action_type "force_start"
    then some (ok (truthy (get_or_null "force_start" torrent)))
    else if str_eq action_type "release_force_start"
    then some (ok (not (truthy (get_or_null "force_start" torrent))))
    else none

abbrev pub digits_only : List ℕ → Bool
digits_only [] = false
digits_only (c ∷ s) = all is_digit (c ∷ s)

-- FILE_PRIORITIES, and the numbers that are its values
unfoldable pub priority_text : List ℕ → Option ℕ
unfolding take_digits
priority_text key =
    if same_codes key (codes "skip")
    then some 0
    else if same_codes key (codes "normal")
    then some 1
    else if same_codes key (codes "high")
    then some 6
    else if same_codes key (codes "maximum")
    then some 7
    else if digits_only key
    then (let n = (take_digits 0 key).0 in
        if n == 0 || n == 1 || n == 6 || n == 7 then some n else none)
    else none

-- `regex is None or regex.search(f.get("name", ""))`, where the pattern is known to compile
abbrev pub name_matches : Runtime → Option String → Fields → Bool
name_matches rt none f = true
name_matches rt (some pattern) f = elim (rt.search pattern (text_of (get "name" f))) [
  | none ↦ false
  | some b ↦ b
]

abbrev pub file_index : ℕ → Fields → Value
file_index position f = elim (get "index" f) [ none ↦ num (int (pos position)) | some v ↦ v ]

abbrev pub is_target : Runtime → Option String → ℕ → Fields → Bool
is_target rt pattern priority f =
    name_matches rt pattern f && not (py_eq (get_or_null "priority" f) (num (int (pos priority))))

-- The comprehension over `enumerate(files)`
unfoldable pub targets_from : Runtime → Option String → ℕ → ℕ → List Fields → List Value
targets_from rt pattern priority position [] = []
targets_from rt pattern priority position (f ∷ fs) =
    let rest = targets_from rt pattern priority (suc position) fs in
    if is_target rt pattern priority f then file_index position f ∷ rest else rest

abbrev pub file_targets : Runtime → Option String → ℕ → List Fields → Option (List Value)
file_targets rt pattern priority [] = none
file_targets rt pattern priority (f ∷ fs) = some (targets_from rt pattern priority 0 (f ∷ fs))

-- `re.compile(pattern) if pattern else None`: no pattern, one that compiles, or one that does not;
-- of a pattern that is no text it raises.
pub data Pattern : Type 0 where
  any_name bad_pattern : Pattern
  named : String → Pattern

abbrev pub compile : Runtime → Option Value → Result Pattern
compile rt none = ok any_name
compile rt (some (str s)) =
    if str_eq s ""
    then ok any_name
    else elim (rt.search s "") [ none ↦ ok bad_pattern | some b ↦ ok (named s) ]
compile rt (some v) = if truthy v then err type_error else ok any_name

abbrev pub is_no_list : Option (List Value) → Bool
is_no_list (some []) = true
is_no_list _ = false

abbrev pub or_null : Option Value → Value
or_null none = null
or_null (some v) = v

module _ {W : Type 0} (rt : Runtime) (api : Api W) where
  unfoldable pub parse_file_priority : Value → Option ℕ
  unfolding priority_text strip to_lower
  parse_file_priority value = priority_text (map to_lower (codes (strip (to_str rt value))))

  unfoldable pub torrent_files : Fields → Action W (List Fields)
  unfolding through
  torrent_files torrent = through (files_slot (hash_of torrent)) (api.get_files (hash_of torrent))

  abbrev pub targets_of : Fields → ℕ → Pattern → Action W (Option (List Value))
  targets_of torrent priority any_name =
      torrent_files torrent >>= (λ files. pure (file_targets rt none priority files))
  targets_of torrent priority (named s) =
      torrent_files torrent >>= (λ files. pure (file_targets rt (some s) priority files))
  targets_of torrent priority bad_pattern = pure none

  abbrev pub targets_at : Fields → Value → Option ℕ → Action W (Option (List Value))
  targets_at torrent params none = pure none
  targets_at torrent params (some priority) =
      lift (then_ok (param "pattern" params) (compile rt)) >>= targets_of torrent priority

  -- `none` is a bad priority or pattern, or a file list that is not loaded.
  unfoldable pub file_priority_targets : Fields → Value → Action W (Option (List Value))
  unfolding torrent_files parse_file_priority param
  file_priority_targets torrent params =
      lift (param "priority" params)
      >>= (λ p. targets_at torrent params (parse_file_priority (or_null p)))

  unfoldable pub should_skip_idempotent : Fields → String → Value → Action W Bool
  unfolding file_priority_targets already_done
  should_skip_idempotent torrent action_type params =
      elim (already_done torrent action_type params) [
        | some r ↦ lift r
        | none ↦
            if str_eq action_type "set_file_priority"
            then file_priority_targets torrent params >>= (λ targets. pure (is_no_list targets))
            else pure false
      ]
