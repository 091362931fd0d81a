-- ===== src/Conditions/Lookup.antt =====
-- `_get_field_value` of src/qbt_rules/engine.py: a field is read through the cache of its endpoint. The
-- trackie integration is not configured here, so that a field of its namespace raises FieldError.
use qbt_rules.Prelude.{
  String, Bool, Option, none, some, List, [], ◌∷◌, map, keep, str_eq, if◌then◌else◌,
}
use qbt_rules.Prelude.Int.{ℤ}
use qbt_rules.Value.{
  Value, num, str, list, dict, Fields, end, field, get, get_or_null, of_list, int,
}
use qbt_rules.Utils.{split_dot, parse_tag_text, starts_with}
use qbt_rules.Conditions.{data_not_ready, field_error, Result, ok, err}
use qbt_rules.Conditions.State.{
  cached, Counter, count_of, Stats, Evaluator, State, Action, pure, raise, lift, ◌>>=◌,
}
use qbt_rules.Api.{Api}

-- A value that qBittorrent's API documents as a text; "" stands for any other.
abbrev pub text_of : Option Value → String
text_of (some (str s)) = s
text_of _ = ""

abbrev pub hash_of : Fields → String
hash_of torrent = text_of (get "hash" torrent)

-- `parse_tags(torrent)`
unfoldable pub parse_tags : Fields → List String
unfolding parse_tag_text
parse_tags torrent = parse_tag_text (text_of (get "tags" torrent))

-- `[item.get(name) for item in items if name in item]`
unfoldable pub values_of : String → List Fields → List Value
values_of name [] = []
values_of name (item ∷ items) =
    let rest = values_of name items in elim (get name item) [ none ↦ rest | some v ↦ v ∷ rest ]

abbrev pub is_http : Fields → Bool
is_http t = starts_with (text_of (get "url" t)) "http"

abbrev pub counter_fields : Counter → Fields
counter_fields [] = end
counter_fields ((k, n) ∷ c) = field k (num (int n)) (counter_fields c)

-- `self.stats.get(parts[0], {}).get(parts[1], 0)`, or `self.stats.get(property_name, 0)`
unfoldable pub nested_stat : Stats → String → String → Option ℤ
nested_stat st group key =
    if str_eq group "state"
    then some (count_of key st.state)
    else if str_eq group "category"
    then some (count_of key st.category)
    else if str_eq group "tag"
    then some (count_of key st.tag)
    else none

unfoldable pub plain_stat : Stats → String → Value
plain_stat st name =
    if str_eq name "state"
    then dict (counter_fields st.state)
    else if str_eq name "category"
    then dict (counter_fields st.category)
    else if str_eq name "tag"
    then dict (counter_fields st.tag)
    else if str_eq name "total"
    then num (int st.total)
    else if str_eq name "dlspeed"
    then num (int st.dlspeed)
    else if str_eq name "upspeed"
    then num (int st.upspeed)
    else if str_eq name "seeds"
    then num (int st.seeds)
    else if str_eq name "leechs"
    then num (int st.leechs)
    else num (int (ℤ.pos 0))

unfoldable pub stat_value : Stats → String → Value
unfolding nested_stat plain_stat
stat_value st name = elim (split_dot name) [
  | none ↦ plain_stat st name
  | some (group, key) ↦ (elim (nested_stat st group key) [
    | none ↦ plain_stat st name
    | some n ↦ num (int n)
  ])
]

-- A dictionary of the evaluator that is filled at the first read of a key.
pub record Slot (V : Type 0) : Type 0 where
  pub read : Evaluator → Option V
  pub write : V → Evaluator → Evaluator

module _ {W V : Type 0} where
  -- what the request returned is kept, if it did not raise
  abbrev pub store : Slot V → Result V × W → Evaluator → Result V × State W
  store slot (ok v, w) e = (ok v, record { evaluator = slot.write v e; world = w })
  store slot (err x, w) e = (err x, record { evaluator = e; world = w })

  -- `if key not in cache: cache[key] = request()`, then `cache[key]`
  unfoldable pub through : Slot V → (W → Result V × W) → Action W V
  through slot request s = elim (slot.read s.evaluator) [
    | some v ↦ (ok v, s)
    | none ↦ store slot (request s.world) s.evaluator
  ]

abbrev pub trackers_slot : String → Slot (List Fields)
trackers_slot h = record {
  read = λ e. cached h e.trackers_cache;
  write = λ v e. record e { trackers_cache = (h, v) ∷ e.trackers_cache };
}

abbrev pub files_slot : String → Slot (List Fields)
files_slot h = record {
  read = λ e. cached h e.files_cache;
  write = λ v e. record e { files_cache = (h, v) ∷ e.files_cache };
}

abbrev pub peers_slot : String → Slot (List Fields)
peers_slot h = record {
  read = λ e. cached h e.peers_cache;
  write = λ v e. record e { peers_cache = (h, v) ∷ e.peers_cache };
}

abbrev pub webseeds_slot : String → Slot (List Fields)
webseeds_slot h = record {
  read = λ e. cached h e.webseeds_cache;
  write = λ v e. record e { webseeds_cache = (h, v) ∷ e.webseeds_cache };
}

abbrev pub properties_slot : String → Slot Fields
properties_slot h = record {
  read = λ e. cached h e.properties_cache;
  write = λ v e. record e { properties_cache = (h, v) ∷ e.properties_cache };
}

abbrev pub transfer_slot : Slot Fields
transfer_slot = record {
  read = λ e. e.transfer_info;
  write = λ v e. record e { transfer_info = some v };
}

abbrev pub app_slot : Slot Fields
app_slot = record {
  read = λ e. e.app_preferences;
  write = λ v e. record e { app_preferences = some v };
}

-- An empty file list means that the metadata is not loaded yet.
abbrev pub file_values : String → String → String → List Fields → Result Value
file_values path hash name [] = err (data_not_ready path hash)
file_values path hash name (f ∷ fs) = ok (list (of_list (values_of name (f ∷ fs))))

abbrev pub list_values : String → List Fields → Value
list_values name items = list (of_list (values_of name items))

abbrev pub info_value : String → Fields → Value
info_value name torrent =
    if str_eq name "tags"
    then list (of_list (map str (parse_tags torrent)))
    else get_or_null name torrent

module _ {W : Type 0} (api : Api W) where
  unfoldable pub route : Fields → String → String → String → Action W Value
  unfolding through values_of stat_value
  route torrent path endpoint name =
      if str_eq endpoint "info"
      then pure (info_value name torrent)
      else if str_eq endpoint "trackers"
      then through (trackers_slot (hash_of torrent)) (api.get_trackers (hash_of torrent))
        >>= (λ items. pure (list_values name (keep is_http items)))
      else if str_eq endpoint "files"
      then through (files_slot (hash_of torrent)) (api.get_files (hash_of torrent))
        >>= (λ items. lift (file_values path (hash_of torrent) name items))
      else if str_eq endpoint "peers"
      then through (peers_slot (hash_of torrent)) (api.get_peers (hash_of torrent))
        >>= (λ items. pure (list_values name items))
      else if str_eq endpoint "properties"
      then through (properties_slot (hash_of torrent)) (api.get_properties (hash_of torrent))
        >>= (λ props. pure (get_or_null name props))
      else if str_eq endpoint "webseeds"
      then through (webseeds_slot (hash_of torrent)) (api.get_webseeds (hash_of torrent))
        >>= (λ items. pure (list_values name items))
      else if str_eq endpoint "transfer"
      then through transfer_slot api.get_transfer_info >>= (λ d. pure (get_or_null name d))
      else if str_eq endpoint "app"
      then through app_slot api.get_app_preferences >>= (λ d. pure (get_or_null name d))
      else if str_eq endpoint "stats"
      then (λ s. (ok (stat_value s.evaluator.stats name), s))
      else raise field_error

  unfoldable pub get_field_value : Fields → String → Action W Value
  unfolding route split_dot
  get_field_value torrent path = elim (split_dot path) [
    | none ↦ raise field_error
    | some (endpoint, name) ↦ route torrent path endpoint name
  ]
