-- ===== src/Schema.antt =====
-- src/qbt_rules/schema.py: the vocabulary of rules.yml, without the descriptions and hints that only the
-- editor shows. The names of tracker.* are those of src/qbt_rules/trackie.py.
use qbt_rules.Prelude.{String, Bool, true, false, List, [], ◌∷◌, ◌++◌, map, str_append}
use qbt_rules.Prelude.Int.{pos}
use qbt_rules.Value.{Value, num, str, int}

abbrev pub field_namespaces : List String
field_namespaces =
    "info" ∷ "trackers" ∷ "files" ∷ "peers" ∷ "properties" ∷ "webseeds" ∷ "transfer" ∷ "app"
    ∷ "stats" ∷ "tracker" ∷ []

abbrev torrent_fields : List String
torrent_fields =
    "status" ∷ "remaining" ∷ "seed_time" ∷ "uploaded" ∷ "downloaded" ∷ "ratio" ∷ "gap"
    ∷ "hnr_seed_time" ∷ "name" ∷ "id" ∷ "tracker" ∷ "match" ∷ "match_source" ∷ "on_peers" ∷ "on_hnr"
    ∷ []

abbrev account_fields : List String
account_fields =
    "ratio" ∷ "min_ratio" ∷ "uploaded" ∷ "downloaded" ∷ "bonus" ∷ "seeding" ∷ "leeching"
    ∷ "hnr_count" ∷ "hnr_limit" ∷ "hnr_grace" ∷ []

abbrev computed_torrent_fields : List String
computed_torrent_fields = "age" ∷ []

abbrev computed_account_fields : List String
computed_account_fields = "ratio_ok" ∷ "age" ∷ []

abbrev pub tracker_field_names : List String
tracker_field_names =
    torrent_fields
    ++ computed_torrent_fields
    ++ map (str_append "account.") (account_fields ++ computed_account_fields)

-- The kind of value that an operator expects.
pub data Kind : Type 0 where
  any_kind string_kind regex_kind list_kind number_kind size_kind duration_kind : Kind

abbrev pub operators : List (String × Kind)
operators =
    ("==", any_kind)
    ∷ ("!=", any_kind)
    ∷ ("contains", string_kind)
    ∷ ("not_contains", string_kind)
    ∷ ("matches", regex_kind)
    ∷ ("in", list_kind)
    ∷ ("not_in", list_kind)
    ∷ (">", number_kind)
    ∷ ("<", number_kind)
    ∷ (">=", number_kind)
    ∷ ("<=", number_kind)
    ∷ ("larger_than", size_kind)
    ∷ ("smaller_than", size_kind)
    ∷ ("older_than", duration_kind)
    ∷ ("newer_than", duration_kind)
    ∷ []

abbrev pub condition_groups : List String
condition_groups = "all" ∷ "any" ∷ "none" ∷ []

abbrev pub rule_keys : List String
rule_keys = "id" ∷ "enabled" ∷ "context" ∷ "stop_on_match" ∷ "meta" ∷ "conditions" ∷ "actions" ∷ []

abbrev pub top_level_keys : List String
top_level_keys = "version" ∷ "refs" ∷ "instances" ∷ "rules" ∷ []

abbrev texts : List String → List Value
texts = map str

abbrev pub notify_services : List Value
notify_services = texts ("discord" ∷ "slack" ∷ "ntfy" ∷ "generic" ∷ [])

abbrev arr_services : List Value
arr_services = texts ("sonarr" ∷ "radarr" ∷ [])

pub data ParamType : Type 0 where
  bool_param string_param int_param list_param regex_param template_param any_param : ParamType
  enum_param : List Value → ParamType

pub record ParamSpec : Type 0 where
  pub name : String
  pub param_type : ParamType
  pub required : Bool

abbrev needed : String → ParamType → ParamSpec
needed n t = record { name = n; param_type = t; required = true }

abbrev optional : String → ParamType → ParamSpec
optional n t = record { name = n; param_type = t; required = false }

abbrev tags_param : List ParamSpec
tags_param = needed "tags" list_param ∷ []

abbrev limit_param : List ParamSpec
limit_param = optional "limit" int_param ∷ []

abbrev priorities : List Value
priorities =
    texts ("skip" ∷ "normal" ∷ "high" ∷ "maximum" ∷ [])
    ++ map (λ n. num (int (pos n))) (0 ∷ 1 ∷ 6 ∷ 7 ∷ [])

abbrev pub action_types : List (String × List ParamSpec)
action_types =
    ("stop", [])
    ∷ ("start", [])
    ∷ ("force_start", [])
    ∷ ("release_force_start", [])
    ∷ ("recheck", [])
    ∷ ("reannounce", [])
    ∷ ("delete_torrent", optional "delete_files" bool_param ∷ [])
    ∷ ("set_category", optional "category" string_param ∷ [])
    ∷ ("add_tag", tags_param)
    ∷ ("remove_tag", tags_param)
    ∷ ("set_tags", tags_param)
    ∷ ("set_upload_limit", limit_param)
    ∷ ("set_download_limit", limit_param)
    ∷ ("increase_priority", [])
    ∷ ("decrease_priority", [])
    ∷ ("set_top_priority", [])
    ∷ ("set_bottom_priority", [])
    ∷ (
      "set_file_priority",
      needed "priority" (enum_param priorities) ∷ optional "pattern" regex_param ∷ [],
    )
    ∷ (
      "notify",
      optional "service" (enum_param notify_services)
          ∷ optional "url" string_param
          ∷ optional "message" template_param
          ∷ optional "body" any_param
          ∷ [],
    )
    ∷ (
      "arr_blocklist",
      needed "service" (enum_param arr_services)
          ∷ optional "remove_from_client" bool_param
          ∷ optional "search" bool_param
          ∷ [],
    )
    ∷ []
