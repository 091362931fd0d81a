-- ===== src/Examples.antt =====
-- A small server and a small Python library, for the tests and the witnesses.
use qbt_rules.Prelude.{
  String, refl, true, false, Option, none, some, List, [], ◌∷◌, map, keep, not, str_eq,
  if◌then◌else◌, arith,
}
use qbt_rules.Value.{Value, bool, str, list, dict, nil, cons, Fields, end, field, put}
use qbt_rules.Utils.{contains}
use qbt_rules.Conditions.{ok, Runtime}
use qbt_rules.Conditions.State.{no_stats, cached, State, new_evaluator}
use qbt_rules.Conditions.Lookup.{hash_of}
use qbt_rules.Conditions.Snapshot.{Snapshot}
use qbt_rules.Conditions.Caching.{Steady, Coherent}
use qbt_rules.Api.{Command, delete_torrents, set_category, Api}
use qbt_rules.Actions.{Executor, Services}
use qbt_rules.Engine.{new_stats, Engine}

abbrev pub runtime : Runtime
runtime = record {
  repr = λ v. "None";
  parse_float = λ s. none;
  float_of_int = λ z. some (record { mantissa = z; scale = 0; is_int = false });
  parse_int = λ s. none;
  search = λ pattern text. some (contains pattern text);
  float_bytes = λ amount multiplier bits. 0;
  now = 0;
}

-- The server's torrents.
abbrev pub Server : Type 0
Server = List Fields

abbrev pub find_torrent : String → Server → Option Fields
find_torrent h [] = none
find_torrent h (t ∷ ts) =
    let rest = find_torrent h ts in if str_eq (hash_of t) h then some t else rest

abbrev pub carry_out : Command → Server → Server
carry_out (delete_torrents h files) ts = keep (λ t. not (str_eq (hash_of t) h)) ts
carry_out (set_category h v) ts =
    map (λ t. if str_eq (hash_of t) h then put "category" v t else t) ts
carry_out _ ts = ts

abbrev pub server : Api Server
server = record {
  get_torrents = λ w. (ok w, w);
  get_torrent = λ h w. (ok (find_torrent h w), w);
  get_trackers = λ h w. (ok [], w);
  get_files = λ h w. (ok [], w);
  get_peers = λ h w. (ok [], w);
  get_webseeds = λ h w. (ok [], w);
  get_properties = λ h w. (ok end, w);
  get_transfer_info = λ w. (ok end, w);
  get_app_preferences = λ w. (ok end, w);
  send = λ c w. (ok true, carry_out c w);
}

abbrev pub snapshot : Snapshot
snapshot = record {
  trackers = λ h. ok [];
  files = λ h. ok [];
  peers = λ h. ok [];
  webseeds = λ h. ok [];
  properties = λ h. ok end;
  transfer = ok end;
  app = ok end;
}

pub server-Steady : Steady server snapshot
server-Steady = record {
  trackers = λ h w. refl;
  files = λ h w. refl;
  peers = λ h w. refl;
  webseeds = λ h w. refl;
  properties = λ h w. refl;
  transfer = λ w. refl;
  app = λ w. refl;
}

abbrev pub services : Services Server
services = record {
  notify = λ torrent params s. (ok true, s);
  arr_blocklist = λ torrent params s. (ok true, s);
  preview = λ torrent params s. (ok tt, s);
}

abbrev pub stopped_torrent : Fields
stopped_torrent =
    field "hash" (str "aa") (field "state" (str "stoppedUP") (field "category" (str "tv") end))

abbrev pub paused_torrent : Fields
paused_torrent = field "hash" (str "bb") (field "state" (str "pausedDL") end)

abbrev pub start_action : Fields
start_action = field "type" (str "start") end

abbrev pub stop_action : Fields
stop_action = field "type" (str "stop") end

abbrev pub is_state : String → Value
is_state s =
    dict
      (field "field" (str "info.state") (field "operator" (str "==") (field "value" (str s) end)))

abbrev pub start_rule_of : String → Fields
start_rule_of s = field "id" (str "start") (
    field "conditions" (list (cons (is_state s) nil)) (
      field "actions" (list (cons (dict start_action) nil))
        (field "stop_on_match" (bool true) end)))

abbrev pub first_state : State Server
first_state = record { evaluator = new_evaluator; world = stopped_torrent ∷ paused_torrent ∷ [] }

abbrev pub first_executor : Executor Server
first_executor = record { core = first_state; already_applied = 0; sent = [] }

abbrev pub first_engine : Engine Server
first_engine = record { executor = first_executor; stats = new_stats; processed = [] }

pub new_evaluator-Coherent : Coherent snapshot no_stats new_evaluator
unfolding new_evaluator cached
new_evaluator-Coherent = record {
  trackers = λ k v e. ground (arith, e);
  files = λ k v e. ground (arith, e);
  peers = λ k v e. ground (arith, e);
  webseeds = λ k v e. ground (arith, e);
  properties = λ k v e. ground (arith, e);
  transfer = λ v e. ground (arith, e);
  app = λ v e. ground (arith, e);
  same_stats = refl;
}
