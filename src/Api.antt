-- ===== src/Api.antt =====
-- The qBittorrent server as the engine sees it, through the methods of src/qbt_rules/qbittorrent.py, and
-- the other services that actions call. All are a parameter: a state of the outside world of any
-- type, and what each request returns and leaves behind. A request may raise.
use qbt_rules.Prelude.{ℕ, String, Bool, Option, List}
use qbt_rules.Value.{Value, Fields}
use qbt_rules.Conditions.{Result}

-- The requests that change something, for one torrent hash.
pub data Command : Type 0 where
  stop_torrents start_torrents recheck_torrents reannounce_torrents : String → Command
  force_start_torrents : String → Bool → Command
  delete_torrents : String → Bool → Command
  set_category : String → Value → Command
  add_tags remove_tags : String → Value → Command
  set_upload_limit set_download_limit : String → Value → Command
  increase_priority decrease_priority set_top_priority set_bottom_priority : String → Command
  set_file_priority : String → List Value → ℕ → Command

pub record Api (W : Type 0) : Type 0 where
  pub get_torrents : W → Result (List Fields) × W
  pub get_torrent : String → W → Result (Option Fields) × W
  pub get_trackers : String → W → Result (List Fields) × W
  pub get_files : String → W → Result (List Fields) × W
  pub get_peers : String → W → Result (List Fields) × W
  pub get_webseeds : String → W → Result (List Fields) × W
  pub get_properties : String → W → Result Fields × W
  pub get_transfer_info : W → Result Fields × W
  pub get_app_preferences : W → Result Fields × W
  pub send : Command → W → Result Bool × W
