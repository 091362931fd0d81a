-- ===== src/Utils/Tests.antt =====
-- Runs of src/qbt_rules/utils.py.
use qbt_rules.Prelude.{◌≡◌, refl, true, false, ◌+◌, ◌-◌, ◌*◌}
use qbt_rules.Prelude.Int.{pos}
use qbt_rules.Utils.{parse_duration}
use qbt_rules.Utils.Sizes.{is_older_than, is_newer_than, is_unset_timestamp}
use qbt_rules.Utils.Ages.{older_newer_turns}

two_weeks : parse_duration " 2 Weeks" ≡ 1209600
unfolding parse_duration
two_weeks = refl

old_torrent : is_older_than 9000000 (pos 5) "3 seconds" ≡ true
unfolding is_older_than parse_duration
old_torrent = refl

is_set : is_unset_timestamp (pos 5) ≡ false
unfolding is_unset_timestamp
is_set = refl

older_newer_turns_example :
    let moment = (5 + parse_duration "3 seconds") * 1000000 in
    (is_newer_than (moment - 2) (pos 5) "3 seconds" ≡ true)
    × (is_older_than (moment - 2) (pos 5) "3 seconds" ≡ false)
    × (is_newer_than moment (pos 5) "3 seconds" ≡ false)
    × (is_older_than moment (pos 5) "3 seconds" ≡ false)
    × (is_newer_than (moment + 2) (pos 5) "3 seconds" ≡ false)
    × (is_older_than (moment + 2) (pos 5) "3 seconds" ≡ true)
older_newer_turns_example = older_newer_turns 5 1 "3 seconds" is_set
