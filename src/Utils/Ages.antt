-- ===== src/Utils/Ages.antt =====
-- `is_older_than` and `is_newer_than` of src/qbt_rules/utils.py, around the moment at which they turn.
use qbt_rules.Prelude.{ℕ, suc, ◌+◌, ◌-◌, ◌*◌, ◌<◌, String, ◌≡◌, true, false, ◌||◌, arith}
use qbt_rules.Prelude.Int.{ℤ, pos}
use qbt_rules.Utils.{parse_duration}
use qbt_rules.Utils.Sizes.{is_unset_timestamp, is_older_than, is_newer_than}

-- A timestamp t that is set is newer than a duration at every moment before t plus the duration,
-- counted in microseconds, neither newer nor older at that moment, and older at every moment
-- after it.
pub older_newer_turns :
    (t k : ℕ) (duration : String)
    → is_unset_timestamp (pos t) ≡ false
    → let moment = (t + parse_duration duration) * 1000000 in
      (is_newer_than (moment - suc k) (pos t) duration ≡ true)
      × (is_older_than (moment - suc k) (pos t) duration ≡ false)
      × (is_newer_than moment (pos t) duration ≡ false)
      × (is_older_than moment (pos t) duration ≡ false)
      × (is_newer_than (moment + suc k) (pos t) duration ≡ false)
      × (is_older_than (moment + suc k) (pos t) duration ≡ true)
unfolding is_older_than is_newer_than
older_newer_turns t k duration h =
    let later : 0 < t = unfold is_unset_timestamp in ground (arith, h) in
    (
      ground (arith, h, later),
      ground (arith, h, later),
      ground (arith, h),
      ground (arith, h),
      ground (arith, h),
      ground (arith, h),
    )

-- An unset timestamp, 0 or below or 4294967295 or above, is neither older nor newer than a duration.
pub unset_neither :
    (now : ℕ) (t : ℤ) (duration : String)
    → is_unset_timestamp t ≡ true
    → (is_older_than now t duration || is_newer_than now t duration) ≡ false
unfolding is_older_than is_newer_than
unset_neither now t duration e = ground arith
