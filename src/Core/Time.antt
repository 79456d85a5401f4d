-- ===== src/Core/Time.antt =====
-- core/time/buckets.py and clock.py. Times are UTC epoch seconds, natural numbers; a bucket length
-- of 0 makes the source raise, and every caller of these has checked that it is positive.
pub mod Slots
use Prim.Native.Nat.{◌/◌, ◌%◌}
use hammertime.Base.{
  ℕ, ◌+◌, ◌-◌, ◌*◌, Bool, false, ltb, leb, if◌then◌else◌, Result, ok, err, value_error,
}
use hammertime.Base.Int.{ℤ, is_negative, pos_part}

unfoldable pub bucket_start : ℕ → ℕ → ℕ
bucket_start event_epoch_seconds bucket_seconds =
    event_epoch_seconds / bucket_seconds * bucket_seconds

unfoldable pub bucket_index : ℕ → ℕ → ℕ → ℕ
bucket_index event_epoch_seconds bucket_seconds bucket_count =
    event_epoch_seconds / bucket_seconds % bucket_count

-- `age < 0` is `now < event`.
unfoldable pub is_within_lateness : ℕ → ℕ → ℕ → ℕ → Bool
is_within_lateness event_epoch_seconds now_epoch_seconds window_seconds allowed_lateness_seconds =
    if ltb now_epoch_seconds event_epoch_seconds
    then false
    else leb (now_epoch_seconds - event_epoch_seconds) (window_seconds + allowed_lateness_seconds)

-- `ManualClock`: the time that it reports is its state.
pub record ManualClock : Type 0 where
  pub now : ℕ

unfoldable pub advance : ManualClock → ℤ → Result (ManualClock × ℕ)
advance c seconds =
    if is_negative seconds
    then err value_error
    else ok (record { now = c.now + pos_part seconds }, c.now + pos_part seconds)

unfoldable pub set_now : ManualClock → ℕ → ManualClock × ℕ
set_now c epoch_seconds = (record { now = epoch_seconds }, epoch_seconds)
