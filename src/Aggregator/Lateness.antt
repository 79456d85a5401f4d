-- ===== src/Aggregator/Lateness.antt =====
-- aggregator/lateness.py: what the hot path does with one observation.
pub mod Ring
use hammertime.Base.{ℕ, ◌+◌, ◌-◌, ltb, leb, if◌then◌else◌}
use hammertime.Core.Config.{DetectionConfig}
use hammertime.Core.Time.{bucket_start}

pub data ObservationOutcome : Type 0 where
  applied late future expired_bucket window_too_long malformed unclaimed redelivered :
      ObservationOutcome

-- After the FUTURE test `window_start` is at most `now`, so both ages are exact.
unfoldable pub classify_observation : ℕ → ℕ → ℕ → DetectionConfig → ObservationOutcome
classify_observation window_start window_seconds now config =
    if ltb config.window_seconds window_seconds
    then window_too_long
    else if ltb now window_start
    then future
    else if ltb (config.window_seconds + config.allowed_lateness_seconds) (now - window_start)
    then late
    else if leb config.window_seconds
        (bucket_start now config.bucket_seconds - bucket_start window_start config.bucket_seconds)
    then expired_bucket
    else applied
