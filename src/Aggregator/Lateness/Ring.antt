-- ===== src/Aggregator/Lateness/Ring.antt =====
-- lateness.py against counter.py: the policy and the ring of the same geometry.
use native.Mathlib.Nat.{add-mul-mod_self_right}
use hammertime.Base.{ℕ, ◌+◌, ◌*◌, ◌≤◌, ◌<◌, ◌≡◌, ◌↔◌, ap, ◌∙◌, true, arith}
use mathlib.Core.Path.{ap₂}
use hammertime.Core.Config.{DetectionConfig, IsValid, bucket_count}
use hammertime.Core.Time.{bucket_start}
use hammertime.Core.Time.Slots.{bucket_start_bounds, le-bucket_start}
use hammertime.Aggregator.Counter.{IpCounter, is_live, window_seconds}
use hammertime.Aggregator.Lateness.{applied, expired_bucket, classify_observation}

-- Starts of buckets are monotonic, and move with whole windows.
bucket_start_shift :
    (t u b n : ℕ) → 0 < b → t + n * b ≤ u → bucket_start t b + n * b ≤ bucket_start u b
bucket_start_shift t u b n h le =
    let (aligned, low, high) = bucket_start_bounds t b h in
    (le-bucket_start (bucket_start t b + n * b) u b h
        (add-mul-mod_self_right (bucket_start t b) n b ∙ aligned)).1
      (omega (arith, low))

ring_window :
    (config : DetectionConfig) (c : IpCounter)
    → IsValid config
    → c.bucket_seconds ≡ config.bucket_seconds
    → c.bucket_count ≡ bucket_count config
    → window_seconds c ≡ config.window_seconds
unfolding window_seconds
ring_window config c v e f = omega (arith, ap₂ (λ (b n : ℕ). n * b) e f, v.whole)

-- Under a valid configuration, for a counter of its geometry: an observation is APPLIED exactly if
-- it claims no longer window than the configured one, its time has come, and the bucket that its
-- time is floored to is live in the counter.
pub classify-applied_iff :
    (config : DetectionConfig) (c : IpCounter) (window_start claimed now : ℕ)
    → IsValid config
    → c.bucket_seconds ≡ config.bucket_seconds
    → c.bucket_count ≡ bucket_count config
    → (classify_observation window_start claimed now config ≡ applied) ↔ (
        (claimed ≤ config.window_seconds)
        × (window_start ≤ now)
        × (is_live c (bucket_start window_start config.bucket_seconds) now ≡ true))
unfolding classify_observation is_live
classify-applied_iff config c window_start claimed now v e f =
    let w = ring_window config c v e f in
    let floors : bucket_start now c.bucket_seconds ≡ bucket_start now config.bucket_seconds =
      ap (bucket_start now) e in
    let bounds = bucket_start_bounds window_start config.bucket_seconds v.bucketed in
    ground (
      arith,
      w,
      floors,
      le-bucket_start (bucket_start window_start config.bucket_seconds) now config.bucket_seconds
          v.bucketed bounds.0,
      bounds.1,
      v.whole,
      bucket_start_shift window_start now config.bucket_seconds (bucket_count config) v.bucketed,
    )

-- Under a valid configuration an observation with an age of exactly the window and the allowed
-- lateness is not late: its bucket has left the window.
pub classify_edge :
    (config : DetectionConfig) (window_start claimed now : ℕ)
    → IsValid config
    → claimed ≤ config.window_seconds
    → now ≡ window_start + config.window_seconds + config.allowed_lateness_seconds
    → classify_observation window_start claimed now config ≡ expired_bucket
unfolding classify_observation
classify_edge config window_start claimed now v le e = ground (
  arith,
  v.whole,
  bucket_start_shift window_start now config.bucket_seconds (bucket_count config) v.bucketed,
)
