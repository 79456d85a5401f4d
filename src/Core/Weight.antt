-- ===== src/Core/Weight.antt =====
-- core/state/weight.py: the weight of an IP at a transition, in thousandths of `hot_threshold`.
use hammertime.Base.{
  ℕ, ◌+◌, ◌*◌, ◌/◌, ◌≤◌, ◌<◌, ◌≡◌, ◌⊎◌, refl, min, max, Result, ok, err, configuration_error, arith,
  if◌then◌else◌, ◌>>=◌,
}
use native.Mathlib.Nat.{le-div_iff_mul-le}
use hammertime.Base.Arith.{div_bounds, div_mono, min-mul-le, min-eq_of_lt}
use hammertime.Core.Config.{DetectionConfig, IsValid, is_weight_function}
use hammertime.Core.State.{cold, hot, evaluate_ip_state}

abbrev pub attributes_version_now : ℕ
attributes_version_now = 1

-- `//` by a threshold of 0 would raise; a valid configuration has none.
unfoldable pub threshold_ratio : ℕ → DetectionConfig → ℕ
threshold_ratio window_count config =
    min (max ((1000 * window_count + config.hot_threshold / 2) / config.hot_threshold) 0)
      config.weight_max

unfoldable pub compute_weight : ℕ → DetectionConfig → Result ℕ
compute_weight window_count config =
    if is_weight_function config.weight_function
    then ok (threshold_ratio window_count config)
    else err configuration_error

-- The attribute document: a dictionary of these two keys, both present.
pub record TransitionAttributes : Type 0 where
  pub attributes_version : ℕ
  pub weight : ℕ

unfoldable pub transition_attributes : ℕ → DetectionConfig → Result TransitionAttributes
transition_attributes window_count config = do
  w ← compute_weight window_count config
  ok (record { attributes_version = attributes_version_now; weight = w })

-- Under a valid configuration the weight is the count in thousandths of the threshold rounded half
-- up, or the ceiling where that is less: it is at most the ceiling,
-- `weight * hot <= 1000 * count + hot // 2`, and it is the ceiling or
-- `1000 * count + hot // 2 < (weight + 1) * hot`.
pub threshold_ratio_rounds :
    (config : DetectionConfig) (n : ℕ)
    → IsValid config
    → (threshold_ratio n config ≤ config.weight_max)
      × (threshold_ratio n config * config.hot_threshold ≤ 1000 * n + config.hot_threshold / 2)
      × ((threshold_ratio n config ≡ config.weight_max)
          ⊎ (1000 * n + config.hot_threshold / 2
              < (threshold_ratio n config + 1) * config.hot_threshold))
unfolding threshold_ratio
threshold_ratio_rounds config n v =
    let a = 1000 * n + config.hot_threshold / 2 in
    let q = a / config.hot_threshold in
    let bounds = div_bounds a config.hot_threshold (omega arith) in
    ground (
      arith,
      bounds.0,
      bounds.1,
      min-mul-le q config.weight_max config.hot_threshold,
      min-eq_of_lt q config.weight_max,
    )

-- More traffic never weighs less.
pub threshold_ratio_mono :
    (config : DetectionConfig) (n m : ℕ)
    → IsValid config
    → n ≤ m
    → threshold_ratio n config ≤ threshold_ratio m config
unfolding threshold_ratio
threshold_ratio_mono config n m v h = omega (
  arith,
  div_mono (1000 * n + config.hot_threshold / 2) (1000 * m + config.hot_threshold / 2)
      config.hot_threshold (omega arith) (omega arith),
)

-- Under a valid configuration the document of a promotion always exists, carries version 1, and
-- has a weight from 1000, "at the threshold", to the ceiling.
pub promotion_attributes :
    (config : DetectionConfig) (n : ℕ)
    → IsValid config
    → evaluate_ip_state cold n config ≡ hot
    → (a : TransitionAttributes) × (transition_attributes n config ≡ ok a)
      × (a.attributes_version ≡ 1)
      × (1000 ≤ a.weight)
      × (a.weight ≤ config.weight_max)
unfolding transition_attributes compute_weight threshold_ratio evaluate_ip_state
promotion_attributes config n v h =
    let reached : config.hot_threshold ≤ n = ground arith in
    let a = 1000 * n + config.hot_threshold / 2 in
    let weighs : 1000 ≤ a / config.hot_threshold =
      (le-div_iff_mul-le {k = config.hot_threshold} {x = 1000} {y = a} (omega arith)).1
        (omega arith) in
    (
      record { attributes_version = 1; weight = threshold_ratio n config },
      rw v.weighted,
      refl,
      omega arith,
      omega arith,
    )
