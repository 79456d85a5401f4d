-- ===== src/Core/Config/Construction.antt =====
-- core/config/models.py: what the construction of a configuration rejects. The integers are any, as
-- Python's are; the one float, `minimum_hot_ratio`, is finite and so is the fraction that it stands for.
use Prim.Native.String.{String}
use hammertime.Base.{
  ◌≡◌, refl, ◌↔◌, true, false, not, ◌&&◌, Result, ok, configuration_error, zero_division, raise_if,
  ◌>>◌, arith,
}
use hammertime.Base.Int.{ℤ, pos}
use hammertime.Core.Integers.{
  less, modulo, is_zero, AtMost, Below, Divides, less_iff, not_less_iff, modulo_iff,
}
use hammertime.Core.Config.{Ratio, is_fraction, is_weight_function, DetectionConfig}

pub record ConfigArguments : Type 0 where
  pub config_version : ℤ
  pub window_seconds : ℤ
  pub bucket_seconds : ℤ
  pub hot_threshold : ℤ
  pub cold_threshold : ℤ
  pub minimum_hot_ips : ℤ
  pub minimum_hot_ratio : Ratio
  pub allowed_lateness_seconds : ℤ
  pub state_retention_seconds : ℤ
  pub weight_function : String
  pub weight_max : ℤ

-- Construction returns the configuration or raises. `%` by zero is Python's own exception.
unfoldable pub post_init : ConfigArguments → Result ConfigArguments
post_init c = do
  raise_if (less c.config_version (pos 1)) configuration_error
  raise_if (not (less c.cold_threshold c.hot_threshold)) configuration_error
  raise_if (is_zero c.bucket_seconds) zero_division
  raise_if (not (is_zero (modulo c.window_seconds c.bucket_seconds))) configuration_error
  raise_if (less c.state_retention_seconds c.window_seconds) configuration_error
  raise_if (not (is_fraction c.minimum_hot_ratio)) configuration_error
  raise_if (not (is_weight_function c.weight_function)) configuration_error
  raise_if (not (not (less c.weight_max (pos 1000)) && not (less (pos 1000000) c.weight_max)))
      configuration_error
  ok c

-- What construction demands: the bucket length may be negative, and the integers that are not named may
-- be anything.
pub record IsAccepted (c : ConfigArguments) : Type 0 where
  pub versioned : AtMost (pos 1) c.config_version
  pub hysteresis : Below c.cold_threshold c.hot_threshold
  pub bucketed : is_zero c.bucket_seconds ≡ false
  pub whole : Divides c.bucket_seconds c.window_seconds
  pub retained : AtMost c.window_seconds c.state_retention_seconds
  pub ratio : is_fraction c.minimum_hot_ratio ≡ true
  pub weighted : is_weight_function c.weight_function ≡ true
  pub weight_floor : AtMost (pos 1000) c.weight_max
  pub weight_ceiling : AtMost c.weight_max (pos 1000000)

-- The tests of the construction, in its order.
abbrev Passes : ConfigArguments → Type 0
Passes c =
    (less c.config_version (pos 1) ≡ false)
    × (less c.cold_threshold c.hot_threshold ≡ true)
    × (is_zero c.bucket_seconds ≡ false)
    × (is_zero (modulo c.window_seconds c.bucket_seconds) ≡ true)
    × (less c.state_retention_seconds c.window_seconds ≡ false)
    × (is_fraction c.minimum_hot_ratio ≡ true)
    × (is_weight_function c.weight_function ≡ true)
    × (less c.weight_max (pos 1000) ≡ false)
    × (less (pos 1000000) c.weight_max ≡ false)

post_init-Passes : (c r : ConfigArguments) → post_init c ≡ ok r → (r ≡ c) × Passes c
unfolding post_init
post_init-Passes c r h = ground (arith, h)

post_init_sound : (c r : ConfigArguments) → post_init c ≡ ok r → (r ≡ c) × IsAccepted c
post_init_sound c r h =
    let (same, passed) = post_init-Passes c r h in
    let (versioned, hysteresis, bucketed, whole, retained, ratio, weighted, low, high) = passed in
    (
      same,
      record {
        versioned = (not_less_iff c.config_version (pos 1)).0 versioned;
        hysteresis = (less_iff c.cold_threshold c.hot_threshold).0 hysteresis;
        bucketed = bucketed;
        whole = (modulo_iff c.window_seconds c.bucket_seconds bucketed).0 whole;
        retained = (not_less_iff c.state_retention_seconds c.window_seconds).0 retained;
        ratio = ratio;
        weighted = weighted;
        weight_floor = (not_less_iff c.weight_max (pos 1000)).0 low;
        weight_ceiling = (not_less_iff (pos 1000000) c.weight_max).0 high;
      },
    )

post_init_complete : (c : ConfigArguments) → IsAccepted c → post_init c ≡ ok c
unfolding post_init
post_init_complete c v =
    rw
      (
        post_init,
        (not_less_iff c.config_version (pos 1)).1 v.versioned,
        (less_iff c.cold_threshold c.hot_threshold).1 v.hysteresis,
        v.bucketed,
        (modulo_iff c.window_seconds c.bucket_seconds v.bucketed).1 v.whole,
        (not_less_iff c.state_retention_seconds c.window_seconds).1 v.retained,
        v.ratio,
        v.weighted,
        (not_less_iff c.weight_max (pos 1000)).1 v.weight_floor,
        (not_less_iff (pos 1000000) c.weight_max).1 v.weight_ceiling,
      )
      refl

-- Construction succeeds exactly on these arguments, and returns what it was given.
pub post_init_iff : (c r : ConfigArguments) → (post_init c ≡ ok r) ↔ ((r ≡ c) × IsAccepted c)
post_init_iff c r = (post_init_sound c r, λ p. cc (p.0, post_init_complete c p.1))

-- The arguments of a configuration of natural numbers, as the services read it.
abbrev pub arguments_of : DetectionConfig → ConfigArguments
arguments_of c = record {
  config_version = pos c.config_version;
  window_seconds = pos c.window_seconds;
  bucket_seconds = pos c.bucket_seconds;
  hot_threshold = pos c.hot_threshold;
  cold_threshold = pos c.cold_threshold;
  minimum_hot_ips = pos c.minimum_hot_ips;
  minimum_hot_ratio = c.minimum_hot_ratio;
  allowed_lateness_seconds = pos c.allowed_lateness_seconds;
  state_retention_seconds = pos c.state_retention_seconds;
  weight_function = c.weight_function;
  weight_max = pos c.weight_max;
}
