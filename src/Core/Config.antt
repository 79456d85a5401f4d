-- ===== src/Core/Config.antt =====
-- core/config/models.py: the detection configuration as the services read it. Its integers are not
-- negative here (schemas/detection_config.v1.json has their minima); Construction has the class's own
-- checks, of any integers. The one float, `minimum_hot_ratio`, is finite and so is the fraction that it
-- stands for.
pub mod Construction
use Prim.Native.String.{String}
use text.Mathlib.Text.{◌==◌ as str_eq}
use hammertime.Base.{
  ℕ, ◌/◌, ◌%◌, ◌*◌, ◌<◌, ◌≤◌, ◌≡◌, refl, sym, ap, ◌∙◌, ◌↔◌, Bool, true, not, ◌&&◌, Result, ok, err,
  configuration_error, zero_division, raise_if, ◌>>◌, ltb, leb, ◌==◌, arith,
}
use hammertime.Base.Int.{ℤ, pos, is_negative, pos_part}
use native.Mathlib.Nat.{div-add-mod', mul-mod_left}

pub record Ratio : Type 0 where
  pub numerator : ℤ
  pub denominator : ℕ

pub record DetectionConfig : Type 0 where
  pub config_version : ℕ
  pub window_seconds : ℕ
  pub bucket_seconds : ℕ
  pub hot_threshold : ℕ
  pub cold_threshold : ℕ
  pub minimum_hot_ips : ℕ
  pub minimum_hot_ratio : Ratio
  pub allowed_lateness_seconds : ℕ
  pub state_retention_seconds : ℕ
  pub weight_function : String
  pub weight_max : ℕ

-- `0.0 <= ratio <= 1.0`
abbrev pub is_fraction : Ratio → Bool
is_fraction r = not (is_negative r.numerator) && leb (pos_part r.numerator) r.denominator

-- `weight_function in WEIGHT_FUNCTIONS`, which has one member.
abbrev pub is_weight_function : String → Bool
is_weight_function name = str_eq name "threshold_ratio"

unfoldable pub bucket_count : DetectionConfig → ℕ
bucket_count c = c.window_seconds / c.bucket_seconds

-- What the services rely on of a configuration.
pub record IsValid (c : DetectionConfig) : Type 0 where
  pub versioned : 1 ≤ c.config_version
  pub hysteresis : c.cold_threshold < c.hot_threshold
  pub bucketed : 0 < c.bucket_seconds
  pub whole : bucket_count c * c.bucket_seconds ≡ c.window_seconds
  pub retained : c.window_seconds ≤ c.state_retention_seconds
  pub ratio : is_fraction c.minimum_hot_ratio ≡ true
  pub weighted : is_weight_function c.weight_function ≡ true
  pub weight_floor : 1000 ≤ c.weight_max
  pub weight_ceiling : c.weight_max ≤ 1000000

-- The defaults of `DetectionConfig`; 0.10 is the nearest double's fraction, here 1/10.
abbrev pub defaults : DetectionConfig
defaults = record {
  config_version = 1;
  window_seconds = 300;
  bucket_seconds = 10;
  hot_threshold = 1000;
  cold_threshold = 800;
  minimum_hot_ips = 16;
  minimum_hot_ratio = record { numerator = pos 1; denominator = 10 };
  allowed_lateness_seconds = 30;
  state_retention_seconds = 600;
  weight_function = "threshold_ratio";
  weight_max = 1000000;
}

pub defaults-IsValid : IsValid defaults
unfolding bucket_count
defaults-IsValid = record {
  versioned = omega arith;
  hysteresis = omega arith;
  bucketed = omega arith;
  whole = refl;
  retained = omega arith;
  ratio = refl;
  weighted = refl;
  weight_floor = omega arith;
  weight_ceiling = omega arith;
}
