-- ===== src/Core/Tests.antt =====
-- Runs of packages/hammertime-core at concrete inputs, and its theorems at some of them.
mod Codec
use hammertime.Base.{
  ℕ, ◌+◌, ◌*◌, ◌/◌, ◌≤◌, ◌<◌, ◌≡◌, ◌⊎◌, ◌↔◌, refl, List, [], ◌∷◌, ok, err, zero_division, arith,
}
use hammertime.Base.Int.{pos, negsuc}
use hammertime.Core.Config.{defaults, defaults-IsValid}
use hammertime.Core.Config.Construction.{
  ConfigArguments, IsAccepted, post_init, arguments_of, post_init_iff,
}
use hammertime.Core.State.{cold, hot, evaluate_ip_state, run, newest}
use hammertime.Core.State.Hysteresis.{run-eq-newest, run_in_band}
use hammertime.Core.Weight.{
  threshold_ratio, threshold_ratio_rounds, transition_attributes, TransitionAttributes,
  promotion_attributes,
}
use hammertime.Core.Time.{bucket_index}

-- A negative bucket length that divides the window is accepted.
abbrev backwards : ConfigArguments
backwards = record (arguments_of defaults) { bucket_seconds = negsuc 9 }

backwards_accepted : post_init backwards ≡ ok backwards
unfolding post_init
backwards_accepted = refl

post_init_iff_example :
    (post_init backwards ≡ ok backwards) ↔ ((backwards ≡ backwards) × IsAccepted backwards)
post_init_iff_example = post_init_iff backwards backwards

-- With no bucket length the remainder raises before the message about it could.
no_bucket : post_init (record backwards { bucket_seconds = pos 0 }) ≡ err zero_division
unfolding post_init
no_bucket = refl

abbrev counts : List ℕ
counts = 900 ∷ 1000 ∷ 850 ∷ 799 ∷ 999 ∷ []

counts_run : run cold counts defaults ≡ cold
unfolding evaluate_ip_state
counts_run = refl

run-eq-newest_example : run hot counts defaults ≡ newest hot counts defaults
run-eq-newest_example = run-eq-newest defaults hot counts defaults-IsValid

run_in_band_example : run hot (900 ∷ 800 ∷ 999 ∷ []) defaults ≡ hot
run_in_band_example = run_in_band defaults hot (900 ∷ 800 ∷ 999 ∷ []) (omega arith)

threshold_ratio_rounds_example :
    (threshold_ratio 2500 defaults ≤ 1000000)
    × (threshold_ratio 2500 defaults * 1000 ≤ 1000 * 2500 + 1000 / 2)
    × ((threshold_ratio 2500 defaults ≡ 1000000)
        ⊎ (1000 * 2500 + 1000 / 2 < (threshold_ratio 2500 defaults + 1) * 1000))
threshold_ratio_rounds_example = threshold_ratio_rounds defaults 2500 defaults-IsValid

promoted : evaluate_ip_state cold 1200 defaults ≡ hot
unfolding evaluate_ip_state
promoted = refl

ring_index : bucket_index 1230 10 30 ≡ 3
unfolding bucket_index
ring_index = refl
