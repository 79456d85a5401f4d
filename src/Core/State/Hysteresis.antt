-- ===== src/Core/State/Hysteresis.antt =====
-- core/state/machine.py: what the two thresholds do to a history of counts.
use hammertime.Base.{ℕ, ◌≤◌, ◌<◌, ◌≡◌, ◌≢◌, ◌⊎◌, refl, Bool, List, [], ◌∷◌, arith}
use hammertime.Core.Config.{DetectionConfig, IsValid}
use hammertime.Core.State.{
  IpState, cold, hot, evaluate_ip_state, run, newest, apply_verdict, evaluate-verdict,
  StateTransition, became_hot, became_cold,
}

-- Under a configuration that was constructed, the state after any history of counts is the verdict
-- of the newest count outside the band, or the first state if there is none.
pub run-eq-newest :
    (config : DetectionConfig) (s : IpState) (counts : List ℕ)
    → IsValid config
    → run s counts config ≡ newest s counts config
run-eq-newest config s [] v = refl
run-eq-newest config s (n ∷ counts) v =
    rw (evaluate-verdict s n config v.hysteresis)
      (run-eq-newest config (apply_verdict config s n) counts v)

-- Every count of the history lies in the band between the thresholds.
abbrev pub AllInBand : DetectionConfig → List ℕ → Type 0
AllInBand config [] = Unit
AllInBand config (n ∷ counts) =
    ((config.cold_threshold ≤ n) × (n < config.hot_threshold)) × AllInBand config counts

-- Counts that stay in the band never change the state: noise there makes no transition.
pub run_in_band :
    (config : DetectionConfig) (s : IpState) (counts : List ℕ)
    → AllInBand config counts
    → run s counts config ≡ s
unfolding evaluate_ip_state
run_in_band config s [] b = refl
run_in_band config cold (n ∷ counts) b = ground (arith, run_in_band config cold counts b.1)
run_in_band config hot (n ∷ counts) b = ground (arith, run_in_band config hot counts b.1)

-- Evaluating again at the same count changes nothing, whatever the state was, under a valid
-- configuration.
pub evaluate_idempotent :
    (config : DetectionConfig) (s : IpState) (n : ℕ)
    → IsValid config
    → evaluate_ip_state (evaluate_ip_state s n config) n config ≡ evaluate_ip_state s n config
unfolding evaluate_ip_state
evaluate_idempotent config cold n v = ground arith
evaluate_idempotent config hot n v = ground arith

-- An evaluation that changes the state is one of two edges: COLD to HOT at a count of at least the
-- upper threshold, or HOT to COLD at a count under the lower one.
pub evaluate_edges :
    (config : DetectionConfig) (s : IpState) (n : ℕ)
    → let t : StateTransition = record { previous = s; current = evaluate_ip_state s n config } in
      evaluate_ip_state s n config ≢ s
      → ((became_hot t ≡ Bool.true) × (config.hot_threshold ≤ n))
        ⊎ ((became_cold t ≡ Bool.true) × (n < config.cold_threshold))
unfolding evaluate_ip_state became_hot became_cold
evaluate_edges config cold n h = ground arith
evaluate_edges config hot n h = ground arith
