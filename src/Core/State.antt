-- ===== src/Core/State.antt =====
-- core/state/enums.py, machine.py and transitions.py: the one HOT/COLD state machine.
pub mod Hysteresis
use hammertime.Base.{
  ℕ, ◌<◌, ◌≡◌, Bool, true, false, ◌&&◌, List, [], ◌∷◌, Option, none, some, ltb, leb, if◌then◌else◌,
  arith,
}
use hammertime.Core.Config.{DetectionConfig}

pub data IpState : Type 0 where
  cold hot : IpState

unfoldable pub evaluate_ip_state : IpState → ℕ → DetectionConfig → IpState
evaluate_ip_state cold count config = if leb config.hot_threshold count then hot else cold
evaluate_ip_state hot count config = if ltb count config.cold_threshold then cold else hot

-- `a is b`
abbrev pub is : IpState → IpState → Bool
is cold cold = true
is hot hot = true
is _ _ = false

pub record StateTransition : Type 0 where
  pub previous : IpState
  pub current : IpState

unfoldable pub became_hot : StateTransition → Bool
became_hot t = is t.previous cold && is t.current hot

unfoldable pub became_cold : StateTransition → Bool
became_cold t = is t.previous hot && is t.current cold

-- The state after a history of counts, oldest first.
abbrev pub run : IpState → List ℕ → DetectionConfig → IpState
run s [] config = s
run s (n ∷ counts) config = run (evaluate_ip_state s n config) counts config

-- What one count says whatever the state was: at or above the upper threshold it is HOT, under the
-- lower one COLD, and in the band between them nothing.
abbrev pub verdict : DetectionConfig → ℕ → Option IpState
verdict config n =
    if leb config.hot_threshold n
    then some hot
    else if ltb n config.cold_threshold
    then some cold
    else none

abbrev pub apply_verdict : DetectionConfig → IpState → ℕ → IpState
apply_verdict config s n = elim (verdict config n) [ none ↦ s | some t ↦ t ]

-- The newest verdict of a history, or the state that it started from.
abbrev pub newest : IpState → List ℕ → DetectionConfig → IpState
newest s [] config = s
newest s (n ∷ counts) config = newest (apply_verdict config s n) counts config

pub evaluate-verdict :
    (s : IpState) (n : ℕ) (config : DetectionConfig)
    → config.cold_threshold < config.hot_threshold
    → evaluate_ip_state s n config ≡ apply_verdict config s n
unfolding evaluate_ip_state
evaluate-verdict cold n config h = ground arith
evaluate-verdict hot n config h = ground arith
