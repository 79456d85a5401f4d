-- ===== src/Core/Events.antt =====
-- core/events/models.py and envelope.py: what the services send each other. An attribute document is of
-- any type. A time is an instant, the seconds since the epoch, and says whether it has a time zone. A
-- ratio is exact. `digest` is hashlib's SHA-256 in hexadecimal and `decimal` Python's text of an integer.
use Prim.Native.String.{String, ◌++◌}
use hammertime.Base.{ℕ, Bool, Option, none, some, List}
use hammertime.Base.Int.{ℤ, pos}
use hammertime.Core.Config.{Ratio}
use hammertime.Core.Address.{Address}

pub record Timestamp : Type 0 where
  pub epoch : ℕ
  pub is_aware : Bool

pub record Observation : Type 0 where
  pub ip : Address
  pub request_count : ℤ

pub record RequestObservation : Type 0 where
  pub agent_id : String
  pub sequence : ℤ
  pub window_start : Timestamp
  pub window_seconds : ℤ
  pub observations : List Observation

-- The fields of `HotIpAdded` and of `HotIpRemoved`
pub record HotIpEvent (Attributes : Type 0) : Type 0 where
  pub ip : Address
  pub timestamp : Timestamp
  pub sequence : ℤ
  pub window_count : ℤ
  pub config_version : ℤ
  pub attributes : Option Attributes

pub record PrefixStatsChanged : Type 0 where
  pub prefix : String
  pub hot_count : ℤ
  pub capacity : ℤ
  pub sequence : ℤ
  pub timestamp : Timestamp
  pub hot_ratio : Option Ratio

pub data EventPayload (Attributes : Type 0) : Type 0 where
  request_observation : RequestObservation → EventPayload Attributes
  hot_ip_added : HotIpEvent Attributes → EventPayload Attributes
  hot_ip_removed : HotIpEvent Attributes → EventPayload Attributes
  prefix_stats_changed : PrefixStatsChanged → EventPayload Attributes

-- `event_id` is a function of the other fields, which no envelope carries otherwise.
pub record EventEnvelope (Attributes : Type 0) : Type 0 where
  pub agent_id : String
  pub sequence : ℤ
  pub event_type : String
  pub config_version : ℤ
  pub timestamp : Timestamp
  pub payload : EventPayload Attributes
  pub schema_version : ℤ
  pub subject : Option String

abbrev pub schema_version_1 : ℤ
schema_version_1 = pos 1

-- `"\x1f"`
abbrev pub separator : String
separator = "\u{1f}"

module _ (digest : String → String) (decimal : ℤ → String) where
  unfoldable pub compute_event_id : String → ℤ → String → Option String → String
  compute_event_id agent_id sequence event_type none =
      digest (agent_id ++ separator ++ decimal sequence ++ separator ++ event_type)
  compute_event_id agent_id sequence event_type (some subject) =
      digest (
        agent_id
        ++ separator
        ++ decimal sequence
        ++ separator
        ++ event_type
        ++ separator
        ++ subject)

  module _ {Attributes : Type 0} where
    unfoldable pub event_id : EventEnvelope Attributes → String
    event_id e = compute_event_id e.agent_id e.sequence e.event_type e.subject
