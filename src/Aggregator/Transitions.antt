-- ===== src/Aggregator/Transitions.antt =====
-- aggregator/transitions.py, `TransitionEmitter.evaluate`, and aggregator/reevaluate.py: the one place
-- that turns a window's total into a HOT or COLD edge. `encode`, the durable store and the producer are
-- parameters: the codec builds bytes or raises, and each of the other two may fail. What a call has
-- written and published is the list of its effects. The reason that labels a metric is left out.
pub mod Order
use hammertime.Base.{
  ℕ, suc, ◌+◌, Bool, true, false, not, ◌&&◌, Option, none, some, List, [], ◌∷◌, ◌++◌, Result, ok,
  err, codec_error, store_error, bus_error, value_error, ◌==◌, if◌then◌else◌,
}
use hammertime.Core.Address.{Address}
use hammertime.Core.Config.{DetectionConfig}
use hammertime.Core.State.{IpState, cold, hot, is, StateTransition, evaluate_ip_state}
use hammertime.Core.Weight.{TransitionAttributes, transition_attributes}
use hammertime.Aggregator.Window.{ShardWindow}
use hammertime.Aggregator.Window.Changes.{set_state}
use hammertime.Aggregator.Window.Sweeps.{state, total, in_warmup, is_inherited, tracked_ips}

-- The payload and the envelope: what is told about an edge.
pub record Event : Type 0 where
  pub shard : ℕ
  pub ip : Address
  pub current : IpState
  pub timestamp : ℕ
  pub sequence : ℕ
  pub window_count : ℕ
  pub config_version : ℕ
  pub attributes : Option TransitionAttributes

-- What a call has done outside the process's window, the oldest first.
pub data Effect : Type 0 where
  persisted : (event : Event) → Effect
  published : (event : Event) → Effect
  counted : (event : Event) → Effect

pub record EmittedTransition : Type 0 where
  pub ip : Address
  pub transition : StateTransition
  pub sequence : ℕ
  pub window_count : ℕ
  pub config_version : ℕ

-- How a call ends: the window, what it has done, and its result.
pub record Outcome : Type 0 where
  pub window : ShardWindow
  pub effects : List Effect
  pub result : Result (Option EmittedTransition)

abbrev pub ends : ShardWindow → List Effect → Result (Option EmittedTransition) → Outcome
ends w effects result = record { window = w; effects = effects; result = result }

-- A HOT edge carries the attributes under the configuration in force; a COLD one has none.
unfoldable pub attributes_of : IpState → ℕ → DetectionConfig → Result (Option TransitionAttributes)
attributes_of hot count config = elim (transition_attributes count config) [
  | ok attributes ↦ ok (some attributes)
  | err e ↦ err e
]
attributes_of cold count config = ok none

abbrev pub event_of :
    ShardWindow → Address → IpState → ℕ → ℕ → DetectionConfig → Option TransitionAttributes → Event
event_of w ip current count now config attributes = record {
  shard = w.shard;
  ip = ip;
  current = current;
  timestamp = now;
  sequence = w.next_sequence;
  window_count = count;
  config_version = config.config_version;
  attributes = attributes;
}

abbrev pub emitted : Event → IpState → EmittedTransition
emitted event previous = record {
  ip = event.ip;
  transition = record { previous = previous; current = event.current };
  sequence = event.sequence;
  window_count = event.window_count;
  config_version = event.config_version;
}

-- The sequence number is consumed whatever happens next.
abbrev pub consume : ShardWindow → ShardWindow
consume w = record w { next_sequence = suc w.next_sequence }

abbrev pub one_more : Result ℕ → Result ℕ
one_more (ok n) = ok (suc n)
one_more (err e) = err e

-- The walk over the shard's addresses ends with the first exception, and counts the edges.
unfoldable pub walk_on :
    Result (Option EmittedTransition)
    → Outcome
    → ShardWindow × List Effect × Result ℕ
    → ShardWindow × List Effect × Result ℕ
walk_on (err e) here rest = (here.window, here.effects, err e)
walk_on (ok none) here rest = (rest.0, here.effects ++ rest.1, rest.2)
walk_on (ok (some edge)) here rest = (rest.0, here.effects ++ rest.1, one_more rest.2)

module _ {Bytes : Type 0} (encode : Event → Result Bytes)
    (record_transition : ℕ → Address → IpState → ℕ → Result (Unit {0}))
    (publish : Event → Bytes → Result (Unit {0})) where
  -- The state in memory changes only after the event has been published.
  unfoldable pub commit : ShardWindow → Event → IpState → Outcome
  commit w event previous = elim (set_state w event.ip event.current) [
    | err e ↦ ends w (persisted event ∷ published event ∷ []) (err e)
    | ok w' ↦
        ends w' (persisted event ∷ published event ∷ counted event ∷ [])
          (ok (some (emitted event previous)))
  ]

  -- Encode, then persist, then publish what was encoded.
  unfoldable pub announce : ShardWindow → Event → IpState → Outcome
  announce w event previous = elim (encode event) [
    | err e ↦ ends w [] (err e)
    | ok value ↦ elim (record_transition event.shard event.ip event.current event.sequence) [
      | err e ↦ ends w [] (err e)
      | ok _ ↦ elim (publish event value) [
        | err e ↦ ends w (persisted event ∷ []) (err e)
        | ok _ ↦ commit w event previous
      ]
    ]
  ]

  unfoldable pub emit :
      ShardWindow → Address → IpState → IpState → ℕ → DetectionConfig → ℕ → Outcome
  emit w ip previous current count config now = elim (attributes_of current count config) [
    | err e ↦ ends (consume w) [] (err e)
    | ok attributes ↦
        announce (consume w) (event_of w ip current count now config attributes) previous
  ]

  unfoldable pub evaluate : ShardWindow → Address → DetectionConfig → ℕ → Outcome
  evaluate w ip config now =
      let previous = state w ip in
      let count = total w ip in
      let current = evaluate_ip_state previous count config in
      if is current previous
      then ends w [] (ok none)
      else if is current cold && in_warmup w now && is_inherited w ip
      then ends w [] (ok none)
      else emit w ip previous current count config now

  unfoldable pub reevaluate_ips :
      ShardWindow → List Address → DetectionConfig → ℕ → ShardWindow × List Effect × Result ℕ
  reevaluate_ips w [] config now = (w, [], ok 0)
  reevaluate_ips w (ip ∷ ips) config now =
      let outcome = evaluate w ip config now in
      walk_on outcome.result outcome (reevaluate_ips outcome.window ips config now)

  unfoldable pub reevaluate_shard :
      ShardWindow
      → Option (List Address)
      → ℕ
      → DetectionConfig
      → ℕ
      → ShardWindow × List Effect × Result ℕ
  reevaluate_shard w ips batch_size config now =
      let walked =
        reevaluate_ips w (elim ips [ none ↦ tracked_ips w | some given ↦ given ]) config now in
      if batch_size == 0 then (w, [], err value_error) else walked
