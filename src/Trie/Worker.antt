-- ===== src/Trie/Worker.antt =====
-- trie/worker.py: the single writer of the trie service. The codec is a parameter (`Codec`), and so are
-- the texts of addresses and prefixes and which publishes raise. The worker's lock makes each call one
-- step, so that a history is a list of steps; a call that raises returns the worker as it is then.
-- Logs and metrics are left out. The bus's answers to `start` are its arguments, and a subscription is the
-- list of what arrives.
pub mod Lifecycle
pub mod Position
pub mod Pairs
pub mod Steps
pub mod History
pub mod Replay
use Prim.Native.String.{String}
use hammertime.Base.{
  ℕ, zero, suc, ◌+◌, ◌-◌, Bool, true, false, not, ◌&&◌, ◌||◌, Option, none, some, List, [], ◌∷◌,
  Result, ok, err, Error, length, invalid_attributes, runtime_error, publish_error, ltb, leb,
  if◌then◌else◌,
}
use hammertime.Base.Int.{ℤ, pos, negsuc, is_negative, pos_part}
use hammertime.Base.Dict.{Key, value_or, string_key}
use hammertime.Core.Config.{DetectionConfig}
use hammertime.Core.Address.{AddressFamily, Address, is_family}
use hammertime.Core.Prefix.{Prefix}
use hammertime.Core.Events.{
  Timestamp, HotIpEvent, EventPayload, request_observation, hot_ip_added, hot_ip_removed,
  prefix_stats_changed, EventEnvelope,
}
use hammertime.Bus.Memory.{ConsumedMessage}
use hammertime.Trie.Interface.{HotTrie}
use hammertime.Trie.Records.{FamilyState, apply_hot_ip_added, apply_hot_ip_removed}
use hammertime.Trie.State.{
  TrieState, is_behind, serves, of, event_sequence, note_handled, note_applied, note_passed,
  adopt_config,
}
use hammertime.Trie.Publisher
use hammertime.Trie.Publisher.{StatsMessage, PreparedStats, MinPrefixLengths, prepare, publish}

-- What the worker uses of the codec: `decode` tells a refusal of the attributes from another.
pub record Codec (Attributes : Type 0) : Type 0 where
  pub decode : String → Result (EventEnvelope Attributes)
  pub encode : EventEnvelope Attributes → Result String
  pub canonicalize : Attributes → Result String
  pub default_text : String
  pub ip_text : Address → String
  pub prefix_text : Prefix → String
  pub digest : String → String
  pub decimal : ℤ → String

pub data HotIpOutcome : Type 0 where
  applied unchanged malformed family_not_served redelivered stopped : HotIpOutcome

pub data Malformed : Type 0 where
  bad_attributes bad_codec bad_payload_type key_mismatch subject_mismatch : Malformed

pub data Pump : Type 0 where
  pump_done pump_stopped pump_ended : Pump

pub record TrieWorker (T : Type 0) : Type 0 where
  pub state : TrieState (FamilyState T)
  pub published : ℕ
  pub stopping : Bool
  pub subscribed : Bool
  pub replay_target : Option ℕ
  pub republish_from : Option ℤ

-- The payload that a message carries, or why it is skipped.
pub data Decoded (Attributes : Type 0) : Type 0 where
  added : HotIpEvent Attributes → Decoded Attributes
  removed : HotIpEvent Attributes → Decoded Attributes
  skipped : Malformed → Decoded Attributes

abbrev pub is_text : Option String → String → Bool
is_text none text = false
is_text (some t) text = string_key.same t text

-- What arrives: a message, or the stop signal, which drops a message that arrives with it.
pub data Arrival : Type 0 where
  received : ConsumedMessage → Arrival
  stop_signal : Arrival

-- `except InvalidAttributesError`
abbrev pub is_rejection : Error → Bool
is_rejection invalid_attributes = true
is_rejection _ = false

-- `n < x` for an integer `x`
abbrev pub is_below : ℕ → ℤ → Bool
is_below n (pos m) = ltb n m
is_below n (negsuc m) = false

-- `state.of(family)` hands out a pair that is changed in place.
module _ {P : Type 0} where
  abbrev pub replace_pair : AddressFamily → P → List (AddressFamily × P) → List (AddressFamily × P)
  replace_pair family pair [] = []
  replace_pair family pair ((f, old) ∷ pairs) =
      let rest = replace_pair family pair pairs in
      if is_family f family then (f, pair) ∷ pairs else (f, old) ∷ rest

  abbrev pub with_pair : TrieState P → AddressFamily → P → TrieState P
  with_pair s family pair = record s { families = replace_pair family pair s.families }

module _ {Attributes : Type 0} (codec : Codec Attributes) where
  unfoldable pub checked_payload :
      ConsumedMessage
      → Option String
      → HotIpEvent Attributes
      → Decoded Attributes
      → Decoded Attributes
  checked_payload message subject payload decoded =
      let ip_text = codec.ip_text payload.ip in
      if not (is_text message.key ip_text)
      then skipped key_mismatch
      else (if not (is_text subject ip_text) then skipped subject_mismatch else decoded)

  unfoldable pub decode_envelope : ConsumedMessage → EventEnvelope Attributes → Decoded Attributes
  decode_envelope message envelope = elim envelope.payload [
    | request_observation o ↦ skipped bad_payload_type
    | prefix_stats_changed p ↦ skipped bad_payload_type
    | hot_ip_added payload ↦ checked_payload message envelope.subject payload (added payload)
    | hot_ip_removed payload ↦ checked_payload message envelope.subject payload (removed payload)
  ]

  abbrev pub refused_as : Error → Malformed
  refused_as invalid_attributes = bad_attributes
  refused_as _ = bad_codec

  unfoldable pub decode_message : ConsumedMessage → Decoded Attributes
  decode_message message = elim (codec.decode message.value) [
    | err e ↦ skipped (refused_as e)
    | ok envelope ↦ decode_envelope message envelope
  ]

  -- The row of the last message that decides where publishing resumes
  abbrev pub usable : EventEnvelope Attributes → ℕ → ℤ
  usable envelope replay_target = elim envelope.payload [
    | request_observation o ↦ pos 0
    | hot_ip_added p ↦ pos 0
    | hot_ip_removed p ↦ pos 0
    | prefix_stats_changed p ↦
        if not (string_key.same envelope.agent_id Publisher.agent_id)
        then pos 0
        else (if is_below replay_target envelope.sequence then pos 0 else envelope.sequence)
  ]

  -- `_republish_from`
  unfoldable pub resume_from : Option String → ℕ → ℤ
  resume_from none replay_target = pos 0
  resume_from (some last) replay_target = elim (codec.decode last) [
    | err e ↦ pos 0
    | ok envelope ↦ usable envelope replay_target
  ]

module _ {T : Type 0} where
  unfoldable pub caught_up : TrieWorker T → Bool
  caught_up w = elim w.replay_target [
    | none ↦ false
    | some end ↦ if w.subscribed then leb end (event_sequence w.state) else false
  ]

  unfoldable pub apply_config : TrieWorker T → DetectionConfig → TrieWorker T
  apply_config w config = if w.stopping then w else record w { state = adopt_config w.state config }

  -- The producer's flush is no change of the worker.
  unfoldable pub stop : TrieWorker T → TrieWorker T
  stop w = record w { stopping = true }

  abbrev pub is_published_again : TrieWorker T → TrieState (FamilyState T) → Bool
  is_published_again w s = not (is_below (event_sequence s) (value_or (pos 0) w.republish_from))

module _ {Attributes T : Type 0} (codec : Codec Attributes) (hot_trie : HotTrie T)
    (lengths : MinPrefixLengths) (raises : StatsMessage → Bool) where
  abbrev pub Handled : Type 0
  Handled = TrieWorker T × Result (HotIpOutcome × Option PreparedStats)

  unfoldable pub apply_added : FamilyState T → HotIpEvent Attributes → Result (FamilyState T × Bool)
  apply_added fs payload =
      let apply = apply_hot_ip_added codec.canonicalize codec.default_text hot_trie fs payload.ip in
      elim (apply payload.attributes payload.window_count) [
        | ok changed ↦ ok changed
        | err e ↦ if is_rejection e then apply none payload.window_count else err e
      ]

  -- A message that is handled without being applied
  abbrev pub noted : TrieWorker T → ConsumedMessage → HotIpOutcome → Handled
  noted w message outcome = elim (note_handled w.state (pos message.offset)) [
    | ok s ↦ (record w { state = s }, ok (outcome, none))
    | err e ↦ (w, err e)
  ]

  -- Steps 5 and 5a, after the pair of the family was changed
  abbrev pub recorded :
      TrieWorker T
      → ConsumedMessage
      → HotIpEvent Attributes
      → FamilyState T
      → Bool
      → TrieState (FamilyState T)
      → Handled
  recorded w message payload fs changed s =
      let next = record w { state = s } in
      let outcome = if changed then applied else unchanged in
      if not changed || not (is_published_again w s)
      then (next, ok (outcome, none))
      else (elim (prepare codec.digest codec.decimal codec.encode codec.prefix_text hot_trie lengths
          fs.trie payload.ip (event_sequence s) (pos s.config.config_version) payload.timestamp) [
            | err e ↦ (next, err e)
            | ok prepared ↦ (next, ok (outcome, some prepared))
          ])

  abbrev pub changed_pair :
      TrieWorker T → ConsumedMessage → HotIpEvent Attributes → FamilyState T → Bool → Handled
  changed_pair w message payload fs changed =
      let s = with_pair w.state payload.ip.family fs in
      elim (note_applied s (pos message.offset) payload.timestamp) [
        | err e ↦ (record w { state = s }, err e)
        | ok t ↦ recorded w message payload fs changed t
      ]

  -- Steps 3 to 5a, for the call that applies the event to the pair of its family
  unfoldable pub apply_event :
      TrieWorker T
      → ConsumedMessage
      → HotIpEvent Attributes
      → (FamilyState T → Result (FamilyState T × Bool))
      → Handled
  apply_event w message payload apply = elim (of w.state payload.ip.family) [
    | err e ↦ noted w message family_not_served
    | ok fs ↦ elim (apply fs) [
      | err e ↦ (w, err e)
      | ok (fs', changed) ↦ changed_pair w message payload fs' changed
    ]
  ]

  unfoldable pub handle_decoded : TrieWorker T → ConsumedMessage → Decoded Attributes → Handled
  handle_decoded w message (skipped reason) = noted w message malformed
  handle_decoded w message (added payload) =
      apply_event w message payload (λ fs. apply_added fs payload)
  handle_decoded w message (removed payload) =
      apply_event w message payload (λ fs. apply_hot_ip_removed hot_trie fs payload.ip)

  -- `_handle`
  unfoldable pub decide : TrieWorker T → ConsumedMessage → Handled
  decide w message =
      if is_behind w.state.position message.offset
      then (w, ok (redelivered, none))
      else handle_decoded w message (decode_message codec message)

  -- Step 5b: the publishes that returned count only when all of them have.
  abbrev pub publish_step :
      TrieWorker T → HotIpOutcome → PreparedStats → TrieWorker T × Result HotIpOutcome
  publish_step w outcome prepared = elim (publish raises prepared).1 [
    | some failed ↦ (w, err publish_error)
    | none ↦ (record w { published = w.published + length prepared.messages }, ok outcome)
  ]

  abbrev pub publish_prepared : Handled → TrieWorker T × Result HotIpOutcome
  publish_prepared (w, err e) = (w, err e)
  publish_prepared (w, ok (outcome, none)) = (w, ok outcome)
  publish_prepared (w, ok (outcome, some prepared)) = publish_step w outcome prepared

  unfoldable pub handle : TrieWorker T → ConsumedMessage → TrieWorker T × Result HotIpOutcome
  handle w message = if w.stopping then (w, ok stopped) else publish_prepared (decide w message)
