-- ===== src/Trie/Tests/Worker.antt =====
-- Runs of trie/worker.py at concrete inputs, and its theorems at some of them. The codec is a small one.
use Prim.Native.String.{String}
use hammertime.Base.{
  ◌==◌, ◌⊎◌, ◌<◌, ◌^◌, ltb→lt, Bool-cases, inl, inr, arith, ℕ, ◌≡◌, refl, true, false, Bool, none,
  some, List, [], ◌∷◌, ok, err, codec_error, if◌then◌else◌,
}
use hammertime.Base.Int.{pos}
use hammertime.Base.Dict.{string_key}
use hammertime.Core.Config.{defaults}
use hammertime.Core.Address
use hammertime.Core.Prefix
use hammertime.Core.Events
use hammertime.Core.Address.{bit_length, ipv4, Address}
use hammertime.Core.Events.{EventEnvelope, HotIpEvent, hot_ip_added, schema_version_1}
use hammertime.Bus.Memory.{ConsumedMessage}
use hammertime.Trie.HotSet.{at}
use hammertime.Trie.Binary
use hammertime.Trie.Binary.{BinaryTrie}
use hammertime.Trie.Binary.Queries
use hammertime.Trie.Combine
use hammertime.Trie.Interface.{binary_trie, binary_trie_laws}
use hammertime.Trie.Records
use hammertime.Trie.Records.{FamilyState, is_recorded}
use hammertime.Trie.Records.Coupled.{fresh}
use hammertime.Trie.State
use hammertime.Trie.State.{TrieState, event_sequence}
use hammertime.Trie.Publisher
use hammertime.Trie.Publisher.{StatsMessage, MinPrefixLengths}
use hammertime.Trie.Worker
use hammertime.Trie.Worker.{
  Arrival, Decoded, added, removed, Codec, TrieWorker, HotIpOutcome, malformed, redelivered,
  pump_done, stop_signal, handle, decode_message,
}
use hammertime.Trie.Worker.Lifecycle.{worker, pass, start}
use hammertime.Trie.Worker.History.{handle_all, contains-handle_all}
use hammertime.Trie.Worker.Position.{handle_again}
use hammertime.Trie.Worker.Replay.{arrivals_of, begun, none_raise, start-replays}

abbrev event : HotIpEvent String
event = record {
  ip = at ipv4 167772161;
  timestamp = record { epoch = 1700000000; is_aware = true };
  sequence = pos 1;
  window_count = pos 120;
  config_version = pos 1;
  attributes = none;
}

abbrev envelope : EventEnvelope String
envelope = record {
  agent_id = "aggregator-0";
  sequence = pos 1;
  event_type = "HotIpAdded";
  config_version = pos 1;
  timestamp = record { epoch = 1700000000; is_aware = true };
  payload = hot_ip_added event;
  schema_version = schema_version_1;
  subject = some "10.0.0.1";
}

-- Decodes one text.
abbrev codec : Codec String
codec = record {
  decode = λ text. if string_key.same text "hot" then ok envelope else err codec_error;
  encode = λ e. ok "stats";
  canonicalize = λ document. ok document;
  default_text = "{\"attributes_version\":1}";
  ip_text = λ a. "10.0.0.1";
  prefix_text = λ p. "10.0.0.0/8";
  digest = λ text. text;
  decimal = λ n. "1";
}

abbrev lengths : MinPrefixLengths
lengths = record { of_ipv4 = 30; of_ipv6 = 104 }

abbrev never : StatsMessage → Bool
never message = false

abbrev record_at : ℕ → String → ConsumedMessage
record_at offset value = record {
  topic = "hammertime.hot-ip.v1";
  partition = 0;
  offset = offset;
  key = some "10.0.0.1";
  value = value;
  delivery_count = 1;
}

abbrev first_worker : TrieWorker BinaryTrie
first_worker = record {
  state = record {
    families = (ipv4, fresh binary_trie binary_trie_laws ipv4) ∷ [];
    config = defaults;
    position = none;
    as_of = none;
  };
  published = 0;
  stopping = false;
  subscribed = false;
  replay_target = none;
  republish_from = none;
}

-- The first record is no longer in the log, the second cannot be decoded.
abbrev messages : List ConsumedMessage
messages = record_at 1 "hot" ∷ record_at 2 "broken" ∷ []

abbrev passed : TrieWorker BinaryTrie
passed = record (begun codec binary_trie lengths never first_worker 3 none) {
  state = record first_worker.state { position = some 0 };
}

first_passed :
    pass codec binary_trie lengths never
      (begun codec binary_trie lengths never first_worker 3 none)
      1
    ≡ ok passed
unfolding event_sequence State.note_passed State.check_offset
first_passed = refl

messages_return :
    none_raise codec binary_trie lengths never messages (record passed { subscribed = true }) ≡ true
unfolding none_raise handle Worker.decide Worker.handle_decoded decode_message
    Worker.decode_envelope Worker.checked_payload Worker.apply_event State.of Worker.apply_added
    Records.apply_hot_ip_added Records.check_families Binary.new Records.new
    Records.check_request_count Records.prepare Binary.add_hot_ip Address.bit Address.bit_length
    Address.bits Address.bits_below Events.compute_event_id Events.event_id Prefix.capacity
    Prefix.hot_ratio Binary.add_path Binary.check_family Binary.contains Binary.walk
    Combine.ancestor_stats Combine.capacity Combine.hot_ratio_exact Publisher.messages_of
    Publisher.min_prefix_length Publisher.prepare Publisher.publish Records.commit
    State.check_offset event_sequence State.note_applied State.note_handled Queries.ancestor_counts
    Queries.counts_along Queries.prefix_counts Queries.prefix_of Binary.check_min_length
    Worker.resume_from
messages_return = refl

-- What the log answers to a subscription: the records from 1 on, or nothing from elsewhere.
abbrev arriving_from : ℕ → List Arrival
arriving_from n = if n == 1 then arrivals_of messages (stop_signal ∷ []) else []

passed_to : arriving_from (event_sequence passed.state) ≡ arrivals_of messages (stop_signal ∷ [])
unfolding event_sequence
passed_to = refl

start-replays_example :
    (w' : TrieWorker BinaryTrie) × (start codec binary_trie lengths never 3 1 none arriving_from
        first_worker
      ≡ (w', ok pump_done))
    × (event_sequence w'.state ≡ 3)
unfolding event_sequence
start-replays_example =
    start-replays codec binary_trie lengths never first_worker passed 3 1 none arriving_from
      messages (stop_signal ∷ []) refl refl first_passed passed_to refl (refl, (refl, tt))
      messages_return

-- The record at offset 2, which cannot be decoded, is skipped, and delivered again.
abbrev after_skip : TrieWorker BinaryTrie
after_skip = record first_worker { state = record first_worker.state { position = some 2 } }

skipped_once :
    handle codec binary_trie lengths never first_worker (record_at 2 "broken")
    ≡ (after_skip, ok malformed)
unfolding handle Worker.decide Worker.handle_decoded decode_message State.note_handled
    State.check_offset
skipped_once = refl

handle_again_example :
    handle codec binary_trie lengths never after_skip (record_at 2 "broken")
    ≡ (after_skip, ok redelivered)
handle_again_example =
    handle_again codec binary_trie lengths never first_worker after_skip (record_at 2 "broken")
      malformed refl skipped_once

event_fits :
    (payload : HotIpEvent String)
    → ◌≡◌ {A = Decoded String} (added event) (added payload)
    → payload.ip.value < 2 ^ bit_length payload.ip.family
unfolding bit_length
event_fits payload e =
    let same : event ≡ payload = ground (arith, e) in rw (← same) (ltb→lt 167772161 (2 ^ 32) refl)

decodes_event :
    (message : ConsumedMessage) (payload : HotIpEvent String)
    → (decode_message codec message ≡ added payload)
      ⊎ (decode_message codec message ≡ removed payload)
    → payload.ip.value < 2 ^ bit_length payload.ip.family
unfolding decode_message Worker.decode_envelope Worker.checked_payload
decodes_event message payload (inl e) = elim (Bool-cases (string_key.same message.value "hot")) [
  | inr b ↦ ground (arith, b, e)
  | inl b ↦ elim (Bool-cases (Worker.is_text message.key "10.0.0.1")) [
    | inr k ↦ ground (arith, rw (decode_message, b, k) at e)
    | inl k ↦ event_fits payload (rw (decode_message, Worker.decode_envelope, b, k) at e)
  ]
]
decodes_event message payload (inr e) = elim (Bool-cases (string_key.same message.value "hot")) [
  | inr b ↦ ground (arith, b, e)
  | inl b ↦ elim (Bool-cases (Worker.is_text message.key "10.0.0.1")) [
    | inr k ↦ ground (arith, rw (decode_message, b, k) at e)
    | inl k ↦
        let never_removed : ◌≡◌ {A = Decoded String} (added event) (removed payload) =
          rw (decode_message, Worker.decode_envelope, b, k) at e in
        ground (arith, never_removed)
  ]
]

-- The pair of IPv4 after the first record, one that cannot be decoded, and the first again
abbrev records : List ConsumedMessage
records = record_at 0 "hot" ∷ record_at 1 "broken" ∷ record_at 0 "hot" ∷ []

abbrev new_pair : FamilyState BinaryTrie
new_pair = fresh binary_trie binary_trie_laws ipv4

abbrev new_state : TrieState (FamilyState BinaryTrie)
new_state = record first_worker.state { families = (ipv4, new_pair) ∷ [] }

abbrev after_records : FamilyState BinaryTrie
after_records =
    elim (State.of
      (handle_all binary_trie binary_trie_laws codec lengths never (worker new_state) records).state
      ipv4) [ ok fs ↦ fs | err e ↦ new_pair ]

new_state_lem : State.new (fresh binary_trie binary_trie_laws) (ipv4 ∷ []) defaults ≡ ok new_state
unfolding State.new State.served
new_state_lem = refl

after_records_lem :
    State.of
      (handle_all binary_trie binary_trie_laws codec lengths never (worker new_state) records).state
      ipv4
    ≡ ok after_records
unfolding worker handle Worker.decide Worker.handle_decoded decode_message Worker.decode_envelope
    Worker.checked_payload Worker.apply_event State.of Worker.apply_added Records.apply_hot_ip_added
    Records.check_families Binary.new Records.new Records.check_request_count Records.prepare
    Binary.add_hot_ip Address.bit Address.bit_length Address.bits Address.bits_below
    Events.compute_event_id Events.event_id Prefix.capacity Prefix.hot_ratio Binary.add_path
    Binary.check_family Binary.contains Binary.walk Combine.ancestor_stats Combine.capacity
    Combine.hot_ratio_exact Publisher.messages_of Publisher.min_prefix_length Publisher.prepare
    Publisher.publish Records.commit State.check_offset event_sequence State.note_applied
    State.note_handled Queries.ancestor_counts Queries.counts_along Queries.prefix_counts
    Queries.prefix_of Binary.check_min_length Worker.resume_from
after_records_lem = refl

event_in_range : 167772161 < 2 ^ bit_length ipv4
unfolding bit_length
event_in_range = ltb→lt 167772161 (2 ^ 32) refl

contains-handle_all_example :
    binary_trie.contains after_records.trie (at ipv4 167772161)
    ≡ ok (is_recorded after_records.records (at ipv4 167772161))
contains-handle_all_example =
    contains-handle_all binary_trie binary_trie_laws codec lengths never (ipv4 ∷ []) defaults
      new_state records ipv4 after_records 167772161 decodes_event new_state_lem after_records_lem
      event_in_range
