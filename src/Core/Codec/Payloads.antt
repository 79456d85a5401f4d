-- ===== src/Core/Codec/Payloads.antt =====
-- core/events/codec.py: the payloads.
use Prim.Native.String.{String}
use hammertime.Base.{
  Bool, ◌||◌, Option, none, some, List, [], ◌∷◌, Result, ok, err, codec_error, raise_if, ◌>>=◌,
  ◌>>◌, ltb, if◌then◌else◌,
}
use hammertime.Base.Dict.{string_key}
use hammertime.Core.Config.{Ratio}
use hammertime.Core.Address.{AddressFamily, ipv4, ipv6}
use hammertime.Core.Json.{
  Json, text, array, object, Items, empty_array, item, Fields, empty_object, field, get,
  count_items,
}
use hammertime.Core.Events.{
  Observation, RequestObservation, HotIpEvent, PrefixStatsChanged, EventPayload,
  request_observation, hot_ip_added, hot_ip_removed, prefix_stats_changed,
}
use hammertime.Core.Codec.{
  Platform, at_least, observation_sequence, observation_window_seconds, observation_request_count,
  hot_ip_config_version, max_observations, bounded_json_integer, bounded_integer_field,
  bounded_json_ratio, bounded_ratio_field, require, or_refuse, str, format_timestamp,
  parse_timestamp, decimal_string, encode_capacity, canonical_attributes,
}

-- `family.value`
abbrev pub family_text : AddressFamily → String
family_text ipv4 = "ipv4"
family_text ipv6 = "ipv6"

-- `event_type in _HOT_IP_EVENT_TYPES`
abbrev pub is_hot_ip_type : String → Bool
is_hot_ip_type event_type =
    string_key.same event_type "HotIpAdded" || string_key.same event_type "HotIpRemoved"

module _ {Wire : Type 0} (platform : Platform Wire) where
  -- The loop over the observations
  unfoldable pub encode_observations : List Observation → Result Items
  encode_observations [] = ok empty_array
  encode_observations (o ∷ observations) = do
    request_count ← bounded_integer_field o.request_count observation_request_count
    rest ← encode_observations observations
    ok (
        item
          (object (
            field "ip" (text (platform.address_text o.ip))
              (field "request_count" request_count empty_object)))
          rest)

  unfoldable pub encode_request_observation : RequestObservation → Result Fields
  encode_request_observation payload = do
    sequence ← bounded_integer_field payload.sequence observation_sequence
    window_seconds ← bounded_integer_field payload.window_seconds observation_window_seconds
    observations ← encode_observations payload.observations
    window_start ← format_timestamp platform payload.window_start
    ok (
        field "agent_id" (text payload.agent_id) (
          field "sequence" sequence (
            field "window_start" window_start (
              field "window_seconds" window_seconds
                (field "observations" (array observations) empty_object)))))

  unfoldable pub decode_observation : Json → Result Observation
  decode_observation (object data_) = do
    ip_value ← require data_ "ip"
    ip ← or_refuse (platform.parse_address (str platform ip_value))
    count_value ← require data_ "request_count"
    request_count ← bounded_json_integer count_value observation_request_count
    ok (record { ip = ip; request_count = request_count })
  decode_observation _ = err codec_error

  unfoldable pub decode_observations : Items → Result (List Observation)
  decode_observations empty_array = ok []
  decode_observations (item value items) = do
    o ← decode_observation value
    rest ← decode_observations items
    ok (o ∷ rest)

  unfoldable pub decode_array : Json → Result (List Observation)
  decode_array (array items) = do
    raise_if (ltb max_observations (count_items items)) codec_error
    decode_observations items
  decode_array _ = err codec_error

  unfoldable pub decode_request_observation : Fields → Result RequestObservation
  decode_request_observation data_ = do
    raw_observations ← require data_ "observations"
    observations ← decode_array raw_observations
    agent_id ← require data_ "agent_id"
    sequence_value ← require data_ "sequence"
    sequence ← bounded_json_integer sequence_value observation_sequence
    start_value ← require data_ "window_start"
    window_start ← parse_timestamp platform start_value
    seconds_value ← require data_ "window_seconds"
    window_seconds ← bounded_json_integer seconds_value observation_window_seconds
    ok (record {
      agent_id = str platform agent_id;
      sequence = sequence;
      window_start = window_start;
      window_seconds = window_seconds;
      observations = observations;
    })

  -- The optional last key of a document
  abbrev pub encode_attributes : Option Json → Result Fields
  encode_attributes none = ok empty_object
  encode_attributes (some attributes) = do
    document ← canonical_attributes platform attributes
    ok (field "attributes" document empty_object)

  unfoldable pub encode_hot_ip_event : String → HotIpEvent Json → Result Fields
  encode_hot_ip_event event_type payload = do
    sequence ← bounded_integer_field payload.sequence (at_least 0)
    window_count ← bounded_integer_field payload.window_count (at_least 0)
    config_version ← bounded_integer_field payload.config_version hot_ip_config_version
    attributes ← encode_attributes payload.attributes
    timestamp ← format_timestamp platform payload.timestamp
    ok (
        field "type" (text event_type) (
          field "ip" (text (platform.address_text payload.ip)) (
            field "family" (text (family_text payload.ip.family)) (
              field "timestamp" timestamp (
                field "sequence" sequence (
                  field "window_count" window_count
                    (field "config_version" config_version attributes)))))))

  abbrev pub decode_attributes : Option Json → Result (Option Json)
  decode_attributes none = ok none
  decode_attributes (some raw_attributes) = do
    document ← canonical_attributes platform raw_attributes
    ok (some document)

  unfoldable pub decode_hot_ip_event : Fields → Result (HotIpEvent Json)
  decode_hot_ip_event data_ = do
    ip_value ← require data_ "ip"
    ip ← or_refuse (platform.parse_address (str platform ip_value))
    time_value ← require data_ "timestamp"
    timestamp ← parse_timestamp platform time_value
    sequence_value ← require data_ "sequence"
    sequence ← bounded_json_integer sequence_value (at_least 0)
    count_value ← require data_ "window_count"
    window_count ← bounded_json_integer count_value (at_least 0)
    version_value ← require data_ "config_version"
    config_version ← bounded_json_integer version_value hot_ip_config_version
    attributes ← decode_attributes (get "attributes" data_)
    ok (record {
      ip = ip;
      timestamp = timestamp;
      sequence = sequence;
      window_count = window_count;
      config_version = config_version;
      attributes = attributes;
    })

  abbrev pub encode_ratio : Option Ratio → Result Fields
  encode_ratio none = ok empty_object
  encode_ratio (some hot_ratio) = do
    value ← bounded_ratio_field hot_ratio
    ok (field "hot_ratio" value empty_object)

  unfoldable pub encode_prefix_stats_changed : PrefixStatsChanged → Result Fields
  encode_prefix_stats_changed payload = do
    hot_count ← bounded_integer_field payload.hot_count (at_least 0)
    capacity ← encode_capacity platform payload.capacity
    sequence ← bounded_integer_field payload.sequence (at_least 0)
    hot_ratio ← encode_ratio payload.hot_ratio
    timestamp ← format_timestamp platform payload.timestamp
    ok (
        field "prefix" (text payload.prefix) (
          field "hot_count" hot_count (
            field "capacity" capacity
              (field "sequence" sequence (field "timestamp" timestamp hot_ratio)))))

  abbrev pub decode_ratio : Option Json → Result (Option Ratio)
  decode_ratio none = ok none
  decode_ratio (some value) = do r ← bounded_json_ratio value; ok (some r)

  unfoldable pub decode_prefix_stats_changed : Fields → Result PrefixStatsChanged
  decode_prefix_stats_changed data_ = do
    prefix ← require data_ "prefix"
    count_value ← require data_ "hot_count"
    hot_count ← bounded_json_integer count_value (at_least 0)
    capacity_value ← require data_ "capacity"
    capacity ← decimal_string platform capacity_value
    sequence_value ← require data_ "sequence"
    sequence ← bounded_json_integer sequence_value (at_least 0)
    time_value ← require data_ "timestamp"
    timestamp ← parse_timestamp platform time_value
    hot_ratio ← decode_ratio (get "hot_ratio" data_)
    ok (record {
      prefix = str platform prefix;
      hot_count = hot_count;
      capacity = capacity;
      sequence = sequence;
      timestamp = timestamp;
      hot_ratio = hot_ratio;
    })

  unfoldable pub encode_payload : String → EventPayload Json → Result Fields
  encode_payload event_type (request_observation payload) =
      if string_key.same event_type "RequestObservation"
      then encode_request_observation payload
      else err codec_error
  encode_payload event_type (hot_ip_added payload) =
      if is_hot_ip_type event_type then encode_hot_ip_event event_type payload else err codec_error
  encode_payload event_type (hot_ip_removed payload) =
      if is_hot_ip_type event_type then encode_hot_ip_event event_type payload else err codec_error
  encode_payload event_type (prefix_stats_changed payload) =
      if string_key.same event_type "PrefixStatsChanged"
      then encode_prefix_stats_changed payload
      else err codec_error

  abbrev pub hot_ip_payload : String → HotIpEvent Json → EventPayload Json
  hot_ip_payload event_type payload =
      if string_key.same event_type "HotIpAdded"
      then hot_ip_added payload
      else hot_ip_removed payload

  unfoldable pub decode_payload : String → Fields → Result (EventPayload Json)
  decode_payload event_type data_ =
      if string_key.same event_type "RequestObservation"
      then (do payload ← decode_request_observation data_; ok (request_observation payload))
      else (if is_hot_ip_type event_type
          then (do payload ← decode_hot_ip_event data_; ok (hot_ip_payload event_type payload))
          else (if string_key.same event_type "PrefixStatsChanged"
              then (do
                payload ← decode_prefix_stats_changed data_
                ok (prefix_stats_changed payload))
              else err codec_error))
