-- ===== src/Core/Codec/Envelope.antt =====
-- core/events/codec.py: the envelope.
use Prim.Native.String.{String}
use hammertime.Base.{
  Bool, false, not, ◌||◌, Option, none, some, Result, ok, err, codec_error, raise_if, ◌>>=◌, ◌>>◌,
  ◌==◌, if◌then◌else◌,
}
use hammertime.Base.Int.{ℤ, pos, negsuc}
use hammertime.Base.Dict.{string_key}
use hammertime.Core.Json.{Json, null, integer, text, object, Fields, empty_object, field, get}
use hammertime.Core.Events.{EventEnvelope, event_id}
use hammertime.Core.Codec.{Platform, json_integer, require, str, format_timestamp, parse_timestamp}
use hammertime.Core.Codec.Payloads.{is_hot_ip_type, encode_payload, decode_payload}

-- `event_type in _KNOWN_EVENT_TYPES`
abbrev pub is_known_type : String → Bool
is_known_type event_type =
    string_key.same event_type "RequestObservation"
    || string_key.same event_type "PrefixStatsChanged"
    || is_hot_ip_type event_type

-- `schema_version == SCHEMA_VERSION`
abbrev pub is_current : ℤ → Bool
is_current (pos n) = n == 1
is_current (negsuc n) = false

abbrev pub encode_subject : Option String → Fields
encode_subject none = empty_object
encode_subject (some subject) = field "subject" (text subject) empty_object

-- `document.get("subject")`, of which `null` is none
abbrev pub decode_subject : Option Json → Result (Option String)
decode_subject none = ok none
decode_subject (some null) = ok none
decode_subject (some (text subject)) = ok (some subject)
decode_subject (some _) = err codec_error

abbrev pub event_type_of : Json → Result String
event_type_of (text event_type) =
    if is_known_type event_type then ok event_type else err codec_error
event_type_of _ = err codec_error

abbrev pub fields_of : Json → Result Fields
fields_of (object fields) = ok fields
fields_of _ = err codec_error

module _ {Wire : Type 0} (platform : Platform Wire) (digest : String → String)
    (decimal : ℤ → String) where
  unfoldable pub document_of : EventEnvelope Json → Result Json
  document_of envelope = do
    raise_if (not (is_known_type envelope.event_type)) codec_error
    raise_if (not (is_current envelope.schema_version)) codec_error
    payload ← encode_payload platform envelope.event_type envelope.payload
    timestamp ← format_timestamp platform envelope.timestamp
    ok (
        object (
          field "schema_version" (integer envelope.schema_version) (
            field "event_id" (text (event_id digest decimal envelope)) (
              field "agent_id" (text envelope.agent_id) (
                field "sequence" (integer envelope.sequence) (
                  field "event_type" (text envelope.event_type) (
                    field "config_version" (integer envelope.config_version) (
                      field "timestamp" timestamp
                        (field "payload" (object payload) (encode_subject envelope.subject))))))))))

  unfoldable pub encode : EventEnvelope Json → Result Wire
  encode envelope = do document ← document_of envelope; platform.dumps document

  unfoldable pub envelope_of : Fields → Result (EventEnvelope Json)
  envelope_of document = do
    version_value ← require document "schema_version"
    schema_version ← json_integer version_value
    raise_if (not (is_current schema_version)) codec_error
    type_value ← require document "event_type"
    event_type ← event_type_of type_value
    payload_value ← require document "payload"
    payload_data ← fields_of payload_value
    id_value ← require document "event_id"
    subject ← decode_subject (get "subject" document)
    agent_id ← require document "agent_id"
    sequence_value ← require document "sequence"
    sequence ← json_integer sequence_value
    config_value ← require document "config_version"
    config_version ← json_integer config_value
    time_value ← require document "timestamp"
    timestamp ← parse_timestamp platform time_value
    payload ← decode_payload platform event_type payload_data
    let envelope : EventEnvelope Json = record {
      agent_id = str platform agent_id;
      sequence = sequence;
      event_type = event_type;
      config_version = config_version;
      timestamp = timestamp;
      payload = payload;
      schema_version = schema_version;
      subject = subject;
    }
    raise_if (not (string_key.same (event_id digest decimal envelope) (str platform id_value)))
        codec_error
    ok envelope

  unfoldable pub decode : Wire → Result (EventEnvelope Json)
  decode data_ = do document ← platform.loads data_; fields ← fields_of document; envelope_of fields
