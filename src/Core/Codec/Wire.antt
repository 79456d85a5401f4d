-- ===== src/Core/Codec/Wire.antt =====
-- core/events/codec.py: what decode returns of the bytes of a whole envelope.
use Prim.Native.String.{String}
use hammertime.Base.{
  ◌^◌, ◌<◌, ◌≡◌, refl, Bool, true, false, not, Option, none, some, Result, ok, codec_error, ◌>>=◌,
  ◌>>◌, raise_if, ltb, length, Bool-cases, inl, inr, arith,
}
use hammertime.Base.Int.{ℤ, pos, negsuc}
use hammertime.Base.Dict.{string_key, same_refl}
use hammertime.Core.Address.{bit_length}
use hammertime.Core.Json.{Json, text, Fields, get}
use hammertime.Core.Events.{
  EventPayload, request_observation, hot_ip_added, hot_ip_removed, prefix_stats_changed,
  EventEnvelope, event_id,
}
use hammertime.Core.Codec.{
  Platform, json_integer, utc_of, format_timestamp, require, max_observations,
}
use hammertime.Core.Codec.Payloads.{
  encode_payload, decode_payload, encode_request_observation, encode_hot_ip_event,
  encode_prefix_stats_changed,
}
use hammertime.Core.Codec.Envelope.{
  is_known_type, is_current, encode_subject, decode_subject, event_type_of, fields_of, document_of,
  encode, envelope_of, decode,
}
use hammertime.Core.Codec.Batches.{AllFit, received_batch, batch_read}
use hammertime.Core.Codec.Roundtrip.{
  Laws, bind_ok, ok_eq, timestamp_read, received_stats, stats_read, received_hot_ip, hot_ip_read,
}

-- What a payload is to be for its event type: an edge is of the type, a batch is within the limit that
-- only `decode` tests, and the addresses are addresses of their families.
abbrev pub IsReadable : String → EventPayload Json → Type 0
IsReadable event_type (request_observation p) =
    AllFit p.observations × (ltb max_observations (length p.observations) ≡ false)
IsReadable event_type (hot_ip_added p) =
    (event_type ≡ "HotIpAdded") × (p.ip.value < 2 ^ bit_length p.ip.family)
IsReadable event_type (hot_ip_removed p) =
    (event_type ≡ "HotIpRemoved") × (p.ip.value < 2 ^ bit_length p.ip.family)
IsReadable event_type (prefix_stats_changed p) = Unit

module _ {Wire : Type 0} (platform : Platform Wire) (laws : Laws platform) where
  abbrev pub received_payload : EventPayload Json → EventPayload Json
  received_payload (request_observation p) = request_observation (received_batch platform laws p)
  received_payload (hot_ip_added p) = hot_ip_added (received_hot_ip platform laws p)
  received_payload (hot_ip_removed p) = hot_ip_removed (received_hot_ip platform laws p)
  received_payload (prefix_stats_changed p) = prefix_stats_changed (received_stats platform laws p)

  -- The envelope with its times in UTC and its attributes in their canonical copy
  abbrev pub received : EventEnvelope Json → EventEnvelope Json
  received e = record e { timestamp = utc_of e.timestamp; payload = received_payload e.payload }

  payload_read :
      (event_type : String) (payload : EventPayload Json) (fields : Fields)
      → IsReadable event_type payload
      → encode_payload platform event_type payload ≡ ok fields
      → decode_payload platform event_type fields ≡ ok (received_payload payload)
  unfolding encode_payload decode_payload
  payload_read event_type (request_observation p) fields (f, h) e =
      elim (Bool-cases (string_key.same event_type "RequestObservation")) [
        | inr s ↦ ground (arith, s, e)
        | inl s ↦
            let written : encode_request_observation platform p ≡ ok fields = rw s at e in
            rw (s, batch_read platform laws p fields f h written) refl
      ]
  payload_read event_type (hot_ip_added p) fields (t, fits) e =
      let written : encode_hot_ip_event platform "HotIpAdded" p ≡ ok fields = rw t at e in
      rw (t, hot_ip_read platform laws "HotIpAdded" p fields fits written) refl
  payload_read event_type (hot_ip_removed p) fields (t, fits) e =
      let written : encode_hot_ip_event platform "HotIpRemoved" p ≡ ok fields = rw t at e in
      rw (t, hot_ip_read platform laws "HotIpRemoved" p fields fits written) refl
  payload_read event_type (prefix_stats_changed p) fields r e =
      elim (Bool-cases (string_key.same event_type "PrefixStatsChanged")) [
        | inr s ↦ ground (arith, s, e)
        | inl s ↦
            let written : encode_prefix_stats_changed platform p ≡ ok fields = rw s at e in
            let here = (string_key.same_iff event_type "PrefixStatsChanged").0 s in
            rw (here, stats_read platform laws p fields written) refl
      ]

  is_current_eq : (n : ℤ) → is_current n ≡ true → n ≡ pos 1
  is_current_eq (pos n) h = ground arith
  is_current_eq (negsuc n) h = ground (arith, h)

  subject_read : (o : Option String) → decode_subject (get "subject" (encode_subject o)) ≡ ok o
  subject_read none = refl
  subject_read (some subject) = refl

  type_read : (t : String) → is_known_type t ≡ true → event_type_of (text t) ≡ ok t
  type_read t k = rw (event_type_of, k) refl

  module _ (digest : String → String) (decimal : ℤ → String) where
    checked :
        (b : Bool) (r : Result Json) (j : Json)
        → (raise_if (not b) codec_error >> r) ≡ ok j
        → (b ≡ true) × (r ≡ ok j)
    checked true r j e = (refl, e)
    checked false r j e = ground (arith, e)

    document_read :
        (e : EventEnvelope Json) (document : Json)
        → IsReadable e.event_type e.payload
        → document_of platform digest decimal e ≡ ok document
        → (fields_of document >>= λ fields. envelope_of platform digest decimal fields)
          ≡ ok (received e)
    unfolding document_of envelope_of require json_integer event_id
    document_read e document r w =
        let (known, w1) = checked (is_known_type e.event_type) _ document w in
        let (current, w2) = checked (is_current e.schema_version) _ document w1 in
        let (payload, q, w3) =
          bind_ok (encode_payload platform e.event_type e.payload) _ document w2 in
        let (timestamp, t, w4) = bind_ok (format_timestamp platform e.timestamp) _ document w3 in
        let written = ok_eq _ _ w4 in
        rw
          (
            ← written,
            current,
            type_read e.event_type known,
            subject_read e.subject,
            timestamp_read platform laws e.timestamp timestamp t,
            payload_read e.event_type e.payload payload r q,
            same_refl {K = String} (event_id digest decimal e),
          )
          refl

    -- What `encode` writes of an envelope whose payload is readable for its event type, `decode` returns,
    -- with every time in UTC and the attributes in their canonical copy.
    pub decode-encode :
        (e : EventEnvelope Json) (wire : Wire)
        → IsReadable e.event_type e.payload
        → encode platform digest decimal e ≡ ok wire
        → decode platform digest decimal wire ≡ ok (received e)
    unfolding encode decode
    decode-encode e wire r w =
        let (document, q, written) = bind_ok (document_of platform digest decimal e) _ wire w in
        rw (laws.json_read document wire written) (document_read e document r q)
