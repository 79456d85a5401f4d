-- ===== src/Core/Codec/Batches.antt =====
-- core/events/codec.py: what decode returns of a batch of observations that encode wrote.
use hammertime.Base.{suc, ◌^◌, ◌<◌, ◌≡◌, refl, ap, false, List, [], ◌∷◌, ok, ltb, length}
use hammertime.Base.Dict.{string_key}
use hammertime.Core.Address.{bit_length}
use hammertime.Core.Json.{
  Json, text, array, object, Items, empty_array, Fields, empty_object, field, count_items,
}
use hammertime.Core.Events.{Observation, RequestObservation}
use hammertime.Core.Codec.{
  Platform, bounded_integer_field, utc_of, require, format_timestamp, observation_sequence,
  observation_window_seconds, observation_request_count, max_observations,
}
use hammertime.Core.Codec.Payloads.{
  encode_observations, decode_observations, decode_observation, decode_array,
  encode_request_observation, decode_request_observation,
}
use hammertime.Core.Codec.Roundtrip.{Laws, integer_read, ok_eq, bind_ok, timestamp_read}

-- The addresses of a batch are addresses of their families.
abbrev pub AllFit : List Observation → Type 0
AllFit [] = Unit
AllFit (o ∷ observations) = (o.ip.value < 2 ^ bit_length o.ip.family) × AllFit observations

module _ {Wire : Type 0} (platform : Platform Wire) (laws : Laws platform) where
  observation_read :
      (o : Observation) (j : Json)
      → o.ip.value < 2 ^ bit_length o.ip.family
      → bounded_integer_field o.request_count observation_request_count ≡ ok j
      → decode_observation platform (
          object
            (field "ip" (text (platform.address_text o.ip)) (field "request_count" j empty_object)))
        ≡ ok o
  unfolding decode_observation require
  observation_read o j fits q =
      let (same_count, count_read) = integer_read o.request_count observation_request_count j q in
      rw (laws.address_read o.ip fits, same_count, count_read) refl

  observations_read :
      (observations : List Observation) (items : Items)
      → AllFit observations
      → encode_observations platform observations ≡ ok items
      → decode_observations platform items ≡ ok observations
  unfolding encode_observations decode_observations
  observations_read [] items f e = rw (← ok_eq empty_array items e) refl
  observations_read (o ∷ observations) items f e =
      let (count, q1, e1) =
        bind_ok (bounded_integer_field o.request_count observation_request_count) _ _ e in
      let (rest, q2, e2) = bind_ok (encode_observations platform observations) _ _ e1 in
      let written = ok_eq _ _ e2 in
      rw (← written, observation_read o count f.0 q1, observations_read observations rest f.1 q2)
        refl

  count_items_lem :
      (observations : List Observation) (items : Items)
      → encode_observations platform observations ≡ ok items
      → count_items items ≡ length observations
  unfolding encode_observations
  count_items_lem [] items e = rw (← ok_eq empty_array items e) refl
  count_items_lem (o ∷ observations) items e =
      let (count, q1, e1) =
        bind_ok (bounded_integer_field o.request_count observation_request_count) _ _ e in
      let (rest, q2, e2) = bind_ok (encode_observations platform observations) _ _ e1 in
      rw (← ok_eq _ _ e2) (ap suc (count_items_lem observations rest q2))

  array_read :
      (observations : List Observation) (items : Items)
      → AllFit observations
      → ltb max_observations (length observations) ≡ false
      → encode_observations platform observations ≡ ok items
      → decode_array platform (array items) ≡ ok observations
  unfolding decode_array
  array_read observations items f h e =
      rw (count_items_lem observations items e, h, observations_read observations items f e) refl

  abbrev pub received_batch : RequestObservation → RequestObservation
  received_batch p = record p { window_start = utc_of p.window_start }

  pub batch_read :
      (p : RequestObservation) (fields : Fields)
      → AllFit p.observations
      → ltb max_observations (length p.observations) ≡ false
      → encode_request_observation platform p ≡ ok fields
      → decode_request_observation platform fields ≡ ok (received_batch p)
  unfolding encode_request_observation decode_request_observation require
  batch_read p fields f h e =
      let (sequence, q1, e1) =
        bind_ok (bounded_integer_field p.sequence observation_sequence) _ _ e in
      let (seconds, q2, e2) =
        bind_ok (bounded_integer_field p.window_seconds observation_window_seconds) _ _ e1 in
      let (items, q3, e3) = bind_ok (encode_observations platform p.observations) _ _ e2 in
      let (start, q4, e4) = bind_ok (format_timestamp platform p.window_start) _ _ e3 in
      let (same_sequence, sequence_read) =
        integer_read p.sequence observation_sequence sequence q1 in
      let (same_seconds, seconds_read) =
        integer_read p.window_seconds observation_window_seconds seconds q2 in
      let written = ok_eq _ _ e4 in
      rw
        (
          ← written,
          array_read p.observations items f h q3,
          same_sequence,
          sequence_read,
          timestamp_read platform laws p.window_start start q4,
          same_seconds,
          seconds_read,
        )
        refl
