-- ===== src/Core/Tests/Codec.antt =====
-- A run of core/events/codec.py at a concrete event, and its round trip. Every text of a number is as
-- long as the number.
use Prim.Native.Char.{nul}
use Prim.Native.String.{String, [], ◌∷◌}
use hammertime.Base.{
  ℕ, zero, suc, ◌+◌, ◌/◌, ◌%◌, ◌^◌, ◌≡◌, refl, ap, Option, none, some, ok, true, false, ◌==◌,
  if◌then◌else◌, ltb→lt, arith,
}
use hammertime.Base.Int.{ℤ, pos}
use hammertime.Core.Address.{AddressFamily, ipv4, ipv6, Address, bit_length}
use hammertime.Core.Json.{Json, integer, text, object, empty_object, field}
use hammertime.Core.Events.{
  Timestamp, HotIpEvent, hot_ip_added, EventEnvelope, schema_version_1, event_id,
}
use hammertime.Core.Codec
use hammertime.Core.Codec.{Platform, to_utc}
use hammertime.Core.Codec.Payloads
use hammertime.Core.Codec.Envelope
use hammertime.Core.Codec.Envelope.{encode, decode}
use hammertime.Core.Codec.Roundtrip.{Laws}
use hammertime.Core.Codec.Wire.{received, decode-encode}

abbrev unary : ℕ → String
unary zero = []
unary (suc n) = nul ∷ unary n

abbrev number_of : String → ℕ
number_of [] = zero
number_of (c ∷ s) = suc (number_of s)

number_of-unary : (n : ℕ) → number_of (unary n) ≡ n
number_of-unary zero = refl
number_of-unary (suc n) = ap suc (number_of-unary n)

abbrev address_text : Address → String
address_text a = elim a.family [
  | ipv4 ↦ unary (a.value + a.value)
  | ipv6 ↦ unary (suc (a.value + a.value))
]

abbrev parse_address : String → Option Address
parse_address s =
    let n = number_of s in
    some (record { family = if n % 2 == 0 then ipv4 else ipv6; value = n / 2 })

abbrev platform : Platform Json
platform = record {
  dumps = λ j. ok j;
  loads = λ j. ok j;
  isoformat = λ t. unary t.epoch;
  fromisoformat = λ s. some (record { epoch = number_of s; is_aware = true });
  address_text = address_text;
  parse_address = parse_address;
  decimal = λ n. some (unary n);
  int_of_decimal = λ s. some (number_of s);
  str_of = λ j. [];
  canonicalize = λ j. ok j;
}

even : (v : ℕ) → ((v + v) % 2 ≡ 0) × ((v + v) / 2 ≡ v)
even v = (omega arith, omega arith)

odd : (v : ℕ) → (suc (v + v) % 2 ≡ 1) × (suc (v + v) / 2 ≡ v)
odd v = (omega arith, omega arith)

address_read :
    (family : AddressFamily) (value : ℕ)
    → parse_address (address_text (record { family = family; value = value }))
      ≡ some (record { family = family; value = value })
address_read ipv4 value =
    rw (parse_address, number_of-unary (value + value), (even value).0, (even value).1) refl
address_read ipv6 value =
    rw (parse_address, number_of, number_of-unary (value + value), (odd value).0, (odd value).1)
      refl

abbrev timestamp_of : ℕ → Option Timestamp
timestamp_of n = some (record { epoch = n; is_aware = true })

some_eq : (s u : String) → some s ≡ some u → s ≡ u
some_eq s u e = ground (arith, e)

decimal_read : (n : ℕ) (s : String) → some (unary n) ≡ some s → some (number_of s) ≡ some n
decimal_read n s e = rw (← some_eq (unary n) s e) (ap some (number_of-unary n))

laws : Laws platform
unfolding to_utc
laws = record {
  json_read = λ j wire e. ground (arith, e);
  time_read = λ t. ap timestamp_of (number_of-unary t.epoch);
  address_read = λ a fits. address_read a.family a.value;
  decimal_read = decimal_read;
  canonical_again = λ j d e. refl;
}

abbrev event : HotIpEvent Json
event = record {
  ip = record { family = ipv4; value = 5 };
  timestamp = record { epoch = 7; is_aware = false };
  sequence = pos 1;
  window_count = pos 120;
  config_version = pos 1;
  attributes = none;
}

abbrev envelope : EventEnvelope Json
envelope = record {
  agent_id = "aggregator-0";
  sequence = pos 1;
  event_type = "HotIpAdded";
  config_version = pos 1;
  timestamp = record { epoch = 7; is_aware = false };
  payload = hot_ip_added event;
  schema_version = schema_version_1;
  subject = none;
}

abbrev digest : String → String
digest message = message

abbrev decimal : ℤ → String
decimal n = "1"

-- What is written is the document itself.
abbrev written : Json
written = object (
    field "schema_version" (integer (pos 1)) (
      field "event_id" (text (event_id digest decimal envelope)) (
        field "agent_id" (text "aggregator-0") (
          field "sequence" (integer (pos 1)) (
            field "event_type" (text "HotIpAdded") (
              field "config_version" (integer (pos 1)) (
                field "timestamp" (text (unary 7)) (
                  field "payload"
                    (object (
                      field "type" (text "HotIpAdded") (
                        field "ip" (text (unary 10)) (
                          field "family" (text "ipv4") (
                            field "timestamp" (text (unary 7)) (
                              field "sequence" (integer (pos 1)) (
                                field "window_count" (integer (pos 120))
                                  (field "config_version" (integer (pos 1)) empty_object))))))))
                    empty_object))))))))

encoded : encode platform digest decimal envelope ≡ ok written
unfolding encode Envelope.document_of Payloads.encode_payload Payloads.encode_hot_ip_event
    Codec.bounded_integer_field Codec.range_violation Codec.format_timestamp to_utc
encoded = refl

decode-encode_example :
    decode platform digest decimal written ≡ ok (received platform laws envelope)
unfolding bit_length
decode-encode_example =
    decode-encode platform laws digest decimal envelope written (refl, ltb→lt 5 (2 ^ 32) refl)
      encoded
