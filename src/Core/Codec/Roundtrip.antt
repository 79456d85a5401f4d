-- ===== src/Core/Codec/Roundtrip.antt =====
-- core/events/codec.py: what decode returns of what encode wrote.
use Prim.Native.String.{String}
use mathlib.Core.Path.{subst}
use hammertime.Base.{
  leb, ℕ, ◌^◌, ◌<◌, ◌≡◌, refl, sym, ap, ◌∙◌, Option, none, some, Result, ok, err, ◌>>=◌, Bool-cases,
  Result-cases, inl, inr, arith,
}
use hammertime.Base.Int.{ℤ, pos, negsuc}
use hammertime.Base.Dict.{string_key}
use hammertime.Core.Config.{Ratio}
use hammertime.Core.Address.{Address, bit_length}
use hammertime.Core.Json.{Json, integer, real, text, Fields, empty_object, field, get}
use hammertime.Core.Events.{Timestamp, HotIpEvent, PrefixStatsChanged}
use hammertime.Core.Codec.{
  Platform, Range, at_least, json_integer, bounded_json_integer, bounded_integer_field,
  bounded_json_ratio, bounded_ratio_field, range_violation, ratio_violation, to_utc, utc_of,
  end_of_years, require, or_refuse, format_timestamp, parse_timestamp, decimal_string,
  encode_capacity, canonical_attributes, hot_ip_config_version,
}
use hammertime.Core.Codec.Payloads.{
  encode_ratio, decode_ratio, encode_attributes, decode_attributes, encode_prefix_stats_changed,
  decode_prefix_stats_changed, encode_hot_ip_event, decode_hot_ip_event,
}

-- What is relied on of Python's libraries and of the validator: a text that they write is read back, and
-- a document that was validated is its own canonical copy.
pub record Laws {Wire : Type 0} (platform : Platform Wire) : Type 0 where
  pub json_read : (j : Json) (wire : Wire) → platform.dumps j ≡ ok wire → platform.loads wire ≡ ok j
  pub time_read :
      (t : Timestamp) → platform.fromisoformat (platform.isoformat (utc_of t)) ≡ some (utc_of t)
  pub address_read :
      (a : Address)
      → a.value < 2 ^ bit_length a.family
      → platform.parse_address (platform.address_text a) ≡ some a
  pub decimal_read :
      (n : ℕ) (s : String) → platform.decimal n ≡ some s → platform.int_of_decimal s ≡ some n
  pub canonical_again :
      (j d : Json) → platform.canonicalize j ≡ ok d → platform.canonicalize d ≡ ok d

-- A call that is followed by more code and does not raise
pub bind_ok :
    {A B : Type 0} (r : Result A) (f : A → Result B) (b : B)
    → (r >>= f) ≡ ok b
    → (a : A) × (r ≡ ok a) × (f a ≡ ok b)
bind_ok (ok a) f b e = (a, refl, e)
bind_ok (err x) f b e = ground (arith, e)

pub ok_eq : {A : Type 0} (a b : A) → ok a ≡ ok b → a ≡ b
ok_eq a b e = ground (arith, e)

refuse_ok : {A : Type 0} (o : Option A) (a : A) → or_refuse o ≡ ok a → o ≡ some a
refuse_ok none a e = ground (arith, e)
refuse_ok (some b) a e = ap some (ok_eq b a e)

pub integer_read :
    (n : ℤ) (bounds : Range) (j : Json)
    → bounded_integer_field n bounds ≡ ok j
    → (j ≡ integer n) × (bounded_json_integer (integer n) bounds ≡ ok n)
unfolding bounded_integer_field bounded_json_integer json_integer
integer_read n bounds j e = elim (Bool-cases (range_violation n bounds)) [
  | inl v ↦ ground (arith, v, e)
  | inr v ↦ (sym (ok_eq (integer n) j (rw v at e)), rw v refl)
]

module _ {Wire : Type 0} (platform : Platform Wire) (laws : Laws platform) where
  pub timestamp_read :
      (t : Timestamp) (j : Json)
      → format_timestamp platform t ≡ ok j
      → parse_timestamp platform j ≡ ok (utc_of t)
  unfolding parse_timestamp format_timestamp to_utc
  timestamp_read t j e = elim (Bool-cases (leb end_of_years t.epoch)) [
    | inl b ↦ ground (arith, b, e)
    | inr b ↦
        let here : text (platform.isoformat (utc_of t)) ≡ j = ok_eq _ j (rw b at e) in
        rw (← here, laws.time_read t, b) refl
  ]

  capacity_read :
      (n : ℤ) (j : Json) → encode_capacity platform n ≡ ok j → decimal_string platform j ≡ ok n
  unfolding encode_capacity decimal_string
  capacity_read (negsuc n) j e = ground (arith, e)
  capacity_read (pos n) j e =
      let (s, q, e') = bind_ok (or_refuse (platform.decimal n)) (λ digits. ok (text digits)) j e in
      rw (← ok_eq (text s) j e', laws.decimal_read n s (refuse_ok (platform.decimal n) s q)) refl

  ratio_read :
      (o : Option Ratio) (fields : Fields)
      → encode_ratio platform o ≡ ok fields
      → decode_ratio platform (get "hot_ratio" fields) ≡ ok o
  unfolding bounded_ratio_field bounded_json_ratio
  ratio_read none fields e = rw (← ok_eq empty_object fields e) refl
  ratio_read (some r) fields e = elim (Bool-cases (ratio_violation r)) [
    | inl v ↦ ground (arith, v, e)
    | inr v ↦
        let here : field "hot_ratio" (real r) empty_object ≡ fields =
          ok_eq (field "hot_ratio" (real r) empty_object) fields (rw v at e) in
        rw (← here, v) refl
  ]

  abbrev pub received_stats : PrefixStatsChanged → PrefixStatsChanged
  received_stats p = record p { timestamp = utc_of p.timestamp }

  stats_fields :
      (p : PrefixStatsChanged) (hot_count capacity sequence timestamp : Json) (hot_ratio : Fields)
      → hot_count ≡ integer p.hot_count
      → bounded_json_integer (integer p.hot_count) (at_least 0) ≡ ok p.hot_count
      → decimal_string platform capacity ≡ ok p.capacity
      → sequence ≡ integer p.sequence
      → bounded_json_integer (integer p.sequence) (at_least 0) ≡ ok p.sequence
      → parse_timestamp platform timestamp ≡ ok (utc_of p.timestamp)
      → decode_ratio platform (get "hot_ratio" hot_ratio) ≡ ok p.hot_ratio
      → decode_prefix_stats_changed platform (
          field "prefix" (text p.prefix) (
            field "hot_count" hot_count (
              field "capacity" capacity
                (field "sequence" sequence (field "timestamp" timestamp hot_ratio)))))
        ≡ ok (received_stats p)
  unfolding decode_prefix_stats_changed require
  stats_fields p hot_count capacity sequence timestamp hot_ratio e1 r1 e2 e3 r3 e4 e5 =
      rw (e1, r1, e2, e3, r3, e4, e5) refl

  pub stats_read :
      (p : PrefixStatsChanged) (fields : Fields)
      → encode_prefix_stats_changed platform p ≡ ok fields
      → decode_prefix_stats_changed platform fields ≡ ok (received_stats p)
  unfolding encode_prefix_stats_changed decode_prefix_stats_changed require
  stats_read p fields e =
      let (hot_count, q1, e1) = bind_ok (bounded_integer_field p.hot_count (at_least 0)) _ _ e in
      let (capacity, q2, e2) = bind_ok (encode_capacity platform p.capacity) _ _ e1 in
      let (sequence, q3, e3) = bind_ok (bounded_integer_field p.sequence (at_least 0)) _ _ e2 in
      let (hot_ratio, q4, e4) = bind_ok (encode_ratio platform p.hot_ratio) _ _ e3 in
      let (timestamp, q5, e5) = bind_ok (format_timestamp platform p.timestamp) _ _ e4 in
      let (same_count, count_read) = integer_read p.hot_count (at_least 0) hot_count q1 in
      let (same_sequence, sequence_read) = integer_read p.sequence (at_least 0) sequence q3 in
      let written = ok_eq _ _ e5 in
      subst (λ f. decode_prefix_stats_changed platform f ≡ ok (received_stats p)) written
        (stats_fields p hot_count capacity sequence timestamp hot_ratio same_count count_read
          (capacity_read p.capacity capacity q2) same_sequence sequence_read
          (timestamp_read p.timestamp timestamp q5) (ratio_read p.hot_ratio hot_ratio q4))

  -- The canonical copy of a document
  abbrev pub canonical_copy : Option Json → Option Json
  canonical_copy none = none
  canonical_copy (some attributes) = elim (platform.canonicalize attributes) [
    | ok document ↦ some document
    | err e ↦ none
  ]

  canonical_ok :
      (a d : Json) → platform.canonicalize a ≡ ok d → canonical_attributes platform a ≡ ok d
  unfolding canonical_attributes
  canonical_ok a d q = rw (canonical_attributes, q) refl

  canonical_from :
      (a d : Json) → canonical_attributes platform a ≡ ok d → platform.canonicalize a ≡ ok d
  unfolding canonical_attributes
  canonical_from a d q = elim (Result-cases (platform.canonicalize a)) [
    | inl (c, r) ↦ r ∙ sym (canonical_ok a c r) ∙ q
    | inr (x, r) ↦ ground (arith, r, q)
  ]

  copied : (a d : Json) → platform.canonicalize a ≡ ok d → canonical_copy (some a) ≡ some d
  copied a d q = rw (canonical_copy, q) refl

  attributes_read :
      (o : Option Json) (fields : Fields)
      → encode_attributes platform o ≡ ok fields
      → decode_attributes platform (get "attributes" fields) ≡ ok (canonical_copy o)
  attributes_read none fields e = rw (← ok_eq empty_object fields e) refl
  attributes_read (some a) fields e =
      let (d, q, e') =
        bind_ok (canonical_attributes platform a) (λ d. ok (field "attributes" d empty_object))
          fields e in
      let from = canonical_from a d q in
      let here : field "attributes" d empty_object ≡ fields =
        ok_eq (field "attributes" d empty_object) fields e' in
      let again : decode_attributes platform (some d) ≡ ok (some d) =
        rw (decode_attributes, canonical_ok d d (laws.canonical_again a d from)) refl in
      rw (← here) (again ∙ ap ok (sym (copied a d from)))

  abbrev pub received_hot_ip : HotIpEvent Json → HotIpEvent Json
  received_hot_ip p = record p {
    timestamp = utc_of p.timestamp;
    attributes = canonical_copy p.attributes;
  }

  pub hot_ip_read :
      (event_type : String) (p : HotIpEvent Json) (fields : Fields)
      → p.ip.value < 2 ^ bit_length p.ip.family
      → encode_hot_ip_event platform event_type p ≡ ok fields
      → decode_hot_ip_event platform fields ≡ ok (received_hot_ip p)
  unfolding encode_hot_ip_event decode_hot_ip_event require
  hot_ip_read event_type p fields fits e =
      let (sequence, q1, e1) = bind_ok (bounded_integer_field p.sequence (at_least 0)) _ _ e in
      let (window_count, q2, e2) =
        bind_ok (bounded_integer_field p.window_count (at_least 0)) _ _ e1 in
      let (config_version, q3, e3) =
        bind_ok (bounded_integer_field p.config_version hot_ip_config_version) _ _ e2 in
      let (attributes, q4, e4) = bind_ok (encode_attributes platform p.attributes) _ _ e3 in
      let (timestamp, q5, e5) = bind_ok (format_timestamp platform p.timestamp) _ _ e4 in
      let (same_sequence, sequence_read) = integer_read p.sequence (at_least 0) sequence q1 in
      let (same_count, count_read) = integer_read p.window_count (at_least 0) window_count q2 in
      let (same_version, version_read) =
        integer_read p.config_version hot_ip_config_version config_version q3 in
      let written = ok_eq _ _ e5 in
      rw
        (
          ← written,
          laws.address_read p.ip fits,
          timestamp_read p.timestamp timestamp q5,
          same_sequence,
          sequence_read,
          same_count,
          count_read,
          same_version,
          version_read,
          attributes_read p.attributes attributes q4,
        )
        refl
