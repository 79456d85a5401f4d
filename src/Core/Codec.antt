-- ===== src/Core/Codec.antt =====
-- core/events/codec.py: the wire form of the events. What Python's own libraries do is a parameter
-- (`Platform`): json's text, of any type `Wire`, datetime's and ipaddress's, the decimal text of an
-- integer, and `str` of a value that is no string; so is `canonicalize`, core/events/attributes.py's
-- validator. Every refusal is `codec_error`, but for one whose cause is the validator's, which is
-- `invalid_attributes`. A time is an instant, from 1970 on.
pub mod Payloads
pub mod Envelope
pub mod Roundtrip
pub mod Batches
pub mod Wire
use Prim.Native.String.{String}
use hammertime.Base.{
  leb, ℕ, Bool, true, false, not, ◌&&◌, ◌||◌, Option, none, some, Result, ok, err, codec_error,
  invalid_attributes, raise_if, ◌>>=◌, ◌>>◌, ltb, if◌then◌else◌,
}
use hammertime.Base.Int.{ℤ, pos, negsuc, is_negative, pos_part}
use hammertime.Base.Dict.{Key, string_key}
use hammertime.Core.Config.{Ratio}
use hammertime.Core.Address.{Address}
use hammertime.Core.Json.{
  Json, null, boolean, integer, real, non_finite, text, array, object, Fields, get, is_integer,
  integer_part,
}
use hammertime.Core.Events.{Timestamp}

pub record Platform (Wire : Type 0) : Type 0 where
  pub dumps : Json → Result Wire
  pub loads : Wire → Result Json
  pub isoformat : Timestamp → String
  pub fromisoformat : String → Option Timestamp
  pub address_text : Address → String
  pub parse_address : String → Option Address
  pub decimal : ℕ → Option String
  pub int_of_decimal : String → Option ℕ
  pub str_of : Json → String
  pub canonicalize : Json → Result Json

pub record Range : Type 0 where
  pub minimum : ℕ
  pub maximum : Option ℕ

abbrev pub at_least : ℕ → Range
at_least minimum = record { minimum = minimum; maximum = none }

abbrev pub from_to : ℕ → ℕ → Range
from_to minimum maximum = record { minimum = minimum; maximum = some maximum }

abbrev pub observation_sequence : Range
observation_sequence = from_to 0 9223372036854775807

abbrev pub observation_window_seconds : Range
observation_window_seconds = from_to 1 3600

abbrev pub observation_request_count : Range
observation_request_count = from_to 0 1000000000

abbrev pub hot_ip_config_version : Range
hot_ip_config_version = at_least 1

abbrev pub max_observations : ℕ
max_observations = 10000

abbrev pub is_above : ℕ → Option ℕ → Bool
is_above n none = false
is_above n (some maximum) = ltb maximum n

-- `_range_violation(...) is not None`
unfoldable pub range_violation : ℤ → Range → Bool
range_violation (negsuc n) bounds = true
range_violation (pos n) bounds = if ltb n bounds.minimum then true else is_above n bounds.maximum

unfoldable pub json_integer : Json → Result ℤ
json_integer (integer n) = ok n
json_integer (real r) = if is_integer r then ok (integer_part r) else err codec_error
json_integer _ = err codec_error

unfoldable pub bounded_json_integer : Json → Range → Result ℤ
bounded_json_integer value bounds = do
  n ← json_integer value
  raise_if (range_violation n bounds) codec_error
  ok n

unfoldable pub bounded_integer_field : ℤ → Range → Result Json
bounded_integer_field n bounds = do raise_if (range_violation n bounds) codec_error; ok (integer n)

abbrev pub is_ratio_above_one : Ratio → Bool
is_ratio_above_one r = ltb r.denominator (pos_part r.numerator)

-- `_ratio_violation(...) is not None` with the bounds 0 and 1, for a finite number
unfoldable pub ratio_violation : Ratio → Bool
ratio_violation r = if is_negative r.numerator then true else is_ratio_above_one r

unfoldable pub bounded_json_ratio : Json → Result Ratio
bounded_json_ratio (integer n) =
    let r : Ratio = record { numerator = n; denominator = 1 } in
    if ratio_violation r then err codec_error else ok r
bounded_json_ratio (real r) = if ratio_violation r then err codec_error else ok r
bounded_json_ratio _ = err codec_error

unfoldable pub bounded_ratio_field : Ratio → Result Json
bounded_ratio_field r = do raise_if (ratio_violation r) codec_error; ok (real r)

-- The first second after the year 9999, and the conversion itself.
abbrev pub end_of_years : ℕ
end_of_years = 253402300800

abbrev pub utc_of : Timestamp → Timestamp
utc_of t = record { epoch = t.epoch; is_aware = true }

-- A conversion that leaves the years is refused; a time without an offset never is outside of them.
unfoldable pub to_utc : Timestamp → Result Timestamp
to_utc t = do raise_if (leb end_of_years t.epoch) codec_error; ok (utc_of t)

unfoldable pub require : Fields → String → Result Json
require data_ key = elim (get key data_) [ none ↦ err codec_error | some value ↦ ok value ]

abbrev pub or_refuse {ℓ} : {A : Type ℓ} → Option A → Result A
or_refuse none = err codec_error
or_refuse (some a) = ok a

module _ {Wire : Type 0} (platform : Platform Wire) where
  -- `str(value)`
  abbrev pub str : Json → String
  str (text s) = s
  str value = platform.str_of value

  unfoldable pub format_timestamp : Timestamp → Result Json
  format_timestamp t = do utc ← to_utc t; ok (text (platform.isoformat utc))

  unfoldable pub parse_timestamp : Json → Result Timestamp
  parse_timestamp (text s) = do t ← or_refuse (platform.fromisoformat s); to_utc t
  parse_timestamp _ = err codec_error

  -- `capacity` on the wire is a decimal string.
  unfoldable pub decimal_string : Json → Result ℤ
  decimal_string (text s) = do n ← or_refuse (platform.int_of_decimal s); ok (pos n)
  decimal_string _ = err codec_error

  unfoldable pub encode_capacity : ℤ → Result Json
  encode_capacity capacity = do
    raise_if (is_negative capacity) codec_error
    digits ← or_refuse (platform.decimal (pos_part capacity))
    ok (text digits)

  unfoldable pub canonical_attributes : Json → Result Json
  canonical_attributes attributes = elim (platform.canonicalize attributes) [
    | err e ↦ err invalid_attributes
    | ok document ↦ ok document
  ]
