-- ===== src/Core/Json.antt =====
-- The values that Python's json module reads and writes, as core/events/codec.py looks at them. A finite
-- float is its exact fraction; an infinity or a NaN is `non_finite`.
use Prim.Native.String.{String}
use hammertime.Base.{ℕ, zero, suc, ◌/◌, ◌%◌, Bool, Option, none, some, ◌==◌, if◌then◌else◌}
use hammertime.Base.Int.{ℤ, pos, negsuc}
use hammertime.Base.Dict.{string_key}
use hammertime.Core.Config.{Ratio}

mutual
  pub data Json : Type 0 where
    null : Json
    boolean : Bool → Json
    integer : ℤ → Json
    real : Ratio → Json
    non_finite : Json
    text : String → Json
    array : Items → Json
    object : Fields → Json

  pub data Items : Type 0 where
    empty_array : Items
    item : Json → Items → Items

  pub data Fields : Type 0 where
    empty_object : Fields
    field : String → Json → Fields → Fields

-- `data.get(key)`, and `None` where the key is absent
abbrev pub get : String → Fields → Option Json
get key empty_object = none
get key (field k value fields) = if string_key.same k key then some value else get key fields

abbrev pub count_items : Items → ℕ
count_items empty_array = 0
count_items (item value items) = suc (count_items items)

-- `-n`
abbrev pub negated : ℕ → ℤ
negated zero = pos 0
negated (suc n) = negsuc n

abbrev pub magnitude : ℤ → ℕ
magnitude (pos n) = n
magnitude (negsuc n) = suc n

-- `value.is_integer()` and `int(value)` of a finite float
abbrev pub is_integer : Ratio → Bool
is_integer r = magnitude r.numerator % r.denominator == 0

abbrev pub integer_part : Ratio → ℤ
integer_part r = elim r.numerator [
  | pos n ↦ pos (n / r.denominator)
  | negsuc n ↦ negated (suc n / r.denominator)
]
