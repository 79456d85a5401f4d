-- ===== src/Core/Prefix.antt =====
-- core/addressing/prefix.py: CIDR prefixes. The text form is left out, as for addresses.
pub mod Same
use hammertime.Base.{
  ℕ, ◌-◌, ◌/◌, ◌%◌, ◌^◌, Bool, false, not, ◌&&◌, Result, ok, invalid_prefix, raise_if, ◌>>◌, ltb,
  ◌==◌, if◌then◌else◌,
}
use hammertime.Base.Int.{pos}
use hammertime.Core.Config.{Ratio}
use hammertime.Core.Address.{AddressFamily, Address, bit_length, is_family}

pub record Prefix : Type 0 where
  pub family : AddressFamily
  pub network : ℕ
  pub length : ℕ

-- `network & ((1 << host_bits) - 1)` is `network % 2 ^ host_bits`.
unfoldable pub post_init : Prefix → Result Prefix
post_init p = do
  raise_if (ltb (bit_length p.family) p.length) invalid_prefix
  let host_bits = bit_length p.family - p.length
  raise_if (not (host_bits == 0) && not (p.network % 2 ^ host_bits == 0)) invalid_prefix
  ok p

unfoldable pub capacity : Prefix → ℕ
capacity p = 2 ^ (bit_length p.family - p.length)

-- The exact fraction that `hot_ratio` narrows to a float.
unfoldable pub hot_ratio : Prefix → ℕ → Ratio
unfolding capacity
hot_ratio p hot_count = record { numerator = pos hot_count; denominator = capacity p }

unfoldable pub contains : Prefix → Address → Bool
contains p a =
    if not (is_family a.family p.family)
    then false
    else a.value / 2 ^ (bit_length p.family - p.length)
      == p.network / 2 ^ (bit_length p.family - p.length)
