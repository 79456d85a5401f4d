-- ===== src/Core/Address.antt =====
-- core/addressing/address.py: fixed-width binary addresses. The text form (`parse`, `__str__`) is
-- Python's `ipaddress` and is left out. A bit is a `Bool`: `true` is 1.
pub mod Bits
pub mod Same
use hammertime.Base.{
  ℕ, zero, suc, ◌/◌, ◌%◌, ◌^◌, Bool, true, false, List, [], ◌∷◌, Result, ok, invalid_address,
  raise_if, ◌>>◌, leb, ◌==◌,
}

pub data AddressFamily : Type 0 where
  ipv4 ipv6 : AddressFamily

unfoldable pub bit_length : AddressFamily → ℕ
bit_length ipv4 = 32
bit_length ipv6 = 128

-- `a is b`
abbrev pub is_family : AddressFamily → AddressFamily → Bool
is_family ipv4 ipv4 = true
is_family ipv6 ipv6 = true
is_family _ _ = false

pub record Address : Type 0 where
  pub family : AddressFamily
  pub value : ℕ

-- Construction returns the address or raises. `1 << bits` is `2 ^ bits`.
unfoldable pub post_init : Address → Result Address
post_init a = do raise_if (leb (2 ^ bit_length a.family) a.value) invalid_address; ok a

-- `(value >> shift) & 1`
unfoldable pub bit : ℕ → ℕ → Bool
bit value shift = value / 2 ^ shift % 2 == 1

-- The bits of a value below a width, the most significant first: the shifts count down.
unfoldable pub bits_below : ℕ → ℕ → List Bool
bits_below zero value = []
bits_below (suc shift) value = bit value shift ∷ bits_below shift value

unfoldable pub bits : Address → List Bool
bits a = bits_below (bit_length a.family) a.value
