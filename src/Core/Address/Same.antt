-- ===== src/Core/Address/Same.antt =====
-- core/addressing/address.py: an address is frozen and hashable, so it is a key of dictionaries.
use hammertime.Base.{◌≡◌, ◌↔◌, Bool, true, ◌&&◌, ◌==◌, ==_iff, arith}
use hammertime.Base.Dict.{Key}
use hammertime.Core.Address.{Address, AddressFamily, ipv4, ipv6, is_family}

pub is_family_iff : (f g : AddressFamily) → (is_family f g ≡ true) ↔ (f ≡ g)
is_family_iff ipv4 ipv4 = ground arith
is_family_iff ipv4 ipv6 = ground arith
is_family_iff ipv6 ipv4 = ground arith
is_family_iff ipv6 ipv6 = ground arith

-- `a == b`
abbrev pub same_address : Address → Address → Bool
same_address a b = is_family a.family b.family && (a.value == b.value)

pub same_address_iff : (a b : Address) → (same_address a b ≡ true) ↔ (a ≡ b)
same_address_iff a b = ground (arith, is_family_iff a.family b.family, ==_iff a.value b.value)

instance abbrev pub address_key : Key Address
address_key = record { same = same_address; same_iff = same_address_iff }
