-- ===== src/Core/Prefix/Same.antt =====
-- core/addressing/prefix.py: a prefix is frozen and hashable, so it is a key of dictionaries.
use hammertime.Base.{◌≡◌, ◌↔◌, Bool, true, ◌&&◌, ◌==◌, ==_iff, arith}
use hammertime.Base.Dict.{Key}
use hammertime.Core.Address.{is_family}
use hammertime.Core.Address.Same.{is_family_iff}
use hammertime.Core.Prefix.{Prefix}

-- `a == b`
abbrev pub same_prefix : Prefix → Prefix → Bool
same_prefix a b = is_family a.family b.family && a.network == b.network && a.length == b.length

pub same_prefix_iff : (a b : Prefix) → (same_prefix a b ≡ true) ↔ (a ≡ b)
same_prefix_iff a b =
    ground
      (arith, is_family_iff a.family b.family, ==_iff a.network b.network, ==_iff a.length b.length)

instance abbrev pub prefix_key : Key Prefix
prefix_key = record { same = same_prefix; same_iff = same_prefix_iff }
