-- ===== src/Bus/Topics.antt =====
-- bus/topics.py: the partition of a key, which is the list of its bytes. The registry and the descriptions
-- of its topics are left out.
pub mod Bounds
pub mod Subjects
pub mod Canonical
use Prim.Native.Char.{Char, code}
use Prim.Native.Nat.{bit_xor}
use Prim.Native.String.{String, ◌++◌}
use hammertime.Base.{
  ℕ, ◌*◌, ◌%◌, Bool, true, false, not, ◌||◌, Option, none, some, List, [], ◌∷◌, Result, ok, err,
  value_error, raise_if, ◌>>◌, leb, ltb, ◌==◌, if◌then◌else◌,
}
use hammertime.Base.Int.{ℤ, pos, negsuc, is_negative, pos_part}
use hammertime.Base.Dict.{Key, string_key}

abbrev pub fnv1a_32_offset_basis : ℕ
fnv1a_32_offset_basis = 2166136261

abbrev pub fnv1a_32_prime : ℕ
fnv1a_32_prime = 16777619

-- `& 0xFFFFFFFF` is `% 2 ^ 32`.
abbrev pub uint32 : ℕ
uint32 = 4294967296

-- The loop over the bytes
unfoldable pub digest_of : ℕ → List ℕ → ℕ
digest_of digest [] = digest
digest_of digest (byte ∷ bytes) = digest_of (bit_xor digest byte * fnv1a_32_prime % uint32) bytes

-- `partitions < 1`
abbrev pub is_not_positive : ℤ → Bool
is_not_positive (pos n) = ltb n 1
is_not_positive (negsuc n) = true

unfoldable pub partition_for : List ℕ → ℤ → Result ℕ
partition_for key partitions = do
  raise_if (is_not_positive partitions) value_error
  ok (digest_of fnv1a_32_offset_basis key % pos_part partitions)
