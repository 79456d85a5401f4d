-- ===== src/Trie/Records.antt =====
-- trie/metadata/ip_attributes.py: the attribute records of one family, and the steps that move a trie and
-- its records together. A document is of any type, and `canonicalize` is core/events/attributes.py's
-- validator, which returns its text or raises; `default_text` is that of the default document. A read
-- hands out the stored text, which the source decodes afresh. A family's pair is state.py's `FamilyState`.
pub mod Bytes
pub mod Coupled
pub mod Run
use Prim.Native.String.{String, count}
use hammertime.Base.{
  ℕ, ◌+◌, ◌-◌, Bool, true, false, not, ◌&&◌, Option, none, some, List, [], ◌∷◌, Result, ok, err,
  key_error, value_error, raise_if, ◌>>=◌, ◌>>◌, length,
}
use hammertime.Base.Int.{ℤ, is_negative, pos_part}
use hammertime.Base.Dict.{Key, lookup, put, erase}
use hammertime.Base.Keys.{measure_at}
use hammertime.Core.Address.{AddressFamily, Address, is_family}
use hammertime.Core.Address.Same.{address_key}
use hammertime.Trie.Interface.{HotTrie}

pub record IpRecord : Type 0 where
  pub attributes : String
  pub request_count : ℕ

pub record IpAttributeRecords : Type 0 where
  pub family : AddressFamily
  pub records : List (Address × IpRecord)
  pub bytes : ℕ

pub record FamilyState (T : Type 0) : Type 0 where
  pub trie : T
  pub records : IpAttributeRecords

unfoldable pub new : AddressFamily → IpAttributeRecords
new family = record { family = family; records = []; bytes = 0 }

-- `len(text)`
abbrev pub text_length : IpRecord → ℕ
text_length r = count r.attributes

unfoldable pub serialized_bytes : IpAttributeRecords → ℕ
serialized_bytes rs = rs.bytes

unfoldable pub check_family : IpAttributeRecords → AddressFamily → Result (Unit {0})
check_family rs family = raise_if (not (is_family family rs.family)) value_error

unfoldable pub check_request_count : ℤ → Result (Unit {0})
check_request_count request_count = raise_if (is_negative request_count) value_error

-- The sum is taken before the difference, which for integers is the same.
unfoldable pub commit : IpAttributeRecords → Address → String → ℕ → IpAttributeRecords
commit rs address text request_count =
    let previous = measure_at text_length (lookup address rs.records) in
    record rs {
      records =
          put address (record { attributes = text; request_count = request_count }) rs.records;
      bytes = rs.bytes + count text - previous;
    }

abbrev pub is_recorded : IpAttributeRecords → Address → Bool
is_recorded rs address = elim (lookup address rs.records) [ none ↦ false | some r ↦ true ]

abbrev pub popped : IpAttributeRecords → Address → IpAttributeRecords
popped rs address = record rs {
  records = erase address rs.records;
  bytes = rs.bytes - measure_at text_length (lookup address rs.records);
}

unfoldable pub discard : IpAttributeRecords → Address → Result (IpAttributeRecords × Bool)
discard rs address = do
  check_family rs address.family
  ok (popped rs address, is_recorded rs address)

unfoldable pub clear : IpAttributeRecords → IpAttributeRecords
clear rs = record rs { records = []; bytes = 0 }

unfoldable pub getitem : IpAttributeRecords → Address → Result IpRecord
getitem rs address = do
  check_family rs address.family
  elim (lookup address rs.records) [ none ↦ err key_error | some r ↦ ok r ]

unfoldable pub contains : IpAttributeRecords → Address → Result Bool
contains rs address = do check_family rs address.family; ok (is_recorded rs address)

unfoldable pub len : IpAttributeRecords → ℕ
len rs = length rs.records

module _ {T : Type 0} (hot_trie : HotTrie T) where
  unfoldable pub check_families : FamilyState T → Address → Result (Unit {0})
  check_families fs address =
      raise_if
        (not (
          is_family (hot_trie.family fs.trie) fs.records.family
          && is_family fs.records.family address.family))
        value_error

  unfoldable pub apply_hot_ip_removed : FamilyState T → Address → Result (FamilyState T × Bool)
  apply_hot_ip_removed fs address = do
    check_families fs address
    (trie, changed) ← hot_trie.remove_hot_ip fs.trie address
    (records, found) ← discard fs.records address
    ok (record { trie = trie; records = records }, changed)

module _ {Attributes : Type 0} (canonicalize : Attributes → Result String)
    (default_text : String) where
  unfoldable pub prepare : Option Attributes → Result String
  prepare none = ok default_text
  prepare (some attributes) = canonicalize attributes

  unfoldable pub record_ip :
      IpAttributeRecords → Address → Option Attributes → ℤ → Result IpAttributeRecords
  record_ip rs address attributes request_count = do
    check_family rs address.family
    check_request_count request_count
    text ← prepare attributes
    ok (commit rs address text (pos_part request_count))

  module _ {T : Type 0} (hot_trie : HotTrie T) where
    unfoldable pub apply_hot_ip_added :
        FamilyState T → Address → Option Attributes → ℤ → Result (FamilyState T × Bool)
    apply_hot_ip_added fs address attributes request_count = do
      check_families hot_trie fs address
      check_request_count request_count
      prepared ← prepare attributes
      (trie, changed) ← hot_trie.add_hot_ip fs.trie address
      ok (
        record {
          trie = trie;
          records = commit fs.records address prepared (pos_part request_count);
        },
        changed,
      )
