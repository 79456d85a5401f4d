-- ===== src/Trie/Records/Bytes.antt =====
-- trie/metadata/ip_attributes.py: the sum of the texts' lengths, after any calls.
use Prim.Native.String.{String}
use hammertime.Base.{
  ℕ, ◌≡◌, refl, Bool, true, Option, List, [], ◌∷◌, Result, ok, err, Result-cases, inl, inr, arith,
}
use hammertime.Base.Int.{ℤ, pos_part}
use hammertime.Base.Keys.{
  is_dict, is_dict-put, is_dict-erase, total_by, total_by-put, total_by-erase,
}
use hammertime.Core.Address.{AddressFamily, Address}
use hammertime.Core.Address.Same.{address_key}
use hammertime.Trie.Records.{
  IpRecord, IpAttributeRecords, new, text_length, serialized_bytes, commit, popped, discard, clear,
  record_ip, check_family, check_request_count, prepare,
}

-- The byte total is that of the stored texts, of which an address has one at most.
pub record IsValid (rs : IpAttributeRecords) : Type 0 where
  pub total : rs.bytes ≡ total_by text_length rs.records
  pub distinct : is_dict rs.records ≡ true

new-IsValid : (family : AddressFamily) → IsValid (new family)
unfolding new
new-IsValid family = record { total = refl; distinct = refl }

clear-IsValid : (rs : IpAttributeRecords) → IsValid (clear rs)
unfolding clear
clear-IsValid rs = record { total = refl; distinct = refl }

commit-IsValid :
    (rs : IpAttributeRecords) (address : Address) (text : String) (n : ℕ)
    → IsValid rs
    → IsValid (commit rs address text n)
unfolding commit
commit-IsValid rs address text n v =
    let r : IpRecord = record { attributes = text; request_count = n } in
    record {
      total = omega (arith, v.total, total_by-put text_length address r rs.records);
      distinct = is_dict-put address r rs.records v.distinct;
    }

popped-IsValid :
    (rs : IpAttributeRecords) (address : Address) → IsValid rs → IsValid (popped rs address)
popped-IsValid rs address v = record {
  total = omega (arith, v.total, total_by-erase text_length address rs.records v.distinct);
  distinct = is_dict-erase address rs.records v.distinct;
}

module _ {Attributes : Type 0} (canonicalize : Attributes → Result String)
    (default_text : String) where
  -- The calls that change a map of records.
  pub data Call : Type 0 where
    recording : Address → Option Attributes → ℤ → Call
    discarding : Address → Call
    clearing : Call

  -- A call that is refused leaves the map as it was.
  abbrev pub kept : IpAttributeRecords → Result IpAttributeRecords → IpAttributeRecords
  kept rs (ok next) = next
  kept rs (err e) = rs

  abbrev pub discarded :
      IpAttributeRecords → Result (IpAttributeRecords × Bool) → IpAttributeRecords
  discarded rs (ok (next, found)) = next
  discarded rs (err e) = rs

  abbrev pub step : IpAttributeRecords → Call → IpAttributeRecords
  step rs (recording address attributes n) =
      kept rs (record_ip canonicalize default_text rs address attributes n)
  step rs (discarding address) = discarded rs (discard rs address)
  step rs clearing = clear rs

  abbrev pub run : IpAttributeRecords → List Call → IpAttributeRecords
  run rs [] = rs
  run rs (call ∷ calls) = run (step rs call) calls

  recorded-IsValid :
      (rs : IpAttributeRecords) (address : Address) (attributes : Option Attributes) (n : ℤ)
      → IsValid rs
      → IsValid (kept rs (record_ip canonicalize default_text rs address attributes n))
  unfolding record_ip
  recorded-IsValid rs address attributes n v =
      elim (Result-cases (check_family rs address.family)) [
        | inr (x, f) ↦ rw f v
        | inl (tt, f) ↦ elim (Result-cases (check_request_count n)) [
          | inr (x, g) ↦ rw (f, g) v
          | inl (tt, g) ↦ elim (Result-cases (prepare canonicalize default_text attributes)) [
            | inr (x, h) ↦ rw (f, g, h) v
            | inl (text, h) ↦ rw (f, g, h) (commit-IsValid rs address text (pos_part n) v)
          ]
        ]
      ]

  discarded-IsValid :
      (rs : IpAttributeRecords) (address : Address)
      → IsValid rs
      → IsValid (discarded rs (discard rs address))
  unfolding discard
  discarded-IsValid rs address v = elim (Result-cases (check_family rs address.family)) [
    | inr (x, f) ↦ rw f v
    | inl (tt, f) ↦ rw f (popped-IsValid rs address v)
  ]

  run-IsValid : (calls : List Call) (rs : IpAttributeRecords) → IsValid rs → IsValid (run rs calls)
  run-IsValid [] rs v = v
  run-IsValid (recording address attributes n ∷ calls) rs v =
      run-IsValid calls (step rs (recording address attributes n))
        (recorded-IsValid rs address attributes n v)
  run-IsValid (discarding address ∷ calls) rs v =
      run-IsValid calls (step rs (discarding address)) (discarded-IsValid rs address v)
  run-IsValid (clearing ∷ calls) rs v = run-IsValid calls (clear rs) (clear-IsValid rs)

  -- Whatever is recorded, discarded and cleared, and whichever of the calls are refused, the byte total
  -- that is kept along is the sum of the lengths of the texts that are stored.
  pub serialized_bytes-run :
      (family : AddressFamily) (calls : List Call)
      → serialized_bytes (run (new family) calls)
        ≡ total_by text_length (run (new family) calls).records
  unfolding serialized_bytes
  serialized_bytes-run family calls = (run-IsValid calls (new family) (new-IsValid family)).total
