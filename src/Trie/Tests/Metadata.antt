-- ===== src/Trie/Tests/Metadata.antt =====
-- Runs of trie/metadata at concrete inputs, and its theorems at some of them.
use Prim.Native.String.{String}
use hammertime.Base.{
  ◌≡◌, refl, none, some, List, [], ◌∷◌, Result, ok, err, invalid_attributes, ◌>>=◌, arith,
  if◌then◌else◌, ltb→lt, ◌^◌,
}
use hammertime.Base.Int.{pos}
use hammertime.Base.Dict.{string_key}
use hammertime.Base.Keys.{total_by}
use hammertime.Core.Address.{ipv4, bit_length}
use hammertime.Core.Address.Same.{address_key}
use hammertime.Core.Prefix.{Prefix}
use hammertime.Trie.HotSet.{at}
use hammertime.Trie.Interface.{binary_trie, binary_trie_laws}
use hammertime.Trie.Combine.{
  tags, bitmask, override, number, Metadata, combine_path, combine, combine_from, combine_checked,
}
use hammertime.Trie.Combine.Values.{combine_at, combine_at_lem}
use hammertime.Trie.Combine.Documents.{combine_all, values_at, combine_path-lookup}
use hammertime.Trie.Local
use hammertime.Trie.Local.{effective}
use hammertime.Trie.Local.Effective
use hammertime.Trie.Local.Effective.{declaring, revoking, clearing, effective-run}
use hammertime.Trie.Records
use hammertime.Trie.Records.{is_recorded, serialized_bytes, text_length}
use hammertime.Trie.Records.Bytes
use hammertime.Trie.Records.Bytes.{recording, discarding, serialized_bytes-run}
use hammertime.Trie.Records.Coupled.{fresh}
use hammertime.Trie.Records.Run
use hammertime.Trie.Records.Run.{added, removed, contains-run}

combine_at_lem_example :
    ((combine_at (some (tags ("lab" ∷ []))) none >>= λ ab. combine_at ab (some (bitmask 5)))
      ≡ (combine_at none (some (bitmask 5)) >>= λ bc. combine_at (some (tags ("lab" ∷ []))) bc))
    × (combine_at none (some (tags ("lab" ∷ []))) ≡ ok (some (tags ("lab" ∷ []))))
    × (combine_at (some (tags ("lab" ∷ []))) none ≡ ok (some (tags ("lab" ∷ []))))
    × (combine_at (some (tags ("lab" ∷ []))) (some (tags ("lab" ∷ [])))
        ≡ ok (some (tags ("lab" ∷ []))))
combine_at_lem_example = combine_at_lem (some (tags ("lab" ∷ []))) none (some (bitmask 5))

-- The documents of 10.0.0.0/8 and of 10.0.0.0/24
abbrev wide : Metadata
wide = ("zone", tags ("internal" ∷ [])) ∷ ("tier", override (number (pos 1))) ∷ []

abbrev narrow : Metadata
narrow = ("tier", override (number (pos 2))) ∷ ("zone", tags ("lab" ∷ [])) ∷ []

abbrev path_result : Metadata
path_result = ("zone", tags ("internal" ∷ "lab" ∷ [])) ∷ ("tier", override (number (pos 2))) ∷ []

path_combined : combine_path (wide ∷ narrow ∷ []) ≡ ok path_result
unfolding combine_path combine_from combine combine_checked
path_combined = refl

combine_path-lookup_example :
    combine_all none (values_at "zone" (wide ∷ narrow ∷ []))
    ≡ ok (some (tags ("internal" ∷ "lab" ∷ [])))
combine_path-lookup_example =
    combine_path-lookup (wide ∷ narrow ∷ []) path_result "zone" refl path_combined

abbrev network_8 : Prefix
network_8 = record { family = ipv4; network = 167772160; length = 8 }

abbrev network_24 : Prefix
network_24 = record { family = ipv4; network = 167772160; length = 24 }

-- The last declaration is refused: on its path the key has another kind.
abbrev calls : List Effective.Call
calls =
    declaring network_8 wide
    ∷ declaring network_24 narrow
    ∷ revoking network_8
    ∷ declaring network_8 (("zone", bitmask 3) ∷ [])
    ∷ []

effective-run_example :
    (metadata : Metadata) × (effective (Effective.run (Local.new ipv4) calls) (at ipv4 167772161)
      ≡ ok metadata)
effective-run_example = effective-run ipv4 calls (at ipv4 167772161) refl refl

-- A validator that refuses one document.
abbrev canonicalize : String → Result String
canonicalize document =
    if string_key.same document "bad" then err invalid_attributes else ok document

abbrev default_text : String
default_text = "{\"attributes_version\":1}"

abbrev writes : List (Bytes.Call canonicalize default_text)
writes =
    recording (at ipv4 1) none (pos 7)
    ∷ recording (at ipv4 2) (some "bad") (pos 1)
    ∷ recording (at ipv4 1) (some "{}") (pos 8)
    ∷ discarding (at ipv4 3)
    ∷ []

serialized_bytes-run_example :
    serialized_bytes (Bytes.run canonicalize default_text (Records.new ipv4) writes)
    ≡ total_by text_length (Bytes.run canonicalize default_text (Records.new ipv4) writes).records
serialized_bytes-run_example = serialized_bytes-run canonicalize default_text ipv4 writes

-- The second addition is refused and the first address becomes COLD again.
abbrev log : List (Run.Step binary_trie binary_trie_laws canonicalize default_text)
log =
    added 167772161 none (pos 120)
    ∷ added 167772162 (some "bad") (pos 120)
    ∷ added 167772163 (some "{}") (pos 130)
    ∷ removed 167772161
    ∷ []

log_in_range :
    Run.AllInRange binary_trie binary_trie_laws canonicalize default_text (bit_length ipv4) log
unfolding bit_length
log_in_range = omega arith

contains-run_example :
    binary_trie.contains
      (Run.run binary_trie binary_trie_laws canonicalize default_text ipv4
        (fresh binary_trie binary_trie_laws ipv4)
        log).trie
      (at ipv4 167772163)
    ≡ ok (
        is_recorded
          (Run.run binary_trie binary_trie_laws canonicalize default_text ipv4
            (fresh binary_trie binary_trie_laws ipv4)
            log).records
          (at ipv4 167772163))
unfolding bit_length
contains-run_example =
    contains-run binary_trie binary_trie_laws canonicalize default_text ipv4 log 167772163
      log_in_range (ltb→lt 167772163 (2 ^ 32) refl)
