-- ===== src/Trie/Local.antt =====
-- trie/metadata/local.py: metadata kept by the prefix on which it is declared, for one family. What is
-- not a prefix is no argument here.
pub mod Consistent
pub mod Effective
use Prim.Native.String.{String}
use hammertime.Base.{
  ℕ, zero, suc, ◌-◌, ◌/◌, ◌^◌, Bool, true, false, not, ◌&&◌, ◌||◌, Option, none, some, List, [],
  ◌∷◌, Result, ok, value_error, raise_if, ◌>>◌, ltb, ◌==◌, if◌then◌else◌, length,
}
use hammertime.Base.Dict.{Key, value_or, lookup, put, erase, string_key}
use hammertime.Core.Address.{AddressFamily, Address, bit_length, is_family}
use hammertime.Core.Prefix.{Prefix}
use hammertime.Core.Prefix.Same.{prefix_key}
use hammertime.Trie.Binary.Queries.{prefix_of}
use hammertime.Trie.Combine.{MetadataValue, Metadata, kind, is_kind, empty_metadata, combine_path}

pub record PrefixMetadataStore : Type 0 where
  pub family : AddressFamily
  pub declarations : List (Prefix × Metadata)

unfoldable pub new : AddressFamily → PrefixMetadataStore
new family = record { family = family; declarations = [] }

unfoldable pub check_family : PrefixMetadataStore → AddressFamily → Result (Unit {0})
check_family store family = raise_if (not (is_family family store.family)) value_error

unfoldable pub covers : Prefix → Prefix → Bool
covers outer inner =
    if ltb inner.length outer.length
    then false
    else (let shift = bit_length outer.family - outer.length in
        outer.network / 2 ^ shift == inner.network / 2 ^ shift)

-- Whether some key of a document has another kind in a declared one.
unfoldable pub clashes : Metadata → Metadata → Bool
clashes declared [] = false
clashes declared ((key, value) ∷ items) =
    let rest = clashes declared items in
    elim (lookup key declared) [
      | none ↦ rest
      | some present ↦ if is_kind (kind present) (kind value) then rest else true
    ]

-- The loop of `_check_path` over the declarations.
unfoldable pub check_path : Prefix → Metadata → List (Prefix × Metadata) → Result (Unit {0})
check_path prefix document [] = ok tt
check_path prefix document ((other, declared) ∷ declarations) =
    let rest = check_path prefix document declarations in
    if prefix_key.same other prefix || not (covers other prefix || covers prefix other)
    then rest
    else (do raise_if (clashes declared document) value_error; rest)

unfoldable pub declare : PrefixMetadataStore → Prefix → Metadata → Result PrefixMetadataStore
declare store prefix metadata = do
  check_family store prefix.family
  check_path prefix metadata store.declarations
  ok (record store { declarations = put prefix metadata store.declarations })

unfoldable pub is_declared : PrefixMetadataStore → Prefix → Bool
is_declared store prefix = elim (lookup prefix store.declarations) [ none ↦ false | some m ↦ true ]

unfoldable pub revoke : PrefixMetadataStore → Prefix → Result (PrefixMetadataStore × Bool)
revoke store prefix = do
  check_family store prefix.family
  ok (record store { declarations = erase prefix store.declarations }, is_declared store prefix)

unfoldable pub clear : PrefixMetadataStore → PrefixMetadataStore
clear store = record store { declarations = [] }

unfoldable pub local : PrefixMetadataStore → Prefix → Result Metadata
local store prefix = do
  check_family store prefix.family
  ok (value_or empty_metadata (lookup prefix store.declarations))

-- The loop of `_fold` over a number of lengths, from one on: what is declared on the path.
unfoldable pub path_from : List (Prefix × Metadata) → AddressFamily → ℕ → ℕ → ℕ → List Metadata
path_from declarations family network current zero = []
path_from declarations family network current (suc remaining) =
    let rest = path_from declarations family network (suc current) remaining in
    elim (lookup (prefix_of family network current) declarations) [
      | none ↦ rest
      | some declared ↦ declared ∷ rest
    ]

-- `count` is `through_length + 1`.
unfoldable pub fold : PrefixMetadataStore → ℕ → ℕ → Result Metadata
fold store network count = elim store.declarations [
  | [] ↦ ok empty_metadata
  | _ ∷ _ ↦ combine_path (path_from store.declarations store.family network 0 count)
]

unfoldable pub inherited : PrefixMetadataStore → Prefix → Result Metadata
inherited store prefix = do
  check_family store prefix.family
  fold store prefix.network prefix.length

unfoldable pub effective_for_prefix : PrefixMetadataStore → Prefix → Result Metadata
effective_for_prefix store prefix = do
  check_family store prefix.family
  fold store prefix.network (suc prefix.length)

unfoldable pub effective : PrefixMetadataStore → Address → Result Metadata
effective store address = do
  check_family store address.family
  fold store address.value (suc (bit_length address.family))

-- `sorted` by length, then network: a stable insertion.
abbrev pub is_before : Prefix → Prefix → Bool
is_before p q = ltb p.length q.length || (p.length == q.length && ltb p.network q.network)

abbrev pub insert_sorted : Prefix × Metadata → List (Prefix × Metadata) → List (Prefix × Metadata)
insert_sorted item [] = item ∷ []
insert_sorted item (other ∷ others) =
    let rest = insert_sorted item others in
    if is_before other.0 item.0 then other ∷ rest else item ∷ other ∷ others

abbrev pub sorted : List (Prefix × Metadata) → List (Prefix × Metadata)
sorted [] = []
sorted (item ∷ items) = insert_sorted item (sorted items)

unfoldable pub declarations_of : PrefixMetadataStore → List (Prefix × Metadata)
declarations_of store = sorted store.declarations

unfoldable pub len : PrefixMetadataStore → ℕ
len store = length store.declarations

unfoldable pub contains : PrefixMetadataStore → Prefix → Result Bool
contains store prefix = do check_family store prefix.family; ok (is_declared store prefix)
