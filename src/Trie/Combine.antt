-- ===== src/Trie/Combine.antt =====
-- trie/metadata/combine.py: the metadata values, how they combine along a path, and the counts that go
-- up. A set of tags lists each name once, a document is a dictionary of its keys, and the checks of
-- Python types are the types here. `Fraction` is Core.Config's ratio; its narrowing to a float is left
-- out.
pub mod Values
pub mod Documents
use Prim.Native.String.{String}
use Prim.Native.Nat.{bit_or}
use hammertime.Base.{
  ℕ, ◌+◌, Bool, true, false, not, ◌||◌, Option, none, some, List, [], ◌∷◌, ◌++◌, Result, ok, err,
  value_error, raise_if, ◌>>=◌, ◌>>◌, ltb, if◌then◌else◌,
}
use hammertime.Base.Int.{ℤ, is_negative, pos_part}
use hammertime.Base.Dict.{Key, is_in, lookup, put, string_key}
use hammertime.Core.Config.{Ratio}
use hammertime.Core.Address.{Address, is_family}
use hammertime.Core.Prefix
use hammertime.Core.Prefix.{Prefix}
use hammertime.Trie.Binary.Queries.{PrefixCount}
use hammertime.Trie.Interface.{HotTrie}

pub data OverrideValue : Type 0 where
  text : String → OverrideValue
  number : ℤ → OverrideValue
  flag : Bool → OverrideValue

pub data MetadataValue : Type 0 where
  tags : List String → MetadataValue
  bitmask : ℕ → MetadataValue
  override : OverrideValue → MetadataValue

pub data Kind : Type 0 where
  tags_kind bitmask_kind override_kind : Kind

-- `Bitmask(bits)` of an integer
unfoldable pub bitmask_post_init : ℤ → Result MetadataValue
bitmask_post_init bits = do raise_if (is_negative bits) value_error; ok (bitmask (pos_part bits))

abbrev pub kind : MetadataValue → Kind
kind (tags names) = tags_kind
kind (bitmask bits) = bitmask_kind
kind (override value) = override_kind

-- `a is b`
abbrev pub is_kind : Kind → Kind → Bool
is_kind tags_kind tags_kind = true
is_kind bitmask_kind bitmask_kind = true
is_kind override_kind override_kind = true
is_kind _ _ = false

-- The names of the second set that the first does not have.
abbrev pub missing : List String → List String → List String
missing names [] = []
missing names (name ∷ others) =
    let rest = missing names others in if is_in name names then rest else name ∷ rest

abbrev pub union : List String → List String → List String
union names others = names ++ missing names others

-- The rule of each kind; two kinds do not combine.
unfoldable pub combine_checked : MetadataValue → MetadataValue → Result MetadataValue
combine_checked (tags a) (tags b) = ok (tags (union a b))
combine_checked (bitmask a) (bitmask b) = ok (bitmask (bit_or a b))
combine_checked (override a) (override b) = ok (override b)
combine_checked _ _ = err value_error

unfoldable pub combine_values : MetadataValue → MetadataValue → Result MetadataValue
combine_values less_specific more_specific = combine_checked less_specific more_specific

abbrev pub Metadata : Type 0
Metadata = List (String × MetadataValue)

abbrev pub empty_metadata : Metadata
empty_metadata = []

-- The loop of `combine`: `result` takes the items of the more specific document one by one.
abbrev pub combined : Option MetadataValue → MetadataValue → Result MetadataValue
combined none value = ok value
combined (some present) value = combine_checked present value

unfoldable pub combine : Metadata → Metadata → Result Metadata
combine result [] = ok result
combine result ((key, value) ∷ items) = do
  next ← combined (lookup key result) value
  combine (put key next result) items

-- The loop of `combine_path`, from a result on.
unfoldable pub combine_from : Metadata → List Metadata → Result Metadata
combine_from result [] = ok result
combine_from result (document ∷ documents) = do
  next ← combine result document
  combine_from next documents

unfoldable pub combine_path : List Metadata → Result Metadata
combine_path documents = combine_from empty_metadata documents

pub record PrefixStats : Type 0 where
  pub prefix : Prefix
  pub hot_count : ℕ

unfoldable pub stats_post_init : Prefix → ℤ → Result PrefixStats
stats_post_init prefix hot_count = do
  raise_if (is_negative hot_count) value_error
  ok (record { prefix = prefix; hot_count = pos_part hot_count })

unfoldable pub capacity : PrefixStats → ℕ
capacity stats = Prefix.capacity stats.prefix

unfoldable pub hot_ratio_exact : PrefixStats → Ratio
hot_ratio_exact stats = Prefix.hot_ratio stats.prefix stats.hot_count

unfoldable pub within : Prefix → Prefix → Bool
within inner outer =
    if not (is_family inner.family outer.family) || ltb inner.length outer.length
    then false
    else Prefix.contains outer (record { family = inner.family; value = inner.network })

-- The loop of `aggregate`, with the total so far.
unfoldable pub total_of : Prefix → ℕ → List PrefixStats → Result ℕ
total_of parent total [] = ok total
total_of parent total (part ∷ parts) = do
  raise_if (not (within part.prefix parent)) value_error
  total_of parent (total + part.hot_count) parts

unfoldable pub aggregate : Prefix → List PrefixStats → Result PrefixStats
aggregate parent parts = do
  total ← total_of parent 0 parts
  ok (record { prefix = parent; hot_count = total })

abbrev pub stats_of : List PrefixCount → List PrefixStats
stats_of [] = []
stats_of (entry ∷ entries) =
    record { prefix = entry.prefix; hot_count = entry.hot_count } ∷ stats_of entries

module _ {T : Type 0} (hot_trie : HotTrie T) where
  unfoldable pub prefix_stats : T → Prefix → Result PrefixStats
  prefix_stats trie prefix = do
    count ← hot_trie.hot_count trie prefix
    ok (record { prefix = prefix; hot_count = count })

  unfoldable pub ancestor_stats : T → Address → ℕ → Result (List PrefixStats)
  ancestor_stats trie address min_length = do
    entries ← hot_trie.ancestor_counts trie address min_length
    ok (stats_of entries)
