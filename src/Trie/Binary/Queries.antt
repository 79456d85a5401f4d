-- ===== src/Trie/Binary/Queries.antt =====
-- trie/structure/node.py and binary_trie.py: the queries of the reference trie that walk one address or
-- the whole trie. An iterator is the list of what it yields.
use hammertime.Base.{
  ℕ, zero, suc, ◌+◌, ◌-◌, ◌*◌, ◌/◌, ◌^◌, ◌≡◌, refl, sym, ap, Bool, true, false, Option, none, some,
  List, [], ◌∷◌, ◌++◌, Result, ok, ◌>>◌, ltb, leb, ◌==◌, if◌then◌else◌, get_or,
}
use hammertime.Core.Address.{AddressFamily, Address, bit_length, bits}
use hammertime.Core.Prefix.{Prefix}
use hammertime.Trie.Binary.{
  TrieNode, absent, node, count_of, child, BinaryTrie, check_family, check_min_length,
}

pub record PrefixCount : Type 0 where
  pub prefix : Prefix
  pub hot_count : ℕ

pub record NodeView : Type 0 where
  pub prefix : Prefix
  pub hot_count : ℕ
  pub children : List Prefix

abbrev pub make_prefix : AddressFamily → ℕ → ℕ → Prefix
make_prefix family network prefix_length = record {
  family = family;
  network = network;
  length = prefix_length;
}

-- `(value >> host_bits) << host_bits`
unfoldable pub prefix_of : AddressFamily → ℕ → ℕ → Prefix
prefix_of family value prefix_length =
    let host_bits = bit_length family - prefix_length in
    make_prefix family (value / 2 ^ host_bits * 2 ^ host_bits) prefix_length

-- The counts of the nodes along some bits, the first node's first.
unfoldable pub counts_along : TrieNode → List Bool → List ℕ
counts_along t [] = count_of t ∷ []
counts_along t (b ∷ bs) = count_of t ∷ counts_along (child t b) bs

-- The comprehension over `range(min_length, bit_length + 1)`: `remaining` lengths from `current` on.
unfoldable pub prefix_counts : AddressFamily → ℕ → List ℕ → ℕ → ℕ → List PrefixCount
unfolding prefix_of
prefix_counts family value counts current zero = []
prefix_counts family value counts current (suc remaining) =
    record { prefix = prefix_of family value current; hot_count = get_or counts current 0 }
    ∷ prefix_counts family value counts (suc current) remaining

unfoldable pub ancestor_counts : BinaryTrie → Address → ℕ → Result (List PrefixCount)
unfolding check_family check_min_length
ancestor_counts trie address min_length = do
  check_family trie address.family
  check_min_length trie min_length
  let counts = counts_along trie.root (bits address)
  ok (
      prefix_counts trie.family address.value counts min_length
        (suc (bit_length trie.family) - min_length))

-- The loop of `longest_matching_prefix`, which a missing node ends.
unfoldable pub longest_below : TrieNode → ℕ → List Bool → Option ℕ → Option ℕ
longest_below t depth [] best = best
longest_below absent depth (b ∷ bs) best = best
longest_below (node c l r) depth (b ∷ bs) best =
    let next = child (node c l r) b in
    longest_below next (suc depth) bs (if ltb 0 (count_of next) then some (suc depth) else best)

-- The prefix of the best length, if there is one.
abbrev pub matched : AddressFamily → ℕ → Option ℕ → Option Prefix
matched family value none = none
matched family value (some best_length) = some (prefix_of family value best_length)

unfoldable pub longest_matching_prefix : BinaryTrie → Address → Result (Option Prefix)
unfolding check_family
longest_matching_prefix trie address = do
  check_family trie address.family
  let best = if ltb 0 (count_of trie.root) then some 0 else none
  ok (matched trie.family address.value (longest_below trie.root 0 (bits address) best))

-- The nodes with their networks and lengths, branch 0 before branch 1; `shift` is the width below.
pub record Visit : Type 0 where
  pub at : TrieNode
  pub network : ℕ
  pub depth : ℕ

-- `network | (1 << shift)`, where the bits below the node's length are 0.
abbrev pub visit_all : ℕ → TrieNode → ℕ → ℕ → List Visit
visit_all width absent network depth = []
visit_all width (node c l r) network depth =
    record { at = node c l r; network = network; depth = depth }
    ∷ (visit_all width l network (suc depth)
        ++ visit_all width r (network + 2 ^ (width - 1 - depth)) (suc depth))

unfoldable pub walk_nodes : BinaryTrie → List Visit
walk_nodes trie = visit_all (bit_length trie.family) trie.root 0 0

abbrev pub counted_prefixes : AddressFamily → ℕ → List Visit → List PrefixCount
counted_prefixes family min_length [] = []
counted_prefixes family min_length (v ∷ visits) =
    let rest = counted_prefixes family min_length visits in
    if ltb 0 (count_of v.at)
    then (if leb min_length v.depth
        then record { prefix = make_prefix family v.network v.depth; hot_count = count_of v.at }
          ∷ rest
        else rest)
    else rest

unfoldable pub iter_prefix_counts : BinaryTrie → ℕ → Result (List PrefixCount)
unfolding check_min_length walk_nodes
iter_prefix_counts trie min_length = do
  check_min_length trie min_length
  ok (counted_prefixes trie.family min_length (walk_nodes trie))

abbrev pub leaves : AddressFamily → List Visit → List Address
leaves family [] = []
leaves family (v ∷ visits) =
    let rest = leaves family visits in
    if v.depth == bit_length family
    then record { family = family; value = v.network } ∷ rest
    else rest

unfoldable pub iter_hot_addresses : BinaryTrie → List Address
unfolding walk_nodes
iter_hot_addresses trie = leaves trie.family (walk_nodes trie)

abbrev pub child_prefix : AddressFamily → TrieNode → ℕ → ℕ → List Prefix
child_prefix family absent network depth = []
child_prefix family (node c l r) network depth = make_prefix family network depth ∷ []

abbrev pub view : AddressFamily → Visit → NodeView
view family v = record {
  prefix = make_prefix family v.network v.depth;
  hot_count = count_of v.at;
  children =
      child_prefix family (child v.at false) v.network (suc v.depth)
      ++ child_prefix family (child v.at true) (v.network + 2 ^ (bit_length family - 1 - v.depth))
          (suc v.depth);
}

abbrev pub views : AddressFamily → List Visit → List NodeView
views family [] = []
views family (v ∷ visits) = view family v ∷ views family visits

unfoldable pub iter_nodes : BinaryTrie → List NodeView
unfolding walk_nodes
iter_nodes trie = views trie.family (walk_nodes trie)

-- The greatest length with a positive count, where the first count is that of length `depth`.
abbrev pub last_positive : ℕ → List ℕ → Option ℕ → Option ℕ
last_positive depth [] best = best
last_positive depth (c ∷ counts) best =
    last_positive (suc depth) counts (if ltb 0 c then some depth else best)

last_positive-absent :
    (depth : ℕ) (bs : List Bool) (best : Option ℕ)
    → last_positive depth (counts_along absent bs) best ≡ best
unfolding counts_along
last_positive-absent depth [] best = refl
last_positive-absent depth (b ∷ bs) best = last_positive-absent (suc depth) bs best

longest_below-counts :
    (t : TrieNode) (depth : ℕ) (bs : List Bool) (best : Option ℕ)
    → longest_below t depth bs (if ltb 0 (count_of t) then some depth else best)
      ≡ last_positive depth (counts_along t bs) best
unfolding counts_along longest_below
longest_below-counts t depth [] best = refl
longest_below-counts absent depth (b ∷ bs) best = sym (last_positive-absent (suc depth) bs best)
longest_below-counts (node c l r) depth (b ∷ bs) best =
    longest_below-counts (child (node c l r) b) (suc depth) bs
      (if ltb 0 c then some depth else best)

-- The two walks agree: for an address of the trie's family, the longest matching prefix has the
-- greatest length whose count along the address is positive, even where its loop ends early.
pub longest-last_positive :
    (trie : BinaryTrie) (address : Address)
    → check_family trie address.family ≡ ok tt
    → longest_matching_prefix trie address
      ≡ ok (
          matched trie.family address.value
            (last_positive 0 (counts_along trie.root (bits address)) none))
unfolding longest_matching_prefix
longest-last_positive trie address h = rw h (
    ap (λ (o : Option ℕ). ok (matched trie.family address.value o))
      (longest_below-counts trie.root 0 (bits address) none))
