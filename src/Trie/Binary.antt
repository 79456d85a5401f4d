-- ===== src/Trie/Binary.antt =====
-- trie/structure/node.py and binary_trie.py: the reference trie, one node for each bit.
-- The nodes of a trie are reached only through it, so a node that is changed in place is a new tree.
-- `absent` stands for a child reference that is `None`.
pub mod Counts
pub mod Queries
pub mod Shape
pub mod Removal
pub mod Refine
pub mod Run
use hammertime.Base.{
  ℕ, zero, suc, ◌+◌, ◌-◌, ◌*◌, ◌/◌, ◌^◌, ◌≤◌, Bool, true, false, not, Option, none, some, List, [],
  ◌∷◌, Result, ok, err, value_error, assertion_error, raise_if, ◌>>=◌, ◌>>◌, ltb, leb, ◌==◌,
  if◌then◌else◌, length,
}
use hammertime.Core.Address.{AddressFamily, Address, bit_length, is_family, bits, bit}
use hammertime.Core.Address.Bits.{top_bits}
use hammertime.Core.Prefix.{Prefix}

pub data TrieNode : Type 0 where
  absent : TrieNode
  node : ℕ → TrieNode → TrieNode → TrieNode

-- `0 if node is None else node.hot_count`
abbrev pub count_of : TrieNode → ℕ
count_of absent = 0
count_of (node c l r) = c

-- `node.child[bit]`, or `None` below `None`
abbrev pub child : TrieNode → Bool → TrieNode
child absent b = absent
child (node c l r) true = r
child (node c l r) false = l

-- The walk by child links along some bits.
unfoldable pub walk : TrieNode → List Bool → TrieNode
walk t [] = t
walk t (b ∷ bs) = walk (child t b) bs

-- The loop of `add_hot_ip`: every visited node counts one more, and a missing one is created. The
-- result is the new tree and how many nodes were created.
unfoldable pub add_path : TrieNode → List Bool → TrieNode × ℕ
add_path absent [] = (node 1 absent absent, 1)
add_path (node c l r) [] = (node (c + 1) l r, 0)
add_path absent (false ∷ bs) =
    let (t, created) = add_path absent bs in (node 1 t absent, created + 1)
add_path absent (true ∷ bs) =
    let (t, created) = add_path absent bs in (node 1 absent t, created + 1)
add_path (node c l r) (false ∷ bs) = let (t, created) = add_path l bs in (node (c + 1) t r, created)
add_path (node c l r) (true ∷ bs) = let (t, created) = add_path r bs in (node (c + 1) l t, created)

-- The loop of `remove_hot_ip`: every visited node counts one less, and the first one that this
-- empties is detached with all that is below it. The result is the new tree and how far the node
-- count falls, `bit_length - depth + 1` for a node that is detached at `depth`.
unfoldable pub remove_path : TrieNode → List Bool → Result (TrieNode × ℕ)
remove_path absent bs = err assertion_error
remove_path (node c l r) [] = if c == 1 then ok (absent, 1) else ok (node (c - 1) l r, 0)
remove_path (node c l r) (false ∷ bs) =
    let rest = remove_path l bs in
    if c == 1
    then ok (absent, length bs + 2)
    else (do (t, removed) ← rest; ok (node (c - 1) t r, removed))
remove_path (node c l r) (true ∷ bs) =
    let rest = remove_path r bs in
    if c == 1
    then ok (absent, length bs + 2)
    else (do (t, removed) ← rest; ok (node (c - 1) l t, removed))

pub record BinaryTrie : Type 0 where
  pub family : AddressFamily
  pub root : TrieNode
  pub node_count : ℕ

unfoldable pub new : AddressFamily → BinaryTrie
new family = record { family = family; root = absent; node_count = 0 }

unfoldable pub check_family : BinaryTrie → AddressFamily → Result (Unit {0})
check_family trie family = raise_if (not (is_family family trie.family)) value_error

unfoldable pub check_min_length : BinaryTrie → ℕ → Result (Unit {0})
check_min_length trie min_length = raise_if (ltb (bit_length trie.family) min_length) value_error

unfoldable pub hot_ip_count : BinaryTrie → ℕ
hot_ip_count trie = count_of trie.root

-- `node is not None and node.hot_count == 1`
unfoldable pub contains : BinaryTrie → Address → Result Bool
unfolding check_family walk
contains trie address = do
  check_family trie address.family
  ok (count_of (walk trie.root (bits address)) == 1)

unfoldable pub add_hot_ip : BinaryTrie → Address → Result (BinaryTrie × Bool)
unfolding check_family
add_hot_ip trie address = do
  check_family trie address.family
  present ← contains trie address
  if present
      then ok (trie, false)
      else (let (root, created) = add_path trie.root (bits address) in
          ok (record trie { root = root; node_count = trie.node_count + created }, true))

unfoldable pub remove_hot_ip : BinaryTrie → Address → Result (BinaryTrie × Bool)
unfolding check_family
remove_hot_ip trie address = do
  check_family trie address.family
  present ← contains trie address
  if not present then ok (trie, false) else do
    (root, removed) ← remove_path trie.root (bits address)
    ok (record trie { root = root; node_count = trie.node_count - removed }, true)

unfoldable pub clear : BinaryTrie → BinaryTrie
clear trie = record trie { root = absent; node_count = 0 }

unfoldable pub hot_count : BinaryTrie → Prefix → Result ℕ
unfolding check_family walk
hot_count trie prefix = do
  check_family trie prefix.family
  ok (count_of (walk trie.root (top_bits (bit_length trie.family) prefix.length prefix.network)))
