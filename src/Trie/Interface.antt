-- ===== src/Trie/Interface.antt =====
-- trie/structure/node.py: what the service asks of a trie of one family, as a record of operations, and
-- what a trie that keeps to it stands for: a set of HOT values.
use hammertime.Base.{ℕ, ◌^◌, ◌<◌, ◌≡◌, refl, Bool, not, List, [], Result, ok}
use hammertime.Core.Address.{AddressFamily, Address, bit_length}
use hammertime.Core.Prefix.{Prefix}
use hammertime.Trie.HotSet.{HotSet, mem, without, insert, at}
use hammertime.Trie.Binary
use hammertime.Trie.Binary.{BinaryTrie}
use hammertime.Trie.Binary.Queries
use hammertime.Trie.Binary.Queries.{PrefixCount}
use hammertime.Trie.Binary.Refine.{
  Refines, new-Refines, contains-Refines, add_hot_ip-Refines, remove_hot_ip-Refines,
}
use hammertime.Trie.Binary.Run.{family-add_hot_ip, family-remove_hot_ip}

pub record HotTrie (T : Type 0) : Type 0 where
  pub create : AddressFamily → T
  pub family : T → AddressFamily
  pub contains : T → Address → Result Bool
  pub add_hot_ip : T → Address → Result (T × Bool)
  pub remove_hot_ip : T → Address → Result (T × Bool)
  pub hot_count : T → Prefix → Result ℕ
  pub ancestor_counts : T → Address → ℕ → Result (List PrefixCount)

-- What the implementations are to keep to, where `Holds t hot` says that `t` stands for the set `hot`.
pub record Laws {T : Type 0} (trie : HotTrie T) : Type 1 where
  pub Holds : T → HotSet → Type 0
  pub create_lem : (family : AddressFamily) → Holds (trie.create family) []
  pub family_lem : (family : AddressFamily) → trie.family (trie.create family) ≡ family
  pub contains_lem :
      (t : T) (hot : HotSet) (v : ℕ)
      → Holds t hot
      → v < 2 ^ bit_length (trie.family t)
      → trie.contains t (at (trie.family t) v) ≡ ok (mem v hot)
  pub add_lem :
      (t : T) (hot : HotSet) (v : ℕ)
      → Holds t hot
      → v < 2 ^ bit_length (trie.family t)
      → (t' : T) × (trie.add_hot_ip t (at (trie.family t) v) ≡ ok (t', not (mem v hot)))
        × Holds t' (insert v hot)
        × (trie.family t' ≡ trie.family t)
  pub remove_lem :
      (t : T) (hot : HotSet) (v : ℕ)
      → Holds t hot
      → v < 2 ^ bit_length (trie.family t)
      → (t' : T) × (trie.remove_hot_ip t (at (trie.family t) v) ≡ ok (t', mem v hot))
        × Holds t' (without v hot)
        × (trie.family t' ≡ trie.family t)

abbrev pub binary_trie : HotTrie BinaryTrie
binary_trie = record {
  create = Binary.new;
  family = λ t. t.family;
  contains = Binary.contains;
  add_hot_ip = Binary.add_hot_ip;
  remove_hot_ip = Binary.remove_hot_ip;
  hot_count = Binary.hot_count;
  ancestor_counts = Queries.ancestor_counts;
}

family_new : (family : AddressFamily) → (Binary.new family).family ≡ family
unfolding Binary.new
family_new family = refl

pub binary_trie_laws : Laws binary_trie
binary_trie_laws = record {
  Holds = Refines;
  create_lem = new-Refines;
  family_lem = family_new;
  contains_lem = λ t hot v r fits. contains-Refines t hot r v fits;
  add_lem = λ t hot v r fits.
      let (t', e, r') = add_hot_ip-Refines t hot r v fits in
      (t', e, r', family-add_hot_ip t t' _ _ e);
  remove_lem = λ t hot v r fits.
      let (t', e, r') = remove_hot_ip-Refines t hot r v fits in
      (t', e, r', family-remove_hot_ip t t' _ _ e);
}
