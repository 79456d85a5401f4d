-- ===== src/Trie/Arena.antt =====
-- trie/structure/arena.py, `NodeArena`: node records addressed by integer ids, and the free list. A
-- released slot's length is -1 (`ℤ`, `negsuc 0`). The two children of a node stand in one list,
-- at twice its id and one after. `free_ids` has its last entry, the next id handed out, in front.
pub mod Free
use hammertime.Base.{
  ℕ, suc, ◌+◌, ◌-◌, ◌*◌, Bool, true, false, not, ◌&&◌, Option, none, some, List, [], ◌∷◌, ◌++◌,
  Result, ok, err, value_error, ltb, if◌then◌else◌, length, get_or, set,
}
use hammertime.Base.Int.{ℤ, pos, negsuc, is_negative, pos_part}

pub record NodeArena : Type 0 where
  pub network : List ℕ
  pub lengths : List ℤ
  pub hot_count : List ℕ
  pub child : List (Option ℕ)
  pub free_ids : List ℕ

abbrev pub empty : NodeArena
empty = record { network = []; lengths = []; hot_count = []; child = []; free_ids = [] }

-- `-1`
abbrev pub dead : ℤ
dead = negsuc 0

unfoldable pub reuse : NodeArena → ℕ → List ℕ → ℕ → ℕ → ℕ → NodeArena
reuse a node_id free_ids network node_length hot_count = record {
  network = set a.network node_id network;
  lengths = set a.lengths node_id (pos node_length);
  hot_count = set a.hot_count node_id hot_count;
  child = set (set a.child (2 * node_id) none) (2 * node_id + 1) none;
  free_ids = free_ids;
}

unfoldable pub grow : NodeArena → ℕ → ℕ → ℕ → NodeArena
grow a network node_length hot_count = record a {
  network = a.network ++ network ∷ [];
  lengths = a.lengths ++ pos node_length ∷ [];
  hot_count = a.hot_count ++ hot_count ∷ [];
  child = a.child ++ none ∷ none ∷ [];
}

unfoldable pub allocate : NodeArena → ℕ → ℤ → ℕ → Result (NodeArena × ℕ)
allocate a network (negsuc n) hot_count = err value_error
allocate a network (pos n) hot_count = elim a.free_ids [
  | node_id ∷ free_ids ↦ ok (reuse a node_id free_ids network n hot_count, node_id)
  | [] ↦ ok (grow a network n hot_count, length a.lengths)
]

-- An id is any integer: a negative one, as `NO_NODE` is, is not live.
unfoldable pub is_live : NodeArena → ℤ → Bool
is_live a node_id =
    not (is_negative node_id)
    && ltb (pos_part node_id) (length a.lengths)
    && not (is_negative (get_or a.lengths (pos_part node_id) dead))

unfoldable pub release : NodeArena → ℤ → Result NodeArena
unfolding is_live
release a node_id =
    if is_live a node_id
    then ok (record a {
      lengths = set a.lengths (pos_part node_id) dead;
      free_ids = pos_part node_id ∷ a.free_ids;
    })
    else err value_error

unfoldable pub clear : NodeArena → NodeArena
clear a = empty

unfoldable pub live_count : NodeArena → ℕ
live_count a = length a.lengths - length a.free_ids

unfoldable pub capacity : NodeArena → ℕ
capacity a = length a.lengths

unfoldable pub free_count : NodeArena → ℕ
free_count a = length a.free_ids
