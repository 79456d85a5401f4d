-- ===== src/Trie/Binary/Shape.antt =====
-- binary_trie.py: the shape of the tree, under both walks.
use hammertime.Base.{
  ℕ, zero, suc, ◌+◌, ◌≤◌, ◌<◌, ◌≡◌, refl, Bool, true, false, List, [], ◌∷◌, length, arith,
}
use hammertime.Trie.Binary.{TrieNode, absent, node, count_of, walk, add_path}
use hammertime.Trie.Binary.Counts.{count_at, count_at-absent, count_at-add_path}

-- The shape of a trie for addresses of `d` more bits: each node counts what its children count, no
-- node counts nothing, and there is nothing below an address.
abbrev pub IsShaped : ℕ → TrieNode → Type 0
IsShaped d absent = Unit
IsShaped zero (node c l r) = (c ≡ 1) × (l ≡ absent) × (r ≡ absent)
IsShaped (suc d) (node c l r) =
    (c ≡ count_of l + count_of r) × (0 < c) × IsShaped d l × IsShaped d r

-- How many nodes are reached from a reference.
abbrev pub size : TrieNode → ℕ
size absent = 0
size (node c l r) = suc (size l + size r)

pub absent_of_zero : (d : ℕ) (t : TrieNode) → IsShaped d t → count_of t ≡ 0 → t ≡ absent
absent_of_zero d absent s e = refl
absent_of_zero zero (node c l r) s e = absurd (omega (arith, s.0))
absent_of_zero (suc d) (node c l r) s e = absurd (omega (arith, s.1))

-- No prefix counts more than a prefix of it.
pub count_at-le : (d : ℕ) (t : TrieNode) (p : List Bool) → IsShaped d t → count_at t p ≤ count_of t
unfolding walk
count_at-le d t [] s = omega arith
count_at-le d absent (b ∷ p) s = omega (arith, count_at-absent p)
count_at-le zero (node c l r) (false ∷ p) s = rw s.1 (omega (arith, count_at-absent p))
count_at-le zero (node c l r) (true ∷ p) s = rw s.2 (omega (arith, count_at-absent p))
count_at-le (suc d) (node c l r) (false ∷ p) s = omega (arith, count_at-le d l p s.2, s.0)
count_at-le (suc d) (node c l r) (true ∷ p) s = omega (arith, count_at-le d r p s.3, s.0)

-- An address counts at most once.
pub count_at-le-one :
    (d : ℕ) (t : TrieNode) (bs : List Bool) → IsShaped d t → length bs ≡ d → count_at t bs ≤ 1
unfolding walk
count_at-le-one d absent bs s e = omega (arith, count_at-absent bs)
count_at-le-one zero (node c l r) [] s e = omega (arith, s.0)
count_at-le-one zero (node c l r) (b ∷ bs) s e = absurd (omega arith)
count_at-le-one (suc d) (node c l r) [] s e = absurd (omega arith)
count_at-le-one (suc d) (node c l r) (false ∷ bs) s e = count_at-le-one d l bs s.2 (omega arith)
count_at-le-one (suc d) (node c l r) (true ∷ bs) s e = count_at-le-one d r bs s.3 (omega arith)

-- Adding an address that is not there keeps the shape.
pub add_path-IsShaped :
    (d : ℕ) (t : TrieNode) (bs : List Bool)
    → IsShaped d t
    → length bs ≡ d
    → count_at t bs ≡ 0
    → IsShaped d (add_path t bs).0
unfolding add_path walk
add_path-IsShaped zero absent [] s e z = (refl, refl, refl)
add_path-IsShaped zero (node c l r) [] s e z = absurd (omega (arith, s.0))
add_path-IsShaped zero t (b ∷ bs) s e z = absurd (omega arith)
add_path-IsShaped (suc d) t [] s e z = absurd (omega arith)
add_path-IsShaped (suc d) absent (false ∷ bs) s e z = (
  omega (arith, count_at-add_path absent bs []),
  omega arith,
  add_path-IsShaped d absent bs tt (omega arith) (count_at-absent bs),
  tt,
)
add_path-IsShaped (suc d) absent (true ∷ bs) s e z = (
  omega (arith, count_at-add_path absent bs []),
  omega arith,
  tt,
  add_path-IsShaped d absent bs tt (omega arith) (count_at-absent bs),
)
add_path-IsShaped (suc d) (node c l r) (false ∷ bs) s e z = (
  omega (arith, count_at-add_path l bs [], s.0),
  omega arith,
  add_path-IsShaped d l bs s.2 (omega arith) z,
  s.3,
)
add_path-IsShaped (suc d) (node c l r) (true ∷ bs) s e z = (
  omega (arith, count_at-add_path r bs [], s.0),
  omega arith,
  s.2,
  add_path-IsShaped d r bs s.3 (omega arith) z,
)

-- The nodes that were created are the growth of the tree.
pub size-add_path :
    (t : TrieNode) (bs : List Bool) → size (add_path t bs).0 ≡ size t + (add_path t bs).1
unfolding add_path
size-add_path absent [] = refl
size-add_path (node c l r) [] = omega arith
size-add_path absent (false ∷ bs) = omega (arith, size-add_path absent bs)
size-add_path absent (true ∷ bs) = omega (arith, size-add_path absent bs)
size-add_path (node c l r) (false ∷ bs) = omega (arith, size-add_path l bs)
size-add_path (node c l r) (true ∷ bs) = omega (arith, size-add_path r bs)
