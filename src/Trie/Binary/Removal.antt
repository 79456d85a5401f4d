-- ===== src/Trie/Binary/Removal.antt =====
-- binary_trie.py: the walk of `remove_hot_ip`, in a trie that holds the address.
use hammertime.Base.{
  ℕ, zero, suc, ◌+◌, ◌-◌, ◌≡◌, inl, inr, refl, Bool, true, false, List, [], ◌∷◌, Bool-cases, ok,
  ◌==◌, ==_iff, length, arith,
}
use hammertime.Trie.Binary.{TrieNode, absent, node, count_of, walk, remove_path}
use hammertime.Trie.Binary.Counts.{count_at, below, count_at-absent}
use hammertime.Trie.Binary.Shape.{IsShaped, size, count_at-le, absent_of_zero}

-- A tree that counts one address holds the nodes of its path and no other.
record IsPath (t : TrieNode) (bs : List Bool) : Type 0 where
  counts : (p : List Bool) → count_at t p ≡ below p bs
  nodes : size t ≡ length bs + 1

leaf-counts : (p : List Bool) → count_at (node 1 absent absent) p ≡ below p []
unfolding walk
leaf-counts [] = refl
leaf-counts (false ∷ p) = count_at-absent p
leaf-counts (true ∷ p) = count_at-absent p

left-counts :
    (l : TrieNode) (bs : List Bool)
    → ((p : List Bool) → count_at l p ≡ below p bs)
    → (p : List Bool) → count_at (node 1 l absent) p ≡ below p (false ∷ bs)
unfolding walk
left-counts l bs h [] = refl
left-counts l bs h (false ∷ p) = h p
left-counts l bs h (true ∷ p) = count_at-absent p

right-counts :
    (r : TrieNode) (bs : List Bool)
    → ((p : List Bool) → count_at r p ≡ below p bs)
    → (p : List Bool) → count_at (node 1 absent r) p ≡ below p (true ∷ bs)
unfolding walk
right-counts r bs h [] = refl
right-counts r bs h (true ∷ p) = h p
right-counts r bs h (false ∷ p) = count_at-absent p

IsPath-of-one :
    (d : ℕ) (t : TrieNode) (bs : List Bool)
    → IsShaped d t
    → length bs ≡ d
    → count_of t ≡ 1
    → count_at t bs ≡ 1
    → IsPath t bs
unfolding walk
IsPath-of-one d absent bs s e one m = absurd (omega arith)
IsPath-of-one zero (node c l r) [] s e one m =
    rw (one, s.1, s.2) (record { counts = leaf-counts; nodes = refl })
IsPath-of-one zero (node c l r) (b ∷ bs) s e one m = absurd (omega arith)
IsPath-of-one (suc d) (node c l r) [] s e one m = absurd (omega arith)
IsPath-of-one (suc d) (node c l r) (false ∷ bs) s e one m =
    let le = count_at-le d l bs s.2 in
    let gone : r ≡ absent = absent_of_zero d r s.3 (omega (arith, s.0)) in
    let path = IsPath-of-one d l bs s.2 (omega arith) (omega (arith, s.0)) m in
    rw (one, gone)
      (record { counts = left-counts l bs path.counts; nodes = omega (arith, path.nodes) })
IsPath-of-one (suc d) (node c l r) (true ∷ bs) s e one m =
    let le = count_at-le d r bs s.3 in
    let gone : l ≡ absent = absent_of_zero d l s.2 (omega (arith, s.0)) in
    let path = IsPath-of-one d r bs s.3 (omega arith) (omega (arith, s.0)) m in
    rw (one, gone)
      (record { counts = right-counts r bs path.counts; nodes = omega (arith, path.nodes) })

-- What `remove_path` leaves of a tree that holds the address.
pub record IsRemoved (d : ℕ) (t : TrieNode) (bs : List Bool) (t' : TrieNode) (k : ℕ) : Type 0 where
  pub shaped : IsShaped d t'
  pub counts : (p : List Bool) → count_at t' p + below p bs ≡ count_at t p
  pub nodes : size t' + k ≡ size t

-- A node that counts one address, which is the one removed, is detached with its path.
detached :
    (d : ℕ) (t : TrieNode) (bs : List Bool) (k : ℕ)
    → IsShaped d t
    → length bs ≡ d
    → count_of t ≡ 1
    → count_at t bs ≡ 1
    → k ≡ length bs + 1
    → IsRemoved d t bs absent k
detached d t bs k s e one m ek =
    let path = IsPath-of-one d t bs s e one m in
    record {
      shaped = tt;
      counts = λ p. omega (arith, path.counts p, count_at-absent p);
      nodes = omega (arith, path.nodes);
    }

module _ (d c : ℕ) (l r : TrieNode) (s : IsShaped (suc d) (node c l r))
    (more : (c == 1) ≡ false) where
  left_counts :
      (bs : List Bool) (l' : TrieNode)
      → ((p : List Bool) → count_at l' p + below p bs ≡ count_at l p)
      → (p : List Bool)
      → count_at (node (c - 1) l' r) p + below p (false ∷ bs) ≡ count_at (node c l r) p
  unfolding walk
  left_counts bs l' h [] = omega (arith, s.1)
  left_counts bs l' h (false ∷ p) = h p
  left_counts bs l' h (true ∷ p) = omega arith

  right_counts :
      (bs : List Bool) (r' : TrieNode)
      → ((p : List Bool) → count_at r' p + below p bs ≡ count_at r p)
      → (p : List Bool)
      → count_at (node (c - 1) l r') p + below p (true ∷ bs) ≡ count_at (node c l r) p
  unfolding walk
  right_counts bs r' h [] = omega (arith, s.1)
  right_counts bs r' h (true ∷ p) = h p
  right_counts bs r' h (false ∷ p) = omega arith

  IsRemoved-left :
      (bs : List Bool) (l' : TrieNode) (k : ℕ)
      → IsRemoved d l bs l' k
      → IsRemoved (suc d) (node c l r) (false ∷ bs) (node (c - 1) l' r) k
  unfolding walk
  IsRemoved-left bs l' k rest = record {
    shaped = (omega (arith, s.0, rest.counts []), ground (arith, s.1, more), rest.shaped, s.3);
    counts = left_counts bs l' rest.counts;
    nodes = omega (arith, rest.nodes);
  }

  IsRemoved-right :
      (bs : List Bool) (r' : TrieNode) (k : ℕ)
      → IsRemoved d r bs r' k
      → IsRemoved (suc d) (node c l r) (true ∷ bs) (node (c - 1) l r') k
  unfolding walk
  IsRemoved-right bs r' k rest = record {
    shaped = (omega (arith, s.0, rest.counts []), ground (arith, s.1, more), s.2, rest.shaped);
    counts = right_counts bs r' rest.counts;
    nodes = omega (arith, rest.nodes);
  }

-- Removing an address that is there succeeds, and leaves a tree of the same shape in which each of
-- its prefixes counts one less and no other has changed.
pub remove_path_lem :
    (d : ℕ) (t : TrieNode) (bs : List Bool)
    → IsShaped d t
    → length bs ≡ d
    → count_at t bs ≡ 1
    → (t' : TrieNode) × (k : ℕ) × (remove_path t bs ≡ ok (t', k)) × IsRemoved d t bs t' k
unfolding remove_path walk
remove_path_lem d absent bs s e m = absurd (omega (arith, count_at-absent bs))
remove_path_lem zero (node c l r) [] s e m =
    (absent, 1, ground (arith, s.0), detached zero (node c l r) [] 1 s e s.0 m refl)
remove_path_lem zero (node c l r) (b ∷ bs) s e m = absurd (omega arith)
remove_path_lem (suc d) (node c l r) [] s e m = absurd (omega arith)
remove_path_lem (suc d) (node c l r) (false ∷ bs) s e m = elim (Bool-cases (c == 1)) [
  | inl one ↦ (
    absent,
    length bs + 2,
    rw one,
    detached (suc d) (node c l r) (false ∷ bs) (length bs + 2) s e ((==_iff c 1).0 one) m
        (omega arith),
  )
  | inr more ↦
      let (l', k, done, rest) = remove_path_lem d l bs s.2 (omega arith) m in
      (node (c - 1) l' r, k, rw (more, done), IsRemoved-left d c l r s more bs l' k rest)
]
remove_path_lem (suc d) (node c l r) (true ∷ bs) s e m = elim (Bool-cases (c == 1)) [
  | inl one ↦ (
    absent,
    length bs + 2,
    rw one,
    detached (suc d) (node c l r) (true ∷ bs) (length bs + 2) s e ((==_iff c 1).0 one) m
        (omega arith),
  )
  | inr more ↦
      let (r', k, done, rest) = remove_path_lem d r bs s.3 (omega arith) m in
      (node (c - 1) l r', k, rw (more, done), IsRemoved-right d c l r s more bs r' k rest)
]
