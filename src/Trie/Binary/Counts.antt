-- ===== src/Trie/Binary/Counts.antt =====
-- binary_trie.py: what the two walks of the trie do to the count of every prefix.
use hammertime.Base.{ℕ, ◌+◌, ◌≡◌, refl, Bool, true, false, List, [], ◌∷◌, if◌then◌else◌, arith}
use hammertime.Core.Address.Bits.{is_prefix}
use hammertime.Trie.Binary.{TrieNode, absent, node, count_of, walk, add_path}

-- The count of the prefix `p`.
abbrev pub count_at : TrieNode → List Bool → ℕ
count_at t p = count_of (walk t p)

-- 1 if the address lies below the prefix.
abbrev pub below : List Bool → List Bool → ℕ
below p bs = if is_prefix p bs then 1 else 0

pub count_at-absent : (p : List Bool) → count_at absent p ≡ 0
unfolding walk
count_at-absent [] = refl
count_at-absent (b ∷ p) = count_at-absent p

-- Adding an address raises the count of each of its prefixes by one, and no other.
pub count_at-add_path :
    (t : TrieNode) (bs p : List Bool) → count_at (add_path t bs).0 p ≡ count_at t p + below p bs
unfolding walk add_path
count_at-add_path absent [] [] = refl
count_at-add_path absent [] (false ∷ p) = ground (arith, count_at-absent p)
count_at-add_path absent [] (true ∷ p) = ground (arith, count_at-absent p)
count_at-add_path (node c l r) [] [] = refl
count_at-add_path (node c l r) [] (true ∷ p) = ground arith
count_at-add_path (node c l r) [] (false ∷ p) = ground arith
count_at-add_path absent (false ∷ bs) [] = refl
count_at-add_path absent (true ∷ bs) [] = refl
count_at-add_path absent (false ∷ bs) (false ∷ p) =
    ground (arith, count_at-add_path absent bs p, count_at-absent p)
count_at-add_path absent (false ∷ bs) (true ∷ p) = ground (arith, count_at-absent p)
count_at-add_path absent (true ∷ bs) (true ∷ p) =
    ground (arith, count_at-add_path absent bs p, count_at-absent p)
count_at-add_path absent (true ∷ bs) (false ∷ p) = ground (arith, count_at-absent p)
count_at-add_path (node c l r) (false ∷ bs) [] = refl
count_at-add_path (node c l r) (true ∷ bs) [] = refl
count_at-add_path (node c l r) (false ∷ bs) (false ∷ p) = count_at-add_path l bs p
count_at-add_path (node c l r) (false ∷ bs) (true ∷ p) = omega arith
count_at-add_path (node c l r) (true ∷ bs) (true ∷ p) = count_at-add_path r bs p
count_at-add_path (node c l r) (true ∷ bs) (false ∷ p) = omega arith
