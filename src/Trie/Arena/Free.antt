-- ===== src/Trie/Arena/Free.antt =====
-- trie/structure/arena.py, the free list and the dead slots.
use hammertime.Base.{
  ℕ, zero, suc, ◌+◌, ◌*◌, ◌<◌, ◌≡◌, refl, true, false, not, ◌&&◌, none, List, [], ◌∷◌, ◌++◌, Result,
  ok, err, ltb, ◌==◌, if◌then◌else◌, Bool-cases, ◌⊎◌, inl, inr, length, get_or, set, length-set,
  length-append, get_or-set, mem, arith,
}
use mathlib.Core.Path.{subst}
use hammertime.Base.Int.{ℤ, pos, negsuc, pos_part}
use hammertime.Trie.Arena.{NodeArena, empty, dead, reuse, grow, allocate, is_live, release}

-- `set(free_ids) == {i : length[i] < 0}` and no id is listed twice.
abbrev pub IsDistinct : List ℕ → Type 0
IsDistinct [] = Unit
IsDistinct (i ∷ ids) = (mem i ids ≡ false) × IsDistinct ids

pub record IsValid (a : NodeArena) : Type 0 where
  pub listed : (i : ℕ) → mem i a.free_ids ≡ (ltb i (length a.lengths) && not (is_live a (pos i)))
  pub distinct : IsDistinct a.free_ids
  pub networks : length a.network ≡ length a.lengths
  pub counts : length a.hot_count ≡ length a.lengths
  pub children : length a.child ≡ 2 * length a.lengths

get_or-append :
    (xs : List ℤ) (v d : ℤ) (i : ℕ)
    → get_or (xs ++ v ∷ []) i d ≡ (if i == length xs then v else get_or xs i d)
get_or-append [] v d zero = refl
get_or-append [] v d (suc i) = ground arith
get_or-append (x ∷ xs) v d zero = ground arith
get_or-append (x ∷ xs) v d (suc i) = ground (arith, get_or-append xs v d i)

pub empty-IsValid : IsValid empty
unfolding is_live
empty-IsValid = record {
  listed = λ i. ground arith;
  distinct = tt;
  networks = refl;
  counts = refl;
  children = refl;
}

-- The arena after a call that returns an arena; a call that raises changes nothing.
abbrev pub after_release : NodeArena → ℤ → NodeArena
after_release a i = elim (release a i) [ ok a' ↦ a' | err e ↦ a ]

released-IsValid :
    (a : NodeArena) (i : ℕ)
    → IsValid a
    → is_live a (pos i) ≡ true
    → IsValid (record a { lengths = set a.lengths i dead; free_ids = i ∷ a.free_ids })
unfolding is_live
released-IsValid a i v e = record {
  listed = λ j. ground (
    arith,
    e,
    v.listed j,
    length-set a.lengths i dead,
    get_or-set a.lengths i j dead dead (ground (arith, e)),
  );
  distinct = (ground (arith, e, v.listed i), v.distinct);
  networks = ground (arith, v.networks, length-set a.lengths i dead);
  counts = ground (arith, v.counts, length-set a.lengths i dead);
  children = ground (arith, v.children, length-set a.lengths i dead);
}

released-dead :
    (a : NodeArena) (i : ℕ)
    → is_live a (pos i) ≡ true
    → is_live (record a { lengths = set a.lengths i dead; free_ids = i ∷ a.free_ids }) (pos i)
      ≡ false
unfolding is_live
released-dead a i e =
    ground (
      arith,
      e,
      length-set a.lengths i dead,
      get_or-set a.lengths i i dead dead (ground (arith, e)),
    )

-- If the free list holds exactly the dead slots, each once, and the storage lists have their lengths, then
-- so they do after a release, also of a negative id, where a release that raises changes nothing. The id is
-- not live afterwards, and the free list has it in front if it was live, and is as it was otherwise.
pub release-IsValid :
    (a : NodeArena) (node_id : ℤ)
    → IsValid a
    → IsValid (after_release a node_id)
      × (is_live (after_release a node_id) node_id ≡ false)
      × ((after_release a node_id).free_ids
          ≡ (if is_live a node_id then pos_part node_id ∷ a.free_ids else a.free_ids))
unfolding release
release-IsValid a (negsuc n) v = (v, refl, refl)
release-IsValid a (pos i) v = elim (Bool-cases (is_live a (pos i))) [
  | inr e ↦ rw (e, release, after_release) (v, e, refl)
  | inl e ↦ rw (e, release, after_release) (released-IsValid a i v e, released-dead a i e, refl)
]

abbrev pub after_allocate : NodeArena → Result (NodeArena × ℕ) → NodeArena
after_allocate a (ok p) = p.0
after_allocate a (err e) = a

reuse-IsValid :
    (a : NodeArena) (network n hot_count i : ℕ) (free : List ℕ)
    → IsValid a
    → a.free_ids ≡ i ∷ free
    → IsValid (reuse a i free network n hot_count)
unfolding is_live reuse
reuse-IsValid a network n hot_count i free v e =
    let here : (i < length a.lengths) = ground (arith, e, v.listed i) in
    record {
      listed = λ j. ground (
        arith,
        e,
        v.listed j,
        v.listed i,
        length-set a.lengths i (pos n),
        get_or-set a.lengths i j (pos n) dead here,
      );
      distinct = (subst IsDistinct e v.distinct).1;
      networks =
          omega (arith, v.networks, length-set a.network i network, length-set a.lengths i (pos n));
      counts =
          omega
            (arith, v.counts, length-set a.hot_count i hot_count, length-set a.lengths i (pos n));
      children = omega (
        arith,
        v.children,
        length-set a.child (2 * i) none,
        length-set a.lengths i (pos n),
        length-set (set a.child (2 * i) none) (2 * i + 1) none,
      );
    }

grow-IsValid :
    (a : NodeArena) (network n hot_count : ℕ) → IsValid a → IsValid (grow a network n hot_count)
unfolding is_live grow
grow-IsValid a network n hot_count v = record {
  listed = λ j. ground (
    arith,
    v.listed j,
    get_or-append a.lengths (pos n) dead j,
    length-append a.lengths (pos n ∷ []),
  );
  distinct = v.distinct;
  networks = omega (
    arith,
    v.networks,
    length-append a.network (network ∷ []),
    length-append a.lengths (pos n ∷ []),
  );
  counts = omega (
    arith,
    v.counts,
    length-append a.hot_count (hot_count ∷ []),
    length-append a.lengths (pos n ∷ []),
  );
  children = omega (
    arith,
    v.children,
    length-append a.child (none ∷ none ∷ []),
    length-append a.lengths (pos n ∷ []),
  );
}

List-cases : (l : List ℕ) → (l ≡ []) ⊎ ((i : ℕ) × (rest : List ℕ) × (l ≡ i ∷ rest))
List-cases [] = inl refl
List-cases (i ∷ rest) = inr (i, rest, refl)

-- Allocating keeps the arena valid, on the free list, by growing and where it raises.
pub allocate-IsValid :
    (a : NodeArena) (network : ℕ) (node_length : ℤ) (hot_count : ℕ)
    → IsValid a
    → IsValid (after_allocate a (allocate a network node_length hot_count))
unfolding allocate
allocate-IsValid a network (negsuc n) hot_count v = v
allocate-IsValid a network (pos n) hot_count v = elim (List-cases a.free_ids) [
  | inl e ↦ rw (e, allocate) (grow-IsValid a network n hot_count v)
  | inr (i, rest, e) ↦ rw (e, allocate) (reuse-IsValid a network n hot_count i rest v e)
]
