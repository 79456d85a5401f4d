-- ===== src/Trie/Binary/Refine.antt =====
-- binary_trie.py against the HOT set: what every operation does to the set.
use hammertime.Base.{
  ℕ, zero, suc, ◌+◌, ◌-◌, ◌^◌, ◌≤◌, ◌<◌, ◌≡◌, inl, inr, refl, sym, ap, ◌∙◌, Bool, false, not, List,
  [], ◌∷◌, Bool-cases, ok, length, arith,
}
use mathlib.Core.Path.{subst}
use hammertime.Core.Address.{AddressFamily, bit_length, bits, bits_below}
use hammertime.Core.Address.Bits.{top_bits}
use hammertime.Core.Prefix.{Prefix}
use hammertime.Trie.HotSet.{
  HotSet, mem, without, insert, at, count_in, InRange, total, mult, mem-mult, total-without,
  without-InRange, without-nonmember, total-bits, total-top_bits, is_family_refl,
}
use hammertime.Trie.Binary.{
  BinaryTrie, new, add_path, contains, add_hot_ip, remove_hot_ip, hot_count,
}
use hammertime.Trie.Binary.Counts.{count_at, count_at-absent, count_at-add_path}
use hammertime.Trie.Binary.Shape.{IsShaped, size, count_at-le-one, add_path-IsShaped, size-add_path}
use hammertime.Trie.Binary.Removal.{remove_path_lem}

-- The trie is of this family and stands for this HOT set.
pub record Refines (trie : BinaryTrie) (hot : HotSet) : Type 0 where
  pub shaped : IsShaped (bit_length trie.family) trie.root
  pub sized : trie.node_count ≡ size trie.root
  pub in_range : InRange (bit_length trie.family) hot
  pub counted : (p : List Bool) → count_at trie.root p ≡ total (bit_length trie.family) p hot

length-bits_below : (width v : ℕ) → length (bits_below width v) ≡ width
unfolding bits_below
length-bits_below zero v = refl
length-bits_below (suc width) v = ap suc (length-bits_below width v)

pub new-Refines : (family : AddressFamily) → Refines (new family) []
unfolding new
new-Refines family = record {
  shaped = tt;
  sized = refl;
  in_range = tt;
  counted = λ p. count_at-absent p;
}

module _ (trie : BinaryTrie) (hot : HotSet) (r : Refines trie hot) (v : ℕ)
    (fits : v < 2 ^ bit_length trie.family) where
  count_at-eq-mult : count_at trie.root (bits_below (bit_length trie.family) v) ≡ mult v hot
  count_at-eq-mult = r.counted _ ∙ total-bits (bit_length trie.family) v hot fits r.in_range

  mult-le-one : mult v hot ≤ 1
  mult-le-one = omega (
    arith,
    count_at-eq-mult,
    count_at-le-one (bit_length trie.family) trie.root (bits_below (bit_length trie.family) v)
        r.shaped (length-bits_below (bit_length trie.family) v),
  )

  -- `contains` answers membership in the HOT set, for an address of the family.
  pub contains-Refines : contains trie (at trie.family v) ≡ ok (mem v hot)
  unfolding contains bits
  contains-Refines =
      rw (is_family_refl trie.family)
        (ap ok (ground (arith, count_at-eq-mult, mem-mult v hot mult-le-one)))

  -- The trie that `add_hot_ip` returns for an address that was not there.
  added : BinaryTrie
  added =
      let (root, created) = add_path trie.root (bits_below (bit_length trie.family) v) in
      record trie { root = root; node_count = trie.node_count + created }

  added-Refines : mem v hot ≡ false → Refines added (v ∷ hot)
  unfolding added
  added-Refines new_one =
      let bs = bits_below (bit_length trie.family) v in
      let none_yet : mult v hot ≡ 0 = ground (arith, mem-mult v hot mult-le-one, mult-le-one) in
      record {
        shaped =
            add_path-IsShaped (bit_length trie.family) trie.root bs r.shaped
              (length-bits_below (bit_length trie.family) v) (omega (arith, count_at-eq-mult));
        sized = omega (arith, r.sized, size-add_path trie.root bs);
        in_range = (fits, r.in_range);
        counted = λ p. omega (arith, count_at-add_path trie.root bs p, r.counted p);
      }

  -- `add_hot_ip` returns whether the set grew, and the trie of the grown set.
  pub add_hot_ip-Refines :
      (trie' : BinaryTrie) × (add_hot_ip trie (at trie.family v) ≡ ok (trie', not (mem v hot)))
      × Refines trie' (insert v hot)
  unfolding add_hot_ip added bits
  add_hot_ip-Refines = elim (Bool-cases (mem v hot)) [
    | inl old ↦ (trie, rw (is_family_refl trie.family, contains-Refines, old), rw old r)
    | inr new_one ↦ (
      added,
      rw (is_family_refl trie.family, contains-Refines, new_one),
      rw new_one (added-Refines new_one),
    )
  ]

  -- `remove_hot_ip` returns whether the set shrank, and the trie of what is left.
  pub remove_hot_ip-Refines :
      (trie' : BinaryTrie) × (remove_hot_ip trie (at trie.family v) ≡ ok (trie', mem v hot))
      × Refines trie' (without v hot)
  unfolding remove_hot_ip bits
  remove_hot_ip-Refines = elim (Bool-cases (mem v hot)) [
    | inl old ↦
        let bs = bits_below (bit_length trie.family) v in
        let once : mult v hot ≡ 1 = ground (arith, mem-mult v hot mult-le-one, mult-le-one) in
        let (t, k, done, rest) =
          remove_path_lem (bit_length trie.family) trie.root bs r.shaped
            (length-bits_below (bit_length trie.family) v) (omega (arith, count_at-eq-mult)) in
        (
          record trie { root = t; node_count = trie.node_count - k },
          rw (is_family_refl trie.family, contains-Refines, old, done),
          record {
            shaped = rest.shaped;
            sized = omega (arith, rest.nodes, r.sized);
            in_range = without-InRange (bit_length trie.family) v hot r.in_range;
            counted = λ p. omega (
              arith,
              rest.counts p,
              r.counted p,
              total-without (bit_length trie.family) v p hot once,
            );
          },
        )
    | inr absent_one ↦ (
      trie,
      rw (is_family_refl trie.family, contains-Refines, absent_one),
      rw (without-nonmember v hot absent_one) r,
    )
  ]

-- `hot_count` of a valid prefix counts the HOT addresses that it contains.
pub counted_prefix :
    (trie : BinaryTrie) (hot : HotSet) (family : AddressFamily) (prefix : Prefix)
    → Refines trie hot
    → trie.family ≡ family
    → prefix.family ≡ family
    → prefix.length ≤ bit_length prefix.family
    → prefix.network < 2 ^ bit_length prefix.family
    → hot_count trie prefix ≡ ok (count_in family prefix hot)
unfolding hot_count
counted_prefix trie hot family prefix r e f hl hn =
    let g : trie.family ≡ prefix.family = e ∙ sym f in
    let range : InRange (bit_length prefix.family) hot =
      subst (λ (x : AddressFamily). InRange (bit_length x) hot) g r.in_range in
    rw (← f, g, is_family_refl prefix.family)
      (ap ok (
        r.counted (top_bits (bit_length prefix.family) prefix.length prefix.network)
        ∙ (rw g (total-top_bits prefix hot hl hn range))))
