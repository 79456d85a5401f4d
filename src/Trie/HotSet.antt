-- ===== src/Trie/HotSet.antt =====
-- The abstract view of a trie: the set of HOT addresses of one family, as a list of their values,
-- and what a prefix counts in it. Nothing here is about trees.
use native.Mathlib.Nat.{div-eq_of_lt, sub_self, div-one}
use hammertime.Base.{
  ℕ, zero, suc, ◌+◌, ◌^◌, ◌≤◌, ◌<◌, ◌≡◌, refl, sym, ap, ◌∙◌, Bool, true, false, List, [], ◌∷◌, ◌==◌,
  if◌then◌else◌, arith,
}
use hammertime.Core.Address.{AddressFamily, ipv4, ipv6, Address, bit_length, bits_below, is_family}
use hammertime.Core.Address.Bits.{is_prefix, top_bits, is_prefix-top_bits}
use hammertime.Core.Prefix.{Prefix, contains}
pub use hammertime.Base.{mem, without}

pub is_family_refl : (family : AddressFamily) → is_family family family ≡ true
is_family_refl ipv4 = refl
is_family_refl ipv6 = refl

abbrev pub HotSet : Type 0
HotSet = List ℕ

abbrev pub insert : ℕ → HotSet → HotSet
insert v hot = if mem v hot then hot else v ∷ hot

abbrev pub at : AddressFamily → ℕ → Address
at family value = record { family = family; value = value }

-- How many HOT addresses a prefix contains.
abbrev pub count_in : AddressFamily → Prefix → HotSet → ℕ
count_in family prefix [] = 0
count_in family prefix (v ∷ hot) =
    (if contains prefix (at family v) then 1 else 0) + count_in family prefix hot

-- Every value of the set is one of the family.
abbrev pub InRange : ℕ → HotSet → Type 0
InRange width [] = Unit
InRange width (v ∷ hot) = (v < 2 ^ width) × InRange width hot

-- How many of the set's addresses have the bits `p` in front.
abbrev pub total : ℕ → List Bool → HotSet → ℕ
total width p [] = 0
total width p (v ∷ hot) = (if is_prefix p (bits_below width v) then 1 else 0) + total width p hot

abbrev pub mult : ℕ → HotSet → ℕ
mult v [] = 0
mult v (u ∷ hot) = (if u == v then 1 else 0) + mult v hot

pub mem-mult : (v : ℕ) (hot : HotSet) → mult v hot ≤ 1 → mem v hot ≡ (mult v hot == 1)
mem-mult v [] h = refl
mem-mult v (u ∷ hot) h = ground (arith, mem-mult v hot)

without_absent : (v : ℕ) (hot : HotSet) → mult v hot ≡ 0 → without v hot ≡ hot
without_absent v [] h = refl
without_absent v (u ∷ hot) h = ground (arith, without_absent v hot)

pub total-without :
    (width v : ℕ) (p : List Bool) (hot : HotSet)
    → mult v hot ≡ 1
    → total width p (without v hot) + (if is_prefix p (bits_below width v) then 1 else 0)
      ≡ total width p hot
total-without width v p [] h = absurd (omega arith)
total-without width v p (u ∷ hot) h =
    ground (arith, total-without width v p hot, without_absent v hot)

pub without-InRange :
    (width v : ℕ) (hot : HotSet) → InRange width hot → InRange width (without v hot)
without-InRange width v [] h = tt
without-InRange width v (u ∷ hot) h = ground (arith, without-InRange width v hot h.1)

-- All bits of a value are its first ones.
top_bits_all : (width v : ℕ) → top_bits width width v ≡ bits_below width v
unfolding top_bits bits_below
top_bits_all zero v = refl
top_bits_all (suc width) v = rw (top_bits_all width v)

-- Two values of a family have the same bits exactly if they are equal.
is_prefix-bits :
    (width u v : ℕ)
    → u < 2 ^ width
    → v < 2 ^ width
    → is_prefix (bits_below width v) (bits_below width u) ≡ (u == v)
is_prefix-bits width u v hu hv =
    ap (λ (p : List Bool). is_prefix p (bits_below width u)) (sym (top_bits_all width v))
    ∙ is_prefix-top_bits width width u v (omega arith) (div-eq_of_lt hu ∙ sym (div-eq_of_lt hv))
    ∙ rw (sub_self width) (rw (div-one u, div-one v))

pub total-bits :
    (width v : ℕ) (hot : HotSet)
    → v < 2 ^ width
    → InRange width hot
    → total width (bits_below width v) hot ≡ mult v hot
total-bits width v [] hv h = refl
total-bits width v (u ∷ hot) hv h =
    ground (arith, is_prefix-bits width u v h.0 hv, total-bits width v hot hv h.1)

-- The walk along a prefix of the family counts the addresses that the prefix contains.
pub total-top_bits :
    (prefix : Prefix) (hot : HotSet)
    → prefix.length ≤ bit_length prefix.family
    → prefix.network < 2 ^ bit_length prefix.family
    → InRange (bit_length prefix.family) hot
    → total
        (bit_length prefix.family)
        (top_bits (bit_length prefix.family) prefix.length prefix.network)
        hot
      ≡ count_in prefix.family prefix hot
unfolding contains
total-top_bits prefix [] hl hn h = refl
total-top_bits prefix (v ∷ hot) hl hn h = ground (
  arith,
  is_prefix-top_bits (bit_length prefix.family) prefix.length v prefix.network hl
      (div-eq_of_lt h.0 ∙ sym (div-eq_of_lt hn)),
  is_family_refl prefix.family,
  total-top_bits prefix hot hl hn h.1,
)

pub without-nonmember : (v : ℕ) (hot : HotSet) → mem v hot ≡ false → without v hot ≡ hot
without-nonmember v [] h = refl
without-nonmember v (u ∷ hot) h = ground (arith, without-nonmember v hot)
