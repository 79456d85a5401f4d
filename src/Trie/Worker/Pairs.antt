-- ===== src/Trie/Worker/Pairs.antt =====
-- trie/worker.py: the pairs of a trie and its records, whatever is handled.
use hammertime.Base.{
  ℕ, ◌≡◌, ◌⊎◌, sym, ◌∙◌, some, List, [], ◌∷◌, Result, ok, Bool-cases, Option-cases, inl, inr, arith,
}
use hammertime.Base.Int.{pos}
use hammertime.Core.Address.{AddressFamily, is_family}
use hammertime.Core.Address.Same.{is_family_iff}
use hammertime.Core.Events.{Timestamp}
use hammertime.Trie.HotSet.{HotSet}
use hammertime.Trie.Interface
use hammertime.Trie.Interface.{HotTrie}
use hammertime.Trie.Records.{FamilyState}
use hammertime.Trie.Records.Coupled.{Coupled}
use hammertime.Trie.State.{
  TrieState, of, pair_of, is_behind, check_offset, note_handled, note_applied,
}
use hammertime.Trie.Worker.{replace_pair}

pub returned_pair :
    {A B : Type 0} (a a' : A) (b b' : B)
    → ◌≡◌ {A = Result (A × B)} (ok (a, b)) (ok (a', b'))
    → a ≡ a'
returned_pair a a' b b' e = ground (arith, e)

module _ {P : Type 0} where
  pair_of-replace_pair :
      (f g : AddressFamily) (p q : P) (pairs : List (AddressFamily × P))
      → pair_of f (replace_pair g p pairs) ≡ some q
      → ((f ≡ g) × (p ≡ q)) ⊎ (pair_of f pairs ≡ some q)
  pair_of-replace_pair f g p q [] e = inr e
  pair_of-replace_pair f g p q ((h, old) ∷ pairs) e = elim (Bool-cases (is_family h g)) [
    | inl s ↦ elim (Bool-cases (is_family h f)) [
      | inl t ↦
          inl (sym ((is_family_iff h f).0 t) ∙ (is_family_iff h g).0 s, ground (arith, s, t, e))
      | inr t ↦ inr (ground (arith, s, t, e))
    ]
    | inr s ↦ elim (Bool-cases (is_family h f)) [
      | inl t ↦ inr (ground (arith, s, t, e))
      | inr t ↦ elim (pair_of-replace_pair f g p q pairs (ground (arith, s, t, e))) [
        | inl found ↦ inl found
        | inr found ↦ inr (ground (arith, t, found))
      ]
    ]
  ]

  pub pair_of-of :
      (s : TrieState P) (f : AddressFamily) (p : P) → of s f ≡ ok p → pair_of f s.families ≡ some p
  unfolding of
  pair_of-of s f p e = elim (Option-cases (pair_of f s.families)) [
    | inl q ↦ ground (arith, q, e)
    | inr (a, q) ↦ ground (arith, q, e)
  ]

  pub families-note_handled :
      (s t : TrieState P) (n : ℕ) → note_handled s (pos n) ≡ ok t → t.families ≡ s.families
  unfolding note_handled check_offset
  families-note_handled s t n e = elim (Bool-cases (is_behind s.position n)) [
    | inl b ↦ ground (arith, b, e)
    | inr b ↦ ground (arith, b, e)
  ]

  pub families-note_applied :
      (s t : TrieState P) (n : ℕ) (time : Timestamp)
      → note_applied s (pos n) time ≡ ok t
      → t.families ≡ s.families
  unfolding note_applied check_offset
  families-note_applied s t n time e = elim (Bool-cases (is_behind s.position n)) [
    | inl b ↦ ground (arith, b, e)
    | inr b ↦ elim (Bool-cases time.is_aware) [
      | inl a ↦ ground (arith, b, a, e)
      | inr a ↦ ground (arith, b, a, e)
    ]
  ]

module _ {T : Type 0} (hot_trie : HotTrie T) (laws : Interface.Laws hot_trie) where
  -- Each pair stands for some set.
  abbrev pub Sound : List (AddressFamily × FamilyState T) → Type 0
  Sound pairs =
      (family : AddressFamily) (fs : FamilyState T)
      → pair_of family pairs ≡ some fs
      → (hot : HotSet) × Coupled hot_trie laws fs family hot

  pub replace_pair-Sound :
      (g : AddressFamily) (p : FamilyState T) (hot : HotSet)
      (pairs : List (AddressFamily × FamilyState T))
      → Coupled hot_trie laws p g hot
      → Sound pairs
      → Sound (replace_pair g p pairs)
  replace_pair-Sound g p hot pairs c s family fs e =
      elim (pair_of-replace_pair family g p fs pairs e) [
        | inl (same, found) ↦ (hot, rw (same, ← found) c)
        | inr found ↦ s family fs found
      ]
