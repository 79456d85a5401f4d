-- ===== src/Trie/Records/Coupled.antt =====
-- trie/metadata/ip_attributes.py: the addresses that have a record are those that are HOT, after any steps.
use Prim.Native.String.{String}
use hammertime.Base.{
  ℕ, ◌^◌, ◌<◌, ◌≡◌, ◌⊎◌, refl, sym, ◌∙◌, Error, not, ◌&&◌, ◌||◌, Option, [], Result, ok, err, ◌==◌,
  ==_iff, Bool-cases, Result-cases, inl, inr, mem-without, arith,
}
use hammertime.Base.Int.{ℤ, pos_part}
use hammertime.Base.Dict.{lookup-put, lookup-erase}
use hammertime.Core.Address.{AddressFamily, Address, bit_length}
use hammertime.Core.Address.Same.{address_key}
use hammertime.Trie.HotSet.{HotSet, mem, without, insert, at, is_family_refl}
use hammertime.Trie.Interface.{HotTrie, Laws}
use hammertime.Trie.Records.{
  IpRecord, IpAttributeRecords, FamilyState, new, is_recorded, commit, popped, discard, prepare,
  check_family, check_families, check_request_count, apply_hot_ip_added, apply_hot_ip_removed,
}

mem-insert : (u v : ℕ) (hot : HotSet) → mem u (insert v hot) ≡ (v == u || mem u hot)
mem-insert u v hot = elim (Bool-cases (mem v hot)) [
  | inl e ↦ ground (arith, e, ==_iff v u)
  | inr e ↦ ground (arith, e)
]

is_recorded-commit :
    (rs : IpAttributeRecords) (a b : Address) (text : String) (n : ℕ)
    → is_recorded (commit rs a text n) b ≡ (address_key.same a b || is_recorded rs b)
unfolding commit
is_recorded-commit rs a b text n =
    let r : IpRecord = record { attributes = text; request_count = n } in
    ground (arith, lookup-put a b r rs.records)

is_recorded-popped :
    (rs : IpAttributeRecords) (a b : Address)
    → is_recorded (popped rs a) b ≡ (not (address_key.same a b) && is_recorded rs b)
is_recorded-popped rs a b = ground (arith, lookup-erase a b rs.records)

same_at :
    (family : AddressFamily) (u v : ℕ) → address_key.same (at family u) (at family v) ≡ (u == v)
same_at family u v = rw (is_family_refl family) refl

-- A map's addresses are the values of a set.
abbrev Matches : IpAttributeRecords → AddressFamily → HotSet → Type 0
Matches rs family hot = (v : ℕ) → is_recorded rs (at family v) ≡ mem v hot

commit-Matches :
    (rs : IpAttributeRecords) (family : AddressFamily) (hot : HotSet) (v : ℕ) (text : String)
    (n : ℕ)
    → Matches rs family hot
    → Matches (commit rs (at family v) text n) family (insert v hot)
commit-Matches rs family hot v text n m u =
    is_recorded-commit rs (at family v) (at family u) text n
    ∙ rw (same_at family v u, m u) (sym (mem-insert u v hot))

popped-Matches :
    (rs : IpAttributeRecords) (family : AddressFamily) (hot : HotSet) (v : ℕ)
    → Matches rs family hot
    → Matches (popped rs (at family v)) family (without v hot)
popped-Matches rs family hot v m u =
    is_recorded-popped rs (at family v) (at family u)
    ∙ rw (same_at family v u, m u) (ground (arith, mem-without u v hot, ==_iff v u, ==_iff u v))

discard-popped :
    (rs : IpAttributeRecords) (a : Address)
    → rs.family ≡ a.family
    → discard rs a ≡ ok (popped rs a, is_recorded rs a)
unfolding discard check_family
discard-popped rs a f = rw (f, is_family_refl a.family) refl

module _ {T : Type 0} (hot_trie : HotTrie T) (laws : Laws hot_trie) where
  -- A pair of a family that stands for a set: its trie holds it, and its records are of its values.
  pub record Coupled (fs : FamilyState T) (family : AddressFamily) (hot : HotSet) : Type 0 where
    pub holds : laws.Holds fs.trie hot
    pub trie_family : hot_trie.family fs.trie ≡ family
    pub records_family : fs.records.family ≡ family
    pub matches : Matches fs.records family hot

  abbrev pub fresh : AddressFamily → FamilyState T
  fresh family = record { trie = hot_trie.create family; records = new family }

  pub fresh-Coupled : (family : AddressFamily) → Coupled (fresh family) family []
  unfolding new
  fresh-Coupled family = record {
    holds = laws.create_lem family;
    trie_family = laws.family_lem family;
    records_family = refl;
    matches = λ v. refl;
  }

  families_checked :
      (fs : FamilyState T) (family : AddressFamily) (hot : HotSet) (v : ℕ)
      → Coupled fs family hot
      → check_families hot_trie fs (at family v) ≡ ok tt
  unfolding check_families
  families_checked fs family hot v c =
      rw (c.trie_family, c.records_family, is_family_refl family) refl

  removed_changes :
      (fs : FamilyState T) (family : AddressFamily) (hot : HotSet) (v : ℕ)
      → Coupled fs family hot
      → v < 2 ^ bit_length family
      → (t' : T) × (hot_trie.remove_hot_ip fs.trie (at family v) ≡ ok (t', mem v hot))
        × laws.Holds t' (without v hot)
        × (hot_trie.family t' ≡ family)
  removed_changes fs family hot v c fits =
      let (t', e, h, f) = laws.remove_lem fs.trie hot v c.holds (rw c.trie_family fits) in
      let here : hot_trie.remove_hot_ip fs.trie (at family v) ≡ ok (t', mem v hot) =
        rw c.trie_family at e in
      (t', here, h, f ∙ c.trie_family)

  added_changes :
      (fs : FamilyState T) (family : AddressFamily) (hot : HotSet) (v : ℕ)
      → Coupled fs family hot
      → v < 2 ^ bit_length family
      → (t' : T) × (hot_trie.add_hot_ip fs.trie (at family v) ≡ ok (t', not (mem v hot)))
        × laws.Holds t' (insert v hot)
        × (hot_trie.family t' ≡ family)
  added_changes fs family hot v c fits =
      let (t', e, h, f) = laws.add_lem fs.trie hot v c.holds (rw c.trie_family fits) in
      let here : hot_trie.add_hot_ip fs.trie (at family v) ≡ ok (t', not (mem v hot)) =
        rw c.trie_family at e in
      (t', here, h, f ∙ c.trie_family)

  -- A removal succeeds, tells whether the address was HOT, and takes it out of both.
  pub apply_hot_ip_removed-Coupled :
      (fs : FamilyState T) (family : AddressFamily) (hot : HotSet) (v : ℕ)
      → Coupled fs family hot
      → v < 2 ^ bit_length family
      → (fs' : FamilyState T) × (apply_hot_ip_removed hot_trie fs (at family v)
          ≡ ok (fs', mem v hot))
        × Coupled fs' family (without v hot)
  unfolding apply_hot_ip_removed
  apply_hot_ip_removed-Coupled fs family hot v c fits =
      let (t', e, h, f) = removed_changes fs family hot v c fits in
      (
        record { trie = t'; records = popped fs.records (at family v) },
        rw
            (
              families_checked fs family hot v c,
              e,
              discard-popped fs.records (at family v) c.records_family,
            )
            refl,
        record {
          holds = h;
          trie_family = f;
          records_family = c.records_family;
          matches = popped-Matches fs.records family hot v c.matches;
        },
      )

  module _ {Attributes : Type 0} (canonicalize : Attributes → Result String)
      (default_text : String) where
    -- An addition whose count and document are accepted succeeds, tells whether the address was not HOT,
    -- and puts it into both; any other is refused.
    pub apply_hot_ip_added-Coupled :
        (fs : FamilyState T) (family : AddressFamily) (hot : HotSet) (v : ℕ)
        (attributes : Option Attributes) (n : ℤ)
        → Coupled fs family hot
        → v < 2 ^ bit_length family
        → ((fs' : FamilyState T) × (apply_hot_ip_added canonicalize default_text hot_trie fs
                (at family v)
                attributes
                n
              ≡ ok (fs', not (mem v hot)))
            × Coupled fs' family (insert v hot))
          ⊎ ((e : Error) × (apply_hot_ip_added canonicalize default_text hot_trie fs
                  (at family v)
                  attributes
                  n
                ≡ err e))
    unfolding apply_hot_ip_added commit
    apply_hot_ip_added-Coupled fs family hot v attributes n c fits =
        let checked = families_checked fs family hot v c in
        elim (Result-cases (check_request_count n)) [
          | inr (x, g) ↦ inr (x, rw (checked, g) refl)
          | inl (tt, g) ↦ elim (Result-cases (prepare canonicalize default_text attributes)) [
            | inr (x, h) ↦ inr (x, rw (checked, g, h) refl)
            | inl (text, h) ↦
                let (t', e, l, f) = added_changes fs family hot v c fits in
                inl (
                  record { trie = t'; records = commit fs.records (at family v) text (pos_part n) },
                  rw (checked, g, h, e) refl,
                  record {
                    holds = l;
                    trie_family = f;
                    records_family = c.records_family;
                    matches = commit-Matches fs.records family hot v text (pos_part n) c.matches;
                  },
                )
          ]
        ]
