-- ===== src/Trie/Local/Effective.antt =====
-- trie/metadata/local.py: the metadata of an address, after any calls.
use hammertime.Base.{
  ℕ, zero, suc, ◌+◌, ◌≤◌, ◌≡◌, ◌⊎◌, refl, sym, ◌∙◌, Bool, true, ◌&&◌, none, some, List, [], ◌∷◌,
  Result, ok, err, Option-cases, Result-cases, inl, inr, arith,
}
use hammertime.Base.Dict.{lookup, put, erase, string_key}
use hammertime.Core.Address.{AddressFamily, Address, bit_length}
use hammertime.Core.Prefix.{Prefix}
use hammertime.Core.Prefix.Same.{prefix_key}
use hammertime.Trie.HotSet.{is_family_refl}
use hammertime.Trie.Binary.Queries.{prefix_of}
use hammertime.Trie.Combine.{Metadata, combine_path, empty_metadata}
use hammertime.Base.Keys.{is_dict}
use hammertime.Trie.Combine.Documents.{Agrees, AllAgree, combine_from_total}
use hammertime.Trie.Local.{
  PrefixMetadataStore, new, check_family, check_path, declare, revoke, clear, path_from, fold,
  effective,
}
use hammertime.Trie.Local.Consistent.{
  Consistent, Dicts, covers-prefix_of, new-Consistent, erase-Consistent, put-Consistent, put-Dicts,
  erase-Dicts,
}

-- A document agrees with all that is declared on a path from a length on.
abbrev AgreesFrom : Metadata → List (Prefix × Metadata) → AddressFamily → ℕ → ℕ → Type 0
AgreesFrom r ds family network i =
    (j : ℕ) (m : Metadata)
    → i ≤ j
    → j ≤ bit_length family
    → lookup (prefix_of family network j) ds ≡ some m
    → Agrees r m

path_missing :
    (ds : List (Prefix × Metadata)) (family : AddressFamily) (network i n : ℕ)
    → lookup (prefix_of family network i) ds ≡ none
    → path_from ds family network i (suc n) ≡ path_from ds family network (suc i) n
unfolding path_from
path_missing ds family network i n e = rw (path_from, e) refl

path_found :
    (ds : List (Prefix × Metadata)) (family : AddressFamily) (network i n : ℕ) (m : Metadata)
    → lookup (prefix_of family network i) ds ≡ some m
    → path_from ds family network i (suc n) ≡ m ∷ path_from ds family network (suc i) n
unfolding path_from
path_found ds family network i n m e = rw (path_from, e) refl

path_from-AllAgree :
    (r : Metadata) (ds : List (Prefix × Metadata)) (family : AddressFamily) (network i n : ℕ)
    → i + n ≤ suc (bit_length family)
    → Consistent ds
    → Dicts ds
    → AgreesFrom r ds family network i
    → AllAgree r (path_from ds family network i n)
unfolding path_from
path_from-AllAgree r ds family network i zero h c d a = tt
path_from-AllAgree r ds family network i (suc n) h c d a =
    let rest =
      path_from-AllAgree r ds family network (suc i) n (omega arith) c d
        (λ j m g. a j m (omega arith)) in
    elim (Option-cases (lookup (prefix_of family network i) ds)) [
      | inl e ↦ rw (path_missing ds family network i n e) rest
      | inr (m, e) ↦ rw (path_found ds family network i n m e) (
        d (prefix_of family network i) m e,
        a i m (omega arith) (omega arith) e,
        rest,
        path_from-AllAgree m ds family network (suc i) n (omega arith) c d (λ j m' g k f.
            c (prefix_of family network i) (prefix_of family network j) m m' e f
              (covers-prefix_of family network i j (omega arith) k)),
      )
    ]

-- The calls that change a store.
pub data Call : Type 0 where
  declaring : Prefix → Metadata → Call
  revoking : Prefix → Call
  clearing : Call

-- A call that is refused leaves the store as it was.
abbrev pub kept : PrefixMetadataStore → Result PrefixMetadataStore → PrefixMetadataStore
kept store (ok next) = next
kept store (err e) = store

abbrev pub revoked : PrefixMetadataStore → Result (PrefixMetadataStore × Bool) → PrefixMetadataStore
revoked store (ok (next, found)) = next
revoked store (err e) = store

abbrev pub step : PrefixMetadataStore → Call → PrefixMetadataStore
step store (declaring prefix document) = kept store (declare store prefix document)
step store (revoking prefix) = revoked store (revoke store prefix)
step store clearing = clear store

abbrev pub run : PrefixMetadataStore → List Call → PrefixMetadataStore
run store [] = store
run store (call ∷ calls) = run (step store call) calls

-- Every document that is declared is a dictionary.
abbrev pub documents_are_dicts : List Call → Bool
documents_are_dicts [] = true
documents_are_dicts (declaring prefix document ∷ calls) =
    is_dict document && documents_are_dicts calls
documents_are_dicts (call ∷ calls) = documents_are_dicts calls

abbrev Sound : PrefixMetadataStore → Type 0
Sound store = Consistent store.declarations × Dicts store.declarations

-- A declaration is refused, or its document has passed the check.
declare-cases :
    (store : PrefixMetadataStore) (prefix : Prefix) (document : Metadata)
    → (kept store (declare store prefix document) ≡ store)
      ⊎ ((check_path prefix document store.declarations ≡ ok tt)
          × (kept store (declare store prefix document)
              ≡ record store { declarations = put prefix document store.declarations }))
unfolding declare
declare-cases store prefix document = elim (Result-cases (check_family store prefix.family)) [
  | inr (x, f) ↦ inl (rw f refl)
  | inl (tt, f) ↦ elim (Result-cases (check_path prefix document store.declarations)) [
    | inr (x, e) ↦ inl (rw (f, e) refl)
    | inl (tt, e) ↦ inr (e, rw (f, e) refl)
  ]
]

revoke-cases :
    (store : PrefixMetadataStore) (prefix : Prefix)
    → (revoked store (revoke store prefix) ≡ store)
      ⊎ (revoked store (revoke store prefix)
          ≡ record store { declarations = erase prefix store.declarations })
unfolding revoke
revoke-cases store prefix = elim (Result-cases (check_family store prefix.family)) [
  | inr (x, f) ↦ inl (rw f refl)
  | inl (tt, f) ↦ inr (rw f refl)
]

documents_split :
    (call : Call) (calls : List Call)
    → documents_are_dicts (call ∷ calls) ≡ true
    → (documents_are_dicts (call ∷ []) ≡ true) × (documents_are_dicts calls ≡ true)
documents_split (declaring prefix document) calls h = ground arith
documents_split (revoking prefix) calls h = (refl, h)
documents_split clearing calls h = (refl, h)

step-Sound :
    (store : PrefixMetadataStore) (call : Call)
    → documents_are_dicts (call ∷ []) ≡ true
    → Sound store
    → Sound (step store call) × ((step store call).family ≡ store.family)
unfolding clear
step-Sound store (declaring prefix document) h (c, d) = elim (declare-cases store prefix document) [
  | inl e ↦ rw e ((c, d), refl)
  | inr (k, e) ↦ rw e (
    (
      put-Consistent prefix document store.declarations k c,
      put-Dicts prefix document store.declarations (ground arith) d,
    ),
    refl,
  )
]
step-Sound store (revoking prefix) h (c, d) = elim (revoke-cases store prefix) [
  | inl e ↦ rw e ((c, d), refl)
  | inr e ↦ rw e (
    (erase-Consistent prefix store.declarations c, erase-Dicts prefix store.declarations d),
    refl,
  )
]
step-Sound store clearing h (c, d) = ((new-Consistent, λ p m e. ground (arith, e)), refl)

run-Sound :
    (store : PrefixMetadataStore) (calls : List Call)
    → documents_are_dicts calls ≡ true
    → Sound store
    → Sound (run store calls) × ((run store calls).family ≡ store.family)
run-Sound store [] h s = (s, refl)
run-Sound store (call ∷ calls) h s =
    let (first, others) = documents_split call calls h in
    let (next, same) = step-Sound store call first s in
    let (last, same') = run-Sound (step store call) calls others next in (last, same' ∙ same)

fold_total :
    (family : AddressFamily) (ds : List (Prefix × Metadata)) (network count : ℕ)
    → count ≤ suc (bit_length family)
    → Consistent ds
    → Dicts ds
    → (metadata : Metadata) × (fold (record { family = family; declarations = ds }) network count
        ≡ ok metadata)
unfolding fold combine_path
fold_total family [] network count h c d = (empty_metadata, refl)
fold_total family (item ∷ ds) network count h c d =
    combine_from_total empty_metadata (path_from (item ∷ ds) family network 0 count) (
      path_from-AllAgree empty_metadata (item ∷ ds) family network 0 count (omega arith) c d
        (λ j m k l e key v w f. ground (arith, f)))

effective-Sound :
    (store : PrefixMetadataStore) (address : Address)
    → Sound store
    → address.family ≡ store.family
    → (metadata : Metadata) × (effective store address ≡ ok metadata)
unfolding effective check_family
effective-Sound store address (c, d) f =
    let (metadata, e) =
      fold_total store.family store.declarations address.value (suc (bit_length store.family))
        (omega arith) c d in
    (metadata, rw (f, is_family_refl store.family) e)

-- Whatever is declared, revoked and cleared, and whichever of the calls are refused, the effective
-- metadata of every address of the store's family exists: no two kinds meet on its path.
pub effective-run :
    (family : AddressFamily) (calls : List Call) (address : Address)
    → documents_are_dicts calls ≡ true
    → address.family ≡ family
    → (metadata : Metadata) × (effective (run (new family) calls) address ≡ ok metadata)
unfolding new
effective-run family calls address h f =
    let (sound, same) =
      run-Sound (new family) calls h (new-Consistent, λ p m e. ground (arith, e)) in
    effective-Sound (run (new family) calls) address sound (f ∙ sym same)
