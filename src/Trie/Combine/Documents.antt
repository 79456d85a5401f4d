-- ===== src/Trie/Combine/Documents.antt =====
-- trie/metadata/combine.py: what a document that combines others holds.
use Prim.Native.String.{String}
use hammertime.Base.{
  ◌≡◌, refl, ◌∙◌, Bool, true, ◌&&◌, Option, none, some, List, [], ◌∷◌, Result, ok, ◌>>=◌,
  Bool-cases, Option-cases, Result-cases, inl, inr, arith,
}
use hammertime.Base.Dict.{lookup, put, lookup-put, string_key, same_refl}
use hammertime.Base.Keys.{is_dict, lookup_absent}
use hammertime.Trie.Combine.{
  MetadataValue, tags, bitmask, override, kind, Metadata, combine_checked, combined, combine,
  combine_from, combine_path, empty_metadata,
}
use hammertime.Trie.Combine.Values.{combine_at}

-- Under each key, a combination holds the combination of what the two documents hold.
pub combine-lookup :
    (less more result : Metadata) (key : String)
    → is_dict more ≡ true
    → combine less more ≡ ok result
    → combine_at (lookup key less) (lookup key more) ≡ ok (lookup key result)
unfolding combine combine_at
combine-lookup less [] result key h e = ground arith
combine-lookup less ((k, v) ∷ items) result key h e =
    elim (Result-cases (combined (lookup k less) v)) [
      | inr (x, q) ↦ ground (arith, q)
      | inl (next, q) ↦
          let rest =
            combine-lookup (put k next less) items result key (ground arith) (ground (arith, q)) in
          let after = lookup-put k key next less in
          elim (Bool-cases (string_key.same k key)) [
            | inl s ↦
                let here = (string_key.same_iff k key).0 s in
                ground (arith, s, here, q, rest, after, lookup_absent key items)
            | inr s ↦ ground (arith, s, rest, after)
          ]
    ]

-- Two values of one kind combine, to a value of that kind.
combines :
    (a b : MetadataValue) → kind a ≡ kind b → (c : MetadataValue) × (combine_checked a b ≡ ok c)
unfolding combine_checked
combines (tags a) (tags b) h = (_, refl)
combines (bitmask a) (bitmask b) h = (_, refl)
combines (override a) (override b) h = (_, refl)
combines (tags a) (bitmask b) h = ground (arith, h)
combines (tags a) (override b) h = ground (arith, h)
combines (bitmask a) (tags b) h = ground (arith, h)
combines (bitmask a) (override b) h = ground (arith, h)
combines (override a) (tags b) h = ground (arith, h)
combines (override a) (bitmask b) h = ground (arith, h)

kind-combined :
    (o : Option MetadataValue) (b c : MetadataValue) → combined o b ≡ ok c → kind c ≡ kind b
unfolding combine_checked
kind-combined none b c h = ground arith
kind-combined (some (tags a)) (tags b) c h = ground arith
kind-combined (some (bitmask a)) (bitmask b) c h = ground arith
kind-combined (some (override a)) (override b) c h = ground arith
kind-combined (some (tags a)) (bitmask b) c h = ground arith
kind-combined (some (tags a)) (override b) c h = ground arith
kind-combined (some (bitmask a)) (tags b) c h = ground arith
kind-combined (some (bitmask a)) (override b) c h = ground arith
kind-combined (some (override a)) (tags b) c h = ground arith
kind-combined (some (override a)) (bitmask b) c h = ground arith

-- No key has two kinds in two documents.
abbrev pub Agrees : Metadata → Metadata → Type 0
Agrees d e =
    (key : String) (v w : MetadataValue)
    → lookup key d ≡ some v
    → lookup key e ≡ some w
    → kind v ≡ kind w

Agrees-rest :
    (r items : Metadata) (k : String) (v next : MetadataValue)
    → is_dict ((k, v) ∷ items) ≡ true
    → Agrees r ((k, v) ∷ items)
    → Agrees (put k next r) items
Agrees-rest r items k v next h a key u w e f = elim (Bool-cases (string_key.same k key)) [
  | inl s ↦
      let here = (string_key.same_iff k key).0 s in ground (arith, here, lookup_absent key items)
  | inr s ↦ a key u w (ground (arith, s, lookup-put k key next r)) (ground (arith, s))
]

combined_total :
    (r : Metadata) (k : String) (v : MetadataValue) (items : Metadata)
    → Agrees r ((k, v) ∷ items)
    → (next : MetadataValue) × (combined (lookup k r) v ≡ ok next)
combined_total r k v items a = elim (Option-cases (lookup k r)) [
  | inl e ↦ (v, rw e refl)
  | inr (p, e) ↦
      let same = a k p v e (ground (arith, same_refl {K = String} k)) in
      let (c, q) = combines p v same in (c, rw e q)
]

-- Documents that agree combine.
pub combine_total :
    (r d : Metadata) → is_dict d ≡ true → Agrees r d → (r' : Metadata) × (combine r d ≡ ok r')
unfolding combine
combine_total r [] h a = (r, refl)
combine_total r ((k, v) ∷ items) h a =
    let (next, q) = combined_total r k v items a in
    let (r', e) =
      combine_total (put k next r) items (ground arith) (Agrees-rest r items k v next h a) in
    (r', rw q e)

Agrees-after :
    (r d r' e : Metadata)
    → is_dict d ≡ true
    → combine r d ≡ ok r'
    → Agrees r e
    → Agrees d e
    → Agrees r' e
unfolding combine_at
Agrees-after r d r' e h c a b key v w f g =
    let there = combine-lookup r d r' key h c in
    elim (Option-cases (lookup key d)) [
      | inl absent ↦ a key v w (ground (arith, absent, there, f)) g
      | inr (u, q) ↦
          let made : combined (lookup key r) u ≡ ok v = ground (arith, q, there, f) in
          kind-combined (lookup key r) u v made ∙ b key u w q g
    ]

-- Documents that agree with each other and with a first one.
abbrev pub AllAgree : Metadata → List Metadata → Type 0
AllAgree r [] = Unit
AllAgree r (d ∷ ds) = (is_dict d ≡ true) × Agrees r d × AllAgree r ds × AllAgree d ds

AllAgree-after :
    (r d r' : Metadata) (ds : List Metadata)
    → is_dict d ≡ true
    → combine r d ≡ ok r'
    → AllAgree r ds
    → AllAgree d ds
    → AllAgree r' ds
AllAgree-after r d r' [] h c a b = tt
AllAgree-after r d r' (e ∷ ds) h c (he, ae, ar, an) (he', be, br, bn) =
    (he, Agrees-after r d r' e h c ae be, AllAgree-after r d r' ds h c ar br, an)

pub combine_from_total :
    (r : Metadata) (ds : List Metadata)
    → AllAgree r ds
    → (r' : Metadata) × (combine_from r ds ≡ ok r')
unfolding combine_from
combine_from_total r [] a = (r, refl)
combine_from_total r (d ∷ ds) (h, a, ar, ad) =
    let (next, e) = combine_total r d h a in
    let (r', e') = combine_from_total next ds (AllAgree-after r d next ds h e ar ad) in
    (r', rw e e')

-- What a key holds along a path: the values under it, least specific first.
abbrev pub combine_all :
    Option MetadataValue → List (Option MetadataValue) → Result (Option MetadataValue)
combine_all value [] = ok value
combine_all value (v ∷ vs) = combine_at value v >>= λ next. combine_all next vs

abbrev pub all_dicts : List Metadata → Bool
all_dicts [] = true
all_dicts (d ∷ ds) = is_dict d && all_dicts ds

abbrev pub values_at : String → List Metadata → List (Option MetadataValue)
values_at key [] = []
values_at key (d ∷ ds) = lookup key d ∷ values_at key ds

combine_from-lookup :
    (r r' : Metadata) (ds : List Metadata) (key : String)
    → all_dicts ds ≡ true
    → combine_from r ds ≡ ok r'
    → combine_all (lookup key r) (values_at key ds) ≡ ok (lookup key r')
unfolding combine_from
combine_from-lookup r r' [] key h e = ground (arith, e)
combine_from-lookup r r' (d ∷ ds) key h e = elim (Result-cases (combine r d)) [
  | inr (x, q) ↦ ground (arith, q, e)
  | inl (next, q) ↦
      let here = combine-lookup r d next key (ground arith) q in
      let there = combine_from-lookup next r' ds key (ground arith) (ground (arith, q, e)) in
      rw here there
]

-- A path's fold holds under each key the combination of the path's values under that key, in the
-- path's order: keys do not meet.
pub combine_path-lookup :
    (documents : List Metadata) (result : Metadata) (key : String)
    → all_dicts documents ≡ true
    → combine_path documents ≡ ok result
    → combine_all none (values_at key documents) ≡ ok (lookup key result)
unfolding combine_path
combine_path-lookup documents result key h e =
    combine_from-lookup empty_metadata result documents key h e
