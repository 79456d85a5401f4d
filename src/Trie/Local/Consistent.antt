-- ===== src/Trie/Local/Consistent.antt =====
-- trie/metadata/local.py: the declarations on one path, after any calls.
use native.Mathlib.Nat.{mul-div_left, one-le-pow}
use hammertime.Base.{
  ℕ, ◌+◌, ◌-◌, ◌*◌, ◌/◌, ◌^◌, ◌≤◌, ◌≡◌, refl, sym, ◌∙◌, true, false, not, ◌||◌, Option, some, List,
  [], ◌∷◌, ok, Bool-cases, Option-cases, inl, inr, ==_iff, arith,
}
use hammertime.Base.Dict.{lookup, put, erase, lookup-put, lookup-erase, differ_sym, string_key}
use hammertime.Core.Address.{AddressFamily, bit_length}
use hammertime.Core.Address.Bits.{quotients_up}
use hammertime.Core.Prefix.{Prefix}
use hammertime.Core.Prefix.Same.{prefix_key}
use hammertime.Trie.Binary.Queries.{prefix_of}
use hammertime.Trie.Combine.{Metadata, Kind, tags_kind, bitmask_kind, override_kind, kind, is_kind}
use hammertime.Base.Keys.{is_dict}
use hammertime.Trie.Combine.Documents.{Agrees}
use hammertime.Trie.Local.{covers, clashes, check_path}

is_kind_eq : (a b : Kind) → is_kind a b ≡ true → a ≡ b
is_kind_eq tags_kind tags_kind h = refl
is_kind_eq bitmask_kind bitmask_kind h = refl
is_kind_eq override_kind override_kind h = refl
is_kind_eq tags_kind bitmask_kind h = ground (arith, h)
is_kind_eq tags_kind override_kind h = ground (arith, h)
is_kind_eq bitmask_kind tags_kind h = ground (arith, h)
is_kind_eq bitmask_kind override_kind h = ground (arith, h)
is_kind_eq override_kind tags_kind h = ground (arith, h)
is_kind_eq override_kind bitmask_kind h = ground (arith, h)

clashes-Agrees :
    (declared document : Metadata) → clashes declared document ≡ false → Agrees declared document
unfolding clashes
clashes-Agrees declared [] h key v w e f = ground (arith, f)
clashes-Agrees declared ((k, u) ∷ items) h key v w e f = elim (Option-cases (lookup k declared)) [
  | inl absent ↦ elim (Bool-cases (string_key.same k key)) [
    | inl s ↦ ground (arith, absent, (string_key.same_iff k key).0 s)
    | inr s ↦ clashes-Agrees declared items (ground (arith, absent)) key v w e (ground (arith, s))
  ]
  | inr (p, q) ↦
      let clean : is_kind (kind p) (kind u) ≡ true = ground (arith, q) in
      elim (Bool-cases (string_key.same k key)) [
        | inl s ↦
            ground (arith, q, (string_key.same_iff k key).0 s, is_kind_eq (kind p) (kind u) clean)
        | inr s ↦
            clashes-Agrees declared items (ground (arith, q, clean)) key v w e (ground (arith, s))
      ]
]

-- A network that is cut at a shift has the quotients of the whole from there on.
cut_quotient : (n b a : ℕ) → b ≤ a → n / 2 ^ b * 2 ^ b / 2 ^ a ≡ n / 2 ^ a
cut_quotient n b a h =
    let cut =
      quotients_up (n / 2 ^ b * 2 ^ b) n b (a - b)
        (mul-div_left (n / 2 ^ b) (one-le-pow b 2 (omega arith))) in
    let split : a - b + b ≡ a = omega arith in rw split at cut

-- Any two declarations of which one covers the other agree, and each is a dictionary.
abbrev pub Consistent : List (Prefix × Metadata) → Type 0
Consistent ds =
    (p q : Prefix) (m n : Metadata)
    → lookup p ds ≡ some m
    → lookup q ds ≡ some n
    → covers p q ≡ true
    → Agrees m n

abbrev pub Dicts : List (Prefix × Metadata) → Type 0
Dicts ds = (p : Prefix) (m : Metadata) → lookup p ds ≡ some m → is_dict m ≡ true

pub covers-prefix_of :
    (family : AddressFamily) (n i j : ℕ)
    → i ≤ j
    → j ≤ bit_length family
    → covers (prefix_of family n i) (prefix_of family n j) ≡ true
unfolding covers prefix_of
covers-prefix_of family n i j h k =
    let bits = bit_length family in
    let network = n / 2 ^ (bits - i) * 2 ^ (bits - i) in
    let other = n / 2 ^ (bits - j) * 2 ^ (bits - j) in
    let same : network / 2 ^ (bits - i) ≡ other / 2 ^ (bits - i) =
      cut_quotient n (bits - i) (bits - i) (omega arith)
      ∙ sym (cut_quotient n (bits - j) (bits - i) (omega arith)) in
    ground (arith, same, (==_iff (network / 2 ^ (bits - i)) (other / 2 ^ (bits - i))).1 same)

pub new-Consistent : Consistent []
new-Consistent p q m n e f = ground (arith, e)

pub erase-Consistent :
    (p : Prefix) (ds : List (Prefix × Metadata)) → Consistent ds → Consistent (erase p ds)
erase-Consistent p ds c a b m n e f =
    c a b m n (ground (arith, e, lookup-erase p a ds, Bool-cases (prefix_key.same p a)))
      (ground (arith, f, lookup-erase p b ds, Bool-cases (prefix_key.same p b)))

checked_rest :
    (p other : Prefix) (document declared : Metadata) (ds : List (Prefix × Metadata))
    → check_path p document ((other, declared) ∷ ds) ≡ ok tt
    → check_path p document ds ≡ ok tt
unfolding check_path
checked_rest p other document declared ds h = ground (
  arith,
  Bool-cases (prefix_key.same other p || not (covers other p || covers p other)),
  Bool-cases (clashes declared document),
)

checked_first :
    (p other : Prefix) (document declared : Metadata) (ds : List (Prefix × Metadata))
    → check_path p document ((other, declared) ∷ ds) ≡ ok tt
    → prefix_key.same other p ≡ false
    → (covers other p || covers p other) ≡ true
    → clashes declared document ≡ false
unfolding check_path
checked_first p other document declared ds h d c = elim (Bool-cases (clashes declared document)) [
  | inl e ↦ ground (arith, e, d, c)
  | inr e ↦ e
]

-- What a document that passed the check has in common with each declaration on its path.
checked-Agrees :
    (p q : Prefix) (document m : Metadata) (ds : List (Prefix × Metadata))
    → check_path p document ds ≡ ok tt
    → lookup q ds ≡ some m
    → prefix_key.same q p ≡ false
    → (covers q p || covers p q) ≡ true
    → Agrees m document
unfolding check_path
checked-Agrees p q document m [] h e d c = ground (arith, e)
checked-Agrees p q document m ((other, declared) ∷ ds) h e d c =
    elim (Bool-cases (prefix_key.same other q)) [
      | inl s ↦
          let here = (prefix_key.same_iff other q).0 s in
          let same : prefix_key.same other p ≡ false = rw here d in
          let near : (covers other p || covers p other) ≡ true = rw here c in
          let found : declared ≡ m = ground (arith, s, e) in
          clashes-Agrees m document
            (rw (← found) (checked_first p other document declared ds h same near))
      | inr s ↦
          checked-Agrees p q document m ds (checked_rest p other document declared ds h)
            (ground (arith, s, e)) d c
    ]

same_lookup : (m n : Metadata) (o : Option Metadata) → o ≡ some m → o ≡ some n → m ≡ n
same_lookup m n o e f = ground (arith, e, f)

Agrees-refl : (m n : Metadata) → m ≡ n → Agrees m n
Agrees-refl m n h key v w e f = ground (arith, h, e, f)

Agrees-sym : (m n : Metadata) → Agrees m n → Agrees n m
Agrees-sym m n a key v w e f = sym (a key w v f e)

pub put-Consistent :
    (p : Prefix) (document : Metadata) (ds : List (Prefix × Metadata))
    → check_path p document ds ≡ ok tt
    → Consistent ds
    → Consistent (put p document ds)
put-Consistent p document ds h c a b m n e f k =
    let at_a = lookup-put p a document ds in
    let at_b = lookup-put p b document ds in
    elim (Bool-cases (prefix_key.same p a)) [
      | inl s ↦
          let here : document ≡ m = ground (arith, s, e, at_a) in
          elim (Bool-cases (prefix_key.same p b)) [
            | inl t ↦ Agrees-refl m n (ground (arith, t, f, at_b, here))
            | inr t ↦
                let pa : p ≡ a = (prefix_key.same_iff p a).0 s in
                let other : lookup b ds ≡ some n = ground (arith, t, f, at_b) in
                let near : (covers b p || covers p b) ≡ true = rw pa (ground (arith, k)) in
                rw (← here) (
                  Agrees-sym n document
                    (checked-Agrees p b document n ds h other (differ_sym p b t) near))
          ]
      | inr s ↦
          let old : lookup a ds ≡ some m = ground (arith, s, e, at_a) in
          elim (Bool-cases (prefix_key.same p b)) [
            | inl t ↦
                let pb : p ≡ b = (prefix_key.same_iff p b).0 t in
                let there : document ≡ n = ground (arith, t, f, at_b) in
                let near : (covers a p || covers p a) ≡ true = rw pb (ground (arith, k)) in
                rw (← there) (checked-Agrees p a document m ds h old (differ_sym p a s) near)
            | inr t ↦ c a b m n old (ground (arith, t, f, at_b)) k
          ]
    ]

pub put-Dicts :
    (p : Prefix) (document : Metadata) (ds : List (Prefix × Metadata))
    → is_dict document ≡ true
    → Dicts ds
    → Dicts (put p document ds)
put-Dicts p document ds h d q m e = elim (Bool-cases (prefix_key.same p q)) [
  | inl s ↦
      let here : document ≡ m = ground (arith, s, e, lookup-put p q document ds) in rw (← here) h
  | inr s ↦ d q m (ground (arith, s, e, lookup-put p q document ds))
]

pub erase-Dicts : (p : Prefix) (ds : List (Prefix × Metadata)) → Dicts ds → Dicts (erase p ds)
erase-Dicts p ds d q m e =
    d q m (ground (arith, e, lookup-erase p q ds, Bool-cases (prefix_key.same p q)))
