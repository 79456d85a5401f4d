-- ===== src/Trie/Combine/Values.antt =====
-- trie/metadata/combine.py: the rules of the kinds of metadata, key by key.
use Prim.Native.String.{String}
use mathlib.Core.List.{append-nil, append_assoc}
use hammertime.Base.{
  ℕ, ◌≡◌, refl, sym, ap, ◌∙◌, not, ◌&&◌, ◌||◌, Option, none, some, List, [], ◌∷◌, ◌++◌, Result, ok,
  err, ◌>>=◌, Bool-cases, inl, inr, arith,
}
use hammertime.Base.BitOr.{or_assoc, or_comm, or_idempotent}
use hammertime.Base.Dict.{is_in, string_key, same_refl}
use hammertime.Trie.Combine.{
  MetadataValue, tags, bitmask, override, missing, union, combine_checked, combine_values, combined,
}

-- What a key that one of two documents may lack has in their combination.
unfoldable pub combine_at :
    Option MetadataValue → Option MetadataValue → Result (Option MetadataValue)
combine_at less none = ok less
combine_at less (some value) = do next ← combined less value; ok (some next)

is_in-append : (t : String) (xs ys : List String) → is_in t (xs ++ ys) ≡ (is_in t xs || is_in t ys)
is_in-append t [] ys = refl
is_in-append t (x ∷ xs) ys = ground (arith, is_in-append t xs ys)

is_in-missing :
    (t : String) (xs ys : List String) → is_in t (missing xs ys) ≡ (is_in t ys && not (is_in t xs))
is_in-missing t xs [] = refl
is_in-missing t xs (y ∷ ys) = elim (Bool-cases (string_key.same y t)) [
  | inl e ↦ ground (arith, e, (string_key.same_iff y t).0 e, is_in-missing t xs ys)
  | inr e ↦ ground (arith, e, is_in-missing t xs ys)
]

-- A name is in a union exactly if it is in one of the sets.
pub is_in-union :
    (t : String) (xs ys : List String) → is_in t (union xs ys) ≡ (is_in t xs || is_in t ys)
is_in-union t xs ys = ground (arith, is_in-append t xs (missing xs ys), is_in-missing t xs ys)

missing-union : (xs ys zs : List String) → missing (union xs ys) zs ≡ missing xs (missing ys zs)
missing-union xs ys [] = refl
missing-union xs ys (z ∷ zs) = ground (arith, missing-union xs ys zs, is_in-union z xs ys)

missing-append : (xs ys zs : List String) → missing xs (ys ++ zs) ≡ missing xs ys ++ missing xs zs
missing-append xs [] zs = refl
missing-append xs (y ∷ ys) zs = ground (arith, missing-append xs ys zs)

union_assoc : (xs ys zs : List String) → union (union xs ys) zs ≡ union xs (union ys zs)
union_assoc xs ys zs =
    append_assoc xs (missing xs ys) (missing (union xs ys) zs)
    ∙ ap (λ rest. xs ++ rest)
        (ap (λ rest. missing xs ys ++ rest) (missing-union xs ys zs)
          ∙ sym (missing-append xs ys (missing ys zs)))

missing_present : (before xs : List String) → missing (before ++ xs) xs ≡ []
missing_present before [] = refl
missing_present before (x ∷ xs) =
    let rest = missing_present (before ++ x ∷ []) xs in
    ground (
      arith,
      rest,
      append_assoc before (x ∷ []) xs,
      is_in-append x before (x ∷ xs),
      same_refl {K = String} x,
    )

union_idempotent : (xs : List String) → union xs xs ≡ xs
union_idempotent xs = ap (λ rest. xs ++ rest) (missing_present [] xs) ∙ append-nil xs

assoc_values :
    (a b c : MetadataValue)
    → (combine_checked a b >>= λ ab. combine_checked ab c)
      ≡ (combine_checked b c >>= λ bc. combine_checked a bc)
unfolding combine_checked
assoc_values (tags a) (tags b) (tags c) = ap (λ names. ok (tags names)) (union_assoc a b c)
assoc_values (tags a) (tags b) (bitmask c) = refl
assoc_values (tags a) (tags b) (override c) = refl
assoc_values (tags a) (bitmask b) (tags c) = refl
assoc_values (tags a) (bitmask b) (bitmask c) = refl
assoc_values (tags a) (bitmask b) (override c) = refl
assoc_values (tags a) (override b) (tags c) = refl
assoc_values (tags a) (override b) (bitmask c) = refl
assoc_values (tags a) (override b) (override c) = refl
assoc_values (bitmask a) (tags b) (tags c) = refl
assoc_values (bitmask a) (tags b) (bitmask c) = refl
assoc_values (bitmask a) (tags b) (override c) = refl
assoc_values (bitmask a) (bitmask b) (tags c) = refl
assoc_values (bitmask a) (bitmask b) (bitmask c) = ap (λ bits. ok (bitmask bits)) (or_assoc a b c)
assoc_values (bitmask a) (bitmask b) (override c) = refl
assoc_values (bitmask a) (override b) (tags c) = refl
assoc_values (bitmask a) (override b) (bitmask c) = refl
assoc_values (bitmask a) (override b) (override c) = refl
assoc_values (override a) (tags b) (tags c) = refl
assoc_values (override a) (tags b) (bitmask c) = refl
assoc_values (override a) (tags b) (override c) = refl
assoc_values (override a) (bitmask b) (tags c) = refl
assoc_values (override a) (bitmask b) (bitmask c) = refl
assoc_values (override a) (bitmask b) (override c) = refl
assoc_values (override a) (override b) (tags c) = refl
assoc_values (override a) (override b) (bitmask c) = refl
assoc_values (override a) (override b) (override c) = refl

idempotent_values : (a : MetadataValue) → combine_checked a a ≡ ok a
unfolding combine_checked
idempotent_values (tags a) = ap (λ names. ok (tags names)) (union_idempotent a)
idempotent_values (bitmask a) = ap (λ bits. ok (bitmask bits)) (or_idempotent a)
idempotent_values (override a) = refl

-- A value under a key that both documents have, after a call that may raise.
abbrev given : Result MetadataValue → Result (Option MetadataValue)
given r = r >>= λ value. ok (some value)

given_then :
    (r : Result MetadataValue) (f : MetadataValue → Result MetadataValue)
    (g : Option MetadataValue → Result (Option MetadataValue))
    → ((value : MetadataValue) → g (some value) ≡ given (f value))
    → (given r >>= g) ≡ given (r >>= f)
given_then (ok value) f g h = h value
given_then (err e) f g h = refl

given_none : (r : Result MetadataValue) → (given r >>= λ x. ok x) ≡ given r
given_none (ok value) = refl
given_none (err e) = refl

given_left : (r : Result MetadataValue) → (given r >>= λ x. combine_at none x) ≡ given r
unfolding combine_at
given_left (ok value) = refl
given_left (err e) = refl

combine_at_assoc :
    (a b c : Option MetadataValue)
    → (combine_at a b >>= λ ab. combine_at ab c) ≡ (combine_at b c >>= λ bc. combine_at a bc)
unfolding combine_at
combine_at_assoc none none none = refl
combine_at_assoc (some a) none none = refl
combine_at_assoc none (some b) none = refl
combine_at_assoc (some a) (some b) none = given_none (combine_checked a b)
combine_at_assoc none none (some c) = refl
combine_at_assoc (some a) none (some c) = refl
combine_at_assoc none (some b) (some c) = sym (given_left (combine_checked b c))
combine_at_assoc (some a) (some b) (some c) =
    given_then (combine_checked a b) (λ ab. combine_checked ab c) (λ ab. combine_at ab (some c))
      (λ value. refl)
    ∙ ap given (assoc_values a b c)
    ∙ sym (
        given_then (combine_checked b c) (λ bc. combine_checked a bc) (λ bc. combine_at (some a) bc)
          (λ value. refl))

-- Under one key, combining is associative, refusals included, a document that lacks the key is the
-- identity on either side, and a value combines with itself to itself.
pub combine_at_lem :
    (a b c : Option MetadataValue)
    → ((combine_at a b >>= λ ab. combine_at ab c) ≡ (combine_at b c >>= λ bc. combine_at a bc))
      × (combine_at none a ≡ ok a)
      × (combine_at a none ≡ ok a)
      × (combine_at a a ≡ ok a)
unfolding combine_at
combine_at_lem none b c = (combine_at_assoc none b c, refl, refl, refl)
combine_at_lem (some a) b c =
    (combine_at_assoc (some a) b c, refl, refl, ap given (idempotent_values a))

-- Sets of tags and masks combine to the same tags and the same mask in either order.
pub combine_values_comm :
    (t : String) (xs ys : List String) (m n : ℕ)
    → (is_in t (union xs ys) ≡ is_in t (union ys xs))
      × (combine_values (bitmask m) (bitmask n) ≡ combine_values (bitmask n) (bitmask m))
unfolding combine_values combine_checked
combine_values_comm t xs ys m n = (
  ground (arith, is_in-union t xs ys, is_in-union t ys xs),
  ap (λ bits. ok (bitmask bits)) (or_comm m n),
)
