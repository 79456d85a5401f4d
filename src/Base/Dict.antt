-- ===== src/Base/Dict.antt =====
-- Python's dictionaries as lists of bindings, in the order of insertion, for keys whose equality
-- is decided by a test.
use mathlib.Core.Path.{◌≡◌, refl}
use mathlib.Core.Logic.{◌↔◌, inl, inr}
use mathlib.Core.Bool.{Bool, true, false, not, ◌&&◌, ◌||◌}
use mathlib.Core.Option.{Option, none, some}
use mathlib.Core.List.{List, [], ◌∷◌, ◌++◌}
use Prim.Native.Nat.{ℕ, suc, ◌≤◌, ◌<◌}
use hammertime.Base.Lists.{length}
use Prim.Native.String.{String}
use text.Mathlib.Text
use text.Mathlib.TextEquality.{eq_iff}
use hammertime.Base.Tests.{if◌then◌else◌, ◌==◌, ==_iff, Bool-cases}
use native.Mathlib.Omega.{arith}

pub record Key {ℓ} (K : Type ℓ) : Type ℓ where
  pub same : K → K → Bool
  pub same_iff : (a b : K) → (same a b ≡ true) ↔ (a ≡ b)

instance abbrev pub nat_key : Key ℕ
nat_key = record { same = λ a b. a == b; same_iff = ==_iff }

instance abbrev pub string_key : Key String
string_key = record { same = λ a b. Text.◌==◌ a b; same_iff = eq_iff }

module _ {ℓ κ} {A : Type ℓ} {B : Type κ} ⦃e : Key A⦄ ⦃f : Key B⦄ where
  abbrev pub same_pair : A × B → A × B → Bool
  same_pair p q = e.same p.0 q.0 && f.same p.1 q.1

  pub same_pair_iff : (p q : A × B) → (same_pair p q ≡ true) ↔ (p ≡ q)
  same_pair_iff p q = ground (arith, e.same_iff p.0 q.0, f.same_iff p.1 q.1)

  instance abbrev pub pair_key : Key (A × B)
  pair_key = record { same = same_pair; same_iff = same_pair_iff }

-- `d.get(k, default)` after the lookup.
abbrev pub value_or {ℓ} : {A : Type ℓ} → A → Option A → A
value_or d none = d
value_or d (some a) = a

module _ {ℓ} {K : Type ℓ} ⦃e : Key K⦄ where
  pub same_refl : (k : K) → e.same k k ≡ true
  same_refl k = (e.same_iff k k).1 refl

  pub differ_sym : (a b : K) → e.same a b ≡ false → e.same b a ≡ false
  differ_sym a b h = ground (arith, e.same_iff a b, e.same_iff b a)

  -- Python's sets of keys: `in`, `add` and `discard`.
  abbrev pub is_in : K → List K → Bool
  is_in k [] = false
  is_in k (a ∷ keys) = e.same a k || is_in k keys

  abbrev pub include : K → List K → List K
  include k keys = if is_in k keys then keys else k ∷ keys

  abbrev pub discard : K → List K → List K
  discard k [] = []
  discard k (a ∷ keys) = let rest = discard k keys in if e.same a k then rest else a ∷ rest

  pub is_in-include :
      (k j : K) (keys : List K) → is_in j (include k keys) ≡ (e.same k j || is_in j keys)
  is_in-include k j keys = elim (Bool-cases (e.same k j)) [
    | inl h ↦ ground (arith, (e.same_iff k j).0 h)
    | inr h ↦ ground (arith, h)
  ]

  pub is_in-discard :
      (k j : K) (keys : List K) → is_in j (discard k keys) ≡ (not (e.same k j) && is_in j keys)
  is_in-discard k j [] = ground arith
  is_in-discard k j (a ∷ keys) =
      ground (arith, is_in-discard k j keys, e.same_iff a k, e.same_iff a j, e.same_iff k j)

module _ {ℓ κ} {K : Type ℓ} {V : Type κ} ⦃e : Key K⦄ where
  -- `d.get(k)`
  abbrev pub lookup : K → List (K × V) → Option V
  lookup k [] = none
  lookup k ((a, w) ∷ d) = if e.same a k then some w else lookup k d

  -- `d[k] = v`: a key that is present keeps its place.
  abbrev pub put : K → V → List (K × V) → List (K × V)
  put k v [] = (k, v) ∷ []
  put k v ((a, w) ∷ d) = let rest = put k v d in if e.same a k then (a, v) ∷ d else (a, w) ∷ rest

  -- `d.pop(k, None)`
  abbrev pub erase : K → List (K × V) → List (K × V)
  erase k [] = []
  erase k ((a, w) ∷ d) = let rest = erase k d in if e.same a k then rest else (a, w) ∷ rest

  pub lookup-put :
      (k j : K) (v : V) (d : List (K × V))
      → lookup j (put k v d) ≡ (if e.same k j then some v else lookup j d)
  lookup-put k j v [] = refl
  lookup-put k j v ((a, w) ∷ d) =
      ground (arith, lookup-put k j v d, e.same_iff a k, e.same_iff a j, e.same_iff k j)

  pub lookup-erase :
      (k j : K) (d : List (K × V))
      → lookup j (erase k d) ≡ (if e.same k j then none else lookup j d)
  lookup-erase k j [] = ground arith
  lookup-erase k j ((a, w) ∷ d) =
      ground (arith, lookup-erase k j d, e.same_iff a k, e.same_iff a j, e.same_iff k j)

  pub length-erase : (k : K) (d : List (K × V)) → length (erase k d) ≤ length d
  length-erase k [] = omega arith
  length-erase k ((a, w) ∷ d) = ground (arith, length-erase k d)

  pub length-erase_found :
      (k : K) (v : V) (d : List (K × V)) → lookup k d ≡ some v → length (erase k d) < length d
  length-erase_found k v [] h = ground (arith, h)
  length-erase_found k v ((a, w) ∷ d) h =
      ground (arith, h, length-erase k d, length-erase_found k v d)

  pub length-put : (k : K) (v : V) (d : List (K × V)) → length (put k v d) ≤ suc (length d)
  length-put k v [] = omega arith
  length-put k v ((a, w) ∷ d) = ground (arith, length-put k v d)

  pub lookup_last :
      (k : K) (v : V) (d : List (K × V)) → lookup k (erase k d ++ (k, v) ∷ []) ≡ some v
  lookup_last k v [] = rw (same_refl k)
  lookup_last k v ((a, w) ∷ d) = ground (arith, lookup_last k v d)
