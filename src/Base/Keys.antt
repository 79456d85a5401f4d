-- ===== src/Base/Keys.antt =====
-- Python's dictionaries: no key stands twice, and a sum over the values.
use mathlib.Core.Path.{◌≡◌, refl}
use mathlib.Core.Logic.{inl, inr}
use mathlib.Core.Bool.{Bool, true, false, not, ◌&&◌, ◌||◌}
use mathlib.Core.Option.{Option, none, some}
use mathlib.Core.List.{List, [], ◌∷◌}
use Prim.Native.Nat.{ℕ, ◌+◌}
use hammertime.Base.Tests.{Bool-cases}
use hammertime.Base.Dict.{Key, lookup, put, erase}
use native.Mathlib.Omega.{arith}

abbrev pub measure_at {κ} : {V : Type κ} → (V → ℕ) → Option V → ℕ
measure_at f none = 0
measure_at f (some v) = f v

module _ {ℓ κ} {K : Type ℓ} {V : Type κ} ⦃e : Key K⦄ where
  -- `k in d`
  abbrev pub has_key : K → List (K × V) → Bool
  has_key k [] = false
  has_key k ((a, w) ∷ d) = e.same a k || has_key k d

  abbrev pub is_dict : List (K × V) → Bool
  is_dict [] = true
  is_dict ((a, w) ∷ d) = not (has_key a d) && is_dict d

  pub lookup_absent : (k : K) (d : List (K × V)) → has_key k d ≡ false → lookup k d ≡ none
  lookup_absent k [] h = refl
  lookup_absent k ((a, w) ∷ d) h = ground (arith, lookup_absent k d)

  pub has_key-put :
      (k j : K) (v : V) (d : List (K × V)) → has_key j (put k v d) ≡ (e.same k j || has_key j d)
  has_key-put k j v [] = refl
  has_key-put k j v ((a, w) ∷ d) = elim (Bool-cases (e.same a k)) [
    | inl s ↦ ground (arith, s, (e.same_iff a k).0 s)
    | inr s ↦ ground (arith, s, has_key-put k j v d)
  ]

  pub has_key-erase :
      (k j : K) (d : List (K × V)) → has_key j (erase k d) ≡ (not (e.same k j) && has_key j d)
  has_key-erase k j [] = ground arith
  has_key-erase k j ((a, w) ∷ d) =
      ground (arith, has_key-erase k j d, e.same_iff a k, e.same_iff a j, e.same_iff k j)

  pub is_dict-put :
      (k : K) (v : V) (d : List (K × V)) → is_dict d ≡ true → is_dict (put k v d) ≡ true
  is_dict-put k v [] h = refl
  is_dict-put k v ((a, w) ∷ d) h =
      ground (arith, is_dict-put k v d, has_key-put k a v d, e.same_iff a k, e.same_iff k a)

  pub is_dict-erase : (k : K) (d : List (K × V)) → is_dict d ≡ true → is_dict (erase k d) ≡ true
  is_dict-erase k [] h = refl
  is_dict-erase k ((a, w) ∷ d) h = ground (arith, is_dict-erase k d, has_key-erase k a d)

  -- The sum of a measure of the values.
  abbrev pub total_by : (V → ℕ) → List (K × V) → ℕ
  total_by f [] = 0
  total_by f ((a, w) ∷ d) = f w + total_by f d

  pub total_by-put :
      (f : V → ℕ) (k : K) (v : V) (d : List (K × V))
      → total_by f (put k v d) + measure_at f (lookup k d) ≡ total_by f d + f v
  total_by-put f k v [] = ground arith
  total_by-put f k v ((a, w) ∷ d) = elim (Bool-cases (e.same a k)) [
    | inl s ↦ ground (arith, s)
    | inr s ↦ ground (arith, s, total_by-put f k v d)
  ]

  pub erase_absent : (k : K) (d : List (K × V)) → has_key k d ≡ false → erase k d ≡ d
  erase_absent k [] h = refl
  erase_absent k ((a, w) ∷ d) h = ground (arith, erase_absent k d)

  pub total_by-erase :
      (f : V → ℕ) (k : K) (d : List (K × V))
      → is_dict d ≡ true
      → total_by f (erase k d) + measure_at f (lookup k d) ≡ total_by f d
  total_by-erase f k [] h = ground arith
  total_by-erase f k ((a, w) ∷ d) h = elim (Bool-cases (e.same a k)) [
    | inl s ↦ ground (arith, s, (e.same_iff a k).0 s, erase_absent k d)
    | inr s ↦ ground (arith, s, total_by-erase f k d)
  ]
