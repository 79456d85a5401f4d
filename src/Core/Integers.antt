-- ===== src/Core/Integers.antt =====
-- Python's integers: their order, and the remainder, as core/config/models.py uses them.
use Prim.Native.Nat.{ℕ, zero, suc}
use native.Mathlib.Nat.{
  div-add-mod', mul-mod_left, add-mul-mod_self_right, mod-eq_of_lt, mod-lt, suc-mul,
}
use hammertime.Base.{
  ◌+◌, ◌-◌, ◌/◌, ◌%◌, ◌*◌, ◌<◌, ◌≤◌, ◌≡◌, refl, sym, ap, ◌∙◌, ◌↔◌, Bool, true, false, ltb, ◌==◌,
  ==_iff, arith,
}
use hammertime.Base.Int.{ℤ, pos, negsuc}

-- `a < b`
abbrev pub less : ℤ → ℤ → Bool
less (pos a) (pos b) = ltb a b
less (pos a) (negsuc b) = false
less (negsuc a) (pos b) = true
less (negsuc a) (negsuc b) = ltb b a

-- `-n` for a natural number, and `-a`
abbrev pub minus : ℕ → ℤ
minus zero = pos 0
minus (suc n) = negsuc n

abbrev pub negated : ℤ → ℤ
negated (pos n) = minus n
negated (negsuc n) = pos (suc n)

-- `a % b`: the remainder has the divisor's sign.
abbrev pub floor_mod : ℤ → ℕ → ℕ
floor_mod (pos a) b = a % b
floor_mod (negsuc n) b = b - 1 - n % b

abbrev pub modulo : ℤ → ℤ → ℤ
modulo a (pos b) = pos (floor_mod a b)
modulo a (negsuc m) = minus (floor_mod (negated a) (suc m))

abbrev pub is_zero : ℤ → Bool
is_zero (pos n) = n == 0
is_zero (negsuc n) = false

-- The distance from 0
abbrev pub size : ℤ → ℕ
size (pos n) = n
size (negsuc n) = suc n

abbrev pub Below : ℤ → ℤ → Type 0
Below (pos a) (pos b) = a < b
Below (pos a) (negsuc b) = false ≡ true
Below (negsuc a) (pos b) = Unit
Below (negsuc a) (negsuc b) = b < a

pub less_iff : (a b : ℤ) → (less a b ≡ true) ↔ Below a b
less_iff (pos a) (pos b) = (λ h. ground (arith, h), λ h. ground (arith, h))
less_iff (pos a) (negsuc b) = (λ h. h, λ h. h)
less_iff (negsuc a) (pos b) = (λ h. tt, λ h. refl)
less_iff (negsuc a) (negsuc b) = (λ h. ground (arith, h), λ h. ground (arith, h))

abbrev pub AtMost : ℤ → ℤ → Type 0
AtMost (pos a) (pos b) = a ≤ b
AtMost (pos a) (negsuc b) = false ≡ true
AtMost (negsuc a) (pos b) = Unit
AtMost (negsuc a) (negsuc b) = b ≤ a

pub not_less_iff : (a b : ℤ) → (less a b ≡ false) ↔ AtMost b a
not_less_iff (pos a) (pos b) = (λ h. ground (arith, h), λ h. ground (arith, h))
not_less_iff (pos a) (negsuc b) = (λ h. tt, λ h. refl)
not_less_iff (negsuc a) (pos b) = (λ h. sym h, λ h. sym h)
not_less_iff (negsuc a) (negsuc b) = (λ h. ground (arith, h), λ h. ground (arith, h))

-- A whole number of buckets, in either direction.
abbrev pub Divides : ℤ → ℤ → Type 0
Divides b a = (q : ℕ) × (q * size b ≡ size a)

pub whole_iff : (a b : ℕ) → ((a % b == 0) ≡ true) ↔ ((q : ℕ) × (q * b ≡ a))
whole_iff a b = (
  λ h. (a / b, ground (arith, h, div-add-mod' a b)),
  λ p. ground (arith, ap (λ t. t % b) (sym p.1), mul-mod_left p.0 b),
)

below_whole : (n b q : ℕ) → 0 < b → q * b ≡ suc n → n % b ≡ b - 1
below_whole n b zero h e = omega (arith, e)
below_whole n b (suc q) h e =
    let last : n ≡ b - 1 + q * b = omega (arith, e, suc-mul q b) in
    ap (λ t. t % b) last ∙ add-mul-mod_self_right (b - 1) q b ∙ mod-eq_of_lt (omega arith)

below_whole_iff : (n b : ℕ) → 0 < b → ((b - 1 - n % b == 0) ≡ true) ↔ ((q : ℕ) × (q * b ≡ suc n))
below_whole_iff n b h = (
  λ e.
      let none_left : b - 1 - n % b ≡ 0 = (==_iff (b - 1 - n % b) 0).0 e in
      (suc (n / b), omega (arith, none_left, suc-mul (n / b) b, div-add-mod' n b, mod-lt n h)),
  λ p. (==_iff (b - 1 - n % b) 0).1 (omega (arith, below_whole n b p.0 h p.1)),
)

is_zero-minus : (n : ℕ) → is_zero (minus n) ≡ (n == 0)
is_zero-minus zero = refl
is_zero-minus (suc n) = ground arith

-- The remainder is 0 exactly if the divisor divides, whatever the signs.
pub modulo_iff : (a b : ℤ) → is_zero b ≡ false → (is_zero (modulo a b) ≡ true) ↔ Divides b a
modulo_iff (pos a) (pos b) h = whole_iff a b
modulo_iff (negsuc n) (pos b) h = below_whole_iff n b (ground (arith, h))
modulo_iff (pos zero) (negsuc m) h =
    let iff = whole_iff 0 (suc m) in
    let same = is_zero-minus (floor_mod (pos 0) (suc m)) in
    (λ e. iff.0 (sym same ∙ e), λ p. same ∙ iff.1 p)
modulo_iff (pos (suc n)) (negsuc m) h =
    let iff = below_whole_iff n (suc m) (omega arith) in
    let same = is_zero-minus (floor_mod (negsuc n) (suc m)) in
    (λ e. iff.0 (sym same ∙ e), λ p. same ∙ iff.1 p)
modulo_iff (negsuc n) (negsuc m) h =
    let iff = whole_iff (suc n) (suc m) in
    let same = is_zero-minus (floor_mod (pos (suc n)) (suc m)) in
    (λ e. iff.0 (sym same ∙ e), λ p. same ∙ iff.1 p)
