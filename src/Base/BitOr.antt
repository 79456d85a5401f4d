-- ===== src/Base/BitOr.antt =====
-- Python's `a | b` of numbers that are not negative: Prim.Native.Nat's `bit_or`, by its digits.
use Prim.Native.Nat.{bit_or, bit_or-bitwise, digits, max}
use mathlib.Core.Path.{◌≡◌, refl, sym, ap, ◌∙◌}
use hammertime.Base.{ℕ, zero, suc, ◌+◌, ◌*◌, ◌/◌, ◌%◌, ◌≤◌, arith}

-- More digits to go than the first number has change nothing.
digits_enough :
    (n m a b : ℕ) → a ≤ n → a ≤ m → digits (λ b. b) max n a b ≡ digits (λ b. b) max m a b
digits_enough zero zero a b h k = refl
digits_enough zero (suc m) zero b h k = refl
digits_enough zero (suc m) (suc a) b h k = absurd (omega arith)
digits_enough (suc n) zero zero b h k = refl
digits_enough (suc n) zero (suc a) b h k = absurd (omega arith)
digits_enough (suc n) (suc m) zero b h k = refl
digits_enough (suc n) (suc m) (suc a) b h k =
    ap (λ d. d * 2 + max (suc a % 2) (b % 2))
      (digits_enough n m (suc a / 2) (b / 2) (omega arith) (omega arith))

or_digits : (a b : ℕ) → bit_or a b ≡ digits (λ b. b) max a a b
or_digits a b = λ i. bit_or-bitwise a b i

pub or_step : (a b : ℕ) → bit_or a b ≡ bit_or (a / 2) (b / 2) * 2 + max (a % 2) (b % 2)
or_step zero b = rw (or_digits zero b, or_digits 0 (b / 2)) (omega arith)
or_step (suc a) b =
    or_digits (suc a) b
    ∙ ap (λ d. d * 2 + max (suc a % 2) (b % 2))
        (digits_enough a (suc a / 2) (suc a / 2) (b / 2) (omega arith) (omega arith)
          ∙ sym (or_digits (suc a / 2) (b / 2)))

or-half : (a b : ℕ) → bit_or a b / 2 ≡ bit_or (a / 2) (b / 2)
or-half a b = omega (arith, or_step a b)

or-digit : (a b : ℕ) → bit_or a b % 2 ≡ max (a % 2) (b % 2)
or-digit a b = omega (arith, or_step a b)

comm_to : (n a b : ℕ) → a ≤ n → b ≤ n → bit_or a b ≡ bit_or b a
comm_to zero zero zero h k = refl
comm_to zero (suc a) b h k = absurd (omega arith)
comm_to zero zero (suc b) h k = absurd (omega arith)
comm_to (suc n) a b h k =
    omega (arith, or_step a b, or_step b a, comm_to n (a / 2) (b / 2) (omega arith) (omega arith))

pub or_comm : (a b : ℕ) → bit_or a b ≡ bit_or b a
or_comm a b = comm_to (a + b) a b (omega arith) (omega arith)

idempotent_to : (n a : ℕ) → a ≤ n → bit_or a a ≡ a
idempotent_to zero zero h = refl
idempotent_to zero (suc a) h = absurd (omega arith)
idempotent_to (suc n) a h = omega (arith, or_step a a, idempotent_to n (a / 2) (omega arith))

pub or_idempotent : (a : ℕ) → bit_or a a ≡ a
or_idempotent a = idempotent_to a a (omega arith)

assoc_to : (n a b c : ℕ) → a ≤ n → b ≤ n → c ≤ n → bit_or (bit_or a b) c ≡ bit_or a (bit_or b c)
assoc_to zero zero zero zero h k l = refl
assoc_to zero (suc a) b c h k l = absurd (omega arith)
assoc_to zero zero (suc b) c h k l = absurd (omega arith)
assoc_to zero zero zero (suc c) h k l = absurd (omega arith)
assoc_to (suc n) a b c h k l =
    let halves = assoc_to n (a / 2) (b / 2) (c / 2) (omega arith) (omega arith) (omega arith) in
    let left = ap (λ d. bit_or d (c / 2)) (or-half a b) in
    let right = ap (λ d. bit_or (a / 2) d) (or-half b c) in
    omega (
      arith,
      or_step (bit_or a b) c,
      or_step a (bit_or b c),
      left,
      right,
      halves,
      or-digit a b,
      or-digit b c,
    )

pub or_assoc : (a b c : ℕ) → bit_or (bit_or a b) c ≡ bit_or a (bit_or b c)
or_assoc a b c = assoc_to (a + b + c) a b c (omega arith) (omega arith) (omega arith)
