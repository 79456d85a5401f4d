-- ===== src/Core/Address/Bits.antt =====
-- core/addressing: the bits of addresses decide which prefixes contain them.
use native.Mathlib.Nat.{pow-suc, div-div-eq-div-mul, suc-add, zero-add, sub-zero, suc-sub-suc}
use hammertime.Base.{
  ℕ, zero, suc, ◌+◌, ◌-◌, ◌/◌, ◌%◌, ◌^◌, ◌≤◌, ◌≡◌, sym, ap, ◌∙◌, Bool, true, false, ◌&&◌, List, [],
  ◌∷◌, arith, ◌==◌, ==_iff, Bool-cases, inl, inr, ◌↔◌, not,
}
use hammertime.Core.Address.{bit, bits_below}

-- `a == b` on bits.
abbrev pub same : Bool → Bool → Bool
same true b = b
same false b = not b

abbrev pub is_prefix : List Bool → List Bool → Bool
is_prefix [] bs = true
is_prefix (p ∷ ps) [] = false
is_prefix (p ∷ ps) (b ∷ bs) = same p b && is_prefix ps bs

-- The first `length` bits of a value of a width, as the walk along a prefix reads them.
unfoldable pub top_bits : ℕ → ℕ → ℕ → List Bool
top_bits width zero value = []
top_bits zero (suc length) value = []
top_bits (suc width) (suc length) value = bit value width ∷ top_bits width length value

halve : (v w : ℕ) → v / 2 ^ suc w ≡ v / 2 ^ w / 2
halve v w = ap (λ (m : ℕ). v / m) (pow-suc 2 w) ∙ sym (div-div-eq-div-mul v (2 ^ w) 2)

halve_suc : (v j k : ℕ) → v / 2 ^ (suc j + k) ≡ v / 2 ^ (j + k) / 2
halve_suc v j k = ap (λ (m : ℕ). v / 2 ^ m) (suc-add j k) ∙ halve v (j + k)

-- Equal quotients have equal quotients further on.
pub quotients_up : (v n k j : ℕ) → v / 2 ^ k ≡ n / 2 ^ k → v / 2 ^ (j + k) ≡ n / 2 ^ (j + k)
quotients_up v n k zero e = rw zero-add e
quotients_up v n k (suc j) e =
    rw (halve_suc v j k, halve_suc n j k) (ap (λ (m : ℕ). m / 2) (quotients_up v n k j e))

same_iff : (a b : ℕ) → (same (a % 2 == 1) (b % 2 == 1) ≡ true) ↔ (a % 2 ≡ b % 2)
same_iff a b = ground arith

-- One more bit below equal quotients: the bits agree exactly if the finer quotients do.
bit_step :
    (v n w : ℕ)
    → v / 2 ^ suc w ≡ n / 2 ^ suc w
    → (same (bit n w) (bit v w) ≡ true) ↔ (v / 2 ^ w ≡ n / 2 ^ w)
unfolding bit
bit_step v n w e =
    let halves : v / 2 ^ w / 2 ≡ n / 2 ^ w / 2 = sym (halve v w) ∙ e ∙ halve n w in
    let bits = same_iff (n / 2 ^ w) (v / 2 ^ w) in
    (λ s. omega (arith, bits.0 s, halves), λ q. bits.1 (omega (arith, q)))

-- Where the bits differ the finer quotients do, however many bits further down.
bit_differs :
    (v n w length : ℕ)
    → length ≤ w
    → v / 2 ^ suc w ≡ n / 2 ^ suc w
    → same (bit n w) (bit v w) ≡ false
    → (v / 2 ^ (w - length) == n / 2 ^ (w - length)) ≡ false
bit_differs v n w length le e d = elim (Bool-cases (v / 2 ^ (w - length) == n / 2 ^ (w - length))) [
  | inl q ↦
      let k : length + (w - length) ≡ w = omega arith in
      let up : v / 2 ^ w ≡ n / 2 ^ w = rw k at (
        quotients_up v n (w - length) length
          ((==_iff (v / 2 ^ (w - length)) (n / 2 ^ (w - length))).0 q)) in
      cc ((bit_step v n w e).1 up)
  | inr other ↦ other
]

-- For numbers that agree above the width, the walk along the first `length` bits of `n` follows the
-- bits of `v` exactly if the two agree above the host bits.
pub is_prefix-top_bits :
    (width length v n : ℕ)
    → length ≤ width
    → v / 2 ^ width ≡ n / 2 ^ width
    → is_prefix (top_bits width length n) (bits_below width v)
      ≡ (v / 2 ^ (width - length) == n / 2 ^ (width - length))
unfolding top_bits bits_below
is_prefix-top_bits width zero v n le e = rw (sub-zero width) (ground (arith, e))
is_prefix-top_bits zero (suc length) v n le e = absurd (omega arith)
is_prefix-top_bits (suc width) (suc length) v n le e =
    elim (Bool-cases (same (bit n width) (bit v width))) [
      | inl s ↦
          let q = (bit_step v n width e).0 s in
          rw (s, suc-sub-suc width length) (is_prefix-top_bits width length v n (omega arith) q)
      | inr d ↦
          rw (d, suc-sub-suc width length) (sym (bit_differs v n width length (omega arith) e d))
    ]
