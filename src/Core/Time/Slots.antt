-- ===== src/Core/Time/Slots.antt =====
-- core/time/buckets.py: buckets partition time, and the live buckets of a ring share no slot.
use native.Mathlib.Nat.{
  mul-mod_left, div-eq_of_lt-le, div-add-mod', lt_of_mul-lt-mul_right, mul-le-mul_right,
}
use native.Mathlib.Decide.{dec_le}
use hammertime.Base.{sym, ◌↔◌, ℕ, ◌+◌, ◌*◌, ◌/◌, ◌%◌, ◌≤◌, ◌<◌, ◌≡◌, ap, arith}
use hammertime.Base.Arith.{div_bounds, div_mono}
use hammertime.Core.Time.{bucket_start, bucket_index}

-- A time lies in the bucket that starts at `bucket_start`, a multiple of the bucket length.
pub bucket_start_bounds :
    (t b : ℕ)
    → 0 < b
    → (bucket_start t b % b ≡ 0) × (bucket_start t b ≤ t) × (t < bucket_start t b + b)
unfolding bucket_start
bucket_start_bounds t b h = (mul-mod_left (t / b) b, (div_bounds t b h).0, (div_bounds t b h).1)

-- A multiple of the bucket length is the start of its own bucket.
pub bucket_start_aligned : (s b : ℕ) → s % b ≡ 0 → bucket_start s b ≡ s
unfolding bucket_start
bucket_start_aligned s b h = omega (arith, div-add-mod' s b, h)

-- A time is mapped to its bucket wherever in the bucket it lies: the start of the bucket of any
-- time in `[s, s + b)` is `s`, for `s` a multiple of `b`.
pub bucket_start_unique : (s t b : ℕ) → 0 < b → s % b ≡ 0 → s ≤ t → t < s + b → bucket_start t b ≡ s
unfolding bucket_start
bucket_start_unique s t b h m le lt =
    let e : s / b * b ≡ s = omega (arith, div-add-mod' s b) in
    let q : t / b ≡ s / b =
      div-eq_of_lt-le {k = s / b} b {m = t} (omega (arith, e)) (grind (arith, e)) in
    omega (arith, ap (λ (k : ℕ). k * b) q, e)

-- Numbers that are less than `n` apart and agree modulo `n` are equal.
mod_close : (a c n : ℕ) → a ≤ c → c < a + n → a % n ≡ c % n → a ≡ c
mod_close a c n le lt e = grind (arith, div-add-mod' a n, div-add-mod' c n)

mod_near : (a c n : ℕ) → a < c + n → c < a + n → a % n ≡ c % n → a ≡ c
mod_near a c n near far e = elim (dec_le a c) [
  | yes le ↦ mod_close a c n le far e
  | no gt ↦ sym (mod_close c a n (omega arith) near (sym e))
]

quotient_close : (s t b n : ℕ) → s % b ≡ 0 → t % b ≡ 0 → t < s + n * b → t / b < s / b + n
quotient_close s t b n hs ht lt =
    lt_of_mul-lt-mul_right b (omega (arith, div-add-mod' s b, div-add-mod' t b, hs, ht, lt))

-- Two starts of buckets that are less than the ring apart share a slot only if they are equal.
pub bucket_index_injective :
    (s t b n : ℕ)
    → s % b ≡ 0
    → t % b ≡ 0
    → s < t + n * b
    → t < s + n * b
    → bucket_index s b n ≡ bucket_index t b n
    → s ≡ t
unfolding bucket_index
bucket_index_injective s t b n hs ht near far e =
    let q : s / b ≡ t / b =
      mod_near (s / b) (t / b) n (quotient_close t s b n ht hs near)
        (quotient_close s t b n hs ht far) e in
    omega (arith, ap (λ (k : ℕ). k * b) q, div-add-mod' s b, div-add-mod' t b, hs, ht)

-- An aligned start is at most the start of a time's bucket exactly if it is at most the time.
pub le-bucket_start : (s t b : ℕ) → 0 < b → s % b ≡ 0 → (s ≤ bucket_start t b) ↔ (s ≤ t)
unfolding bucket_start
le-bucket_start s t b h m = (
  λ le. omega (arith, (div_bounds t b h).0),
  λ le. omega (arith, mul-le-mul_right b (div_mono s t b h le), div-add-mod' s b),
)
