-- ===== src/Ingest/RateLimit.antt =====
-- ingest/ratelimit/__init__.py: token buckets by key. Keys are opaque, here natural numbers. Rates,
-- costs, capacities and tokens are floats, of which the arithmetic is a parameter (`Floats`), with what
-- it rounds, overflows and does with a NaN. The clock's reading is an argument.
pub mod Within
pub mod Floating
pub mod History
use hammertime.Base.{
  ℕ, ◌-◌, Bool, true, false, not, ◌||◌, Option, none, some, List, [], ◌∷◌, ◌++◌, Result, ok, err,
  value_error, ltb, leb, ◌==◌, if◌then◌else◌, length,
}
use hammertime.Base.Dict.{lookup, erase, nat_key}

-- Python's operations on floats: the comparisons, `math.isfinite`, `+`, `-`, `/`, and the product of a
-- number of seconds and a float.
pub record Floats (F : Type 0) : Type 0 where
  pub zero : F
  pub less : F → F → Bool
  pub at_most : F → F → Bool
  pub is_finite : F → Bool
  pub plus : F → F → F
  pub minus : F → F → F
  pub over : F → F → F
  pub times : ℕ → F → F

pub record Bucket (F : Type 0) : Type 0 where
  pub tokens : F
  pub last_refill : ℕ

pub record RateLimiter (F : Type 0) : Type 0 where
  pub max_keys : ℕ
  pub buckets : List (ℕ × Bucket F)

unfoldable pub new : {F : Type 0} → ℕ → Result (RateLimiter F)
new max_keys =
    if max_keys == 0 then err value_error else ok (record { max_keys = max_keys; buckets = [] })

-- How a call ends: it returns, raises `RateLimitExceeded` with `retry_after`, or raises `ValueError`.
pub data Verdict (F : Type 0) : Type 0 where
  allowed : Verdict F
  exceeded : (key : ℕ) (limit_rps retry_after : F) → Verdict F
  refused : Verdict F

module _ {F : Type 0} (floats : Floats F) where
  -- `x <= 0 or not math.isfinite(x)`
  abbrev pub is_refused : F → Bool
  is_refused x = floats.at_most x floats.zero || not (floats.is_finite x)

  -- `min(a, b)`
  abbrev pub min : F → F → F
  min a b = if floats.less b a then b else a

  unfoldable pub refill : Bucket F → F → F → ℕ → Bucket F
  refill bucket limit_rps capacity now =
      if ltb bucket.last_refill now
      then record {
        tokens =
            min capacity
              (floats.plus bucket.tokens (floats.times (now - bucket.last_refill) limit_rps));
        last_refill = now;
      }
      else bucket

  -- The bucket's part of a call: what is left in it, and how the call ends.
  unfoldable pub spend : ℕ → Bucket F → F → F → Bucket F × Verdict F
  spend key bucket limit_rps cost =
      if floats.less bucket.tokens cost
      then (
        bucket,
        exceeded key limit_rps (floats.over (floats.minus cost bucket.tokens) limit_rps),
      )
      else (record bucket { tokens = floats.minus bucket.tokens cost }, allowed)

  unfoldable pub evict_if_full : RateLimiter F → RateLimiter F
  evict_if_full limiter = elim limiter.buckets [
    | [] ↦ limiter
    | oldest ∷ buckets ↦
        if leb limiter.max_keys (length limiter.buckets)
        then record limiter { buckets = buckets }
        else limiter
  ]

  -- The bucket that a call spends from, and the other buckets.
  unfoldable pub bucket_of : RateLimiter F → ℕ → F → F → ℕ → RateLimiter F × Bucket F
  bucket_of limiter key limit_rps capacity now = elim (lookup key limiter.buckets) [
    | none ↦ (evict_if_full limiter, record { tokens = capacity; last_refill = now })
    | some bucket ↦ (
      record limiter { buckets = erase key limiter.buckets },
      refill bucket limit_rps capacity now,
    )
  ]

  abbrev pub resolved_capacity : F → Option F → F
  resolved_capacity limit_rps none = limit_rps
  resolved_capacity limit_rps (some capacity) = capacity

  -- The arguments that raise `ValueError`.
  abbrev pub is_invalid : F → F → F → Bool
  is_invalid limit_rps capacity cost =
      is_refused limit_rps || is_refused capacity || is_refused cost || floats.less capacity cost

  unfoldable pub check : RateLimiter F → ℕ → F → F → Option F → ℕ → RateLimiter F × Verdict F
  check limiter key limit_rps cost capacity now =
      let resolved = resolved_capacity limit_rps capacity in
      let (limiter', bucket) = bucket_of limiter key limit_rps resolved now in
      let (bucket', verdict) = spend key bucket limit_rps cost in
      if is_invalid limit_rps resolved cost
      then (limiter, refused)
      else (record limiter' { buckets = limiter'.buckets ++ (key, bucket') ∷ [] }, verdict)

  -- `False` for a call that is over the limit; the other exception goes on.
  unfoldable pub allow : RateLimiter F → ℕ → F → F → Option F → ℕ → RateLimiter F × Result Bool
  allow limiter key limit_rps cost capacity now =
      let (limiter', verdict) = check limiter key limit_rps cost capacity now in
      elim verdict [
        | allowed ↦ (limiter', ok true)
        | exceeded _ _ _ ↦ (limiter', ok false)
        | refused ↦ (limiter', err value_error)
      ]

unfoldable pub reset : {F : Type 0} → RateLimiter F → Option ℕ → RateLimiter F
reset limiter none = record limiter { buckets = [] }
reset limiter (some key) = record limiter { buckets = erase key limiter.buckets }
