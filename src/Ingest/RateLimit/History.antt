-- ===== src/Ingest/RateLimit/History.antt =====
-- ingest/ratelimit/__init__.py: what the buckets hold after any calls, with floats that round.
use hammertime.Base.{
  ℕ, refl, ◌≤◌, ◌≡◌, Option, none, some, List, [], ◌∷◌, ok, ◌==◌, Bool-cases, inl, inr, length,
  arith,
}
use hammertime.Base.Dict.{nat_key, length-erase}
use hammertime.Ingest.RateLimit
use hammertime.Ingest.RateLimit.{Floats, Bucket, RateLimiter, check, reset}
use hammertime.Ingest.RateLimit.Floating.{Laws}
use hammertime.Ingest.RateLimit.Within.{AllWithin, IsValid, check-IsValid, erase-AllWithin}

-- A call of `check` for a key, at its cost and the time that the clock showed, or a reset.
pub data Call (F : Type 0) : Type 0 where
  checked : (key : ℕ) (cost : F) (now : ℕ) → Call F
  dropped : (key : Option ℕ) → Call F

module _ {F : Type 0} (floats : Floats F) (laws : Laws floats) (rate capacity : ℕ → F) where
  -- Each key is always called with its rate and its capacity.
  abbrev pub perform : RateLimiter F → Call F → RateLimiter F
  perform limiter (checked key cost now) =
      (check floats limiter key (rate key) cost (some (capacity key)) now).0
  perform limiter (dropped key) = reset limiter key

  abbrev pub perform_all : RateLimiter F → List (Call F) → RateLimiter F
  perform_all limiter [] = limiter
  perform_all limiter (call ∷ calls) = perform_all (perform limiter call) calls

  perform-IsValid :
      (max_keys : ℕ) (limiter : RateLimiter F) (call : Call F)
      → IsValid floats laws capacity max_keys limiter
      → IsValid floats laws capacity max_keys (perform limiter call)
  unfolding reset
  perform-IsValid max_keys limiter (checked key cost now) v =
      check-IsValid floats laws capacity rate max_keys limiter key now cost v
  perform-IsValid max_keys limiter (dropped none) v = record {
    within = tt;
    keys = v.keys;
    positive_keys = v.positive_keys;
    few = omega arith;
  }
  perform-IsValid max_keys limiter (dropped (some key)) v = record {
    within = erase-AllWithin floats laws capacity limiter.buckets key v.within;
    keys = v.keys;
    positive_keys = v.positive_keys;
    few = omega (arith, v.few, length-erase key limiter.buckets);
  }

  perform_all-IsValid :
      (max_keys : ℕ) (limiter : RateLimiter F) (calls : List (Call F))
      → IsValid floats laws capacity max_keys limiter
      → IsValid floats laws capacity max_keys (perform_all limiter calls)
  perform_all-IsValid max_keys limiter [] v = v
  perform_all-IsValid max_keys limiter (call ∷ calls) v =
      perform_all-IsValid max_keys (perform limiter call) calls
        (perform-IsValid max_keys limiter call v)

  new-IsValid :
      (max_keys : ℕ) (limiter : RateLimiter F)
      → RateLimit.new max_keys ≡ ok limiter
      → IsValid floats laws capacity max_keys limiter
  unfolding RateLimit.new
  new-IsValid max_keys limiter e = elim (Bool-cases (max_keys == 0)) [
    | inl b ↦ ground (arith, b, e)
    | inr b ↦
        let same : ◌≡◌ {A = RateLimiter F} (record { max_keys = max_keys; buckets = [] }) limiter =
          ground (arith, b, e) in
        rw (← same) (record {
          within = tt;
          keys = refl;
          positive_keys = ground (arith, b);
          few = omega arith;
        })
  ]

  -- From a new limiter on, whatever is checked and reset, for whichever keys, costs and times, refused calls
  -- included, and whatever the floats round: if each key is always called with one rate and one capacity,
  -- the tokens of every bucket are between 0 and its key's capacity, and there are at most `max_keys`
  -- buckets.
  pub perform_all-bounded :
      (max_keys : ℕ) (limiter : RateLimiter F) (calls : List (Call F))
      → RateLimit.new max_keys ≡ ok limiter
      → AllWithin floats capacity (perform_all limiter calls).buckets
        × (length (perform_all limiter calls).buckets ≤ max_keys)
  perform_all-bounded max_keys limiter calls e =
      let last = perform_all-IsValid max_keys limiter calls (new-IsValid max_keys limiter e) in
      (last.within, omega (arith, last.few, last.keys))
