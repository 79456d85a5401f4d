-- ===== src/Ingest/Tests/RateLimit.antt =====
-- Runs of ingest/ratelimit at concrete inputs, and its theorems at some of them.
use hammertime.Base.{
  ◌/◌, some, ok, ltb, leb, length, ℕ, ◌+◌, ◌-◌, ◌*◌, ◌≤◌, ◌≡◌, refl, true, List, [], ◌∷◌, arith,
}
use hammertime.Ingest.RateLimit
use hammertime.Ingest.RateLimit.{
  Floats, RateLimiter, check, bucket_of, refill, spend, evict_if_full, reset,
}
use hammertime.Ingest.RateLimit.Floating.{Laws}
use hammertime.Ingest.RateLimit.Within.{AllWithin}
use hammertime.Ingest.RateLimit.History.{Call, checked, dropped, perform_all, perform_all-bounded}

-- Whole numbers as floats, exact and all finite.
abbrev whole_numbers : Floats ℕ
whole_numbers = record {
  zero = 0;
  less = λ a b. ltb a b;
  at_most = λ a b. leb a b;
  is_finite = λ a. true;
  plus = λ a b. a + b;
  minus = λ a b. a - b;
  over = λ a b. a / b;
  times = λ n a. n * a;
}

whole_numbers_laws : Laws whole_numbers
whole_numbers_laws = record {
  zero_finite = refl;
  refl_finite = λ a h. ground arith;
  less_at_most = λ a b h. ground (arith, h);
  at_most_trans = λ a b c h h'. ground (arith, h, h');
  not_less = λ a b f g h. ground (arith, h);
  not_at_most = λ a b f g h. ground (arith, h);
  between_finite = λ a b c f g h h'. refl;
  plus_nonnegative = λ a b h h'. ground arith;
  times_nonnegative = λ n a f h. ground arith;
  minus_nonnegative = λ a b f h h'. ground arith;
  minus_at_most = λ a b f h h'. ground arith;
}

-- Two tokens a second, at most eight, for at most one key.
abbrev limiter : RateLimiter ℕ
limiter = record { max_keys = 1; buckets = [] }

new-limiter : RateLimit.new 1 ≡ ok limiter
unfolding RateLimit.new
new-limiter = refl

-- A call, one over the limit, one after a refill, a refused one, a second key, and a reset.
abbrev requests : List (Call ℕ)
requests =
    checked 1 5 10
    ∷ checked 1 4 10
    ∷ checked 1 4 12
    ∷ checked 1 9 13
    ∷ checked 2 1 14
    ∷ dropped (some 3)
    ∷ []

abbrev rate : ℕ → ℕ
rate key = 2

abbrev capacity : ℕ → ℕ
capacity key = 8

requests_leave :
    (perform_all whole_numbers whole_numbers_laws rate capacity limiter requests).buckets
    ≡ (2, record { tokens = 7; last_refill = 14 }) ∷ []
unfolding check bucket_of refill spend evict_if_full reset
requests_leave = refl

perform_all-bounded_example :
    AllWithin whole_numbers capacity
      (perform_all whole_numbers whole_numbers_laws rate capacity limiter requests).buckets
    × (length (perform_all whole_numbers whole_numbers_laws rate capacity limiter requests).buckets
        ≤ 1)
perform_all-bounded_example =
    perform_all-bounded whole_numbers whole_numbers_laws rate capacity 1 limiter requests
      new-limiter
