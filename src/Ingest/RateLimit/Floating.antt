-- ===== src/Ingest/RateLimit/Floating.antt =====
-- ingest/ratelimit/__init__.py: what is relied on of Python's floats.
use hammertime.Base.{ℕ, ◌≡◌, true, false}
use hammertime.Ingest.RateLimit.{Floats}

-- What is relied on of the floats: their comparisons order the finite ones, what lies between finite ones
-- is finite, a sum of what is not negative is not negative, nor is a product of a number of seconds and a
-- finite float that is not negative, and a difference of a finite float and one that is not above it and
-- not negative lies between 0 and the first. Rounding keeps these.
pub record Laws {F : Type 0} (floats : Floats F) : Type 0 where
  pub zero_finite : floats.is_finite floats.zero ≡ true
  pub refl_finite : (a : F) → floats.is_finite a ≡ true → floats.at_most a a ≡ true
  pub less_at_most : (a b : F) → floats.less a b ≡ true → floats.at_most a b ≡ true
  pub at_most_trans :
      (a b c : F)
      → floats.at_most a b ≡ true
      → floats.at_most b c ≡ true
      → floats.at_most a c ≡ true
  pub not_less :
      (a b : F)
      → floats.is_finite a ≡ true
      → floats.is_finite b ≡ true
      → floats.less a b ≡ false
      → floats.at_most b a ≡ true
  pub not_at_most :
      (a b : F)
      → floats.is_finite a ≡ true
      → floats.is_finite b ≡ true
      → floats.at_most a b ≡ false
      → floats.at_most b a ≡ true
  pub between_finite :
      (a b c : F)
      → floats.is_finite a ≡ true
      → floats.is_finite c ≡ true
      → floats.at_most a b ≡ true
      → floats.at_most b c ≡ true
      → floats.is_finite b ≡ true
  pub plus_nonnegative :
      (a b : F)
      → floats.at_most floats.zero a ≡ true
      → floats.at_most floats.zero b ≡ true
      → floats.at_most floats.zero (floats.plus a b) ≡ true
  pub times_nonnegative :
      (n : ℕ) (a : F)
      → floats.is_finite a ≡ true
      → floats.at_most floats.zero a ≡ true
      → floats.at_most floats.zero (floats.times n a) ≡ true
  pub minus_nonnegative :
      (a b : F)
      → floats.is_finite a ≡ true
      → floats.at_most floats.zero b ≡ true
      → floats.at_most b a ≡ true
      → floats.at_most floats.zero (floats.minus a b) ≡ true
  pub minus_at_most :
      (a b : F)
      → floats.is_finite a ≡ true
      → floats.at_most floats.zero b ≡ true
      → floats.at_most b a ≡ true
      → floats.at_most (floats.minus a b) a ≡ true
