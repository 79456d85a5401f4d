-- ===== src/Ingest/RateLimit/Within.antt =====
-- ingest/ratelimit/__init__.py: what the buckets hold, whatever is called, with floats that round.
use hammertime.Base.{
  ◌∙◌, ℕ, suc, refl, ◌-◌, ◌≤◌, ◌<◌, ◌≡◌, true, false, some, List, [], ◌∷◌, ◌++◌, ltb, leb,
  Option-cases, Bool-cases, inl, inr, length, length-append, ==_iff, ◌==◌, arith,
}
use hammertime.Base.Dict.{lookup, erase, nat_key, length-erase_found}
use hammertime.Ingest.RateLimit.{
  Floats, Bucket, RateLimiter, is_refused, is_invalid, refill, spend, evict_if_full, bucket_of,
  check,
}
use hammertime.Ingest.RateLimit.Floating.{Laws}

module _ {F : Type 0} (floats : Floats F) where
  -- The tokens are between 0 and a capacity.
  abbrev pub Within : F → Bucket F → Type 0
  Within capacity bucket =
      (floats.at_most floats.zero bucket.tokens ≡ true)
      × (floats.at_most bucket.tokens capacity ≡ true)

  -- Each bucket's are, for the capacity of its key.
  abbrev pub AllWithin : (ℕ → F) → List (ℕ × Bucket F) → Type 0
  AllWithin capacity [] = Unit
  AllWithin capacity ((key, bucket) ∷ buckets) =
      Within (capacity key) bucket × AllWithin capacity buckets

module _ {F : Type 0} (floats : Floats F) (laws : Laws floats) where
  positive :
      (x : F)
      → is_refused floats x ≡ false
      → (floats.at_most floats.zero x ≡ true) × (floats.is_finite x ≡ true)
  positive x h =
      let finite : floats.is_finite x ≡ true = ground (arith, h) in
      let above : floats.at_most x floats.zero ≡ false = ground (arith, h) in
      (laws.not_at_most x floats.zero finite laws.zero_finite above, finite)

  refill-Within :
      (bucket : Bucket F) (limit_rps capacity : F) (now : ℕ)
      → floats.at_most floats.zero limit_rps ≡ true
      → floats.is_finite limit_rps ≡ true
      → floats.at_most floats.zero capacity ≡ true
      → floats.is_finite capacity ≡ true
      → Within floats capacity bucket
      → Within floats capacity (refill floats bucket limit_rps capacity now)
  unfolding refill
  refill-Within bucket limit_rps capacity now rate finite_rate c finite w =
      elim (Bool-cases (ltb bucket.last_refill now)) [
        | inr e ↦ rw (refill, e) w
        | inl e ↦
            let flow = floats.times (now - bucket.last_refill) limit_rps in
            let sum = floats.plus bucket.tokens flow in
            let flow_positive =
              laws.times_nonnegative (now - bucket.last_refill) limit_rps finite_rate rate in
            let positive = laws.plus_nonnegative bucket.tokens flow w.0 flow_positive in
            elim (Bool-cases (floats.less sum capacity)) [
              | inl f ↦ rw (refill, e, f) (positive, laws.less_at_most sum capacity f)
              | inr f ↦ rw (refill, e, f) (c, laws.refl_finite capacity finite)
            ]
      ]

  spend-Within :
      (key : ℕ) (bucket : Bucket F) (limit_rps capacity cost : F)
      → floats.at_most floats.zero cost ≡ true
      → floats.is_finite cost ≡ true
      → floats.is_finite capacity ≡ true
      → Within floats capacity bucket
      → Within floats capacity (spend floats key bucket limit_rps cost).0
  unfolding spend
  spend-Within key bucket limit_rps capacity cost c finite finite' w =
      elim (Bool-cases (floats.less bucket.tokens cost)) [
        | inl e ↦ rw (spend, e) w
        | inr e ↦
            let finite_tokens =
              laws.between_finite floats.zero bucket.tokens capacity laws.zero_finite finite' w.0
                w.1 in
            let enough = laws.not_less bucket.tokens cost finite_tokens finite e in
            rw (spend, e)
              (
                laws.minus_nonnegative bucket.tokens cost finite_tokens c enough,
                laws.at_most_trans (floats.minus bucket.tokens cost) bucket.tokens capacity
                    (laws.minus_at_most bucket.tokens cost finite_tokens c enough) w.1,
              )
      ]

  lookup-AllWithin :
      (capacity : ℕ → F) (buckets : List (ℕ × Bucket F)) (key : ℕ) (bucket : Bucket F)
      → lookup key buckets ≡ some bucket
      → AllWithin floats capacity buckets
      → Within floats (capacity key) bucket
  lookup-AllWithin capacity [] key bucket e w = ground (arith, e)
  lookup-AllWithin capacity ((k, b) ∷ buckets) key bucket e w = elim (Bool-cases (k == key)) [
    | inr f ↦ lookup-AllWithin capacity buckets key bucket (ground (arith, e, f)) w.1
    | inl f ↦
        let here : k ≡ key = (==_iff k key).0 f in
        let same : b ≡ bucket = ground (arith, e, f) in rw (← same, ← here) w.0
  ]

  pub erase-AllWithin :
      (capacity : ℕ → F) (buckets : List (ℕ × Bucket F)) (key : ℕ)
      → AllWithin floats capacity buckets
      → AllWithin floats capacity (erase key buckets)
  erase-AllWithin capacity [] key w = tt
  erase-AllWithin capacity ((k, b) ∷ buckets) key w = elim (Bool-cases (k == key)) [
    | inl f ↦ rw (erase, f) (erase-AllWithin capacity buckets key w.1)
    | inr f ↦ rw (erase, f) (w.0, erase-AllWithin capacity buckets key w.1)
  ]

  append-AllWithin :
      (capacity : ℕ → F) (buckets : List (ℕ × Bucket F)) (key : ℕ) (bucket : Bucket F)
      → AllWithin floats capacity buckets
      → Within floats (capacity key) bucket
      → AllWithin floats capacity (buckets ++ (key, bucket) ∷ [])
  append-AllWithin capacity [] key bucket w here = (here, tt)
  append-AllWithin capacity ((k, b) ∷ buckets) key bucket w here =
      (w.0, append-AllWithin capacity buckets key bucket w.1 here)

  -- The buckets are within their keys' capacities, and as few as there may be.
  pub record IsValid (capacity : ℕ → F) (max_keys : ℕ) (limiter : RateLimiter F) : Type 0 where
    pub within : AllWithin floats capacity limiter.buckets
    pub keys : limiter.max_keys ≡ max_keys
    pub positive_keys : 0 < limiter.max_keys
    pub few : length limiter.buckets ≤ limiter.max_keys

  -- What is left for the bucket of a call: room for it, and the same capacities.
  HasPlace : (capacity : ℕ → F) (max_keys : ℕ) → RateLimiter F → Type 0
  HasPlace capacity max_keys limiter =
      AllWithin floats capacity limiter.buckets
      × (length limiter.buckets < limiter.max_keys)
      × (limiter.max_keys ≡ max_keys)

  evict-HasPlace :
      (capacity : ℕ → F) (max_keys : ℕ) (buckets : List (ℕ × Bucket F))
      → IsValid capacity max_keys (record { max_keys = max_keys; buckets = buckets })
      → HasPlace capacity max_keys
          (evict_if_full floats (record { max_keys = max_keys; buckets = buckets }))
  unfolding evict_if_full HasPlace
  evict-HasPlace capacity max_keys [] v = (tt, v.positive_keys, refl)
  evict-HasPlace capacity max_keys (oldest ∷ buckets) v =
      elim (Bool-cases (leb max_keys (suc (length buckets)))) [
        | inl e ↦ rw (evict_if_full, e) (v.within.1, omega (arith, v.few), refl)
        | inr e ↦ rw (evict_if_full, e) (v.within, ground (arith, e), refl)
      ]

  bucket_of-Within :
      (capacity rate : ℕ → F) (max_keys : ℕ) (limiter : RateLimiter F) (key now : ℕ)
      → is_refused floats (rate key) ≡ false
      → is_refused floats (capacity key) ≡ false
      → IsValid capacity max_keys limiter
      → HasPlace capacity limiter.max_keys
          (bucket_of floats limiter key (rate key) (capacity key) now).0
        × Within floats
            (capacity key)
            (bucket_of floats limiter key (rate key) (capacity key) now).1
  unfolding bucket_of HasPlace
  bucket_of-Within capacity rate max_keys limiter key now r c v =
      let (positive_rate, finite_rate) = positive (rate key) r in
      let (positive_capacity, finite) = positive (capacity key) c in
      elim (Option-cases (lookup key limiter.buckets)) [
        | inl e ↦
            rw (bucket_of, e)
              (
                evict-HasPlace capacity limiter.max_keys limiter.buckets (record {
                  within = v.within;
                  keys = refl;
                  positive_keys = v.positive_keys;
                  few = v.few;
                }),
                (positive_capacity, laws.refl_finite (capacity key) finite),
              )
        | inr (bucket, e) ↦
            rw (bucket_of, e)
              (
                (
                  erase-AllWithin capacity limiter.buckets key v.within,
                  omega (arith, v.few, length-erase_found key bucket limiter.buckets e),
                  refl,
                ),
                refill-Within bucket (rate key) (capacity key) now positive_rate finite_rate
                    positive_capacity finite
                    (lookup-AllWithin capacity limiter.buckets key bucket e v.within),
              )
      ]

  pub check-IsValid :
      (capacity rate : ℕ → F) (max_keys : ℕ) (limiter : RateLimiter F) (key now : ℕ) (cost : F)
      → IsValid capacity max_keys limiter
      → IsValid capacity max_keys
          (check floats limiter key (rate key) cost (some (capacity key)) now).0
  unfolding check HasPlace
  check-IsValid capacity rate max_keys limiter key now cost v =
      elim (Bool-cases (is_invalid floats (rate key) (capacity key) cost)) [
        | inl e ↦ rw (check, e) v
        | inr e ↦
            let (place, here) =
              bucket_of-Within capacity rate max_keys limiter key now (ground (arith, e))
                (ground (arith, e)) v in
            let (within, room, same) = place in
            let (positive_cost, finite_cost) = positive cost (ground (arith, e)) in
            let (positive_capacity, finite) = positive (capacity key) (ground (arith, e)) in
            let limiter' = (bucket_of floats limiter key (rate key) (capacity key) now).0 in
            let bucket = (bucket_of floats limiter key (rate key) (capacity key) now).1 in
            let spent = (spend floats key bucket (rate key) cost).0 in
            rw (check, e)
              (record {
                within = append-AllWithin capacity limiter'.buckets key spent within (
                    spend-Within key bucket (rate key) (capacity key) cost positive_cost finite_cost
                      finite here);
                keys = same ∙ v.keys;
                positive_keys = omega (arith, same, v.positive_keys);
                few = omega (arith, room, length-append limiter'.buckets ((key, spent) ∷ []));
              })
      ]
