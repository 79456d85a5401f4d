-- ===== src/Aggregator/Counter/Invariant.antt =====
-- The invariant of the ring of counter.py, under its operations.
use native.Mathlib.Nat.{mod-lt, add-mul-mod_self_left}
use hammertime.Base.{
  ℕ, zero, suc, ◌+◌, ◌*◌, ◌%◌, ◌≤◌, ◌<◌, ◌≡◌, ◌↔◌, inl, inr, refl, sym, ◌∙◌, true, Option, none,
  some, List, [], ◌∷◌, arith, if◌then◌else◌, get_or, length, sum, Bool-cases, length-set,
  get_or-set, sum-set, length-replicate, get_or-replicate, sum-replicate,
}
use hammertime.Core.Time.{bucket_index}
use hammertime.Core.Time.Slots.{le-bucket_start}
use hammertime.Aggregator.Counter.{
  IpCounter, fresh, window_seconds, is_live, holds, take_slot, claim_slot, add_to_slot, apply_delta,
  is_gone, expire_slots, expire,
}

-- Every slot that holds a bucket holds one that belongs there, every empty slot counts nothing, and
-- the total is the sum of the ring.
pub record IsValid (c : IpCounter) : Type 0 where
  pub seconds_pos : 0 < c.bucket_seconds
  pub count_pos : 0 < c.bucket_count
  pub starts_length : length c.starts ≡ c.bucket_count
  pub counts_length : length c.counts ≡ c.bucket_count
  pub total_sum : c.total ≡ sum c.counts
  pub aligned : (i s : ℕ) → get_or c.starts i none ≡ some s → s % c.bucket_seconds ≡ 0
  pub placed :
      (i s : ℕ)
      → get_or c.starts i none ≡ some s
      → bucket_index s c.bucket_seconds c.bucket_count ≡ i
  pub empties : (i : ℕ) → get_or c.starts i none ≡ none → get_or c.counts i 0 ≡ 0

pub index_lt :
    (c : IpCounter) (s : ℕ)
    → IsValid c
    → bucket_index s c.bucket_seconds c.bucket_count < c.bucket_count
unfolding bucket_index
index_lt c s v = mod-lt _ v.count_pos

pub fresh-IsValid : (b n : ℕ) → 0 < b → 0 < n → IsValid (fresh b n)
fresh-IsValid b n hb hn = record {
  seconds_pos = hb;
  count_pos = hn;
  starts_length = length-replicate n none;
  counts_length = length-replicate n 0;
  total_sum = sym (sum-replicate n);
  aligned = λ i s e. cc (e, get_or-replicate {A = Option ℕ} n i none);
  placed = λ i s e. cc (e, get_or-replicate {A = Option ℕ} n i none);
  empties = λ i e. get_or-replicate n i 0;
}

-- A bucket is live from its start until one window after it.
pub is_live_iff :
    (c : IpCounter) (s now : ℕ)
    → 0 < c.bucket_seconds
    → s % c.bucket_seconds ≡ 0
    → (is_live c s now ≡ true) ↔ ((s ≤ now) × (now < s + window_seconds c))
unfolding is_live window_seconds
is_live_iff c s now h a =
    let low = le-bucket_start s now c.bucket_seconds h a in
    let high =
      le-bucket_start (s + c.bucket_seconds * c.bucket_count) now c.bucket_seconds h
        (add-mul-mod_self_left s c.bucket_seconds c.bucket_count ∙ a) in
    ground (arith, low, high)

pub claim_slot-geometry :
    (c : IpCounter) (i s : ℕ)
    → ((claim_slot c i s).bucket_count ≡ c.bucket_count)
      × ((claim_slot c i s).bucket_seconds ≡ c.bucket_seconds)
unfolding claim_slot
claim_slot-geometry c i s = ground arith

module _ (c : IpCounter) (i s : ℕ) (v : IsValid c) (small : i < c.bucket_count) where
  take_slot-IsValid :
      s % c.bucket_seconds ≡ 0
      → bucket_index s c.bucket_seconds c.bucket_count ≡ i
      → IsValid (take_slot c i s)
  take_slot-IsValid a p = record {
    seconds_pos = v.seconds_pos;
    count_pos = v.count_pos;
    starts_length = length-set c.starts i (some s) ∙ v.starts_length;
    counts_length = length-set c.counts i 0 ∙ v.counts_length;
    total_sum = omega (arith, sum-set c.counts i 0 (omega (arith, v.counts_length)));
    aligned = λ j t. ground (
      arith,
      get_or-set c.starts i j (some s) none (omega (arith, v.starts_length)),
      v.aligned j t,
    );
    placed = λ j t. ground (
      arith,
      get_or-set c.starts i j (some s) none (omega (arith, v.starts_length)),
      v.placed j t,
    );
    empties = λ j. ground (
      arith,
      get_or-set c.starts i j (some s) none (omega (arith, v.starts_length)),
      get_or-set c.counts i j 0 0 (omega (arith, v.counts_length)),
      v.empties j,
    );
  }

  pub claim_slot-IsValid :
      s % c.bucket_seconds ≡ 0
      → bucket_index s c.bucket_seconds c.bucket_count ≡ i
      → IsValid (claim_slot c i s)
  unfolding claim_slot
  claim_slot-IsValid a p = elim (Bool-cases (holds (get_or c.starts i none) s)) [
    | inl old ↦ rw old v
    | inr new ↦ rw new (take_slot-IsValid a p)
  ]

  pub claim_slot-holds : get_or (claim_slot c i s).starts i none ≡ some s
  unfolding claim_slot
  claim_slot-holds =
      ground (arith, get_or-set c.starts i i (some s) none (omega (arith, v.starts_length)))

add_to_slot-IsValid :
    (c : IpCounter) (i s d : ℕ)
    → IsValid c
    → i < c.bucket_count
    → get_or c.starts i none ≡ some s
    → IsValid (add_to_slot c i d)
unfolding add_to_slot
add_to_slot-IsValid c i s d v small e = record {
  seconds_pos = v.seconds_pos;
  count_pos = v.count_pos;
  starts_length = v.starts_length;
  counts_length = length-set c.counts i _ ∙ v.counts_length;
  total_sum =
      omega (arith, sum-set c.counts i (get_or c.counts i 0 + d) (omega (arith, v.counts_length)));
  aligned = v.aligned;
  placed = v.placed;
  empties = λ j. ground (
    arith,
    get_or-set c.counts i j (get_or c.counts i 0 + d) 0 (omega (arith, v.counts_length)),
    v.empties j,
  );
}

-- The delta is added in a valid counter at an aligned start.
pub apply_delta-IsValid :
    (c : IpCounter) (s d : ℕ) → IsValid c → s % c.bucket_seconds ≡ 0 → IsValid (apply_delta c s d)
unfolding apply_delta
apply_delta-IsValid c s d v a =
    let i = bucket_index s c.bucket_seconds c.bucket_count in
    let small = index_lt c s v in
    add_to_slot-IsValid (claim_slot c i s) i s d (claim_slot-IsValid c i s v small a refl)
      (omega (arith, small, (claim_slot-geometry c i s).0)) (claim_slot-holds c i s v small)

-- What a round of the loop makes of each slot.
module _ (c : IpCounter) (now : ℕ) where
  expire_slots-length :
      (starts : List (Option ℕ)) (counts : List ℕ)
      → (length (expire_slots c now starts counts).0 ≡ length starts)
        × (length (expire_slots c now starts counts).1 ≡ length counts)
  unfolding expire_slots
  expire_slots-length [] counts = (refl, refl)
  expire_slots-length (s ∷ starts) [] = (refl, refl)
  expire_slots-length (s ∷ starts) (k ∷ counts) = ground (arith, expire_slots-length starts counts)

  pub expire_slots-sum :
      (starts : List (Option ℕ)) (counts : List ℕ)
      → sum (expire_slots c now starts counts).1 + (expire_slots c now starts counts).2 ≡ sum counts
  unfolding expire_slots
  expire_slots-sum [] counts = omega arith
  expire_slots-sum (s ∷ starts) [] = refl
  expire_slots-sum (s ∷ starts) (k ∷ counts) = ground (arith, expire_slots-sum starts counts)

  pub expire_slots-starts :
      (starts : List (Option ℕ)) (counts : List ℕ) (i : ℕ)
      → length starts ≡ length counts
      → get_or (expire_slots c now starts counts).0 i none
        ≡ (if is_gone c now (get_or starts i none) then none else get_or starts i none)
  unfolding expire_slots is_gone
  expire_slots-starts [] counts i h = refl
  expire_slots-starts (s ∷ starts) [] i h = absurd (omega arith)
  expire_slots-starts (none ∷ starts) (k ∷ counts) zero h = ground arith
  expire_slots-starts (some s ∷ starts) (k ∷ counts) zero h = ground arith
  expire_slots-starts (s ∷ starts) (k ∷ counts) (suc i) h =
      ground (arith, expire_slots-starts starts counts i)

  pub expire_slots-counts :
      (starts : List (Option ℕ)) (counts : List ℕ) (i : ℕ)
      → length starts ≡ length counts
      → get_or (expire_slots c now starts counts).1 i 0
        ≡ (if is_gone c now (get_or starts i none) then 0 else get_or counts i 0)
  unfolding expire_slots is_gone
  expire_slots-counts [] counts i h = refl
  expire_slots-counts (s ∷ starts) [] i h = absurd (omega arith)
  expire_slots-counts (none ∷ starts) (k ∷ counts) zero h = ground arith
  expire_slots-counts (some s ∷ starts) (k ∷ counts) zero h = ground arith
  expire_slots-counts (s ∷ starts) (k ∷ counts) (suc i) h =
      ground (arith, expire_slots-counts starts counts i)

-- Expiry keeps a counter valid.
pub expire-IsValid : (c : IpCounter) (now : ℕ) → IsValid c → IsValid (expire c now).0
unfolding expire
expire-IsValid c now v =
    let same : length c.starts ≡ length c.counts = v.starts_length ∙ sym v.counts_length in
    let lengths = expire_slots-length c now c.starts c.counts in
    let summed = expire_slots-sum c now c.starts c.counts in
    record {
      seconds_pos = v.seconds_pos;
      count_pos = v.count_pos;
      starts_length = lengths.0 ∙ v.starts_length;
      counts_length = lengths.1 ∙ v.counts_length;
      total_sum = omega (arith, summed, v.total_sum);
      aligned =
          λ i s. ground (arith, expire_slots-starts c now c.starts c.counts i same, v.aligned i s);
      placed =
          λ i s. ground (arith, expire_slots-starts c now c.starts c.counts i same, v.placed i s);
      empties = λ i. ground (
        arith,
        expire_slots-starts c now c.starts c.counts i same,
        expire_slots-counts c now c.starts c.counts i same,
        v.empties i,
      );
    }
