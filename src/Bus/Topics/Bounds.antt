-- ===== src/Bus/Topics/Bounds.antt =====
-- bus/topics.py: where a key goes.
use hammertime.Base.{
  ℕ, suc, zero, ◌%◌, ◌<◌, ◌≡◌, ◌⊎◌, inl, inr, refl, List, ok, err, value_error, arith,
}
use hammertime.Base.Int.{ℤ, pos, negsuc, pos_part}
use hammertime.Bus.Topics.{partition_for, digest_of, fnv1a_32_offset_basis}

-- For a positive number of partitions every key has one of them, and for any other number the call is
-- refused.
pub partition_for-range :
    (key : List ℕ) (partitions : ℤ)
    → ((p : ℕ) × (partition_for key partitions ≡ ok p) × (p < pos_part partitions))
      ⊎ ((partition_for key partitions ≡ err value_error) × (pos_part partitions ≡ 0))
unfolding partition_for
partition_for-range key (pos zero) = inr (refl, refl)
partition_for-range key (pos (suc n)) =
    inl (digest_of fnv1a_32_offset_basis key % suc n, ground arith, omega arith)
partition_for-range key (negsuc n) = inr (refl, refl)
