-- ===== src/Aggregator/Counter/Window.antt =====
-- counter.py: the total of the ring and the traffic of the window, in any order of arrival.
use hammertime.Base.{
  ℕ, zero, suc, ◌+◌, ◌*◌, ◌%◌, ◌≤◌, ◌<◌, ◌≡◌, inl, inr, refl, sym, ap, Option-cases, true, false,
  Option, none, some, List, [], ◌∷◌, arith, if◌then◌else◌, get_or, set, length, sum, Bool-cases,
}
use mathlib.Core.Path.{ap₂}
use hammertime.Core.Time.{bucket_start, bucket_index}
use hammertime.Core.Time.Slots.{bucket_index_injective}
use hammertime.Aggregator.Counter.{
  IpCounter, window_seconds, is_live, holds, claim_slot, add_to_slot, apply_delta, is_gone,
  expire_slots, expire,
}
use hammertime.Aggregator.Counter.Invariant.{
  IsValid, index_lt, is_live_iff, apply_delta-IsValid, expire_slots-sum, claim_slot-holds,
  claim_slot-IsValid, claim_slot-geometry,
}

-- What a slot contributes to the window that ends at `now`.
abbrev worth : IpCounter → ℕ → Option ℕ → ℕ → ℕ
worth c now s k = if is_gone c now s then 0 else k

module _ (c : IpCounter) (now : ℕ) where
  unfoldable pub in_window : List (Option ℕ) → List ℕ → ℕ
  in_window starts counts = sum (expire_slots c now starts counts).1

  in_window-set :
      (starts : List (Option ℕ)) (counts : List ℕ) (i : ℕ) (s : Option ℕ) (k : ℕ)
      → i < length starts
      → i < length counts
      → in_window (set starts i s) (set counts i k)
          + worth c now (get_or starts i none) (get_or counts i 0)
        ≡ in_window starts counts + worth c now s k
  unfolding in_window expire_slots
  in_window-set [] counts i s k h g = elim h [ ]
  in_window-set (x ∷ starts) [] i s k h g = elim g [ ]
  in_window-set (x ∷ starts) (y ∷ counts) zero s k h g = ground arith
  in_window-set (x ∷ starts) (y ∷ counts) (suc i) s k h g =
      ground (arith, in_window-set starts counts i s k (omega arith) (omega arith))

  in_window-add :
      (starts : List (Option ℕ)) (counts : List ℕ) (i k : ℕ)
      → i < length starts
      → i < length counts
      → in_window starts (set counts i (get_or counts i 0 + k))
        ≡ in_window starts counts + worth c now (get_or starts i none) k
  unfolding in_window expire_slots
  in_window-add [] counts i k h g = elim h [ ]
  in_window-add (x ∷ starts) [] i k h g = elim g [ ]
  in_window-add (x ∷ starts) (y ∷ counts) zero k h g = ground arith
  in_window-add (x ∷ starts) (y ∷ counts) (suc i) k h g =
      ground (arith, in_window-add starts counts i k (omega arith) (omega arith))

worth-zero : (c : IpCounter) (now : ℕ) (s : Option ℕ) → worth c now s 0 ≡ 0
worth-zero c now s = ground arith

-- Only the geometry of a counter decides what is in the window.
pub in_window-geometry :
    (c c' : IpCounter) (now : ℕ) (starts : List (Option ℕ)) (counts : List ℕ)
    → c.bucket_seconds ≡ c'.bucket_seconds
    → c.bucket_count ≡ c'.bucket_count
    → in_window c now starts counts ≡ in_window c' now starts counts
unfolding in_window expire_slots is_gone is_live
in_window-geometry c c' now [] counts e f = refl
in_window-geometry c c' now (s ∷ starts) [] e f = refl
in_window-geometry c c' now (none ∷ starts) (k ∷ counts) e f =
    ground (arith, in_window-geometry c c' now starts counts e f)
in_window-geometry c c' now (some s ∷ starts) (k ∷ counts) e f = ground (
  arith,
  in_window-geometry c c' now starts counts e f,
  ap (λ (b : ℕ). bucket_start now b) e,
  ap₂ (λ (b n : ℕ). b * n) e f,
)

-- The running total as `expire(now)` leaves it.
abbrev pub window_total : IpCounter → ℕ → ℕ
window_total c now = (expire c now).0.total

pub window_total-eq :
    (c : IpCounter) (now : ℕ) → IsValid c → window_total c now ≡ in_window c now c.starts c.counts
unfolding expire in_window
window_total-eq c now v = omega (arith, expire_slots-sum c now c.starts c.counts, v.total_sum)

-- No bucket of the ring starts after `now`.
pub record IsPast (c : IpCounter) (now : ℕ) : Type 0 where
  pub past : (i s : ℕ) → get_or c.starts i none ≡ some s → s ≤ now

pub apply_delta-geometry :
    (c : IpCounter) (s d : ℕ)
    → ((apply_delta c s d).bucket_count ≡ c.bucket_count)
      × ((apply_delta c s d).bucket_seconds ≡ c.bucket_seconds)
unfolding apply_delta add_to_slot
apply_delta-geometry c s d =
    claim_slot-geometry c (bucket_index s c.bucket_seconds c.bucket_count) s

module _ (c : IpCounter) (s at now : ℕ) (v : IsValid c) (p : IsPast c at) (le : at ≤ now)
    (a : s % c.bucket_seconds ≡ 0) (started : s ≤ at) (open_at : at < s + window_seconds c) where
  -- The occupant that a bucket live at `at` displaces is not in the window of any later `now`.
  displaced :
      (o : ℕ)
      → get_or c.starts (bucket_index s c.bucket_seconds c.bucket_count) none ≡ some o
      → holds (some o) s ≡ false
      → is_gone c now (some o) ≡ true
  unfolding is_gone window_seconds
  displaced o e h =
      let oa = v.aligned _ o e in
      elim (Bool-cases (is_live c o now)) [
        | inl live ↦
            let bounds = (is_live_iff c o now v.seconds_pos oa).0 live in
            let same : s ≡ o =
              bucket_index_injective s o c.bucket_seconds c.bucket_count a oa
                (omega (arith, bounds.1, started)) (omega (arith, p.past _ o e, open_at))
                (sym (v.placed _ o e)) in
            ground (arith, same, h)
        | inr gone ↦ rw gone
      ]

  -- What the slot held before counts nothing in the window.
  worth_old :
      let i = bucket_index s c.bucket_seconds c.bucket_count in
      holds (get_or c.starts i none) s ≡ false
      → worth c now (get_or c.starts i none) (get_or c.counts i 0) ≡ 0
  unfolding is_gone
  worth_old h =
      let i = bucket_index s c.bucket_seconds c.bucket_count in
      elim (Option-cases (get_or c.starts i none)) [
        | inl e ↦ rw e (v.empties i e)
        | inr (o, e) ↦ rw e (rw (displaced o e (rw e at h)))
      ]

  in_window-claim :
      let i = bucket_index s c.bucket_seconds c.bucket_count in
      in_window c now (claim_slot c i s).starts (claim_slot c i s).counts
      ≡ in_window c now c.starts c.counts
  unfolding claim_slot
  in_window-claim =
      let i = bucket_index s c.bucket_seconds c.bucket_count in
      let small = index_lt c s v in
      elim (Bool-cases (holds (get_or c.starts i none) s)) [
        | inl old ↦ rw old
        | inr other ↦ rw other (
            omega (
              arith,
              in_window-set c now c.starts c.counts i (some s) 0
                  (omega (arith, small, v.starts_length)) (omega (arith, small, v.counts_length)),
              worth_old other,
              worth-zero c now (some s),
            ))
      ]

  in_window-apply :
      (d : ℕ)
      → in_window c now (apply_delta c s d).starts (apply_delta c s d).counts
        ≡ in_window c now c.starts c.counts + (if is_live c s now then d else 0)
  unfolding apply_delta add_to_slot is_gone
  in_window-apply d =
      let i = bucket_index s c.bucket_seconds c.bucket_count in
      let small = index_lt c s v in
      let c1 = claim_slot c i s in
      let v1 = claim_slot-IsValid c i s v small a refl in
      let n1 = (claim_slot-geometry c i s).0 in
      ground (
        arith,
        in_window-add c now c1.starts c1.counts i d (omega (arith, small, v1.starts_length, n1))
            (omega (arith, small, v1.counts_length, n1)),
        claim_slot-holds c i s v small,
        in_window-claim,
      )

  -- A delta to a bucket that is live when it arrives is in every later window that its bucket is in.
  pub window_total-apply :
      (d : ℕ)
      → window_total (apply_delta c s d) now
        ≡ window_total c now + (if is_live c s now then d else 0)
  window_total-apply d = omega (
    arith,
    window_total-eq (apply_delta c s d) now (apply_delta-IsValid c s d v a),
    window_total-eq c now v,
    in_window-geometry (apply_delta c s d) c now (apply_delta c s d).starts
        (apply_delta c s d).counts (apply_delta-geometry c s d).1 (apply_delta-geometry c s d).0,
    in_window-apply d,
  )
