-- ===== src/Aggregator/Counter/Expiry.antt =====
-- counter.py: the outcomes of `observe`, and `next_expiry` as the time at which a sweep has work.
use hammertime.Base.{
  ℕ, suc, ◌+◌, ◌%◌, ◌≤◌, ◌<◌, ◌≡◌, ◌↔◌, ◌⊎◌, inl, inr, refl, Bool, true, false, Option, none, some,
  List, [], ◌∷◌, ok, err, arith, ltb, leb, ◌==◌, ==_iff, if◌then◌else◌, get_or, Bool-cases,
  value_error, not, ◌&&◌, ◌||◌,
}
use mathlib.Core.Option
use hammertime.Base.Int.{ℤ, is_negative, pos_part}
use hammertime.Aggregator.Counter.{
  IpCounter, window_seconds, is_live, apply_delta, observe, is_gone, expire_slots, expire, oldest,
  next_expiry,
}
use hammertime.Aggregator.Counter.Invariant.{IsValid, is_live_iff, apply_delta-IsValid}
use hammertime.Aggregator.Counter.Window.{IsPast}

-- On a valid counter, every call of `observe`: an unaligned bucket or a negative delta is a
-- `ValueError`; otherwise the delta is applied exactly from the start of the bucket until one window
-- after it, and at any other time nothing changes and the result is false.
pub observe_outcomes :
    (c : IpCounter) (s : ℕ) (d : ℤ) (now : ℕ)
    → IsValid c
    → observe c s d now ≡ (
        if not (s % c.bucket_seconds == 0) || is_negative d
        then err value_error
        else if leb s now && ltb now (s + window_seconds c)
        then ok (apply_delta c s (pos_part d), true)
        else ok (c, false))
unfolding observe
observe_outcomes c s d now v = elim (Bool-cases (s % c.bucket_seconds == 0)) [
  | inl a ↦
      let iff = is_live_iff c s now v.seconds_pos ((==_iff (s % c.bucket_seconds) 0).0 a) in
      ground (arith, iff)
  | inr n ↦ rw n
]

-- What a call that returns may leave.
observe_results :
    (c c' : IpCounter) (s : ℕ) (d : ℤ) (now : ℕ) (applied : Bool)
    → IsValid c
    → observe c s d now ≡ ok (c', applied)
    → (c' ≡ c) ⊎ ((s % c.bucket_seconds ≡ 0) × (c' ≡ apply_delta c s (pos_part d)))
observe_results c c' s d now applied v e = ground (arith, observe_outcomes c s d now v)

-- Every call of `observe` that returns keeps a valid counter valid.
pub observe-IsValid :
    (c c' : IpCounter) (s : ℕ) (d : ℤ) (now : ℕ) (applied : Bool)
    → IsValid c
    → observe c s d now ≡ ok (c', applied)
    → IsValid c'
observe-IsValid c c' s d now applied v e = elim (observe_results c c' s d now applied v e) [
  | inl same ↦ rw same v
  | inr (a, applied) ↦ rw applied (apply_delta-IsValid c s (pos_part d) v a)
]

-- A slot that counts something has left the window.
abbrev IsDue : ℕ → ℕ → Option ℕ → Type 0
IsDue w now none = ⊥
IsDue w now (some s) = s + w ≤ now

module _ (c : IpCounter) (now : ℕ) where
  removed_iff :
      (starts : List (Option ℕ)) (counts : List ℕ)
      → ((i s : ℕ)
          → get_or starts i none ≡ some s
          → (is_live c s now ≡ false) ↔ (s + window_seconds c ≤ now))
      → (0 < (expire_slots c now starts counts).2)
        ↔ IsDue (window_seconds c) now (oldest starts counts)
  unfolding expire_slots is_gone oldest
  removed_iff [] counts h = (λ p. omega arith, λ p. absurd p)
  removed_iff (none ∷ starts) [] h = (λ p. absurd (omega arith), λ p. absurd p)
  removed_iff (some s ∷ starts) [] h = (λ p. absurd (omega arith), λ p. absurd p)
  removed_iff (none ∷ starts) (k ∷ counts) h = removed_iff starts counts (λ i. h (suc i))
  removed_iff (some s ∷ starts) (k ∷ counts) h =
      let rest = removed_iff starts counts (λ i. h (suc i)) in ground (arith, h 0 s refl, rest)

gone_iff :
    (c : IpCounter) (now s : ℕ)
    → IsValid c
    → s % c.bucket_seconds ≡ 0
    → s ≤ now
    → (is_live c s now ≡ false) ↔ (s + window_seconds c ≤ now)
gone_iff c now s v a le = ground (arith, is_live_iff c s now v.seconds_pos a)

due-next_expiry :
    (c : IpCounter) (now : ℕ) (o : Option ℕ) {P : Type 0}
    → P ↔ IsDue (window_seconds c) now o
    → P ↔ ((e : ℕ) × (Option.map (λ s. s + window_seconds c) o ≡ some e) × (e ≤ now))
due-next_expiry c now none h = (λ p. absurd (h.0 p), λ q. cc q.1)
due-next_expiry c now (some s) h =
    (λ p. (s + window_seconds c, refl, h.0 p), λ q. h.1 (ground (arith, q.1, q.2)))

-- In a valid counter with no future bucket a sweep at `now` removes something exactly if
-- `next_expiry` is a time that is not after `now`.
pub next_expiry_due :
    (c : IpCounter) (now : ℕ)
    → IsValid c
    → IsPast c now
    → (0 < (expire c now).1) ↔ ((e : ℕ) × (next_expiry c ≡ some e) × (e ≤ now))
unfolding expire next_expiry
next_expiry_due c now v p = due-next_expiry c now (oldest c.starts c.counts) (
    removed_iff c now c.starts c.counts
      (λ i s e. gone_iff c now s v (v.aligned i s e) (p.past i s e)))
