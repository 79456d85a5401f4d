-- ===== src/Aggregator/Counter.antt =====
-- aggregator/window/counter.py: the ring of buckets of one IP and its running total.
-- `starts` and `counts` are the two parallel lists of slots; a slot is always below `bucket_count`,
-- which is the length of both (`IsValid`), so an index out of range does not occur, and the total is
-- at least each count, so the subtractions are exact.
pub mod Invariant
pub mod Window
pub mod History
pub mod Expiry
use hammertime.Base.{
  ℕ, ◌+◌, ◌-◌, ◌*◌, ◌%◌, Bool, true, false, not, ◌&&◌, Option, none, some, List, [], ◌∷◌, Result,
  ok, value_error, raise_if, ◌>>◌, ltb, leb, ◌==◌, if◌then◌else◌, get_or, set, replicate, min,
}
use mathlib.Core.Option
use hammertime.Base.Int.{ℤ, is_negative, pos_part}
use hammertime.Core.Time.{bucket_start, bucket_index}

pub record IpCounter : Type 0 where
  pub bucket_seconds : ℕ
  pub bucket_count : ℕ
  pub starts : List (Option ℕ)
  pub counts : List ℕ
  pub total : ℕ

abbrev pub fresh : ℕ → ℕ → IpCounter
fresh bucket_seconds bucket_count = record {
  bucket_seconds = bucket_seconds;
  bucket_count = bucket_count;
  starts = replicate bucket_count none;
  counts = replicate bucket_count 0;
  total = 0;
}

unfoldable pub new : ℕ → ℕ → Result IpCounter
new bucket_seconds bucket_count = do
  raise_if (bucket_seconds == 0) value_error
  raise_if (bucket_count == 0) value_error
  ok (fresh bucket_seconds bucket_count)

unfoldable pub window_seconds : IpCounter → ℕ
window_seconds c = c.bucket_seconds * c.bucket_count

-- `0 <= age < window_seconds`, where `age` is negative if the bucket has not started.
unfoldable pub is_live : IpCounter → ℕ → ℕ → Bool
unfolding window_seconds
is_live c start now =
    leb start (bucket_start now c.bucket_seconds)
    && ltb (bucket_start now c.bucket_seconds - start) (window_seconds c)

-- `self._starts[slot] == bucket_start`
abbrev pub holds : Option ℕ → ℕ → Bool
holds none start = false
holds (some s) start = s == start

-- The slot's previous occupant leaves the total.
abbrev pub take_slot : IpCounter → ℕ → ℕ → IpCounter
take_slot c slot start = record c {
  total = c.total - get_or c.counts slot 0;
  starts = set c.starts slot (some start);
  counts = set c.counts slot 0;
}

unfoldable pub claim_slot : IpCounter → ℕ → ℕ → IpCounter
claim_slot c slot start =
    if holds (get_or c.starts slot none) start then c else take_slot c slot start

unfoldable pub add_to_slot : IpCounter → ℕ → ℕ → IpCounter
add_to_slot c slot delta = record c {
  counts = set c.counts slot (get_or c.counts slot 0 + delta);
  total = c.total + delta;
}

unfoldable pub apply_delta : IpCounter → ℕ → ℕ → IpCounter
unfolding claim_slot add_to_slot
apply_delta c start delta =
    let slot = bucket_index start c.bucket_seconds c.bucket_count in
    add_to_slot (claim_slot c slot start) slot delta

unfoldable pub observe : IpCounter → ℕ → ℤ → ℕ → Result (IpCounter × Bool)
observe c start delta now = do
  raise_if (not (start % c.bucket_seconds == 0)) value_error
  raise_if (is_negative delta) value_error
  if is_live c start now then ok (apply_delta c start (pos_part delta), true) else ok (c, false)

-- A slot that holds a bucket which is not live.
unfoldable pub is_gone : IpCounter → ℕ → Option ℕ → Bool
is_gone c now none = false
is_gone c now (some s) = not (is_live c s now)

-- One round of the loop for each slot: the new slots, and what was removed.
unfoldable pub expire_slots :
    IpCounter → ℕ → List (Option ℕ) → List ℕ → List (Option ℕ) × List ℕ × ℕ
expire_slots c now [] counts = ([], counts, 0)
expire_slots c now (s ∷ starts) [] = (s ∷ starts, [], 0)
expire_slots c now (s ∷ starts) (k ∷ counts) =
    let (starts', counts', removed) = expire_slots c now starts counts in
    if is_gone c now s
    then (none ∷ starts', 0 ∷ counts', k + removed)
    else (s ∷ starts', k ∷ counts', removed)

unfoldable pub expire : IpCounter → ℕ → IpCounter × ℕ
expire c now =
    let (starts', counts', removed) = expire_slots c now c.starts c.counts in
    (record c { starts = starts'; counts = counts'; total = c.total - removed }, removed)

-- The least of a start and what is known of the others.
abbrev pub least : ℕ → Option ℕ → ℕ
least s none = s
least s (some t) = min s t

-- The least start of the slots with a positive count.
unfoldable pub oldest : List (Option ℕ) → List ℕ → Option ℕ
oldest (some s ∷ starts) (k ∷ counts) =
    let rest = oldest starts counts in if ltb 0 k then some (least s rest) else rest
oldest (none ∷ starts) (k ∷ counts) = oldest starts counts
oldest _ _ = none

unfoldable pub next_expiry : IpCounter → Option ℕ
unfolding window_seconds
next_expiry c = Option.map (λ s. s + window_seconds c) (oldest c.starts c.counts)

-- `sorted` on pairs of numbers.
abbrev pub pair_le : ℕ × ℕ → ℕ × ℕ → Bool
pair_le p q = if p.0 == q.0 then leb p.1 q.1 else ltb p.0 q.0

unfoldable pub insert_pair : ℕ × ℕ → List (ℕ × ℕ) → List (ℕ × ℕ)
insert_pair p [] = p ∷ []
insert_pair p (q ∷ qs) = if pair_le p q then p ∷ q ∷ qs else q ∷ insert_pair p qs

unfoldable pub live_slots : IpCounter → ℕ → List (Option ℕ) → List ℕ → List (ℕ × ℕ)
unfolding insert_pair
live_slots c now (some s ∷ starts) (k ∷ counts) =
    let rest = live_slots c now starts counts in
    if ltb 0 k && is_live c s now then insert_pair (s, k) rest else rest
live_slots c now (none ∷ starts) (k ∷ counts) = live_slots c now starts counts
live_slots c now _ _ = []

unfoldable pub live_buckets : IpCounter → ℕ → List (ℕ × ℕ)
live_buckets c now = live_slots c now c.starts c.counts
