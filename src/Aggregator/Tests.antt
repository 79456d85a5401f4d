-- ===== src/Aggregator/Tests.antt =====
-- Runs of services/aggregator at concrete inputs, and its theorems at some of them.
use hammertime.Base.{
  ℕ, ◌+◌, ◌%◌, ◌≤◌, ◌<◌, ◌≡◌, ◌↔◌, refl, true, false, not, ◌&&◌, ◌||◌, List, [], ◌∷◌, some, ok, err,
  value_error, arith, ltb, leb, ◌==◌, if◌then◌else◌,
}
use hammertime.Base.Int.{pos}
use hammertime.Core.Config.{bucket_count, defaults, defaults-IsValid}
use hammertime.Core.Time.{bucket_start, bucket_index}
use hammertime.Aggregator.Counter.{
  IpCounter, fresh, window_seconds, is_live, apply_delta, observe, expire, next_expiry,
  expire_slots, is_gone,
}
use hammertime.Aggregator.Counter.Invariant.{IsValid, fresh-IsValid}
use hammertime.Aggregator.Counter.History.{
  Call, arrive, sweep, perform_all, traffic, perform_all-total, IsPast-fresh,
}
use hammertime.Aggregator.Counter.Expiry.{observe_outcomes, next_expiry_due}
use hammertime.Base.{ℕ, store_error, Result, Ascends}
use hammertime.Base.Dict.{lookup}
use hammertime.Core.Address.{Address, ipv4}
use hammertime.Core.Address.Same.{address_key}
use hammertime.Core.State.{IpState, hot}
use hammertime.Aggregator.Window.{ShardWindow, Entry}
use hammertime.Aggregator.Window.Changes.{evict_for_capacity}
use hammertime.Aggregator.Window.Sweeps.{empty, evict_due}
use hammertime.Aggregator.Window.Fuel.{Ends, evict_loop-Ends}
use hammertime.Aggregator.Window.Sweeps.{evict_loop}
use hammertime.Base.{◌*◌, length}
use hammertime.Aggregator.Window.Hot.{evict_due_keeps_hot, evict_for_capacity_keeps_hot}
use hammertime.Aggregator.Transitions.{Event, evaluate, reevaluate_ips}
use hammertime.Aggregator.Transitions.Order.{
  Sound, published_sequences, evaluate-Sound, reevaluate-Ascends,
}
use hammertime.Aggregator.Lateness.{classify_observation, applied}
use hammertime.Aggregator.Lateness.Ring.{classify-applied_iff}

-- A ring of three buckets of ten seconds; the second delta is late, the last one reuses a slot.
abbrev calls : List Call
calls = arrive 100 5 101 ∷ arrive 110 7 112 ∷ arrive 100 2 112 ∷ sweep 129 ∷ arrive 130 4 131 ∷ []

calls_total : (perform_all (fresh 10 3) calls).total ≡ 11
unfolding perform_all is_live bucket_start apply_delta bucket_index expire_slots is_gone
calls_total = refl

perform_all-total_example :
    (IsValid (perform_all (fresh 10 3) calls))
    × ((expire (perform_all (fresh 10 3) calls) 135).0.total ≡ traffic 30 135 calls)
perform_all-total_example =
    perform_all-total calls 10 3 0 135 (omega arith) (omega arith) (omega arith) (omega arith)

abbrev ring : IpCounter
ring = fresh 10 3

ring-IsValid : IsValid ring
ring-IsValid = fresh-IsValid 10 3 (omega arith) (omega arith)

observe_outcomes_example : observe ring 100 (pos 5) 101 ≡ (
    if not (100 % 10 == 0) || false
    then err value_error
    else if leb 100 101 && ltb 101 (100 + window_seconds ring)
    then ok (apply_delta ring 100 5, true)
    else ok (ring, false))
observe_outcomes_example = observe_outcomes ring 100 (pos 5) 101 ring-IsValid

observed : observe ring 100 (pos 5) 101 ≡ ok (apply_delta ring 100 5, true)
unfolding observe is_live bucket_start
observed = refl

next_expiry_due_example :
    (0 < (expire ring 140).1) ↔ ((e : ℕ) × (next_expiry ring ≡ some e) × (e ≤ 140))
next_expiry_due_example = next_expiry_due ring 140 ring-IsValid (IsPast-fresh 10 3 140)

classify-applied_iff_example : (classify_observation 1_000_003 10 1_000_200 defaults ≡ applied) ↔ (
    (10 ≤ 300)
    × (1_000_003 ≤ 1_000_200)
    × (is_live (fresh 10 30) (bucket_start 1_000_003 10) 1_000_200 ≡ true))
classify-applied_iff_example =
    classify-applied_iff defaults (fresh 10 30) 1_000_003 10 1_000_200 defaults-IsValid refl
      (unfold bucket_count in refl)

abbrev source : Address
source = record { family = ipv4; value = 167772161 }

abbrev entry : Entry
entry = record { counter = fresh 10 30; state = hot; last_seen = 1000; inherited = true }

-- A shard with one inherited HOT address and room for one.
abbrev window : ShardWindow
window = record (empty 3 defaults 5 1) {
  entries = (source, entry) ∷ [];
  last_seen_heap = record { key = 1000; tie = 0; ip = source } ∷ [];
  last_seen_scheduled = (source, 1000) ∷ [];
}

evict_due_keeps_hot_example : lookup source (evict_due window 1_000_000).0.entries ≡ some entry
evict_due_keeps_hot_example = evict_due_keeps_hot source entry refl window 1_000_000 refl

evict_for_capacity_keeps_hot_example :
    lookup source (evict_for_capacity window).entries ≡ some entry
evict_for_capacity_keeps_hot_example = evict_for_capacity_keeps_hot source entry refl window refl

-- A codec that writes the sequence number, a store that refuses odd ones, a producer that accepts.
abbrev encode : Event → Result ℕ
encode e = ok e.sequence

abbrev write : ℕ → Address → IpState → ℕ → Result (Unit {0})
write shard ip state sequence = if sequence % 2 == 1 then err store_error else ok tt

abbrev send : Event → ℕ → Result (Unit {0})
send e bytes = ok tt

evaluate-Sound_example : Sound 5 window (evaluate encode write send window source defaults 2000)
evaluate-Sound_example = evaluate-Sound encode write send window source defaults 2000

reevaluate-Ascends_example : Ascends 5 (
    published_sequences
      (reevaluate_ips encode write send window (source ∷ source ∷ []) defaults 2000).1)
reevaluate-Ascends_example =
    reevaluate-Ascends encode write send window (source ∷ source ∷ []) defaults 2000

evict_loop-Ends_example :
    Ends 1_000_000 window (evict_loop (2 * length window.last_seen_heap) window 1_000_000)
evict_loop-Ends_example =
    evict_loop-Ends window 1_000_000 (2 * length window.last_seen_heap) (omega arith)
