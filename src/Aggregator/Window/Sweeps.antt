-- ===== src/Aggregator/Window/Sweeps.antt =====
-- aggregator/window/store.py: construction, warm-up, the reads, the sweeps of a `ShardWindow` and the
-- adoption of a configuration.
use hammertime.Base.{
  ℕ, zero, suc, ◌+◌, ◌*◌, Bool, true, false, not, ◌&&◌, Option, none, some, List, [], ◌∷◌, ◌++◌,
  map, Result, ok, err, value_error, ltb, leb, ◌==◌, if◌then◌else◌, length,
}
use hammertime.Base.Int.{pos}
use hammertime.Base.Dict.{lookup, put, erase, include}
use hammertime.Core.Address.{Address}
use hammertime.Core.Address.Same.{address_key}
use hammertime.Core.Config.{DetectionConfig, bucket_count}
use hammertime.Core.State.{IpState, cold, hot, is}
use hammertime.Core.Time.{bucket_start}
use hammertime.Aggregator.Counter
use hammertime.Aggregator.Counter.{IpCounter, fresh, expire, live_buckets}
use hammertime.Aggregator.Window.{WindowChange, Entry, Item, ShardWindow, push_all}
use hammertime.Aggregator.Window.Changes.{
  Round, stop, go, defer, found, new_counter, schedule_expiry, track, drop, forget, renew, settle,
}

abbrev pub track_all : ShardWindow → List Address → ℕ → ShardWindow
track_all w [] now = w
track_all w (ip ∷ ips) now =
    track_all
      (track w ip
        (record { counter = new_counter w; state = hot; last_seen = now; inherited = true }))
      ips now

-- `frozenset(...)`
abbrev pub distinct : List Address → List Address
distinct [] = []
distinct (ip ∷ ips) = include ip (distinct ips)

abbrev pub empty : ℕ → DetectionConfig → ℕ → ℕ → ShardWindow
empty shard config next_sequence max_tracked_ips = record {
  shard = shard;
  next_sequence = next_sequence;
  capacity_evictions = 0;
  retention_evictions = 0;
  config = config;
  max_tracked_ips = max_tracked_ips;
  entries = [];
  tie_break = 0;
  expiry_heap = [];
  expiry_scheduled = [];
  last_seen_heap = [];
  last_seen_scheduled = [];
  warm_until = none;
}

unfoldable pub new : ℕ → DetectionConfig → List Address → ℕ → ℕ → ℕ → Result ShardWindow
new shard config inherited_hot next_sequence max_tracked_ips now =
    let w =
      track_all (empty shard config next_sequence max_tracked_ips) (distinct inherited_hot) now in
    let warm : Option ℕ = elim w.entries [ [] ↦ none | _ ↦ some (now + config.window_seconds) ] in
    if max_tracked_ips == 0 then err value_error else ok (record w { warm_until = warm })

unfoldable pub in_warmup : ShardWindow → ℕ → Bool
in_warmup w now = elim w.warm_until [ none ↦ false | some until ↦ ltb now until ]

abbrev pub still_hot : List (Address × Entry) → List Address
still_hot [] = []
still_hot ((ip, entry) ∷ entries) =
    let rest = still_hot entries in
    if entry.inherited && is entry.state hot then ip ∷ rest else rest

abbrev pub settled : List (Address × Entry) → List (Address × Entry)
settled [] = []
settled ((ip, entry) ∷ entries) = (ip, record entry { inherited = false }) ∷ settled entries

unfoldable pub finish_warmup_if_due : ShardWindow → ℕ → ShardWindow × Option (List Address)
finish_warmup_if_due w now = elim w.warm_until [
  | none ↦ (w, none)
  | some until ↦
      if ltb now until
      then (w, none)
      else (record w { entries = settled w.entries; warm_until = none }, some (still_hot w.entries))
]

unfoldable pub total : ShardWindow → Address → ℕ
total w ip = elim (lookup ip w.entries) [ none ↦ 0 | some entry ↦ entry.counter.total ]

unfoldable pub state : ShardWindow → Address → IpState
state w ip = elim (lookup ip w.entries) [ none ↦ cold | some entry ↦ entry.state ]

unfoldable pub is_inherited : ShardWindow → Address → Bool
is_inherited w ip = elim (lookup ip w.entries) [ none ↦ false | some entry ↦ entry.inherited ]

abbrev pub hot_among : List (Address × Entry) → List Address
hot_among [] = []
hot_among ((ip, entry) ∷ entries) =
    let rest = hot_among entries in if is entry.state hot then ip ∷ rest else rest

unfoldable pub hot_ips : ShardWindow → List Address
hot_ips w = hot_among w.entries

unfoldable pub tracked_ips : ShardWindow → List Address
tracked_ips w = map (λ p. p.0) w.entries

unfoldable pub tracked_count : ShardWindow → ℕ
tracked_count w = length w.entries

-- The entry of a tracked address after its counter has expired, and the change, if its total moved.
unfoldable pub expire_entry : ShardWindow → Address → Entry → ℕ → ShardWindow × List WindowChange
expire_entry w ip entry now =
    let (counter', removed) = expire entry.counter now in
    let entry' = record entry { counter = counter' } in
    let w' = schedule_expiry (record w { entries = put ip entry' w.entries }) ip entry' in
    let change : WindowChange = record {
      ip = ip;
      state = entry.state;
      total_before = entry.counter.total;
      total_after = counter'.total;
    } in
    (w', if removed == 0 then [] else change ∷ [])

-- `self._expiry_scheduled.get(ip) != expires_at` passes the item over.
abbrev pub is_scheduled : Option ℕ → ℕ → Bool
is_scheduled none t = false
is_scheduled (some s) t = s == t

unfoldable pub expire_item : ShardWindow → Item → List Item → ℕ → ShardWindow × List WindowChange
unfolding expire_entry
expire_item w item heap now =
    let popped = record w { expiry_heap = heap } in
    let consumed = record popped { expiry_scheduled = erase item.ip w.expiry_scheduled } in
    let due : ShardWindow × List WindowChange = elim (lookup item.ip w.entries) [
      | none ↦ (consumed, [])
      | some entry ↦ expire_entry consumed item.ip entry now
    ] in
    if is_scheduled (lookup item.ip w.expiry_scheduled) item.key then due else (popped, [])

-- What is scheduled again is later than `now`, so that one round for each item is enough.
unfoldable pub expire_loop : ℕ → ShardWindow → ℕ → ShardWindow × List WindowChange
expire_loop zero w now = (w, [])
expire_loop (suc fuel) w now = elim w.expiry_heap [
  | [] ↦ (w, [])
  | item ∷ heap ↦
      let (w', changes) = expire_item w item heap now in
      let (w'', more) = expire_loop fuel w' now in
      if leb item.key now then (w'', changes ++ more) else (w, [])
]

unfoldable pub expire_due : ShardWindow → ℕ → ShardWindow × List WindowChange
expire_due w now = expire_loop (length w.expiry_heap) w now

-- `last_seen > deadline`, where the deadline is `now - state_retention_seconds`, ends the loop.
unfoldable pub evict_item : ShardWindow → Item → List Item → Option Entry → ℕ → Round
evict_item w item heap none now = go (forget w item heap)
evict_item w item heap (some entry) now =
    if not (item.key == entry.last_seen)
    then go (renew w item entry heap)
    else if ltb now (item.key + w.config.state_retention_seconds)
    then stop
    else settle w item entry heap

unfoldable pub evict_round : ShardWindow → List Item → ℕ → Round
evict_round w [] now = stop
evict_round w (item ∷ heap) now = evict_item w item heap (lookup item.ip w.entries) now

unfoldable pub evict_found : ShardWindow → Address → ShardWindow
evict_found w ip = record (drop w ip) { retention_evictions = suc w.retention_evictions }

-- What is done after a round: the window, how many were evicted and the items set aside.
unfoldable pub evict_step :
    ShardWindow → (ShardWindow → ShardWindow × ℕ × List Item) → Round → ShardWindow × ℕ × List Item
evict_step w rest stop = (w, 0, [])
evict_step w rest (go w') = rest w'
evict_step w rest (defer w' item) =
    let (w'', removed, deferred) = rest w' in (w'', removed, item ∷ deferred)
evict_step w rest (found w' ip) =
    let (w'', removed, deferred) = rest (evict_found w' ip) in (w'', suc removed, deferred)

unfoldable pub evict_loop : ℕ → ShardWindow → ℕ → ShardWindow × ℕ × List Item
evict_loop zero w now = (w, 0, [])
evict_loop (suc fuel) w now =
    evict_step w (λ w'. evict_loop fuel w' now) (evict_round w w.last_seen_heap now)

unfoldable pub evict_due : ShardWindow → ℕ → ShardWindow × ℕ
evict_due w now =
    let (w', removed, deferred) = evict_loop (2 * length w.last_seen_heap) w now in
    (record w' { last_seen_heap = push_all deferred w'.last_seen_heap }, removed)

-- The live buckets of the old ring, observed again on a new one.
unfoldable pub rebuild : ℕ → List (ℕ × ℕ) → IpCounter → ℕ → Result IpCounter
rebuild bucket_seconds [] counter now = ok counter
rebuild bucket_seconds ((start, count) ∷ buckets) counter now =
    elim (Counter.observe counter (bucket_start start bucket_seconds) (pos count) now) [
      | ok outcome ↦ rebuild bucket_seconds buckets outcome.0 now
      | err e ↦ err e
    ]

unfoldable pub rebuild_all : ShardWindow → List (Address × Entry) → ℕ → Result ShardWindow
rebuild_all w [] now = ok w
rebuild_all w ((ip, entry) ∷ entries) now =
    elim (rebuild w.config.bucket_seconds (live_buckets entry.counter now) (new_counter w) now) [
      | ok counter' ↦
          let entry' = record entry { counter = counter' } in
          let w' = record w {
            entries = put ip entry' w.entries;
            expiry_scheduled = erase ip w.expiry_scheduled;
          } in
          rebuild_all (schedule_expiry w' ip entry') entries now
      | err e ↦ err e
    ]

unfoldable pub apply_config : ShardWindow → DetectionConfig → ℕ → Result ShardWindow
apply_config w config now =
    let adopted = record w { config = config } in
    if (config.bucket_seconds == w.config.bucket_seconds)
      && (bucket_count config == bucket_count w.config)
    then ok adopted
    else rebuild_all adopted w.entries now
