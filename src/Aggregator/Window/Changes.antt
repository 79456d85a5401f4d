-- ===== src/Aggregator/Window/Changes.antt =====
-- aggregator/window/store.py: the entries of a `ShardWindow` and their schedules, the loop that makes
-- room for one more, and `observe` and `set_state`.
use Prim.Native.Nat.{max}
use hammertime.Base.{
  ℕ, zero, suc, ◌*◌, Bool, false, Option, none, some, List, [], ◌∷◌, Result, ok, err, key_error,
  ◌>>=◌, ltb, leb, ◌==◌, if◌then◌else◌, length,
}
use hammertime.Base.Int.{ℤ}
use hammertime.Base.Dict.{lookup, put, erase}
use hammertime.Core.Address.{Address}
use hammertime.Core.Address.Same.{address_key}
use hammertime.Core.Config.{bucket_count}
use hammertime.Core.State.{IpState, cold, hot, is}
use hammertime.Aggregator.Counter
use hammertime.Aggregator.Counter.{IpCounter, fresh, next_expiry}
use hammertime.Aggregator.Window.{WindowChange, Entry, Item, ShardWindow, push, push_all}

-- The configuration is valid, so that the constructor does not raise.
unfoldable pub new_counter : ShardWindow → IpCounter
new_counter w = fresh w.config.bucket_seconds (bucket_count w.config)

unfoldable pub schedule_last_seen : ShardWindow → Address → Entry → ShardWindow
schedule_last_seen w ip entry = elim (lookup ip w.last_seen_scheduled) [
  | some key ↦ w
  | none ↦ record w {
    tie_break = suc w.tie_break;
    last_seen_heap =
        push (record { key = entry.last_seen; tie = w.tie_break; ip = ip }) w.last_seen_heap;
    last_seen_scheduled = put ip entry.last_seen w.last_seen_scheduled;
  }
]

-- `scheduled is not None and scheduled <= expires_at`
abbrev pub is_earlier : Option ℕ → ℕ → Bool
is_earlier none t = false
is_earlier (some s) t = leb s t

unfoldable pub schedule_expiry : ShardWindow → Address → Entry → ShardWindow
schedule_expiry w ip entry = elim (next_expiry entry.counter) [
  | none ↦ w
  | some expires_at ↦ if is_earlier (lookup ip w.expiry_scheduled) expires_at then w else record w {
    tie_break = suc w.tie_break;
    expiry_heap = push (record { key = expires_at; tie = w.tie_break; ip = ip }) w.expiry_heap;
    expiry_scheduled = put ip expires_at w.expiry_scheduled;
  }
]

unfoldable pub track : ShardWindow → Address → Entry → ShardWindow
track w ip entry = schedule_last_seen (record w { entries = put ip entry w.entries }) ip entry

unfoldable pub drop : ShardWindow → Address → ShardWindow
drop w ip = record w {
  entries = erase ip w.entries;
  expiry_scheduled = erase ip w.expiry_scheduled;
  last_seen_scheduled = erase ip w.last_seen_scheduled;
}

-- What a sweep does with the head of the retention heap: it goes on, sets a HOT entry aside, or has
-- found a COLD entry whose item is up to date.
pub data Round : Type 0 where
  stop : Round
  go : (w : ShardWindow) → Round
  defer : (w : ShardWindow) (item : Item) → Round
  found : (w : ShardWindow) (ip : Address) → Round

-- An item whose address is gone is taken off; a stale one is pushed with the current time.
unfoldable pub forget : ShardWindow → Item → List Item → ShardWindow
forget w item heap = record w {
  last_seen_heap = heap;
  last_seen_scheduled = erase item.ip w.last_seen_scheduled;
}

unfoldable pub renew : ShardWindow → Item → Entry → List Item → ShardWindow
renew w item entry heap = record w {
  last_seen_heap = push (record item { key = entry.last_seen }) heap;
  last_seen_scheduled = put item.ip entry.last_seen w.last_seen_scheduled;
}

-- An item that is up to date leaves the heap; a HOT one comes back when the loop has ended.
unfoldable pub settle : ShardWindow → Item → Entry → List Item → Round
settle w item entry heap =
    if is entry.state hot
    then defer (record w { last_seen_heap = heap }) item
    else found (record w { last_seen_heap = heap }) item.ip

unfoldable pub capacity_item : ShardWindow → Item → List Item → Option Entry → Round
capacity_item w item heap none = go (forget w item heap)
capacity_item w item heap (some entry) =
    if item.key == entry.last_seen then settle w item entry heap else go (renew w item entry heap)

unfoldable pub capacity_round : ShardWindow → List Item → Round
capacity_round w [] = stop
capacity_round w (item ∷ heap) = capacity_item w item heap (lookup item.ip w.entries)

-- What is done after a round: the window without its victim's item, the items set aside, the victim.
unfoldable pub capacity_step :
    ShardWindow
    → (ShardWindow → ShardWindow × List Item × Option Address)
    → Round
    → ShardWindow × List Item × Option Address
capacity_step w rest stop = (w, [], none)
capacity_step w rest (go w') = rest w'
capacity_step w rest (defer w' item) =
    let (w'', deferred, victim) = rest w' in (w'', item ∷ deferred, victim)
capacity_step w rest (found w' ip) = (w', [], some ip)

unfoldable pub capacity_loop : ℕ → ShardWindow → ShardWindow × List Item × Option Address
capacity_loop zero w = (w, [], none)
capacity_loop (suc fuel) w =
    capacity_step w (capacity_loop fuel) (capacity_round w w.last_seen_heap)

unfoldable pub evict_victim : ShardWindow → Option Address → ShardWindow
evict_victim w none = w
evict_victim w (some ip) = record (drop w ip) { capacity_evictions = suc w.capacity_evictions }

unfoldable pub evict_for_capacity : ShardWindow → ShardWindow
evict_for_capacity w =
    let (w', deferred, victim) = capacity_loop (2 * length w.last_seen_heap) w in
    let w'' = record w' { last_seen_heap = push_all deferred w'.last_seen_heap } in
    if ltb (length w.entries) w.max_tracked_ips then w else evict_victim w'' victim

-- The first observation of an address makes room for it.
unfoldable pub observe_new : ShardWindow → Address → ℕ → IpCounter → ShardWindow × Entry
observe_new w ip start counter =
    let entry : Entry = record {
      counter = counter;
      state = cold;
      last_seen = start;
      inherited = false;
    } in
    (track (evict_for_capacity w) ip entry, entry)

unfoldable pub observe_known : ShardWindow → Address → Entry → ℕ → IpCounter → ShardWindow × Entry
observe_known w ip known start counter =
    let entry = record known { counter = counter; last_seen = max known.last_seen start } in
    (record w { entries = put ip entry w.entries }, entry)

abbrev pub counter_or : ShardWindow → Option Entry → IpCounter
counter_or w none = new_counter w
counter_or w (some entry) = entry.counter

unfoldable pub store_counter :
    ShardWindow → Address → Option Entry → ℕ → IpCounter → ShardWindow × Entry
store_counter w ip none start counter = observe_new w ip start counter
store_counter w ip (some known) start counter = observe_known w ip known start counter

abbrev pub applied : ShardWindow → Address → ℕ → ℕ → IpCounter → ShardWindow × Option WindowChange
applied w ip start total_before counter =
    let (w', entry) = store_counter w ip (lookup ip w.entries) start counter in
    (
      schedule_expiry w' ip entry,
      some (record {
        ip = ip;
        state = entry.state;
        total_before = total_before;
        total_after = counter.total;
      }),
    )

unfoldable pub observe :
    ShardWindow → Address → ℕ → ℤ → ℕ → Result (ShardWindow × Option WindowChange)
observe w ip start delta now = do
  let counter = counter_or w (lookup ip w.entries)
  outcome ← Counter.observe counter start delta now
  if outcome.1 then ok (applied w ip start counter.total outcome.0) else ok (w, none)

unfoldable pub set_state : ShardWindow → Address → IpState → Result ShardWindow
set_state w ip state = elim (lookup ip w.entries) [
  | none ↦ err key_error
  | some entry ↦ elim state [
    | hot ↦ ok (record w { entries = put ip (record entry { state = hot }) w.entries })
    | cold ↦
        let entry' = record entry { state = cold; inherited = false } in
        ok (schedule_last_seen (record w { entries = put ip entry' w.entries }) ip entry')
  ]
]
