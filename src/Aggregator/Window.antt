-- ===== src/Aggregator/Window.antt =====
-- aggregator/window/store.py, `ShardWindow`: the counters of one shard, bounded by expiry, retention
-- and a cap. The clock's reading `now` is an argument; the log line of `store_over_capacity` is left
-- out. A heap is a list in order, of which `heap[0]` is the head; its items are compared by key and by
-- tie-breaker. A loop over a heap has fuel: each round takes an item off or brings one up to date,
-- and an item is brought up to date once, so that twice the heap's length is enough.
pub mod Changes
pub mod Sweeps
pub mod Hot
pub mod Fuel
use Prim.Native.Nat.{max}
use hammertime.Base.{
  ℕ, zero, suc, ◌+◌, ◌-◌, ◌*◌, Bool, true, false, not, ◌&&◌, Option, none, some, List, [], ◌∷◌,
  Result, ok, err, value_error, ltb, leb, ◌==◌, if◌then◌else◌, length,
}
use hammertime.Base.Dict.{lookup, put, erase}
use hammertime.Core.Address.{Address}
use hammertime.Core.Address.Same.{address_key}
use hammertime.Core.Config.{DetectionConfig}
use hammertime.Core.State.{IpState, cold, hot, is}
use hammertime.Aggregator.Counter.{IpCounter, fresh}

pub record WindowChange : Type 0 where
  pub ip : Address
  pub state : IpState
  pub total_before : ℕ
  pub total_after : ℕ

pub record Entry : Type 0 where
  pub counter : IpCounter
  pub state : IpState
  pub last_seen : ℕ
  pub inherited : Bool

pub record Item : Type 0 where
  pub key : ℕ
  pub tie : ℕ
  pub ip : Address

pub record ShardWindow : Type 0 where
  pub shard : ℕ
  pub next_sequence : ℕ
  pub capacity_evictions : ℕ
  pub retention_evictions : ℕ
  pub config : DetectionConfig
  pub max_tracked_ips : ℕ
  pub entries : List (Address × Entry)
  pub tie_break : ℕ
  pub expiry_heap : List Item
  pub expiry_scheduled : List (Address × ℕ)
  pub last_seen_heap : List Item
  pub last_seen_scheduled : List (Address × ℕ)
  pub warm_until : Option ℕ

-- `heappush`
abbrev pub before : Item → Item → Bool
before a b = if a.key == b.key then leb a.tie b.tie else ltb a.key b.key

unfoldable pub push : Item → List Item → List Item
push item [] = item ∷ []
push item (b ∷ heap) =
    let rest = push item heap in if before item b then item ∷ b ∷ heap else b ∷ rest

abbrev pub push_all : List Item → List Item → List Item
push_all [] heap = heap
push_all (item ∷ items) heap = push_all items (push item heap)
