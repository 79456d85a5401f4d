-- ===== src/Store/Shards.antt =====
-- store/interface.py (`ShardState`) and store/memory.py (`MemoryShardStateStore`): each shard's HOT
-- set, its sequence counter and its lease. Shards are natural numbers; a lease's owner is a token
-- that is only compared, here a natural number as well. The clock's reading is an argument, and a
-- TTL counts in the clock's unit, so that times are natural numbers.
pub mod Transitions
pub mod Leases
use Prim.Native.Nat.{max}
use hammertime.Base.{
  ℕ, suc, ◌+◌, Bool, true, false, not, ◌&&◌, Option, none, some, List, [], ◌∷◌, Result, ok, err,
  value_error, leb, ◌==◌, if◌then◌else◌,
}
use hammertime.Base.Int.{ℤ, is_negative, pos_part}
use hammertime.Base.Dict.{value_or, lookup, put, erase, include, discard, nat_key}
use hammertime.Core.Address.{Address}
use hammertime.Core.Address.Same.{address_key}
use hammertime.Core.State.{IpState, cold, hot, is}

pub record ShardState : Type 0 where
  pub hot_ips : List Address
  pub next_sequence : ℕ

pub record ShardStateStore : Type 0 where
  pub hot_ips : List (ℕ × List Address)
  pub next_sequence : List (ℕ × ℕ)
  pub leases : List (ℕ × (ℕ × ℕ))

-- `MemoryShardStateStore()`
abbrev pub empty : ShardStateStore
empty = record { hot_ips = []; next_sequence = []; leases = [] }

unfoldable pub load : ShardStateStore → ℕ → ShardState
load store shard = record {
  hot_ips = value_or [] (lookup shard store.hot_ips);
  next_sequence = value_or 0 (lookup shard store.next_sequence);
}

-- The HOT set of a shard that has none is created for a promotion only.
unfoldable pub change_membership : ShardStateStore → ℕ → Address → IpState → List (ℕ × List Address)
change_membership store shard ip hot =
    put shard (include ip (value_or [] (lookup shard store.hot_ips))) store.hot_ips
change_membership store shard ip cold = elim (lookup shard store.hot_ips) [
  | none ↦ store.hot_ips
  | some ips ↦ put shard (discard ip ips) store.hot_ips
]

unfoldable pub record_transition :
    ShardStateStore → ℕ → Address → IpState → ℤ → Result ShardStateStore
unfolding change_membership
record_transition store shard ip state sequence =
    if is_negative sequence
    then err value_error
    else ok (record store {
      hot_ips = change_membership store shard ip state;
      next_sequence =
          put shard (max (value_or 0 (lookup shard store.next_sequence)) (suc (pos_part sequence)))
            store.next_sequence;
    })

-- A lease that has expired is deleted and counts as absent.
unfoldable pub live_holder : ShardStateStore → ℕ → ℕ → ShardStateStore × Option ℕ
live_holder store shard now = elim (lookup shard store.leases) [
  | none ↦ (store, none)
  | some lease ↦
      if leb lease.1 now
      then (record store { leases = erase shard store.leases }, none)
      else (store, some lease.0)
]

-- `self._leases[shard] = (owner, now + ttl_seconds)`
abbrev pub grant : ShardStateStore → ℕ → ℕ → ℕ → ShardStateStore
grant store shard owner expires_at = record store {
  leases = put shard (owner, expires_at) store.leases;
}

-- The new store, and the other owner that holds the lease, if one does.
unfoldable pub acquire_lease : ShardStateStore → ℕ → ℕ → ℕ → ℕ → Result (ShardStateStore × Option ℕ)
acquire_lease store shard owner ttl_seconds now =
    if ttl_seconds == 0
    then err value_error
    else (let (store', holder) = live_holder store shard now in
        elim holder [
          | none ↦ ok (grant store' shard owner (now + ttl_seconds), none)
          | some other ↦
              if other == owner
              then ok (grant store' shard owner (now + ttl_seconds), none)
              else ok (store', some other)
        ])

unfoldable pub release_lease : ShardStateStore → ℕ → ℕ → ℕ → ShardStateStore
release_lease store shard owner now =
    let (store', holder) = live_holder store shard now in
    elim holder [
      | none ↦ store'
      | some other ↦
          if other == owner then record store' { leases = erase shard store'.leases } else store'
    ]
