-- ===== src/Store/Tests.antt =====
-- Runs of the stores at concrete inputs, and their theorems at some of them.
use hammertime.Base.{
  ℕ, ◌+◌, ◌≡◌, refl, true, false, List, [], ◌∷◌, none, some, leb, ◌==◌, if◌then◌else◌, ◌&&◌, mem,
  arith,
}
use hammertime.Base.Int.{pos, negsuc}
use hammertime.Base.Dict.{is_in, nat_key}
use hammertime.Core.Address.{Address, ipv4}
use hammertime.Core.Address.Same.{address_key}
use hammertime.Core.State.{cold, hot}
use hammertime.Store.Dedup.{
  empty, contains, add, out_of_order_count, fold_run, fold_contiguous_run, bound_out_of_order_set,
}
use hammertime.Store.Dedup.History.{add_all, IsValid, add_all-contains}
use hammertime.Store.Shards
use hammertime.Store.Shards.{ShardStateStore, load, acquire_lease, release_lease}
use hammertime.Store.Shards.Transitions.{
  Call, transition, perform_all, next_after, held_after, perform_all-next, perform_all-holds,
}
use hammertime.Store.Shards.Leases
use hammertime.Store.Shards.Leases.{
  LeaseCall, acquired, released, holder_at, left_by, refused_by, is_free_for, acquire-holder,
  acquire_refused,
}
use hammertime.Store.Agents.{
  DedupStore, has_seen, claim, sweep, sweep_heap, mark_seen, write_window, extend, evict_if_full,
}
use hammertime.Store.Agents.Claims
use hammertime.Store.Agents.Claims.{AgentCall, asked, marked, claimed, claim_once}

-- Sequences 0, 2, 1, 5: the gap at 1 is closed, the one at 3 is not.
abbrev sequences : List ℕ
sequences = 0 ∷ 2 ∷ 1 ∷ 5 ∷ []

add_all-contains_example : contains (add_all (empty 10) sequences) 3 ≡ mem 3 sequences
add_all-contains_example = add_all-contains 10 sequences 3 (omega arith)

five_seen : contains (add_all (empty 1) sequences) 5 ≡ true
unfolding contains add fold_run fold_contiguous_run bound_out_of_order_set
five_seen = refl

empty-IsValid : IsValid (empty 10)
unfolding out_of_order_count
empty-IsValid = (omega arith, refl)

abbrev source : Address
source = record { family = ipv4; value = 167772161 }

-- A promotion, its demotion, a call that is refused and a replay of the first one.
abbrev calls : List Call
calls =
    transition 3 source hot (pos 0)
    ∷ transition 3 source cold (pos 1)
    ∷ transition 3 source hot (negsuc 0)
    ∷ transition 3 source hot (pos 0)
    ∷ []

calls_next : next_after 3 0 calls ≡ 2
calls_next = refl

perform_all-next_example :
    (load (perform_all Shards.empty calls) 3).next_sequence
    ≡ next_after 3 ((load Shards.empty 3).next_sequence) calls
perform_all-next_example = perform_all-next Shards.empty calls 3

perform_all-holds_example :
    is_in source (load (perform_all Shards.empty calls) 3).hot_ips
    ≡ held_after 3 source (is_in source (load Shards.empty 3).hot_ips) calls
perform_all-holds_example = perform_all-holds Shards.empty calls 3 source

-- Owner 1 takes the lease of shard 3 for 30 seconds at 100; owner 2 asks at 120.
acquire-holder_example :
    holder_at (left_by Shards.empty (acquire_lease Shards.empty 3 1 30 100)) 3 129 ≡ (
      if is_free_for 1 (holder_at Shards.empty 3 100) && (3 == 3)
      then (if leb (100 + 30) 129 then none else some 1)
      else holder_at Shards.empty 3 129)
acquire-holder_example = acquire-holder Shards.empty 3 1 30 100 3 129 (omega arith) (omega arith)

-- Until 129, owner 2 asks for too short a time, gives up a lease that it lacks, and takes another shard's.
abbrev lease_calls : List LeaseCall
lease_calls =
    acquired 3 2 0 110
    ∷ acquired 3 2 5 125
    ∷ released 3 2 111
    ∷ acquired 4 2 30 105
    ∷ released 4 1 129
    ∷ []

acquire_refused_example :
    refused_by (
      acquire_lease
        (Leases.perform_all
          (left_by Shards.empty (acquire_lease Shards.empty 3 1 30 100))
          lease_calls)
        3
        2
        30
        129)
    ≡ some 1
acquire_refused_example =
    acquire_refused Shards.empty 3 1 2 30 30 100 129 lease_calls (omega arith) (omega arith)
      (omega arith) (omega arith) (λ e. omega arith) refl refl

abbrev no_agents : DedupStore
no_agents = record { max_agents = 10; windows = []; expires_at = []; expiry_heap = [] }

first_claim : (claim no_agents 4 17 60 100).1 ≡ true
unfolding claim has_seen sweep sweep_heap
first_claim = refl

-- In between, another agent's claim and a later sequence of the same agent.
abbrev agent_calls : List AgentCall
agent_calls = claimed 5 1 300 110 ∷ marked 4 19 60 120 ∷ asked 4 17 130 ∷ []

claim_once_example :
    (claim (Claims.perform_all (claim no_agents 4 17 60 100).0 agent_calls) 4 17 60 159).1 ≡ false
unfolding claim has_seen sweep sweep_heap mark_seen write_window extend evict_if_full add contains
    fold_contiguous_run bound_out_of_order_set out_of_order_count
claim_once_example =
    claim_once no_agents 4 17 60 60 100 159 agent_calls tt first_claim (omega arith) (omega arith)
      refl (omega arith)
