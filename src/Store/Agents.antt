-- ===== src/Store/Agents.antt =====
-- store/memory.py, `MemoryDedupStore`: one sequence window for each agent, dropped when its
-- retention has passed or when it is the least recently touched of too many. Agent ids are opaque,
-- here natural numbers. The clock's reading is an argument of each call; none of them awaits, so a
-- call is one step. The heap of expiries is a list of which the least is taken out.
pub mod Retention
pub mod Remembers
pub mod Claims
use hammertime.Base.{
  ℕ, zero, suc, ◌+◌, Bool, true, false, not, ◌&&◌, Option, none, some, List, [], ◌∷◌, ◌++◌, Result,
  ok, err, value_error, ltb, leb, ◌==◌, if◌then◌else◌, length,
}
use hammertime.Base.Dict.{lookup, put, erase, nat_key}
use hammertime.Store.Dedup.{SequenceWindow, empty, contains, add, default_max_out_of_order}

pub record DedupStore : Type 0 where
  pub max_agents : ℕ
  pub windows : List (ℕ × SequenceWindow)
  pub expires_at : List (ℕ × ℕ)
  pub expiry_heap : List (ℕ × ℕ)

unfoldable pub new : ℕ → Result DedupStore
new max_agents =
    if max_agents == 0
    then err value_error
    else ok (record { max_agents = max_agents; windows = []; expires_at = []; expiry_heap = [] })

-- The order of pairs: by the expiry, then by the agent.
abbrev pub before : ℕ × ℕ → ℕ × ℕ → Bool
before p q = if p.0 == q.0 then leb p.1 q.1 else ltb p.0 q.0

-- `heappush` on a heap that is kept in order, so that `heap[0]` is its head.
unfoldable pub push : ℕ × ℕ → List (ℕ × ℕ) → List (ℕ × ℕ)
push p [] = p ∷ []
push p (q ∷ heap) = let rest = push p heap in if before p q then p ∷ q ∷ heap else q ∷ rest

-- `self._expires_at.get(agent_id) == expires_at`
abbrev pub is_current : Option ℕ → ℕ → Bool
is_current none t = false
is_current (some s) t = s == t

unfoldable pub drop_expired : DedupStore → ℕ × ℕ → DedupStore
drop_expired store (expires_at, agent_id) =
    if is_current (lookup agent_id store.expires_at) expires_at
    then record store {
      windows = erase agent_id store.windows;
      expires_at = erase agent_id store.expires_at;
    }
    else store

-- The loop of `_sweep`, on the heap that is left.
unfoldable pub sweep_heap : DedupStore → ℕ → List (ℕ × ℕ) → DedupStore
sweep_heap store now [] = record store { expiry_heap = [] }
sweep_heap store now (entry ∷ heap) =
    let rest = sweep_heap (drop_expired store entry) now heap in
    if leb entry.0 now then rest else record store { expiry_heap = entry ∷ heap }

unfoldable pub sweep : DedupStore → ℕ → DedupStore
sweep store now = sweep_heap store now store.expiry_heap

-- `move_to_end`
abbrev pub touch : ℕ → SequenceWindow → List (ℕ × SequenceWindow) → List (ℕ × SequenceWindow)
touch agent_id window windows = erase agent_id windows ++ (agent_id, window) ∷ []

-- The window and the expiry of the agent that was touched least recently go.
unfoldable pub evict_if_full : DedupStore → DedupStore
evict_if_full store = elim store.windows [
  | [] ↦ store
  | oldest ∷ windows ↦
      if ltb (length store.windows) store.max_agents
      then store
      else record store { windows = windows; expires_at = erase oldest.0 store.expires_at }
]

unfoldable pub has_seen : DedupStore → ℕ → ℕ → ℕ → DedupStore × Bool
has_seen store agent_id sequence now =
    let store' = sweep store now in
    elim (lookup agent_id store'.windows) [
      | none ↦ (store', false)
      | some window ↦ (
        record store' { windows = touch agent_id window store'.windows },
        contains window sequence,
      )
    ]

-- The agent's expiry is only ever extended.
unfoldable pub extend : DedupStore → ℕ → ℕ → DedupStore
extend store agent_id expires_at =
    let store' = record store {
      expires_at = put agent_id expires_at store.expires_at;
      expiry_heap = push (expires_at, agent_id) store.expiry_heap;
    } in
    elim (lookup agent_id store.expires_at) [
      | none ↦ store'
      | some current ↦ if ltb current expires_at then store' else store
    ]

-- The window of the agent, as new or as it was, at the end of the order, with one more sequence.
unfoldable pub write_window : DedupStore → ℕ → ℕ → DedupStore
write_window store agent_id sequence = elim (lookup agent_id store.windows) [
  | none ↦
      let store' = evict_if_full store in
      record store' {
        windows = put agent_id (add (empty default_max_out_of_order) sequence) store'.windows;
      }
  | some window ↦ record store { windows = touch agent_id (add window sequence) store.windows }
]

unfoldable pub mark_seen : DedupStore → ℕ → ℕ → ℕ → ℕ → DedupStore
mark_seen store agent_id sequence ttl_seconds now =
    extend (write_window (sweep store now) agent_id sequence) agent_id (now + ttl_seconds)

unfoldable pub claim : DedupStore → ℕ → ℕ → ℕ → ℕ → DedupStore × Bool
claim store agent_id sequence ttl_seconds now =
    let (store', seen) = has_seen store agent_id sequence now in
    if seen then (store', false) else (mark_seen store' agent_id sequence ttl_seconds now, true)
