-- ===== src/Store/Agents/Claims.antt =====
-- store/memory.py, `MemoryDedupStore`: a sequence that was claimed stays claimed, whatever is called
-- in between.
use hammertime.Base.{
  ℕ, suc, ◌+◌, ◌≤◌, ◌<◌, ◌≡◌, ap, ◌∙◌, Bool, true, false, not, ◌&&◌, Option, none, some, List, [],
  ◌∷◌, ltb, Bool-cases, inl, inr, length, arith,
}
use hammertime.Base.Dict.{lookup, nat_key}
use hammertime.Store.Dedup.{SequenceWindow, add, out_of_order_count}
use hammertime.Store.Agents.{DedupStore, sweep, has_seen, write_window, mark_seen, claim}
use hammertime.Store.Agents.Retention.{
  HasRoom, window_or, window_or-contains, mark-lookup, marked-expiry, has_seen-eq, claim-answer,
  claim-marks,
}
use hammertime.Store.Agents.Remembers.{
  Remembers, sweep-Remembers, has_seen-Remembers, write-Remembers, extend-Remembers,
}

-- A call of the store, for an agent.
pub data AgentCall : Type 0 where
  asked : (agent_id sequence now : ℕ) → AgentCall
  marked : (agent_id sequence ttl_seconds now : ℕ) → AgentCall
  claimed : (agent_id sequence ttl_seconds now : ℕ) → AgentCall

abbrev pub perform : DedupStore → AgentCall → DedupStore
perform store (asked agent_id sequence now) = (has_seen store agent_id sequence now).0
perform store (marked agent_id sequence ttl_seconds now) =
    mark_seen store agent_id sequence ttl_seconds now
perform store (claimed agent_id sequence ttl_seconds now) =
    (claim store agent_id sequence ttl_seconds now).0

abbrev pub perform_all : DedupStore → List AgentCall → DedupStore
perform_all store [] = store
perform_all store (call ∷ calls) = perform_all (perform store call) calls

abbrev pub time_of : AgentCall → ℕ
time_of (asked agent_id sequence now) = now
time_of (marked agent_id sequence ttl_seconds now) = now
time_of (claimed agent_id sequence ttl_seconds now) = now

abbrev pub all_before : ℕ → List AgentCall → Bool
all_before until [] = true
all_before until (call ∷ calls) = ltb (time_of call) until && all_before until calls

weaken-Remembers :
    (store : DedupStore) (a s until spare : ℕ)
    → Remembers store a s until (suc spare)
    → Remembers store a s until spare
weaken-Remembers store a s until spare r = record {
  window = r.window;
  found = r.found;
  seen = r.seen;
  room = omega (arith, r.room);
  expiry = r.expiry;
  listed = r.listed;
  lasting = r.lasting;
  agents = omega (arith, r.agents);
}

mark-Remembers :
    (store : DedupStore) (b t ttl now a s until spare : ℕ)
    → now < until
    → Remembers store a s until (suc spare)
    → Remembers (mark_seen store b t ttl now) a s until spare
unfolding mark_seen
mark-Remembers store b t ttl now a s until spare lt r =
    let swept = sweep-Remembers store now a s until (suc spare) lt r in
    extend-Remembers (write_window (sweep store now) b t) b (now + ttl) a s until spare
      (write-Remembers (sweep store now) b t a s until spare swept)

claim-Remembers :
    (store : DedupStore) (b t ttl now a s until spare : ℕ)
    → now < until
    → Remembers store a s until (suc spare)
    → Remembers (claim store b t ttl now).0 a s until spare
unfolding claim
claim-Remembers store b t ttl now a s until spare lt r =
    let asked_store = (has_seen store b t now).0 in
    let after = has_seen-Remembers store b t now a s until (suc spare) lt r in
    elim (Bool-cases (has_seen store b t now).1) [
      | inl e ↦ rw (claim, e) (weaken-Remembers asked_store a s until spare after)
      | inr e ↦ rw (claim, e) (mark-Remembers asked_store b t ttl now a s until spare lt after)
    ]

perform-Remembers :
    (store : DedupStore) (call : AgentCall) (a s until spare : ℕ)
    → time_of call < until
    → Remembers store a s until (suc spare)
    → Remembers (perform store call) a s until spare
perform-Remembers store (asked b t now) a s until spare lt r =
    has_seen-Remembers store b t now a s until spare lt (weaken-Remembers store a s until spare r)
perform-Remembers store (marked b t ttl now) a s until spare lt r =
    mark-Remembers store b t ttl now a s until spare lt r
perform-Remembers store (claimed b t ttl now) a s until spare lt r =
    claim-Remembers store b t ttl now a s until spare lt r

perform_all-Remembers :
    (store : DedupStore) (calls : List AgentCall) (a s until : ℕ)
    → all_before until calls ≡ true
    → Remembers store a s until (length calls)
    → Remembers (perform_all store calls) a s until 0
perform_all-Remembers store [] a s until h r = r
perform_all-Remembers store (call ∷ calls) a s until h r =
    perform_all-Remembers (perform store call) calls a s until (ground (arith, h))
      (perform-Remembers store call a s until (length calls) (ground (arith, h)) r)

-- The agent's window has room for a number of sequences ahead of a gap.
abbrev pub HasSpare : ℕ → Option SequenceWindow → Type 0
HasSpare n none = Unit
HasSpare n (some w) = out_of_order_count w + n ≤ w.max_out_of_order

HasSpare-at :
    (n : ℕ) (o : Option SequenceWindow) (w : SequenceWindow)
    → o ≡ some w
    → HasSpare n o
    → out_of_order_count w + n ≤ w.max_out_of_order
HasSpare-at n none w e h = ground (arith, e)
HasSpare-at n (some v) w e h = let same : v ≡ w = ground (arith, e) in rw (← same) h

mark_seen-Remembers :
    (store : DedupStore) (a s ttl now n : ℕ)
    → HasRoom (lookup a (sweep store now).windows)
    → length (mark_seen store a s ttl now).windows + n ≤ (mark_seen store a s ttl now).max_agents
    → HasSpare n (lookup a (mark_seen store a s ttl now).windows)
    → Remembers (mark_seen store a s ttl now) a s (now + ttl) n
mark_seen-Remembers store a s ttl now n room agents spare =
    let window = lookup a (sweep store now).windows in
    let found = mark-lookup store a s ttl now in
    let (expiry, listed, lasting) = marked-expiry store a s ttl now in
    record {
      window = add (window_or window) s;
      found = found;
      seen = window_or-contains window s room;
      room =
          HasSpare-at n (lookup a (mark_seen store a s ttl now).windows) (add (window_or window) s)
            found spare;
      expiry = expiry;
      listed = listed;
      lasting = lasting;
      agents = agents;
    }

answer-Remembers :
    (store : DedupStore) (a s ttl until later : ℕ)
    → later < until
    → Remembers store a s until 0
    → (claim store a s ttl later).1 ≡ false
answer-Remembers store a s ttl until later lt r =
    let swept = sweep-Remembers store later a s until 0 lt r in
    claim-answer store a s ttl later
    ∙ ap not (has_seen-eq store a s later swept.window swept.found ∙ swept.seen)

-- A claim that succeeded makes each later claim of the same sequence fail until `now + ttl`, whatever
-- calls come in between, for this agent and for others, in any order of their times before then, if
-- the store has room for as many more agents, and the agent's window for as many more sequences ahead of
-- its gap, as there are calls in between.
pub claim_once :
    (store : DedupStore) (a s ttl ttl' now later : ℕ) (calls : List AgentCall)
    → HasRoom (lookup a (sweep (has_seen store a s now).0 now).windows)
    → (claim store a s ttl now).1 ≡ true
    → length (claim store a s ttl now).0.windows + length calls
      ≤ (claim store a s ttl now).0.max_agents
    → HasSpare (length calls) (lookup a (claim store a s ttl now).0.windows)
    → all_before (now + ttl) calls ≡ true
    → later < now + ttl
    → (claim (perform_all (claim store a s ttl now).0 calls) a s ttl' later).1 ≡ false
claim_once store a s ttl ttl' now later calls room success agents spare before h =
    let asked_store = (has_seen store a s now).0 in
    let first = (claim store a s ttl now).0 in
    let same : first ≡ mark_seen asked_store a s ttl now = claim-marks store a s ttl now success in
    let remembers : Remembers first a s (now + ttl) (length calls) = rw same (
      mark_seen-Remembers asked_store a s ttl now (length calls) room (rw (← same) agents)
        (rw (← same) spare)) in
    answer-Remembers (perform_all first calls) a s ttl' (now + ttl) later h
      (perform_all-Remembers first calls a s (now + ttl) before remembers)
