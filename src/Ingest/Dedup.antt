-- ===== src/Ingest/Dedup.antt =====
-- ingest/dedup/service.py: the retention of a sequence follows from the configuration. The store is
-- the in-memory one.
use hammertime.Base.{List, length, ◌≤◌, ℕ, ◌+◌, ◌<◌, ◌≡◌, Bool, true, false, arith}
use hammertime.Base.Dict.{lookup, nat_key}
use hammertime.Core.Time.{is_within_lateness}
use hammertime.Store.Agents.{DedupStore, has_seen, mark_seen, claim, sweep}
use hammertime.Store.Agents.Retention.{HasRoom}
use hammertime.Store.Agents.Claims.{AgentCall, perform_all, all_before, HasSpare, claim_once}

pub record DedupService : Type 0 where
  pub store : DedupStore
  pub allowed_lateness_seconds : ℕ

unfoldable pub is_duplicate : DedupService → ℕ → ℕ → ℕ → DedupService × Bool
is_duplicate service agent_id sequence now =
    let (store', seen) = has_seen service.store agent_id sequence now in
    (record service { store = store' }, seen)

unfoldable pub service_mark_seen : DedupService → ℕ → ℕ → ℕ → ℕ → DedupService
service_mark_seen service agent_id sequence window_seconds now = record service {
  store =
      mark_seen service.store agent_id sequence (service.allowed_lateness_seconds + window_seconds)
        now;
}

unfoldable pub service_claim : DedupService → ℕ → ℕ → ℕ → ℕ → DedupService × Bool
service_claim service agent_id sequence window_seconds now =
    let (store', claimed) =
      claim service.store agent_id sequence (service.allowed_lateness_seconds + window_seconds)
        now in
    (record service { store = store' }, claimed)

-- The service after other calls on its store.
abbrev pub after_calls : DedupService → List AgentCall → DedupService
after_calls service calls = record service { store = perform_all service.store calls }

-- An observation that is claimed once is not claimed again while the window would still accept it: a
-- retry that could be applied is a duplicate, whatever calls come in between, for any agents and
-- before the retention ends, if the message was not ahead of the clock and the store has room for as
-- many more agents, and the agent's window for as many more sequences ahead of its gap, as there are
-- calls in between.
pub claim-retry :
    (service : DedupService) (agent_id sequence window_seconds event now later : ℕ)
    (calls : List AgentCall)
    → HasRoom (lookup agent_id (sweep (has_seen service.store agent_id sequence now).0 now).windows)
    → (service_claim service agent_id sequence window_seconds now).1 ≡ true
    → length (service_claim service agent_id sequence window_seconds now).0.store.windows
        + length calls
      ≤ (service_claim service agent_id sequence window_seconds now).0.store.max_agents
    → HasSpare (length calls) (
        lookup agent_id
          (service_claim service agent_id sequence window_seconds now).0.store.windows)
    → all_before (now + (service.allowed_lateness_seconds + window_seconds)) calls ≡ true
    → event < now
    → is_within_lateness event later window_seconds service.allowed_lateness_seconds ≡ true
    → (service_claim
        (after_calls (service_claim service agent_id sequence window_seconds now).0 calls)
        agent_id
        sequence
        window_seconds
        later).1
      ≡ false
unfolding service_claim is_within_lateness
claim-retry service agent_id sequence window_seconds event now later calls room success agents spare
      before h within =
    claim_once service.store agent_id sequence (service.allowed_lateness_seconds + window_seconds)
      (service.allowed_lateness_seconds + window_seconds) now later calls room success agents spare
      before (ground arith)
