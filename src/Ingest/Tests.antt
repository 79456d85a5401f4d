-- ===== src/Ingest/Tests.antt =====
-- Runs of the ingest service's parts at concrete inputs, and their theorems at some of them.
mod RateLimit
use hammertime.Base.{
  ◌/◌, some, ok, ltb, leb, length, ℕ, ◌+◌, ◌-◌, ◌*◌, ◌≤◌, ◌≡◌, refl, true, false, List, [], ◌∷◌,
  arith,
}
use hammertime.Base.Dict.{nat_key}
use hammertime.Core.Time.{is_within_lateness}
use hammertime.Store.Dedup.{
  add, contains, fold_contiguous_run, bound_out_of_order_set, out_of_order_count,
}
use hammertime.Store.Agents.{
  has_seen, claim, sweep, sweep_heap, mark_seen, write_window, extend, evict_if_full,
}
use hammertime.Store.Agents.Claims.{AgentCall, asked, claimed}
use hammertime.Ingest.Dedup.{DedupService, service_claim, after_calls, claim-retry}

abbrev service : DedupService
service = record {
  store = record { max_agents = 10; windows = []; expires_at = []; expiry_heap = [] };
  allowed_lateness_seconds = 30;
}

first_claim : (service_claim service 4 17 300 1000).1 ≡ true
unfolding service_claim claim has_seen sweep sweep_heap
first_claim = refl

in_time : is_within_lateness 995 1300 300 30 ≡ true
unfolding is_within_lateness
in_time = refl

-- Another agent's claim, a later sequence of the same agent, and a question, in between.
abbrev between : List AgentCall
between = claimed 5 1 300 1010 ∷ claimed 4 19 300 1100 ∷ asked 4 18 1299 ∷ []

claim-retry_example :
    (service_claim (after_calls (service_claim service 4 17 300 1000).0 between) 4 17 300 1300).1
    ≡ false
unfolding service_claim claim has_seen sweep sweep_heap mark_seen write_window extend evict_if_full
    add contains fold_contiguous_run bound_out_of_order_set out_of_order_count
claim-retry_example =
    claim-retry service 4 17 300 995 1000 1300 between tt first_claim (omega arith) (omega arith)
      refl (omega arith) in_time
