-- ===== src/Bus/Tests.antt =====
-- Runs of bus/memory.py at concrete inputs, and its theorems at some of them.
mod Topics
use hammertime.Base.{
  none, ℕ, ◌<◌, ◌⊎◌, err, value_error, ok, mem, ◌≡◌, refl, true, false, some, List, [], ◌∷◌,
}
use hammertime.Base.Int.{pos, pos_part}
use hammertime.Bus.Topics.{partition_for}
use hammertime.Bus.Topics.Bounds.{partition_for-range}
use hammertime.Bus.Memory.Ack.{ack_lem}
use hammertime.Bus.Memory.{
  ConsumedMessage, ack, ack_checked, is_acked, InMemoryBus, empty, MemoryConsumer, log_of,
}
use hammertime.Bus.Memory.Dedup.{Publication, publish_all, publish_all-log}
use hammertime.Bus.Memory.Delivery.{poll_all, poll_all-pending}

-- The second is a replay of the first, the third is of another topic, and the last two have no id.
abbrev sent : List Publication
sent =
    record { topic = "hot-ip"; key = "10.0.0.1"; value = "a"; message_id = some "agent:1" }
    ∷ record { topic = "hot-ip"; key = "10.0.0.1"; value = "a"; message_id = some "agent:1" }
    ∷ record { topic = "clusters"; key = "10.0.0.0/24"; value = "b"; message_id = some "agent:1" }
    ∷ record { topic = "hot-ip"; key = "10.0.0.2"; value = "c"; message_id = some "agent:2" }
    ∷ record { topic = "hot-ip"; key = "10.0.0.2"; value = "c"; message_id = none }
    ∷ record { topic = "hot-ip"; key = "10.0.0.2"; value = "c"; message_id = none }
    ∷ []

publish_all-log_example :
    log_of (publish_all empty sent) "hot-ip"
    ≡ record { key = some "10.0.0.1"; value = "a" }
      ∷ record { key = some "10.0.0.2"; value = "c" }
      ∷ record { key = some "10.0.0.2"; value = "c" }
      ∷ record { key = some "10.0.0.2"; value = "c" }
      ∷ []
publish_all-log_example = publish_all-log empty sent "hot-ip"

-- A log of two records, the first acknowledged by the group.
abbrev two_records : InMemoryBus
two_records = record {
  logs =
      (
        "hot-ip",
        record { key = some "10.0.0.1"; value = "a" }
            ∷ record { key = some "10.0.0.2"; value = "c" }
            ∷ [],
      )
      ∷ [];
  seen_ids = [];
  acked = (("hot-ip", "trie"), 0 ∷ []) ∷ [];
}

abbrev durable : MemoryConsumer
durable = record {
  group_id = "trie";
  subscribed = true;
  closed = false;
  topic = some "hot-ip";
  positional = false;
  position = 0;
  unacked = [];
}

poll_all-pending_example : poll_all 3 two_records durable "hot-ip" ≡ 1 ∷ []
poll_all-pending_example = poll_all-pending 3 two_records durable "hot-ip" refl refl

-- The second record was handed out.
abbrev holding : MemoryConsumer
holding = record durable { position = 2; unacked = 1 ∷ [] }

abbrev handed_out : List ConsumedMessage
handed_out =
    record {
      topic = "hot-ip";
      partition = 0;
      offset = 1;
      key = some "10.0.0.2";
      value = "c";
      delivery_count = 1;
    }
    ∷ []

ack_lem_example :
    (ack two_records holding handed_out ≡ ok (ack_checked two_records holding handed_out))
    × (is_acked (ack_checked two_records holding handed_out).0 "hot-ip" "trie" 1 ≡ true)
    × (mem 1 (ack_checked two_records holding handed_out).1.unacked ≡ false)
unfolding is_acked
ack_lem_example = ack_lem two_records holding "hot-ip" handed_out 1 refl
