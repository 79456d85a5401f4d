-- ===== src/Trie/Publisher.antt =====
-- trie/publisher.py: the prefix statistics of one event. The codec's `encode` and the text of a prefix
-- are parameters, and so is which publishes raise; a `BaseException` that is no `Exception`, a
-- cancellation and the metrics are left out. The error of a failed publish keeps its three numbers.
use Prim.Native.String.{String}
use hammertime.Base.{
  ℕ, suc, Bool, ◌||◌, Option, none, some, List, [], ◌∷◌, Result, ok, err, value_error, raise_if,
  ◌>>=◌, ◌>>◌, ltb, ◌==◌, if◌then◌else◌, length,
}
use hammertime.Base.Int.{ℤ, pos, is_negative, pos_part}
use hammertime.Core.Address.{AddressFamily, ipv4, ipv6, Address, bit_length}
use hammertime.Core.Prefix.{Prefix}
use hammertime.Core.Events.{
  Timestamp, prefix_stats_changed, EventEnvelope, schema_version_1, event_id,
}
use hammertime.Trie.Combine
use hammertime.Trie.Combine.{PrefixStats, ancestor_stats}
use hammertime.Trie.Interface.{HotTrie}

pub record StatsMessage : Type 0 where
  pub key : String
  pub value : String
  pub message_id : String

pub record PreparedStats : Type 0 where
  pub family : AddressFamily
  pub sequence : ℕ
  pub messages : List StatsMessage

pub record PublishError : Type 0 where
  pub sequence : ℕ
  pub attempted : ℕ
  pub failed : ℕ

-- The shortest prefix that is reported, by family
pub record MinPrefixLengths : Type 0 where
  pub of_ipv4 : ℕ
  pub of_ipv6 : ℕ

abbrev pub agent_id : String
agent_id = "trie-primary"

abbrev pub default_min_prefix_lengths : AddressFamily → Option ℤ
default_min_prefix_lengths ipv4 = some (pos 8)
default_min_prefix_lengths ipv6 = some (pos 104)

unfoldable pub check_min_length : AddressFamily → Option ℤ → Result ℕ
check_min_length family none = err value_error
check_min_length family (some length) = do
  raise_if (is_negative length || ltb (bit_length family) (pos_part length)) value_error
  ok (pos_part length)

-- The loop of `__init__` over the families
unfoldable pub publisher : (AddressFamily → Option ℤ) → Result MinPrefixLengths
publisher min_prefix_lengths = do
  of_ipv4 ← check_min_length ipv4 (min_prefix_lengths ipv4)
  of_ipv6 ← check_min_length ipv6 (min_prefix_lengths ipv6)
  ok (record { of_ipv4 = of_ipv4; of_ipv6 = of_ipv6 })

unfoldable pub min_prefix_length : MinPrefixLengths → AddressFamily → ℕ
min_prefix_length lengths ipv4 = lengths.of_ipv4
min_prefix_length lengths ipv6 = lengths.of_ipv6

-- The publishes that raised, of those that were started
abbrev pub failures : (StatsMessage → Bool) → List StatsMessage → ℕ
failures raises [] = 0
failures raises (message ∷ messages) =
    let rest = failures raises messages in if raises message then suc rest else rest

abbrev pub published : (StatsMessage → Bool) → List StatsMessage → ℕ
published raises [] = 0
published raises (message ∷ messages) =
    let rest = published raises messages in if raises message then rest else suc rest

-- How many publishes returned, and the error of the others, if there are any
unfoldable pub publish : (StatsMessage → Bool) → PreparedStats → ℕ × Option PublishError
publish raises prepared =
    let failed = failures raises prepared.messages in
    (
      published raises prepared.messages,
      if failed == 0
          then none
          else some (record {
            sequence = prepared.sequence;
            attempted = length prepared.messages;
            failed = failed;
          }),
    )

module _ {Attributes : Type 0} (digest : String → String) (decimal : ℤ → String)
    (encode : EventEnvelope Attributes → Result String) (prefix_text : Prefix → String) where
  abbrev pub envelope_of : PrefixStats → ℕ → ℤ → Timestamp → EventEnvelope Attributes
  envelope_of stats sequence config_version timestamp = record {
    agent_id = agent_id;
    sequence = pos sequence;
    event_type = "PrefixStatsChanged";
    config_version = config_version;
    timestamp = timestamp;
    payload = prefix_stats_changed (record {
      prefix = prefix_text stats.prefix;
      hot_count = pos stats.hot_count;
      capacity = pos (Combine.capacity stats);
      sequence = pos sequence;
      timestamp = timestamp;
      hot_ratio = some (Combine.hot_ratio_exact stats);
    });
    schema_version = schema_version_1;
    subject = some (prefix_text stats.prefix);
  }

  -- The loop of `prepare`
  unfoldable pub messages_of : List PrefixStats → ℕ → ℤ → Timestamp → Result (List StatsMessage)
  messages_of [] sequence config_version timestamp = ok []
  messages_of (stats ∷ more) sequence config_version timestamp = do
    let envelope = envelope_of stats sequence config_version timestamp
    value ← encode envelope
    rest ← messages_of more sequence config_version timestamp
    ok (
        record {
          key = prefix_text stats.prefix;
          value = value;
          message_id = event_id digest decimal envelope;
        }
        ∷ rest)

  module _ {T : Type 0} (hot_trie : HotTrie T) where
    unfoldable pub prepare :
        MinPrefixLengths → T → Address → ℕ → ℤ → Timestamp → Result PreparedStats
    prepare lengths trie ip sequence config_version timestamp = do
      stats ← ancestor_stats hot_trie trie ip (min_prefix_length lengths (hot_trie.family trie))
      messages ← messages_of stats sequence config_version timestamp
      ok (record { family = hot_trie.family trie; sequence = sequence; messages = messages })
