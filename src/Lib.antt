-- ===== src/Lib.antt =====
-- Hammertime: the detection of hot addresses and prefixes in the traffic that agents report.
--
-- The program. Agents send observations, counts of requests by source address, to the ingest service
-- (services/ingest), which authenticates them, limits their rate, drops what it has seen before and
-- puts the rest on a log. The log is partitioned by address. An aggregator (services/aggregator) owns
-- some of the partitions, its shards: it counts each address over a sliding window, runs one state
-- machine with two thresholds on the counts, writes each HOT or COLD edge to a durable store and
-- publishes it. The trie service (services/trie) applies the edges to an index by prefix, which counts
-- the HOT addresses below each prefix. The stores are in packages/hammertime-store, the log in
-- packages/hammertime-bus, and what all of them share in packages/hammertime-core.
--
-- The files, and what they model (paths of a package are below its src/hammertime/):
--   Base           shared helpers: Boolean tests (Tests), lists by native numbers (Lists), exceptions
--                  as values (Results), sets of numbers (Sets), integers (Int), division (Arith), the
--                  bits of `a | b` (BitOr), and dictionaries with a test for equality of keys (Dict,
--                  with the interface `Key`; Keys: their keys, each once).
--   Core           hammertime-core. Integers: the order and the remainder of Python's integers. Config:
--                  core/config/models.py, with its checks of any integers in
--                  Config/Construction. State: core/state/enums.py,
--                  machine.py and transitions.py; State/Hysteresis: histories of counts. Weight:
--                  core/state/weight.py. Time: core/time/buckets.py and clock.py. Address and Prefix:
--                  core/addressing/address.py and prefix.py; Address/Bits: bits and prefixes of bits;
--                  Address/Same and Prefix/Same: addresses and prefixes as keys. Events:
--                  core/events/models.py and envelope.py. Json: the values of json. Codec:
--                  core/events/codec.py, its fields; Codec/Payloads and Codec/Envelope: the rest of it;
--                  Codec/Roundtrip, Codec/Batches and Codec/Wire: what it reads of what it
--                  wrote.
--   Bus            hammertime-bus. Memory: bus/memory.py and, of bus/interface.py, the message;
--                  Memory/Dedup: message ids; Memory/Delivery: what a consumer is handed; Memory/Ack:
--                  acknowledgements. Topics: bus/topics.py, the partition of a key, with Bounds;
--                  Topics/Subjects and Topics/Canonical: the subjects.
--   Store          hammertime-store. Dedup: store/dedup.py, `SequenceWindow`; Dedup/Seen and
--                  Dedup/History: what it reports. Agents: `MemoryDedupStore` of store/memory.py;
--                  Agents/Retention: how long a sequence is kept; Agents/Remembers and
--                  Agents/Claims: how long a claim lasts, whatever is called in between. Shards: `MemoryShardStateStore` of
--                  store/memory.py and `ShardState` of store/interface.py; Shards/Transitions and
--                  Shards/Leases: its two contracts.
--   Ingest         services/ingest. Dedup: ingest/dedup/service.py. RateLimit:
--                  ingest/ratelimit/__init__.py; RateLimit/Floating: what is relied on of
--                  floats; RateLimit/Within and RateLimit/History: what the buckets hold.
--   Aggregator     services/aggregator. Counter: aggregator/window/counter.py, with Invariant, Window,
--                  History and Expiry. Lateness: aggregator/lateness.py. Window:
--                  aggregator/window/store.py, its data; Window/Changes: `observe`, `set_state` and
--                  the schedules; Window/Sweeps: construction, warm-up, the sweeps and `apply_config`;
--                  Window/Hot: what a sweep does to a HOT address; Window/Fuel: the end of
--                  the retention sweep. Transitions:
--                  aggregator/transitions.py and reevaluate.py; Transitions/Order: the order of
--                  their effects.
--   Trie           services/trie. Binary: trie/structure/binary_trie.py and node.py, the mutations;
--                  Binary/Queries: its queries; Counts, Shape, Removal, Refine and Run: its
--                  refinement of the set of HOT addresses (HotSet). Arena: trie/structure/arena.py.
--                  State: trie/state.py; State/Position: histories of the worker's calls. Interface:
--                  the class HotTrie of trie/structure/node.py as a record of operations, with what an
--                  implementation is to keep to, and the binary trie as one. Combine:
--                  trie/metadata/combine.py; Combine/Values and Combine/Documents: its algebra. Local:
--                  trie/metadata/local.py; Local/Consistent and Local/Effective: the kinds on a path.
--                  Records: trie/metadata/ip_attributes.py; Records/Bytes: the byte total;
--                  Records/Coupled and Records/Run: the records beside the trie. Publisher:
--                  trie/publisher.py. Worker: trie/worker.py, the handling of one message;
--                  Worker/Lifecycle: its start and its loop; Worker/Position and Worker/Replay: the
--                  position, and what a start replays; Worker/Pairs, Worker/Steps and
--                  Worker/History: the pairs of a trie and its records, after any messages. The
--                  worker takes a trie by Interface, a log message by Bus/Memory, the read state by
--                  State and the pair of a family by Records.
--
-- How the code is modelled. A class is a record of its fields and a method a function on it; a
-- private loop is a function of its own. Epoch seconds, counts, sequences and configured integers
-- are natural numbers, and a value that the code lets be negative and tests for it (a delta, an
-- offset, a recorded sequence, the id of a node, an argument of a configuration's construction) is
-- an integer. A subtraction stands behind the test or the invariant that keeps it from going below
-- 0. An exception is a value of `Result`; where a method changes state before it raises, its result
-- has both. Identifiers that are only compared (agents, keys, owners) are natural numbers, and in
-- the bus, the events and the metadata strings. A worker's lock makes each call of it one step. A
-- clock is the argument `now`. An `async` method of the in-memory stores awaits nothing, so that it
-- is one step. Nodes that are reached only through their trie are a tree. A heap is a list in order.
-- A ratio is an exact fraction. The floats of a rate limit are a parameter, with what they round.
--
-- Bounds and fuel. `fold_run` has one unit of fuel for each sequence ahead of the gap, and takes one
-- out in each round. The sweeps of a `ShardWindow` have twice the length of their heap, since an
-- item is brought up to date at most once before it leaves. The expiry sweep has the length of its
-- heap, since what it schedules again lies after `now`. The loop of a worker is over the list of
-- what arrives.
--
-- What is not modelled: the text of addresses, of times and of JSON, the validation of attribute
-- documents, HTTP, settings, logging and metrics; the Redis and NATS clients; the service processes;
-- the Patricia trie and the aggregator's worker. `TransitionEmitter.evaluate` takes the codec, the
-- durable store and the producer as parameters, each of which may raise; so do the trie's publisher
-- and worker take the codec, the validator of attribute documents, the texts of addresses and
-- prefixes, and which publishes raise.
pub mod Base
pub mod Core
pub mod Bus
pub mod Store
pub mod Ingest
pub mod Aggregator
pub mod Trie
