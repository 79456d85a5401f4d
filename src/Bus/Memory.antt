-- ===== src/Bus/Memory.antt =====
-- bus/memory.py and, of bus/interface.py, `ConsumedMessage` and `static_partitions`. Topics, groups, keys,
-- message ids and values are strings. A dictionary with a default is one in which a missing key has
-- the empty value. The bus is shared, so that a method of a producer or a consumer takes it and returns
-- it. Waiting is a value of its own (`Poll`): what wakes a waiting consumer is a change of the bus or of
-- itself, and its iterator then takes the same step again.
pub mod Dedup
pub mod Delivery
pub mod Ack
use Prim.Native.String.{String}
use hammertime.Base.{
  ℕ, zero, suc, ◌+◌, Bool, true, false, not, ◌&&◌, ◌||◌, Option, none, some, List, [], ◌∷◌, ◌++◌,
  Result, ok, err, value_error, runtime_error, raise_if, ◌>>=◌, ◌>>◌, ltb, leb, ◌==◌, if◌then◌else◌,
  length, mem, without,
}
use hammertime.Base.Int.{ℤ, is_negative, pos_part}
use hammertime.Base.Dict.{Key, value_or, lookup, put, is_in, include, string_key, pair_key}

pub record Record : Type 0 where
  pub key : Option String
  pub value : String

pub record ConsumedMessage : Type 0 where
  pub topic : String
  pub partition : ℕ
  pub offset : ℕ
  pub key : Option String
  pub value : String
  pub delivery_count : ℕ

pub record InMemoryBus : Type 0 where
  pub logs : List (String × List Record)
  pub seen_ids : List (String × List String)
  pub acked : List ((String × String) × List ℕ)

-- `InMemoryBus()`
abbrev pub empty : InMemoryBus
empty = record { logs = []; seen_ids = []; acked = [] }

abbrev pub log_of : InMemoryBus → String → List Record
log_of bus topic = value_or [] (lookup topic bus.logs)

abbrev pub acked_of : InMemoryBus → String → String → List ℕ
acked_of bus topic group = value_or [] (lookup (topic, group) bus.acked)

unfoldable pub end_offset : InMemoryBus → String → ℕ
end_offset bus topic = length (log_of bus topic)

unfoldable pub first_offset : InMemoryBus → String → ℕ
first_offset bus topic = 0

abbrev pub last_of : List Record → Option Record
last_of [] = none
last_of (r ∷ []) = some r
last_of (r ∷ s ∷ log) = last_of (s ∷ log)

unfoldable pub last_value : InMemoryBus → String → Option String
last_value bus topic = elim (last_of (log_of bus topic)) [ none ↦ none | some r ↦ some r.value ]

unfoldable pub write : InMemoryBus → String → Option String → String → InMemoryBus
write bus topic key value = record bus {
  logs = put topic (log_of bus topic ++ record { key = key; value = value } ∷ []) bus.logs;
}

abbrev pub seen_of : InMemoryBus → String → List String
seen_of bus topic = value_or [] (lookup topic bus.seen_ids)

-- A message id that the topic has seen is acknowledged and not appended.
unfoldable pub append : InMemoryBus → String → Option String → String → Option String → InMemoryBus
append bus topic key value none = write bus topic key value
append bus topic key value (some message_id) =
    if is_in message_id (seen_of bus topic)
    then bus
    else write
        (record bus { seen_ids = put topic (include message_id (seen_of bus topic)) bus.seen_ids })
        topic key value

-- A key given as text is encoded, which a string here already is.
unfoldable pub publish : InMemoryBus → String → String → String → Option String → InMemoryBus
publish bus topic key value message_id = append bus topic (some key) value message_id

unfoldable pub is_acked : InMemoryBus → String → String → ℕ → Bool
is_acked bus topic group offset = mem offset (acked_of bus topic group)

abbrev pub union : List ℕ → List ℕ → List ℕ
union [] ns = ns
union (m ∷ ms) ns = let rest = union ms ns in if mem m rest then rest else m ∷ rest

unfoldable pub mark_acked : InMemoryBus → String → String → List ℕ → InMemoryBus
mark_acked bus topic group offsets = record bus {
  acked = put (topic, group) (union offsets (acked_of bus topic group)) bus.acked;
}

pub record MemoryConsumer : Type 0 where
  pub group_id : String
  pub subscribed : Bool
  pub closed : Bool
  pub topic : Option String
  pub positional : Bool
  pub position : ℕ
  pub unacked : List ℕ

unfoldable pub consumer : String → MemoryConsumer
consumer group_id = record {
  group_id = group_id;
  subscribed = false;
  closed = false;
  topic = none;
  positional = false;
  position = 0;
  unacked = [];
}

unfoldable pub static_partitions : List ℕ → Result (List ℕ)
static_partitions [] = err value_error
static_partitions (p ∷ partitions) = ok (p ∷ partitions)

-- `requested == {0}`, of a set that is not empty
abbrev pub all_zero : List ℕ → Bool
all_zero [] = true
all_zero (p ∷ partitions) = p == 0 && all_zero partitions

unfoldable pub assignment : String → Option (List ℕ) → Result (List (String × ℕ))
unfolding static_partitions
assignment topic none = ok ((topic, 0) ∷ [])
assignment topic (some partitions) = do
  requested ← static_partitions partitions
  raise_if (not (all_zero requested)) value_error
  ok ((topic, 0) ∷ [])

abbrev pub is_negative_offset : Option ℤ → Bool
is_negative_offset none = false
is_negative_offset (some offset) = is_negative offset

abbrev pub is_given : Option ℤ → Bool
is_given none = false
is_given (some offset) = true

abbrev pub start_position : Option ℤ → ℕ
start_position none = 0
start_position (some offset) = pos_part offset

-- The listener's answer to the assignment is an argument; no listener is one that returns.
unfoldable pub subscribe :
    MemoryConsumer
    → String
    → Option (List ℕ)
    → (List (String × ℕ) → Result (Unit {0}))
    → Option ℤ
    → Result MemoryConsumer
subscribe c topic partitions on_assigned start_offset = do
  raise_if c.closed runtime_error
  raise_if c.subscribed runtime_error
  pairs ← assignment topic partitions
  raise_if (is_negative_offset start_offset) value_error
  on_assigned pairs
  ok (record c {
    subscribed = true;
    topic = some topic;
    positional = is_given start_offset;
    position = start_position start_offset;
  })

-- What a step of the iterator gives: it has ended, it waits, or it yields a message.
pub data Poll : Type 0 where
  ended : Poll
  waiting : Poll
  yielded : (message : ConsumedMessage) → Poll

abbrev pub message_at : String → ℕ → Record → ConsumedMessage
message_at topic offset r = record {
  topic = topic;
  partition = 0;
  offset = offset;
  key = r.key;
  value = r.value;
  delivery_count = 1;
}

abbrev pub deliver : MemoryConsumer → String → ℕ → Record → MemoryConsumer × Poll
deliver c topic offset r = (
  if c.positional
      then record c { position = suc offset }
      else record c { position = suc offset; unacked = offset ∷ c.unacked },
  yielded (message_at topic offset r),
)

-- The loop of `_consume` over the rest of the log, which starts at `offset`.
unfoldable pub consume : MemoryConsumer → List ℕ → String → ℕ → List Record → MemoryConsumer × Poll
consume c acked topic offset [] = (record c { position = offset }, waiting)
consume c acked topic offset (r ∷ rest) =
    let skipped = consume c acked topic (suc offset) rest in
    if not c.positional && mem offset acked then skipped else deliver c topic offset r

abbrev pub drop {ℓ} : {A : Type ℓ} → ℕ → List A → List A
drop zero xs = xs
drop (suc n) [] = []
drop (suc n) (x ∷ xs) = drop n xs

-- A position beyond the log waits there for the log to reach it.
unfoldable pub poll : InMemoryBus → MemoryConsumer → String → MemoryConsumer × Poll
poll bus c topic =
    if c.closed
    then (c, ended)
    else consume c (acked_of bus topic c.group_id) topic c.position
        (drop c.position (log_of bus topic))

-- `message.topic != self._topic`
abbrev pub is_topic : Option String → String → Bool
is_topic none topic = false
is_topic (some t) topic = string_key.same t topic

abbrev pub is_outstanding : MemoryConsumer → ConsumedMessage → Bool
is_outstanding c message =
    is_topic c.topic message.topic && message.partition == 0 && mem message.offset c.unacked

abbrev pub offsets_of : List ConsumedMessage → List ℕ
offsets_of [] = []
offsets_of (message ∷ messages) = message.offset ∷ offsets_of messages

abbrev pub all_outstanding : MemoryConsumer → List ConsumedMessage → Bool
all_outstanding c [] = true
all_outstanding c (message ∷ messages) = is_outstanding c message && all_outstanding c messages

abbrev pub without_all : List ℕ → List ℕ → List ℕ
without_all [] ns = ns
without_all (m ∷ ms) ns = without m (without_all ms ns)

-- An empty batch does nothing; one that was checked has a topic.
unfoldable pub ack_checked :
    InMemoryBus → MemoryConsumer → List ConsumedMessage → InMemoryBus × MemoryConsumer
ack_checked bus c [] = (bus, c)
ack_checked bus c (message ∷ rest) =
    let offsets = message.offset ∷ offsets_of rest in
    (
      mark_acked bus (value_or message.topic c.topic) c.group_id offsets,
      record c { unacked = without_all offsets c.unacked },
    )

unfoldable pub ack :
    InMemoryBus → MemoryConsumer → List ConsumedMessage → Result (InMemoryBus × MemoryConsumer)
ack bus c messages = do
  raise_if c.closed value_error
  raise_if c.positional value_error
  raise_if (not (all_outstanding c messages)) value_error
  ok (ack_checked bus c messages)

unfoldable pub close : MemoryConsumer → MemoryConsumer
close c = if c.closed then c else record c { closed = true; unacked = [] }
