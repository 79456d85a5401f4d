-- ===== src/Bus/Memory/Dedup.antt =====
-- bus/memory.py: message ids, and what a publish does to the logs.
use Prim.Native.String.{String}
use mathlib.Core.List.{append-nil, append_assoc}
use hammertime.Base.{
  ◌≡◌, refl, sym, Bool, true, false, ◌&&◌, Option, none, some, List, [], ◌∷◌, ◌++◌, if◌then◌else◌,
  Bool-cases, inl, inr, arith,
}
use hammertime.Base.Dict.{is_in, include, string_key, lookup-put}
use hammertime.Bus.Memory.{Record, InMemoryBus, log_of, seen_of, write, append, publish}

-- What a message id adds: one record the first time, and nothing later.
abbrev pub is_new : InMemoryBus → String → Option String → Bool
is_new bus topic none = true
is_new bus topic (some id) = if is_in id (seen_of bus topic) then false else true

seen_after :
    (bus : InMemoryBus) (t u key value id : String)
    → seen_of (publish bus t key value (some id)) u
      ≡ (if string_key.same t u then include id (seen_of bus t) else seen_of bus u)
unfolding publish append write
seen_after bus t u key value id = elim (Bool-cases (is_in id (seen_of bus t))) [
  | inl e ↦ ground (arith, e, string_key.same_iff t u)
  | inr e ↦ ground (arith, e, lookup-put t u (include id (seen_of bus t)) bus.seen_ids)
]

pub publish-log :
    (bus : InMemoryBus) (t u key value : String) (id : Option String)
    → log_of (publish bus t key value id) u ≡ (
        if string_key.same t u && is_new bus t id
        then log_of bus t ++ record { key = some key; value = value } ∷ []
        else log_of bus u)
unfolding publish append write
publish-log bus t u key value none =
    ground (
      arith,
      lookup-put t u (log_of bus t ++ record { key = some key; value = value } ∷ []) bus.logs,
    )
publish-log bus t u key value (some id) = elim (Bool-cases (is_in id (seen_of bus t))) [
  | inl e ↦ ground (arith, e)
  | inr e ↦ ground (
    arith,
    e,
    lookup-put t u (log_of bus t ++ record { key = some key; value = value } ∷ []) bus.logs,
  )
]

publish_seen :
    (bus : InMemoryBus) (t key value id : String)
    → is_in id (seen_of bus t) ≡ true
    → publish bus t key value (some id) ≡ bus
unfolding publish append
publish_seen bus t key value id h = rw h refl

pub record Publication : Type 0 where
  pub topic : String
  pub key : String
  pub value : String
  pub message_id : Option String

abbrev pub publish_all : InMemoryBus → List Publication → InMemoryBus
publish_all bus [] = bus
publish_all bus (p ∷ ps) = publish_all (publish bus p.topic p.key p.value p.message_id) ps

-- What a publication without a message id, or with one, is to a topic that has seen these.
abbrev pub is_seen : Option String → List String → Bool
is_seen none seen = false
is_seen (some id) seen = is_in id seen

abbrev pub noted : Option String → List String → List String
noted none seen = seen
noted (some id) seen = include id seen

-- The records of a topic that a history of publications brings: every one without an id, and of those
-- with an id the first of each.
abbrev pub first_of_each : String → List String → List Publication → List Record
first_of_each u seen [] = []
first_of_each u seen (p ∷ ps) =
    if string_key.same p.topic u
    then (if is_seen p.message_id seen
        then first_of_each u seen ps
        else record { key = some p.key; value = p.value }
          ∷ first_of_each u (noted p.message_id seen) ps)
    else first_of_each u seen ps

publish-seen :
    (bus : InMemoryBus) (t u key value : String) (id : Option String)
    → seen_of (publish bus t key value id) u
      ≡ (if string_key.same t u then noted id (seen_of bus t) else seen_of bus u)
unfolding publish append write
publish-seen bus t u key value none = ground (arith, string_key.same_iff t u)
publish-seen bus t u key value (some id) = seen_after bus t u key value id

noted_seen :
    (id : Option String) (seen : List String) → is_seen id seen ≡ true → noted id seen ≡ seen
noted_seen none seen h = refl
noted_seen (some id) seen h = ground (arith, h)

is_new-is_seen :
    (bus : InMemoryBus) (t : String) (id : Option String)
    → is_new bus t id ≡ (if is_seen id (seen_of bus t) then false else true)
is_new-is_seen bus t none = refl
is_new-is_seen bus t (some id) = refl

-- The log of each topic grows by every publication that has no message id, and by the first publication
-- of each message id that the topic had not seen, in the order of publication, whatever else is
-- published and however often.
pub publish_all-log :
    (bus : InMemoryBus) (ps : List Publication) (u : String)
    → log_of (publish_all bus ps) u ≡ log_of bus u ++ first_of_each u (seen_of bus u) ps
publish_all-log bus [] u = sym (append-nil (log_of bus u))
publish_all-log bus (p ∷ ps) u =
    let next = publish bus p.topic p.key p.value p.message_id in
    let rest = publish_all-log next ps u in
    let logs = publish-log bus p.topic u p.key p.value p.message_id in
    let ids = publish-seen bus p.topic u p.key p.value p.message_id in
    let new = is_new-is_seen bus p.topic p.message_id in
    let sent : Record = record { key = some p.key; value = p.value } in
    elim (Bool-cases (string_key.same p.topic u)) [
      | inr e ↦ ground (arith, e, rest, logs, ids)
      | inl e ↦
          let here = (string_key.same_iff p.topic u).0 e in
          elim (Bool-cases (is_seen p.message_id (seen_of bus u))) [
            | inl f ↦
                ground (
                  arith,
                  e,
                  f,
                  here,
                  rest,
                  logs,
                  ids,
                  new,
                  noted_seen p.message_id (seen_of bus u) f,
                )
            | inr f ↦ ground (
              arith,
              e,
              f,
              here,
              rest,
              logs,
              ids,
              new,
              append_assoc (log_of bus u) (sent ∷ [])
                  (first_of_each u (noted p.message_id (seen_of bus u)) ps),
            )
          ]
    ]
