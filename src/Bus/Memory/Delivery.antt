-- ===== src/Bus/Memory/Delivery.antt =====
-- bus/memory.py: what a durable consumer is handed.
use Prim.Native.String.{String}
use hammertime.Base.{
  ℕ, zero, suc, ◌≡◌, refl, ap, ◌∙◌, true, false, List, [], ◌∷◌, if◌then◌else◌, Bool-cases, inl, inr,
  mem, arith,
}
use hammertime.Bus.Memory.{
  Record, InMemoryBus, MemoryConsumer, log_of, acked_of, Poll, waiting, yielded, consume, drop,
  poll, message_at,
}

-- The offsets of a log, from one on, that a group has not acknowledged.
abbrev pub pending : List ℕ → ℕ → List Record → List ℕ
pending acked offset [] = []
pending acked offset (r ∷ rest) =
    let later = pending acked (suc offset) rest in
    if mem offset acked then later else offset ∷ later

abbrev pub take : ℕ → List ℕ → List ℕ
take zero xs = []
take (suc n) [] = []
take (suc n) (x ∷ xs) = x ∷ take n xs

-- A number of steps of the iterator while the bus stays as it is, and the offsets that they yield.
abbrev pub offsets_from : Poll → List ℕ → List ℕ
offsets_from (yielded message) offsets = message.offset ∷ offsets
offsets_from _ offsets = offsets

abbrev pub poll_all : ℕ → InMemoryBus → MemoryConsumer → String → List ℕ
poll_all zero bus c topic = []
poll_all (suc n) bus c topic =
    let (c', step) = poll bus c topic in offsets_from step (poll_all n bus c' topic)

drop_tail :
    (offset : ℕ) (log rest : List Record) (r : Record)
    → drop offset log ≡ r ∷ rest
    → drop (suc offset) log ≡ rest
drop_tail zero [] rest r h = cc
drop_tail zero (x ∷ log) rest r h = cc
drop_tail (suc offset) [] rest r h = cc
drop_tail (suc offset) (x ∷ log) rest r h = drop_tail offset log rest r h

-- One step takes the first of the pending offsets, and leaves the others.
abbrev Takes : MemoryConsumer → List ℕ → List Record → List ℕ → MemoryConsumer × Poll → Type 0
Takes c acked log [] (c', step) =
    (step ≡ waiting)
    × (pending acked c'.position (drop c'.position log) ≡ [])
    × (c'.positional ≡ c.positional)
    × (c'.closed ≡ c.closed)
    × (c'.group_id ≡ c.group_id)
Takes c acked log (o ∷ os) (c', step) =
    ((r : Record) × (t : String) × (step ≡ yielded (message_at t o r)))
    × (pending acked c'.position (drop c'.position log) ≡ os)
    × (c'.positional ≡ c.positional)
    × (c'.closed ≡ c.closed)
    × (c'.group_id ≡ c.group_id)

consume_end :
    (c : MemoryConsumer) (acked : List ℕ) (topic : String) (offset : ℕ)
    → consume c acked topic offset [] ≡ (record c { position = offset }, waiting)
unfolding consume
consume_end c acked topic offset = refl

consume_skip :
    (c : MemoryConsumer) (acked : List ℕ) (topic : String) (offset : ℕ) (r : Record)
    (rest : List Record)
    → c.positional ≡ false
    → mem offset acked ≡ true
    → consume c acked topic offset (r ∷ rest) ≡ consume c acked topic (suc offset) rest
unfolding consume
consume_skip c acked topic offset r rest h m = ground arith

consume_take :
    (c : MemoryConsumer) (acked : List ℕ) (topic : String) (offset : ℕ) (r : Record)
    (rest : List Record)
    → c.positional ≡ false
    → mem offset acked ≡ false
    → consume c acked topic offset (r ∷ rest) ≡ (
      record c { position = suc offset; unacked = offset ∷ c.unacked },
      yielded (message_at topic offset r),
    )
unfolding consume
consume_take c acked topic offset r rest h m = ground arith

consume-Takes :
    (c : MemoryConsumer) (acked : List ℕ) (topic : String) (log : List Record) (offset : ℕ)
    (rest : List Record)
    → c.positional ≡ false
    → drop offset log ≡ rest
    → Takes c acked log (pending acked offset rest) (consume c acked topic offset rest)
consume-Takes c acked topic log offset [] h e =
    rw (consume_end c acked topic offset) (refl, ap (pending acked offset) e, refl, refl, refl)
consume-Takes c acked topic log offset (r ∷ rest) h e =
    let tail = drop_tail offset log rest r e in
    let next = consume-Takes c acked topic log (suc offset) rest h tail in
    elim (Bool-cases (mem offset acked)) [
      | inl m ↦ rw (m, consume_skip c acked topic offset r rest h m) next
      | inr m ↦
          rw (m, consume_take c acked topic offset r rest h m)
            ((r, topic, refl), ap (pending acked (suc offset)) tail, refl, refl, refl)
    ]

poll_open :
    (bus : InMemoryBus) (c : MemoryConsumer) (topic : String)
    → c.closed ≡ false
    → poll bus c topic
      ≡ consume c
          (acked_of bus topic c.group_id)
          topic
          c.position
          (drop c.position (log_of bus topic))
unfolding poll
poll_open bus c topic h = rw h refl

take_nil : (n : ℕ) → take n [] ≡ []
take_nil zero = refl
take_nil (suc n) = refl

-- What the steps that follow yield, from what one step took.
poll_all-suc :
    (n : ℕ) (bus : InMemoryBus) (c : MemoryConsumer) (topic : String) (os : List ℕ)
    (out : MemoryConsumer × Poll)
    → Takes c (acked_of bus topic c.group_id) (log_of bus topic) os out
    → c.closed ≡ false
    → c.positional ≡ false
    → ((c' : MemoryConsumer)
        → c'.closed ≡ false
        → c'.positional ≡ false
        → poll_all n bus c' topic
          ≡ take n (
              pending
                (acked_of bus topic c'.group_id)
                c'.position
                (drop c'.position (log_of bus topic))))
    → offsets_from out.1 (poll_all n bus out.0 topic) ≡ take (suc n) os
poll_all-suc n bus c topic [] (c', step) (w, p, ep, ec, eg) hc hp ih =
    let later = ih c' (ec ∙ hc) (ep ∙ hp) in
    let same =
      ap
        (λ g.
          take n (pending (acked_of bus topic g) c'.position (drop c'.position (log_of bus topic))))
        eg in
    rw w (later ∙ same ∙ ap (take n) p ∙ take_nil n)
poll_all-suc n bus c topic (o ∷ os) (c', step) ((r, t, w), p, ep, ec, eg) hc hp ih =
    let later = ih c' (ec ∙ hc) (ep ∙ hp) in
    let same =
      ap
        (λ g.
          take n (pending (acked_of bus topic g) c'.position (drop c'.position (log_of bus topic))))
        eg in
    rw w (ap (λ xs. o ∷ xs) (later ∙ same ∙ ap (take n) p))

-- A number of steps of the iterator of a durable consumer that is open, while the bus stays as it is,
-- yields that many of the offsets that its group has not acknowledged, from its position on, each once
-- and in the order of the log, and all of them when there are no more.
pub poll_all-pending :
    (n : ℕ) (bus : InMemoryBus) (c : MemoryConsumer) (topic : String)
    → c.closed ≡ false
    → c.positional ≡ false
    → poll_all n bus c topic
      ≡ take n
          (pending (acked_of bus topic c.group_id) c.position (drop c.position (log_of bus topic)))
poll_all-pending zero bus c topic hc hp = refl
poll_all-pending (suc n) bus c topic hc hp =
    let acked = acked_of bus topic c.group_id in
    let log = log_of bus topic in
    let rest = drop c.position log in
    rw (poll_open bus c topic hc) (
      poll_all-suc n bus c topic (pending acked c.position rest)
        (consume c acked topic c.position rest)
        (consume-Takes c acked topic log c.position rest hp refl) hc hp
        (λ c'. poll_all-pending n bus c' topic))
