-- ===== src/Store/Agents/Remembers.antt =====
-- store/memory.py, `MemoryDedupStore`: what each part of a call keeps of an agent's window.
use hammertime.Base.{
  ℕ, suc, ◌+◌, ◌≤◌, ◌<◌, ◌≡◌, ◌==◌, true, none, some, List, [], ◌∷◌, ltb, leb, if◌then◌else◌,
  ==_iff, Option-cases, Bool-cases, inl, inr, length, length-append, arith,
}
use hammertime.Base.Dict.{
  lookup, put, erase, nat_key, lookup-put, lookup-erase, length-erase, length-erase_found,
  length-put,
}
use hammertime.Store.Dedup.{
  SequenceWindow, empty, contains, add, default_max_out_of_order, out_of_order_count,
  fold_contiguous_run, bound_out_of_order_set,
}
use hammertime.Store.Dedup.Seen.{add-contains, fold_run-length, discard-length}
use hammertime.Store.Agents.{
  DedupStore, drop_expired, sweep_heap, sweep, touch, evict_if_full, has_seen, extend, write_window,
}

lookup-touch :
    (b a : ℕ) (w : SequenceWindow) (d : List (ℕ × SequenceWindow))
    → lookup a (touch b w d) ≡ (if b == a then some w else lookup a d)
lookup-touch b a w [] = ground arith
lookup-touch b a w ((c, v) ∷ d) =
    ground (arith, lookup-touch b a w d, ==_iff c b, ==_iff c a, ==_iff b a)

length-touch :
    (b : ℕ) (v w : SequenceWindow) (d : List (ℕ × SequenceWindow))
    → lookup b d ≡ some v
    → length (touch b w d) ≤ length d
length-touch b v w d h =
    omega (arith, length-append (erase b d) ((b, w) ∷ []), length-erase_found b v d h)

-- The store holds the sequence of the agent until a time, and has room for a number of agents and of
-- sequences ahead of the agent's gap.
pub record Remembers (store : DedupStore) (a s until spare : ℕ) : Type 0 where
  pub window : SequenceWindow
  pub found : lookup a store.windows ≡ some window
  pub seen : contains window s ≡ true
  pub room : out_of_order_count window + spare ≤ window.max_out_of_order
  pub expiry : ℕ
  pub listed : lookup a store.expires_at ≡ some expiry
  pub lasting : until ≤ expiry
  pub agents : length store.windows + spare ≤ store.max_agents

drop-Remembers :
    (store : DedupStore) (entry : ℕ × ℕ) (a s until spare : ℕ)
    → entry.0 < until
    → Remembers store a s until spare
    → Remembers (drop_expired store entry) a s until spare
unfolding drop_expired
drop-Remembers store (e, b) a s until spare lt r = record {
  window = r.window;
  found =
      ground (arith, lt, r.found, r.listed, r.lasting, lookup-erase b a store.windows, ==_iff b a);
  seen = r.seen;
  room = r.room;
  expiry = r.expiry;
  listed = ground (arith, lt, r.listed, r.lasting, lookup-erase b a store.expires_at, ==_iff b a);
  lasting = r.lasting;
  agents = ground (arith, r.agents, length-erase b store.windows);
}

sweep_heap-Remembers :
    (store : DedupStore) (now : ℕ) (heap : List (ℕ × ℕ)) (a s until spare : ℕ)
    → now < until
    → Remembers store a s until spare
    → Remembers (sweep_heap store now heap) a s until spare
unfolding sweep_heap
sweep_heap-Remembers store now [] a s until spare lt r = record {
  window = r.window;
  found = r.found;
  seen = r.seen;
  room = r.room;
  expiry = r.expiry;
  listed = r.listed;
  lasting = r.lasting;
  agents = r.agents;
}
sweep_heap-Remembers store now (entry ∷ heap) a s until spare lt r =
    elim (Bool-cases (leb entry.0 now)) [
      | inl e ↦ rw e (
          sweep_heap-Remembers (drop_expired store entry) now heap a s until spare lt
            (drop-Remembers store entry a s until spare (ground (arith, e)) r))
      | inr e ↦ rw e (record {
        window = r.window;
        found = r.found;
        seen = r.seen;
        room = r.room;
        expiry = r.expiry;
        listed = r.listed;
        lasting = r.lasting;
        agents = r.agents;
      })
    ]

pub sweep-Remembers :
    (store : DedupStore) (now a s until spare : ℕ)
    → now < until
    → Remembers store a s until spare
    → Remembers (sweep store now) a s until spare
unfolding sweep
sweep-Remembers store now a s until spare lt r =
    sweep_heap-Remembers store now store.expiry_heap a s until spare lt r

touched-Remembers :
    (store : DedupStore) (b a s until spare : ℕ) (v : SequenceWindow)
    → lookup b store.windows ≡ some v
    → Remembers store a s until spare
    → Remembers (record store { windows = touch b v store.windows }) a s until spare
touched-Remembers store b a s until spare v h r = record {
  window = r.window;
  found = ground (arith, h, r.found, lookup-touch b a v store.windows, ==_iff b a);
  seen = r.seen;
  room = r.room;
  expiry = r.expiry;
  listed = r.listed;
  lasting = r.lasting;
  agents = omega (arith, r.agents, length-touch b v v store.windows h);
}

pub has_seen-Remembers :
    (store : DedupStore) (b t now a s until spare : ℕ)
    → now < until
    → Remembers store a s until spare
    → Remembers (has_seen store b t now).0 a s until spare
unfolding has_seen
has_seen-Remembers store b t now a s until spare lt r =
    let swept = sweep-Remembers store now a s until spare lt r in
    elim (Option-cases (lookup b (sweep store now).windows)) [
      | inl e ↦ rw (has_seen, e) swept
      | inr (v, e) ↦
          rw (has_seen, e) (touched-Remembers (sweep store now) b a s until spare v e swept)
    ]

add-count :
    (w : SequenceWindow) (t : ℕ)
    → (out_of_order_count (add w t) ≤ suc (out_of_order_count w))
      × ((add w t).max_out_of_order ≡ w.max_out_of_order)
unfolding add out_of_order_count fold_contiguous_run bound_out_of_order_set
add-count w t = ground (
  arith,
  fold_run-length (length w.ahead) (suc t) w.ahead,
  fold_run-length (length w.ahead) (suc w.confirmed) w.ahead,
  discard-length (t ∷ w.ahead),
)

-- One more sequence, of whichever agent, takes one unit of the room.
added-Remembers :
    (store : DedupStore) (b t a s until spare : ℕ) (v : SequenceWindow)
    → lookup b store.windows ≡ some v
    → Remembers store a s until (suc spare)
    → Remembers (record store { windows = touch b (add v t) store.windows }) a s until spare
added-Remembers store b t a s until spare v h r = elim (Bool-cases (b == a)) [
  | inl e ↦
      let here : b ≡ a = (==_iff b a).0 e in
      let same : v ≡ r.window = ground (arith, h, r.found, here) in
      let room : out_of_order_count v + suc spare ≤ v.max_out_of_order = rw same r.room in
      let seen : contains v s ≡ true = rw same r.seen in
      record {
        window = add v t;
        found = ground (arith, e, lookup-touch b a (add v t) store.windows);
        seen = ground (arith, seen, add-contains v t s (omega (arith, room)));
        room = omega (arith, room, add-count v t);
        expiry = r.expiry;
        listed = r.listed;
        lasting = r.lasting;
        agents = omega (arith, r.agents, length-touch b v (add v t) store.windows h);
      }
  | inr e ↦ record {
    window = r.window;
    found = ground (arith, e, r.found, lookup-touch b a (add v t) store.windows);
    seen = r.seen;
    room = omega (arith, r.room);
    expiry = r.expiry;
    listed = r.listed;
    lasting = r.lasting;
    agents = omega (arith, r.agents, length-touch b v (add v t) store.windows h);
  }
]

evict_if_full_lem :
    (store : DedupStore) → length store.windows < store.max_agents → evict_if_full store ≡ store
unfolding evict_if_full
evict_if_full_lem store h = elim (Bool-cases (ltb (length store.windows) store.max_agents)) [
  | inl e ↦ ground (arith, e)
  | inr e ↦ ground (arith, e, h)
]

put-Remembers :
    (store : DedupStore) (b a s until spare : ℕ) (v : SequenceWindow)
    → lookup b store.windows ≡ none
    → Remembers store a s until (suc spare)
    → Remembers (record store { windows = put b v store.windows }) a s until spare
put-Remembers store b a s until spare v h r = record {
  window = r.window;
  found = ground (arith, h, r.found, lookup-put b a v store.windows, ==_iff b a);
  seen = r.seen;
  room = omega (arith, r.room);
  expiry = r.expiry;
  listed = r.listed;
  lasting = r.lasting;
  agents = omega (arith, r.agents, length-put b v store.windows);
}

pub write-Remembers :
    (store : DedupStore) (b t a s until spare : ℕ)
    → Remembers store a s until (suc spare)
    → Remembers (write_window store b t) a s until spare
unfolding write_window
write-Remembers store b t a s until spare r = elim (Option-cases (lookup b store.windows)) [
  | inr (v, e) ↦ rw (write_window, e) (added-Remembers store b t a s until spare v e r)
  | inl e ↦
      let first = add (empty default_max_out_of_order) t in
      let kept = evict_if_full_lem store (omega (arith, r.agents)) in
      rw (write_window, e, kept) (put-Remembers store b a s until spare first e r)
]

pub extend-Remembers :
    (store : DedupStore) (b until' a s until spare : ℕ)
    → Remembers store a s until spare
    → Remembers (extend store b until') a s until spare
unfolding extend
extend-Remembers store b until' a s until spare r =
    elim (Option-cases (lookup b store.expires_at)) [
      | inl e ↦
          rw (extend, e)
            (record {
              window = r.window;
              found = r.found;
              seen = r.seen;
              room = r.room;
              expiry = r.expiry;
              listed =
                  ground (arith, e, r.listed, lookup-put b a until' store.expires_at, ==_iff b a);
              lasting = r.lasting;
              agents = r.agents;
            })
      | inr (current, e) ↦ elim (Bool-cases (ltb current until')) [
        | inr f ↦ rw (extend, e, f) r
        | inl f ↦
            rw (extend, e, f)
              (record {
                window = r.window;
                found = r.found;
                seen = r.seen;
                room = r.room;
                expiry = if b == a then until' else r.expiry;
                listed = ground (arith, r.listed, lookup-put b a until' store.expires_at);
                lasting = ground (arith, e, f, r.listed, r.lasting, ==_iff b a);
                agents = r.agents;
              })
      ]
    ]
