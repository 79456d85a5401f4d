-- ===== src/Aggregator/Transitions/Order.antt =====
-- The order of persisting and publishing, and the sequence numbers, whatever the codec, the store
-- and the producer answer.
use hammertime.Base.{
  ℕ, suc, ◌+◌, ◌≤◌, ◌≡◌, refl, ap, Bool, true, false, ◌&&◌, Option, none, some, List, [], ◌∷◌, ◌++◌,
  Result, ok, err, Bool-cases, Result-cases, ◌⊎◌, inl, inr, Ascends, Ascends-weaken, arith,
}
use mathlib.Core.Path.{subst}
use hammertime.Core.Address.{Address}
use hammertime.Core.Config.{DetectionConfig}
use hammertime.Core.State.{IpState, cold, is, evaluate_ip_state}
use hammertime.Aggregator.Window.{ShardWindow}
use hammertime.Aggregator.Window.Changes.{set_state, schedule_last_seen}
use hammertime.Aggregator.Window.Sweeps.{state, total, in_warmup, is_inherited}
use hammertime.Aggregator.Transitions.{
  Event, Effect, persisted, published, counted, EmittedTransition, Outcome, attributes_of, event_of,
  consume, commit, announce, emit, evaluate, walk_on, reevaluate_ips,
}

abbrev pub is_edge : Result (Option EmittedTransition) → Bool
is_edge (ok (some edge)) = true
is_edge _ = false

-- What one call may leave: nothing, an event that is persisted, or one that is persisted and then
-- published; it is counted exactly if the call returns the edge. The event has the sequence given.
pub data Staged (n : ℕ) : List Effect → Bool → Type 0 where
  nothing : Staged n [] false
  stored : (e : Event) → e.sequence ≡ n → Staged n (persisted e ∷ []) false
  told : (e : Event) → e.sequence ≡ n → Staged n (persisted e ∷ published e ∷ []) false
  complete :
      (e : Event) → e.sequence ≡ n → Staged n (persisted e ∷ published e ∷ counted e ∷ []) true

-- A sequence number that an effect carries has been consumed.
abbrev pub used : List Effect → ℕ
used [] = 0
used (effect ∷ effects) = 1

-- The stages; the counter has moved past what was used; without an edge no entry has changed.
abbrev pub Sound : ℕ → ShardWindow → Outcome → Type 0
Sound n w o =
    Staged n o.effects (is_edge o.result)
    × (n + used o.effects ≤ o.window.next_sequence)
    × ((is_edge o.result ≡ true) ⊎ (o.window.entries ≡ w.entries))

set_state-sequence :
    (w : ShardWindow) (ip : Address) (s : IpState) (w' : ShardWindow)
    → set_state w ip s ≡ ok w'
    → w'.next_sequence ≡ w.next_sequence
unfolding set_state schedule_last_seen
set_state-sequence w ip s w' h = ground (arith, h)

module _ {Bytes : Type 0} (encode : Event → Result Bytes)
    (record_transition : ℕ → Address → IpState → ℕ → Result (Unit {0}))
    (publish : Event → Bytes → Result (Unit {0})) where
  commit-Sound :
      (w : ShardWindow) (event : Event) (previous : IpState)
      → suc event.sequence ≤ w.next_sequence
      → Sound event.sequence w (commit encode record_transition publish w event previous)
  unfolding commit
  commit-Sound w event previous h = elim (Result-cases (set_state w event.ip event.current)) [
    | inl (w', e) ↦
        rw (e, commit)
          (
            complete event refl,
            omega (arith, set_state-sequence w event.ip event.current w' e),
            inl refl,
          )
    | inr (raised, e) ↦ rw (e, commit) (told event refl, omega arith, inr refl)
  ]

  announce-Sound :
      (w : ShardWindow) (event : Event) (previous : IpState)
      → suc event.sequence ≤ w.next_sequence
      → Sound event.sequence w (announce encode record_transition publish w event previous)
  unfolding announce
  announce-Sound w event previous h = elim (Result-cases (encode event)) [
    | inr (raised, e) ↦ rw (e, announce) (nothing, omega arith, inr refl)
    | inl (value, e) ↦
        rw (e, announce)
          (elim (Result-cases
            (record_transition event.shard event.ip event.current event.sequence)) [
              | inr (raised, f) ↦ rw f (nothing, omega arith, inr refl)
              | inl (done, f) ↦ rw f (elim (Result-cases (publish event value)) [
                | inr (raised, g) ↦ rw g (stored event refl, omega arith, inr refl)
                | inl (done', g) ↦ rw g (commit-Sound w event previous h)
              ])
            ])
  ]

  emit-Sound :
      (w : ShardWindow) (ip : Address) (previous current : IpState) (count : ℕ)
      (config : DetectionConfig) (now : ℕ)
      → Sound w.next_sequence w
          (emit encode record_transition publish w ip previous current count config now)
  unfolding emit
  emit-Sound w ip previous current count config now =
      elim (Result-cases (attributes_of current count config)) [
        | inr (raised, e) ↦ rw (e, emit) (nothing, omega arith, inr refl)
        | inl (attributes, e) ↦
            rw (e, emit)
              (announce-Sound (consume w) (event_of w ip current count now config attributes)
                previous (omega arith))
      ]

  -- Whatever the codec, the store and the producer answer: an event is persisted before it is
  -- published, what is published is what was persisted, it carries the window's next sequence number,
  -- which is consumed, and without a returned edge no entry of the window has changed.
  pub evaluate-Sound :
      (w : ShardWindow) (ip : Address) (config : DetectionConfig) (now : ℕ)
      → Sound w.next_sequence w (evaluate encode record_transition publish w ip config now)
  unfolding evaluate
  evaluate-Sound w ip config now =
      elim (Bool-cases (is (evaluate_ip_state (state w ip) (total w ip) config) (state w ip))) [
        | inl e ↦ rw (e, evaluate) (nothing, omega arith, inr refl)
        | inr e ↦
            elim (Bool-cases (
              is (evaluate_ip_state (state w ip) (total w ip) config) cold
              && in_warmup w now
              && is_inherited w ip)) [
                | inl f ↦ rw (e, f, evaluate) (nothing, omega arith, inr refl)
                | inr f ↦
                    rw (e, f, evaluate)
                      (emit-Sound w ip (state w ip)
                        (evaluate_ip_state (state w ip) (total w ip) config) (total w ip) config
                        now)
              ]
      ]

-- The sequence numbers of the events that were published, in their order.
abbrev pub published_sequences : List Effect → List ℕ
published_sequences [] = []
published_sequences (published e ∷ effects) = e.sequence ∷ published_sequences effects
published_sequences (persisted e ∷ effects) = published_sequences effects
published_sequences (counted e ∷ effects) = published_sequences effects

Staged-Ascends :
    (n m : ℕ) (effects later : List Effect) (edge : Bool)
    → Staged n effects edge
    → n + used effects ≤ m
    → Ascends m (published_sequences later)
    → Ascends n (published_sequences (effects ++ later))
Staged-Ascends n m effects later edge nothing h a =
    Ascends-weaken n m (published_sequences later) (omega (arith, h)) a
Staged-Ascends n m effects later edge (stored e q) h a =
    Ascends-weaken n m (published_sequences later) (omega (arith, h)) a
Staged-Ascends n m effects later edge (told e q) h a = (
  omega (arith, q),
  Ascends-weaken (suc e.sequence) m (published_sequences later) (omega (arith, h, q)) a,
)
Staged-Ascends n m effects later edge (complete e q) h a = (
  omega (arith, q),
  Ascends-weaken (suc e.sequence) m (published_sequences later) (omega (arith, h, q)) a,
)

append_nil : (effects : List Effect) → effects ++ [] ≡ effects
append_nil [] = refl
append_nil (effect ∷ effects) = ap (λ rest. effect ∷ rest) (append_nil effects)

walk_on-Ascends :
    (n : ℕ) (r : Result (Option EmittedTransition)) (here : Outcome)
    (rest : ShardWindow × List Effect × Result ℕ)
    → Ascends n (published_sequences (here.effects ++ []))
    → Ascends n (published_sequences (here.effects ++ rest.1))
    → Ascends n (published_sequences (walk_on r here rest).1)
unfolding walk_on
walk_on-Ascends n (err e) here rest one all =
    subst (λ (l : List Effect). Ascends n (published_sequences l)) (append_nil here.effects) one
walk_on-Ascends n (ok none) here rest one all = all
walk_on-Ascends n (ok (some edge)) here rest one all = all

module _ {Bytes : Type 0} (encode : Event → Result Bytes)
    (record_transition : ℕ → Address → IpState → ℕ → Result (Unit {0}))
    (publish : Event → Bytes → Result (Unit {0})) where
  -- No two events of a shard share a sequence number: over a re-evaluation of any addresses, whatever
  -- fails, the numbers that are published strictly increase from the window's counter.
  pub reevaluate-Ascends :
      (w : ShardWindow) (ips : List Address) (config : DetectionConfig) (now : ℕ)
      → Ascends w.next_sequence
          (published_sequences (reevaluate_ips encode record_transition publish w ips config now).1)
  unfolding reevaluate_ips
  reevaluate-Ascends w [] config now = tt
  reevaluate-Ascends w (ip ∷ ips) config now =
      let outcome = evaluate encode record_transition publish w ip config now in
      let sound = evaluate-Sound encode record_transition publish w ip config now in
      let rest = reevaluate-Ascends outcome.window ips config now in
      let later = reevaluate_ips encode record_transition publish outcome.window ips config now in
      let joined =
        λ (effects : List Effect)
            (a : Ascends outcome.window.next_sequence (published_sequences effects)).
          Staged-Ascends w.next_sequence outcome.window.next_sequence outcome.effects effects
            (is_edge outcome.result) sound.0 sound.1 a in
      walk_on-Ascends w.next_sequence outcome.result outcome later (joined [] tt)
        (joined later.1 rest)
