-- ===== src/Trie/Worker/Position.antt =====
-- trie/worker.py: what handling a message does to the position.
use hammertime.Base.{
  ℕ, ◌≡◌, refl, sym, ap, ◌∙◌, Bool, true, false, not, ◌||◌, Option, none, some, Result, ok, err,
  le→leb, Bool-cases, Option-cases, Result-cases, inl, inr, arith,
}
use hammertime.Base.Int.{pos}
use hammertime.Core.Events.{Timestamp, HotIpEvent}
use hammertime.Bus.Memory.{ConsumedMessage}
use hammertime.Trie.Interface.{HotTrie}
use hammertime.Trie.Records.{FamilyState, apply_hot_ip_removed}
use hammertime.Trie.State.{
  TrieState, is_behind, of, event_sequence, check_offset, note_handled, note_applied,
}
use hammertime.Trie.Publisher.{StatsMessage, MinPrefixLengths, prepare, publish}
use hammertime.Trie.Worker.{
  Codec, HotIpOutcome, malformed, family_not_served, redelivered, TrieWorker, Decoded, added,
  removed, skipped, with_pair, Handled, noted, recorded, changed_pair, is_published_again,
  apply_added, apply_event, handle_decoded, decide, decode_message, publish_step, publish_prepared,
  handle,
}

module _ {P : Type 0} where
  position-note_handled :
      (s t : TrieState P) (n : ℕ) → note_handled s (pos n) ≡ ok t → t.position ≡ some n
  unfolding note_handled check_offset
  position-note_handled s t n e = elim (Bool-cases (is_behind s.position n)) [
    | inl b ↦ ground (arith, b, e)
    | inr b ↦ ground (arith, b, e)
  ]

  position-note_applied :
      (s t : TrieState P) (n : ℕ) (time : Timestamp)
      → note_applied s (pos n) time ≡ ok t
      → t.position ≡ some n
  unfolding note_applied check_offset
  position-note_applied s t n time e = elim (Bool-cases (is_behind s.position n)) [
    | inl b ↦ ground (arith, b, e)
    | inr b ↦ elim (Bool-cases time.is_aware) [
      | inl a ↦ ground (arith, b, a, e)
      | inr a ↦ ground (arith, b, a, e)
    ]
  ]

module _ {T : Type 0} where
  -- A call that returns has placed the worker at an offset and kept the rest of its life.
  abbrev pub Placed {ℓ} : {R : Type ℓ} → TrieWorker T → ℕ → TrieWorker T × Result R → Type 0
  Placed w n (w', err e) = Unit
  Placed w n (w', ok r) =
      (w'.state.position ≡ some n)
      × (w'.stopping ≡ w.stopping)
      × (w'.subscribed ≡ w.subscribed)
      × (w'.replay_target ≡ w.replay_target)

module _ {Attributes T : Type 0} (codec : Codec Attributes) (hot_trie : HotTrie T)
    (lengths : MinPrefixLengths) (raises : StatsMessage → Bool) where
  noted-Placed :
      (w : TrieWorker T) (message : ConsumedMessage) (outcome : HotIpOutcome)
      → Placed w message.offset (noted codec hot_trie lengths raises w message outcome)
  noted-Placed w message outcome = elim (Result-cases (note_handled w.state (pos message.offset))) [
    | inr (x, e) ↦ rw (noted, e) tt
    | inl (s, e) ↦
        rw (noted, e) (position-note_handled w.state s message.offset e, refl, refl, refl)
  ]

  recorded-Placed :
      (w : TrieWorker T) (message : ConsumedMessage) (payload : HotIpEvent Attributes)
      (fs : FamilyState T) (changed : Bool) (s : TrieState (FamilyState T))
      → s.position ≡ some message.offset
      → Placed w message.offset
          (recorded codec hot_trie lengths raises w message payload fs changed s)
  recorded-Placed w message payload fs changed s e =
      elim (Bool-cases (not changed || not (is_published_again w s))) [
        | inl b ↦ rw (recorded, b) (e, refl, refl, refl)
        | inr b ↦
            elim (Result-cases (
              prepare codec.digest codec.decimal codec.encode codec.prefix_text hot_trie lengths
                fs.trie payload.ip (event_sequence s) (pos s.config.config_version)
                payload.timestamp)) [
                  | inr (x, f) ↦ rw (recorded, b, f) tt
                  | inl (prepared, f) ↦ rw (recorded, b, f) (e, refl, refl, refl)
                ]
      ]

  changed_pair-Placed :
      (w : TrieWorker T) (message : ConsumedMessage) (payload : HotIpEvent Attributes)
      (fs : FamilyState T) (changed : Bool)
      → Placed w message.offset
          (changed_pair codec hot_trie lengths raises w message payload fs changed)
  changed_pair-Placed w message payload fs changed =
      let s = with_pair w.state payload.ip.family fs in
      elim (Result-cases (note_applied s (pos message.offset) payload.timestamp)) [
        | inr (x, e) ↦ rw (changed_pair, e) tt
        | inl (t, e) ↦
            let at_offset = position-note_applied s t message.offset payload.timestamp e in
            rw (changed_pair, e) (recorded-Placed w message payload fs changed t at_offset)
      ]

  apply_event-Placed :
      (w : TrieWorker T) (message : ConsumedMessage) (payload : HotIpEvent Attributes)
      (apply : FamilyState T → Result (FamilyState T × Bool))
      → Placed w message.offset (apply_event codec hot_trie lengths raises w message payload apply)
  unfolding apply_event
  apply_event-Placed w message payload apply = elim (Result-cases (of w.state payload.ip.family)) [
    | inr (x, e) ↦ rw (apply_event, e) (noted-Placed w message family_not_served)
    | inl (fs, e) ↦ elim (Result-cases (apply fs)) [
      | inr (x, f) ↦ rw (apply_event, e, f) tt
      | inl ((fs', changed), f) ↦
          rw (apply_event, e, f) (changed_pair-Placed w message payload fs' changed)
    ]
  ]

  handle_decoded-Placed :
      (w : TrieWorker T) (message : ConsumedMessage) (decoded : Decoded Attributes)
      → Placed w message.offset (handle_decoded codec hot_trie lengths raises w message decoded)
  unfolding handle_decoded
  handle_decoded-Placed w message (skipped reason) = noted-Placed w message malformed
  handle_decoded-Placed w message (added payload) =
      apply_event-Placed w message payload
        (λ fs. apply_added codec hot_trie lengths raises fs payload)
  handle_decoded-Placed w message (removed payload) =
      apply_event-Placed w message payload (λ fs. apply_hot_ip_removed hot_trie fs payload.ip)

  published-Placed :
      (w : TrieWorker T) (n : ℕ) (handled : Handled codec hot_trie lengths raises)
      → Placed w n handled
      → Placed w n (publish_prepared codec hot_trie lengths raises handled)
  published-Placed w n (v, err e) p = tt
  published-Placed w n (v, ok (outcome, none)) p = p
  published-Placed w n (v, ok (outcome, some prepared)) p =
      elim (Option-cases (publish raises prepared).1) [
        | inl e ↦ rw (publish_step, e) p
        | inr (x, e) ↦ rw (publish_step, e) tt
      ]

  handle_past :
      (w : TrieWorker T) (message : ConsumedMessage)
      → w.stopping ≡ false
      → is_behind w.state.position message.offset ≡ false
      → handle codec hot_trie lengths raises w message
        ≡ publish_prepared codec hot_trie lengths raises
            (handle_decoded codec hot_trie lengths raises w message (decode_message codec message))
  unfolding handle decide
  handle_past w message s b = rw (s, b) refl

  -- A message past the position, when the worker is not stopping.
  pub handle_new :
      (w : TrieWorker T) (message : ConsumedMessage)
      → w.stopping ≡ false
      → is_behind w.state.position message.offset ≡ false
      → Placed w message.offset (handle codec hot_trie lengths raises w message)
  handle_new w message s b =
      let decoded = decode_message codec message in
      rw (handle_past w message s b) (
        published-Placed w message.offset
          (handle_decoded codec hot_trie lengths raises w message decoded)
          (handle_decoded-Placed w message decoded))

  handle_old :
      (w : TrieWorker T) (message : ConsumedMessage)
      → w.stopping ≡ false
      → is_behind w.state.position message.offset ≡ true
      → handle codec hot_trie lengths raises w message ≡ (w, ok redelivered)
  unfolding handle decide
  handle_old w message s b = rw (s, b) refl

  behind_self : (p : Option ℕ) (n : ℕ) → p ≡ some n → is_behind p n ≡ true
  behind_self p n e = rw e (le→leb n n (omega arith))

  -- What a call that returned has done, read off the pair that it returned.
  pub returned :
      {R : Type 0} (w w' : TrieWorker T) (n : ℕ) (out : TrieWorker T × Result R) (r : R)
      → Placed w n out
      → out ≡ (w', ok r)
      → Placed w n (w', ok r)
  returned w w' n out r p e = rw e at p

  -- A message that was handled, and is delivered again, is skipped and changes nothing, whatever came of
  -- it the first time, unless the worker is stopping.
  pub handle_again :
      (w w' : TrieWorker T) (message : ConsumedMessage) (outcome : HotIpOutcome)
      → w.stopping ≡ false
      → handle codec hot_trie lengths raises w message ≡ (w', ok outcome)
      → handle codec hot_trie lengths raises w' message ≡ (w', ok redelivered)
  handle_again w w' message outcome s e =
      elim (Bool-cases (is_behind w.state.position message.offset)) [
        | inl b ↦
            let same : w ≡ w' = ap (λ out. out.0) (sym (handle_old w message s b) ∙ e) in
            handle_old w' message (rw (← same) s) (rw (← same) b)
        | inr b ↦
            let (at_offset, st, su, rt) =
              returned w w' message.offset (handle codec hot_trie lengths raises w message) outcome
                (handle_new w message s b) e in
            handle_old w' message (st ∙ s) (behind_self w'.state.position message.offset at_offset)
      ]
