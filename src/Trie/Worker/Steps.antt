-- ===== src/Trie/Worker/Steps.antt =====
-- trie/worker.py: each step of the worker keeps its pairs sound.
use hammertime.Base.{
  ◌^◌, ◌<◌, ◌≡◌, ◌⊎◌, refl, sym, ap, ◌∙◌, Bool, true, not, ◌||◌, Option, none, some, Result, ok,
  err, Error, if◌then◌else◌, Bool-cases, Option-cases, Result-cases, inl, inr, arith,
}
use hammertime.Base.Int.{ℤ, pos}
use hammertime.Core.Address.{AddressFamily, Address, bit_length}
use hammertime.Core.Events.{HotIpEvent}
use hammertime.Bus.Memory.{ConsumedMessage}
use hammertime.Trie.HotSet.{HotSet, without, insert}
use hammertime.Trie.Interface
use hammertime.Trie.Interface.{HotTrie}
use hammertime.Trie.Records.{FamilyState, apply_hot_ip_added, apply_hot_ip_removed}
use hammertime.Trie.Records.Coupled.{
  Coupled, apply_hot_ip_removed-Coupled, apply_hot_ip_added-Coupled,
}
use hammertime.Trie.State.{TrieState, of, event_sequence, is_behind, note_handled, note_applied}
use hammertime.Trie.Publisher.{StatsMessage, MinPrefixLengths, prepare, publish}
use hammertime.Trie.Worker.{
  Codec, HotIpOutcome, malformed, family_not_served, stopped, TrieWorker, Decoded, added, removed,
  skipped, is_rejection, with_pair, Handled, noted, recorded, changed_pair, is_published_again,
  apply_added, apply_event, handle_decoded, decide, decode_message, publish_step, publish_prepared,
  handle,
}
use hammertime.Trie.Worker.Pairs.{
  families-note_handled, families-note_applied, Sound, replace_pair-Sound, returned_pair,
  pair_of-of,
}

module _ {T : Type 0} (hot_trie : HotTrie T) (laws : Interface.Laws hot_trie) {Attributes : Type 0}
    (codec : Codec Attributes) (lengths : MinPrefixLengths) (raises : StatsMessage → Bool) where
  noted-Sound :
      (w : TrieWorker T) (message : ConsumedMessage) (outcome : HotIpOutcome)
      → Sound hot_trie laws w.state.families
      → Sound hot_trie laws (noted codec hot_trie lengths raises w message outcome).0.state.families
  noted-Sound w message outcome s =
      elim (Result-cases (note_handled w.state (pos message.offset))) [
        | inr (x, e) ↦ rw (noted, e) s
        | inl (t, e) ↦ rw (noted, e, families-note_handled w.state t message.offset e) s
      ]

  recorded-Sound :
      (w : TrieWorker T) (message : ConsumedMessage) (payload : HotIpEvent Attributes)
      (fs : FamilyState T) (changed : Bool) (t : TrieState (FamilyState T))
      → Sound hot_trie laws t.families
      → Sound hot_trie laws
          (recorded codec hot_trie lengths raises w message payload fs changed t).0.state.families
  recorded-Sound w message payload fs changed t s =
      elim (Bool-cases (not changed || not (is_published_again w t))) [
        | inl b ↦ rw (recorded, b) s
        | inr b ↦
            elim (Result-cases (
              prepare codec.digest codec.decimal codec.encode codec.prefix_text hot_trie lengths
                fs.trie payload.ip (event_sequence t) (pos t.config.config_version)
                payload.timestamp)) [
                  | inr (x, f) ↦ rw (recorded, b, f) s
                  | inl (prepared, f) ↦ rw (recorded, b, f) s
                ]
      ]

  changed_pair-Sound :
      (w : TrieWorker T) (message : ConsumedMessage) (payload : HotIpEvent Attributes)
      (fs : FamilyState T) (changed : Bool)
      → Sound hot_trie laws (with_pair w.state payload.ip.family fs).families
      → Sound hot_trie laws
          (changed_pair codec hot_trie lengths raises w message payload fs changed).0.state.families
  changed_pair-Sound w message payload fs changed s =
      let next = with_pair w.state payload.ip.family fs in
      elim (Result-cases (note_applied next (pos message.offset) payload.timestamp)) [
        | inr (x, e) ↦ rw (changed_pair, e) s
        | inl (t, e) ↦
            let kept : Sound hot_trie laws t.families =
              rw (families-note_applied next t message.offset payload.timestamp e) s in
            rw (changed_pair, e) (recorded-Sound w message payload fs changed t kept)
      ]

  -- What a call on a pair of a family is to do with a pair that stands for a set.
  abbrev Keeps : AddressFamily → (FamilyState T → Result (FamilyState T × Bool)) → Type 0
  Keeps family apply =
      (fs fs' : FamilyState T) (changed : Bool) (hot : HotSet)
      → Coupled hot_trie laws fs family hot
      → apply fs ≡ ok (fs', changed)
      → (hot' : HotSet) × Coupled hot_trie laws fs' family hot'

  removed-Keeps :
      (ip : Address)
      → ip.value < 2 ^ bit_length ip.family
      → Keeps ip.family (λ fs. apply_hot_ip_removed hot_trie fs ip)
  removed-Keeps ip fits fs fs' changed hot c e =
      let (next, q, c') =
        apply_hot_ip_removed-Coupled hot_trie laws fs ip.family hot ip.value c fits in
      (without ip.value hot, rw (← returned_pair next fs' _ changed (sym q ∙ e)) c')

  once-Keeps :
      (ip : Address) (attributes : Option Attributes) (n : ℤ)
      → ip.value < 2 ^ bit_length ip.family
      → Keeps ip.family (λ fs.
        apply_hot_ip_added codec.canonicalize codec.default_text hot_trie fs ip attributes n)
  once-Keeps ip attributes n fits fs fs' changed hot c e =
      elim (apply_hot_ip_added-Coupled hot_trie laws codec.canonicalize codec.default_text fs
        ip.family hot ip.value attributes n c fits) [
          | inl (next, q, c') ↦
              (insert ip.value hot, rw (← returned_pair next fs' _ changed (sym q ∙ e)) c')
          | inr (x, q) ↦ ground (arith, q, e)
        ]

  added_once :
      (fs : FamilyState T) (payload : HotIpEvent Attributes) (r : FamilyState T × Bool)
      → apply_hot_ip_added codec.canonicalize codec.default_text hot_trie fs payload.ip
          payload.attributes payload.window_count
        ≡ ok r
      → apply_added codec hot_trie lengths raises fs payload ≡ ok r
  unfolding apply_added
  added_once fs payload r q = rw (apply_added, q) refl

  added_again :
      (fs : FamilyState T) (payload : HotIpEvent Attributes) (x : Error)
      → apply_hot_ip_added codec.canonicalize codec.default_text hot_trie fs payload.ip
          payload.attributes payload.window_count
        ≡ err x
      → apply_added codec hot_trie lengths raises fs payload ≡ (
          if is_rejection x
          then apply_hot_ip_added codec.canonicalize codec.default_text hot_trie fs payload.ip none
              payload.window_count
          else err x)
  unfolding apply_added
  added_again fs payload x q = rw (apply_added, q) refl

  added-Keeps :
      (payload : HotIpEvent Attributes)
      → payload.ip.value < 2 ^ bit_length payload.ip.family
      → Keeps payload.ip.family (λ fs. apply_added codec hot_trie lengths raises fs payload)
  added-Keeps payload fits fs fs' changed hot c e =
      elim (Result-cases (
        apply_hot_ip_added codec.canonicalize codec.default_text hot_trie fs payload.ip
          payload.attributes payload.window_count)) [
            | inl (r, q) ↦
                once-Keeps payload.ip payload.attributes payload.window_count fits fs fs' changed
                  hot c (q ∙ sym (added_once fs payload r q) ∙ e)
            | inr (x, q) ↦ elim (Bool-cases (is_rejection x)) [
              | inr b ↦ ground (arith, b, added_again fs payload x q, e)
              | inl b ↦
                  let again = added_again fs payload x q in
                  once-Keeps payload.ip none payload.window_count fits fs fs' changed hot c
                    (sym (rw b at again) ∙ e)
            ]
          ]

  apply_event-Sound :
      (w : TrieWorker T) (message : ConsumedMessage) (payload : HotIpEvent Attributes)
      (apply : FamilyState T → Result (FamilyState T × Bool))
      → Keeps payload.ip.family apply
      → Sound hot_trie laws w.state.families
      → Sound hot_trie laws
          (apply_event codec hot_trie lengths raises w message payload apply).0.state.families
  unfolding apply_event
  apply_event-Sound w message payload apply k s =
      elim (Result-cases (of w.state payload.ip.family)) [
        | inr (x, e) ↦ rw (apply_event, e) (noted-Sound w message family_not_served s)
        | inl (fs, e) ↦ elim (Result-cases (apply fs)) [
          | inr (x, f) ↦ rw (apply_event, e, f) s
          | inl ((fs', changed), f) ↦
              let (hot, c) = s payload.ip.family fs (pair_of-of w.state payload.ip.family fs e) in
              let (hot', c') = k fs fs' changed hot c f in
              rw (apply_event, e, f)
                (changed_pair-Sound w message payload fs' changed (
                  replace_pair-Sound hot_trie laws payload.ip.family fs' hot' w.state.families c'
                    s))
        ]
      ]

  -- What is relied on of the decoder: the address of an event is one of its family.
  abbrev pub DecodesInRange : Type 0
  DecodesInRange =
      (message : ConsumedMessage) (payload : HotIpEvent Attributes)
      → (decode_message codec message ≡ added payload)
        ⊎ (decode_message codec message ≡ removed payload)
      → payload.ip.value < 2 ^ bit_length payload.ip.family

  decoded-Sound :
      (w : TrieWorker T) (message : ConsumedMessage) (decoded : Decoded Attributes)
      → ((payload : HotIpEvent Attributes)
          → (decoded ≡ added payload) ⊎ (decoded ≡ removed payload)
          → payload.ip.value < 2 ^ bit_length payload.ip.family)
      → Sound hot_trie laws w.state.families
      → Sound hot_trie laws
          (handle_decoded codec hot_trie lengths raises w message decoded).0.state.families
  unfolding handle_decoded
  decoded-Sound w message (skipped reason) fits s = noted-Sound w message malformed s
  decoded-Sound w message (added payload) fits s =
      apply_event-Sound w message payload
        (λ fs. apply_added codec hot_trie lengths raises fs payload)
        (added-Keeps payload (fits payload (inl refl))) s
  decoded-Sound w message (removed payload) fits s =
      apply_event-Sound w message payload (λ fs. apply_hot_ip_removed hot_trie fs payload.ip)
        (removed-Keeps payload.ip (fits payload (inr refl))) s

  published-Sound :
      (handled : Handled codec hot_trie lengths raises)
      → Sound hot_trie laws handled.0.state.families
      → Sound hot_trie laws
          (publish_prepared codec hot_trie lengths raises handled).0.state.families
  published-Sound (v, err e) s = s
  published-Sound (v, ok (outcome, none)) s = s
  published-Sound (v, ok (outcome, some prepared)) s =
      elim (Option-cases (publish raises prepared).1) [
        | inl e ↦ rw (publish_step, e) s
        | inr (x, e) ↦ rw (publish_step, e) s
      ]

  stopped_lem :
      (w : TrieWorker T) (message : ConsumedMessage)
      → w.stopping ≡ true
      → handle codec hot_trie lengths raises w message ≡ (w, ok stopped)
  unfolding handle
  stopped_lem w message b = rw b refl

  handle-cases :
      (w : TrieWorker T) (message : ConsumedMessage)
      → ((handle codec hot_trie lengths raises w message).0 ≡ w)
        ⊎ (handle codec hot_trie lengths raises w message
            ≡ publish_prepared codec hot_trie lengths raises (
                handle_decoded codec hot_trie lengths raises w message
                  (decode_message codec message)))
  unfolding handle decide
  handle-cases w message = elim (Bool-cases w.stopping) [
    | inl b ↦ inl (ap (λ out. out.0) (stopped_lem w message b))
    | inr b ↦ elim (Bool-cases (is_behind w.state.position message.offset)) [
      | inl p ↦ inl (rw (b, p) refl)
      | inr p ↦ inr (rw (b, p) refl)
    ]
  ]

  pub handle-Sound :
      (w : TrieWorker T) (message : ConsumedMessage)
      → DecodesInRange
      → Sound hot_trie laws w.state.families
      → Sound hot_trie laws (handle codec hot_trie lengths raises w message).0.state.families
  handle-Sound w message fits s = elim (handle-cases w message) [
    | inl e ↦ rw e s
    | inr e ↦
        let decoded = decode_message codec message in
        rw e (
          published-Sound (handle_decoded codec hot_trie lengths raises w message decoded)
            (decoded-Sound w message decoded (fits message) s))
  ]
