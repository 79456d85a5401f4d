-- ===== src/Trie/Worker/Replay.antt =====
-- trie/worker.py: what a start does with the records that it replays.
use Prim.Native.String.{String}
use hammertime.Base.{
  ℕ, suc, ◌+◌, ◌-◌, ◌≡◌, refl, sym, ap, ◌∙◌, Bool, true, false, not, ◌&&◌, Option, none, some, List,
  [], ◌∷◌, Result, ok, err, Error, leb, ltb, lt→leb_false, le→leb, length, Bool-cases, Result-cases,
  inl, inr, arith,
}
use hammertime.Base.Int.{pos}
use hammertime.Bus.Memory.{ConsumedMessage}
use hammertime.Trie.Interface.{HotTrie}
use hammertime.Trie.State.{TrieState, is_behind, event_sequence, note_passed}
use hammertime.Trie.Publisher.{StatsMessage, MinPrefixLengths}
use hammertime.Trie.Worker.{
  Codec, HotIpOutcome, pump_done, TrieWorker, Arrival, received, caught_up, resume_from, handle,
}
use hammertime.Trie.Worker.Lifecycle.{after_handle, pump, pass, replayed, start}
use hammertime.Trie.Worker.Position.{handle_new, returned}

-- The records of a log from an offset on.
abbrev pub Consecutive : ℕ → List ConsumedMessage → Type 0
Consecutive n [] = Unit
Consecutive n (message ∷ messages) = (message.offset ≡ n) × Consecutive (suc n) messages

abbrev pub arrivals_of : List ConsumedMessage → List Arrival → List Arrival
arrivals_of [] rest = rest
arrivals_of (message ∷ messages) rest = received message ∷ arrivals_of messages rest

behind_at :
    (p : Option ℕ) (n : ℕ)
    → elim p as (λ _. ℕ) [ none ↦ 0 | some offset ↦ suc offset ] ≡ n
    → is_behind p n ≡ false
behind_at none n e = refl
behind_at (some offset) n e = lt→leb_false n offset (omega (arith, e))

module _ {P : Type 0} where
  not_behind : (s : TrieState P) (n : ℕ) → event_sequence s ≡ n → is_behind s.position n ≡ false
  unfolding event_sequence
  not_behind s n e = behind_at s.position n e

  event_sequence_at : (s : TrieState P) (n : ℕ) → s.position ≡ some n → event_sequence s ≡ suc n
  unfolding event_sequence
  event_sequence_at s n e = rw e refl

module _ {T : Type 0} where
  caught_up_at :
      (w : TrieWorker T) (end : ℕ)
      → w.subscribed ≡ true
      → w.replay_target ≡ some end
      → caught_up w ≡ leb end (event_sequence w.state)
  unfolding caught_up
  caught_up_at w end s t = rw (t, s) refl

module _ {Attributes T : Type 0} (codec : Codec Attributes) (hot_trie : HotTrie T)
    (lengths : MinPrefixLengths) (raises : StatsMessage → Bool) where
  -- Whether each message, handled after those before it, returns.
  abbrev pub and_then : TrieWorker T × Result HotIpOutcome → (TrieWorker T → Bool) → Bool
  and_then (w, ok outcome) rest = rest w
  and_then (w, err e) rest = false

  unfoldable pub none_raise : List ConsumedMessage → TrieWorker T → Bool
  none_raise [] w = true
  none_raise (message ∷ messages) w =
      and_then (handle codec hot_trie lengths raises w message) (none_raise messages)

  pump-caught_up :
      (arrivals : List Arrival) (w : TrieWorker T)
      → caught_up w ≡ true
      → pump codec hot_trie lengths raises (λ x. caught_up x) arrivals w ≡ (w, ok pump_done)
  unfolding pump
  pump-caught_up [] w c = rw c refl
  pump-caught_up (arrival ∷ arrivals) w c = rw c refl

  pump-received :
      (message : ConsumedMessage) (arrivals : List Arrival) (w : TrieWorker T)
      → caught_up w ≡ false
      → w.stopping ≡ false
      → pump codec hot_trie lengths raises (λ x. caught_up x) (received message ∷ arrivals) w
        ≡ after_handle codec hot_trie lengths raises
            (handle codec hot_trie lengths raises w message)
            (pump codec hot_trie lengths raises (λ x. caught_up x) arrivals)
  unfolding pump
  pump-received message arrivals w c s = rw (c, s) refl

  raised :
      (out : TrieWorker T × Result HotIpOutcome) (rest : TrieWorker T → Bool) (x : Error)
      → out.1 ≡ err x
      → and_then out rest ≡ false
  raised (w, ok o) rest x e = ground (arith, e)
  raised (w, err y) rest x e = refl

  replay :
      (messages : List ConsumedMessage) (rest : List Arrival) (w : TrieWorker T) (n end : ℕ)
      → w.stopping ≡ false
      → w.subscribed ≡ true
      → w.replay_target ≡ some end
      → event_sequence w.state ≡ n
      → n + length messages ≡ end
      → Consecutive n messages
      → none_raise messages w ≡ true
      → (w' : TrieWorker T) × (pump codec hot_trie lengths raises
            (λ x. caught_up x)
            (arrivals_of messages rest)
            w
          ≡ (w', ok pump_done))
        × (event_sequence w'.state ≡ end)
  unfolding none_raise
  replay [] rest w n end st su rt es h c q =
      let there : event_sequence w.state ≡ end = omega arith in
      let up : caught_up w ≡ true =
        caught_up_at w end su rt ∙ le→leb end (event_sequence w.state) (omega arith) in
      (w, pump-caught_up rest w up, there)
  replay (message ∷ messages) rest w n end st su rt es h c q =
      let out = handle codec hot_trie lengths raises w message in
      let more : caught_up w ≡ false =
        caught_up_at w end su rt ∙ lt→leb_false end (event_sequence w.state) (omega arith) in
      let new : is_behind w.state.position message.offset ≡ false =
        rw c.0 (not_behind w.state n es) in
      elim (Result-cases out.1) [
        | inr (x, e) ↦ ground (arith, q, raised out (none_raise messages) x e)
        | inl (outcome, e) ↦
            let same : out ≡ (out.0, ok outcome) = ap (λ r. (out.0, r)) e in
            let (at_offset, st', su', rt') =
              returned codec hot_trie lengths raises w out.0 message.offset out outcome
                (handle_new codec hot_trie lengths raises w message st new) same in
            let later : none_raise messages out.0 ≡ true =
              ap (λ o. and_then o (none_raise messages)) (sym same) ∙ q in
            let (w', done, at_end) =
              replay messages rest out.0 (suc n) end (st' ∙ st) (su' ∙ su) (rt' ∙ rt)
                (event_sequence_at out.0.state n (at_offset ∙ ap some c.0)) (omega arith) c.1
                later in
            (
              w',
              pump-received message (arrivals_of messages rest) w more st
                  ∙ ap
                      (λ o. after_handle codec hot_trie lengths raises o (
                        pump codec hot_trie lengths raises (λ x. caught_up x)
                          (arrivals_of messages rest)))
                      same
                  ∙ done,
              at_end,
            )
      ]

  pass-keeps :
      (w w' : TrieWorker T) (first : ℕ)
      → pass codec hot_trie lengths raises w first ≡ ok w'
      → (w'.stopping ≡ w.stopping) × (w'.replay_target ≡ w.replay_target)
  pass-keeps w w' first e =
      elim (Bool-cases (ltb (event_sequence w.state) first && not w.stopping)) [
        | inr b ↦ ground (arith, b, e)
        | inl b ↦ elim (Result-cases (note_passed w.state (pos (first - 1)))) [
          | inr (x, f) ↦ ground (arith, b, f, e)
          | inl (s, f) ↦ ground (arith, b, f, e)
        ]
      ]

  abbrev pub begun : TrieWorker T → ℕ → Option String → TrieWorker T
  begun w end last = record w {
    replay_target = some end;
    republish_from = some (resume_from codec last end);
  }

  start_passed :
      (w passed : TrieWorker T) (end first : ℕ) (last : Option String)
      (subscribe : ℕ → List Arrival) (arrivals : List Arrival)
      → w.subscribed ≡ false
      → pass codec hot_trie lengths raises (begun w end last) first ≡ ok passed
      → subscribe (event_sequence passed.state) ≡ arrivals
      → start codec hot_trie lengths raises end first last subscribe w
        ≡ replayed codec hot_trie lengths raises (
            pump codec hot_trie lengths raises
              (λ x. caught_up x)
              arrivals
              (record passed { subscribed = true }))
  unfolding start
  start_passed w passed end first last subscribe arrivals su e a = rw (e, su, a) refl

  -- A start that is to read the log up to an end, whose subscription from the worker's next offset brings
  -- the records from there to the end in order, none of which raises, returns with all of them handled: it
  -- has caught up, at the end exactly, whatever else arrives behind them.
  pub start-replays :
      (w passed : TrieWorker T) (end first : ℕ) (last : Option String)
      (subscribe : ℕ → List Arrival) (messages : List ConsumedMessage) (rest : List Arrival)
      → w.subscribed ≡ false
      → w.stopping ≡ false
      → pass codec hot_trie lengths raises (begun w end last) first ≡ ok passed
      → subscribe (event_sequence passed.state) ≡ arrivals_of messages rest
      → event_sequence passed.state + length messages ≡ end
      → Consecutive (event_sequence passed.state) messages
      → none_raise messages (record passed { subscribed = true }) ≡ true
      → (w' : TrieWorker T) × (start codec hot_trie lengths raises end first last subscribe w
          ≡ (w', ok pump_done))
        × (event_sequence w'.state ≡ end)
  start-replays w passed end first last subscribe messages rest su st e a h c q =
      let (st', rt') = pass-keeps (begun w end last) passed first e in
      let subscribed : TrieWorker T = record passed { subscribed = true } in
      let (w', done, at_end) =
        replay messages rest subscribed (event_sequence passed.state) end (st' ∙ st) refl rt' refl h
          c q in
      (
        w',
        start_passed w passed end first last subscribe (arrivals_of messages rest) su e a
            ∙ ap (replayed codec hot_trie lengths raises) done,
        at_end,
      )
