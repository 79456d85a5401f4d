-- ===== src/Trie/Worker/Lifecycle.antt =====
-- trie/worker.py: the worker's life, from its start to its end.
use Prim.Native.String.{String}
use hammertime.Base.{
  ℕ, ◌-◌, Bool, true, false, not, ◌&&◌, Option, none, some, List, [], ◌∷◌, Result, ok, err,
  runtime_error, ltb, if◌then◌else◌,
}
use hammertime.Base.Int.{pos}
use hammertime.Trie.Interface.{HotTrie}
use hammertime.Trie.Records.{FamilyState}
use hammertime.Trie.State.{TrieState, event_sequence, note_passed}
use hammertime.Trie.Publisher.{StatsMessage, MinPrefixLengths}
use hammertime.Trie.Worker.{
  Codec, HotIpOutcome, Pump, pump_done, pump_stopped, pump_ended, TrieWorker, Arrival, received,
  stop_signal, caught_up, stop, resume_from, handle,
}

module _ {T : Type 0} where
  unfoldable pub worker : TrieState (FamilyState T) → TrieWorker T
  worker state = record {
    state = state;
    published = 0;
    stopping = false;
    subscribed = false;
    replay_target = none;
    republish_from = none;
  }

module _ {Attributes T : Type 0} (codec : Codec Attributes) (hot_trie : HotTrie T)
    (lengths : MinPrefixLengths) (raises : StatsMessage → Bool) where
  -- The loop of `_pump`: `until` is asked before each arrival.
  abbrev pub after_handle :
      TrieWorker T × Result HotIpOutcome
      → (TrieWorker T → TrieWorker T × Result Pump)
      → TrieWorker T × Result Pump
  after_handle (w, err e) rest = (w, err e)
  after_handle (w, ok outcome) rest = rest w

  unfoldable pub pump :
      (TrieWorker T → Bool) → List Arrival → TrieWorker T → TrieWorker T × Result Pump
  pump until [] w =
      (w, ok (if until w then pump_done else (if w.stopping then pump_stopped else pump_ended)))
  pump until (arrival ∷ arrivals) w =
      if until w
      then (w, ok pump_done)
      else (if w.stopping then (w, ok pump_stopped) else elim arrival [
        | stop_signal ↦ (stop w, ok pump_stopped)
        | received message ↦
            after_handle (handle codec hot_trie lengths raises w message) (pump until arrivals)
      ])

  unfoldable pub run : List Arrival → TrieWorker T → TrieWorker T × Result Pump
  run arrivals w = if not w.subscribed then (w, err runtime_error) else pump (λ _. false) arrivals w

  -- Step 3 of `start`: what the log no longer holds is passed.
  abbrev pub pass : TrieWorker T → ℕ → Result (TrieWorker T)
  pass w first =
      if ltb (event_sequence w.state) first && not w.stopping
      then elim (note_passed w.state (pos (first - 1))) [
        | err e ↦ err e
        | ok s ↦ ok (record w { state = s })
      ]
      else ok w

  abbrev pub replayed : TrieWorker T × Result Pump → TrieWorker T × Result Pump
  replayed (w, ok pump_ended) = (w, err runtime_error)
  replayed (w, r) = (w, r)

  -- `subscribe` answers an offset with what arrives from there on.
  unfoldable pub start :
      ℕ → ℕ → Option String → (ℕ → List Arrival) → TrieWorker T → TrieWorker T × Result Pump
  start end first last subscribe w =
      let begun = record w {
        replay_target = some end;
        republish_from = some (resume_from codec last end);
      } in
      if w.subscribed then (w, ok pump_done) else elim (pass begun first) [
        | err e ↦ (begun, err e)
        | ok passed ↦
            let start_offset = event_sequence passed.state in
            replayed (
              pump (λ x. caught_up x) (subscribe start_offset)
                (record passed { subscribed = true }))
      ]
