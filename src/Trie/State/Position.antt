-- ===== src/Trie/State/Position.antt =====
-- trie/state.py, the log position and the newest timestamp under histories of the worker's calls.
use hammertime.Base.{
  Result-cases, Error, ℕ, suc, ◌≤◌, ◌≡◌, refl, ◌∙◌, Bool, false, Option, none, some, List, [], ◌∷◌,
  Result, ok, err, leb, if◌then◌else◌, Option-cases, inl, inr, Ascends, arith,
}
use mathlib.Core.Path.{subst}
use hammertime.Base.Int.{ℤ, pos, negsuc, pos_part}
use hammertime.Core.Config.{DetectionConfig}
use hammertime.Core.Events.{Timestamp}
use hammertime.Trie.State.{
  TrieState, event_sequence, check_offset, note_handled, note_applied, note_passed, adopt_config,
  newer,
}

pub data Note : Type 0 where
  handled : (offset : ℤ) → Note
  applied : (offset : ℤ) (timestamp : Timestamp) → Note
  passed : (offset : ℤ) → Note
  adopted : (config : DetectionConfig) → Note

-- The offset of a note that the state takes, and the timestamp that it applies.
abbrev pub offset_of : Note → Option ℤ
offset_of (handled offset) = some offset
offset_of (applied offset timestamp) = if timestamp.is_aware then some offset else none
offset_of (passed offset) = some offset
offset_of (adopted config) = none

abbrev pub time_of : Note → Option ℕ
time_of (applied offset timestamp) = some timestamp.epoch
time_of _ = none

-- Whether an offset is at or past the next record to read.
abbrev pub is_next : ℕ → Option ℤ → Bool
is_next sequence none = false
is_next sequence (some (pos n)) = leb sequence n
is_next sequence (some (negsuc n)) = false

-- The offset that a call names, if it names one.
abbrev pub named : Note → Option ℕ
named (handled offset) = some (pos_part offset)
named (applied offset timestamp) = some (pos_part offset)
named (passed offset) = some (pos_part offset)
named (adopted config) = none

abbrev pub prepend : Option ℕ → List ℕ → List ℕ
prepend none numbers = numbers
prepend (some k) numbers = k ∷ numbers

module _ {Pair : Type 0} where
  abbrev pub note : TrieState Pair → Note → Result (TrieState Pair)
  note s (handled offset) = note_handled s offset
  note s (applied offset timestamp) = note_applied s offset timestamp
  note s (passed offset) = note_passed s offset
  note s (adopted config) = ok (adopt_config s config)

  -- A call that raises changes nothing.
  abbrev pub note_or : TrieState Pair → Note → TrieState Pair
  note_or s n = elim (note s n) [ ok s' ↦ s' | err e ↦ s ]

  abbrev pub note_all : TrieState Pair → List Note → TrieState Pair
  note_all s [] = s
  note_all s (n ∷ notes) = note_all (note_or s n) notes

  -- The offsets of the calls of a history that return, in their order.
  abbrev pub taken : TrieState Pair → List Note → List ℕ
  taken s [] = []
  taken s (n ∷ notes) = elim (note s n) [
    | err e ↦ taken s notes
    | ok s' ↦ prepend (named n) (taken s' notes)
  ]

  -- What a call that returns leaves.
  abbrev Advances : TrieState Pair → TrieState Pair → Option ℕ → Type 0
  Advances s s' none = event_sequence s' ≡ event_sequence s
  Advances s s' (some k) = (event_sequence s ≤ k) × (event_sequence s' ≡ suc k)

  note-Advances : (s s' : TrieState Pair) (n : Note) → note s n ≡ ok s' → Advances s s' (named n)
  unfolding event_sequence check_offset note_handled note_applied note_passed adopt_config
  note-Advances s s' (handled (pos k)) h = elim (Option-cases s.position) [
    | inl e ↦ ground (arith, e, h)
    | inr (p, e) ↦ ground (arith, e, h)
  ]
  note-Advances s s' (handled (negsuc k)) h = ground (arith, h)
  note-Advances s s' (applied (pos k) timestamp) h = elim (Option-cases s.position) [
    | inl e ↦ ground (arith, e, h)
    | inr (p, e) ↦ ground (arith, e, h)
  ]
  note-Advances s s' (applied (negsuc k) timestamp) h = ground (arith, h)
  note-Advances s s' (passed (pos k)) h = elim (Option-cases s.position) [
    | inl e ↦ ground (arith, e, h)
    | inr (p, e) ↦ ground (arith, e, h)
  ]
  note-Advances s s' (passed (negsuc k)) h = ground (arith, h)
  note-Advances s s' (adopted config) h = ground (arith, h)

  Ascends-prepend :
      (s s' : TrieState Pair) (o : Option ℕ) (numbers : List ℕ)
      → Advances s s' o
      → Ascends (event_sequence s') numbers
      → Ascends (event_sequence s) (prepend o numbers)
  Ascends-prepend s s' none numbers step rest = subst (λ (k : ℕ). Ascends k numbers) step rest
  Ascends-prepend s s' (some k) numbers step rest =
      (step.0, subst (λ (j : ℕ). Ascends j numbers) step.1 rest)

  taken-ok :
      (s s' : TrieState Pair) (n : Note) (notes : List Note)
      → note s n ≡ ok s'
      → taken s (n ∷ notes) ≡ prepend (named n) (taken s' notes)
  taken-ok s s' n notes e = rw (taken, e) refl

  taken-err :
      (s : TrieState Pair) (n : Note) (notes : List Note) (x : Error)
      → note s n ≡ err x
      → taken s (n ∷ notes) ≡ taken s notes
  taken-err s n notes x e = rw (taken, e) refl

  -- Whatever the worker notes, the offsets of the calls that return strictly increase, from the next
  -- offset to read on.
  pub taken-Ascends :
      (s : TrieState Pair) (notes : List Note) → Ascends (event_sequence s) (taken s notes)
  taken-Ascends s [] = tt
  taken-Ascends s (n ∷ notes) = elim (Result-cases (note s n)) [
    | inr (x, e) ↦ rw (taken-err s n notes x e) (taken-Ascends s notes)
    | inl (s', e) ↦ rw (taken-ok s s' n notes e) (
        Ascends-prepend s s' (named n) (taken s' notes) (note-Advances s s' n e)
          (taken-Ascends s' notes))
  ]

-- The timestamps that a history applies.
module _ {Pair : Type 0} where
  abbrev pub applied_times : TrieState Pair → List Note → List ℕ
  applied_times s [] = []
  applied_times s (n ∷ notes) =
      let rest = applied_times (note_or s n) notes in
      if is_next (event_sequence s) (offset_of n)
      then elim (time_of n) [ none ↦ rest | some t ↦ t ∷ rest ]
      else rest

abbrev pub newest : Option ℕ → List ℕ → Option ℕ
newest o [] = o
newest o (t ∷ times) = newest (newer o t) times

module _ {Pair : Type 0} where
  note-as_of :
      (s : TrieState Pair) (n : Note)
      → (note_or s n).as_of ≡ (
          if is_next (event_sequence s) (offset_of n)
          then (elim (time_of n) [ none ↦ s.as_of | some t ↦ newer s.as_of t ])
          else s.as_of)
  unfolding event_sequence check_offset note_handled note_applied note_passed adopt_config
  note-as_of s (handled (pos k)) = ground arith
  note-as_of s (handled (negsuc k)) = refl
  note-as_of s (applied (pos k) timestamp) = elim (Option-cases s.position) [
    | inl e ↦ ground (arith, e)
    | inr (p, e) ↦ ground (arith, e)
  ]
  note-as_of s (applied (negsuc k) timestamp) = ground arith
  note-as_of s (passed (pos k)) = ground arith
  note-as_of s (passed (negsuc k)) = refl
  note-as_of s (adopted config) = refl

  -- `as_of` is the newest timestamp among the events that were applied.
  pub note_all-as_of :
      (s : TrieState Pair) (notes : List Note)
      → (note_all s notes).as_of ≡ newest s.as_of (applied_times s notes)
  note_all-as_of s [] = refl
  note_all-as_of s (n ∷ notes) =
      note_all-as_of (note_or s n) notes ∙ elim (Option-cases (time_of n)) [
        | inl e ↦ ground (arith, e, note-as_of s n)
        | inr (t, e) ↦ ground (arith, e, note-as_of s n)
      ]
