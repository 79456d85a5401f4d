-- ===== src/Trie/Worker/History.antt =====
-- trie/worker.py: the records beside the tries, after any messages.
use hammertime.Base.{
  ℕ, ◌^◌, ◌<◌, ◌≡◌, sym, ap, ◌∙◌, Bool, some, List, [], ◌∷◌, ok, Bool-cases, inl, inr, arith,
}
use hammertime.Core.Address.{AddressFamily, ipv4, ipv6, bit_length}
use hammertime.Core.Config.{DetectionConfig}
use hammertime.Bus.Memory.{ConsumedMessage}
use hammertime.Trie.HotSet.{mem, at}
use hammertime.Trie.Interface
use hammertime.Trie.Interface.{HotTrie}
use hammertime.Trie.Records.{FamilyState, is_recorded}
use hammertime.Trie.Records.Coupled.{fresh, fresh-Coupled}
use hammertime.Trie.State
use hammertime.Trie.State.{TrieState, of, pair_of, served, has_family}
use hammertime.Trie.Publisher.{StatsMessage, MinPrefixLengths}
use hammertime.Trie.Worker.{Codec, TrieWorker, handle}
use hammertime.Trie.Worker.Lifecycle.{worker}
use hammertime.Trie.Worker.Pairs.{Sound, pair_of-of}
use hammertime.Trie.Worker.Steps.{DecodesInRange, handle-Sound}

module _ {P : Type 0} where
  pair_of-served :
      (pair : AddressFamily → P) (families : List AddressFamily) (f : AddressFamily) (p : P)
      → pair_of f (served pair families) ≡ some p
      → pair f ≡ p
  unfolding served
  pair_of-served pair families ipv4 p e = elim (Bool-cases (has_family ipv4 families)) [
    | inl b ↦ elim (Bool-cases (has_family ipv6 families)) [
      | inl c ↦ ground (arith, b, c, e)
      | inr c ↦ ground (arith, b, c, e)
    ]
    | inr b ↦ elim (Bool-cases (has_family ipv6 families)) [
      | inl c ↦ ground (arith, b, c, e)
      | inr c ↦ ground (arith, b, c, e)
    ]
  ]
  pair_of-served pair families ipv6 p e = elim (Bool-cases (has_family ipv4 families)) [
    | inl b ↦ elim (Bool-cases (has_family ipv6 families)) [
      | inl c ↦ ground (arith, b, c, e)
      | inr c ↦ ground (arith, b, c, e)
    ]
    | inr b ↦ elim (Bool-cases (has_family ipv6 families)) [
      | inl c ↦ ground (arith, b, c, e)
      | inr c ↦ ground (arith, b, c, e)
    ]
  ]

module _ {T : Type 0} (hot_trie : HotTrie T) (laws : Interface.Laws hot_trie) {Attributes : Type 0}
    (codec : Codec Attributes) (lengths : MinPrefixLengths) (raises : StatsMessage → Bool) where
  -- The messages one after another, whichever of them raise.
  abbrev pub handle_all : TrieWorker T → List ConsumedMessage → TrieWorker T
  handle_all w [] = w
  handle_all w (message ∷ messages) =
      handle_all (handle codec hot_trie lengths raises w message).0 messages

  handle_all-Sound :
      (w : TrieWorker T) (messages : List ConsumedMessage)
      → DecodesInRange hot_trie laws codec lengths raises
      → Sound hot_trie laws w.state.families
      → Sound hot_trie laws (handle_all w messages).state.families
  handle_all-Sound w [] fits s = s
  handle_all-Sound w (message ∷ messages) fits s =
      handle_all-Sound (handle codec hot_trie lengths raises w message).0 messages fits
        (handle-Sound hot_trie laws codec lengths raises w message fits s)

  new-Sound :
      (families : List AddressFamily) (config : DetectionConfig) (s : TrieState (FamilyState T))
      → State.new (fresh hot_trie laws) families config ≡ ok s
      → Sound hot_trie laws s.families
  unfolding State.new
  new-Sound [] config s e family fs q = ground (arith, e)
  new-Sound (f ∷ families) config s e family fs q =
      let same : served (fresh hot_trie laws) (f ∷ families) ≡ s.families = ground (arith, e) in
      let here : pair_of family (served (fresh hot_trie laws) (f ∷ families)) ≡ some fs =
        rw same q in
      let first = pair_of-served (fresh hot_trie laws) (f ∷ families) family fs here in
      ([], rw (← first) (fresh-Coupled hot_trie laws family))

  -- From a new worker on, whatever messages it handles and whichever of them raise, an address of a family
  -- that it serves has a record exactly if the family's trie holds it HOT, if what is decoded has
  -- addresses of their families.
  pub contains-handle_all :
      (families : List AddressFamily) (config : DetectionConfig) (s : TrieState (FamilyState T))
      (messages : List ConsumedMessage) (family : AddressFamily) (fs : FamilyState T) (v : ℕ)
      → DecodesInRange hot_trie laws codec lengths raises
      → State.new (fresh hot_trie laws) families config ≡ ok s
      → of (handle_all (worker s) messages).state family ≡ ok fs
      → v < 2 ^ bit_length family
      → hot_trie.contains fs.trie (at family v) ≡ ok (is_recorded fs.records (at family v))
  unfolding worker
  contains-handle_all families config s messages family fs v decodes e q fits =
      let last = handle_all (worker s) messages in
      let sound = handle_all-Sound (worker s) messages decodes (new-Sound families config s e) in
      let (hot, c) = sound family fs (pair_of-of last.state family fs q) in
      let raw = laws.contains_lem fs.trie hot v c.holds (rw c.trie_family fits) in
      let held : hot_trie.contains fs.trie (at family v) ≡ ok (mem v hot) =
        rw c.trie_family at raw in
      held ∙ ap ok (sym (c.matches v))
