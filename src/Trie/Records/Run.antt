-- ===== src/Trie/Records/Run.antt =====
-- trie/metadata/ip_attributes.py: the steps of a log, one after another.
use Prim.Native.String.{String}
use hammertime.Base.{
  ℕ, ◌^◌, ◌<◌, ◌≡◌, sym, ap, ◌∙◌, Bool, Option, List, [], ◌∷◌, Result, ok, err, inl, inr,
}
use hammertime.Base.Int.{ℤ}
use hammertime.Core.Address.{AddressFamily, bit_length}
use hammertime.Core.Address.Same.{address_key}
use hammertime.Trie.HotSet.{HotSet, mem, without, insert, at}
use hammertime.Trie.Interface.{HotTrie, Laws}
use hammertime.Trie.Records.{FamilyState, is_recorded, apply_hot_ip_added, apply_hot_ip_removed}
use hammertime.Trie.Records.Coupled.{
  Coupled, fresh, fresh-Coupled, apply_hot_ip_removed-Coupled, apply_hot_ip_added-Coupled,
}

module _ {T : Type 0} (hot_trie : HotTrie T) (laws : Laws hot_trie) {Attributes : Type 0}
    (canonicalize : Attributes → Result String) (default_text : String) where
  -- The steps of a log, in the order of the log.
  pub data Step : Type 0 where
    added : ℕ → Option Attributes → ℤ → Step
    removed : ℕ → Step

  -- A step that is refused leaves the pair as it was.
  abbrev pub kept : FamilyState T → Result (FamilyState T × Bool) → FamilyState T
  kept fs (ok (next, changed)) = next
  kept fs (err e) = fs

  abbrev pub apply : AddressFamily → FamilyState T → Step → Result (FamilyState T × Bool)
  apply family fs (added v attributes n) =
      apply_hot_ip_added canonicalize default_text hot_trie fs (at family v) attributes n
  apply family fs (removed v) = apply_hot_ip_removed hot_trie fs (at family v)

  abbrev pub run : AddressFamily → FamilyState T → List Step → FamilyState T
  run family fs [] = fs
  run family fs (s ∷ steps) = run family (kept fs (apply family fs s)) steps

  abbrev pub value_of : Step → ℕ
  value_of (added v attributes n) = v
  value_of (removed v) = v

  abbrev pub AllInRange : ℕ → List Step → Type 0
  AllInRange width [] = Unit
  AllInRange width (s ∷ steps) = (value_of s < 2 ^ width) × AllInRange width steps

  step-Coupled :
      (fs : FamilyState T) (family : AddressFamily) (hot : HotSet) (s : Step)
      → Coupled hot_trie laws fs family hot
      → value_of s < 2 ^ bit_length family
      → (hot' : HotSet) × Coupled hot_trie laws (kept fs (apply family fs s)) family hot'
  step-Coupled fs family hot (removed v) c fits =
      let (fs', e, c') = apply_hot_ip_removed-Coupled hot_trie laws fs family hot v c fits in
      (without v hot, rw e c')
  step-Coupled fs family hot (added v attributes n) c fits =
      elim (apply_hot_ip_added-Coupled hot_trie laws canonicalize default_text fs family hot v
        attributes n c fits) [
          | inl (fs', e, c') ↦ (insert v hot, rw e c')
          | inr (x, e) ↦ (hot, rw e c)
        ]

  run-Coupled :
      (steps : List Step) (fs : FamilyState T) (family : AddressFamily) (hot : HotSet)
      → Coupled hot_trie laws fs family hot
      → AllInRange (bit_length family) steps
      → (hot' : HotSet) × Coupled hot_trie laws (run family fs steps) family hot'
  run-Coupled [] fs family hot c a = (hot, c)
  run-Coupled (s ∷ steps) fs family hot c a =
      let (hot', c') = step-Coupled fs family hot s c a.0 in
      run-Coupled steps (kept fs (apply family fs s)) family hot' c' a.1

  -- From the pair of a family that is empty, whatever steps of addresses of the family are applied and
  -- whichever are refused, an address of the family has a record exactly if the trie holds it HOT.
  pub contains-run :
      (family : AddressFamily) (steps : List Step) (v : ℕ)
      → AllInRange (bit_length family) steps
      → v < 2 ^ bit_length family
      → hot_trie.contains (run family (fresh hot_trie laws family) steps).trie (at family v)
        ≡ ok (is_recorded (run family (fresh hot_trie laws family) steps).records (at family v))
  contains-run family steps v a fits =
      let (hot, c) =
        run-Coupled steps (fresh hot_trie laws family) family []
          (fresh-Coupled hot_trie laws family) a in
      let fs = run family (fresh hot_trie laws family) steps in
      let raw = laws.contains_lem fs.trie hot v c.holds (rw c.trie_family fits) in
      let held : hot_trie.contains fs.trie (at family v) ≡ ok (mem v hot) =
        rw c.trie_family at raw in
      held ∙ ap ok (sym (c.matches v))
