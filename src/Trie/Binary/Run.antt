-- ===== src/Trie/Binary/Run.antt =====
-- binary_trie.py: any sequence of mutations, from the empty trie.
use hammertime.Base.{
  ℕ, ◌^◌, ◌≤◌, ◌<◌, ◌≡◌, refl, ◌∙◌, Bool, not, List, [], ◌∷◌, Result, ok, arith, ◌>>=◌,
}
use hammertime.Core.Address.{AddressFamily, Address, bit_length}
use hammertime.Core.Prefix.{Prefix}
use hammertime.Trie.HotSet.{HotSet, mem, without, insert, at, count_in}
use hammertime.Trie.Binary.{BinaryTrie, new, add_hot_ip, remove_hot_ip, hot_count}
use hammertime.Trie.Binary.Refine.{
  Refines, new-Refines, add_hot_ip-Refines, remove_hot_ip-Refines, counted_prefix,
}

-- A mutation of a trie: `HotIpAdded` and `HotIpRemoved` of the log become these.
pub data Change : Type 0 where
  add : ℕ → Change
  remove : ℕ → Change

abbrev pub value_of : Change → ℕ
value_of (add v) = v
value_of (remove v) = v

abbrev pub apply : BinaryTrie → Change → Result (BinaryTrie × Bool)
apply trie (add v) = add_hot_ip trie (at trie.family v)
apply trie (remove v) = remove_hot_ip trie (at trie.family v)

-- What the change does to the set, and whether it does anything.
abbrev pub change_set : HotSet → Change → HotSet
change_set hot (add v) = insert v hot
change_set hot (remove v) = without v hot

abbrev pub changes : HotSet → Change → Bool
changes hot (add v) = not (mem v hot)
changes hot (remove v) = mem v hot

-- The changes one after another, with what each returned.
pub run : BinaryTrie → List Change → Result (BinaryTrie × List Bool)
run trie [] = ok (trie, [])
run trie (c ∷ cs) = do
  (next, changed) ← apply trie c
  (last, rest) ← run next cs
  ok (last, changed ∷ rest)

abbrev pub run_set : HotSet → List Change → HotSet
run_set hot [] = hot
run_set hot (c ∷ cs) = run_set (change_set hot c) cs

abbrev pub run_changes : HotSet → List Change → List Bool
run_changes hot [] = []
run_changes hot (c ∷ cs) = changes hot c ∷ run_changes (change_set hot c) cs

abbrev pub AllInRange : ℕ → List Change → Type 0
AllInRange width [] = Unit
AllInRange width (c ∷ cs) = (value_of c < 2 ^ width) × AllInRange width cs

pub family-add_hot_ip :
    (trie trie' : BinaryTrie) (a : Address) (b : Bool)
    → add_hot_ip trie a ≡ ok (trie', b)
    → trie'.family ≡ trie.family
unfolding add_hot_ip
family-add_hot_ip trie trie' a b e = ground arith

pub family-remove_hot_ip :
    (trie trie' : BinaryTrie) (a : Address) (b : Bool)
    → remove_hot_ip trie a ≡ ok (trie', b)
    → trie'.family ≡ trie.family
unfolding remove_hot_ip
family-remove_hot_ip trie trie' a b e = ground arith

apply-Refines :
    (trie : BinaryTrie) (hot : HotSet) (c : Change)
    → Refines trie hot
    → value_of c < 2 ^ bit_length trie.family
    → (trie' : BinaryTrie) × (apply trie c ≡ ok (trie', changes hot c))
      × Refines trie' (change_set hot c)
      × (trie'.family ≡ trie.family)
apply-Refines trie hot (add v) r fits =
    let (trie', e, r') = add_hot_ip-Refines trie hot r v fits in
    (trie', e, r', family-add_hot_ip trie trie' _ _ e)
apply-Refines trie hot (remove v) r fits =
    let (trie', e, r') = remove_hot_ip-Refines trie hot r v fits in
    (trie', e, r', family-remove_hot_ip trie trie' _ _ e)

run_from :
    (cs : List Change) (trie : BinaryTrie) (hot : HotSet) (family : AddressFamily)
    → Refines trie hot
    → trie.family ≡ family
    → AllInRange (bit_length family) cs
    → (trie' : BinaryTrie) × (run trie cs ≡ ok (trie', run_changes hot cs))
      × Refines trie' (run_set hot cs)
      × (trie'.family ≡ family)
unfolding run
run_from [] trie hot family r f a = (trie, refl, r, f)
run_from (c ∷ cs) trie hot family r f a =
    let (next, e, r', f') = apply-Refines trie hot c r (rw f a.0) in
    let (last, e', r'', f'') = run_from cs next (change_set hot c) family r' (f' ∙ f) a.1 in
    (last, rw (e, e'), r'', f'')

-- From the empty trie of a family, any sequence of additions and removals of addresses of the family
-- succeeds, each returns exactly whether it changed the HOT set, and the trie that results stands
-- for the set that the sequence leaves: its nodes are shaped, counted and pruned, and `node_count`
-- is their number.
pub run-new :
    (family : AddressFamily) (cs : List Change)
    → AllInRange (bit_length family) cs
    → (trie : BinaryTrie) × (run (new family) cs ≡ ok (trie, run_changes [] cs))
      × Refines trie (run_set [] cs)
      × (trie.family ≡ family)
unfolding new
run-new family cs a = run_from cs (new family) [] family (new-Refines family) refl a

-- After any such sequence, `hot_count` of every valid prefix of the family is the number of
-- currently HOT addresses that the prefix contains.
pub hot_count-run :
    (family : AddressFamily) (cs : List Change) (prefix : Prefix) (trie : BinaryTrie)
    (returned : List Bool)
    → AllInRange (bit_length family) cs
    → run (new family) cs ≡ ok (trie, returned)
    → prefix.family ≡ family
    → prefix.length ≤ bit_length prefix.family
    → prefix.network < 2 ^ bit_length prefix.family
    → hot_count trie prefix ≡ ok (count_in family prefix (run_set [] cs))
hot_count-run family cs prefix trie returned a e f hl hn =
    let (trie', e', r, g) = run-new family cs a in
    let same : trie' ≡ trie = cc (e, e') in
    rw (← same) (counted_prefix trie' (run_set [] cs) family prefix r g f hl hn)
