-- ===== src/Trie/Tests.antt =====
-- Runs of services/trie at concrete inputs, and its theorems at some of them.
mod Metadata
mod Worker
use hammertime.Base.{◌≡◌, refl, true, false, List, [], ◌∷◌, ok, arith}
use hammertime.Base.{ℕ, none, Ascends, if◌then◌else◌}
use hammertime.Base.Int.{pos, negsuc, pos_part}
use hammertime.Core.Config.{defaults}
use hammertime.Trie.State.{TrieState, event_sequence}
use hammertime.Trie.State.Position.{
  Note, handled, applied, passed, taken, taken-Ascends, note_all, newest, applied_times,
  note_all-as_of,
}
use hammertime.Core.Address.{bits}
use hammertime.Trie.Binary.{check_family}
use hammertime.Trie.Binary.Queries.{
  longest_matching_prefix, matched, last_positive, counts_along, longest-last_positive,
}
use hammertime.Trie.Arena.{NodeArena, empty, allocate, is_live, reuse, grow}
use hammertime.Trie.Arena.Free
use hammertime.Trie.Arena.Free.{
  after_allocate, after_release, empty-IsValid, allocate-IsValid, release-IsValid,
}
use hammertime.Core.Address.{ipv4, bit_length}
use hammertime.Core.Prefix.{Prefix}
use hammertime.Trie.HotSet.{count_in}
use hammertime.Trie.Binary.{BinaryTrie, new, hot_count}
use hammertime.Trie.Binary.Refine.{Refines}
use hammertime.Trie.Binary.Run.{
  Change, add, remove, run, run_set, run_changes, AllInRange, run-new, hot_count-run,
}

-- 10.0.0.1 and 10.0.0.2 become HOT, the first twice, and 10.0.0.1 becomes COLD.
abbrev log : List Change
log = add 167772161 ∷ add 167772162 ∷ add 167772161 ∷ remove 167772161 ∷ []

log_in_range : AllInRange (bit_length ipv4) log
unfolding bit_length
log_in_range = omega arith

-- 10.0.0.0/24
abbrev network : Prefix
network = record { family = ipv4; network = 167772160; length = 24 }

run-new_example :
    (trie : BinaryTrie) × (run (new ipv4) log ≡ ok (trie, true ∷ true ∷ false ∷ true ∷ []))
    × Refines trie (167772162 ∷ [])
    × (trie.family ≡ ipv4)
run-new_example = run-new ipv4 log log_in_range

hot_count-run_example :
    hot_count run-new_example.0 network ≡ ok (count_in ipv4 network (run_set [] log))
hot_count-run_example =
    hot_count-run ipv4 log network run-new_example.0 (run_changes [] log) log_in_range
      run-new_example.1 refl (unfold bit_length in omega arith) (unfold bit_length in omega arith)

-- The position after a record that is applied, one that is handled again, and one that is passed.
abbrev state : TrieState ℕ
state = record { families = []; config = defaults; position = none; as_of = none }

abbrev notes : List Note
notes =
    applied (pos 4) (record { epoch = 1000; is_aware = true })
    ∷ handled (pos 4)
    ∷ applied (pos 6) (record { epoch = 900; is_aware = true })
    ∷ passed (negsuc 0)
    ∷ []

taken-Ascends_example : Ascends (event_sequence state) (taken state notes)
taken-Ascends_example = taken-Ascends state notes

-- An arena of one node, whose id 0 is released.
abbrev one_node : NodeArena
one_node = after_allocate empty (allocate empty 167772161 (pos 32) 1)

one_node-IsValid : Free.IsValid one_node
one_node-IsValid = allocate-IsValid empty 167772161 (pos 32) 1 empty-IsValid

release-IsValid_example :
    Free.IsValid (after_release one_node (pos 0))
    × (is_live (after_release one_node (pos 0)) (pos 0) ≡ false)
    × ((after_release one_node (pos 0)).free_ids ≡ (
        if is_live one_node (pos 0)
        then pos_part (pos 0) ∷ one_node.free_ids
        else one_node.free_ids))
release-IsValid_example = release-IsValid one_node (pos 0) one_node-IsValid

longest-last_positive_example :
    longest_matching_prefix run-new_example.0 (record { family = ipv4; value = 167772165 })
    ≡ ok (
        matched run-new_example.0.family 167772165 (
          last_positive 0
            (counts_along run-new_example.0.root
              (bits (record { family = ipv4; value = 167772165 })))
            none))
longest-last_positive_example =
    longest-last_positive run-new_example.0 (record { family = ipv4; value = 167772165 })
      (unfold check_family in ground (arith, run-new_example.3))
