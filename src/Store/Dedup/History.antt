-- ===== src/Store/Dedup/History.antt =====
-- A sequence window after any history of calls of `add`, against the plain set of what was added.
use hammertime.Base.{
  ℕ, suc, ◌+◌, ◌≤◌, ◌≡◌, refl, true, false, ◌||◌, List, [], ◌∷◌, length, mem, arith,
}
use hammertime.Store.Dedup.{
  SequenceWindow, empty, contains, fold_contiguous_run, discard_smallest, bound_out_of_order_set,
  add, out_of_order_count,
}
use hammertime.Store.Dedup.Seen.{
  fold_run-length, fold_run_done, discard-length, discard-seen, IsBounded, add-IsBounded, add_sound,
  add-contains,
}

abbrev pub add_all : SequenceWindow → List ℕ → SequenceWindow
add_all w [] = w
add_all w (s ∷ sequences) = add_all (add w s) sequences

-- The set holds no sequence that the mark could be advanced to, and no more than the bound.
abbrev pub IsValid : SequenceWindow → Type 0
IsValid w = IsBounded w × (mem w.confirmed w.ahead ≡ false)

add-max : (w : SequenceWindow) (s : ℕ) → (add w s).max_out_of_order ≡ w.max_out_of_order
unfolding add fold_contiguous_run bound_out_of_order_set
add-max w s = ground arith

add-count : (w : SequenceWindow) (s : ℕ) → out_of_order_count (add w s) ≤ suc (out_of_order_count w)
unfolding add out_of_order_count fold_contiguous_run bound_out_of_order_set
add-count w s =
    ground (arith, fold_run-length (length w.ahead) (suc s) w.ahead, discard-length (s ∷ w.ahead))

discard-absent :
    (ahead : List ℕ) (t : ℕ) → mem t ahead ≡ false → mem t (discard_smallest ahead) ≡ false
discard-absent ahead t h = ground (arith, discard-seen ahead t)

add-folded :
    (w : SequenceWindow) (s : ℕ)
    → mem w.confirmed w.ahead ≡ false
    → mem (add w s).confirmed (add w s).ahead ≡ false
unfolding add fold_contiguous_run bound_out_of_order_set
add-folded w s h = ground (
  arith,
  fold_run_done (length w.ahead) (suc s) w.ahead (omega arith),
  discard-absent (s ∷ w.ahead) w.confirmed,
)

-- Every call of `add` keeps the window valid.
pub add-IsValid : (w : SequenceWindow) (s : ℕ) → IsValid w → IsValid (add w s)
add-IsValid w s h = (add-IsBounded w s h.0, add-folded w s h.1)

contains-empty : (max_out_of_order t : ℕ) → contains (empty max_out_of_order) t ≡ false
unfolding contains
contains-empty max_out_of_order t = ground arith

add_all_sound_from :
    (w : SequenceWindow) (sequences : List ℕ) (t : ℕ)
    → contains (add_all w sequences) t ≡ true
    → (contains w t || mem t sequences) ≡ true
add_all_sound_from w [] t h = ground arith
add_all_sound_from w (s ∷ sequences) t h =
    ground (arith, add_all_sound_from (add w s) sequences t h, add_sound w s t)

-- No false duplicates: whatever the bound, a sequence is reported as seen only if it was added.
pub add_all_sound :
    (max_out_of_order : ℕ) (sequences : List ℕ) (t : ℕ)
    → contains (add_all (empty max_out_of_order) sequences) t ≡ true
    → mem t sequences ≡ true
add_all_sound max_out_of_order sequences t h = ground (
  arith,
  add_all_sound_from (empty max_out_of_order) sequences t h,
  contains-empty max_out_of_order t,
)

add_all-contains_from :
    (w : SequenceWindow) (sequences : List ℕ) (t : ℕ)
    → out_of_order_count w + length sequences ≤ w.max_out_of_order
    → contains (add_all w sequences) t ≡ (contains w t || mem t sequences)
add_all-contains_from w [] t h = ground arith
add_all-contains_from w (s ∷ sequences) t h = ground (
  arith,
  add_all-contains_from (add w s) sequences t (omega (arith, add-count w s, add-max w s)),
  add-contains w s t (omega arith),
)

count-empty : (max_out_of_order : ℕ) → out_of_order_count (empty max_out_of_order) ≡ 0
unfolding out_of_order_count
count-empty max_out_of_order = refl

-- After any history of at most `max_out_of_order` calls, in any order and with repetitions, the
-- window reports as seen exactly the sequences that were added.
pub add_all-contains :
    (max_out_of_order : ℕ) (sequences : List ℕ) (t : ℕ)
    → length sequences ≤ max_out_of_order
    → contains (add_all (empty max_out_of_order) sequences) t ≡ mem t sequences
add_all-contains max_out_of_order sequences t h = ground (
  arith,
  add_all-contains_from (empty max_out_of_order) sequences t
      (omega (arith, count-empty max_out_of_order)),
  contains-empty max_out_of_order t,
)
