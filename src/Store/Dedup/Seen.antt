-- ===== src/Store/Dedup/Seen.antt =====
-- What a sequence window says it has seen, after one call and after a history of calls.
use hammertime.Base.{
  ℕ, zero, suc, ◌≤◌, ◌<◌, ◌≡◌, refl, true, false, ◌||◌, List, [], ◌∷◌, ltb, ◌==◌, Bool-cases, inl,
  inr, length, mem, without, smallest, mem-without, length-without-le, length-without-lt,
  mem-smallest, arith,
}
use hammertime.Store.Dedup.{
  SequenceWindow, contains, fold_run, fold_contiguous_run, discard_smallest, bound_out_of_order_set,
  add, out_of_order_count,
}

-- Folding the run changes the representation, not what has been seen.
fold_run-seen :
    (fuel next : ℕ) (ahead : List ℕ) (t : ℕ)
    → (ltb t (fold_run fuel next ahead).0 || mem t (fold_run fuel next ahead).1)
      ≡ (ltb t next || mem t ahead)
unfolding fold_run
fold_run-seen zero next ahead t = refl
fold_run-seen (suc fuel) next ahead t = elim (Bool-cases (mem next ahead)) [
  | inl e ↦
      ground
        (arith, e, fold_run-seen fuel (suc next) (without next ahead) t, mem-without t next ahead)
  | inr e ↦ ground (arith, e)
]

-- The fuel is enough: the loop ends because the next sequence is not in the set.
pub fold_run_done :
    (fuel next : ℕ) (ahead : List ℕ)
    → length ahead ≤ fuel
    → mem (fold_run fuel next ahead).0 (fold_run fuel next ahead).1 ≡ false
unfolding fold_run
fold_run_done zero next [] h = refl
fold_run_done zero next (s ∷ ahead) h = absurd (omega arith)
fold_run_done (suc fuel) next ahead h = elim (Bool-cases (mem next ahead)) [
  | inl e ↦ ground (
    arith,
    e,
    fold_run_done fuel (suc next) (without next ahead)
        (omega (arith, length-without-lt next ahead e)),
  )
  | inr e ↦ ground (arith, e)
]

pub fold_run-length :
    (fuel next : ℕ) (ahead : List ℕ) → length (fold_run fuel next ahead).1 ≤ length ahead
unfolding fold_run
fold_run-length zero next ahead = omega arith
fold_run-length (suc fuel) next ahead =
    ground
      (arith, fold_run-length fuel (suc next) (without next ahead), length-without-le next ahead)

pub discard-length :
    (ahead : List ℕ) → 0 < length ahead → length (discard_smallest ahead) < length ahead
unfolding discard_smallest
discard-length [] h = elim h [ ]
discard-length (s ∷ ahead) h =
    length-without-lt (smallest s ahead) (s ∷ ahead) (mem-smallest s ahead)

pub discard-seen :
    (ahead : List ℕ) (t : ℕ) → mem t (discard_smallest ahead) ≡ true → mem t ahead ≡ true
unfolding discard_smallest
discard-seen [] t h = h
discard-seen (s ∷ ahead) t h = ground (arith, mem-without t (smallest s ahead) (s ∷ ahead))

-- No more sequences are held than the bound, whatever is added.
abbrev pub IsBounded : SequenceWindow → Type 0
IsBounded w = out_of_order_count w ≤ w.max_out_of_order

pub add-IsBounded : (w : SequenceWindow) (s : ℕ) → IsBounded w → IsBounded (add w s)
unfolding add out_of_order_count fold_contiguous_run bound_out_of_order_set
add-IsBounded w s h = ground (
  arith,
  fold_run-length (length w.ahead) (suc s) w.ahead,
  fold_run-length (length w.ahead) (suc w.confirmed) w.ahead,
  discard-length (s ∷ w.ahead),
)

-- A sequence is reported as seen only if it was before or is the one added.
pub add_sound :
    (w : SequenceWindow) (s t : ℕ) → contains (add w s) t ≡ true → (contains w t || s == t) ≡ true
unfolding add contains fold_contiguous_run bound_out_of_order_set
add_sound w s t h =
    ground (arith, fold_run-seen (length w.ahead) (suc s) w.ahead t, discard-seen (s ∷ w.ahead) t)

-- While the set has room, adding a sequence adds exactly that sequence.
pub add-contains :
    (w : SequenceWindow) (s t : ℕ)
    → out_of_order_count w < w.max_out_of_order
    → contains (add w s) t ≡ (contains w t || s == t)
unfolding add contains out_of_order_count fold_contiguous_run bound_out_of_order_set
add-contains w s t h = ground (arith, fold_run-seen (length w.ahead) (suc s) w.ahead t)
