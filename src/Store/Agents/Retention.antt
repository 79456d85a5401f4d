-- ===== src/Store/Agents/Retention.antt =====
-- store/memory.py, how long `MemoryDedupStore` remembers a sequence.
use hammertime.Base.{
  ℕ, ◌+◌, ◌≤◌, ◌<◌, ◌≡◌, refl, ap, ◌∙◌, true, not, Option, none, some, List, [], ◌∷◌, ltb, leb,
  ==_iff, ==_refl, Option-cases, Bool-cases, inl, inr, arith,
}
use hammertime.Base.Dict.{lookup, nat_key, lookup-put, lookup-erase, lookup_last}
use hammertime.Store.Dedup.{
  SequenceWindow, empty, contains, add, default_max_out_of_order, out_of_order_count,
}
use hammertime.Store.Dedup.Seen.{add-contains}
use hammertime.Store.Agents.{
  DedupStore, drop_expired, sweep_heap, sweep, evict_if_full, has_seen, extend, write_window,
  mark_seen, claim,
}

-- A dropped entry is never that of an agent whose expiry is later.
drop-keeps :
    (store : DedupStore) (entry : ℕ × ℕ) (a t now : ℕ)
    → lookup a store.expires_at ≡ some t
    → entry.0 ≤ now
    → now < t
    → (lookup a (drop_expired store entry).windows ≡ lookup a store.windows)
      × (lookup a (drop_expired store entry).expires_at ≡ some t)
unfolding drop_expired
drop-keeps store (e, b) a t now h le lt = (
  ground (arith, lookup-erase b a store.windows, ==_iff b a),
  ground (arith, lookup-erase b a store.expires_at, ==_iff b a),
)

sweep_heap-keeps :
    (store : DedupStore) (now : ℕ) (heap : List (ℕ × ℕ)) (a t : ℕ)
    → lookup a store.expires_at ≡ some t
    → now < t
    → (lookup a (sweep_heap store now heap).windows ≡ lookup a store.windows)
      × (lookup a (sweep_heap store now heap).expires_at ≡ some t)
unfolding sweep_heap
sweep_heap-keeps store now [] a t h lt = (refl, h)
sweep_heap-keeps store now (entry ∷ heap) a t h lt = elim (Bool-cases (leb entry.0 now)) [
  | inl e ↦
      let kept = drop-keeps store entry a t now h (ground (arith, e)) lt in
      let rest = sweep_heap-keeps (drop_expired store entry) now heap a t kept.1 lt in
      rw e (rest.0 ∙ kept.0, rest.1)
  | inr e ↦ rw e (refl, h)
]

abbrev pub window_or : Option SequenceWindow → SequenceWindow
window_or none = empty default_max_out_of_order
window_or (some w) = w

pub write-lookup :
    (store : DedupStore) (a s : ℕ)
    → lookup a (write_window store a s).windows ≡ some (add (window_or (lookup a store.windows)) s)
unfolding write_window
write-lookup store a s = elim (Option-cases (lookup a store.windows)) [
  | inl e ↦ ground (
    arith,
    e,
    lookup-put a a (add (empty default_max_out_of_order) s) (evict_if_full store).windows,
    ==_refl a,
  )
  | inr (w, e) ↦ ground (arith, e, lookup_last a (add w s) store.windows)
]

pub extend-windows : (store : DedupStore) (a t : ℕ) → (extend store a t).windows ≡ store.windows
unfolding extend
extend-windows store a t = elim (Option-cases (lookup a store.expires_at)) [
  | inl e ↦ ground (arith, e)
  | inr (current, e) ↦ ground (arith, e)
]

-- The expiry is at least what was asked for.
pub extend-expiry :
    (store : DedupStore) (a e : ℕ)
    → (t : ℕ) × (lookup a (extend store a e).expires_at ≡ some t) × (e ≤ t)
unfolding extend
extend-expiry store a e = elim (Option-cases (lookup a store.expires_at)) [
  | inl h ↦ (e, ground (arith, h, lookup-put a a e store.expires_at, ==_refl a), omega arith)
  | inr (t, h) ↦ elim (Bool-cases (ltb t e)) [
    | inl g ↦ (e, ground (arith, h, g, lookup-put a a e store.expires_at, ==_refl a), omega arith)
    | inr g ↦ (t, ground (arith, h, g), ground (arith, g))
  ]
]

-- What the store holds of an agent after `mark_seen`.
pub mark-lookup :
    (store : DedupStore) (a s ttl now : ℕ)
    → lookup a (mark_seen store a s ttl now).windows
      ≡ some (add (window_or (lookup a (sweep store now).windows)) s)
unfolding mark_seen
mark-lookup store a s ttl now =
    ap (lookup a) (extend-windows (write_window (sweep store now) a s) a (now + ttl))
    ∙ write-lookup (sweep store now) a s

-- `has_seen` asks the window that the sweep leaves.
pub has_seen-eq :
    (store : DedupStore) (a s now : ℕ) (w : SequenceWindow)
    → lookup a (sweep store now).windows ≡ some w
    → (has_seen store a s now).1 ≡ contains w s
unfolding has_seen
has_seen-eq store a s now w h = ground (arith, h)

-- The agent's window has room for one more sequence ahead of a gap.
abbrev pub HasRoom : Option SequenceWindow → Type 0
HasRoom none = Unit
HasRoom (some w) = out_of_order_count w < w.max_out_of_order

pub window_or-contains :
    (o : Option SequenceWindow) (s : ℕ) → HasRoom o → contains (add (window_or o) s) s ≡ true
unfolding out_of_order_count
window_or-contains none s h =
    ground (arith, add-contains (empty default_max_out_of_order) s s (omega arith), ==_refl s)
window_or-contains (some w) s h = ground (arith, add-contains w s s h, ==_refl s)

pub marked-expiry :
    (store : DedupStore) (a s ttl now : ℕ)
    → (t : ℕ) × (lookup a (mark_seen store a s ttl now).expires_at ≡ some t) × (now + ttl ≤ t)
unfolding mark_seen
marked-expiry store a s ttl now = extend-expiry (write_window (sweep store now) a s) a (now + ttl)

pub sweep-keeps :
    (store : DedupStore) (now a t : ℕ)
    → lookup a store.expires_at ≡ some t
    → now < t
    → lookup a (sweep store now).windows ≡ lookup a store.windows
unfolding sweep
sweep-keeps store now a t h lt = (sweep_heap-keeps store now store.expiry_heap a t h lt).0

-- A sequence that was marked at `now` is reported as seen until `now + ttl`.
pub mark-seen :
    (store : DedupStore) (a s ttl now later : ℕ)
    → HasRoom (lookup a (sweep store now).windows)
    → later < now + ttl
    → (has_seen (mark_seen store a s ttl now) a s later).1 ≡ true
mark-seen store a s ttl now later room h =
    let marked = mark_seen store a s ttl now in
    let (t, expiry, le) = marked-expiry store a s ttl now in
    let window = lookup a (sweep store now).windows in
    has_seen-eq marked a s later (add (window_or window) s)
      (sweep-keeps marked later a t expiry (omega arith) ∙ mark-lookup store a s ttl now)
    ∙ window_or-contains window s room

-- `claim` asks and marks in one step: it answers `true` exactly if the sequence had not been seen.
pub claim-answer :
    (store : DedupStore) (a s ttl now : ℕ)
    → (claim store a s ttl now).1 ≡ not (has_seen store a s now).1
unfolding claim
claim-answer store a s ttl now = ground arith

pub claim-marks :
    (store : DedupStore) (a s ttl now : ℕ)
    → (claim store a s ttl now).1 ≡ true
    → (claim store a s ttl now).0 ≡ mark_seen (has_seen store a s now).0 a s ttl now
unfolding claim
claim-marks store a s ttl now h = ground arith
