-- ===== src/Aggregator/Window/Hot.antt =====
-- aggregator/window/store.py, what the sweeps do to the entry of a HOT address.
use hammertime.Base.{
  ℕ, zero, suc, ◌+◌, ◌*◌, ◌≡◌, refl, ap, ◌∙◌, false, Option, none, some, List, [], ◌∷◌, ltb, ◌==◌,
  Bool-cases, inl, inr, length, arith,
}
use hammertime.Base.Dict.{lookup, lookup-erase}
use hammertime.Core.Address.{Address}
use hammertime.Core.Address.Same.{address_key, same_address, same_address_iff}
use hammertime.Core.State.{hot, is}
use hammertime.Aggregator.Window.{Entry, Item, ShardWindow, push_all}
use hammertime.Aggregator.Window.Changes.{
  Round, stop, go, defer, found, forget, renew, settle, drop, capacity_item, capacity_round,
  capacity_step, capacity_loop, evict_victim, evict_for_capacity,
}
use hammertime.Aggregator.Window.Sweeps.{
  evict_item, evict_found, evict_round, evict_step, evict_loop, evict_due,
}

-- A round changes no entry, and what it finds is not the HOT address.
abbrev Keeps : ShardWindow → Address → Round → Type 0
Keeps w ip stop = Unit
Keeps w ip (go w') = w'.entries ≡ w.entries
Keeps w ip (defer w' item) = w'.entries ≡ w.entries
Keeps w ip (found w' victim) = (w'.entries ≡ w.entries) × (same_address victim ip ≡ false)

settle-Keeps :
    (w : ShardWindow) (item : Item) (e entry : Entry) (heap : List Item) (ip : Address)
    → lookup item.ip w.entries ≡ some e
    → lookup ip w.entries ≡ some entry
    → entry.state ≡ hot
    → Keeps w ip (settle w item e heap)
unfolding settle
settle-Keeps w item e entry heap ip h h' is_hot = elim (Bool-cases (is e.state hot)) [
  | inl b ↦ rw b refl
  | inr b ↦ rw b (refl, ground (arith, same_address_iff item.ip ip, b, h, h', is_hot))
]

module _ (w : ShardWindow) (ip : Address) (entry : Entry) (h : lookup ip w.entries ≡ some entry)
    (is_hot : entry.state ≡ hot) where
  capacity_item-Keeps :
      (item : Item) (heap : List Item) (o : Option Entry)
      → lookup item.ip w.entries ≡ o
      → Keeps w ip (capacity_item w item heap o)
  unfolding capacity_item forget renew
  capacity_item-Keeps item heap none e = refl
  capacity_item-Keeps item heap (some found_entry) e =
      elim (Bool-cases (item.key == found_entry.last_seen)) [
        | inl b ↦ rw b (settle-Keeps w item found_entry entry heap ip e h is_hot)
        | inr b ↦ rw b refl
      ]

  evict_item-Keeps :
      (item : Item) (heap : List Item) (o : Option Entry) (now : ℕ)
      → lookup item.ip w.entries ≡ o
      → Keeps w ip (evict_item w item heap o now)
  unfolding evict_item forget renew
  evict_item-Keeps item heap none now e = refl
  evict_item-Keeps item heap (some found_entry) now e =
      elim (Bool-cases (item.key == found_entry.last_seen)) [
        | inl b ↦ rw b (elim (Bool-cases (ltb now (item.key + w.config.state_retention_seconds))) [
          | inl c ↦ rw c tt
          | inr c ↦ rw c (settle-Keeps w item found_entry entry heap ip e h is_hot)
        ])
        | inr b ↦ rw b refl
      ]

  capacity_round-Keeps : (heap : List Item) → Keeps w ip (capacity_round w heap)
  unfolding capacity_round
  capacity_round-Keeps [] = tt
  capacity_round-Keeps (item ∷ heap) = capacity_item-Keeps item heap (lookup item.ip w.entries) refl

  evict_round-Keeps : (heap : List Item) (now : ℕ) → Keeps w ip (evict_round w heap now)
  unfolding evict_round
  evict_round-Keeps [] now = tt
  evict_round-Keeps (item ∷ heap) now =
      evict_item-Keeps item heap (lookup item.ip w.entries) now refl

drop-lookup :
    (w : ShardWindow) (victim ip : Address)
    → same_address victim ip ≡ false
    → lookup ip (drop w victim).entries ≡ lookup ip w.entries
unfolding drop
drop-lookup w victim ip h = ground (arith, h, lookup-erase victim ip w.entries)

module _ (ip : Address) (entry : Entry) (is_hot : entry.state ≡ hot) where
  Holds : ShardWindow → Type 0
  Holds w = lookup ip w.entries ≡ some entry

  evict_step-Keeps :
      (w : ShardWindow) (rest : ShardWindow → ShardWindow × ℕ × List Item) (r : Round)
      → Holds w
      → Keeps w ip r
      → ((w' : ShardWindow) → Holds w' → Holds (rest w').0)
      → Holds (evict_step w rest r).0
  unfolding evict_step evict_found Holds
  evict_step-Keeps w rest stop h k next = h
  evict_step-Keeps w rest (go w') h k next = next w' (ap (lookup ip) k ∙ h)
  evict_step-Keeps w rest (defer w' item) h k next = next w' (ap (lookup ip) k ∙ h)
  evict_step-Keeps w rest (found w' victim) h k next =
      next (evict_found w' victim) (drop-lookup w' victim ip k.1 ∙ ap (lookup ip) k.0 ∙ h)

  evict_loop-keeps :
      (fuel : ℕ) (w : ShardWindow) (now : ℕ) → Holds w → Holds (evict_loop fuel w now).0
  unfolding evict_loop Holds
  evict_loop-keeps zero w now h = h
  evict_loop-keeps (suc fuel) w now h =
      evict_step-Keeps w (λ w'. evict_loop fuel w' now) (evict_round w w.last_seen_heap now) h
        (evict_round-Keeps w ip entry h is_hot w.last_seen_heap now)
        (λ w' h'. evict_loop-keeps fuel w' now h')

  -- Retention: the entry of a HOT address survives every sweep as it was.
  pub evict_due_keeps_hot :
      (w : ShardWindow) (now : ℕ)
      → lookup ip w.entries ≡ some entry
      → lookup ip (evict_due w now).0.entries ≡ some entry
  unfolding evict_due Holds
  evict_due_keeps_hot w now h = evict_loop-keeps (2 * length w.last_seen_heap) w now h

  -- The victim of the capacity loop is not the HOT address.
  Spares : ShardWindow × List Item × Option Address → Type 0
  unfolding Holds
  Spares (w, deferred, none) = Holds w
  Spares (w, deferred, some victim) = Holds w × (same_address victim ip ≡ false)

  defer-Spares :
      (item : Item) (p : ShardWindow × List Item × Option Address)
      → Spares p
      → Spares (p.0, item ∷ p.1, p.2)
  unfolding Spares
  defer-Spares item (v, deferred, none) s = s
  defer-Spares item (v, deferred, some victim) s = s

  capacity_step-Spares :
      (w : ShardWindow) (rest : ShardWindow → ShardWindow × List Item × Option Address) (r : Round)
      → Holds w
      → Keeps w ip r
      → ((w' : ShardWindow) → Holds w' → Spares (rest w'))
      → Spares (capacity_step w rest r)
  unfolding capacity_step Holds Spares
  capacity_step-Spares w rest stop h k next = h
  capacity_step-Spares w rest (go w') h k next = next w' (ap (lookup ip) k ∙ h)
  capacity_step-Spares w rest (defer w' item) h k next =
      defer-Spares item (rest w') (next w' (ap (lookup ip) k ∙ h))
  capacity_step-Spares w rest (found w' victim) h k next = (ap (lookup ip) k.0 ∙ h, k.1)

  capacity_loop-Spares : (fuel : ℕ) (w : ShardWindow) → Holds w → Spares (capacity_loop fuel w)
  unfolding capacity_loop Holds Spares
  capacity_loop-Spares zero w h = h
  capacity_loop-Spares (suc fuel) w h =
      capacity_step-Spares w (capacity_loop fuel) (capacity_round w w.last_seen_heap) h
        (capacity_round-Keeps w ip entry h is_hot w.last_seen_heap) (capacity_loop-Spares fuel)

  evicted_keeps :
      (w : ShardWindow) (victim : Option Address)
      → Spares (w, [], victim)
      → lookup ip (evict_victim w victim).entries ≡ some entry
  unfolding Spares Holds evict_victim
  evicted_keeps w none s = s
  evicted_keeps w (some victim) s = drop-lookup w victim ip s.1 ∙ s.0

  Spares-drop :
      (p : ShardWindow × List Item × Option Address)
      → Spares p
      → Spares (record p.0 { last_seen_heap = push_all p.1 p.0.last_seen_heap }, [], p.2)
  unfolding Spares Holds
  Spares-drop (v, deferred, none) s = s
  Spares-drop (v, deferred, some victim) s = s

  -- Capacity: making room for a new address never costs a HOT one its entry.
  pub evict_for_capacity_keeps_hot :
      (w : ShardWindow)
      → lookup ip w.entries ≡ some entry
      → lookup ip (evict_for_capacity w).entries ≡ some entry
  unfolding evict_for_capacity Holds
  evict_for_capacity_keeps_hot w h = elim (Bool-cases (ltb (length w.entries) w.max_tracked_ips)) [
    | inl e ↦ rw e h
    | inr e ↦ rw e (
        evicted_keeps _ _ (
          Spares-drop (capacity_loop (2 * length w.last_seen_heap) w)
            (capacity_loop-Spares (2 * length w.last_seen_heap) w h)))
  ]
