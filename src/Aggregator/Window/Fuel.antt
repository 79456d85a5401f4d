-- ===== src/Aggregator/Window/Fuel.antt =====
-- aggregator/window/store.py, the fuel of the loop of `evict_due`.
use hammertime.Base.{
  ℕ, zero, suc, ◌+◌, ◌*◌, ◌≤◌, ◌<◌, ◌≡◌, refl, Option, none, some, List, [], ◌∷◌, ltb, ◌==◌,
  ==_refl, if◌then◌else◌, Bool-cases, Option-cases, inl, inr, length, arith,
}
use hammertime.Base.Dict.{lookup, erase, lookup-erase}
use hammertime.Core.Address.{Address}
use hammertime.Core.Address.Same.{address_key}
use hammertime.Core.State.{hot, is}
use hammertime.Aggregator.Window.{Entry, Item, ShardWindow, before, push}
use hammertime.Aggregator.Window.Changes.{
  Round, stop, go, defer, found, forget, renew, settle, drop,
}
use hammertime.Aggregator.Window.Sweeps.{
  evict_item, evict_found, evict_round, evict_step, evict_loop,
}

-- The rounds that an item still costs: one, and one more if it is behind its entry.
abbrev pub cost : Option Entry → ℕ → ℕ
cost none key = 1
cost (some entry) key = if key == entry.last_seen then 1 else 2

abbrev pub rounds : List (Address × Entry) → List Item → ℕ
rounds entries [] = 0
rounds entries (item ∷ heap) = cost (lookup item.ip entries) item.key + rounds entries heap

rounds-push :
    (entries : List (Address × Entry)) (item : Item) (heap : List Item)
    → rounds entries (push item heap) ≡ cost (lookup item.ip entries) item.key + rounds entries heap
unfolding push
rounds-push entries item [] = refl
rounds-push entries item (b ∷ heap) = elim (Bool-cases (before item b)) [
  | inl e ↦ ground (arith, e)
  | inr e ↦ ground (arith, e, rounds-push entries item heap)
]

cost-erase :
    (entries : List (Address × Entry)) (ip victim : Address) (key : ℕ)
    → cost (lookup ip (erase victim entries)) key ≤ cost (lookup ip entries) key
cost-erase entries ip victim key = elim (Option-cases (lookup ip entries)) [
  | inl e ↦ ground (arith, e, lookup-erase victim ip entries)
  | inr (entry, e) ↦ ground (arith, e, lookup-erase victim ip entries)
]

rounds-erase :
    (entries : List (Address × Entry)) (victim : Address) (heap : List Item)
    → rounds (erase victim entries) heap ≤ rounds entries heap
rounds-erase entries victim [] = omega arith
rounds-erase entries victim (item ∷ heap) =
    omega (arith, cost-erase entries item.ip victim item.key, rounds-erase entries victim heap)

pub rounds-le :
    (entries : List (Address × Entry)) (heap : List Item) → rounds entries heap ≤ 2 * length heap
rounds-le entries [] = omega arith
rounds-le entries (item ∷ heap) = elim (Option-cases (lookup item.ip entries)) [
  | inl e ↦ ground (arith, e, rounds-le entries heap)
  | inr (entry, e) ↦ ground (arith, e, rounds-le entries heap)
]

abbrev left_of : ShardWindow → ℕ
left_of w = rounds w.entries w.last_seen_heap

-- A round that does not end the loop leaves less to do.
abbrev Shrinks : ℕ → Round → Type 0
Shrinks n stop = Unit
Shrinks n (go w') = left_of w' < n
Shrinks n (defer w' item) = left_of w' < n
Shrinks n (found w' victim) = left_of w' < n

evict_item-Shrinks :
    (w : ShardWindow) (item : Item) (heap : List Item) (o : Option Entry) (now : ℕ)
    → lookup item.ip w.entries ≡ o
    → Shrinks (cost o item.key + rounds w.entries heap) (evict_item w item heap o now)
unfolding evict_item forget renew settle
evict_item-Shrinks w item heap none now e = omega arith
evict_item-Shrinks w item heap (some entry) now e =
    elim (Bool-cases (item.key == entry.last_seen)) [
      | inl b ↦ rw b (elim (Bool-cases (ltb now (item.key + w.config.state_retention_seconds))) [
        | inl c ↦ rw c tt
        | inr c ↦ rw c (elim (Bool-cases (is entry.state hot)) [
          | inl d ↦ rw d (omega arith)
          | inr d ↦ rw d (omega arith)
        ])
      ])
      | inr b ↦ rw b (
          ground (
            arith,
            e,
            rounds-push w.entries (record item { key = entry.last_seen }) heap,
            ==_refl entry.last_seen,
          ))
    ]

evict_round-Shrinks :
    (w : ShardWindow) (heap : List Item) (now : ℕ)
    → Shrinks (rounds w.entries heap) (evict_round w heap now)
unfolding evict_round
evict_round-Shrinks w [] now = tt
evict_round-Shrinks w (item ∷ heap) now =
    evict_item-Shrinks w item heap (lookup item.ip w.entries) now refl

evict_found-left : (w : ShardWindow) (victim : Address) → left_of (evict_found w victim) ≤ left_of w
unfolding evict_found drop
evict_found-left w victim = rounds-erase w.entries victim w.last_seen_heap

cost-positive : (o : Option Entry) (key : ℕ) → 0 < cost o key
cost-positive none key = omega arith
cost-positive (some entry) key = ground arith

rounds-empty :
    (entries : List (Address × Entry)) (heap : List Item) → rounds entries heap ≤ 0 → heap ≡ []
rounds-empty entries [] h = refl
rounds-empty entries (item ∷ heap) h =
    absurd (omega (arith, h, cost-positive (lookup item.ip entries) item.key))

-- The loop of `evict_due` as the source runs it, without fuel: from a window it ends with an outcome, the
-- window, how many were evicted and the items set aside.
pub data Ends (now : ℕ) : ShardWindow → ShardWindow × ℕ × List Item → Type 0 where
  stopped : (w : ShardWindow) → evict_round w w.last_seen_heap now ≡ stop → Ends now w (w, 0, [])
  went :
      (w w' : ShardWindow) (outcome : ShardWindow × ℕ × List Item)
      → evict_round w w.last_seen_heap now ≡ go w'
      → Ends now w' outcome
      → Ends now w outcome
  deferred :
      (w w' : ShardWindow) (item : Item) (outcome : ShardWindow × ℕ × List Item)
      → evict_round w w.last_seen_heap now ≡ defer w' item
      → Ends now w' outcome
      → Ends now w (outcome.0, outcome.1, item ∷ outcome.2)
  evicted :
      (w w' : ShardWindow) (victim : Address) (outcome : ShardWindow × ℕ × List Item)
      → evict_round w w.last_seen_heap now ≡ found w' victim
      → Ends now (evict_found w' victim) outcome
      → Ends now w (outcome.0, suc outcome.1, outcome.2)

evict_step-Ends :
    (w : ShardWindow) (now : ℕ) (rest : ShardWindow → ShardWindow × ℕ × List Item) (r : Round)
    → evict_round w w.last_seen_heap now ≡ r
    → Shrinks (left_of w) r
    → ((w' : ShardWindow) → left_of w' < left_of w → Ends now w' (rest w'))
    → Ends now w (evict_step w rest r)
unfolding evict_step
evict_step-Ends w now rest stop e s ends = stopped w e
evict_step-Ends w now rest (go w') e s ends = went w w' (rest w') e (ends w' s)
evict_step-Ends w now rest (defer w' item) e s ends = deferred w w' item (rest w') e (ends w' s)
evict_step-Ends w now rest (found w' victim) e s ends =
    let next = evict_found w' victim in
    evicted w w' victim (rest next) e (ends next (omega (arith, s, evict_found-left w' victim)))

empty_round :
    (w : ShardWindow) (now : ℕ) → w.last_seen_heap ≡ [] → evict_round w w.last_seen_heap now ≡ stop
unfolding evict_round
empty_round w now e = rw e refl

ended_by_fuel :
    (fuel : ℕ) (w : ShardWindow) (now : ℕ) → left_of w ≤ fuel → Ends now w (evict_loop fuel w now)
unfolding evict_loop
ended_by_fuel zero w now h =
    stopped w (empty_round w now (rounds-empty w.entries w.last_seen_heap h))
ended_by_fuel (suc fuel) w now h =
    evict_step-Ends w now (λ w'. evict_loop fuel w' now) (evict_round w w.last_seen_heap now) refl
      (evict_round-Shrinks w w.last_seen_heap now)
      (λ w' lt. ended_by_fuel fuel w' now (omega (arith, h, lt)))

-- The loop of `evict_due`, run without fuel, ends, whatever the schedules hold, and with the outcome that
-- the loop with fuel computes, if the fuel is at least twice the length of the heap.
pub evict_loop-Ends :
    (w : ShardWindow) (now fuel : ℕ)
    → 2 * length w.last_seen_heap ≤ fuel
    → Ends now w (evict_loop fuel w now)
evict_loop-Ends w now fuel h =
    ended_by_fuel fuel w now (omega (arith, h, rounds-le w.entries w.last_seen_heap))
