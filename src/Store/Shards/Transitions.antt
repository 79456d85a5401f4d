-- ===== src/Store/Shards/Transitions.antt =====
-- The durable contract of `record_transition`: what a shard's next owner loads after any history.
use Prim.Native.Nat.{max}
use hammertime.Base.{
  ℕ, suc, ◌≤◌, ◌<◌, ◌≡◌, refl, ap, ◌∙◌, Bool, ◌&&◌, List, [], ◌∷◌, ok, err, ◌==◌, ==_iff,
  if◌then◌else◌, Option-cases, inl, inr, arith,
}
use hammertime.Base.Int.{ℤ, pos, negsuc}
use hammertime.Base.Dict.{
  value_or, nat_key, is_in, include, discard, lookup, lookup-put, is_in-include, is_in-discard,
}
use hammertime.Core.Address.{Address}
use hammertime.Core.Address.Same.{address_key, same_address}
use hammertime.Core.State.{IpState, cold, hot, is}
use hammertime.Store.Shards.{ShardStateStore, load, change_membership, record_transition}

pub data Call : Type 0 where
  transition : (shard : ℕ) (ip : Address) (state : IpState) (sequence : ℤ) → Call

-- A call that raises has written nothing.
abbrev pub perform : ShardStateStore → Call → ShardStateStore
perform store (transition shard ip state sequence) =
    elim (record_transition store shard ip state sequence) [ ok store' ↦ store' | err e ↦ store ]

abbrev pub perform_all : ShardStateStore → List Call → ShardStateStore
perform_all store [] = store
perform_all store (call ∷ calls) = perform_all (perform store call) calls

-- One past the greatest sequence that a history records for a shard, and 0 if there is none.
abbrev pub next_after : ℕ → ℕ → List Call → ℕ
next_after j before [] = before
next_after j before (transition shard ip state (pos n) ∷ calls) =
    next_after j (if shard == j then max before (suc n) else before) calls
next_after j before (transition shard ip state (negsuc n) ∷ calls) = next_after j before calls

-- Whether the newest call about an address of a shard made it HOT.
abbrev pub held_after : ℕ → Address → Bool → List Call → Bool
held_after j a before [] = before
held_after j a before (transition shard ip state (pos n) ∷ calls) =
    held_after j a (if (shard == j) && same_address ip a then is state hot else before) calls
held_after j a before (transition shard ip state (negsuc n) ∷ calls) = held_after j a before calls

abbrev pub holds : ShardStateStore → ℕ → Address → Bool
holds store shard ip = is_in ip (value_or [] (lookup shard store.hot_ips))

holds-change :
    (store : ShardStateStore) (shard j : ℕ) (ip a : Address) (state : IpState)
    → is_in a (value_or [] (lookup j (change_membership store shard ip state)))
      ≡ (if (shard == j) && same_address ip a then is state hot else holds store j a)
unfolding change_membership
holds-change store shard j ip a hot = ground (
  arith,
  lookup-put shard j (include ip (value_or [] (lookup shard store.hot_ips))) store.hot_ips,
  is_in-include ip a (value_or [] (lookup shard store.hot_ips)),
  ==_iff shard j,
)
holds-change store shard j ip a cold = elim (Option-cases (lookup shard store.hot_ips)) [
  | inl e ↦ ground (arith, e, ==_iff shard j)
  | inr (ips, e) ↦ ground (
    arith,
    e,
    lookup-put shard j (discard ip ips) store.hot_ips,
    is_in-discard ip a ips,
    ==_iff shard j,
  )
]

-- What one call leaves for the next owner of any shard, whether or not it raises.
perform-next :
    (store : ShardStateStore) (call : Call) (j : ℕ)
    → (load (perform store call) j).next_sequence
      ≡ next_after j ((load store j).next_sequence) (call ∷ [])
unfolding load record_transition
perform-next store (transition shard ip state (pos n)) j = ground (
  arith,
  lookup-put shard j (max (value_or 0 (lookup shard store.next_sequence)) (suc n))
      store.next_sequence,
  ==_iff shard j,
)
perform-next store (transition shard ip state (negsuc n)) j = refl

perform-holds :
    (store : ShardStateStore) (call : Call) (j : ℕ) (a : Address)
    → holds (perform store call) j a ≡ held_after j a (holds store j a) (call ∷ [])
unfolding record_transition
perform-holds store (transition shard ip state (pos n)) j a = holds-change store shard j ip a state
perform-holds store (transition shard ip state (negsuc n)) j a = refl

next_after_step :
    (j before : ℕ) (call : Call) (calls : List Call)
    → next_after j (next_after j before (call ∷ [])) calls ≡ next_after j before (call ∷ calls)
next_after_step j before (transition shard ip state (pos n)) calls = refl
next_after_step j before (transition shard ip state (negsuc n)) calls = refl

held_after_step :
    (j : ℕ) (a : Address) (before : Bool) (call : Call) (calls : List Call)
    → held_after j a (held_after j a before (call ∷ [])) calls
      ≡ held_after j a before (call ∷ calls)
held_after_step j a before (transition shard ip state (pos n)) calls = refl
held_after_step j a before (transition shard ip state (negsuc n)) calls = refl

pub perform_all-next :
    (store : ShardStateStore) (calls : List Call) (j : ℕ)
    → (load (perform_all store calls) j).next_sequence
      ≡ next_after j ((load store j).next_sequence) calls
perform_all-next store [] j = refl
perform_all-next store (call ∷ calls) j =
    perform_all-next (perform store call) calls j
    ∙ ap (λ (n : ℕ). next_after j n calls) (perform-next store call j)
    ∙ next_after_step j ((load store j).next_sequence) call calls

pub perform_all-holds :
    (store : ShardStateStore) (calls : List Call) (j : ℕ) (a : Address)
    → is_in a (load (perform_all store calls) j).hot_ips
      ≡ held_after j a (is_in a (load store j).hot_ips) calls
unfolding load
perform_all-holds store [] j a = refl
perform_all-holds store (call ∷ calls) j a =
    perform_all-holds (perform store call) calls j a
    ∙ ap (λ (b : Bool). held_after j a b calls) (perform-holds store call j a)
    ∙ held_after_step j a (holds store j a) call calls

-- Once a sequence has been recorded for a shard, the next sequence that any later owner loads is
-- past it: no history of calls hands it out again.
next_after_grows : (j before : ℕ) (calls : List Call) → before ≤ next_after j before calls
next_after_grows j before [] = omega arith
next_after_grows j before (transition shard ip state (pos n) ∷ calls) =
    ground (arith, next_after_grows j (max before (suc n)) calls, next_after_grows j before calls)
next_after_grows j before (transition shard ip state (negsuc n) ∷ calls) =
    next_after_grows j before calls

pub recorded-lt-next :
    (store : ShardStateStore) (shard : ℕ) (ip : Address) (state : IpState) (n : ℕ)
    (calls : List Call)
    → n < (load (perform_all store (transition shard ip state (pos n) ∷ calls)) shard).next_sequence
recorded-lt-next store shard ip state n calls =
    rw (perform_all-next store (transition shard ip state (pos n) ∷ calls) shard) (
      ground (
        arith,
        ==_iff shard shard,
        next_after_grows shard (max ((load store shard).next_sequence) (suc n)) calls,
      ))
