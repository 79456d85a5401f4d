-- ===== src/Store/Shards/Leases.antt =====
-- store/memory.py, a shard's lease: who holds it at a time.
use hammertime.Base.{
  not, List, [], ◌∷◌, zero, suc, ℕ, ◌+◌, ◌≤◌, ◌<◌, ◌≡◌, ◌≢◌, Bool, true, ◌&&◌, Option, none, some,
  Result, ok, err, leb, ◌==◌, ==_iff, if◌then◌else◌, Option-cases, Bool-cases, inl, inr, arith,
}
use hammertime.Base.Dict.{nat_key, lookup, lookup-put, lookup-erase}
use hammertime.Store.Shards.{ShardStateStore, live_holder, grant, acquire_lease, release_lease}

-- The abstract view: the owner whose lease on a shard is alive at a time.
abbrev pub holder_at : ShardStateStore → ℕ → ℕ → Option ℕ
holder_at store shard now = elim (lookup shard store.leases) [
  | none ↦ none
  | some lease ↦ if leb lease.1 now then none else some lease.0
]

live_holder-holder_at :
    (store : ShardStateStore) (shard now : ℕ)
    → (live_holder store shard now).1 ≡ holder_at store shard now
unfolding live_holder
live_holder-holder_at store shard now = elim (Option-cases (lookup shard store.leases)) [
  | inl e ↦ ground (arith, e)
  | inr (lease, e) ↦ ground (arith, e)
]

-- Deleting what has expired is invisible from then on.
live_holder-view :
    (store : ShardStateStore) (shard now j later : ℕ)
    → now ≤ later
    → holder_at (live_holder store shard now).0 j later ≡ holder_at store j later
unfolding live_holder
live_holder-view store shard now j later h = elim (Option-cases (lookup shard store.leases)) [
  | inl e ↦ ground (arith, e)
  | inr (lease, e) ↦ ground (arith, e, lookup-erase shard j store.leases, ==_iff shard j)
]

grant-view :
    (store : ShardStateStore) (shard owner expires_at j later : ℕ)
    → holder_at (grant store shard owner expires_at) j later ≡ (
        if shard == j
        then (if leb expires_at later then none else some owner)
        else holder_at store j later)
grant-view store shard owner expires_at j later =
    ground (arith, lookup-put shard j (owner, expires_at) store.leases)

-- No other owner holds the shard's lease.
abbrev pub is_free_for : ℕ → Option ℕ → Bool
is_free_for owner none = true
is_free_for owner (some other) = other == owner

-- The call returns, and the store that it leaves and its answer are these.
acquire-eq :
    (store : ShardStateStore) (shard owner ttl now : ℕ)
    → 0 < ttl
    → acquire_lease store shard owner ttl now ≡ (
        if is_free_for owner (holder_at store shard now)
        then ok (grant (live_holder store shard now).0 shard owner (now + ttl), none)
        else ok ((live_holder store shard now).0, holder_at store shard now))
unfolding acquire_lease
acquire-eq store shard owner ttl now h = elim (Option-cases (holder_at store shard now)) [
  | inl e ↦ ground (arith, e, live_holder-holder_at store shard now)
  | inr (other, e) ↦ ground (arith, e, live_holder-holder_at store shard now)
]

-- The store that a call leaves; a call that raises leaves it as it was.
abbrev pub left_by : ShardStateStore → Result (ShardStateStore × Option ℕ) → ShardStateStore
left_by store (ok p) = p.0
left_by store (err e) = store

pub acquire-holder :
    (store : ShardStateStore) (shard owner ttl now j later : ℕ)
    → 0 < ttl
    → now ≤ later
    → holder_at (left_by store (acquire_lease store shard owner ttl now)) j later ≡ (
        if is_free_for owner (holder_at store shard now) && (shard == j)
        then (if leb (now + ttl) later then none else some owner)
        else holder_at store j later)
acquire-holder store shard owner ttl now j later h h' =
    rw (acquire-eq store shard owner ttl now h)
      (elim (Bool-cases (is_free_for owner (holder_at store shard now))) [
        | inl e ↦ rw e (
            ground (
              arith,
              grant-view (live_holder store shard now).0 shard owner (now + ttl) j later,
              live_holder-view store shard now j later h',
            ))
        | inr e ↦ rw e (live_holder-view store shard now j later h')
      ])

-- The holder that a call names, if it is refused.
abbrev pub refused_by : Result (ShardStateStore × Option ℕ) → Option ℕ
refused_by (ok p) = p.1
refused_by (err e) = none

-- A release ends the owner's own lease and no other.
pub release-holder :
    (store : ShardStateStore) (shard owner now j later : ℕ)
    → now ≤ later
    → holder_at (release_lease store shard owner now) j later ≡ (elim (holder_at store shard now) [
      | none ↦ holder_at store j later
      | some other ↦ if (other == owner) && (shard == j) then none else holder_at store j later
    ])
unfolding release_lease
release-holder store shard owner now j later h = elim (Option-cases (holder_at store shard now)) [
  | inl e ↦
      ground (
        arith,
        e,
        live_holder-holder_at store shard now,
        live_holder-view store shard now j later h,
      )
  | inr (other, e) ↦ ground (
    arith,
    e,
    live_holder-holder_at store shard now,
    live_holder-view store shard now j later h,
    lookup-erase shard j (live_holder store shard now).0.leases,
  )
]

-- A call on the leases, at a time, by an owner, for a shard.
pub data LeaseCall : Type 0 where
  acquired : (shard owner ttl_seconds now : ℕ) → LeaseCall
  released : (shard owner now : ℕ) → LeaseCall

abbrev pub perform : ShardStateStore → LeaseCall → ShardStateStore
perform store (acquired shard owner ttl_seconds now) =
    left_by store (acquire_lease store shard owner ttl_seconds now)
perform store (released shard owner now) = release_lease store shard owner now

abbrev pub perform_all : ShardStateStore → List LeaseCall → ShardStateStore
perform_all store [] = store
perform_all store (call ∷ calls) = perform_all (perform store call) calls

-- The call is made by a time, and is not the owner's on the shard.
abbrev pub leaves_alone : ℕ → ℕ → ℕ → LeaseCall → Bool
leaves_alone shard owner later (acquired s o ttl now) =
    leb now later && not ((s == shard) && (o == owner))
leaves_alone shard owner later (released s o now) =
    leb now later && not ((s == shard) && (o == owner))

abbrev pub all_leave_alone : ℕ → ℕ → ℕ → List LeaseCall → Bool
all_leave_alone shard owner later [] = true
all_leave_alone shard owner later (call ∷ calls) =
    leaves_alone shard owner later call && all_leave_alone shard owner later calls

-- A lease that is alive at a time was alive before.
holder_at-before :
    (store : ShardStateStore) (shard owner now later : ℕ)
    → now ≤ later
    → holder_at store shard later ≡ some owner
    → holder_at store shard now ≡ some owner
holder_at-before store shard owner now later h e = elim (Option-cases (lookup shard store.leases)) [
  | inl f ↦ ground (arith, e, f)
  | inr (lease, f) ↦ ground (arith, e, f)
]

perform-keeps :
    (store : ShardStateStore) (shard owner later : ℕ) (call : LeaseCall)
    → leaves_alone shard owner later call ≡ true
    → holder_at store shard later ≡ some owner
    → holder_at (perform store call) shard later ≡ some owner
unfolding acquire_lease
perform-keeps store shard owner later (acquired s o zero now) alone e = ground (arith, e)
perform-keeps store shard owner later (acquired s o (suc ttl) now) alone e =
    elim (Bool-cases (s == shard)) [
      | inl f ↦
          let here : s ≡ shard = (==_iff s shard).0 f in
          let before = holder_at-before store shard owner now later (ground (arith, alone)) e in
          ground (
            arith,
            f,
            alone,
            before,
            here,
            e,
            ==_iff o owner,
            ==_iff owner o,
            acquire-holder store s o (suc ttl) now shard later (omega arith)
                (ground (arith, alone)),
          )
      | inr f ↦ ground (
        arith,
        f,
        alone,
        e,
        acquire-holder store s o (suc ttl) now shard later (omega arith) (ground (arith, alone)),
      )
    ]
perform-keeps store shard owner later (released s o now) alone e = elim (Bool-cases (s == shard)) [
  | inl f ↦
      let here : s ≡ shard = (==_iff s shard).0 f in
      let before = holder_at-before store shard owner now later (ground (arith, alone)) e in
      ground (
        arith,
        f,
        alone,
        before,
        here,
        e,
        ==_iff o owner,
        ==_iff owner o,
        release-holder store s o now shard later (ground (arith, alone)),
      )
  | inr f ↦ elim (Option-cases (holder_at store s now)) [
    | inl g ↦
        ground (arith, f, g, e, release-holder store s o now shard later (ground (arith, alone)))
    | inr (who, g) ↦
        ground (arith, f, g, e, release-holder store s o now shard later (ground (arith, alone)))
  ]
]

perform_all-keeps :
    (store : ShardStateStore) (shard owner later : ℕ) (calls : List LeaseCall)
    → all_leave_alone shard owner later calls ≡ true
    → holder_at store shard later ≡ some owner
    → holder_at (perform_all store calls) shard later ≡ some owner
perform_all-keeps store shard owner later [] alone e = e
perform_all-keeps store shard owner later (call ∷ calls) alone e =
    perform_all-keeps (perform store call) shard owner later calls (ground (arith, alone))
      (perform-keeps store shard owner later call (ground (arith, alone)) e)

-- If no other owner holds a shard's lease when one asks for it with a positive TTL, then until the TTL has
-- passed a call of another owner with a positive TTL is refused with the first owner's token, whatever
-- calls are made in between, in any order of their times, if each is made by the time of that call and none
-- is the first owner's own on the shard.
pub acquire_refused :
    (store : ShardStateStore) (shard owner other ttl ttl' now later : ℕ) (calls : List LeaseCall)
    → 0 < ttl
    → 0 < ttl'
    → now ≤ later
    → later < now + ttl
    → owner ≢ other
    → is_free_for owner (holder_at store shard now) ≡ true
    → all_leave_alone shard owner later calls ≡ true
    → refused_by (
        acquire_lease
          (perform_all (left_by store (acquire_lease store shard owner ttl now)) calls)
          shard
          other
          ttl'
          later)
      ≡ some owner
acquire_refused store shard owner other ttl ttl' now later calls h h' le lt ne free alone =
    let granted = left_by store (acquire_lease store shard owner ttl now) in
    let held : holder_at granted shard later ≡ some owner = ground (
      arith,
      acquire-holder store shard owner ttl now shard later h le,
      ==_iff shard shard,
      free,
    ) in
    let last = perform_all granted calls in
    let kept = perform_all-keeps granted shard owner later calls alone held in
    rw (acquire-eq last shard other ttl' later h') (ground (arith, kept, ne))
