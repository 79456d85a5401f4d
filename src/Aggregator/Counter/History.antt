-- ===== src/Aggregator/Counter/History.antt =====
-- counter.py: what the total of the ring means, over any history of calls.
use hammertime.Base.{
  ℕ, suc, ◌+◌, ◌*◌, ◌%◌, ◌≤◌, ◌<◌, ◌≡◌, inl, inr, refl, sym, ap, ◌∙◌, true, Option, none, some,
  List, [], ◌∷◌, ok, err, arith, ltb, leb, if◌then◌else◌, get_or, Bool-cases, get_or-set,
  get_or-replicate, ◌&&◌,
}
use mathlib.Core.Path.{ap₂}
use hammertime.Base.Int.{pos}
use hammertime.Core.Time.{bucket_index}
use hammertime.Aggregator.Counter.{
  IpCounter, fresh, window_seconds, is_live, claim_slot, add_to_slot, apply_delta, observe, is_gone,
  expire_slots, expire,
}
use hammertime.Aggregator.Counter.Invariant.{
  IsValid, index_lt, is_live_iff, apply_delta-IsValid, fresh-IsValid, expire_slots-starts,
  expire-IsValid,
}
use hammertime.Aggregator.Counter.Window.{
  in_window, window_total, window_total-eq, in_window-geometry, IsPast, window_total-apply,
  apply_delta-geometry,
}

-- A call on the counter: `observe(start, delta, now)` or `expire(now)`.
pub data Call : Type 0 where
  arrive : ℕ → ℕ → ℕ → Call
  sweep : ℕ → Call

abbrev pub time : Call → ℕ
time (arrive start delta now) = now
time (sweep now) = now

-- The counter after a call; a call that raises leaves it alone.
unfoldable pub perform : IpCounter → Call → IpCounter
unfolding observe expire
perform c (arrive start delta now) = elim (observe c start (pos delta) now) [
  | ok (c', applied) ↦ c'
  | err e ↦ c
]
perform c (sweep now) = (expire c now).0

unfoldable pub perform_all : IpCounter → List Call → IpCounter
unfolding perform
perform_all c [] = c
perform_all c (e ∷ calls) = perform_all (perform c e) calls

-- The calls are in the order of the clock, from `first` on and up to `last`.
abbrev pub InOrder : ℕ → List Call → ℕ → Type 0
InOrder first [] last = first ≤ last
InOrder first (e ∷ calls) last = (first ≤ time e) × InOrder (time e) calls last

-- Every observation is of an aligned bucket.
abbrev pub AllAligned : ℕ → List Call → Type 0
AllAligned b [] = Unit
AllAligned b (arrive start delta now ∷ calls) = (start % b ≡ 0) × AllAligned b calls
AllAligned b (sweep now ∷ calls) = AllAligned b calls

-- What the calls brought to the window of length `w` that ends at `now`, with no ring: the deltas
-- of the buckets that had started when they were reported and are at most a window old at `now`.
abbrev pub traffic : ℕ → ℕ → List Call → ℕ
traffic w now [] = 0
traffic w now (arrive start delta at ∷ calls) =
    (if leb start at && ltb now (start + w) then delta else 0) + traffic w now calls
traffic w now (sweep at ∷ calls) = traffic w now calls

IsPast-apply :
    (c : IpCounter) (s d at : ℕ) → IsValid c → IsPast c at → s ≤ at → IsPast (apply_delta c s d) at
unfolding apply_delta add_to_slot claim_slot
IsPast-apply c s d at v p le = record {
  past = λ j t. ground (
    arith,
    get_or-set c.starts (bucket_index s c.bucket_seconds c.bucket_count) j (some s) none
        (omega (arith, index_lt c s v, v.starts_length)),
    p.past j t,
  );
}

IsPast-expire : (c : IpCounter) (at : ℕ) → IsValid c → IsPast c at → IsPast (expire c at).0 at
unfolding expire
IsPast-expire c at v p = record {
  past = λ j t. ground (
    arith,
    expire_slots-starts c at c.starts c.counts j (v.starts_length ∙ sym v.counts_length),
    p.past j t,
  );
}

IsPast-later : (c : IpCounter) (at now : ℕ) → at ≤ now → IsPast c at → IsPast c now
IsPast-later c at now le p = record { past = λ j t e. omega (arith, p.past j t e) }

-- A bucket that is in a later window is in every earlier one since it started.
was_live :
    (c : IpCounter) (at now s : ℕ)
    → IsValid c
    → at ≤ now
    → s % c.bucket_seconds ≡ 0
    → s ≤ at
    → is_live c s now ≡ true
    → is_live c s at ≡ true
was_live c at now s v le a sle live =
    (is_live_iff c s at v.seconds_pos a).1
      (sle, omega (arith, ((is_live_iff c s now v.seconds_pos a).0 live).1))

module _ (c : IpCounter) (at now : ℕ) where
  in_window-expire_slots :
      (starts : List (Option ℕ)) (counts : List ℕ)
      → ((i s : ℕ) → get_or starts i none ≡ some s → is_live c s now ≡ true → is_live c s at ≡ true)
      → in_window c now (expire_slots c at starts counts).0 (expire_slots c at starts counts).1
        ≡ in_window c now starts counts
  unfolding in_window expire_slots is_gone
  in_window-expire_slots [] counts h = refl
  in_window-expire_slots (s ∷ starts) [] h = refl
  in_window-expire_slots (none ∷ starts) (k ∷ counts) h =
      ground (arith, in_window-expire_slots starts counts (λ i. h (suc i)))
  in_window-expire_slots (some s ∷ starts) (k ∷ counts) h =
      ground (arith, h 0 s refl, in_window-expire_slots starts counts (λ i. h (suc i)))

-- A sweep at `at` changes no later window.
in_window-expire :
    (c : IpCounter) (at now : ℕ)
    → IsValid c
    → IsPast c at
    → at ≤ now
    → in_window (expire c at).0 now (expire c at).0.starts (expire c at).0.counts
      ≡ in_window c now c.starts c.counts
unfolding expire
in_window-expire c at now v p le =
    in_window-geometry _ c now _ _ refl refl
    ∙ in_window-expire_slots c at now c.starts c.counts
        (λ i s e. was_live c at now s v le (v.aligned i s e) (p.past i s e))

window_total-expire :
    (c : IpCounter) (at now : ℕ)
    → IsValid c
    → IsPast c at
    → at ≤ now
    → window_total (expire c at).0 now ≡ window_total c now
window_total-expire c at now v p le =
    window_total-eq (expire c at).0 now (expire-IsValid c at v)
    ∙ in_window-expire c at now v p le
    ∙ sym (window_total-eq c now v)

-- One call: the invariant is kept, and the window grows by what the call brought to it.
record Step (c : IpCounter) (e : Call) (now : ℕ) : Type 0 where
  valid : IsValid (perform c e)
  past : IsPast (perform c e) (time e)
  same_seconds : (perform c e).bucket_seconds ≡ c.bucket_seconds
  same_count : (perform c e).bucket_count ≡ c.bucket_count
  grows :
      window_total (perform c e) now ≡ window_total c now + traffic (window_seconds c) now (e ∷ [])

perform_arrive :
    (c : IpCounter) (s d at : ℕ)
    → s % c.bucket_seconds ≡ 0
    → perform c (arrive s d at) ≡ (if is_live c s at then apply_delta c s d else c)
unfolding perform observe
perform_arrive c s d at a = ground arith

Step-arrive :
    (c : IpCounter) (s d at now : ℕ)
    → IsValid c
    → IsPast c at
    → at ≤ now
    → s % c.bucket_seconds ≡ 0
    → Step c (arrive s d at) now
Step-arrive c s d at now v p le a =
    let iff_at = is_live_iff c s at v.seconds_pos a in
    let iff_now = is_live_iff c s now v.seconds_pos a in
    elim (Bool-cases (is_live c s at)) [
      | inl live ↦
          let (started, open_at) = iff_at.0 live in
          let e : perform c (arrive s d at) ≡ apply_delta c s d =
            perform_arrive c s d at a ∙ (rw live) in
          record {
            valid = rw e (apply_delta-IsValid c s d v a);
            past = rw e (IsPast-apply c s d at v p started);
            same_seconds = rw e (apply_delta-geometry c s d).1;
            same_count = rw e (apply_delta-geometry c s d).0;
            grows =
                rw e (
                  ground
                    (arith, window_total-apply c s at now v p le a started open_at d, iff_now));
          }
      | inr gone ↦
          let e : perform c (arrive s d at) ≡ c = perform_arrive c s d at a ∙ (rw gone) in
          record {
            valid = rw e v;
            past = rw e p;
            same_seconds = rw e;
            same_count = rw e;
            grows = rw e (ground (arith, iff_at));
          }
    ]

expire-geometry :
    (c : IpCounter) (at : ℕ)
    → ((expire c at).0.bucket_seconds ≡ c.bucket_seconds)
      × ((expire c at).0.bucket_count ≡ c.bucket_count)
unfolding expire
expire-geometry c at = (refl, refl)

Step-sweep :
    (c : IpCounter) (at now : ℕ) → IsValid c → IsPast c at → at ≤ now → Step c (sweep at) now
unfolding perform
Step-sweep c at now v p le = record {
  valid = expire-IsValid c at v;
  past = IsPast-expire c at v p;
  same_seconds = (expire-geometry c at).0;
  same_count = (expire-geometry c at).1;
  grows = omega (arith, window_total-expire c at now v p le);
}

InOrder-le : (first : ℕ) (calls : List Call) (last : ℕ) → InOrder first calls last → first ≤ last
InOrder-le first [] last o = o
InOrder-le first (e ∷ calls) last o = omega (arith, o.0, InOrder-le (time e) calls last o.1)

fresh-window_total : (b n now : ℕ) → window_total (fresh b n) now ≡ 0
unfolding expire
fresh-window_total b n now = omega arith

pub IsPast-fresh : (b n at : ℕ) → IsPast (fresh b n) at
IsPast-fresh b n at = record { past = λ i s e. cc (e, get_or-replicate {A = Option ℕ} n i none) }

-- The counter has the geometry that the calls are aligned to.
record HasGeometry (c : IpCounter) (b n : ℕ) : Type 0 where
  seconds : c.bucket_seconds ≡ b
  count : c.bucket_count ≡ n

window-HasGeometry : (c : IpCounter) (b n : ℕ) → HasGeometry c b n → window_seconds c ≡ b * n
unfolding window_seconds
window-HasGeometry c b n g = ap₂ (λ (x y : ℕ). x * y) g.seconds g.count

Step-any :
    (c : IpCounter) (e : Call) (calls : List Call) (b n first now : ℕ)
    → IsValid c
    → IsPast c first
    → HasGeometry c b n
    → InOrder first (e ∷ calls) now
    → AllAligned b (e ∷ calls)
    → Step c e now
Step-any c (arrive s d at) calls b n first now v p g o a =
    Step-arrive c s d at now v (IsPast-later c first at o.0 p) (InOrder-le at calls now o.1)
      (rw g.seconds a.0)
Step-any c (sweep at) calls b n first now v p g o a =
    Step-sweep c at now v (IsPast-later c first at o.0 p) (InOrder-le at calls now o.1)

AllAligned-tail :
    (b : ℕ) (e : Call) (calls : List Call) → AllAligned b (e ∷ calls) → AllAligned b calls
AllAligned-tail b (arrive s d at) calls a = a.1
AllAligned-tail b (sweep at) calls a = a

traffic-cons :
    (w now : ℕ) (e : Call) (calls : List Call)
    → traffic w now (e ∷ calls) ≡ traffic w now (e ∷ []) + traffic w now calls
traffic-cons w now (arrive s d at) calls = omega arith
traffic-cons w now (sweep at) calls = omega arith

perform_all_lem :
    (c : IpCounter) (calls : List Call) (b n first now : ℕ)
    → IsValid c
    → IsPast c first
    → HasGeometry c b n
    → InOrder first calls now
    → AllAligned b calls
    → (IsValid (perform_all c calls))
      × (window_total (perform_all c calls) now ≡ window_total c now + traffic (b * n) now calls)
unfolding perform_all
perform_all_lem c [] b n first now v p g o a = (v, omega arith)
perform_all_lem c (e ∷ calls) b n first now v p g o a =
    let st = Step-any c e calls b n first now v p g o a in
    let (valid, total) =
      perform_all_lem (perform c e) calls b n (time e) now st.valid st.past
        (record { seconds = st.same_seconds ∙ g.seconds; count = st.same_count ∙ g.count }) o.1
        (AllAligned-tail b e calls a) in
    (
      valid,
      omega (
        arith,
        total,
        st.grows,
        traffic-cons (b * n) now e calls,
        ap (λ (w : ℕ). traffic w now (e ∷ [])) (window-HasGeometry c b n g),
      ),
    )

-- On a new counter, after any observations of aligned buckets and any sweeps in the order of the
-- clock, the counter is valid and `expire(now)` leaves as its total exactly what the calls brought
-- to the window that ends at `now`: each delta once, in its own bucket, however late it came.
pub perform_all-total :
    (calls : List Call) (b n first now : ℕ)
    → 0 < b
    → 0 < n
    → InOrder first calls now
    → AllAligned b calls
    → (IsValid (perform_all (fresh b n) calls))
      × ((expire (perform_all (fresh b n) calls) now).0.total ≡ traffic (b * n) now calls)
perform_all-total calls b n first now hb hn o a =
    let (valid, total) =
      perform_all_lem (fresh b n) calls b n first now (fresh-IsValid b n hb hn)
        (IsPast-fresh b n first) (record { seconds = refl; count = refl }) o a in
    (valid, omega (arith, total, fresh-window_total b n now))
