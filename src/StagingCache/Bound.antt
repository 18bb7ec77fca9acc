-- ===== src/StagingCache/Bound.antt =====
-- How many slots `StagingDataCache` (py_kvcache/staging_cache.py) holds after `put`, and when
-- `evict_one` finds nothing to evict.
use py_kvcache.Prelude.{
  ℕ, ◌+◌, ◌≤◌, ◌<◌, ◌≡◌, ◌↔◌, refl, ap, ◌⊎◌, inl, inr, true, false, List, [], ◌∷◌, Option, none,
  some, nat_eq, All, arith, length, Bool-cases, subst, ◌==◌, nat_beq_iff,
}
use py_kvcache.Prelude.Int.{is_positive}
use py_kvcache.Prelude.Keys.{contains}
use py_kvcache.Prelude.Count.{count-contains, present-count}
use py_kvcache.Prelude.Dict.{
  keys, lookup, has, lookup-some-has, length-insert_absent, length-delete-lt,
}
use py_kvcache.CachePolicy
use py_kvcache.CachePolicy.Resident.{count-victims}
use py_kvcache.StagingCache.Eviction.{Victim, Outcome, Skips, evict_one-Outcome}
use py_kvcache.StagingCache.Residency.{
  IsValid, Stored, given_back, stored, replaced, put-Stored, Outcome-has,
}
use py_kvcache.StagingCache.{
  StagingDataCache, CacheSlot, drop_slot, is_skipped, evict_one, retain, put,
}

-- A copy out of every cached slot is in flight.
abbrev pub AllPinned : StagingDataCache → Type 0
AllPinned c =
    (h : ℕ) (s : CacheSlot) → lookup h c.slots ≡ some s → is_positive s.copies_inflight ≡ true

All-at : (P : ℕ → Type 0) (l : List ℕ) (k : ℕ) → All P l → contains k l ≡ true → P k
All-at P [] k a h = cc
All-at P (j ∷ l) k a h = elim (Bool-cases (j == k)) [
  | inl e ↦ subst P ((nat_beq_iff j k).0 e) a.0
  | inr e ↦ All-at P l k a.1 (rw e at h)
]

victims-AllPinned :
    (c : StagingDataCache) → IsValid c → All (Skips c) (CachePolicy.victims c.policy) → AllPinned c
unfolding is_skipped
victims-AllPinned c v all h s e = rw e at (
    All-at (Skips c) (CachePolicy.victims c.policy) h all (
      count-contains h (CachePolicy.victims c.policy) (
        omega (
          arith,
          count-victims h c.policy,
          v.same h,
          present-count h (keys c.slots) (lookup-some-has h s c.slots e),
        ))))

no_victim : (c : StagingDataCache) {hashes : List ℕ} → AllPinned c → ¬ Victim c hashes
no_victim c pinned x = cc (pinned x.hash x.slot x.is_cached, x.is_free)

Outcome-none :
    (c : StagingDataCache) {hashes : List ℕ} {r : StagingDataCache × Option ℕ}
    → AllPinned c
    → Outcome c hashes r
    → r ≡ (c, none)
Outcome-none c pinned (inl (_, e)) = e
Outcome-none c pinned (inr (x, e)) = absurd (no_victim c pinned x)

none-AllPinned :
    (c : StagingDataCache) {r : StagingDataCache × Option ℕ}
    → IsValid c
    → Outcome c (CachePolicy.victims c.policy) r
    → r.1 ≡ none
    → AllPinned c
none-AllPinned c v (inl (all, e)) h = victims-AllPinned c v all
none-AllPinned c v (inr (x, e)) h = cc

-- In a valid cache, `evict_one` returns no slot exactly when every cached slot has a copy in flight.
pub evict_one-none : (c : StagingDataCache) → IsValid c → ((evict_one c).1 ≡ none) ↔ AllPinned c
evict_one-none c v = (
  λ h. none-AllPinned c v (evict_one-Outcome c) h,
  λ pinned.
      ap (λ (r : StagingDataCache × Option ℕ). r.1) (Outcome-none c pinned (evict_one-Outcome c)),
)

length-retain :
    (c : StagingDataCache) (h i : ℕ)
    → has h c.slots ≡ false
    → length (retain c h i).slots ≡ length c.slots + 1
unfolding retain
length-retain c h i new = length-insert_absent h _ c.slots new

-- The cache holds at most its capacity, or `put` found every slot pinned and went one over it.
abbrev pub WithinOne : StagingDataCache → StagingDataCache × Option ℕ → Type 0
WithinOne c r =
    (length r.0.slots ≤ c.capacity)
    ⊎ (AllPinned c × (r.1 ≡ none) × (length r.0.slots ≡ c.capacity + 1))

replaced-WithinOne :
    (c : StagingDataCache) (h i : ℕ) (r : StagingDataCache × Option ℕ)
    → IsValid c
    → length c.slots ≤ c.capacity
    → c.capacity ≤ length c.slots
    → has h c.slots ≡ false
    → has h r.0.slots ≡ false
    → Outcome c (CachePolicy.victims c.policy) r
    → WithinOne c (retain r.0 h i, r.1)
unfolding drop_slot
replaced-WithinOne c h i r v small full new still (inl (all, e)) = inr (
  victims-AllPinned c v all,
  ap (λ (q : StagingDataCache × Option ℕ). q.1) e,
  omega (
    arith,
    length-retain r.0 h i still,
    ap (λ (q : StagingDataCache × Option ℕ). length q.0.slots) e,
  ),
)
replaced-WithinOne c h i r v small full new still (inr (x, e)) = inl (
    omega (
      arith,
      length-retain r.0 h i still,
      ap (λ (q : StagingDataCache × Option ℕ). length q.0.slots) e,
      length-delete-lt x.hash c.slots (lookup-some-has x.hash x.slot c.slots x.is_cached),
    ))

Stored-WithinOne :
    {c : StagingDataCache} {h i : ℕ} {r : StagingDataCache × Option ℕ}
    → Stored c h i r
    → IsValid c
    → length c.slots ≤ c.capacity
    → WithinOne c r
Stored-WithinOne (given_back _) v small = inl small
Stored-WithinOne {c} {h} {i} (stored _ new room) v small =
    inl (omega (arith, length-retain c h i new))
Stored-WithinOne {c} {h} {i} (replaced _ new full) v small =
    replaced-WithinOne c h i (evict_one c) v small full new
      (Outcome-has h (evict_one-Outcome c) new) (evict_one-Outcome c)

-- After `put` on a valid cache within its capacity, the cache is within its capacity, or every slot
-- had a copy in flight, `put` freed none, and the cache holds exactly one slot too many.
pub put-WithinOne :
    (c : StagingDataCache) (h i : ℕ)
    → IsValid c
    → length c.slots ≤ c.capacity
    → WithinOne c (put c h i)
put-WithinOne c h i v small = Stored-WithinOne (put-Stored c h i) v small

Stored-over :
    {c : StagingDataCache} {h i : ℕ} {r : StagingDataCache × Option ℕ}
    → Stored c h i r
    → AllPinned c
    → 0 < c.capacity
    → has h c.slots ≡ false
    → length c.slots ≡ c.capacity
    → (r.1 ≡ none) × (length r.0.slots ≡ c.capacity + 1)
Stored-over (given_back (inl z)) pinned pos new full = absurd (omega arith)
Stored-over (given_back (inr old)) pinned pos new full = cc
Stored-over (stored _ _ room) pinned pos new full = absurd (omega arith)
Stored-over {c} {h} {i} (replaced _ _ _) pinned pos new full =
    rw (Outcome-none c pinned (evict_one-Outcome c)) (refl, omega (arith, length-retain c h i new))

-- The bound is not kept: a new hash that is put into a full cache of positive capacity, while a copy
-- out of every slot is in flight, makes it hold one slot more than its capacity.
pub put_over_capacity :
    (c : StagingDataCache) (h i : ℕ)
    → AllPinned c
    → 0 < c.capacity
    → has h c.slots ≡ false
    → length c.slots ≡ c.capacity
    → ((put c h i).1 ≡ none) × (length (put c h i).0.slots ≡ c.capacity + 1)
put_over_capacity c h i pinned pos new full = Stored-over (put-Stored c h i) pinned pos new full
