-- ===== src/StagingCache/Residency.antt =====
-- The invariant of `StagingDataCache` (py_kvcache/staging_cache.py): the policy's resident keys are
-- the cached hashes, each once.
use Prim.Native.String.{String}
use py_kvcache.Prelude.{
  ℕ, ◌≤◌, ◌<◌, ◌≡◌, refl, ap, ◌∙◌, subst, ◌>>=◌, ◌⊎◌, inl, inr, true, false, List, [], ◌∷◌, Option,
  none, some, Result, ok, err, nat_eq, ◌==◌, nat_beq_iff, Bool-cases, arith, length, leb,
}
use py_kvcache.Prelude.Int.{ℤ}
use py_kvcache.Prelude.Count.{count, count-remove, count-add, absent-count, contains-count}
use py_kvcache.Prelude.Dict.{Dict, keys, lookup, has, keys-insert, keys-delete}
use py_kvcache.CachePolicy.Resident.{
  IsPolicy, times, times-le, times-admit, times-touch, times-evict, make_policy-IsPolicy,
  admit-IsPolicy, touch-IsPolicy, evict-IsPolicy, clear-IsPolicy, resident,
}
use py_kvcache.CachePolicy.{EvictionPolicy, make_policy}
use py_kvcache.StagingCache.Eviction.{Outcome, evict_one-Outcome}
use py_kvcache.StagingCache.{
  StagingDataCache, CacheSlot, init, found, get, drop_slot, evict_one, retain, put, set_copies, pin,
  unpin, drain,
}

pub record IsValid (c : StagingDataCache) : Type 0 where
  pub policy : IsPolicy c.policy
  pub same : (k : ℕ) → times k c.policy ≡ count k (keys c.slots)

pub keys-once : {c : StagingDataCache} → IsValid c → (k : ℕ) → count k (keys c.slots) ≤ 1
keys-once {c} v k = omega (arith, v.same k, times-le k c.policy v.policy)

built-IsValid :
    (capacity : ℕ) (r : Result EvictionPolicy) {c : StagingDataCache}
    → ((π : EvictionPolicy) → r ≡ ok π → IsPolicy π × (resident π ≡ []))
    → (r >>= λ π. ok (record { capacity = capacity; policy = π; slots = [] })) ≡ ok c
    → IsValid c
built-IsValid capacity (err e) good h = cc
built-IsValid capacity (ok π) {c} good h =
    let (p, none_resident) = good π refl in
    let e : record { capacity = capacity; policy = π; slots = [] } ≡ c = cc in
    subst IsValid e (record { policy = p; same = λ k. rw none_resident refl })

-- A new cache is valid.
pub init-IsValid :
    (kind : String) (capacity : ℕ) {c : StagingDataCache} → init kind capacity ≡ ok c → IsValid c
unfolding init
init-IsValid kind capacity h =
    built-IsValid capacity (make_policy kind capacity) (λ π e. make_policy-IsPolicy kind capacity e)
      h

found-IsValid :
    (c : StagingDataCache) (h : ℕ) (o : Option CacheSlot) → IsValid c → IsValid (found c h o)
unfolding found
found-IsValid c h none v = v
found-IsValid c h (some s) v = record {
  policy = touch-IsPolicy c.policy h v.policy;
  same = λ k. times-touch k h c.policy v.policy ∙ v.same k;
}

pub get-IsValid : (c : StagingDataCache) (h : ℕ) → IsValid c → IsValid (get c h).0
unfolding get
get-IsValid c h v = found-IsValid c h (lookup h c.slots) v

drop_slot-IsValid : (c : StagingDataCache) (h : ℕ) → IsValid c → IsValid (drop_slot c h)
unfolding drop_slot
drop_slot-IsValid c h v = record {
  policy = evict-IsPolicy c.policy h v.policy;
  same = λ k. rw (keys-delete h c.slots) (
      ground (arith, times-evict k h c.policy v.policy, v.same k, count-remove h k (keys c.slots)));
}

Outcome-IsValid :
    {c : StagingDataCache} {hashes : List ℕ} {r : StagingDataCache × Option ℕ}
    → Outcome c hashes r
    → IsValid c
    → IsValid r.0
Outcome-IsValid {c} (inl (_, e)) v = rw e v
Outcome-IsValid {c} (inr (x, e)) v = rw e (drop_slot-IsValid c x.hash v)

pub evict_one-IsValid : (c : StagingDataCache) → IsValid c → IsValid (evict_one c).0
evict_one-IsValid c v = Outcome-IsValid (evict_one-Outcome c) v

retain-IsValid :
    (c : StagingDataCache) (h i : ℕ)
    → count h (keys c.slots) ≡ 0
    → IsValid c
    → IsValid (retain c h i)
unfolding retain
retain-IsValid c h i absent v = record {
  policy = admit-IsPolicy c.policy h v.policy (v.same h ∙ absent);
  same = λ k. rw (keys-insert h _ c.slots) (
      ground (
        arith,
        times-admit k h c.policy v.policy (v.same h ∙ absent),
        v.same k,
        count-add h k (keys c.slots),
        nat_beq_iff h k,
      ));
}

keys-set_copies : (f : ℤ → ℤ) (h : ℕ) (d : Dict ℕ CacheSlot) → keys (set_copies f h d) ≡ keys d
unfolding set_copies
keys-set_copies f h [] = refl
keys-set_copies f h ((k, s) ∷ d) = ap (◌∷◌ k) (keys-set_copies f h d)

pub pin-IsValid : (c : StagingDataCache) (h : ℕ) → IsValid c → IsValid (pin c h)
unfolding pin
pin-IsValid c h v = record {
  policy = v.policy;
  same = λ k. rw (keys-set_copies _ h c.slots) (v.same k);
}

pub unpin-IsValid : (c : StagingDataCache) (h : ℕ) → IsValid c → IsValid (unpin c h)
unfolding unpin
unpin-IsValid c h v = record {
  policy = v.policy;
  same = λ k. rw (keys-set_copies _ h c.slots) (v.same k);
}

pub drain-IsValid : (c : StagingDataCache) → IsValid c → IsValid (drain c).0
unfolding drain
drain-IsValid c v =
    let (p, e) = clear-IsPolicy c.policy v.policy in record { policy = p; same = λ k. rw e refl }

-- What `put` does, on each of its branches.
pub data Stored (c : StagingDataCache) (h i : ℕ) : StagingDataCache × Option ℕ → Type 0 where
  given_back : (c.capacity ≡ 0) ⊎ (has h c.slots ≡ true) → Stored c h i (c, some i)
  stored :
      0 < c.capacity
      → has h c.slots ≡ false
      → length c.slots < c.capacity
      → Stored c h i (retain c h i, none)
  replaced :
      0 < c.capacity
      → has h c.slots ≡ false
      → c.capacity ≤ length c.slots
      → Stored c h i (retain (evict_one c).0 h i, (evict_one c).1)

pub put-Stored : (c : StagingDataCache) (h i : ℕ) → Stored c h i (put c h i)
unfolding put
put-Stored c h i = elim (Bool-cases (c.capacity == 0)) [
  | inl z ↦ rw z (given_back (inl (ground arith)))
  | inr nz ↦ rw nz (elim (Bool-cases (has h c.slots)) [
    | inl e ↦ rw e (given_back (inr e))
    | inr e ↦ rw e (elim (Bool-cases (leb c.capacity (length c.slots))) [
      | inl full ↦ rw full (replaced (ground arith) e (ground arith))
      | inr room ↦ rw room (stored (ground arith) e (ground arith))
    ])
  ])
]

Outcome-absent :
    {c : StagingDataCache} {hashes : List ℕ} {r : StagingDataCache × Option ℕ} (h : ℕ)
    → Outcome c hashes r
    → has h c.slots ≡ false
    → count h (keys r.0.slots) ≡ 0
unfolding drop_slot
Outcome-absent {c} h (inl (_, e)) new = rw e (absent-count h (keys c.slots) new)
Outcome-absent {c} h (inr (x, e)) new =
    rw (e, keys-delete)
      (ground (arith, count-remove x.hash h (keys c.slots), absent-count h (keys c.slots) new))

pub Outcome-has :
    {c : StagingDataCache} {hashes : List ℕ} {r : StagingDataCache × Option ℕ} (h : ℕ)
    → Outcome c hashes r
    → has h c.slots ≡ false
    → has h r.0.slots ≡ false
Outcome-has {r} h o new = ground (arith, Outcome-absent h o new, contains-count h (keys r.0.slots))

Stored-IsValid :
    {c : StagingDataCache} {h i : ℕ} {r : StagingDataCache × Option ℕ}
    → Stored c h i r
    → IsValid c
    → IsValid r.0
Stored-IsValid (given_back _) v = v
Stored-IsValid {c} {h} {i} (stored _ new _) v =
    retain-IsValid c h i (absent-count h (keys c.slots) new) v
Stored-IsValid {c} {h} {i} (replaced _ new _) v =
    retain-IsValid (evict_one c).0 h i (Outcome-absent h (evict_one-Outcome c) new)
      (evict_one-IsValid c v)

-- `put` keeps a cache valid: the slots and the policy hold the same hashes, each once.
pub put-IsValid : (c : StagingDataCache) (h i : ℕ) → IsValid c → IsValid (put c h i).0
put-IsValid c h i v = Stored-IsValid (put-Stored c h i) v
