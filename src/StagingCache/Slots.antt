-- ===== src/StagingCache/Slots.antt =====
-- The staging slots that `StagingDataCache` (py_kvcache/staging_cache.py) holds: none is lost and none
-- is made up, whatever `put`, `evict_one` and `drain` do; `pin` and `unpin` touch none.
use Prim.Native.String.{String}
use py_kvcache.CachePolicy.{EvictionPolicy, make_policy}
use py_kvcache.Prelude.{
  Result, ok, err, ◌>>=◌, sym, ℕ, zero, suc, Bool-cases, ◌+◌, ◌≤◌, ◌≡◌, refl, ap, inl, inr, true,
  false, List, [], ◌∷◌, Option, none, some, nat_eq, arith, map, ◌==◌,
}
use mathlib.Core.Option.{some-injective}
use py_kvcache.Prelude.Int.{ℤ, pos, negsuc, inc, dec}
use py_kvcache.Prelude.Count.{count, contains-count}
use py_kvcache.Prelude.Dict.{Dict, keys, values, lookup, insert, delete, has, delete_absent}
use py_kvcache.StagingCache.Eviction.{Outcome, evict_one-Outcome}
use py_kvcache.StagingCache.Residency.{
  IsValid, keys-once, Stored, given_back, stored, replaced, put-Stored, Outcome-has,
}
use py_kvcache.StagingCache.{
  StagingDataCache, CacheSlot, init, found, get, drop_slot, evict_one, retain, put, set_copies, pin,
  unpin,
}

abbrev pub indices : Dict ℕ CacheSlot → List ℕ
indices d = map (λ (s : CacheSlot). s.slot_index) (values d)

-- The slot that a method hands back, as a list.
abbrev pub handed : Option ℕ → List ℕ
handed none = []
handed (some i) = i ∷ []

count-insert :
    (i h : ℕ) (s : CacheSlot) (d : Dict ℕ CacheSlot)
    → has h d ≡ false
    → count i (indices (insert h s d)) ≡ count i (indices d) + count i (s.slot_index ∷ [])
count-insert i h s [] new = omega arith
count-insert i h s ((k, t) ∷ d) new = ground (arith, count-insert i h s d)

gone :
    (h k : ℕ) (d : Dict ℕ CacheSlot) → (k == h) ≡ true → count h (k ∷ keys d) ≤ 1 → has h d ≡ false
gone h k d p once = ground (arith, contains-count h (keys d))

count-delete :
    (i h : ℕ) (s : CacheSlot) (d : Dict ℕ CacheSlot)
    → lookup h d ≡ some s
    → count h (keys d) ≤ 1
    → count i (indices (delete h d)) + count i (s.slot_index ∷ []) ≡ count i (indices d)
count-delete i h s [] e once = cc
count-delete i h s ((k, t) ∷ d) e once = elim (Bool-cases (k == h)) [
  | inl p ↦ rw p (
      ground (
        arith,
        delete_absent h d (gone h k d p once),
        ap (λ (u : CacheSlot). count i (u.slot_index ∷ [])) (some-injective t s (rw p at e)),
        ap (λ (r : Dict ℕ CacheSlot). count i (indices r)) (delete_absent h d (gone h k d p once)),
      ))
  | inr p ↦ rw p (omega (arith, count-delete i h s d (rw p at e) (ground arith)))
]

Outcome-indices :
    (i : ℕ) (c : StagingDataCache) {hashes : List ℕ} {r : StagingDataCache × Option ℕ}
    → IsValid c
    → Outcome c hashes r
    → count i (indices r.0.slots) + count i (handed r.1) ≡ count i (indices c.slots)
unfolding drop_slot
Outcome-indices i c v (inl (_, e)) = rw e (omega arith)
Outcome-indices i c v (inr (x, e)) =
    rw e (count-delete i x.hash x.slot c.slots x.is_cached (keys-once v x.hash))

Stored-indices :
    (i : ℕ) {c : StagingDataCache} {h j : ℕ} {r : StagingDataCache × Option ℕ}
    → IsValid c
    → Stored c h j r
    → count i (indices r.0.slots) + count i (handed r.1)
      ≡ count i (indices c.slots) + count i (j ∷ [])
unfolding retain
Stored-indices i v (given_back _) = refl
Stored-indices i {c} {h} {j} v (stored _ new _) = omega (
  arith,
  count-insert i h (record { block_hash = h; slot_index = j; copies_inflight = pos 0 }) c.slots new,
)
Stored-indices i {c} {h} {j} v (replaced _ new _) = omega (
  arith,
  count-insert i h (record { block_hash = h; slot_index = j; copies_inflight = pos 0 })
      (evict_one c).0.slots (Outcome-has h (evict_one-Outcome c) new),
  Outcome-indices i c v (evict_one-Outcome c),
)

-- `put` on a valid cache conserves slots: after it, each slot index stands in the cache and in what
-- `put` hands back, together, as often as in the cache before and in the slot that was put.
pub put-conserves :
    (c : StagingDataCache) (h j i : ℕ)
    → IsValid c
    → count i (indices (put c h j).0.slots) + count i (handed (put c h j).1)
      ≡ count i (indices c.slots) + count i (j ∷ [])
put-conserves c h j i v = Stored-indices i v (put-Stored c h j)

-- `evict_one` on a valid cache takes exactly the slot that it returns out of the cache.
pub evict_one-conserves :
    (c : StagingDataCache) (i : ℕ)
    → IsValid c
    → count i (indices (evict_one c).0.slots) + count i (handed (evict_one c).1)
      ≡ count i (indices c.slots)
evict_one-conserves c i v = Outcome-indices i c v (evict_one-Outcome c)

dec-inc : (z : ℤ) → dec (inc z) ≡ z
dec-inc (pos n) = refl
dec-inc (negsuc zero) = refl
dec-inc (negsuc (suc n)) = refl

set_copies-set_copies : (h : ℕ) (d : Dict ℕ CacheSlot) → set_copies dec h (set_copies inc h d) ≡ d
unfolding set_copies
set_copies-set_copies h [] = refl
set_copies-set_copies h ((k, s) ∷ d) =
    ground (arith, set_copies-set_copies h d, dec-inc s.copies_inflight)

built-slots :
    (capacity : ℕ) (r : Result EvictionPolicy) {c : StagingDataCache}
    → (r >>= λ π. ok (record { capacity = capacity; policy = π; slots = [] })) ≡ ok c
    → c.slots ≡ []
built-slots capacity (err e) h = cc
built-slots capacity (ok π) {c} h =
    let e : record { capacity = capacity; policy = π; slots = [] } ≡ c = cc in
    sym (ap (λ (c : StagingDataCache). c.slots) e)

-- A new cache holds no slot.
pub init-slots :
    (kind : String) (capacity : ℕ) {c : StagingDataCache} → init kind capacity ≡ ok c → c.slots ≡ []
unfolding init
init-slots kind capacity h = built-slots capacity (make_policy kind capacity) h

found-slots : (c : StagingDataCache) (h : ℕ) (o : Option CacheSlot) → (found c h o).slots ≡ c.slots
unfolding found
found-slots c h none = refl
found-slots c h (some s) = refl

pub get-slots : (c : StagingDataCache) (h : ℕ) → (get c h).0.slots ≡ c.slots
unfolding get
get-slots c h = found-slots c h (lookup h c.slots)

indices-set_copies :
    (f : ℤ → ℤ) (h : ℕ) (d : Dict ℕ CacheSlot) → indices (set_copies f h d) ≡ indices d
unfolding set_copies
indices-set_copies f h [] = refl
indices-set_copies f h ((k, s) ∷ d) = ground (arith, indices-set_copies f h d)

pub indices-pin : (c : StagingDataCache) (h : ℕ) → indices (pin c h).slots ≡ indices c.slots
unfolding pin
indices-pin c h = indices-set_copies inc h c.slots

pub indices-unpin : (c : StagingDataCache) (h : ℕ) → indices (unpin c h).slots ≡ indices c.slots
unfolding unpin
indices-unpin c h = indices-set_copies dec h c.slots

-- A pin that is undone leaves the cache as it was.
pub unpin-pin : (c : StagingDataCache) (h : ℕ) → unpin (pin c h) h ≡ c
unfolding pin unpin
unpin-pin c h = ap (λ d. record c { slots = d }) (set_copies-set_copies h c.slots)
