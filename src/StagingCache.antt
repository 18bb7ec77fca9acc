-- ===== src/StagingCache.antt =====
-- `StagingDataCache` of py_kvcache/staging_cache.py: completed staging slots, kept under their block
-- hash. A `_CacheSlot` is reached through the dictionary: `pin` and `unpin` of a slot name it by its
-- hash, since a slot that is pinned stays in the dictionary until `drain`.
pub mod Eviction
pub mod Residency
pub mod Bound
pub mod Pins
pub mod Slots
use Prim.Native.String.{String}
use py_kvcache.Prelude.{
  ℕ, ◌≤◌, Bool, true, false, List, [], ◌∷◌, map, Option, none, some, Result, ok, err, ◌>>=◌,
  if◌then◌else◌, leb, length, nat_eq, ◌==◌,
}
use py_kvcache.Prelude.Int.{ℤ, pos, inc, dec, is_positive}
use py_kvcache.Prelude.Keys.{contains}
use py_kvcache.Prelude.Dict.{Dict, keys, values, lookup, insert, delete, has}
use py_kvcache.CachePolicy
use py_kvcache.CachePolicy.{EvictionPolicy, make_policy}

pub record CacheSlot : Type 0 where
  pub block_hash : ℕ
  pub slot_index : ℕ
  pub copies_inflight : ℤ

pub record StagingDataCache : Type 0 where
  pub capacity : ℕ
  pub policy : EvictionPolicy
  pub slots : Dict ℕ CacheSlot

-- `capacity` is `max(0, capacity)`.
unfoldable pub init : String → ℕ → Result StagingDataCache
init kind capacity = do
  π ← make_policy kind capacity
  ok (record { capacity = capacity; policy = π; slots = [] })

found : StagingDataCache → ℕ → Option CacheSlot → StagingDataCache
found c block_hash none = c
found c block_hash (some slot) = record c { policy = CachePolicy.touch c.policy block_hash }

unfoldable pub get : StagingDataCache → ℕ → StagingDataCache × Option CacheSlot
unfolding found
get c block_hash = let slot = lookup block_hash c.slots in (found c block_hash slot, slot)

-- What `evict_one` does with the victim that it settles on.
unfoldable pub drop_slot : StagingDataCache → ℕ → StagingDataCache
drop_slot c block_hash = record c {
  slots = delete block_hash c.slots;
  policy = CachePolicy.evict c.policy block_hash;
}

-- `slot is None or slot.copies_inflight > 0`
unfoldable pub is_skipped : Option CacheSlot → Bool
is_skipped none = true
is_skipped (some slot) = is_positive slot.copies_inflight

unfoldable pub index_of : Option CacheSlot → Option ℕ
index_of none = none
index_of (some slot) = some slot.slot_index

-- The loop of `evict_one` over the victims.
unfoldable pub evict_from : StagingDataCache → List ℕ → StagingDataCache × Option ℕ
unfolding drop_slot is_skipped index_of
evict_from c [] = (c, none)
evict_from c (block_hash ∷ rest) =
    let later = evict_from c rest in
    let slot = lookup block_hash c.slots in
    if is_skipped slot then later else (drop_slot c block_hash, index_of slot)

unfoldable pub evict_one : StagingDataCache → StagingDataCache × Option ℕ
unfolding evict_from
evict_one c = evict_from c (CachePolicy.victims c.policy)

-- The last lines of `put`: the slot is retained and admitted.
unfoldable pub retain : StagingDataCache → ℕ → ℕ → StagingDataCache
retain c block_hash slot_index = record c {
  slots =
      insert block_hash
        (record { block_hash = block_hash; slot_index = slot_index; copies_inflight = pos 0 })
        c.slots;
  policy = CachePolicy.admit c.policy block_hash;
}

unfoldable pub put : StagingDataCache → ℕ → ℕ → StagingDataCache × Option ℕ
unfolding evict_one retain
put c block_hash slot_index =
    if c.capacity == 0
    then (c, some slot_index)
    else if has block_hash c.slots
    then (c, some slot_index)
    else let (room, freed) = if leb c.capacity (length c.slots) then evict_one c else (c, none) in
      (retain room block_hash slot_index, freed)

unfoldable pub set_copies : (ℤ → ℤ) → ℕ → Dict ℕ CacheSlot → Dict ℕ CacheSlot
set_copies f block_hash [] = []
set_copies f block_hash ((k, slot) ∷ d) =
    (k, if k == block_hash then record slot { copies_inflight = f slot.copies_inflight } else slot)
    ∷ set_copies f block_hash d

unfoldable pub pin : StagingDataCache → ℕ → StagingDataCache
unfolding set_copies
pin c block_hash = record c { slots = set_copies inc block_hash c.slots }

unfoldable pub unpin : StagingDataCache → ℕ → StagingDataCache
unfolding set_copies
unpin c block_hash = record c { slots = set_copies dec block_hash c.slots }

unfoldable pub drain : StagingDataCache → StagingDataCache × List ℕ
drain c = (
  record c { slots = []; policy = CachePolicy.clear c.policy },
  map (λ (s : CacheSlot). s.slot_index) (values c.slots),
)
