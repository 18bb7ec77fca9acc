-- ===== src/Reactor/Placed.antt =====
-- Where the staging slots of py_kvcache/reactor.py are: each slot of the pool is free, in the staging
-- cache, under a hash that was preloaded, shared, read into, written from, or copied, and in one of
-- these places only.
pub mod Pool
pub mod Kept
pub mod Heap
pub mod Shared
pub mod Reserve
pub mod Copies
pub mod Submit
pub mod Queue
pub mod Done
pub mod SharedRead
pub mod Serve
pub mod Load
pub mod Work
pub mod Opened
pub mod Steps
pub mod Unread
pub mod Start
use py_kvcache.Prelude.{
  ℕ, ◌+◌, ◌≤◌, ◌≡◌, Bool, true, false, List, [], ◌∷◌, ◌++◌, Option, none, some, if◌then◌else◌, ltb,
  get_elem?, nat_eq, ◌==◌, ◌||◌,
}
use py_kvcache.Prelude.Int.{ℤ, pos, is_positive}
use py_kvcache.Prelude.Count.{count}
use py_kvcache.Prelude.Keys.{Distinct}
use py_kvcache.Prelude.Dict.{Dict, keys, lookup, has}
use py_kvcache.StagingCache.{StagingDataCache}
use py_kvcache.StagingCache.Residency.{IsValid}
use py_kvcache.StagingCache.Slots.{indices}
use py_kvcache.StagingCache.Pins.{same_pin, pins}
use py_kvcache.Reactor.State.{
  PreloadInfo, SharedSlot, RingOp, open_load, open_preload, read_load, read_preload, write_store,
  close_fd, Keeper, own, shared, cached, drained, LoadCopy, CopyOp, store_copy, load_batch, Slots,
  Reactor,
}

-- The slots of the cache.
abbrev pub cache_slots : Option StagingDataCache → List ℕ
cache_slots none = []
cache_slots (some c) = indices c.slots

abbrev pub slots_in : List (ℕ × PreloadInfo) → List ℕ
slots_in [] = []
slots_in ((i, _) ∷ l) = i ∷ slots_in l

abbrev pub private_slots : Dict ℕ (List (ℕ × PreloadInfo)) → List ℕ
private_slots [] = []
private_slots ((_, l) ∷ d) = slots_in l ++ private_slots d

-- A shared slot is held while it is cached or a copy reads it.
abbrev pub is_live : SharedSlot → Bool
is_live x = x.cached || is_positive x.copies_inflight

abbrev pub live_slots : List SharedSlot → List ℕ
live_slots [] = []
live_slots (x ∷ heap) =
    let rest = live_slots heap in if is_live x then x.slot_index ∷ rest else rest

abbrev pub op_slots : RingOp → List ℕ
op_slots (open_load _ _) = []
op_slots (open_preload _) = []
op_slots (read_load _ _ i _) = i ∷ []
op_slots (read_preload _ i _) = i ∷ []
op_slots (write_store _ _ i _) = i ∷ []
op_slots (close_fd _) = []

abbrev pub inflight_slots : Dict ℕ RingOp → List ℕ
inflight_slots [] = []
inflight_slots ((_, op) ∷ d) = op_slots op ++ inflight_slots d

-- The slot that a copy keeps itself.
abbrev pub kept_by : Keeper → ℕ → List ℕ
kept_by own i = i ∷ []
kept_by (shared _) i = []
kept_by (cached _) i = []
kept_by drained i = []

abbrev pub copied_slots : List LoadCopy → List ℕ
copied_slots [] = []
copied_slots (c ∷ copies) = kept_by c.keeper c.slot_index ++ copied_slots copies

abbrev pub pending_slots : CopyOp → List ℕ
pending_slots (store_copy _ _ i) = i ∷ []
pending_slots (load_batch copies) = copied_slots copies

abbrev pub all_pending : List CopyOp → List ℕ
all_pending [] = []
all_pending (op ∷ ops) = pending_slots op ++ all_pending ops

-- How often a slot is in some place.
abbrev pub held : ℕ → Slots → ℕ
held j s =
    count j s.pool.free
    + count j (cache_slots s.cache)
    + count j (private_slots s.preload_slots)
    + count j (live_slots s.heap)
    + count j (inflight_slots s.inflight)
    + count j (copied_slots s.copy_ready)
    + count j (all_pending s.pending_copies)

-- How many of the copies read the shared slot at a handle.
abbrev pub refers : ℕ → Keeper → ℕ
refers handle own = 0
refers handle (shared other) = if other == handle then 1 else 0
refers handle (cached _) = 0
refers handle drained = 0

abbrev pub reads : ℕ → List LoadCopy → ℕ
reads handle [] = 0
reads handle (c ∷ copies) = refers handle c.keeper + reads handle copies

abbrev pub pending_reads : ℕ → List CopyOp → ℕ
pending_reads handle [] = 0
pending_reads handle (store_copy _ _ _ ∷ ops) = pending_reads handle ops
pending_reads handle (load_batch copies ∷ ops) = reads handle copies + pending_reads handle ops

-- How many of the copies read the slot with an index from the cache, under a hash.
abbrev pub pins_of : ℕ → ℕ → Keeper → ℕ → ℕ
pins_of h i own slot = 0
pins_of h i (shared _) slot = 0
pins_of h i (cached other) slot = same_pin other h slot i
pins_of h i drained slot = 0

abbrev pub pinned : ℕ → ℕ → List LoadCopy → ℕ
pinned h i [] = 0
pinned h i (c ∷ copies) = pins_of h i c.keeper c.slot_index + pinned h i copies

abbrev pub pending_pinned : ℕ → ℕ → List CopyOp → ℕ
pending_pinned h i [] = 0
pending_pinned h i (store_copy _ _ _ ∷ ops) = pending_pinned h i ops
pending_pinned h i (load_batch copies ∷ ops) = pinned h i copies + pending_pinned h i ops

abbrev pub cache_pins : ℕ → ℕ → Option StagingDataCache → ℤ
cache_pins h i none = pos 0
cache_pins h i (some c) = pins h i c

abbrev pub copies_of : Option SharedSlot → ℤ
copies_of none = pos 0
copies_of (some x) = x.copies_inflight

abbrev pub readers : List SharedSlot → ℕ → ℤ
readers heap handle = copies_of (get_elem? heap handle)

abbrev pub CacheIsValid : Option StagingDataCache → Type 0
CacheIsValid none = Unit
CacheIsValid (some c) = IsValid c

-- The slot at a handle is cached under a hash.
abbrev pub IsCached : List SharedSlot → ℕ → ℕ → Type 0
IsCached heap handle h =
    (x : SharedSlot) × (get_elem? heap handle ≡ some x) × (x.cached ≡ true) × (x.block_hash ≡ h)

-- Each of the `total` slots is in one place, what is in flight is under a number that was handed out,
-- and each shared slot and each slot of the cache counts the copies that read it, while the step that
-- runs has `hand` in hand, and the copies `loads`.
pub record IsPlaced (total : ℕ) (s : Slots) (hand : List ℕ) (loads : List LoadCopy) : Type 0 where
  pub is_open : s.pool.is_closed ≡ false
  pub size : s.pool.slot_count ≡ total
  pub valid : CacheIsValid s.cache
  pub once :
      (j : ℕ)
      → held j s + (count j hand + count j (copied_slots loads)) ≡ (if ltb j total then 1 else 0)
  pub private_keys : Distinct (keys s.preload_slots)
  pub op_keys : Distinct (keys s.inflight)
  pub fresh : (u : ℕ) → has u s.inflight ≡ true → u ≤ s.next_user_data
  pub shared_keys : Distinct (keys s.shared_cached)
  pub shared_ok : (h handle : ℕ) → lookup h s.shared_cached ≡ some handle → IsCached s.heap handle h
  pub copies_ok :
      (handle : ℕ)
      → readers s.heap handle
        ≡ pos
            (reads handle s.copy_ready + pending_reads handle s.pending_copies + reads handle loads)
  pub pins_ok :
      (h i : ℕ)
      → cache_pins h i s.cache
        ≡ pos (pinned h i s.copy_ready + pending_pinned h i s.pending_copies + pinned h i loads)
