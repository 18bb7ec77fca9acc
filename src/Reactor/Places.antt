-- ===== src/Reactor/Places.antt =====
-- The slots in py_kvcache/reactor.py: how one is reserved, released, cached, shared and reclaimed. An
-- exception of the pool would end the reactor's thread; here the pool is then left as it was.
use Prim.Native.String.{String}
use py_kvcache.Prelude.{
  ℕ, Bool, true, false, List, [], ◌∷◌, ◌++◌, Option, none, some, ok, err, if◌then◌else◌, ltb,
  length, get_elem?, modify, nat_eq, ◌==◌, ◌||◌,
}
use py_kvcache.Prelude.Int.{pos, inc, dec, is_positive}
use py_kvcache.Prelude.Dict.{Dict, lookup, lookup_or, insert, delete, has}
use py_kvcache.Staging.{try_reserve, release}
use py_kvcache.StagingCache.{StagingDataCache, put, unpin, evict_one}
use py_kvcache.Reactor.State.{
  SharedSlot, PreloadInfo, Slots, Demand, Reactor, Keeper, own, shared, cached, drained,
}
use py_kvcache.Reactor.Demand.{drop_reference, purge_owned_for_hash, has_inflight}

unfoldable pub release_slot : Slots → ℕ → Slots
release_slot s i = elim (release s.pool (pos i)) [ err _ ↦ s | ok p ↦ record s { pool = p } ]

unfoldable pub reserve : Slots → Slots × Option ℕ
reserve s = elim (try_reserve s.pool) [
  | err _ ↦ (s, none)
  | ok (p, slot) ↦ (record s { pool = p }, slot)
]

unfoldable pub preload_cache_push : Slots → ℕ → ℕ → PreloadInfo → Slots
preload_cache_push s h i info = record s {
  preload_slots = insert h (lookup_or h [] s.preload_slots ++ (i, info) ∷ []) s.preload_slots;
  cached_total = inc s.cached_total;
}

-- No empty deque is kept.
unfoldable pub keep_slots : ℕ → List (ℕ × PreloadInfo) → Slots → Slots
keep_slots h [] s = record s {
  preload_slots = delete h s.preload_slots;
  cached_total = dec s.cached_total;
}
keep_slots h (e ∷ rest) s = record s {
  preload_slots = insert h (e ∷ rest) s.preload_slots;
  cached_total = dec s.cached_total;
}

unfoldable pub pop_slots : ℕ → List (ℕ × PreloadInfo) → Slots → Slots × Option (ℕ × PreloadInfo)
unfolding keep_slots
pop_slots h [] s = (s, none)
pop_slots h (e ∷ rest) s = (keep_slots h rest s, some e)

unfoldable pub preload_cache_pop : Slots → ℕ → Slots × Option (ℕ × PreloadInfo)
unfolding pop_slots
preload_cache_pop s h = pop_slots h (lookup_or h [] s.preload_slots) s

unfoldable pub has_cached_preload : Slots → ℕ → Bool
has_cached_preload s h = ltb 0 (length (lookup_or h [] s.preload_slots))

unfoldable pub in_cache : Slots → ℕ → Bool
in_cache s h = elim s.cache [ none ↦ false | some c ↦ has h c.slots ]

unfoldable pub preload_has_copy : Slots → Demand → ℕ → Bool
unfolding in_cache has_inflight has_cached_preload
preload_has_copy s d h =
    in_cache s h
    || (has_inflight d h
        || (if d.share_preload then has h s.shared_cached else has_cached_preload s h))

unfoldable pub has_any_shared_state : Slots → Demand → ℕ → Bool
unfolding has_inflight
has_any_shared_state s d h =
    has h s.shared_cached
    || (has_inflight d h
        || (ltb 0 (lookup_or h 0 d.pending_count)
            || (has h d.blocked_on_write || has h d.known_missing)))

-- What `put` hands back goes to the pool.
unfoldable pub give_back : Slots → Option ℕ → Slots
unfolding release_slot
give_back s none = s
give_back s (some i) = release_slot s i

unfoldable pub release_or_cache : Slots → ℕ → ℕ → Slots
unfolding release_slot give_back
release_or_cache s h i = elim s.cache [
  | none ↦ release_slot s i
  | some c ↦ let (c', back) = put c h i in give_back (record s { cache = some c' }) back
]

unfoldable pub set_heap : (SharedSlot → SharedSlot) → ℕ → Slots → Slots
set_heap f handle s = record s { heap = modify f handle s.heap }

abbrev pub uncached : SharedSlot → SharedSlot
uncached x = record x { cached = false }

unfoldable pub is_handle : ℕ → Option ℕ → Bool
is_handle handle none = false
is_handle handle (some other) = other == handle

-- `_shared_uncache` of the slot at a handle.
unfoldable pub shared_uncache : Slots → ℕ → SharedSlot → Slots
unfolding set_heap is_handle
shared_uncache s handle x =
    let here = is_handle handle (lookup x.block_hash s.shared_cached) in
    set_heap uncached handle (record s {
      shared_cached = if here then delete x.block_hash s.shared_cached else s.shared_cached;
      cached_total = if here then dec s.cached_total else s.cached_total;
    })

unfoldable pub release_unused : Slots → Option SharedSlot → Slots
unfolding release_or_cache
release_unused s none = s
release_unused s (some x) =
    if x.cached || is_positive x.copies_inflight
    then s
    else release_or_cache s x.block_hash x.slot_index

unfoldable pub maybe_release_shared : Slots → ℕ → Slots
unfolding release_unused
maybe_release_shared s handle = release_unused s (get_elem? s.heap handle)

-- The slot at a handle leaves the shared cache, and is released if no copy reads it.
unfoldable pub withdraw : Slots → ℕ → Option SharedSlot → Slots
unfolding shared_uncache maybe_release_shared
withdraw s handle none = s
withdraw s handle (some x) = maybe_release_shared (shared_uncache s handle x) handle

unfoldable pub withdraw_hash : Slots → Option ℕ → Slots
unfolding withdraw
withdraw_hash s none = s
withdraw_hash s (some handle) = withdraw s handle (get_elem? s.heap handle)

unfoldable pub shared_decref : Reactor → String → ℕ → Reactor
unfolding drop_reference withdraw_hash
shared_decref r req_id h =
    let (d, last) = drop_reference r.demand req_id h in
    record r {
      demand = d;
      slots = if last then withdraw_hash r.slots (lookup h r.slots.shared_cached) else r.slots;
    }

-- The first shared slot that no copy reads, in the order of `_shared_cached`.
unfoldable pub first_unused : List SharedSlot → Dict ℕ ℕ → Option (ℕ × SharedSlot)
first_unused heap [] = none
first_unused heap ((_, handle) ∷ rest) =
    let later = first_unused heap rest in
    elim (get_elem? heap handle) [
      | none ↦ later
      | some x ↦ if is_positive x.copies_inflight then later else some (handle, x)
    ]

unfoldable pub evict_shared : Reactor → Option (ℕ × SharedSlot) → Reactor × Bool
unfolding shared_uncache purge_owned_for_hash release_slot
evict_shared r none = (r, false)
evict_shared r (some (handle, x)) = (
  record r {
    slots = release_slot (shared_uncache r.slots handle x) x.slot_index;
    demand =
        purge_owned_for_hash
          (record (r.demand) { refcount = delete x.block_hash r.demand.refcount }) x.block_hash;
  },
  true,
)

unfoldable pub evict_one_shared_slot : Reactor → Reactor × Bool
unfolding evict_shared first_unused
evict_one_shared_slot r = evict_shared r (first_unused r.slots.heap r.slots.shared_cached)

unfoldable pub evict_entry : Slots × Option (ℕ × PreloadInfo) → Slots × Bool
unfolding release_slot
evict_entry (s, none) = (s, false)
evict_entry (s, some (i, _)) = (release_slot s i, true)

unfoldable pub evict_first : Slots → Dict ℕ (List (ℕ × PreloadInfo)) → Slots × Bool
unfolding preload_cache_pop evict_entry
evict_first s [] = (s, false)
evict_first s ((h, _) ∷ _) = evict_entry (preload_cache_pop s h)

unfoldable pub evict_one_preload_slot : Reactor → Reactor × Bool
unfolding evict_one_shared_slot evict_first
evict_one_preload_slot r =
    if r.demand.share_preload
    then evict_one_shared_slot r
    else (let (s, done) = evict_first r.slots r.slots.preload_slots in
        (record r { slots = s }, done))

unfoldable pub evicted : Slots → StagingDataCache × Option ℕ → Slots × Bool
unfolding release_slot
evicted s (c, none) = (record s { cache = some c }, false)
evicted s (c, some i) = (release_slot (record s { cache = some c }) i, true)

unfoldable pub evict_one_cache_slot : Slots → Slots × Bool
unfolding evicted
evict_one_cache_slot s = elim s.cache [ none ↦ (s, false) | some c ↦ evicted s (evict_one c) ]

unfoldable pub retry : Slots × Option ℕ → (Slots → Slots × Bool) → Slots × Option ℕ
unfolding reserve
retry (s, some i) make_room = (s, some i)
retry (s, none) make_room = let (s', made) = make_room s in if made then reserve s' else (s', none)

unfoldable pub reserve_preload_slot : Slots → Slots × Option ℕ
unfolding retry reserve evict_one_cache_slot
reserve_preload_slot s = retry (reserve s) evict_one_cache_slot

-- The last resort of `_reserve_foreground_slot`.
unfoldable pub reserve_evicting : Reactor → Reactor × Option ℕ
unfolding evict_one_preload_slot reserve
reserve_evicting r =
    let (r', made) = evict_one_preload_slot r in
    if made
    then (let (s, slot) = reserve r'.slots in (record r' { slots = s }, slot))
    else (r', none)

unfoldable pub foreground : Reactor → Slots × Option ℕ → Reactor × Option ℕ
unfolding reserve_evicting
foreground r (s, some i) = (record r { slots = s }, some i)
foreground r (s, none) = reserve_evicting (record r { slots = s })

unfoldable pub reserve_foreground_slot : Reactor → Reactor × Option ℕ
unfolding foreground reserve_preload_slot
reserve_foreground_slot r = foreground r (reserve_preload_slot r.slots)

unfoldable pub unpin_in : ℕ → Option StagingDataCache → Option StagingDataCache
unpin_in h none = none
unpin_in h (some c) = some (unpin c h)

abbrev pub copy_ended : SharedSlot → SharedSlot
copy_ended x = record x { copies_inflight = dec x.copies_inflight }

-- `_settle_load_slot`, for a copy of the block `h` from the slot `i`.
unfoldable pub settle_load_slot : Slots → ℕ → ℕ → Keeper → Slots
unfolding release_or_cache set_heap maybe_release_shared unpin_in
settle_load_slot s h i own = release_or_cache s h i
settle_load_slot s h i (shared handle) = maybe_release_shared (set_heap copy_ended handle s) handle
settle_load_slot s h i (cached hash) = record s { cache = unpin_in hash s.cache }
settle_load_slot s h i drained = s
