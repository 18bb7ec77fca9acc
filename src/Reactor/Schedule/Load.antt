-- ===== src/Reactor/Schedule/Load.antt =====
-- How `_schedule_work` of py_kvcache/reactor.py begins a file of a load.
use py_kvcache.Prelude.{
  ℕ, Bool, true, false, List, Option, none, some, if◌then◌else◌, ltb, get_elem?, modify, nat_eq,
  not, ◌&&◌,
}
use py_kvcache.Prelude.Dict.{lookup, lookup_or}
use py_kvcache.StagingCache.{StagingDataCache, CacheSlot, get, pin, unpin}
use py_kvcache.Reactor.State.{
  mapping_failed, Job, PreloadInfo, SharedSlot, own, cached, Slots, Reactor,
}
use py_kvcache.Reactor.Demand.{has_inflight, waiter_add, waiter_room, cancel_one_pending}
use py_kvcache.Reactor.Places.{
  preload_cache_pop, has_cached_preload, maybe_release_shared, shared_decref,
}
use py_kvcache.Reactor.Jobs.{
  World, begin_file, file_terminal, hash_of, from_preload, from_cache, queue_load_copy,
  submit_open_read, submit_open_preload,
}
use py_kvcache.Reactor.Complete.{give_up, or_uncount, queue_shared, req_of}
use py_kvcache.Reactor.Schedule.Pressure.{can_open}

unfoldable pub begun : Reactor → ℕ → Reactor
begun r job = record r { jobs = modify begin_file job r.jobs }

unfoldable pub or_unpin : ℕ → ℕ → StagingDataCache → Reactor × Bool → Reactor
unfolding file_terminal
or_unpin job h c (r, true) = r
or_unpin job h c (r, false) = record r {
  slots = record (r.slots) { cache = some (unpin c h) };
  jobs = file_terminal (some mapping_failed) job r.jobs;
}

-- `_schedule_cache_hit` of the slot that `c` has under `h`.
unfoldable pub schedule_cache_hit : Reactor → ℕ → ℕ → ℕ → StagingDataCache → CacheSlot → Reactor
unfolding begun or_unpin queue_load_copy
schedule_cache_hit r job file_index h c slot = or_unpin job h (pin c h) (
    queue_load_copy (begun (record r { slots = record (r.slots) { cache = some (pin c h) } }) job)
      job file_index slot.slot_index (cached h) from_cache)

unfoldable pub or_give_back : ℕ → ℕ → Reactor × Bool → Reactor
unfolding give_up
or_give_back job slot (r, true) = r
or_give_back job slot (r, false) = give_up mapping_failed r job slot

unfoldable pub preload_done : Reactor → ℕ → ℕ → Slots × Option (ℕ × PreloadInfo) → Reactor
unfolding begun or_give_back queue_load_copy
preload_done r job file_index (s, none) = r
preload_done r job file_index (s, some (slot, _)) =
    or_give_back job slot
      (queue_load_copy (begun (record r { slots = s }) job) job file_index slot own from_preload)

unfoldable pub schedule_preload_done : Reactor → ℕ → ℕ → ℕ → Reactor
unfolding preload_done preload_cache_pop
schedule_preload_done r job file_index h =
    preload_done r job file_index (preload_cache_pop r.slots h)

unfoldable pub schedule_preload_inflight : Reactor → ℕ → ℕ → ℕ → Reactor
unfolding begun waiter_add
schedule_preload_inflight r job file_index h = record (begun r job) {
  demand = waiter_add r.demand h job file_index;
}

unfoldable pub unclaim : ℕ → Reactor → Reactor
unfolding maybe_release_shared
unclaim handle r = record r { slots = maybe_release_shared r.slots handle }

unfoldable pub or_unclaim : ℕ → ℕ → Reactor × Bool → Reactor
unfolding or_uncount unclaim
or_unclaim job handle (r, true) = r
or_unclaim job handle (r, false) = unclaim handle (or_uncount job handle (r, false))

unfoldable pub claimed : Reactor → ℕ → ℕ → ℕ → ℕ → Option SharedSlot → Reactor
unfolding begun or_unclaim queue_shared shared_decref req_of
claimed r job file_index h handle none = r
claimed r job file_index h handle (some x) =
    shared_decref
      (or_unclaim job handle (queue_shared (begun r job) job file_index x.slot_index handle))
      (req_of r.jobs job) h

-- `_shared_claim_from_cache` of the slot at a handle.
unfoldable pub shared_claim_from_cache : Reactor → ℕ → ℕ → ℕ → ℕ → Reactor
unfolding claimed
shared_claim_from_cache r job file_index h handle =
    claimed r job file_index h handle (get_elem? r.slots.heap handle)

unfoldable pub info_for_job : List Job → ℕ → ℕ → PreloadInfo
unfolding hash_of req_of
info_for_job jobs job file_index = record {
  block_hash = hash_of jobs job file_index;
  preload_id = "";
  req_id = req_of jobs job;
  profile_tid = "kv_preload";
  file_index = file_index;
  total_files = elim (get_elem? jobs job) [ none ↦ 0 | some x ↦ x.total_files ];
}

unfoldable pub promote_pending : World → Reactor → ℕ → ℕ → ℕ → Reactor
unfolding cancel_one_pending submit_open_preload schedule_preload_inflight info_for_job
promote_pending w r job file_index h =
    schedule_preload_inflight
      (submit_open_preload w (record r { demand = (cancel_one_pending r.demand h).0 })
        (info_for_job r.jobs job file_index))
      job file_index h

-- A turn of the loop over a job's files with shared preloads: the reactor after, and whether the loop
-- goes on.
unfoldable pub load_shared : World → Reactor → ℕ → ℕ → ℕ → Reactor × Bool
unfolding shared_claim_from_cache has_inflight schedule_preload_inflight can_open promote_pending
    submit_open_read shared_decref req_of
load_shared w r job file_index h = elim (lookup h r.slots.shared_cached) [
  | some handle ↦ (shared_claim_from_cache r job file_index h handle, true)
  | none ↦
      if has_inflight r.demand h
      then (schedule_preload_inflight r job file_index h, true)
      else if not (can_open r)
      then (r, false)
      else if ltb 0 (lookup_or h 0 r.demand.pending_count)
      then (promote_pending w r job file_index h, true)
      else (shared_decref (submit_open_read w r job file_index) (req_of r.jobs job) h, true)
]

unfoldable pub cancelled : Reactor → ℕ → Reactor
unfolding cancel_one_pending
cancelled r h = record r { demand = (cancel_one_pending r.demand h).0 }

-- The same without sharing.
unfoldable pub load_private : World → Reactor → ℕ → ℕ → ℕ → Reactor × Bool
unfolding has_cached_preload schedule_preload_done has_inflight waiter_room
    schedule_preload_inflight can_open submit_open_read cancelled
load_private w r job file_index h =
    if has_cached_preload r.slots h
    then (schedule_preload_done r job file_index h, true)
    else if has_inflight r.demand h && waiter_room r.demand h
    then (schedule_preload_inflight r job file_index h, true)
    else if not (can_open r)
    then (r, false)
    else (cancelled (submit_open_read w r job file_index) h, true)

unfoldable pub load_uncached : World → Reactor → ℕ → ℕ → ℕ → Reactor × Bool
unfolding load_shared load_private
load_uncached w r job file_index h =
    if r.demand.share_preload
    then load_shared w r job file_index h
    else load_private w r job file_index h

unfoldable pub load_found :
    World → Reactor → ℕ → ℕ → ℕ → StagingDataCache × Option CacheSlot → Reactor × Bool
unfolding schedule_cache_hit load_uncached
load_found w r job file_index h (c, some slot) =
    (schedule_cache_hit r job file_index h c slot, true)
load_found w r job file_index h (c, none) =
    load_uncached w (record r { slots = record (r.slots) { cache = some c } }) job file_index h

unfoldable pub load_cached : World → Reactor → ℕ → ℕ → ℕ → Option StagingDataCache → Reactor × Bool
unfolding load_found load_uncached
load_cached w r job file_index h none = load_uncached w r job file_index h
load_cached w r job file_index h (some c) = load_found w r job file_index h (get c h)

-- A turn of the loop over a job's files.
unfoldable pub load_file : World → Reactor → ℕ → ℕ → ℕ → Reactor × Bool
unfolding load_cached
load_file w r job file_index h = load_cached w r job file_index h r.slots.cache
