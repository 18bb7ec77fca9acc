-- ===== src/Reactor/Schedule.antt =====
-- `_schedule_work` of py_kvcache/reactor.py. Its loops are bounded by a list: the loop over a job by
-- the files that are left, since each turn begins one, and the others by the queue that each turn
-- shortens.
pub mod Pressure
pub mod Load
unfoldable pub use py_kvcache.Reactor.Schedule.Pressure.{
  can_issue_store, can_open, is_load_op, any_load_op, wants_disk, any_wants_disk,
  has_real_load_pressure, preload_slots_available,
}
unfoldable pub use py_kvcache.Reactor.Schedule.Load.{
  begun, or_unpin, schedule_cache_hit, or_give_back, preload_done, schedule_preload_done,
  schedule_preload_inflight, unclaim, or_unclaim, claimed, shared_claim_from_cache, info_for_job,
  promote_pending, load_shared, cancelled, load_private, load_uncached, load_found, load_cached,
  load_file,
}
use py_kvcache.Prelude.{
  ℕ, zero, suc, ◌+◌, ◌-◌, Bool, true, false, List, [], ◌∷◌, ◌++◌, Option, none, some, if◌then◌else◌,
  ltb, length, get_elem?, modify, nat_eq, not, ◌&&◌, ◌||◌,
}
use py_kvcache.Prelude.Int.{pos, inc, ◌+ℤ◌, is_below}
use py_kvcache.Prelude.Dict.{lookup, lookup_or, values}
use py_kvcache.StagingCache.{StagingDataCache, CacheSlot, get, pin, unpin}
use py_kvcache.Reactor.State.{
  mapping_failed, copy_failed, Job, PreloadInfo, SharedSlot, RingOp, open_load, open_preload,
  read_load, read_preload, write_store, close_fd, own, cached, store_copy, Slots, Reactor,
}
use py_kvcache.Reactor.Demand.{has_inflight, waiter_add, waiter_room, cancel_one_pending}
use py_kvcache.Reactor.Places.{
  preload_cache_pop, has_cached_preload, preload_has_copy, maybe_release_shared, shared_decref,
  reserve_foreground_slot,
}
use py_kvcache.Reactor.Jobs.{
  World, is_set, begin_file, file_terminal, hash_of, chunks_of, store_mapping, from_preload,
  from_cache, queue_load_copy, submit_open_read, submit_open_preload,
}
use py_kvcache.Reactor.Complete.{give_up, or_uncount, queue_shared, req_of, store_failed}

-- The file that a job begins next, while it has not failed and has one left.
unfoldable pub file_of : Option Job → Option ℕ
unfolding is_set
file_of none = none
file_of (some x) =
    if not (is_set x.failed) && ltb x.next_file_index x.total_files
    then some x.next_file_index
    else none

unfoldable pub next_file : List Job → ℕ → Option ℕ
unfolding file_of
next_file jobs job = file_of (get_elem? jobs job)

-- The loop over a job's files; `fuel` is no less than the files that are left.
unfoldable pub load_files : World → ℕ → Reactor → ℕ → Reactor
unfolding load_file next_file hash_of
load_files w zero r job = r
load_files w (suc fuel) r job = elim (next_file r.jobs job) [
  | none ↦ r
  | some file_index ↦
      let (r', more) = load_file w r job file_index (hash_of r.jobs job file_index) in
      let rest = load_files w fuel r' job in if more then rest else r'
]

unfoldable pub left_of : Option Job → ℕ
left_of none = 0
left_of (some x) = x.total_files - x.next_file_index

unfoldable pub files_left : List Job → ℕ → ℕ
unfolding left_of
files_left jobs job = left_of (get_elem? jobs job)

unfoldable pub is_of : Bool → List Job → ℕ → Bool
unfolding is_set
is_of store jobs job = elim (get_elem? jobs job) [
  | none ↦ false
  | some x ↦ not (is_set x.failed) && (if store then x.is_store else not x.is_store)
]

-- The load jobs in turn.
unfoldable pub schedule_loads : World → List ℕ → Reactor → Reactor
unfolding is_of load_files files_left
schedule_loads w [] r = r
schedule_loads w (job ∷ active) r =
    schedule_loads w active
      (if is_of false r.jobs job then load_files w (files_left r.jobs job) r job else r)

-- `_schedule_store_copy`
unfoldable pub schedule_store_copy : World → Reactor → ℕ → ℕ → ℕ → Reactor
unfolding begun store_failed store_mapping chunks_of is_set
schedule_store_copy w r job file_index slot =
    let r' = begun r job in
    if is_set (store_mapping r.storage_block_size_factor slot (chunks_of r.jobs job) file_index)
      && w.launches slot
    then record r' {
      data_inflight = inc r.data_inflight;
      slots = record (r.slots) {
        pending_copies = r.slots.pending_copies ++ store_copy job file_index slot ∷ [];
      };
    }
    else store_failed copy_failed r' job file_index slot

unfoldable pub schedule_reserved : World → ℕ → ℕ → Reactor × Option ℕ → Reactor × Bool
unfolding schedule_store_copy
schedule_reserved w job file_index (r, none) = (r, false)
schedule_reserved w job file_index (r, some slot) =
    (schedule_store_copy w r job file_index slot, true)

-- `_schedule_one`
unfoldable pub schedule_one : World → Reactor → ℕ → ℕ → Reactor × Bool
unfolding schedule_reserved reserve_foreground_slot
schedule_one w r job file_index = schedule_reserved w job file_index (reserve_foreground_slot r)

unfoldable pub store_files : World → ℕ → Reactor → ℕ → Reactor
unfolding schedule_one next_file can_issue_store
store_files w zero r job = r
store_files w (suc fuel) r job = elim (next_file r.jobs job) [
  | none ↦ r
  | some file_index ↦
      if can_issue_store r
      then (let (r', more) = schedule_one w r job file_index in
          let rest = store_files w fuel r' job in if more then rest else r')
      else r
]

unfoldable pub schedule_stores : World → List ℕ → Reactor → Reactor
unfolding is_of store_files files_left
schedule_stores w [] r = r
schedule_stores w (job ∷ active) r =
    schedule_stores w active
      (if is_of true r.jobs job then store_files w (files_left r.jobs job) r job else r)
