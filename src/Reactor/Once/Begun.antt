-- ===== src/Reactor/Once/Begun.antt =====
-- A job of py_kvcache/reactor.py that has an outcome, when files are begun.
use py_kvcache.Prelude.{
  ℕ, zero, suc, nat_eq, ◌+◌, Bool-cases, Option-cases, inl, inr, Bool, true, false, List, [], ◌∷◌,
  Option, none, some, get_elem?, ltb, not, ◌&&◌, if◌then◌else◌,
}
use py_kvcache.Prelude.Dict.{lookup_or, lookup}
use py_kvcache.StagingCache.{StagingDataCache, CacheSlot, get, pin}
use py_kvcache.Reactor.State.{
  mapping_failed, Outcome, own, cached, SharedSlot, PreloadInfo, Slots, Reactor,
}
use py_kvcache.Reactor.Demand.{has_inflight, waiter_room, cancel_one_pending}
use py_kvcache.Reactor.Places.{
  preload_cache_pop, has_cached_preload, first_unused, evict_shared, evict_one_shared_slot,
  evict_one_preload_slot, reserve_evicting, foreground, reserve_preload_slot,
  reserve_foreground_slot,
}
use py_kvcache.Reactor.Jobs.{
  World, hash_of, from_preload, from_cache, queue_load_copy, submit_open_read, submit_open_preload,
  submitted, new_user_data,
}
use py_kvcache.Reactor.Complete.{or_uncount, queue_shared, req_of}
use py_kvcache.Reactor.Schedule.{
  begun, or_unpin, schedule_cache_hit, or_give_back, preload_done, schedule_preload_done,
  schedule_preload_inflight, unclaim, or_unclaim, claimed, shared_claim_from_cache, info_for_job,
  promote_pending, can_open, load_shared, cancelled, load_private, load_uncached, load_found,
  load_cached, load_file, next_file, load_files, files_left, is_of, schedule_loads,
}
use py_kvcache.Reactor.Once.{
  IsEnded, if-IsEnded, turn-IsEnded, begin_file-IsEnded, file_terminal-IsEnded,
  queue_load_copy-IsEnded, submit_open_read-IsEnded,
}
use py_kvcache.Reactor.Once.Read.{give_up-IsEnded, queue_shared-IsEnded, shared_decref-IsEnded}

module _ (j : ℕ) (o : Outcome) where
  begun-IsEnded : (r : Reactor) (job : ℕ) → IsEnded j o r.jobs → IsEnded j o (begun r job).jobs
  unfolding begun
  begun-IsEnded r job e = begin_file-IsEnded j o job r.jobs e

  or_unpin-IsEnded :
      (job h : ℕ) (c : StagingDataCache) (q : Reactor × Bool)
      → IsEnded j o q.0.jobs
      → IsEnded j o (or_unpin job h c q).jobs
  unfolding or_unpin
  or_unpin-IsEnded job h c (r, true) e = e
  or_unpin-IsEnded job h c (r, false) e =
      file_terminal-IsEnded j o (some mapping_failed) job r.jobs e

  schedule_cache_hit-IsEnded :
      (r : Reactor) (job file_index h : ℕ) (c : StagingDataCache) (slot : CacheSlot)
      → IsEnded j o r.jobs
      → IsEnded j o (schedule_cache_hit r job file_index h c slot).jobs
  unfolding schedule_cache_hit
  schedule_cache_hit-IsEnded r job file_index h c slot e =
      let pinned = record r { slots = record (r.slots) { cache = some (pin c h) } } in
      or_unpin-IsEnded job h (pin c h)
        (queue_load_copy (begun pinned job) job file_index slot.slot_index (cached h) from_cache)
        (queue_load_copy-IsEnded j o (begun pinned job) job file_index slot.slot_index (cached h)
          from_cache (begun-IsEnded pinned job e))

  or_give_back-IsEnded :
      (job slot : ℕ) (q : Reactor × Bool)
      → IsEnded j o q.0.jobs
      → IsEnded j o (or_give_back job slot q).jobs
  unfolding or_give_back
  or_give_back-IsEnded job slot (r, true) e = e
  or_give_back-IsEnded job slot (r, false) e = give_up-IsEnded j o mapping_failed r job slot e

  preload_done-IsEnded :
      (r : Reactor) (job file_index : ℕ) (p : Slots × Option (ℕ × PreloadInfo))
      → IsEnded j o r.jobs
      → IsEnded j o (preload_done r job file_index p).jobs
  unfolding preload_done
  preload_done-IsEnded r job file_index (s, none) e = e
  preload_done-IsEnded r job file_index (s, some (slot, _)) e =
      let r' = begun (record r { slots = s }) job in
      or_give_back-IsEnded job slot (queue_load_copy r' job file_index slot own from_preload) (
        queue_load_copy-IsEnded j o r' job file_index slot own from_preload
          (begun-IsEnded (record r { slots = s }) job e))

  or_unclaim-IsEnded :
      (job handle : ℕ) (q : Reactor × Bool)
      → IsEnded j o (or_uncount job handle q).jobs
      → IsEnded j o (or_unclaim job handle q).jobs
  unfolding or_unclaim or_uncount unclaim
  or_unclaim-IsEnded job handle (r, true) e = e
  or_unclaim-IsEnded job handle (r, false) e = e

  claimed-IsEnded :
      (r : Reactor) (job file_index h handle : ℕ) (m : Option SharedSlot)
      → IsEnded j o r.jobs
      → IsEnded j o (claimed r job file_index h handle m).jobs
  unfolding claimed
  claimed-IsEnded r job file_index h handle none e = e
  claimed-IsEnded r job file_index h handle (some x) e =
      let q = queue_shared (begun r job) job file_index x.slot_index handle in
      shared_decref-IsEnded j o (or_unclaim job handle q) (req_of r.jobs job) h (
        or_unclaim-IsEnded job handle q (
          queue_shared-IsEnded j o (begun r job) job file_index x.slot_index handle
            (begun-IsEnded r job e)))

  pub submit_open_preload-IsEnded :
      (w : World) (r : Reactor) (info : PreloadInfo)
      → IsEnded j o r.jobs
      → IsEnded j o (submit_open_preload w r info).jobs
  unfolding submit_open_preload submitted new_user_data
  submit_open_preload-IsEnded w r info e =
      if-IsEnded j o (w.takes (r.slots.next_user_data + 1)) _ _ e e

  waiting-IsEnded :
      (r : Reactor) (job file_index h : ℕ)
      → IsEnded j o r.jobs
      → IsEnded j o (schedule_preload_inflight r job file_index h).jobs
  unfolding schedule_preload_inflight
  waiting-IsEnded r job file_index h e = begun-IsEnded r job e

  promote_pending-IsEnded :
      (w : World) (r : Reactor) (job file_index h : ℕ)
      → IsEnded j o r.jobs
      → IsEnded j o (promote_pending w r job file_index h).jobs
  unfolding promote_pending
  promote_pending-IsEnded w r job file_index h e =
      let r' = record r { demand = (cancel_one_pending r.demand h).0 } in
      let info = info_for_job r.jobs job file_index in
      waiting-IsEnded (submit_open_preload w r' info) job file_index h
        (submit_open_preload-IsEnded w r' info e)

  load_shared-IsEnded :
      (w : World) (r : Reactor) (job file_index h : ℕ)
      → IsEnded j o r.jobs
      → IsEnded j o (load_shared w r job file_index h).0.jobs
  unfolding load_shared shared_claim_from_cache
  load_shared-IsEnded w r job file_index h v =
      elim (Option-cases (lookup h r.slots.shared_cached)) [
        | inl e ↦
            simp (e, load_shared)
              (turn-IsEnded j o (has_inflight r.demand h) _ _ (waiting-IsEnded r job file_index h v)
                (turn-IsEnded j o (not (can_open r)) _ _ v (
                  turn-IsEnded j o (ltb 0 (lookup_or h 0 r.demand.pending_count)) _ _
                    (promote_pending-IsEnded w r job file_index h v)
                    (shared_decref-IsEnded j o (submit_open_read w r job file_index)
                      (req_of r.jobs job) h (submit_open_read-IsEnded j o w r job file_index v)))))
        | inr (handle, e) ↦
            simp (e, load_shared)
              (claimed-IsEnded r job file_index h handle (get_elem? r.slots.heap handle) v)
      ]

  load_private-IsEnded :
      (w : World) (r : Reactor) (job file_index h : ℕ)
      → IsEnded j o r.jobs
      → IsEnded j o (load_private w r job file_index h).0.jobs
  unfolding load_private cancelled schedule_preload_done
  load_private-IsEnded w r job file_index h v =
      turn-IsEnded j o (has_cached_preload r.slots h) _ _
        (preload_done-IsEnded r job file_index (preload_cache_pop r.slots h) v)
        (turn-IsEnded j o (has_inflight r.demand h && waiter_room r.demand h) _ _
          (waiting-IsEnded r job file_index h v)
          (turn-IsEnded j o (not (can_open r)) _ _ v
            (submit_open_read-IsEnded j o w r job file_index v)))

  load_uncached-IsEnded :
      (w : World) (r : Reactor) (job file_index h : ℕ)
      → IsEnded j o r.jobs
      → IsEnded j o (load_uncached w r job file_index h).0.jobs
  unfolding load_uncached
  load_uncached-IsEnded w r job file_index h v =
      turn-IsEnded j o r.demand.share_preload _ _ (load_shared-IsEnded w r job file_index h v)
        (load_private-IsEnded w r job file_index h v)

  load_found-IsEnded :
      (w : World) (r : Reactor) (job file_index h : ℕ) (p : StagingDataCache × Option CacheSlot)
      → IsEnded j o r.jobs
      → IsEnded j o (load_found w r job file_index h p).0.jobs
  unfolding load_found
  load_found-IsEnded w r job file_index h (c, some slot) v =
      schedule_cache_hit-IsEnded r job file_index h c slot v
  load_found-IsEnded w r job file_index h (c, none) v =
      load_uncached-IsEnded w (record r { slots = record (r.slots) { cache = some c } }) job
        file_index h v

  load_cached-IsEnded :
      (w : World) (r : Reactor) (job file_index h : ℕ) (m : Option StagingDataCache)
      → IsEnded j o r.jobs
      → IsEnded j o (load_cached w r job file_index h m).0.jobs
  unfolding load_cached
  load_cached-IsEnded w r job file_index h none v = load_uncached-IsEnded w r job file_index h v
  load_cached-IsEnded w r job file_index h (some c) v =
      load_found-IsEnded w r job file_index h (get c h) v

  load_files-IsEnded :
      (w : World) (fuel : ℕ) (r : Reactor) (job : ℕ)
      → IsEnded j o r.jobs
      → IsEnded j o (load_files w fuel r job).jobs
  unfolding load_files load_file
  load_files-IsEnded w zero r job v = v
  load_files-IsEnded w (suc fuel) r job v = elim (Option-cases (next_file r.jobs job)) [
    | inl e ↦ simp (e, load_files) v
    | inr (i, e) ↦
        let turn = load_file w r job i (hash_of r.jobs job i) in
        let after = load_cached-IsEnded w r job i (hash_of r.jobs job i) r.slots.cache v in
        simp (e, load_files)
          (if-IsEnded j o turn.1 (load_files w fuel turn.0 job) turn.0
            (load_files-IsEnded w fuel turn.0 job after) after)
  ]

  pub schedule_loads-IsEnded :
      (w : World) (active : List ℕ) (r : Reactor)
      → IsEnded j o r.jobs
      → IsEnded j o (schedule_loads w active r).jobs
  unfolding schedule_loads
  schedule_loads-IsEnded w [] r v = v
  schedule_loads-IsEnded w (job ∷ active) r v =
      let looped = load_files w (files_left r.jobs job) r job in
      schedule_loads-IsEnded w active (if is_of false r.jobs job then looped else r) (
        if-IsEnded j o (is_of false r.jobs job) looped r
          (load_files-IsEnded w (files_left r.jobs job) r job v) v)

  evict_shared-IsEnded :
      (r : Reactor) (m : Option (ℕ × SharedSlot))
      → IsEnded j o r.jobs
      → IsEnded j o (evict_shared r m).0.jobs
  unfolding evict_shared
  evict_shared-IsEnded r none v = v
  evict_shared-IsEnded r (some (handle, x)) v = v

  evict_one_preload_slot-IsEnded :
      (r : Reactor) → IsEnded j o r.jobs → IsEnded j o (evict_one_preload_slot r).0.jobs
  unfolding evict_one_preload_slot evict_one_shared_slot
  evict_one_preload_slot-IsEnded r v =
      turn-IsEnded j o r.demand.share_preload _ _
        (evict_shared-IsEnded r (first_unused r.slots.heap r.slots.shared_cached) v) v

  reserve_evicting-IsEnded :
      (r : Reactor) → IsEnded j o r.jobs → IsEnded j o (reserve_evicting r).0.jobs
  unfolding reserve_evicting
  reserve_evicting-IsEnded r v =
      let after = evict_one_preload_slot-IsEnded r v in
      elim (Bool-cases (evict_one_preload_slot r).1) [ inl e ↦ rw e after | inr e ↦ rw e after ]

  foreground-IsEnded :
      (r : Reactor) (p : Slots × Option ℕ)
      → IsEnded j o r.jobs
      → IsEnded j o (foreground r p).0.jobs
  unfolding foreground
  foreground-IsEnded r (s, some i) v = v
  foreground-IsEnded r (s, none) v = reserve_evicting-IsEnded (record r { slots = s }) v

  pub reserve_foreground_slot-IsEnded :
      (r : Reactor) → IsEnded j o r.jobs → IsEnded j o (reserve_foreground_slot r).0.jobs
  unfolding reserve_foreground_slot
  reserve_foreground_slot-IsEnded r v = foreground-IsEnded r (reserve_preload_slot r.slots) v
