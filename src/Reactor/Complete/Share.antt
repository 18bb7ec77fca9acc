-- ===== src/Reactor/Complete/Share.antt =====
-- What py_kvcache/reactor.py does when a preload was read, which requests may share.
use Prim.Native.String.{String}
use py_kvcache.Prelude.{
  ℕ, Bool, true, false, List, [], ◌∷◌, ◌++◌, none, some, if◌then◌else◌, ltb, length, get_elem?,
  nat_eq,
}
use py_kvcache.Prelude.Int.{ℤ, pos, inc}
use py_kvcache.Prelude.Dict.{lookup_or, insert, delete}
use py_kvcache.Reactor.State.{
  read_failed, mapping_failed, Job, PreloadInfo, SharedSlot, shared, Slots, Reactor,
}
use py_kvcache.Reactor.Demand.{inflight_remove}
use py_kvcache.Reactor.Places.{
  release_slot, set_heap, copy_ended, maybe_release_shared, shared_decref,
}
use py_kvcache.Reactor.Jobs.{
  World, file_terminal, fail_all_preload_waiters, from_preload, queue_load_copy, async_close,
}
use py_kvcache.Reactor.Complete.Read.{is_whole, on_private_read}

abbrev pub copy_begun : SharedSlot → SharedSlot
copy_begun x = record x { copies_inflight = inc x.copies_inflight }

unfoldable pub req_of : List Job → ℕ → String
req_of jobs job = elim (get_elem? jobs job) [ none ↦ "" | some x ↦ x.req_id ]

unfoldable pub or_uncount : ℕ → ℕ → Reactor × Bool → Reactor
unfolding set_heap file_terminal
or_uncount job handle (r, true) = r
or_uncount job handle (r, false) = record r {
  slots = set_heap copy_ended handle r.slots;
  jobs = file_terminal (some mapping_failed) job r.jobs;
}

-- A copy from a shared slot is counted and queued.
unfoldable pub queue_shared : Reactor → ℕ → ℕ → ℕ → ℕ → Reactor × Bool
unfolding queue_load_copy set_heap
queue_shared r job file_index slot handle =
    queue_load_copy (record r { slots = set_heap copy_begun handle r.slots }) job file_index slot
      (shared handle) from_preload

-- One read serves every waiter.
unfoldable pub serve_each : ℕ → ℕ → ℕ → List (ℕ × ℕ) → Reactor → Reactor
unfolding or_uncount queue_shared shared_decref req_of
serve_each h slot handle [] r = r
serve_each h slot handle ((job, file_index) ∷ waiters) r = serve_each h slot handle waiters (
    shared_decref (or_uncount job handle (queue_shared r job file_index slot handle))
      (req_of r.jobs job) h)

abbrev pub cached_now : SharedSlot → SharedSlot
cached_now x = record x { cached = true }

-- The slot is kept under its hash if that is still demanded, and else released after its copies.
unfoldable pub keep_shared : Reactor → ℕ → ℕ → Reactor
unfolding maybe_release_shared set_heap
keep_shared r h handle =
    if (if r.stop then false else ltb 0 (lookup_or h 0 r.demand.refcount))
    then record r {
      slots = set_heap cached_now handle (record (r.slots) {
        shared_cached = insert h handle r.slots.shared_cached;
        cached_total = inc r.slots.cached_total;
      });
    }
    else record r { slots = maybe_release_shared r.slots handle }

-- A new shared slot, at the end of the heap.
unfoldable pub add_shared : Slots → PreloadInfo → ℕ → Slots
add_shared s info slot = record s {
  heap =
      s.heap
      ++ (record {
        block_hash = info.block_hash;
        slot_index = slot;
        preload_info = info;
        copies_inflight = pos 0;
        cached = false;
      })
        ∷ [];
}

unfoldable pub shared_read : Reactor → PreloadInfo → ℕ → Reactor
unfolding keep_shared serve_each add_shared
shared_read r info slot =
    let h = info.block_hash in
    let handle = length r.slots.heap in
    keep_shared
      (serve_each h slot handle (lookup_or h [] r.demand.waiters) (record r {
        slots = add_shared r.slots info slot;
        demand = record (r.demand) { waiters = delete h r.demand.waiters };
      }))
      h handle

unfoldable pub on_shared_read : Reactor → PreloadInfo → ℕ → ℤ → Reactor
unfolding is_whole shared_read fail_all_preload_waiters release_slot inflight_remove
on_shared_read r info slot result =
    let r' = record r { demand = inflight_remove r.demand info.block_hash } in
    if is_whole r result
    then shared_read r' info slot
    else (let failed = fail_all_preload_waiters r' info.block_hash read_failed in
        record failed { slots = release_slot failed.slots slot })

unfoldable pub on_read_preload : World → Reactor → PreloadInfo → ℕ → ℕ → ℤ → Reactor
unfolding on_shared_read on_private_read async_close
on_read_preload w r info slot fd result =
    async_close w
      (if r.demand.share_preload
        then on_shared_read r info slot result
        else on_private_read r info slot result)
      fd
