-- ===== src/Reactor/Complete.antt =====
-- What py_kvcache/reactor.py does when the ring or the GPU has completed something. The number that
-- the ring completes a submission with is an argument, as is whether `finish_write` returns and the
-- descriptor that `open_temp_write` opens, none where it raises.
pub mod Read
pub mod Share
unfoldable pub use py_kvcache.Reactor.Complete.Read.{
  push_all, rearm, release_store_inflight, park_missed, open_preload_failed, on_open_load,
  on_open_preload, is_whole, give_up, or_give_up, on_read_load, preload_failed, or_preload_failed,
  preload_read, on_private_read,
}
unfoldable pub use py_kvcache.Reactor.Complete.Share.{
  copy_begun, req_of, or_uncount, queue_shared, serve_each, cached_now, keep_shared, add_shared,
  shared_read, on_shared_read, on_read_preload,
}
use Prim.Native.String.{String}
use py_kvcache.Prelude.{
  ℕ, zero, suc, ◌+◌, ◌-◌, Bool, true, false, List, [], ◌∷◌, ◌++◌, Option, none, some, if◌then◌else◌,
  ltb, length, get_elem?, nat_eq, ◌==◌,
}
use py_kvcache.Prelude.Int.{ℤ, pos, negsuc, inc, dec}
use py_kvcache.Prelude.Dict.{lookup, lookup_or, insert, delete, has}
use py_kvcache.Reactor.State.{
  Failure, open_failed, read_failed, write_failed, queue_failed, mapping_failed, copy_failed, Job,
  PreloadInfo, SharedSlot, RingOp, open_load, open_preload, read_load, read_preload, write_store,
  close_fd, own, shared, LoadCopy, CopyOp, store_copy, load_batch, Slots, Demand, Reactor,
}
use py_kvcache.Reactor.Demand.{
  inflight_remove, has_waiter, waiter_pop, pending_push, block_on_write, remember_known_missing,
  purge_owned_for_hash,
}
use py_kvcache.Reactor.Places.{
  release_slot, release_or_cache, preload_cache_push, set_heap, copy_ended, maybe_release_shared,
  shared_decref, settle_load_slot, in_cache,
}
use py_kvcache.Reactor.Jobs.{
  World, file_terminal, fail_all_preload_waiters, fail_one_waiter, fail_preload, hash_of, from_file,
  from_preload, queue_load_copy, submitted, new_user_data, async_close,
}

-- A file of a store failed.
unfoldable pub store_failed : Failure → Reactor → ℕ → ℕ → ℕ → Reactor
unfolding give_up release_store_inflight hash_of
store_failed e r job file_index slot =
    release_store_inflight (give_up e r job slot) (hash_of r.jobs job file_index) false

-- `finishes` is whether `finish_write` returns.
unfoldable pub on_write : Bool → Reactor → ℕ → ℕ → ℕ → ℤ → Reactor
unfolding is_whole release_or_cache file_terminal release_store_inflight hash_of store_failed
on_write finishes r job file_index slot result =
    if (if is_whole r result then finishes else false)
    then (let h = hash_of r.jobs job file_index in
        release_store_inflight
          (record r {
            slots = release_or_cache r.slots h slot;
            jobs = file_terminal none job r.jobs;
          })
          h true)
    else store_failed write_failed r job file_index slot

unfoldable pub data_done : Reactor → Reactor
data_done r = record r { data_inflight = dec r.data_inflight }

-- `_poll_ring_completions` of one submission.
unfoldable pub on_complete : World → Bool → Reactor → RingOp → ℤ → Reactor
unfolding on_open_load on_open_preload on_read_load on_read_preload on_write data_done
on_complete w finishes r (open_load job file_index) result = on_open_load r job file_index result
on_complete w finishes r (open_preload info) result = on_open_preload r info result
on_complete w finishes r (read_load job file_index slot fd) result =
    on_read_load w (data_done r) job file_index slot fd result
on_complete w finishes r (read_preload info slot fd) result =
    on_read_preload w (data_done r) info slot fd result
on_complete w finishes r (write_store job file_index slot fd) result =
    on_write finishes (data_done r) job file_index slot result
on_complete w finishes r (close_fd fd) result = r

-- `self._inflight.pop(user_data, None)`, and its completion.
unfoldable pub complete : World → Bool → Reactor → ℕ → ℤ → Reactor
unfolding on_complete
complete w finishes r user_data result = elim (lookup user_data r.slots.inflight) [
  | none ↦ r
  | some op ↦
      on_complete w finishes
        (record r { slots = record (r.slots) { inflight = delete user_data r.slots.inflight } }) op
        result
]

-- `_on_store_copy_done`; `temp` is the descriptor of the temporary file.
unfoldable pub on_store_copy_done : World → Option ℕ → Reactor → ℕ → ℕ → ℕ → Reactor
unfolding data_done store_failed submitted new_user_data
on_store_copy_done w none r job file_index slot =
    store_failed write_failed (data_done r) job file_index slot
on_store_copy_done w (some fd) r job file_index slot =
    let r' = new_user_data r in
    if w.takes r'.slots.next_user_data
    then submitted r' (write_store job file_index slot fd)
    else store_failed queue_failed (data_done r') job file_index slot

-- Copies to the GPU have ended, with or without an exception.
unfoldable pub settle_all : Option Failure → List LoadCopy → Reactor → Reactor
unfolding settle_load_slot file_terminal hash_of
settle_all result [] r = r
settle_all result (c ∷ copies) r = settle_all result copies (record r {
  slots = settle_load_slot r.slots (hash_of r.jobs c.job c.file_index) c.slot_index c.keeper;
  jobs = file_terminal result c.job r.jobs;
})

unfoldable pub on_copy_done : World → Option ℕ → Reactor → CopyOp → Reactor
unfolding on_store_copy_done settle_all
on_copy_done w temp r (store_copy job file_index slot) =
    on_store_copy_done w temp r job file_index slot
on_copy_done w temp r (load_batch copies) = settle_all none copies r

abbrev pub without : ℕ → List CopyOp → List CopyOp
without i [] = []
without zero (_ ∷ copies) = copies
without (suc i) (c ∷ copies) = c ∷ without i copies

-- `_drain_cuda_copies` of one copy, the one at an index.
unfoldable pub drain_copy : World → Option ℕ → Reactor → ℕ → Reactor
unfolding on_copy_done
drain_copy w temp r i = elim (get_elem? r.slots.pending_copies i) [
  | none ↦ r
  | some c ↦
      on_copy_done w temp
        (record r {
          slots = record (r.slots) { pending_copies = without i r.slots.pending_copies };
        })
        c
]

abbrev pub mapping_total : List LoadCopy → ℕ
mapping_total [] = 0
mapping_total (c ∷ copies) = c.mapping_len + mapping_total copies

-- `_flush_copy_batch`; `launched` is whether the batch could be launched.
unfoldable pub flush_copy_batch : Bool → Reactor → Reactor
unfolding settle_all
flush_copy_batch launched r =
    let ready = r.slots.copy_ready in
    let taken = record r { slots = record (r.slots) { copy_ready = [] } } in
    if mapping_total ready == 0
    then settle_all none ready taken
    else if launched
    then record r {
      slots = record (r.slots) {
        copy_ready = [];
        pending_copies = r.slots.pending_copies ++ load_batch ready ∷ [];
      };
    }
    else settle_all (some copy_failed) ready taken
