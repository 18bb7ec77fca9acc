-- ===== src/Reactor/Once/Done.antt =====
-- A job of py_kvcache/reactor.py that has an outcome, when a copy or a write has ended.
use py_kvcache.Prelude.{
  ℕ, nat_eq, ◌+◌, Option-cases, inl, inr, Bool, true, false, List, [], ◌∷◌, Option, none, some,
  get_elem?, ltb, ◌==◌, if◌then◌else◌,
}
use py_kvcache.Prelude.Int.{ℤ}
use py_kvcache.Prelude.Dict.{lookup_or, lookup, delete}
use py_kvcache.Reactor.State.{
  Failure, write_failed, queue_failed, copy_failed, Outcome, RingOp, open_load, open_preload,
  read_load, read_preload, write_store, close_fd, LoadCopy, CopyOp, store_copy, load_batch, Reactor,
}
use py_kvcache.Reactor.Places.{release_or_cache, settle_load_slot}
use py_kvcache.Reactor.Jobs.{World, hash_of, file_terminal, submitted, new_user_data}
use py_kvcache.Reactor.Complete.{
  release_store_inflight, store_failed, give_up, data_done, is_whole, on_write, on_complete,
  complete, on_store_copy_done, settle_all, on_copy_done, without, drain_copy, mapping_total,
  flush_copy_batch,
}
use py_kvcache.Reactor.Once.{IsEnded, if-IsEnded, file_terminal-IsEnded}
use py_kvcache.Reactor.Once.Read.{
  give_up-IsEnded, on_open_load-IsEnded, on_open_preload-IsEnded, on_read_load-IsEnded,
  on_read_preload-IsEnded,
}

module _ (j : ℕ) (o : Outcome) where
  pub release_store_inflight-IsEnded :
      (r : Reactor) (h : ℕ) (written : Bool)
      → IsEnded j o r.jobs
      → IsEnded j o (release_store_inflight r h written).jobs
  unfolding release_store_inflight
  release_store_inflight-IsEnded r h written e =
      if-IsEnded j o (ltb 1 (lookup_or h 0 r.demand.store_inflight)) _ _ e e

  pub store_failed-IsEnded :
      (f : Failure) (r : Reactor) (job file_index slot : ℕ)
      → IsEnded j o r.jobs
      → IsEnded j o (store_failed f r job file_index slot).jobs
  unfolding store_failed
  store_failed-IsEnded f r job file_index slot e =
      release_store_inflight-IsEnded (give_up f r job slot) (hash_of r.jobs job file_index) false
        (give_up-IsEnded j o f r job slot e)

  on_write-IsEnded :
      (finishes : Bool) (r : Reactor) (job file_index slot : ℕ) (result : ℤ)
      → IsEnded j o r.jobs
      → IsEnded j o (on_write finishes r job file_index slot result).jobs
  unfolding on_write
  on_write-IsEnded finishes r job file_index slot result e =
      let h = hash_of r.jobs job file_index in
      if-IsEnded j o (if is_whole r result then finishes else false) _
        (store_failed write_failed r job file_index slot)
        (release_store_inflight-IsEnded
          (record r {
            slots = release_or_cache r.slots h slot;
            jobs = file_terminal none job r.jobs;
          })
          h true (file_terminal-IsEnded j o none job r.jobs e))
        (store_failed-IsEnded write_failed r job file_index slot e)

  on_complete-IsEnded :
      (w : World) (finishes : Bool) (r : Reactor) (op : RingOp) (result : ℤ)
      → IsEnded j o r.jobs
      → IsEnded j o (on_complete w finishes r op result).jobs
  unfolding on_complete data_done
  on_complete-IsEnded w finishes r (open_load job file_index) result e =
      on_open_load-IsEnded j o r job file_index result e
  on_complete-IsEnded w finishes r (open_preload info) result e =
      on_open_preload-IsEnded j o r info result e
  on_complete-IsEnded w finishes r (read_load job file_index slot fd) result e =
      on_read_load-IsEnded j o w (data_done r) job file_index slot fd result e
  on_complete-IsEnded w finishes r (read_preload info slot fd) result e =
      on_read_preload-IsEnded j o w (data_done r) info slot fd result e
  on_complete-IsEnded w finishes r (write_store job file_index slot fd) result e =
      on_write-IsEnded finishes (data_done r) job file_index slot result e
  on_complete-IsEnded w finishes r (close_fd fd) result e = e

  pub complete-IsEnded :
      (w : World) (finishes : Bool) (r : Reactor) (user_data : ℕ) (result : ℤ)
      → IsEnded j o r.jobs
      → IsEnded j o (complete w finishes r user_data result).jobs
  unfolding complete
  complete-IsEnded w finishes r user_data result v =
      elim (Option-cases (lookup user_data r.slots.inflight)) [
        | inl e ↦ simp (e, complete) v
        | inr (op, e) ↦
            simp (e, complete)
              (on_complete-IsEnded w finishes
                (record r {
                  slots = record (r.slots) { inflight = delete user_data r.slots.inflight };
                })
                op result v)
      ]

  on_store_copy_done-IsEnded :
      (w : World) (temp : Option ℕ) (r : Reactor) (job file_index slot : ℕ)
      → IsEnded j o r.jobs
      → IsEnded j o (on_store_copy_done w temp r job file_index slot).jobs
  unfolding on_store_copy_done data_done submitted new_user_data
  on_store_copy_done-IsEnded w none r job file_index slot e =
      store_failed-IsEnded write_failed (data_done r) job file_index slot e
  on_store_copy_done-IsEnded w (some fd) r job file_index slot e =
      if-IsEnded j o (w.takes (r.slots.next_user_data + 1)) _ _ e
        (store_failed-IsEnded queue_failed (data_done (new_user_data r)) job file_index slot e)

  settle_all-IsEnded :
      (result : Option Failure) (copies : List LoadCopy) (r : Reactor)
      → IsEnded j o r.jobs
      → IsEnded j o (settle_all result copies r).jobs
  unfolding settle_all
  settle_all-IsEnded result [] r e = e
  settle_all-IsEnded result (c ∷ copies) r e =
      settle_all-IsEnded result copies
        (record r {
          slots =
              settle_load_slot r.slots (hash_of r.jobs c.job c.file_index) c.slot_index c.keeper;
          jobs = file_terminal result c.job r.jobs;
        })
        (file_terminal-IsEnded j o result c.job r.jobs e)

  on_copy_done-IsEnded :
      (w : World) (temp : Option ℕ) (r : Reactor) (c : CopyOp)
      → IsEnded j o r.jobs
      → IsEnded j o (on_copy_done w temp r c).jobs
  unfolding on_copy_done
  on_copy_done-IsEnded w temp r (store_copy job file_index slot) e =
      on_store_copy_done-IsEnded w temp r job file_index slot e
  on_copy_done-IsEnded w temp r (load_batch copies) e = settle_all-IsEnded none copies r e

  pub drain_copy-IsEnded :
      (w : World) (temp : Option ℕ) (r : Reactor) (i : ℕ)
      → IsEnded j o r.jobs
      → IsEnded j o (drain_copy w temp r i).jobs
  unfolding drain_copy
  drain_copy-IsEnded w temp r i v = elim (Option-cases (get_elem? r.slots.pending_copies i)) [
    | inl e ↦ simp (e, drain_copy) v
    | inr (c, e) ↦
        simp (e, drain_copy)
          (on_copy_done-IsEnded w temp
            (record r {
              slots = record (r.slots) { pending_copies = without i r.slots.pending_copies };
            })
            c v)
  ]

  pub flush_copy_batch-IsEnded :
      (launched : Bool) (r : Reactor)
      → IsEnded j o r.jobs
      → IsEnded j o (flush_copy_batch launched r).jobs
  unfolding flush_copy_batch
  flush_copy_batch-IsEnded launched r e =
      let taken = record r { slots = record (r.slots) { copy_ready = [] } } in
      if-IsEnded j o (mapping_total r.slots.copy_ready == 0)
        (settle_all none r.slots.copy_ready taken) _
        (settle_all-IsEnded none r.slots.copy_ready taken e)
        (if-IsEnded j o launched _ (settle_all (some copy_failed) r.slots.copy_ready taken) e
          (settle_all-IsEnded (some copy_failed) r.slots.copy_ready taken e))
