-- ===== src/Reactor/Once/Read.antt =====
-- A job of py_kvcache/reactor.py that has an outcome, when a file is opened or read.
use Prim.Native.String.{String}
use py_kvcache.Prelude.{
  ℕ, nat_eq, Bool, true, false, List, [], ◌∷◌, Option, none, some, length, ltb, if◌then◌else◌,
}
use py_kvcache.Prelude.Int.{ℤ, pos, negsuc, dec}
use py_kvcache.Prelude.Dict.{lookup_or, delete}
use py_kvcache.Reactor.State.{
  Failure, open_failed, read_failed, mapping_failed, Outcome, own, shared, PreloadInfo, Demand,
  Reactor,
}
use py_kvcache.Reactor.Demand.{waiter_pop, inflight_remove, has_waiter}
use py_kvcache.Reactor.Places.{release_slot, set_heap, shared_decref}
use py_kvcache.Reactor.Jobs.{World, from_file, from_preload, queue_load_copy, fail_preload}
use py_kvcache.Reactor.Complete.{
  open_preload_failed, on_open_load, on_open_preload, is_whole, give_up, or_give_up, on_read_load,
  preload_failed, or_preload_failed, preload_read, on_private_read, copy_begun, or_uncount,
  queue_shared, req_of, serve_each, keep_shared, add_shared, shared_read, on_shared_read,
  on_read_preload,
}
use py_kvcache.Reactor.Once.{
  IsEnded, if-IsEnded, file_terminal-IsEnded, fail_preload-IsEnded, fail_one_waiter-IsEnded,
  fail_all_preload_waiters-IsEnded, queue_load_copy-IsEnded, async_close-IsEnded,
}

module _ (j : ℕ) (o : Outcome) where
  pub on_open_load-IsEnded :
      (r : Reactor) (job file_index : ℕ) (result : ℤ)
      → IsEnded j o r.jobs
      → IsEnded j o (on_open_load r job file_index result).jobs
  unfolding on_open_load
  on_open_load-IsEnded r job file_index (pos _) e = e
  on_open_load-IsEnded r job file_index (negsuc _) e =
      file_terminal-IsEnded j o (some open_failed) job r.jobs e

  pub on_open_preload-IsEnded :
      (r : Reactor) (info : PreloadInfo) (result : ℤ)
      → IsEnded j o r.jobs
      → IsEnded j o (on_open_preload r info result).jobs
  unfolding on_open_preload open_preload_failed
  on_open_preload-IsEnded r info (pos _) e = e
  on_open_preload-IsEnded r info (negsuc _) e =
      let d = inflight_remove r.demand info.block_hash in
      let r' = record r { open_inflight = dec r.open_inflight; demand = d } in
      if-IsEnded j o (has_waiter d info.block_hash) (fail_preload r' info.block_hash open_failed) _
        (fail_preload-IsEnded j o r' info.block_hash open_failed e) e

  pub give_up-IsEnded :
      (f : Failure) (r : Reactor) (job slot : ℕ)
      → IsEnded j o r.jobs
      → IsEnded j o (give_up f r job slot).jobs
  unfolding give_up
  give_up-IsEnded f r job slot e = file_terminal-IsEnded j o (some f) job r.jobs e

  or_give_up-IsEnded :
      (job slot : ℕ) (q : Reactor × Bool)
      → IsEnded j o q.0.jobs
      → IsEnded j o (or_give_up job slot q).jobs
  unfolding or_give_up
  or_give_up-IsEnded job slot (r, true) e = e
  or_give_up-IsEnded job slot (r, false) e = give_up-IsEnded mapping_failed r job slot e

  pub on_read_load-IsEnded :
      (w : World) (r : Reactor) (job file_index slot fd : ℕ) (result : ℤ)
      → IsEnded j o r.jobs
      → IsEnded j o (on_read_load w r job file_index slot fd result).jobs
  unfolding on_read_load
  on_read_load-IsEnded w r job file_index slot fd result e =
      let q = queue_load_copy r job file_index slot own from_file in
      async_close-IsEnded j o w
        (if is_whole r result then or_give_up job slot q else give_up read_failed r job slot) fd
        (if-IsEnded j o (is_whole r result) (or_give_up job slot q) (give_up read_failed r job slot)
          (or_give_up-IsEnded job slot q
            (queue_load_copy-IsEnded j o r job file_index slot own from_file e))
          (give_up-IsEnded read_failed r job slot e))

  preload_failed-IsEnded :
      (f : Failure) (r : Reactor) (h slot : ℕ)
      → IsEnded j o r.jobs
      → IsEnded j o (preload_failed f r h slot).jobs
  unfolding preload_failed
  preload_failed-IsEnded f r h slot e =
      fail_one_waiter-IsEnded j o (record r { slots = release_slot r.slots slot }) h f e

  or_preload_failed-IsEnded :
      (h slot : ℕ) (q : Reactor × Bool)
      → IsEnded j o q.0.jobs
      → IsEnded j o (or_preload_failed h slot q).jobs
  unfolding or_preload_failed
  or_preload_failed-IsEnded h slot (r, true) e = e
  or_preload_failed-IsEnded h slot (r, false) e = preload_failed-IsEnded mapping_failed r h slot e

  preload_read-IsEnded :
      (r : Reactor) (info : PreloadInfo) (slot : ℕ) (p : Demand × Option (ℕ × ℕ))
      → IsEnded j o r.jobs
      → IsEnded j o (preload_read r info slot p).jobs
  unfolding preload_read
  preload_read-IsEnded r info slot (d, none) e = e
  preload_read-IsEnded r info slot (d, some (job, file_index)) e =
      let r' = record r { demand = d } in
      or_preload_failed-IsEnded info.block_hash slot
        (queue_load_copy r' job file_index slot own from_preload)
        (queue_load_copy-IsEnded j o r' job file_index slot own from_preload e)

  on_private_read-IsEnded :
      (r : Reactor) (info : PreloadInfo) (slot : ℕ) (result : ℤ)
      → IsEnded j o r.jobs
      → IsEnded j o (on_private_read r info slot result).jobs
  unfolding on_private_read
  on_private_read-IsEnded r info slot result e =
      let r' = record r { demand = inflight_remove r.demand info.block_hash } in
      if-IsEnded j o (is_whole r result)
        (preload_read r' info slot (waiter_pop r'.demand info.block_hash))
        (preload_failed read_failed r' info.block_hash slot)
        (preload_read-IsEnded r' info slot (waiter_pop r'.demand info.block_hash) e)
        (preload_failed-IsEnded read_failed r' info.block_hash slot e)

  or_uncount-IsEnded :
      (job handle : ℕ) (q : Reactor × Bool)
      → IsEnded j o q.0.jobs
      → IsEnded j o (or_uncount job handle q).jobs
  unfolding or_uncount
  or_uncount-IsEnded job handle (r, true) e = e
  or_uncount-IsEnded job handle (r, false) e =
      file_terminal-IsEnded j o (some mapping_failed) job r.jobs e

  pub queue_shared-IsEnded :
      (r : Reactor) (job file_index slot handle : ℕ)
      → IsEnded j o r.jobs
      → IsEnded j o (or_uncount job handle (queue_shared r job file_index slot handle)).jobs
  unfolding queue_shared
  queue_shared-IsEnded r job file_index slot handle e =
      let r' = record r { slots = set_heap copy_begun handle r.slots } in
      or_uncount-IsEnded job handle
        (queue_load_copy r' job file_index slot (shared handle) from_preload)
        (queue_load_copy-IsEnded j o r' job file_index slot (shared handle) from_preload e)

  pub shared_decref-IsEnded :
      (r : Reactor) (req_id : String) (h : ℕ)
      → IsEnded j o r.jobs
      → IsEnded j o (shared_decref r req_id h).jobs
  unfolding shared_decref
  shared_decref-IsEnded r req_id h e = e

  serve_each-IsEnded :
      (h slot handle : ℕ) (waiters : List (ℕ × ℕ)) (r : Reactor)
      → IsEnded j o r.jobs
      → IsEnded j o (serve_each h slot handle waiters r).jobs
  unfolding serve_each
  serve_each-IsEnded h slot handle [] r e = e
  serve_each-IsEnded h slot handle ((job, file_index) ∷ waiters) r e =
      let served = or_uncount job handle (queue_shared r job file_index slot handle) in
      serve_each-IsEnded h slot handle waiters (shared_decref served (req_of r.jobs job) h) (
        shared_decref-IsEnded served (req_of r.jobs job) h
          (queue_shared-IsEnded r job file_index slot handle e))

  shared_read-IsEnded :
      (r : Reactor) (info : PreloadInfo) (slot : ℕ)
      → IsEnded j o r.jobs
      → IsEnded j o (shared_read r info slot).jobs
  unfolding shared_read keep_shared
  shared_read-IsEnded r info slot e =
      let h = info.block_hash in
      let handle = length r.slots.heap in
      let waiters = lookup_or h [] r.demand.waiters in
      let added = record r {
        slots = add_shared r.slots info slot;
        demand = record (r.demand) { waiters = delete h r.demand.waiters };
      } in
      let served = serve_each h slot handle waiters added in
      let after = serve_each-IsEnded h slot handle waiters added e in
      if-IsEnded j o (if served.stop then false else ltb 0 (lookup_or h 0 served.demand.refcount)) _
        _ after after

  on_shared_read-IsEnded :
      (r : Reactor) (info : PreloadInfo) (slot : ℕ) (result : ℤ)
      → IsEnded j o r.jobs
      → IsEnded j o (on_shared_read r info slot result).jobs
  unfolding on_shared_read
  on_shared_read-IsEnded r info slot result e =
      let r' = record r { demand = inflight_remove r.demand info.block_hash } in
      if-IsEnded j o (is_whole r result) (shared_read r' info slot) _
        (shared_read-IsEnded r' info slot e)
        (fail_all_preload_waiters-IsEnded j o r' info.block_hash read_failed e)

  pub on_read_preload-IsEnded :
      (w : World) (r : Reactor) (info : PreloadInfo) (slot fd : ℕ) (result : ℤ)
      → IsEnded j o r.jobs
      → IsEnded j o (on_read_preload w r info slot fd result).jobs
  unfolding on_read_preload
  on_read_preload-IsEnded w r info slot fd result e =
      async_close-IsEnded j o w
        (if r.demand.share_preload
          then on_shared_read r info slot result
          else on_private_read r info slot result)
        fd
        (if-IsEnded j o r.demand.share_preload (on_shared_read r info slot result)
          (on_private_read r info slot result) (on_shared_read-IsEnded r info slot result e)
          (on_private_read-IsEnded r info slot result e))
