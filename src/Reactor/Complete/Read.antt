-- ===== src/Reactor/Complete/Read.antt =====
-- What py_kvcache/reactor.py does when a file was opened or read, and what a write that has ended lets
-- go on.
use py_kvcache.Prelude.{
  ℕ, ◌-◌, Bool, true, false, List, [], ◌∷◌, ◌++◌, Option, none, some, if◌then◌else◌, ltb, nat_eq,
  ◌==◌,
}
use py_kvcache.Prelude.Int.{ℤ, pos, negsuc, dec}
use py_kvcache.Prelude.Dict.{lookup_or, insert, delete, has}
use py_kvcache.Reactor.State.{
  Failure, open_failed, read_failed, mapping_failed, PreloadInfo, own, Demand, Reactor,
}
use py_kvcache.Reactor.Demand.{
  inflight_remove, has_waiter, waiter_pop, pending_push, block_on_write, remember_known_missing,
  purge_owned_for_hash,
}
use py_kvcache.Reactor.Places.{release_slot, preload_cache_push, in_cache}
use py_kvcache.Reactor.Jobs.{
  World, file_terminal, fail_one_waiter, fail_preload, from_file, from_preload, queue_load_copy,
  async_close,
}

unfoldable pub push_all : List PreloadInfo → Demand → Demand
unfolding pending_push
push_all [] d = d
push_all (info ∷ infos) d = push_all infos (pending_push d info)

-- What `_release_store_inflight` does with the copies that were parked on the write.
unfoldable pub rearm : Reactor → ℕ → Bool → List PreloadInfo → Demand → Demand
unfolding push_all pending_push purge_owned_for_hash in_cache
rearm r h written [] d = d
rearm r h written (first ∷ rest) d =
    if (if written then r.stop else true)
    then d
    else if in_cache r.slots h
    then (if d.share_preload
        then purge_owned_for_hash (record d { refcount = delete h d.refcount }) h
        else d)
    else if d.share_preload
    then pending_push d first
    else push_all (first ∷ rest) d

unfoldable pub release_store_inflight : Reactor → ℕ → Bool → Reactor
unfolding rearm
release_store_inflight r h written =
    let d = r.demand in
    let count = lookup_or h 0 d.store_inflight in
    if ltb 1 count
    then record r { demand = record d { store_inflight = insert h (count - 1) d.store_inflight } }
    else record r {
      demand = rearm r h written (lookup_or h [] d.blocked_on_write) (record d {
        store_inflight = delete h d.store_inflight;
        blocked_on_write = delete h d.blocked_on_write;
      });
    }

-- A preload whose file is missing is parked: on the write that makes it, or until a store.
unfoldable pub park_missed : Demand → PreloadInfo → Demand
unfolding block_on_write remember_known_missing
park_missed d info =
    if has info.block_hash d.store_inflight
    then block_on_write d info
    else remember_known_missing d info

unfoldable pub open_preload_failed : Reactor → PreloadInfo → Reactor
unfolding fail_preload park_missed inflight_remove
open_preload_failed r info =
    let r' = record r { demand = inflight_remove r.demand info.block_hash } in
    if has_waiter r'.demand info.block_hash
    then fail_preload r' info.block_hash open_failed
    else record r' { demand = park_missed r'.demand info }

unfoldable pub on_open_load : Reactor → ℕ → ℕ → ℤ → Reactor
unfolding file_terminal
on_open_load r job file_index (negsuc _) = record r {
  open_inflight = dec r.open_inflight;
  jobs = file_terminal (some open_failed) job r.jobs;
}
on_open_load r job file_index (pos fd) = record r {
  open_inflight = dec r.open_inflight;
  ready_load = r.ready_load ++ (record { fd = fd; job = job; file_index = file_index }) ∷ [];
}

unfoldable pub on_open_preload : Reactor → PreloadInfo → ℤ → Reactor
unfolding open_preload_failed
on_open_preload r info (negsuc _) =
    open_preload_failed (record r { open_inflight = dec r.open_inflight }) info
on_open_preload r info (pos fd) = record r {
  open_inflight = dec r.open_inflight;
  ready_preload = r.ready_preload ++ (record { fd = fd; info = info }) ∷ [];
}

-- `result_nbytes == io_size`
unfoldable pub is_whole : Reactor → ℤ → Bool
is_whole r (negsuc _) = false
is_whole r (pos n) = n == r.io_size

-- A file of a job failed, and the slot that it had goes back.
unfoldable pub give_up : Failure → Reactor → ℕ → ℕ → Reactor
unfolding release_slot file_terminal
give_up e r job slot = record r {
  slots = release_slot r.slots slot;
  jobs = file_terminal (some e) job r.jobs;
}

unfoldable pub or_give_up : ℕ → ℕ → Reactor × Bool → Reactor
unfolding give_up
or_give_up job slot (r, true) = r
or_give_up job slot (r, false) = give_up mapping_failed r job slot

unfoldable pub on_read_load : World → Reactor → ℕ → ℕ → ℕ → ℕ → ℤ → Reactor
unfolding is_whole or_give_up give_up queue_load_copy async_close
on_read_load w r job file_index slot fd result =
    async_close w
      (if is_whole r result
        then or_give_up job slot (queue_load_copy r job file_index slot own from_file)
        else give_up read_failed r job slot)
      fd

-- The slot of a preload goes back, and one more waiter fails.
unfoldable pub preload_failed : Failure → Reactor → ℕ → ℕ → Reactor
unfolding release_slot fail_one_waiter
preload_failed e r h slot = fail_one_waiter (record r { slots = release_slot r.slots slot }) h e

-- A copy that cannot be queued ends in the handler of a failed read, which fails the next waiter.
unfoldable pub or_preload_failed : ℕ → ℕ → Reactor × Bool → Reactor
unfolding preload_failed
or_preload_failed h slot (r, true) = r
or_preload_failed h slot (r, false) = preload_failed mapping_failed r h slot

-- A preload that was read, and the waiter that was taken.
unfoldable pub preload_read : Reactor → PreloadInfo → ℕ → Demand × Option (ℕ × ℕ) → Reactor
unfolding or_preload_failed queue_load_copy release_slot preload_cache_push
preload_read r info slot (d, some (job, file_index)) =
    or_preload_failed info.block_hash slot
      (queue_load_copy (record r { demand = d }) job file_index slot own from_preload)
preload_read r info slot (d, none) = record r {
  demand = d;
  slots =
      if r.stop
      then release_slot r.slots slot
      else preload_cache_push r.slots info.block_hash slot info;
}

unfoldable pub on_private_read : Reactor → PreloadInfo → ℕ → ℤ → Reactor
unfolding is_whole preload_read waiter_pop preload_failed inflight_remove
on_private_read r info slot result =
    let r' = record r { demand = inflight_remove r.demand info.block_hash } in
    if is_whole r result
    then preload_read r' info slot (waiter_pop r'.demand info.block_hash)
    else preload_failed read_failed r' info.block_hash slot
