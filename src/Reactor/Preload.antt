-- ===== src/Reactor/Preload.antt =====
-- The queues of opened files and of pending preloads in py_kvcache/reactor.py, and `_schedule_work`
-- with its steps in order.
use py_kvcache.Prelude.{
  ℕ, Bool, true, false, List, [], ◌∷◌, Option, none, some, if◌then◌else◌, ltb, nat_eq, ◌&&◌,
}
use py_kvcache.Prelude.Int.{is_below}
use py_kvcache.Prelude.Dict.{lookup_or, has}
use py_kvcache.Reactor.State.{PreloadInfo, ReadyLoad, ReadyPreload, Slots, Reactor}
use py_kvcache.Reactor.Demand.{
  inflight_remove, has_waiter, pending_push, pending_dec, consume_pending_cancel,
  drain_cancelled_pending, block_on_write,
}
use py_kvcache.Reactor.Places.{reserve_preload_slot, reserve_foreground_slot}
use py_kvcache.Reactor.Jobs.{
  World, async_close, submit_open_preload, submit_read_load, submit_read_preload,
}
use py_kvcache.Reactor.Schedule.{
  can_open, has_real_load_pressure, preload_slots_available, schedule_loads, schedule_stores,
}

unfoldable pub read_reserved :
    World → ReadyLoad → List ReadyLoad → Reactor × Option ℕ → Reactor × Bool
unfolding submit_read_load
read_reserved w ready rest (r, none) = (r, false)
read_reserved w ready rest (r, some slot) =
    (submit_read_load w (record r { ready_load = rest }) ready slot, true)

-- `_drain_ready_load_fds`, over the files that are open.
unfoldable pub drain_ready_load : World → List ReadyLoad → Reactor → Reactor
unfolding read_reserved reserve_foreground_slot
drain_ready_load w [] r = r
drain_ready_load w (ready ∷ rest) r =
    if is_below r.data_inflight r.iodepth
    then (let (r', more) = read_reserved w ready rest (reserve_foreground_slot r) in
        let later = drain_ready_load w rest r' in if more then later else r')
    else r

unfoldable pub preload_reserved :
    World → ReadyPreload → List ReadyPreload → Reactor × Option ℕ → Reactor × Bool
unfolding submit_read_preload
preload_reserved w ready rest (r, none) = (r, false)
preload_reserved w ready rest (r, some slot) =
    (submit_read_preload w (record r { ready_preload = rest }) ready slot, true)

-- A speculative read yields: its file is closed, and it is pending again.
unfoldable pub yield_open_fd : World → Reactor → ReadyPreload → List ReadyPreload → Reactor
unfolding async_close pending_push inflight_remove
yield_open_fd w r ready rest =
    async_close w
      (record r {
        ready_preload = rest;
        demand = pending_push (inflight_remove r.demand ready.info.block_hash) ready.info;
      })
      ready.fd

unfoldable pub speculative : Reactor → Slots × Option ℕ → Reactor × Option ℕ
speculative r (s, slot) = (record r { slots = s }, slot)

-- A turn of `_drain_ready_preload_fds`, and whether the loop goes on.
unfoldable pub drain_preload : World → ReadyPreload → List ReadyPreload → Reactor → Reactor × Bool
unfolding preload_reserved reserve_foreground_slot yield_open_fd speculative reserve_preload_slot
    has_waiter has_real_load_pressure
drain_preload w ready rest r =
    if has_waiter r.demand ready.info.block_hash
    then (if is_below r.data_inflight r.iodepth
        then preload_reserved w ready rest (reserve_foreground_slot r)
        else (r, false))
    else if has_real_load_pressure r
    then (yield_open_fd w r ready rest, true)
    else if is_below r.data_inflight r.iodepth
    then preload_reserved w ready rest (speculative r (reserve_preload_slot r.slots))
    else (r, false)

unfoldable pub drain_ready_preload : World → List ReadyPreload → Reactor → Reactor
unfolding drain_preload
drain_ready_preload w [] r = r
drain_ready_preload w (ready ∷ rest) r =
    let (r', more) = drain_preload w ready rest r in
    let later = drain_ready_preload w rest r' in if more then later else r'

-- A turn of the loop over the pending preloads, of which `rest` is left.
unfoldable pub start_pending : World → Reactor → PreloadInfo → List PreloadInfo → Reactor
unfolding pending_dec consume_pending_cancel block_on_write submit_open_preload
start_pending w r info rest =
    let h = info.block_hash in
    let d = record (r.demand) { pending = rest } in
    if ltb 0 (lookup_or h 0 d.pending_cancel)
    then record r { demand = pending_dec (consume_pending_cancel d h) h }
    else if has h d.store_inflight
    then record r { demand = block_on_write (pending_dec d h) info }
    else submit_open_preload w (record r { demand = pending_dec d h }) info

unfoldable pub start_each : World → List PreloadInfo → Reactor → Reactor
unfolding start_pending can_open preload_slots_available
start_each w [] r = r
start_each w (info ∷ rest) r =
    let started = start_each w rest (start_pending w r info rest) in
    if can_open r && preload_slots_available r then started else r

unfoldable pub start_preloads : World → Reactor → Reactor
unfolding start_each has_real_load_pressure drain_cancelled_pending
start_preloads w r =
    let r' = record r { demand = drain_cancelled_pending r.demand } in
    if has_real_load_pressure r' then r' else start_each w r'.demand.pending r'

unfoldable pub drain_loads : World → Reactor → Reactor
unfolding drain_ready_load
drain_loads w r = drain_ready_load w r.ready_load r

unfoldable pub drain_preloads : World → Reactor → Reactor
unfolding drain_ready_preload
drain_preloads w r = drain_ready_preload w r.ready_preload r

unfoldable pub loads : World → Reactor → Reactor
unfolding schedule_loads
loads w r = schedule_loads w r.active r

unfoldable pub stores : World → Reactor → Reactor
unfolding schedule_stores
stores w r = schedule_stores w r.active r

unfoldable pub schedule_work : World → Reactor → Reactor
unfolding drain_loads drain_preloads loads stores start_preloads
schedule_work w r = start_preloads w (drain_preloads w (stores w (loads w (drain_loads w r))))
