-- ===== src/Reactor/Placed/Opened.antt =====
-- Slots of py_kvcache/reactor.py through the queues of opened files, the pending preloads, and
-- `_schedule_work`.
use py_kvcache.Prelude.{ℕ, List, [], ◌∷◌, nat_eq, Option, none, some, ltb}
use py_kvcache.Prelude.Int.{is_below}
use py_kvcache.Prelude.Dict.{lookup_or, has}
use py_kvcache.Reactor.State.{PreloadInfo, ReadyLoad, ReadyPreload, LoadCopy, Reactor}
use py_kvcache.Reactor.Demand.{
  inflight_remove, has_waiter, pending_push, pending_dec, drain_cancelled_pending,
}
use py_kvcache.Reactor.Places.{reserve_foreground_slot, reserve_preload_slot}
use py_kvcache.Reactor.Jobs.{World}
use py_kvcache.Reactor.Schedule.{has_real_load_pressure}
use py_kvcache.Reactor.Preload.{
  read_reserved, drain_ready_load, preload_reserved, speculative, yield_open_fd, drain_preload,
  drain_ready_preload, start_pending, start_each, start_preloads, drain_loads, drain_preloads,
  loads, stores, schedule_work,
}
use py_kvcache.Reactor.Placed.{IsPlaced}
use py_kvcache.Reactor.Placed.Pool.{with_slot, if-IsPlaced, reserve_preload_slot-IsPlaced}
use py_kvcache.Reactor.Placed.Reserve.{reserve_foreground_slot-IsPlaced}
use py_kvcache.Reactor.Placed.Submit.{
  async_close-IsPlaced, submit_open_preload-IsPlaced, submit_read_load-IsPlaced,
  submit_read_preload-IsPlaced,
}
use py_kvcache.Reactor.Placed.Load.{turn-IsPlaced}
use py_kvcache.Reactor.Placed.Work.{schedule_loads-IsPlaced, schedule_stores-IsPlaced}

read_reserved-IsPlaced :
    {total : ℕ} (w : World) (ready : ReadyLoad) (rest : List ReadyLoad) (p : Reactor × Option ℕ)
    (hand : List ℕ) (copies : List LoadCopy)
    → IsPlaced total p.0.slots (with_slot p.1 hand) copies
    → IsPlaced total (read_reserved w ready rest p).0.slots hand copies
unfolding read_reserved
read_reserved-IsPlaced w ready rest (r, none) hand copies v = v
read_reserved-IsPlaced w ready rest (r, some slot) hand copies v =
    submit_read_load-IsPlaced w (record r { ready_load = rest }) ready slot hand copies v

drain_ready_load-IsPlaced :
    {total : ℕ} (w : World) (queue : List ReadyLoad) (r : Reactor) (hand : List ℕ)
    (copies : List LoadCopy)
    → IsPlaced total r.slots hand copies
    → IsPlaced total (drain_ready_load w queue r).slots hand copies
unfolding drain_ready_load
drain_ready_load-IsPlaced w [] r hand copies v = v
drain_ready_load-IsPlaced w (ready ∷ rest) r hand copies v =
    let turn = read_reserved w ready rest (reserve_foreground_slot r) in
    let placed =
      read_reserved-IsPlaced w ready rest (reserve_foreground_slot r) hand copies
        (reserve_foreground_slot-IsPlaced r hand copies v) in
    if-IsPlaced (is_below r.data_inflight r.iodepth) _ r hand copies
      (if-IsPlaced turn.1 (drain_ready_load w rest turn.0) turn.0 hand copies
        (drain_ready_load-IsPlaced w rest turn.0 hand copies placed) placed)
      v

preload_reserved-IsPlaced :
    {total : ℕ} (w : World) (ready : ReadyPreload) (rest : List ReadyPreload)
    (p : Reactor × Option ℕ) (hand : List ℕ) (copies : List LoadCopy)
    → IsPlaced total p.0.slots (with_slot p.1 hand) copies
    → IsPlaced total (preload_reserved w ready rest p).0.slots hand copies
unfolding preload_reserved
preload_reserved-IsPlaced w ready rest (r, none) hand copies v = v
preload_reserved-IsPlaced w ready rest (r, some slot) hand copies v =
    submit_read_preload-IsPlaced w (record r { ready_preload = rest }) ready slot hand copies v

drain_preload-IsPlaced :
    {total : ℕ} (w : World) (ready : ReadyPreload) (rest : List ReadyPreload) (r : Reactor)
    (hand : List ℕ) (copies : List LoadCopy)
    → IsPlaced total r.slots hand copies
    → IsPlaced total (drain_preload w ready rest r).0.slots hand copies
unfolding drain_preload yield_open_fd speculative
drain_preload-IsPlaced w ready rest r hand copies v =
    turn-IsPlaced (has_waiter r.demand ready.info.block_hash) _ _ hand copies
      (turn-IsPlaced (is_below r.data_inflight r.iodepth) _ _ hand copies
        (preload_reserved-IsPlaced w ready rest (reserve_foreground_slot r) hand copies
          (reserve_foreground_slot-IsPlaced r hand copies v))
        v)
      (turn-IsPlaced (has_real_load_pressure r) _ _ hand copies
        (async_close-IsPlaced w
          (record r {
            ready_preload = rest;
            demand = pending_push (inflight_remove r.demand ready.info.block_hash) ready.info;
          })
          ready.fd hand copies v)
        (turn-IsPlaced (is_below r.data_inflight r.iodepth) _ _ hand copies
          (preload_reserved-IsPlaced w ready rest (speculative r (reserve_preload_slot r.slots))
            hand copies (reserve_preload_slot-IsPlaced r.slots hand copies v))
          v))

drain_ready_preload-IsPlaced :
    {total : ℕ} (w : World) (queue : List ReadyPreload) (r : Reactor) (hand : List ℕ)
    (copies : List LoadCopy)
    → IsPlaced total r.slots hand copies
    → IsPlaced total (drain_ready_preload w queue r).slots hand copies
unfolding drain_ready_preload
drain_ready_preload-IsPlaced w [] r hand copies v = v
drain_ready_preload-IsPlaced w (ready ∷ rest) r hand copies v =
    let turn = drain_preload w ready rest r in
    let placed = drain_preload-IsPlaced w ready rest r hand copies v in
    if-IsPlaced turn.1 (drain_ready_preload w rest turn.0) turn.0 hand copies
      (drain_ready_preload-IsPlaced w rest turn.0 hand copies placed) placed

start_pending-IsPlaced :
    {total : ℕ} (w : World) (r : Reactor) (info : PreloadInfo) (rest : List PreloadInfo)
    (hand : List ℕ) (copies : List LoadCopy)
    → IsPlaced total r.slots hand copies
    → IsPlaced total (start_pending w r info rest).slots hand copies
unfolding start_pending
start_pending-IsPlaced w r info rest hand copies v =
    let d = record (r.demand) { pending = rest } in
    if-IsPlaced (ltb 0 (lookup_or info.block_hash 0 d.pending_cancel)) _ _ hand copies v (
      if-IsPlaced (has info.block_hash d.store_inflight) _ _ hand copies v (
        submit_open_preload-IsPlaced w (record r { demand = pending_dec d info.block_hash }) info
          hand copies v))

start_each-IsPlaced :
    {total : ℕ} (w : World) (queue : List PreloadInfo) (r : Reactor) (hand : List ℕ)
    (copies : List LoadCopy)
    → IsPlaced total r.slots hand copies
    → IsPlaced total (start_each w queue r).slots hand copies
unfolding start_each
start_each-IsPlaced w [] r hand copies v = v
start_each-IsPlaced w (info ∷ rest) r hand copies v =
    if-IsPlaced _ (start_each w rest (start_pending w r info rest)) r hand copies
      (start_each-IsPlaced w rest (start_pending w r info rest) hand copies
        (start_pending-IsPlaced w r info rest hand copies v))
      v

start_preloads-IsPlaced :
    {total : ℕ} (w : World) (r : Reactor) (hand : List ℕ) (copies : List LoadCopy)
    → IsPlaced total r.slots hand copies
    → IsPlaced total (start_preloads w r).slots hand copies
unfolding start_preloads
start_preloads-IsPlaced w r hand copies v =
    let r' = record r { demand = drain_cancelled_pending r.demand } in
    if-IsPlaced (has_real_load_pressure r') r' (start_each w r'.demand.pending r') hand copies v
      (start_each-IsPlaced w r'.demand.pending r' hand copies v)

pub schedule_work-IsPlaced :
    {total : ℕ} (w : World) (r : Reactor) (hand : List ℕ) (copies : List LoadCopy)
    → IsPlaced total r.slots hand copies
    → IsPlaced total (schedule_work w r).slots hand copies
unfolding schedule_work drain_loads drain_preloads loads stores
schedule_work-IsPlaced w r hand copies v =
    let drained = drain_loads w r in
    let loaded = loads w drained in
    let stored = stores w loaded in
    let opened = drain_preloads w stored in
    start_preloads-IsPlaced w opened hand copies (
      drain_ready_preload-IsPlaced w stored.ready_preload stored hand copies (
        schedule_stores-IsPlaced w loaded.active loaded hand copies (
          schedule_loads-IsPlaced w drained.active drained hand copies
            (drain_ready_load-IsPlaced w r.ready_load r hand copies v))))
