-- ===== src/Reactor/Once/Steps.antt =====
-- A job of py_kvcache/reactor.py that has an outcome keeps it, over every sequence of steps of the loop.
use Prim.Native.String.{String}
use py_kvcache.Prelude.{
  ℕ, zero, suc, nat_eq, ◌≡◌, Option-cases, inl, inr, true, List, [], ◌∷◌, ◌++◌, Option, none, some,
  get_elem?, ltb, ◌&&◌, if◌then◌else◌,
}
use py_kvcache.Prelude.Int.{is_below}
use py_kvcache.Prelude.Dict.{lookup_or, has}
use py_kvcache.BreakEven.{enabled}
use py_kvcache.Reactor.State.{
  copy_failed, Outcome, Job, PreloadInfo, ReadyLoad, ReadyPreload, Reactor,
}
use py_kvcache.Reactor.Demand.{
  inflight_remove, has_waiter, pending_push, pending_dec, drain_cancelled_pending,
}
use py_kvcache.Reactor.Places.{reserve_foreground_slot, reserve_preload_slot, shared_decref}
use py_kvcache.Reactor.Jobs.{World, is_set, store_mapping, chunks_of, finish_jobs}
use py_kvcache.Reactor.Schedule.{
  begun, next_file, files_left, is_of, schedule_store_copy, schedule_reserved, schedule_one,
  can_issue_store, store_files, schedule_stores, can_open, has_real_load_pressure,
  preload_slots_available,
}
use py_kvcache.Reactor.Preload.{
  read_reserved, drain_ready_load, preload_reserved, speculative, yield_open_fd, drain_preload,
  drain_ready_preload, start_pending, start_each, start_preloads, drain_loads, drain_preloads,
  loads, stores, schedule_work,
}
use py_kvcache.Reactor.Intake.{
  intake_preload, add_job, should_decline_load, intake_load, withdrawn, store_hash, store_hashes,
  intake_store, intake_job,
}
use py_kvcache.Reactor.Run.{
  intake, Completion, Report, drain_copies, poll, pump_once, Step, takes, accepts, pumps, Reach,
  here, next,
}
use py_kvcache.Reactor.Once.{
  IsEnded, outcome_of, if-IsEnded, turn-IsEnded, begin_file-IsEnded, async_close-IsEnded,
  submit_read_load-IsEnded, submit_read_preload-IsEnded,
}
use py_kvcache.Reactor.Once.Read.{shared_decref-IsEnded}
use py_kvcache.Reactor.Once.Done.{
  store_failed-IsEnded, complete-IsEnded, drain_copy-IsEnded, flush_copy_batch-IsEnded,
}
use py_kvcache.Reactor.Once.Begun.{
  submit_open_preload-IsEnded, schedule_loads-IsEnded, reserve_foreground_slot-IsEnded,
}

append-outcome :
    (j : ℕ) (o : Outcome) (jobs : List Job) (x : Job)
    → IsEnded j o jobs
    → IsEnded j o (jobs ++ x ∷ [])
append-outcome j o [] x e = cc
append-outcome zero o (y ∷ jobs) x e = e
append-outcome (suc j) o (y ∷ jobs) x e = append-outcome j o jobs x e

module _ (j : ℕ) (o : Outcome) where
  schedule_reserved-IsEnded :
      (w : World) (job file_index : ℕ) (p : Reactor × Option ℕ)
      → IsEnded j o p.0.jobs
      → IsEnded j o (schedule_reserved w job file_index p).0.jobs
  unfolding schedule_reserved schedule_store_copy begun
  schedule_reserved-IsEnded w job file_index (r, none) v = v
  schedule_reserved-IsEnded w job file_index (r, some slot) v =
      let after = begin_file-IsEnded j o job r.jobs v in
      if-IsEnded j o
        (is_set (store_mapping r.storage_block_size_factor slot (chunks_of r.jobs job) file_index)
          && w.launches slot)
        _ _ after (store_failed-IsEnded j o copy_failed (begun r job) job file_index slot after)

  store_files-IsEnded :
      (w : World) (fuel : ℕ) (r : Reactor) (job : ℕ)
      → IsEnded j o r.jobs
      → IsEnded j o (store_files w fuel r job).jobs
  unfolding store_files schedule_one
  store_files-IsEnded w zero r job v = v
  store_files-IsEnded w (suc fuel) r job v = elim (Option-cases (next_file r.jobs job)) [
    | inl e ↦ simp (e, store_files) v
    | inr (i, e) ↦
        let turn = schedule_one w r job i in
        let after =
          schedule_reserved-IsEnded w job i (reserve_foreground_slot r)
            (reserve_foreground_slot-IsEnded j o r v) in
        simp (e, store_files)
          (if-IsEnded j o (can_issue_store r) _ r
            (if-IsEnded j o turn.1 (store_files w fuel turn.0 job) turn.0
              (store_files-IsEnded w fuel turn.0 job after) after)
            v)
  ]

  schedule_stores-IsEnded :
      (w : World) (active : List ℕ) (r : Reactor)
      → IsEnded j o r.jobs
      → IsEnded j o (schedule_stores w active r).jobs
  unfolding schedule_stores
  schedule_stores-IsEnded w [] r v = v
  schedule_stores-IsEnded w (job ∷ active) r v =
      let looped = store_files w (files_left r.jobs job) r job in
      schedule_stores-IsEnded w active (if is_of true r.jobs job then looped else r) (
        if-IsEnded j o (is_of true r.jobs job) looped r
          (store_files-IsEnded w (files_left r.jobs job) r job v) v)

  read_reserved-IsEnded :
      (w : World) (ready : ReadyLoad) (rest : List ReadyLoad) (p : Reactor × Option ℕ)
      → IsEnded j o p.0.jobs
      → IsEnded j o (read_reserved w ready rest p).0.jobs
  unfolding read_reserved
  read_reserved-IsEnded w ready rest (r, none) v = v
  read_reserved-IsEnded w ready rest (r, some slot) v =
      submit_read_load-IsEnded j o w (record r { ready_load = rest }) ready slot v

  drain_ready_load-IsEnded :
      (w : World) (queue : List ReadyLoad) (r : Reactor)
      → IsEnded j o r.jobs
      → IsEnded j o (drain_ready_load w queue r).jobs
  unfolding drain_ready_load
  drain_ready_load-IsEnded w [] r v = v
  drain_ready_load-IsEnded w (ready ∷ rest) r v =
      let turn = read_reserved w ready rest (reserve_foreground_slot r) in
      let after =
        read_reserved-IsEnded w ready rest (reserve_foreground_slot r)
          (reserve_foreground_slot-IsEnded j o r v) in
      if-IsEnded j o (is_below r.data_inflight r.iodepth) _ r
        (if-IsEnded j o turn.1 (drain_ready_load w rest turn.0) turn.0
          (drain_ready_load-IsEnded w rest turn.0 after) after)
        v

  preload_reserved-IsEnded :
      (w : World) (ready : ReadyPreload) (rest : List ReadyPreload) (p : Reactor × Option ℕ)
      → IsEnded j o p.0.jobs
      → IsEnded j o (preload_reserved w ready rest p).0.jobs
  unfolding preload_reserved
  preload_reserved-IsEnded w ready rest (r, none) v = v
  preload_reserved-IsEnded w ready rest (r, some slot) v =
      submit_read_preload-IsEnded j o w (record r { ready_preload = rest }) ready slot v

  drain_preload-IsEnded :
      (w : World) (ready : ReadyPreload) (rest : List ReadyPreload) (r : Reactor)
      → IsEnded j o r.jobs
      → IsEnded j o (drain_preload w ready rest r).0.jobs
  unfolding drain_preload yield_open_fd speculative
  drain_preload-IsEnded w ready rest r v =
      turn-IsEnded j o (has_waiter r.demand ready.info.block_hash) _ _
        (turn-IsEnded j o (is_below r.data_inflight r.iodepth) _ _
          (preload_reserved-IsEnded w ready rest (reserve_foreground_slot r)
            (reserve_foreground_slot-IsEnded j o r v))
          v)
        (turn-IsEnded j o (has_real_load_pressure r) _ _
          (async_close-IsEnded j o w
            (record r {
              ready_preload = rest;
              demand = pending_push (inflight_remove r.demand ready.info.block_hash) ready.info;
            })
            ready.fd v)
          (turn-IsEnded j o (is_below r.data_inflight r.iodepth) _ _
            (preload_reserved-IsEnded w ready rest (speculative r (reserve_preload_slot r.slots)) v)
            v))

  drain_ready_preload-IsEnded :
      (w : World) (queue : List ReadyPreload) (r : Reactor)
      → IsEnded j o r.jobs
      → IsEnded j o (drain_ready_preload w queue r).jobs
  unfolding drain_ready_preload
  drain_ready_preload-IsEnded w [] r v = v
  drain_ready_preload-IsEnded w (ready ∷ rest) r v =
      let turn = drain_preload w ready rest r in
      let after = drain_preload-IsEnded w ready rest r v in
      if-IsEnded j o turn.1 (drain_ready_preload w rest turn.0) turn.0
        (drain_ready_preload-IsEnded w rest turn.0 after) after

  start_pending-IsEnded :
      (w : World) (r : Reactor) (info : PreloadInfo) (rest : List PreloadInfo)
      → IsEnded j o r.jobs
      → IsEnded j o (start_pending w r info rest).jobs
  unfolding start_pending
  start_pending-IsEnded w r info rest v =
      let d = record (r.demand) { pending = rest } in
      if-IsEnded j o (ltb 0 (lookup_or info.block_hash 0 d.pending_cancel)) _ _ v (
        if-IsEnded j o (has info.block_hash d.store_inflight) _ _ v (
          submit_open_preload-IsEnded j o w (record r { demand = pending_dec d info.block_hash })
            info v))

  start_each-IsEnded :
      (w : World) (queue : List PreloadInfo) (r : Reactor)
      → IsEnded j o r.jobs
      → IsEnded j o (start_each w queue r).jobs
  unfolding start_each
  start_each-IsEnded w [] r v = v
  start_each-IsEnded w (info ∷ rest) r v =
      if-IsEnded j o (can_open r && preload_slots_available r)
        (start_each w rest (start_pending w r info rest)) r
        (start_each-IsEnded w rest (start_pending w r info rest)
          (start_pending-IsEnded w r info rest v))
        v

  start_preloads-IsEnded :
      (w : World) (r : Reactor) → IsEnded j o r.jobs → IsEnded j o (start_preloads w r).jobs
  unfolding start_preloads
  start_preloads-IsEnded w r v =
      let r' = record r { demand = drain_cancelled_pending r.demand } in
      if-IsEnded j o (has_real_load_pressure r') r' (start_each w r'.demand.pending r') v
        (start_each-IsEnded w r'.demand.pending r' v)

  schedule_work-IsEnded :
      (w : World) (r : Reactor) → IsEnded j o r.jobs → IsEnded j o (schedule_work w r).jobs
  unfolding schedule_work drain_loads drain_preloads loads stores
  schedule_work-IsEnded w r v =
      let drained = drain_loads w r in
      let loaded = loads w drained in
      let stored = stores w loaded in
      start_preloads-IsEnded w (drain_preloads w stored) (
        drain_ready_preload-IsEnded w stored.ready_preload stored (
          schedule_stores-IsEnded w loaded.active loaded (
            schedule_loads-IsEnded j o w drained.active drained
              (drain_ready_load-IsEnded w r.ready_load r v))))

  drain_copies-IsEnded :
      (w : World) (answers : List (Option (Option ℕ))) (i : ℕ) (r : Reactor)
      → IsEnded j o r.jobs
      → IsEnded j o (drain_copies w answers i r).jobs
  unfolding drain_copies
  drain_copies-IsEnded w [] i r v = v
  drain_copies-IsEnded w (none ∷ answers) i r v = drain_copies-IsEnded w answers (suc i) r v
  drain_copies-IsEnded w (some temp ∷ answers) i r v =
      drain_copies-IsEnded w answers i _ (drain_copy-IsEnded j o w temp r i v)

  poll-IsEnded :
      (w : World) (completions : List Completion) (r : Reactor)
      → IsEnded j o r.jobs
      → IsEnded j o (poll w completions r).jobs
  unfolding poll
  poll-IsEnded w [] r v = v
  poll-IsEnded w (c ∷ completions) r v =
      poll-IsEnded w completions _ (complete-IsEnded j o w c.finishes r c.user_data c.result v)

  pump_once-IsEnded :
      (report : Report) (r : Reactor) → IsEnded j o r.jobs → IsEnded j o (pump_once report r).jobs
  unfolding pump_once finish_jobs
  pump_once-IsEnded report r v =
      let drained = drain_copies report.world report.ended 0 r in
      let polled = poll report.world report.completions drained in
      flush_copy_batch-IsEnded j o report.launched (schedule_work report.world polled) (
        schedule_work-IsEnded report.world polled (
          poll-IsEnded report.world report.completions drained
            (drain_copies-IsEnded report.world report.ended 0 r v)))

  store_hashes-IsEnded :
      (producer : String) (hashes : List ℕ) (r : Reactor)
      → IsEnded j o r.jobs
      → IsEnded j o (store_hashes producer hashes r).jobs
  unfolding store_hashes withdrawn
  store_hashes-IsEnded producer [] r v = v
  store_hashes-IsEnded producer (h ∷ hashes) r v =
      let r' = withdrawn r producer h in
      store_hashes-IsEnded producer hashes (record r' { demand = store_hash producer h r'.demand })
        (if-IsEnded j o r.demand.share_preload (shared_decref r producer h) r
          (shared_decref-IsEnded j o r producer h v) v)

  intake_job-IsEnded :
      (r : Reactor) (x : Job) → IsEnded j o r.jobs → IsEnded j o (intake_job r x).jobs
  unfolding intake_job intake_load intake_store add_job
  intake_job-IsEnded r x v =
      if-IsEnded j o x.is_store (intake_store r x) (intake_load r x)
        (append-outcome j o (store_hashes x.req_id x.block_hashes r).jobs x
          (store_hashes-IsEnded x.req_id x.block_hashes r v))
        (if-IsEnded j o (enabled r.thresholds && should_decline_load r x) _ _
          (append-outcome j o r.jobs _ v) (append-outcome j o r.jobs x v))

  Step-IsEnded : {r t : Reactor} → Step r t → IsEnded j o r.jobs → IsEnded j o t.jobs
  unfolding intake intake_preload
  Step-IsEnded (takes request) v = v
  Step-IsEnded {r} (accepts x) v = intake_job-IsEnded r x v
  Step-IsEnded {r} (pumps report) v = pump_once-IsEnded report r v

-- A job ends once. A job that has an outcome keeps that same outcome over every sequence of steps up to
-- the order to stop, whatever fails or completes later.
pub Reach-IsEnded :
    {r t : Reactor} (j : ℕ) (o : Outcome)
    → Reach r t
    → outcome_of (get_elem? r.jobs j) ≡ some o
    → outcome_of (get_elem? t.jobs j) ≡ some o
Reach-IsEnded j o here v = v
Reach-IsEnded j o (next reach step) v = Step-IsEnded j o step (Reach-IsEnded j o reach v)
