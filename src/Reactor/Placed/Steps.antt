-- ===== src/Reactor/Placed/Steps.antt =====
-- Slots of py_kvcache/reactor.py over every sequence of steps of its loop.
use Prim.Native.String.{String}
use py_kvcache.Prelude.{
  ℕ, suc, ◌≡◌, refl, Option-cases, inl, inr, Bool, List, [], ◌∷◌, ◌++◌, Option, none, some, nat_eq,
  ◌&&◌,
}
use py_kvcache.Prelude.Int.{ℤ, pos, negsuc, dec}
use py_kvcache.Prelude.Dict.{lookup, delete}
use py_kvcache.BreakEven.{enabled}
use py_kvcache.Reactor.State.{
  open_failed, Job, PreloadInfo, RingOp, open_load, open_preload, read_load, read_preload,
  write_store, close_fd, LoadCopy, Reactor,
}
use py_kvcache.Reactor.Demand.{has_waiter, inflight_remove}
use py_kvcache.Reactor.Places.{shared_decref}
use py_kvcache.Reactor.Jobs.{World, fail_preload, finish_jobs}
use py_kvcache.Reactor.Complete.{
  open_preload_failed, on_open_load, on_open_preload, data_done, on_complete, complete,
}
use py_kvcache.Reactor.Preload.{schedule_work}
use py_kvcache.Reactor.Intake.{
  intake_preload, add_job, should_decline_load, intake_load, withdrawn, store_hashes, store_hash,
  intake_store, intake_job,
}
use py_kvcache.Reactor.Run.{
  intake, Completion, Report, drain_copies, poll, pump_once, Step, takes, accepts, pumps, Reach,
  here, next,
}
use py_kvcache.Reactor.Placed.{IsPlaced, op_slots}
use py_kvcache.Reactor.Placed.Pool.{if-IsPlaced}
use py_kvcache.Reactor.Placed.Reserve.{shared_decref-IsPlaced}
use py_kvcache.Reactor.Placed.Submit.{completed-IsPlaced, fail_preload-slots}
use py_kvcache.Reactor.Placed.Queue.{on_read_load-IsPlaced}
use py_kvcache.Reactor.Placed.Done.{
  on_write-IsPlaced, drain_copy-IsPlaced, flush_copy_batch-IsPlaced,
}
use py_kvcache.Reactor.Placed.Serve.{on_read_preload-IsPlaced}
use py_kvcache.Reactor.Placed.Opened.{schedule_work-IsPlaced}

on_open_load-slots :
    (r : Reactor) (job file_index : ℕ) (result : ℤ)
    → (on_open_load r job file_index result).slots ≡ r.slots
unfolding on_open_load
on_open_load-slots r job file_index (pos fd) = refl
on_open_load-slots r job file_index (negsuc _) = refl

on_open_preload-IsPlaced :
    {total : ℕ} (r : Reactor) (info : PreloadInfo) (result : ℤ) (hand : List ℕ)
    (loads : List LoadCopy)
    → IsPlaced total r.slots hand loads
    → IsPlaced total (on_open_preload r info result).slots hand loads
unfolding on_open_preload open_preload_failed
on_open_preload-IsPlaced r info (pos fd) hand loads v = v
on_open_preload-IsPlaced r info (negsuc _) hand loads v =
    let d = inflight_remove r.demand info.block_hash in
    let r' = record r { open_inflight = dec r.open_inflight; demand = d } in
    if-IsPlaced (has_waiter d info.block_hash) (fail_preload r' info.block_hash open_failed) _ hand
      loads (rw fail_preload-slots v) v

on_complete-IsPlaced :
    {total : ℕ} (w : World) (finishes : Bool) (r : Reactor) (op : RingOp) (result : ℤ)
    → IsPlaced total r.slots (op_slots op ++ []) []
    → IsPlaced total (on_complete w finishes r op result).slots [] []
unfolding on_complete data_done
on_complete-IsPlaced w finishes r (open_load job file_index) result v = rw on_open_load-slots v
on_complete-IsPlaced w finishes r (open_preload info) result v =
    on_open_preload-IsPlaced r info result [] [] v
on_complete-IsPlaced w finishes r (read_load job file_index slot fd) result v =
    on_read_load-IsPlaced w (data_done r) job file_index slot fd result [] [] v
on_complete-IsPlaced w finishes r (read_preload info slot fd) result v =
    on_read_preload-IsPlaced w (data_done r) info slot fd result [] [] v
on_complete-IsPlaced w finishes r (write_store job file_index slot fd) result v =
    on_write-IsPlaced finishes (data_done r) job file_index slot result [] [] v
on_complete-IsPlaced w finishes r (close_fd fd) result v = v

-- A completion of the ring, of whatever kind and with whatever result, keeps every slot in one place.
pub complete-IsPlaced :
    {total : ℕ} (w : World) (finishes : Bool) (r : Reactor) (user_data : ℕ) (result : ℤ)
    → IsPlaced total r.slots [] []
    → IsPlaced total (complete w finishes r user_data result).slots [] []
unfolding complete
complete-IsPlaced w finishes r user_data result v =
    elim (Option-cases (lookup user_data r.slots.inflight)) [
      | inl e ↦ simp (e, complete) v
      | inr (op, e) ↦
          simp (e, complete)
            (on_complete-IsPlaced w finishes
              (record r {
                slots = record (r.slots) { inflight = delete user_data r.slots.inflight };
              })
              op result (completed-IsPlaced r.slots user_data op [] [] e v))
    ]

drain_copies-IsPlaced :
    {total : ℕ} (w : World) (answers : List (Option (Option ℕ))) (i : ℕ) (r : Reactor)
    → IsPlaced total r.slots [] []
    → IsPlaced total (drain_copies w answers i r).slots [] []
unfolding drain_copies
drain_copies-IsPlaced w [] i r v = v
drain_copies-IsPlaced w (none ∷ answers) i r v = drain_copies-IsPlaced w answers (suc i) r v
drain_copies-IsPlaced w (some temp ∷ answers) i r v =
    drain_copies-IsPlaced w answers i _ (drain_copy-IsPlaced w temp r i v)

poll-IsPlaced :
    {total : ℕ} (w : World) (completions : List Completion) (r : Reactor)
    → IsPlaced total r.slots [] []
    → IsPlaced total (poll w completions r).slots [] []
unfolding poll
poll-IsPlaced w [] r v = v
poll-IsPlaced w (c ∷ completions) r v =
    poll-IsPlaced w completions _ (complete-IsPlaced w c.finishes r c.user_data c.result v)

-- A pump of the loop keeps every slot in one place, whatever has ended, was completed, fails to be
-- submitted or fails to be launched in it.
pub pump_once-IsPlaced :
    {total : ℕ} (report : Report) (r : Reactor)
    → IsPlaced total r.slots [] []
    → IsPlaced total (pump_once report r).slots [] []
unfolding pump_once finish_jobs
pump_once-IsPlaced report r v =
    let drained = drain_copies report.world report.ended 0 r in
    let polled = poll report.world report.completions drained in
    flush_copy_batch-IsPlaced report.launched (schedule_work report.world polled) [] (
      schedule_work-IsPlaced report.world polled [] [] (
        poll-IsPlaced report.world report.completions drained
          (drain_copies-IsPlaced report.world report.ended 0 r v)))

store_hashes-IsPlaced :
    {total : ℕ} (producer : String) (hashes : List ℕ) (r : Reactor)
    → IsPlaced total r.slots [] []
    → IsPlaced total (store_hashes producer hashes r).slots [] []
unfolding store_hashes withdrawn
store_hashes-IsPlaced producer [] r v = v
store_hashes-IsPlaced producer (h ∷ hashes) r v =
    let r' = withdrawn r producer h in
    store_hashes-IsPlaced producer hashes (record r' { demand = store_hash producer h r'.demand })
      (if-IsPlaced r.demand.share_preload (shared_decref r producer h) r [] []
        (shared_decref-IsPlaced r producer h [] [] v) v)

intake_job-IsPlaced :
    {total : ℕ} (r : Reactor) (x : Job)
    → IsPlaced total r.slots [] []
    → IsPlaced total (intake_job r x).slots [] []
unfolding intake_job intake_load intake_store add_job
intake_job-IsPlaced r x v =
    if-IsPlaced x.is_store (intake_store r x) (intake_load r x) [] []
      (store_hashes-IsPlaced x.req_id x.block_hashes r v)
      (if-IsPlaced (enabled r.thresholds && should_decline_load r x) _ _ [] [] v v)

Step-IsPlaced :
    {total : ℕ} {r t : Reactor}
    → Step r t
    → IsPlaced total r.slots [] []
    → IsPlaced total t.slots [] []
unfolding intake intake_preload
Step-IsPlaced (takes request) v = v
Step-IsPlaced {r} (accepts x) v = intake_job-IsPlaced r x v
Step-IsPlaced {r} (pumps report) v = pump_once-IsPlaced report r v

-- While every slot is in one place, it stays so over every sequence of steps: requests and jobs that
-- are taken in and pumps, up to the order to stop.
pub Reach-IsPlaced :
    {total : ℕ} {r t : Reactor}
    → Reach r t
    → IsPlaced total r.slots [] []
    → IsPlaced total t.slots [] []
Reach-IsPlaced here v = v
Reach-IsPlaced (next reach step) v = Step-IsPlaced step (Reach-IsPlaced reach v)
