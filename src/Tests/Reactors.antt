-- ===== src/Tests/Reactors.antt =====
-- py_kvcache/reactor.py with two slots and no staging cache.
use py_kvcache.Prelude.{
  ℕ, get_elem?, ◌≡◌, ◌↔◌, ◌<◌, ◌≤◌, refl, true, false, [], ◌∷◌, none, some, ok, nat_eq, arith,
}
use py_kvcache.Prelude.Int.{pos}
use py_kvcache.Prelude.Keys.{contains}
use py_kvcache.Staging.{StagingPool, init, try_reserve}
use py_kvcache.Reactor.State.{
  PreloadInfo, Demand, failed_with, crashed, Job, PreloadRequest, Reactor,
}
use py_kvcache.Reactor.Places.{
  reserve_foreground_slot, foreground, reserve_preload_slot, retry, reserve,
}
use py_kvcache.Reactor.Jobs.{World, finish_jobs}
use py_kvcache.Reactor.Schedule.{load_files, left_of, files_left}
use py_kvcache.Reactor.Run.{
  make_cache, Settings, start, intake, preloads, runs, Report, pump_once, fail_everything, here,
  next, takes, accepts, pumps,
}
use py_kvcache.Reactor.Placed.{held}
use py_kvcache.Reactor.Placed.Start.{start-IsPlaced, Reach-once, reserve_foreground_slot-alone}
use py_kvcache.Reactor.Placed.Unread.{cached_reads, shared_reads}
use py_kvcache.Reactor.Ends.{has_ended, IsDone, fail_everything-ends, finish_jobs-keeps}
use py_kvcache.Reactor.Once.{outcome_of}
use py_kvcache.Reactor.Once.Steps.{Reach-IsEnded}
use py_kvcache.Reactor.Demand.{drain_cancelled_pending}
use py_kvcache.Reactor.Pending.{IsCounted, IsWanted, drain_cancelled_pending-IsCounted}
use py_kvcache.Reactor.Progress.Loops.{load_files-enough}

abbrev pool : StagingPool
pool = record { slot_count = 2; is_closed = false; free = 1 ∷ 0 ∷ [] }

abbrev settings : Settings
settings = record {
  share_preload = true;
  iodepth = 1;
  open_lookahead = 2;
  thresholds = record { ssd_tokens = 0; mem_tokens = 0 };
  storage_block_tokens = 16;
  storage_block_size_factor = 1;
  io_size = 64;
}

abbrev begun : Reactor
begun = start pool none settings

abbrev request : PreloadRequest
request = record { block_hashes = 7 ∷ 8 ∷ []; preload_id = "p"; req_id = "a"; profile_tid = "t" }

abbrev load : Job
load = record {
  job_id = 3;
  is_store = false;
  block_hashes = 7 ∷ [];
  block_chunks = (4 ∷ []) ∷ [];
  req_id = "a";
  total_files = 1;
  transfer_size = 64;
  next_file_index = 0;
  inflight_files = pos 0;
  done_files = 0;
  failed = none;
  outcome = none;
  n_from_file = 0;
  n_from_preload = 0;
  n_from_cache = 0;
}

abbrev world : World
world = record { takes = λ _. true; launches = λ _. true }

-- Nothing has ended, and an unknown number is completed.
abbrev report : Report
report = record {
  world = world;
  ended = none ∷ [];
  completions = (record { user_data = 9; result = pos 64; finishes = true }) ∷ [];
  launched = true;
}

abbrev loading : Reactor
loading = record begun { jobs = load ∷ []; active = 0 ∷ [] }

pool_made : init (pos 2) ≡ ok pool
unfolding init
pool_made = refl

no_cache : make_cache "off" 2 1 ≡ ok none
unfolding make_cache
no_cache = refl

Reach-once_example :
    held 1 (pump_once report (intake (runs load) (intake (preloads request) begun))).slots ≡ 1
Reach-once_example =
    Reach-once 2 "off" settings 1 pool_made no_cache
      (next (next (next here (takes request)) (accepts load)) (pumps report))

first_slot : (reserve_foreground_slot begun).1 ≡ some 1
unfolding reserve_foreground_slot foreground reserve_preload_slot retry reserve try_reserve start
first_slot = refl

reserve_foreground_slot-alone_example :
    (1 < 2)
    × (held 1 (reserve_foreground_slot begun).0.slots ≡ 0)
    × ((h : ℕ) → cached_reads 1 h (reserve_foreground_slot begun).0.slots ≡ 0)
    × ((handle : ℕ) → shared_reads 1 handle (reserve_foreground_slot begun).0.slots ≡ 0)
reserve_foreground_slot-alone_example =
    reserve_foreground_slot-alone 2 "off" settings 1 pool_made no_cache here first_slot

is_active : contains 0 loading.active ≡ true
is_active = refl

fail_everything-ends_example : has_ended (fail_everything loading (runs load ∷ [])).0.jobs 0 ≡ true
fail_everything-ends_example = fail_everything-ends loading (runs load ∷ []) 0 refl

finish_jobs-keeps_example : (contains 0 (finish_jobs loading).active ≡ true) ↔ (
    (contains 0 loading.active ≡ true)
    × ((x : Job) × (get_elem? loading.jobs 0 ≡ some x) × (¬ IsDone x)))
finish_jobs-keeps_example = finish_jobs-keeps loading 0

one_left : files_left loading.jobs 0 ≤ 1
unfolding files_left left_of
one_left = omega arith

load_files-enough_example : load_files world 5 loading 0 ≡ load_files world 1 loading 0
load_files-enough_example =
    load_files-enough world 1 5 loading 0 one_left (omega arith)
      (start-IsPlaced 2 "off" settings pool_made no_cache)

-- The load of `loading`, once it has failed.
abbrev gone : Reactor
gone = record loading { jobs = record load { outcome = some (failed_with crashed) } ∷ [] }

Reach-IsEnded_example :
    outcome_of (get_elem? (pump_once report gone).jobs 0) ≡ some (failed_with crashed)
Reach-IsEnded_example =
    Reach-IsEnded {r = gone} 0 (failed_with crashed) (next here (pumps report)) refl

abbrev wanted : ℕ → PreloadInfo
wanted h = record {
  block_hash = h;
  preload_id = "p";
  req_id = "a";
  profile_tid = "t";
  file_index = 0;
  total_files = 2;
}

-- Two copies are pending, and the first is cancelled.
abbrev half_cancelled : Demand
half_cancelled = record (begun.demand) {
  pending = wanted 7 ∷ wanted 8 ∷ [];
  pending_count = (7, 1) ∷ (8, 1) ∷ [];
  pending_cancel = (7, 1) ∷ [];
}

half_cancelled-IsCounted : IsCounted half_cancelled.pending_count half_cancelled.pending
half_cancelled-IsCounted h = ground arith

drain_cancelled_pending-IsCounted_example :
    IsCounted
      (drain_cancelled_pending half_cancelled).pending_count
      (drain_cancelled_pending half_cancelled).pending
    × IsWanted
        (drain_cancelled_pending half_cancelled).pending_cancel
        (drain_cancelled_pending half_cancelled).pending
drain_cancelled_pending-IsCounted_example =
    drain_cancelled_pending-IsCounted half_cancelled half_cancelled-IsCounted
