-- ===== src/Reactor/Run.antt =====
-- The loop of py_kvcache/reactor.py: an item of its queue is taken in, and `_pump_once` polls, schedules
-- and finishes. What the outside reports in a pump is an argument: which copies have ended, and what
-- the ring has completed.
use Prim.Native.String.{String}
use py_kvcache.Prelude.{
  ℕ, suc, ◌-◌, ◌==◌, nat_eq, string_eq, Result, ok, ◌>>=◌, Bool, true, false, List, [], ◌∷◌, Option,
  none, some, if◌then◌else◌, ltb, length, map, modify, ◌||◌,
}
use py_kvcache.Prelude.Int.{ℤ, pos}
use py_kvcache.Prelude.Dict.{values}
use py_kvcache.Staging.{StagingPool}
use py_kvcache.StagingCache.{StagingDataCache, init}
use py_kvcache.BreakEven.{BreakEvenThresholds}
use py_kvcache.Reactor.State.{crashed, failed_with, Job, PreloadRequest, Reactor}
use py_kvcache.Reactor.Jobs.{World, is_set, finish_jobs}
use py_kvcache.Reactor.Complete.{complete, drain_copy, flush_copy_batch}
use py_kvcache.Reactor.Preload.{schedule_work}
use py_kvcache.Reactor.Intake.{intake_preload, intake_job, intake_stop, waiting}

-- `_staging_cache` for a kind of policy, where `slot_count - iodepth` slots may be cached.
unfoldable pub make_cache : String → ℕ → ℕ → Result (Option StagingDataCache)
make_cache kind slot_count iodepth =
    if kind == "off" || slot_count - iodepth == 0
    then ok none
    else init kind (slot_count - iodepth) >>= λ c. ok (some c)

-- What the configuration says of a reactor.
pub record Settings : Type 0 where
  pub share_preload : Bool
  pub iodepth : ℕ
  pub open_lookahead : ℕ
  pub thresholds : BreakEvenThresholds
  pub storage_block_tokens : ℕ
  pub storage_block_size_factor : ℕ
  pub io_size : ℕ

-- `IoReactor.__init__`, with its pool and its cache.
unfoldable pub start : StagingPool → Option StagingDataCache → Settings → Reactor
start pool cache settings = record {
  slots = record {
    pool = pool;
    cache = cache;
    preload_slots = [];
    heap = [];
    shared_cached = [];
    cached_total = pos 0;
    inflight = [];
    next_user_data = 0;
    copy_ready = [];
    pending_copies = [];
  };
  demand = record {
    share_preload = settings.share_preload;
    refcount = [];
    pending = [];
    pending_count = [];
    pending_cancel = [];
    inflight_hashes = [];
    inflight_total = pos 0;
    owned = [];
    max_owned = 16384;
    waiters = [];
    store_inflight = [];
    blocked_on_write = [];
    known_missing = [];
    max_known_missing = 4096;
  };
  jobs = [];
  active = [];
  data_inflight = pos 0;
  open_inflight = pos 0;
  ready_load = [];
  ready_preload = [];
  stop = false;
  iodepth = settings.iodepth;
  open_lookahead = settings.open_lookahead;
  max_preload_slots = pool.slot_count - settings.iodepth;
  thresholds = settings.thresholds;
  storage_block_tokens = settings.storage_block_tokens;
  storage_block_size_factor = settings.storage_block_size_factor;
  io_size = settings.io_size;
}

-- An item of the queue.
pub data Item : Type 0 where
  preloads : PreloadRequest → Item
  runs : Job → Item
  stops : Item

unfoldable pub intake : Item → Reactor → Reactor
unfolding intake_preload intake_job intake_stop
intake (preloads request) r = intake_preload r request
intake (runs x) r = intake_job r x
intake stops r = intake_stop r

-- A pair that the ring reports, and whether `finish_write` returns for it.
pub record Completion : Type 0 where
  pub user_data : ℕ
  pub result : ℤ
  pub finishes : Bool

-- What a pump is told. A copy that is pending has ended, with the descriptor that `open_temp_write`
-- opens for a store, or it has not.
pub record Report : Type 0 where
  pub world : World
  pub ended : List (Option (Option ℕ))
  pub completions : List Completion
  pub launched : Bool

-- `_drain_cuda_copies`, from the copy at an index on.
unfoldable pub drain_copies : World → List (Option (Option ℕ)) → ℕ → Reactor → Reactor
unfolding drain_copy
drain_copies w [] i r = r
drain_copies w (none ∷ answers) i r = drain_copies w answers (suc i) r
drain_copies w (some temp ∷ answers) i r = drain_copies w answers i (drain_copy w temp r i)

-- `_poll_ring_completions`
unfoldable pub poll : World → List Completion → Reactor → Reactor
unfolding complete
poll w [] r = r
poll w (c ∷ completions) r = poll w completions (complete w c.finishes r c.user_data c.result)

unfoldable pub pump_once : Report → Reactor → Reactor
unfolding drain_copies poll schedule_work flush_copy_batch finish_jobs
pump_once report r = finish_jobs (
    flush_copy_batch report.launched (
      schedule_work report.world
        (poll report.world report.completions (drain_copies report.world report.ended 0 r))))

some_in : {A : Type 0} → List A → Bool
some_in l = ltb 0 (length l)

unfoldable pub has_work : Reactor → Bool
unfolding some_in
has_work r =
    some_in r.active
    || (some_in r.slots.inflight
        || (some_in r.slots.pending_copies
            || (some_in r.slots.copy_ready
                || (some_in r.demand.pending
                    || (some_in r.slots.preload_slots
                        || (some_in r.slots.shared_cached
                            || (some_in r.ready_load || some_in r.ready_preload)))))))

unfoldable pub crash : Job → Job
unfolding is_set
crash x = if is_set x.outcome then x else record x { outcome = some (failed_with crashed) }

unfoldable pub crash_each : List ℕ → List Job → List Job
unfolding crash
crash_each [] jobs = jobs
crash_each (job ∷ handles) jobs = crash_each handles (modify crash job jobs)

unfoldable pub crash_waiting : List (ℕ × ℕ) → List Job → List Job
unfolding crash
crash_waiting [] jobs = jobs
crash_waiting ((job, _) ∷ waiters) jobs = crash_waiting waiters (modify crash job jobs)

unfoldable pub crash_item : Item → Item
unfolding crash
crash_item (preloads request) = preloads request
crash_item (runs x) = runs (crash x)
crash_item stops = stops

-- `_fail_everything`, with the items that are left in the queue.
unfoldable pub fail_everything : Reactor → List Item → Reactor × List Item
unfolding crash_each crash_waiting crash_item
fail_everything r queue = (
  record r {
    stop = true;
    jobs = crash_waiting (waiting (values r.demand.waiters)) (crash_each r.active r.jobs);
    active = [];
    demand = record (r.demand) { waiters = [] };
  },
  map crash_item queue,
)

-- What the thread does between items until it is told to stop.
pub data Step (r : Reactor) : Reactor → Type 0 where
  takes : (request : PreloadRequest) → Step r (intake (preloads request) r)
  accepts : (x : Job) → Step r (intake (runs x) r)
  pumps : (report : Report) → Step r (pump_once report r)

pub data Reach (r : Reactor) : Reactor → Type 0 where
  here : Reach r r
  next : {q t : Reactor} → Reach r q → Step q t → Reach r t
