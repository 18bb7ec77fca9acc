-- ===== src/Handler.antt =====
-- `NoopSharedStorageOffloadingHandler` of py_kvcache/vllm.py, the worker's side. Futures are a
-- parameter: `poll` of a future is none until it is done, and then how it ended. What the coordinator
-- returns or raises on a submission is an argument, and what is submitted for a preload is returned.
-- `clock job_id` is the time at which the result of the job is made. `wait`, which blocks and changes
-- nothing, and events for the profiler are left out.
pub mod Jobs
pub mod Preloads
pub mod Declines
use Prim.Native.String.{String}
use text.Mathlib.Text.{◌==◌ as str_eq}
use py_kvcache.Prelude.{
  ℕ, Bool, true, false, List, [], ◌∷◌, Option, none, some, Result, ok, err, type_error, value_error,
  runtime_error, ◌>>=◌, if◌then◌else◌, ltb, length, nat_eq, string_eq, ◌||◌,
}
use py_kvcache.Prelude.Keys.{contains, add, move_to_end}
use py_kvcache.Prelude.Dict.{Dict, values, insert, delete, has}
use py_kvcache.Seconds.{Seconds}

-- The classes of specs that the handler tells apart.
pub data LoadStoreSpec : Type 0 where
  gpu_spec : List ℕ → LoadStoreSpec
  shared_storage_spec : List ℕ → LoadStoreSpec
  other_spec : LoadStoreSpec

-- The pair of media of a transfer.
pub data TransferType : Type 0 where
  gpu_to_storage storage_to_gpu : TransferType

-- How a future ended: `LoadDeclined` carries block ids and a request id, another exception its text.
pub data Ended : Type 0 where
  transferred : ℕ → Ended
  load_declined : List ℕ → String → Ended
  raised : String → Ended

-- The new elements of `xs` are added to the set.
unfoldable pub update : List ℕ → List ℕ → List ℕ
update set [] = set
update set (x ∷ xs) = update (add x set) xs

-- `OrderedDict.popitem(last=False)`
unfoldable pub pop_first : List String → List String
pop_first [] = []
pop_first (_ ∷ ids) = ids

-- `transfer_async` up to its submission: the direction, or an exception for other classes.
unfoldable pub transfer_type_of : LoadStoreSpec → LoadStoreSpec → Result TransferType
transfer_type_of (gpu_spec _) (shared_storage_spec _) = ok gpu_to_storage
transfer_type_of (gpu_spec _) (gpu_spec _) = err type_error
transfer_type_of (gpu_spec _) other_spec = err type_error
transfer_type_of (shared_storage_spec _) (gpu_spec _) = ok storage_to_gpu
transfer_type_of (shared_storage_spec _) (shared_storage_spec _) = err type_error
transfer_type_of (shared_storage_spec _) other_spec = err type_error
transfer_type_of other_spec dst = err type_error

module _ (s : Seconds) (Future : Type 0) where
  pub record TransferResult : Type 0 where
    pub job_id : ℕ
    pub success : Bool
    pub transfer_size : ℕ
    pub transfer_time : s.Time
    pub transfer_type : TransferType
    pub message : Option String

  -- An entry of `_active`.
  pub record Active : Type 0 where
    pub future : Future
    pub started : s.Time
    pub transfer_type : TransferType

  pub record Handler : Type 0 where
    pub active : Dict ℕ Active
    pub finished : Dict ℕ TransferResult
    pub declined_block_ids : List ℕ
    pub declined_req_ids : List String
    pub submitted_preload_ids : List String
    pub max_submitted_preload_ids : ℕ
    pub is_shutdown : Bool

  unfoldable pub init : Handler
  init = record {
    active = [];
    finished = [];
    declined_block_ids = [];
    declined_req_ids = [];
    submitted_preload_ids = [];
    max_submitted_preload_ids = 1024;
    is_shutdown = false;
  }

  -- An id is remembered, and the oldest one is dropped beyond the bound.
  unfoldable pub remember : Handler → String → Handler
  unfolding pop_first
  remember h preload_id =
      let ids = add preload_id h.submitted_preload_ids in
      record h {
        submitted_preload_ids =
            if ltb h.max_submitted_preload_ids (length ids) then pop_first ids else ids;
      }

  -- The hashes that are submitted, if any, and the answer.
  unfoldable pub preload_storage : Handler → String → List ℕ → Handler × Option (List ℕ) × Bool
  unfolding remember
  preload_storage h preload_id hashes =
      if contains preload_id h.submitted_preload_ids
      then (
        record h { submitted_preload_ids = move_to_end preload_id h.submitted_preload_ids },
        none,
        false,
      )
      else (remember h preload_id, some hashes, true)

  unfoldable pub preload_open : Handler → String → LoadStoreSpec → Handler × Option (List ℕ) × Bool
  unfolding preload_storage
  preload_open h preload_id (gpu_spec _) = (h, none, false)
  preload_open h preload_id (shared_storage_spec hashes) = preload_storage h preload_id hashes
  preload_open h preload_id other_spec = (h, none, false)

  unfoldable pub preload_async :
      Handler → String → LoadStoreSpec → Result (Handler × Option (List ℕ) × Bool)
  unfolding preload_open
  preload_async h preload_id src =
      if h.is_shutdown then err runtime_error else ok (preload_open h preload_id src)

  unfoldable pub transfer_async :
      Result Future → s.Time → Handler → ℕ → LoadStoreSpec → LoadStoreSpec → Result (Handler × Bool)
  unfolding transfer_type_of
  transfer_async submitted started h job_id src dst =
      if h.is_shutdown
      then err runtime_error
      else if has job_id h.active || has job_id h.finished
      then err value_error
      else (do
        direction ← transfer_type_of src dst
        future ← submitted
        ok (
          record h {
            active =
                insert job_id
                  (record { future = future; started = started; transfer_type = direction })
                  h.active;
          },
          true,
        ))

  unfoldable pub load_from_preload_async :
      Result Future → s.Time → Handler → ℕ → LoadStoreSpec → LoadStoreSpec → Result (Handler × Bool)
  unfolding transfer_async
  load_from_preload_async submitted started h job_id (shared_storage_spec hashes)
        (gpu_spec blocks) =
      transfer_async submitted started h job_id (shared_storage_spec hashes) (gpu_spec blocks)
  load_from_preload_async submitted started h job_id (shared_storage_spec _)
        (shared_storage_spec _) =
      ok (h, false)
  load_from_preload_async submitted started h job_id (shared_storage_spec _) other_spec =
      ok (h, false)
  load_from_preload_async submitted started h job_id (gpu_spec _) dst = ok (h, false)
  load_from_preload_async submitted started h job_id other_spec dst = ok (h, false)

  -- What `_future_to_transfer_result` returns.
  unfoldable pub transfer_result : (ℕ → s.Time) → ℕ → Active → Ended → TransferResult
  transfer_result clock job_id a (transferred size) = record {
    job_id = job_id;
    success = true;
    transfer_size = size;
    transfer_time = s.sub (clock job_id) a.started;
    transfer_type = a.transfer_type;
    message = none;
  }
  transfer_result clock job_id a (load_declined _ _) = record {
    job_id = job_id;
    success = true;
    transfer_size = 0;
    transfer_time = s.sub (clock job_id) a.started;
    transfer_type = a.transfer_type;
    message = none;
  }
  transfer_result clock job_id a (raised text) = record {
    job_id = job_id;
    success = false;
    transfer_size = 0;
    transfer_time = s.sub (clock job_id) a.started;
    transfer_type = a.transfer_type;
    message = some text;
  }

  -- What `_future_to_transfer_result` notes of a declined load.
  unfoldable pub note_declined : Handler → Ended → Handler
  unfolding update
  note_declined h (transferred _) = h
  note_declined h (load_declined block_ids req_id) = record h {
    declined_block_ids = update h.declined_block_ids block_ids;
    declined_req_ids =
        if str_eq req_id "" then h.declined_req_ids else add req_id h.declined_req_ids;
  }
  note_declined h (raised _) = h

  -- The body of the loop of `get_finished`, for a future that is done or not.
  unfoldable pub collect : (ℕ → s.Time) → Handler → ℕ → Active → Option Ended → Handler
  unfolding note_declined transfer_result
  collect clock h job_id a none = h
  collect clock h job_id a (some ended) =
      let noted = note_declined h ended in
      record noted {
        finished = insert job_id (transfer_result clock job_id a ended) noted.finished;
        active = delete job_id noted.active;
      }

  unfoldable pub collect_each :
      (ℕ → s.Time) → (Future → Option Ended) → Handler → Dict ℕ Active → Handler
  unfolding collect
  collect_each clock poll h [] = h
  collect_each clock poll h ((job_id, a) ∷ items) =
      collect_each clock poll (collect clock h job_id a (poll a.future)) items

  unfoldable pub get_finished :
      (ℕ → s.Time) → (Future → Option Ended) → Handler → Handler × List TransferResult
  unfolding collect_each
  get_finished clock poll h =
      let collected = collect_each clock poll h h.active in
      (record collected { finished = [] }, values collected.finished)

  unfoldable pub get_declined_block_ids : Handler → Handler × List ℕ
  get_declined_block_ids h = (record h { declined_block_ids = [] }, h.declined_block_ids)

  unfoldable pub get_declined_req_ids : Handler → Handler × List String
  get_declined_req_ids h = (record h { declined_req_ids = [] }, h.declined_req_ids)

  -- The results of the futures that are done are dropped with the rest; what a declined load notes
  -- is not.
  unfoldable pub shutdown : (ℕ → s.Time) → (Future → Option Ended) → Handler → Handler
  unfolding collect_each
  shutdown clock poll h = record (collect_each clock poll h h.active) {
    active = [];
    finished = [];
    submitted_preload_ids = [];
    is_shutdown = true;
  }
