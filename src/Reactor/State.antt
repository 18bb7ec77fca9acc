-- ===== src/Reactor/State.antt =====
-- The data of py_kvcache/reactor.py and the attributes of `IoReactor`. A job and a shared slot are
-- objects that several attributes refer to: each is an entry of a heap, a list, and is named by its
-- index there. A slot of the staging cache that a copy holds is named by its hash, and is `drained`
-- once `drain` took it out of the cache. Times, samples, profiles but for the request id, and tensors
-- are left out.
use Prim.Native.String.{String}
use py_kvcache.Prelude.{ℕ, Bool, List, Option}
use py_kvcache.Prelude.Int.{ℤ}
use py_kvcache.Prelude.Dict.{Dict}
use py_kvcache.Staging.{StagingPool}
use py_kvcache.StagingCache.{StagingDataCache}
use py_kvcache.BreakEven.{BreakEvenThresholds}

-- The exceptions that end a job, by where they come from.
pub data Failure : Type 0 where
  open_failed read_failed write_failed queue_failed mapping_failed copy_failed : Failure
  shutting_down crashed : Failure

-- What a job's future is set to.
pub data Outcome : Type 0 where
  transferred : ℕ → Outcome
  failed_with : Failure → Outcome
  load_declined : List ℕ → String → Outcome

-- `future_set` is that `outcome` is not none.
pub record Job : Type 0 where
  pub job_id : ℕ
  pub is_store : Bool
  pub block_hashes : List ℕ
  pub block_chunks : List (List ℕ)
  pub req_id : String
  pub total_files : ℕ
  pub transfer_size : ℕ
  pub next_file_index : ℕ
  pub inflight_files : ℤ
  pub done_files : ℕ
  pub failed : Option Failure
  pub outcome : Option Outcome
  pub n_from_file : ℕ
  pub n_from_preload : ℕ
  pub n_from_cache : ℕ

pub record PreloadRequest : Type 0 where
  pub block_hashes : List ℕ
  pub preload_id : String
  pub req_id : String
  pub profile_tid : String

pub record PreloadInfo : Type 0 where
  pub block_hash : ℕ
  pub preload_id : String
  pub req_id : String
  pub profile_tid : String
  pub file_index : ℕ
  pub total_files : ℕ

pub record SharedSlot : Type 0 where
  pub block_hash : ℕ
  pub slot_index : ℕ
  pub preload_info : PreloadInfo
  pub copies_inflight : ℤ
  pub cached : Bool

-- `_RingOp` by its `op_kind`, and by whether it is of a job or of a preload.
pub data RingOp : Type 0 where
  open_load : (job file_index : ℕ) → RingOp
  open_preload : PreloadInfo → RingOp
  read_load : (job file_index slot_index fd : ℕ) → RingOp
  read_preload : PreloadInfo → (slot_index fd : ℕ) → RingOp
  write_store : (job file_index slot_index fd : ℕ) → RingOp
  close_fd : (fd : ℕ) → RingOp

-- `_ReadyFd` of a job.
pub record ReadyLoad : Type 0 where
  pub fd : ℕ
  pub job : ℕ
  pub file_index : ℕ

-- `_ReadyFd` of a preload.
pub record ReadyPreload : Type 0 where
  pub fd : ℕ
  pub info : PreloadInfo

-- What keeps the slot that a copy to the GPU reads: the copy itself, a shared slot or the cache.
pub data Keeper : Type 0 where
  own : Keeper
  shared : (handle : ℕ) → Keeper
  cached : (block_hash : ℕ) → Keeper
  drained : Keeper

-- `_ReadyCopy`, and a member of a `_CopyOp`.
pub record LoadCopy : Type 0 where
  pub job : ℕ
  pub file_index : ℕ
  pub slot_index : ℕ
  pub mapping_len : ℕ
  pub keeper : Keeper

-- `_CopyOp`
pub data CopyOp : Type 0 where
  store_copy : (job file_index slot_index : ℕ) → CopyOp
  load_batch : List LoadCopy → CopyOp

-- The attributes that say where each staging slot is, and the number of the last submission.
pub record Slots : Type 0 where
  pub pool : StagingPool
  pub cache : Option StagingDataCache
  pub preload_slots : Dict ℕ (List (ℕ × PreloadInfo))
  pub heap : List SharedSlot
  pub shared_cached : Dict ℕ ℕ
  pub cached_total : ℤ
  pub inflight : Dict ℕ RingOp
  pub next_user_data : ℕ
  pub copy_ready : List LoadCopy
  pub pending_copies : List CopyOp

-- The attributes that count who demands which hash.
pub record Demand : Type 0 where
  pub share_preload : Bool
  pub refcount : Dict ℕ ℕ
  pub pending : List PreloadInfo
  pub pending_count : Dict ℕ ℕ
  pub pending_cancel : Dict ℕ ℕ
  pub inflight_hashes : Dict ℕ ℕ
  pub inflight_total : ℤ
  pub owned : List (String × ℕ)
  pub max_owned : ℕ
  pub waiters : Dict ℕ (List (ℕ × ℕ))
  pub store_inflight : Dict ℕ ℕ
  pub blocked_on_write : Dict ℕ (List PreloadInfo)
  pub known_missing : Dict ℕ (List PreloadInfo)
  pub max_known_missing : ℕ

pub record Reactor : Type 0 where
  pub slots : Slots
  pub demand : Demand
  pub jobs : List Job
  pub active : List ℕ
  pub data_inflight : ℤ
  pub open_inflight : ℤ
  pub ready_load : List ReadyLoad
  pub ready_preload : List ReadyPreload
  pub stop : Bool
  pub iodepth : ℕ
  pub open_lookahead : ℕ
  pub max_preload_slots : ℕ
  pub thresholds : BreakEvenThresholds
  pub storage_block_tokens : ℕ
  pub storage_block_size_factor : ℕ
  pub io_size : ℕ
