-- ===== src/Reactor/Jobs.antt =====
-- The jobs of py_kvcache/reactor.py: how a file of a job begins and ends, and what is submitted to the
-- ring and to the GPU for it. What the surroundings answer is `World`: whether the ring takes a
-- submission, named by its user data, and whether a copy from the GPU to a slot can be launched. A
-- handle or an index that is out of range changes nothing; the code uses none.
use py_kvcache.Prelude.{
  ℕ, ◌+◌, Bool, true, false, List, [], ◌∷◌, ◌++◌, Option, none, some, Result, ok, err,
  if◌then◌else◌, leb, get_elem?, modify, nat_eq, ◌==◌, not, ◌&&◌, ◌||◌,
}
use py_kvcache.Prelude.Int.{ℤ, pos, negsuc, inc, dec}
use py_kvcache.Prelude.Dict.{lookup_or, insert, delete}
use py_kvcache.Transfer.{build_block_mapping}
use py_kvcache.Reactor.State.{
  Failure, queue_failed, transferred, failed_with, Job, PreloadInfo, RingOp, open_load,
  open_preload, read_load, read_preload, close_fd, ReadyLoad, ReadyPreload, Keeper, Demand, Reactor,
}
use py_kvcache.Reactor.Demand.{inflight_add, inflight_remove, waiter_pop}
use py_kvcache.Reactor.Places.{release_slot}

pub record World : Type 0 where
  pub takes : ℕ → Bool
  pub launches : ℕ → Bool

unfoldable pub is_set : {A : Type 0} → Option A → Bool
is_set none = false
is_set (some _) = true

-- `_file_terminal` of a job: without an exception, or with one.
unfoldable pub terminal : Option Failure → Job → Job
unfolding is_set
terminal none x = record x {
  inflight_files = dec x.inflight_files;
  done_files = x.done_files + 1;
  outcome =
      if not (is_set x.outcome) && x.done_files + 1 == x.total_files
      then some (transferred x.transfer_size)
      else x.outcome;
}
terminal (some e) x = record x {
  inflight_files = dec x.inflight_files;
  failed = if is_set x.outcome then x.failed else some e;
  outcome = if is_set x.outcome then x.outcome else some (failed_with e);
}

unfoldable pub file_terminal : Option Failure → ℕ → List Job → List Job
unfolding terminal
file_terminal result job jobs = modify (terminal result) job jobs

-- Each waiter's file fails.
unfoldable pub fail_each : Failure → List (ℕ × ℕ) → List Job → List Job
unfolding file_terminal
fail_each e [] jobs = jobs
fail_each e ((job, _) ∷ waiters) jobs = fail_each e waiters (file_terminal (some e) job jobs)

unfoldable pub fail_all_preload_waiters : Reactor → ℕ → Failure → Reactor
unfolding fail_each
fail_all_preload_waiters r h e = record r {
  jobs = fail_each e (lookup_or h [] r.demand.waiters) r.jobs;
  demand = record (r.demand) { waiters = delete h r.demand.waiters };
}

unfoldable pub fail_popped : Reactor → Failure → Demand × Option (ℕ × ℕ) → Reactor
unfolding file_terminal
fail_popped r e (d, none) = record r { demand = d }
fail_popped r e (d, some (job, _)) = record r {
  demand = d;
  jobs = file_terminal (some e) job r.jobs;
}

-- One waiter's file fails, if there is a waiter.
unfoldable pub fail_one_waiter : Reactor → ℕ → Failure → Reactor
unfolding fail_popped waiter_pop
fail_one_waiter r h e = fail_popped r e (waiter_pop r.demand h)

is_zero : ℤ → Bool
is_zero (pos n) = n == 0
is_zero (negsuc _) = false

-- `drained and job.future_set`
unfoldable pub is_finished : Job → Bool
unfolding is_zero is_set
is_finished x =
    (is_zero x.inflight_files && (leb x.total_files x.next_file_index || is_set x.failed))
    && is_set x.outcome

-- A job stays active unless it is finished.
unfoldable pub keep_job : ℕ → Option Job → List ℕ → List ℕ
unfolding is_finished
keep_job job none rest = rest
keep_job job (some x) rest = if is_finished x then rest else job ∷ rest

unfoldable pub remaining : List Job → List ℕ → List ℕ
unfolding keep_job
remaining jobs [] = []
remaining jobs (job ∷ active) = keep_job job (get_elem? jobs job) (remaining jobs active)

unfoldable pub finish_jobs : Reactor → Reactor
unfolding remaining
finish_jobs r = record r { active = remaining r.jobs r.active }

abbrev pub begin_file : Job → Job
begin_file x = record x {
  next_file_index = x.next_file_index + 1;
  inflight_files = inc x.inflight_files;
}

-- The hash of a file of a job.
unfoldable pub hash_of : List Job → ℕ → ℕ → ℕ
hash_of jobs job file_index = elim (get_elem? jobs job) [
  | none ↦ 0
  | some x ↦ elim (get_elem? x.block_hashes file_index) [ none ↦ 0 | some h ↦ h ]
]

mapping_count : Result (List ℕ × List ℕ × ℕ) → Option ℕ
mapping_count (err _) = none
mapping_count (ok (_, _, count)) = some count

-- The length of the mapping from a slot to the blocks of a file, none where it raises.
unfoldable pub load_mapping : ℕ → ℕ → List (List ℕ) → ℕ → Option ℕ
unfolding mapping_count
load_mapping factor slot chunks file_index = elim (get_elem? chunks file_index) [
  | none ↦ none
  | some chunk ↦ mapping_count (build_block_mapping (slot ∷ []) factor chunk 1)
]

unfoldable pub store_mapping : ℕ → ℕ → List (List ℕ) → ℕ → Option ℕ
unfolding mapping_count
store_mapping factor slot chunks file_index = elim (get_elem? chunks file_index) [
  | none ↦ none
  | some chunk ↦ mapping_count (build_block_mapping chunk 1 (slot ∷ []) factor)
]

unfoldable pub chunks_of : List Job → ℕ → List (List ℕ)
chunks_of jobs job = elim (get_elem? jobs job) [ none ↦ [] | some x ↦ x.block_chunks ]

-- Where the bytes of a load come from.
pub data Source : Type 0 where
  from_file from_preload from_cache : Source

unfoldable pub count_source : Source → Job → Job
count_source from_file x = record x { n_from_file = x.n_from_file + 1 }
count_source from_preload x = record x { n_from_preload = x.n_from_preload + 1 }
count_source from_cache x = record x { n_from_cache = x.n_from_cache + 1 }

unfoldable pub queued : Reactor → ℕ → ℕ → ℕ → Keeper → Option ℕ → Reactor × Bool
queued r job file_index slot keeper none = (r, false)
queued r job file_index slot keeper (some count) = (
  record r {
    slots = record (r.slots) {
      copy_ready =
          r.slots.copy_ready
          ++ (record {
            job = job;
            file_index = file_index;
            slot_index = slot;
            mapping_len = count;
            keeper = keeper;
          })
            ∷ [];
    };
  },
  true,
)

-- `_queue_load_copy`: the reactor after, and whether it returned; else it raised.
unfoldable pub queue_load_copy : Reactor → ℕ → ℕ → ℕ → Keeper → Source → Reactor × Bool
unfolding queued load_mapping chunks_of count_source
queue_load_copy r job file_index slot keeper source =
    queued (record r { jobs = modify (count_source source) job r.jobs }) job file_index slot keeper
      (load_mapping r.storage_block_size_factor slot (chunks_of r.jobs job) file_index)

-- A submission that the ring took.
unfoldable pub submitted : Reactor → RingOp → Reactor
submitted r op = record r {
  slots = record (r.slots) { inflight = insert r.slots.next_user_data op r.slots.inflight };
}

unfoldable pub new_user_data : Reactor → Reactor
new_user_data r = record r {
  slots = record (r.slots) { next_user_data = r.slots.next_user_data + 1 };
}

unfoldable pub async_close : World → Reactor → ℕ → Reactor
unfolding submitted new_user_data
async_close w r fd =
    let r' = new_user_data r in
    if w.takes r'.slots.next_user_data then submitted r' (close_fd fd) else r'

unfoldable pub submit_open_read : World → Reactor → ℕ → ℕ → Reactor
unfolding submitted new_user_data file_terminal
submit_open_read w r job file_index =
    let r' = record (new_user_data r) { jobs = modify begin_file job r.jobs } in
    if w.takes r'.slots.next_user_data
    then record (submitted r' (open_load job file_index)) { open_inflight = inc r.open_inflight }
    else record r' { jobs = file_terminal (some queue_failed) job r'.jobs }

unfoldable pub submit_open_preload : World → Reactor → PreloadInfo → Reactor
unfolding submitted new_user_data inflight_add
submit_open_preload w r info =
    let r' = new_user_data r in
    if w.takes r'.slots.next_user_data
    then record (submitted r' (open_preload info)) {
      open_inflight = inc r.open_inflight;
      demand = inflight_add r.demand info.block_hash;
    }
    else r'

-- `_submit_read_from_ready` of a job's file.
unfoldable pub submit_read_load : World → Reactor → ReadyLoad → ℕ → Reactor
unfolding submitted new_user_data file_terminal async_close release_slot
submit_read_load w r ready slot =
    let r' = new_user_data r in
    if w.takes r'.slots.next_user_data
    then record (submitted r' (read_load ready.job ready.file_index slot ready.fd)) {
      data_inflight = inc r.data_inflight;
    }
    else (let closed = async_close w r' ready.fd in
        record closed {
          slots = release_slot closed.slots slot;
          jobs = file_terminal (some queue_failed) ready.job closed.jobs;
        })

-- The waiters of a preload whose read could not be queued.
unfoldable pub fail_preload : Reactor → ℕ → Failure → Reactor
unfolding fail_all_preload_waiters fail_one_waiter
fail_preload r h e =
    if r.demand.share_preload then fail_all_preload_waiters r h e else fail_one_waiter r h e

-- `_submit_read_from_ready` of a preload.
unfoldable pub submit_read_preload : World → Reactor → ReadyPreload → ℕ → Reactor
unfolding submitted new_user_data async_close release_slot fail_preload inflight_remove
submit_read_preload w r ready slot =
    let r' = new_user_data r in
    if w.takes r'.slots.next_user_data
    then record (submitted r' (read_preload ready.info slot ready.fd)) {
      data_inflight = inc r.data_inflight;
    }
    else (let closed = async_close w r' ready.fd in
        fail_preload
          (record closed {
            slots = release_slot closed.slots slot;
            demand = inflight_remove closed.demand ready.info.block_hash;
          })
          ready.info.block_hash queue_failed)
