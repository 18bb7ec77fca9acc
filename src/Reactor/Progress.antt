-- ===== src/Reactor/Progress.antt =====
-- Each turn of the loops over a job's files in `_schedule_work` of py_kvcache/reactor.py begins one file,
-- unless it ends the loop.
pub mod Turns
pub mod Loops
use Prim.Native.String.{String}
use py_kvcache.Prelude.{
  ℕ, zero, suc, ◌+◌, ◌≡◌, refl, sym, ap, ◌∙◌, Bool-cases, inl, inr, Bool, true, false, List, [],
  ◌∷◌, Option, none, some, get_elem?, modify, ltb, if◌then◌else◌, arith,
}
use py_kvcache.Prelude.Dict.{lookup_or}
use py_kvcache.StagingCache.{StagingDataCache}
use py_kvcache.Reactor.State.{
  Failure, queue_failed, mapping_failed, Job, Keeper, PreloadInfo, Slots, Reactor,
}
use py_kvcache.Reactor.Demand.{drop_reference}
use py_kvcache.Reactor.Places.{shared_decref}
use py_kvcache.Reactor.Jobs.{
  World, Source, from_file, from_preload, from_cache, terminal, file_terminal, begin_file,
  count_source, queued, queue_load_copy, load_mapping, chunks_of, submitted, new_user_data,
  submit_open_read, submit_open_preload,
}
use py_kvcache.Reactor.Complete.{
  or_uncount, queue_shared, give_up, release_store_inflight, store_failed,
}

-- The file that a job begins next, and the number of its files.
abbrev pub span_of : Option Job → Option (ℕ × ℕ)
span_of none = none
span_of (some x) = some (x.next_file_index, x.total_files)

abbrev pub progress : List Job → ℕ → Option (ℕ × ℕ)
progress jobs job = span_of (get_elem? jobs job)

-- One more file is begun.
abbrev pub bump : Option (ℕ × ℕ) → Option (ℕ × ℕ)
bump none = none
bump (some (i, n)) = some (i + 1, n)

progress-modify :
    (f : Job → Job) (jobs : List Job) (other job : ℕ)
    → ((x : Job) → span_of (some (f x)) ≡ span_of (some x))
    → progress (modify f other jobs) job ≡ progress jobs job
progress-modify f [] other job same = refl
progress-modify f (x ∷ jobs) zero zero same = same x
progress-modify f (x ∷ jobs) zero (suc job) same = refl
progress-modify f (x ∷ jobs) (suc other) zero same = refl
progress-modify f (x ∷ jobs) (suc other) (suc job) same = progress-modify f jobs other job same

pub progress-begin_file :
    (jobs : List Job) (job : ℕ)
    → progress (modify begin_file job jobs) job ≡ bump (progress jobs job)
progress-begin_file [] job = refl
progress-begin_file (x ∷ jobs) zero = refl
progress-begin_file (x ∷ jobs) (suc job) = progress-begin_file jobs job

terminal-span :
    (result : Option Failure) (x : Job) → span_of (some (terminal result x)) ≡ span_of (some x)
unfolding terminal
terminal-span none x = refl
terminal-span (some e) x = refl

pub progress-file_terminal :
    (result : Option Failure) (other job : ℕ) (jobs : List Job)
    → progress (file_terminal result other jobs) job ≡ progress jobs job
unfolding file_terminal
progress-file_terminal result other job jobs =
    progress-modify (terminal result) jobs other job (terminal-span result)

count_source-span :
    (source : Source) (x : Job) → span_of (some (count_source source x)) ≡ span_of (some x)
unfolding count_source
count_source-span from_file x = refl
count_source-span from_preload x = refl
count_source-span from_cache x = refl

queued-jobs :
    (r : Reactor) (job file_index slot : ℕ) (keeper : Keeper) (o : Option ℕ)
    → (queued r job file_index slot keeper o).0.jobs ≡ r.jobs
unfolding queued
queued-jobs r job file_index slot keeper none = refl
queued-jobs r job file_index slot keeper (some _) = refl

pub progress-queue_load_copy :
    (r : Reactor) (job file_index slot : ℕ) (keeper : Keeper) (source : Source) (k : ℕ)
    → progress (queue_load_copy r job file_index slot keeper source).0.jobs k ≡ progress r.jobs k
unfolding queue_load_copy
progress-queue_load_copy r job file_index slot keeper source k =
    ap (λ jobs. progress jobs k)
      (queued-jobs (record r { jobs = modify (count_source source) job r.jobs }) job file_index slot
        keeper (load_mapping r.storage_block_size_factor slot (chunks_of r.jobs job) file_index))
    ∙ progress-modify (count_source source) r.jobs job k (count_source-span source)

pub shared_decref-jobs :
    (r : Reactor) (req_id : String) (h : ℕ) → (shared_decref r req_id h).jobs ≡ r.jobs
unfolding shared_decref
shared_decref-jobs r req_id h = refl

pub progress-submit_open_read :
    (w : World) (r : Reactor) (job file_index : ℕ)
    → progress (submit_open_read w r job file_index).jobs job ≡ bump (progress r.jobs job)
unfolding submit_open_read submitted new_user_data
progress-submit_open_read w r job file_index =
    elim (Bool-cases (w.takes (r.slots.next_user_data + 1))) [
      | inl e ↦ rw e (progress-begin_file r.jobs job)
      | inr e ↦ rw e (
          progress-file_terminal (some queue_failed) job job (modify begin_file job r.jobs)
          ∙ progress-begin_file r.jobs job)
    ]

pub submit_open_preload-jobs :
    (w : World) (r : Reactor) (info : PreloadInfo) → (submit_open_preload w r info).jobs ≡ r.jobs
unfolding submit_open_preload submitted new_user_data
submit_open_preload-jobs w r info = elim (Bool-cases (w.takes (r.slots.next_user_data + 1))) [
  | inl e ↦ rw e refl
  | inr e ↦ rw e refl
]

or_uncount-jobs :
    (job handle k : ℕ) (q : Reactor × Bool)
    → progress (or_uncount job handle q).jobs k ≡ progress q.0.jobs k
unfolding or_uncount
or_uncount-jobs job handle k (r, true) = refl
or_uncount-jobs job handle k (r, false) = progress-file_terminal (some mapping_failed) job k r.jobs

pub progress-or_uncount :
    (r : Reactor) (job file_index slot handle k : ℕ)
    → progress (or_uncount job handle (queue_shared r job file_index slot handle)).jobs k
      ≡ progress r.jobs k
unfolding queue_shared
progress-or_uncount r job file_index slot handle k =
    or_uncount-jobs job handle k (queue_shared r job file_index slot handle)
    ∙ progress-queue_load_copy _ job file_index slot _ from_preload k
