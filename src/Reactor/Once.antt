-- ===== src/Reactor/Once.antt =====
-- A job of py_kvcache/reactor.py ends once: what its outcome is set to is never changed. Here are the
-- operations that end a file, fail waiters or submit.
pub mod Read
pub mod Done
pub mod Begun
pub mod Steps
use py_kvcache.Prelude.{
  ℕ, zero, suc, nat_eq, ◌+◌, ◌≡◌, refl, sym, ap, subst, ◌∙◌, Bool-cases, inl, inr, Bool, true,
  false, List, [], ◌∷◌, ◌++◌, Option, none, some, get_elem?, modify, if◌then◌else◌, arith,
}
use py_kvcache.Prelude.Dict.{lookup_or}
use py_kvcache.Reactor.State.{
  Failure, queue_failed, Outcome, Job, Keeper, PreloadInfo, ReadyLoad, ReadyPreload, Demand,
  Reactor,
}
use py_kvcache.Reactor.Demand.{waiter_pop, inflight_remove}
use py_kvcache.Reactor.Places.{release_slot}
use py_kvcache.Reactor.Jobs.{
  World, is_set, terminal, file_terminal, fail_each, fail_all_preload_waiters, fail_popped,
  fail_one_waiter, fail_preload, begin_file, Source, from_file, from_preload, from_cache,
  count_source, queued, queue_load_copy, load_mapping, chunks_of, submitted, new_user_data,
  async_close, submit_open_read, submit_read_load, submit_read_preload,
}

abbrev pub outcome_of : Option Job → Option Outcome
outcome_of none = none
outcome_of (some x) = x.outcome

-- The job at a handle has an outcome.
abbrev pub IsEnded : ℕ → Outcome → List Job → Type 0
IsEnded j o jobs = outcome_of (get_elem? jobs j) ≡ some o

module _ (j : ℕ) (o : Outcome) where
  pub if-IsEnded :
      (b : Bool) (p q : Reactor)
      → IsEnded j o p.jobs
      → IsEnded j o q.jobs
      → IsEnded j o (if b then p else q).jobs
  if-IsEnded true p q v w = v
  if-IsEnded false p q v w = w

  pub turn-IsEnded :
      (b : Bool) (p q : Reactor × Bool)
      → IsEnded j o p.0.jobs
      → IsEnded j o q.0.jobs
      → IsEnded j o (if b then p else q).0.jobs
  turn-IsEnded true p q v w = v
  turn-IsEnded false p q v w = w

module _ (o : Outcome) where
  terminal-outcome :
      (result : Option Failure) (x : Job)
      → x.outcome ≡ some o
      → (terminal result x).outcome ≡ some o
  unfolding terminal is_set
  terminal-outcome none x e = rw e refl
  terminal-outcome (some f) x e = rw e refl

  count_source-outcome :
      (source : Source) (x : Job) → x.outcome ≡ some o → (count_source source x).outcome ≡ some o
  unfolding count_source
  count_source-outcome from_file x e = e
  count_source-outcome from_preload x e = e
  count_source-outcome from_cache x e = e

modify-outcome :
    (j : ℕ) (o : Outcome) (f : Job → Job) (k : ℕ) (jobs : List Job)
    → ((x : Job) → x.outcome ≡ some o → (f x).outcome ≡ some o)
    → IsEnded j o jobs
    → IsEnded j o (modify f k jobs)
modify-outcome j o f k [] keeps e = e
modify-outcome zero o f zero (x ∷ jobs) keeps e = keeps x e
modify-outcome zero o f (suc k) (x ∷ jobs) keeps e = e
modify-outcome (suc j) o f zero (x ∷ jobs) keeps e = e
modify-outcome (suc j) o f (suc k) (x ∷ jobs) keeps e = modify-outcome j o f k jobs keeps e

module _ (j : ℕ) (o : Outcome) where
  pub begin_file-IsEnded :
      (k : ℕ) (jobs : List Job) → IsEnded j o jobs → IsEnded j o (modify begin_file k jobs)
  begin_file-IsEnded k jobs e = modify-outcome j o begin_file k jobs (λ x h. h) e

  pub file_terminal-IsEnded :
      (result : Option Failure) (k : ℕ) (jobs : List Job)
      → IsEnded j o jobs
      → IsEnded j o (file_terminal result k jobs)
  unfolding file_terminal
  file_terminal-IsEnded result k jobs e =
      modify-outcome j o (terminal result) k jobs (terminal-outcome o result) e

  pub fail_each-IsEnded :
      (f : Failure) (waiters : List (ℕ × ℕ)) (jobs : List Job)
      → IsEnded j o jobs
      → IsEnded j o (fail_each f waiters jobs)
  unfolding fail_each
  fail_each-IsEnded f [] jobs e = e
  fail_each-IsEnded f ((job, _) ∷ waiters) jobs e =
      fail_each-IsEnded f waiters (file_terminal (some f) job jobs)
        (file_terminal-IsEnded (some f) job jobs e)

  pub fail_all_preload_waiters-IsEnded :
      (r : Reactor) (h : ℕ) (f : Failure)
      → IsEnded j o r.jobs
      → IsEnded j o (fail_all_preload_waiters r h f).jobs
  unfolding fail_all_preload_waiters
  fail_all_preload_waiters-IsEnded r h f e =
      fail_each-IsEnded f (lookup_or h [] r.demand.waiters) r.jobs e

  fail_popped-IsEnded :
      (r : Reactor) (f : Failure) (p : Demand × Option (ℕ × ℕ))
      → IsEnded j o r.jobs
      → IsEnded j o (fail_popped r f p).jobs
  unfolding fail_popped
  fail_popped-IsEnded r f (d, none) e = e
  fail_popped-IsEnded r f (d, some (job, _)) e = file_terminal-IsEnded (some f) job r.jobs e

  pub fail_one_waiter-IsEnded :
      (r : Reactor) (h : ℕ) (f : Failure)
      → IsEnded j o r.jobs
      → IsEnded j o (fail_one_waiter r h f).jobs
  unfolding fail_one_waiter
  fail_one_waiter-IsEnded r h f e = fail_popped-IsEnded r f (waiter_pop r.demand h) e

  pub fail_preload-IsEnded :
      (r : Reactor) (h : ℕ) (f : Failure)
      → IsEnded j o r.jobs
      → IsEnded j o (fail_preload r h f).jobs
  unfolding fail_preload
  fail_preload-IsEnded r h f e =
      if-IsEnded j o r.demand.share_preload (fail_all_preload_waiters r h f) (fail_one_waiter r h f)
        (fail_all_preload_waiters-IsEnded r h f e) (fail_one_waiter-IsEnded r h f e)

  queued-IsEnded :
      (r : Reactor) (job file_index slot : ℕ) (keeper : Keeper) (m : Option ℕ)
      → IsEnded j o r.jobs
      → IsEnded j o (queued r job file_index slot keeper m).0.jobs
  unfolding queued
  queued-IsEnded r job file_index slot keeper none e = e
  queued-IsEnded r job file_index slot keeper (some _) e = e

  pub queue_load_copy-IsEnded :
      (r : Reactor) (job file_index slot : ℕ) (keeper : Keeper) (source : Source)
      → IsEnded j o r.jobs
      → IsEnded j o (queue_load_copy r job file_index slot keeper source).0.jobs
  unfolding queue_load_copy
  queue_load_copy-IsEnded r job file_index slot keeper source e =
      queued-IsEnded (record r { jobs = modify (count_source source) job r.jobs }) job file_index
        slot keeper
        (load_mapping r.storage_block_size_factor slot (chunks_of r.jobs job) file_index)
        (modify-outcome j o (count_source source) job r.jobs (count_source-outcome o source) e)

  pub async_close-IsEnded :
      (w : World) (r : Reactor) (fd : ℕ)
      → IsEnded j o r.jobs
      → IsEnded j o (async_close w r fd).jobs
  unfolding async_close submitted new_user_data
  async_close-IsEnded w r fd e = if-IsEnded j o (w.takes (r.slots.next_user_data + 1)) _ _ e e

  new_user_data-IsEnded : (r : Reactor) → IsEnded j o r.jobs → IsEnded j o (new_user_data r).jobs
  unfolding new_user_data
  new_user_data-IsEnded r e = e

  pub submit_open_read-IsEnded :
      (w : World) (r : Reactor) (job file_index : ℕ)
      → IsEnded j o r.jobs
      → IsEnded j o (submit_open_read w r job file_index).jobs
  unfolding submit_open_read submitted new_user_data
  submit_open_read-IsEnded w r job file_index e =
      let begun = begin_file-IsEnded job r.jobs e in
      if-IsEnded j o (w.takes (r.slots.next_user_data + 1)) _ _ begun
        (file_terminal-IsEnded (some queue_failed) job (modify begin_file job r.jobs) begun)

  pub submit_read_load-IsEnded :
      (w : World) (r : Reactor) (ready : ReadyLoad) (slot : ℕ)
      → IsEnded j o r.jobs
      → IsEnded j o (submit_read_load w r ready slot).jobs
  unfolding submit_read_load submitted
  submit_read_load-IsEnded w r ready slot e =
      let closed = async_close w (new_user_data r) ready.fd in
      if-IsEnded j o (w.takes (new_user_data r).slots.next_user_data) _ _
        (new_user_data-IsEnded r e)
        (file_terminal-IsEnded (some queue_failed) ready.job closed.jobs
          (async_close-IsEnded w (new_user_data r) ready.fd (new_user_data-IsEnded r e)))

  pub submit_read_preload-IsEnded :
      (w : World) (r : Reactor) (ready : ReadyPreload) (slot : ℕ)
      → IsEnded j o r.jobs
      → IsEnded j o (submit_read_preload w r ready slot).jobs
  unfolding submit_read_preload submitted
  submit_read_preload-IsEnded w r ready slot e =
      let closed = async_close w (new_user_data r) ready.fd in
      if-IsEnded j o (w.takes (new_user_data r).slots.next_user_data) _ _
        (new_user_data-IsEnded r e)
        (fail_preload-IsEnded
          (record closed {
            slots = release_slot closed.slots slot;
            demand = inflight_remove closed.demand ready.info.block_hash;
          })
          ready.info.block_hash queue_failed
          (async_close-IsEnded w (new_user_data r) ready.fd (new_user_data-IsEnded r e)))
