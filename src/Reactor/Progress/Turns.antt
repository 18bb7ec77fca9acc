-- ===== src/Reactor/Progress/Turns.antt =====
-- A turn of the loop over a load's files in py_kvcache/reactor.py begins the next file.
use py_kvcache.Prelude.{
  ℕ, ◌≡◌, refl, ap, ◌∙◌, Option-cases, inl, inr, Bool, true, false, List, [], ◌∷◌, Option, none,
  some, nat_eq, get_elem?, length, ltb, not, ◌&&◌, if◌then◌else◌, arith,
}
use py_kvcache.Prelude.Dict.{lookup, lookup_or}
use py_kvcache.StagingCache.{StagingDataCache, CacheSlot, get, pin}
use py_kvcache.Reactor.State.{mapping_failed, own, cached, SharedSlot, PreloadInfo, Slots, Reactor}
use py_kvcache.Reactor.Demand.{has_inflight, waiter_room, cancel_one_pending}
use py_kvcache.Reactor.Places.{pop_slots, preload_cache_pop, has_cached_preload}
use py_kvcache.Reactor.Jobs.{World, from_preload, from_cache, queue_load_copy}
use py_kvcache.Reactor.Complete.{or_uncount, queue_shared, give_up}
use py_kvcache.Reactor.Schedule.{
  begun, or_unpin, schedule_cache_hit, or_give_back, preload_done, schedule_preload_done,
  schedule_preload_inflight, unclaim, or_unclaim, claimed, shared_claim_from_cache, info_for_job,
  promote_pending, load_shared, cancelled, load_private, load_uncached, load_found, load_cached,
  load_file, can_open,
}
use py_kvcache.Reactor.Placed.{IsPlaced}
use py_kvcache.Reactor.Placed.Load.{got-IsPlaced}
use py_kvcache.Reactor.Progress.{
  progress, bump, progress-begin_file, progress-file_terminal, progress-queue_load_copy,
  progress-submit_open_read, submit_open_preload-jobs, progress-or_uncount,
}

or_unpin-progress :
    (job h : ℕ) (c : StagingDataCache) (q : Reactor × Bool) (k : ℕ)
    → progress (or_unpin job h c q).jobs k ≡ progress q.0.jobs k
unfolding or_unpin
or_unpin-progress job h c (r, true) k = refl
or_unpin-progress job h c (r, false) k = progress-file_terminal (some mapping_failed) job k r.jobs

schedule_cache_hit-progress :
    (r : Reactor) (job file_index h : ℕ) (c : StagingDataCache) (slot : CacheSlot)
    → progress (schedule_cache_hit r job file_index h c slot).jobs job ≡ bump (progress r.jobs job)
unfolding schedule_cache_hit begun
schedule_cache_hit-progress r job file_index h c slot =
    let pinned = begun (record r { slots = record (r.slots) { cache = some (pin c h) } }) job in
    or_unpin-progress job h (pin c h)
      (queue_load_copy pinned job file_index slot.slot_index (cached h) from_cache) job
    ∙ progress-queue_load_copy pinned job file_index slot.slot_index (cached h) from_cache job
    ∙ progress-begin_file r.jobs job

or_give_back-progress :
    (job slot : ℕ) (q : Reactor × Bool) (k : ℕ)
    → progress (or_give_back job slot q).jobs k ≡ progress q.0.jobs k
unfolding or_give_back give_up
or_give_back-progress job slot (r, true) k = refl
or_give_back-progress job slot (r, false) k =
    progress-file_terminal (some mapping_failed) job k r.jobs

popped_some :
    (h : ℕ) (l : List (ℕ × PreloadInfo)) (s : Slots)
    → ltb 0 (length l) ≡ true
    → (e : ℕ × PreloadInfo) × ((pop_slots h l s).1 ≡ some e)
unfolding pop_slots
popped_some h [] s e = absurd (ground arith)
popped_some h (x ∷ l) s e = (x, refl)

preload_done-progress :
    (r : Reactor) (job file_index : ℕ) (p : Slots × Option (ℕ × PreloadInfo)) (e : ℕ × PreloadInfo)
    → p.1 ≡ some e
    → progress (preload_done r job file_index p).jobs job ≡ bump (progress r.jobs job)
unfolding preload_done begun
preload_done-progress r job file_index (s, none) e is = cc
preload_done-progress r job file_index (s, some (slot, _)) e is =
    let r' = begun (record r { slots = s }) job in
    or_give_back-progress job slot (queue_load_copy r' job file_index slot own from_preload) job
    ∙ progress-queue_load_copy r' job file_index slot own from_preload job
    ∙ progress-begin_file r.jobs job

schedule_preload_done-progress :
    (r : Reactor) (job file_index h : ℕ)
    → has_cached_preload r.slots h ≡ true
    → progress (schedule_preload_done r job file_index h).jobs job ≡ bump (progress r.jobs job)
unfolding schedule_preload_done has_cached_preload preload_cache_pop
schedule_preload_done-progress r job file_index h e =
    let (entry, is) = popped_some h (lookup_or h [] r.slots.preload_slots) r.slots e in
    preload_done-progress r job file_index (preload_cache_pop r.slots h) entry is

or_unclaim-progress :
    (job handle : ℕ) (q : Reactor × Bool) (k : ℕ)
    → progress (or_unclaim job handle q).jobs k ≡ progress (or_uncount job handle q).jobs k
unfolding or_unclaim or_uncount unclaim
or_unclaim-progress job handle (r, true) k = refl
or_unclaim-progress job handle (r, false) k = refl

claimed-progress :
    (r : Reactor) (job file_index h handle : ℕ) (o : Option SharedSlot) (x : SharedSlot)
    → o ≡ some x
    → progress (claimed r job file_index h handle o).jobs job ≡ bump (progress r.jobs job)
unfolding claimed begun
claimed-progress r job file_index h handle none x e = cc
claimed-progress r job file_index h handle (some y) x e =
    or_unclaim-progress job handle (queue_shared (begun r job) job file_index y.slot_index handle)
      job
    ∙ progress-or_uncount (begun r job) job file_index y.slot_index handle job
    ∙ progress-begin_file r.jobs job

-- A turn that lets the loop go on has begun a file.
abbrev pub Begins : ℕ → Reactor → Reactor × Bool → Type 0
Begins job r q = q.1 ≡ true → progress q.0.jobs job ≡ bump (progress r.jobs job)

pub either :
    (job : ℕ) (r : Reactor) (b : Bool) (p q : Reactor × Bool)
    → (b ≡ true → Begins job r p)
    → (b ≡ false → Begins job r q)
    → Begins job r (if b then p else q)
either job r true p q f g = f refl
either job r false p q f g = g refl

promote_pending-progress :
    (w : World) (r : Reactor) (job file_index h : ℕ)
    → progress (promote_pending w r job file_index h).jobs job ≡ bump (progress r.jobs job)
unfolding promote_pending schedule_preload_inflight begun
promote_pending-progress w r job file_index h =
    progress-begin_file _ job
    ∙ ap (λ jobs. bump (progress jobs job))
        (submit_open_preload-jobs w (record r { demand = (cancel_one_pending r.demand h).0 })
          (info_for_job r.jobs job file_index))

load_shared-Begins :
    {total : ℕ} (w : World) (r : Reactor) (job file_index h : ℕ)
    → IsPlaced total r.slots [] []
    → Begins job r (load_shared w r job file_index h)
unfolding load_shared schedule_preload_inflight begun shared_claim_from_cache
load_shared-Begins w r job file_index h v = elim (Option-cases (lookup h r.slots.shared_cached)) [
  | inl e ↦
      simp (e, load_shared)
        (either job r (has_inflight r.demand h) _ _ (λ _ _. progress-begin_file r.jobs job)
          (λ _.
            either job r (not (can_open r)) _ _ (λ _ no. cc no)
              (λ _.
                either job r (ltb 0 (lookup_or h 0 r.demand.pending_count)) _ _
                  (λ _ _. promote_pending-progress w r job file_index h)
                  (λ _ _. progress-submit_open_read w r job file_index))))
  | inr (handle, e) ↦
      let (x, at, _, _) = v.shared_ok h handle e in
      simp (e, load_shared)
        (λ _. claimed-progress r job file_index h handle (get_elem? r.slots.heap handle) x at)
]

load_private-Begins :
    (w : World) (r : Reactor) (job file_index h : ℕ)
    → Begins job r (load_private w r job file_index h)
unfolding load_private schedule_preload_inflight begun cancelled
load_private-Begins w r job file_index h =
    either job r (has_cached_preload r.slots h) _ _
      (λ e _. schedule_preload_done-progress r job file_index h e)
      (λ _.
        either job r (has_inflight r.demand h && waiter_room r.demand h) _ _
          (λ _ _. progress-begin_file r.jobs job)
          (λ _.
            either job r (not (can_open r)) _ _ (λ _ no. cc no)
              (λ _ _. progress-submit_open_read w r job file_index)))

load_uncached-Begins :
    {total : ℕ} (w : World) (r : Reactor) (job file_index h : ℕ)
    → IsPlaced total r.slots [] []
    → Begins job r (load_uncached w r job file_index h)
unfolding load_uncached
load_uncached-Begins w r job file_index h v =
    either job r r.demand.share_preload _ _ (λ _. load_shared-Begins w r job file_index h v)
      (λ _. load_private-Begins w r job file_index h)

load_found-Begins :
    {total : ℕ} (w : World) (r : Reactor) (job file_index h : ℕ)
    (p : StagingDataCache × Option CacheSlot)
    → IsPlaced total (record (r.slots) { cache = some p.0 }) [] []
    → Begins job r (load_found w r job file_index h p)
unfolding load_found
load_found-Begins w r job file_index h (c, some slot) v =
    λ _. schedule_cache_hit-progress r job file_index h c slot
load_found-Begins w r job file_index h (c, none) v =
    load_uncached-Begins w (record r { slots = record (r.slots) { cache = some c } }) job file_index
      h v

load_cached-Begins :
    {total : ℕ} (w : World) (r : Reactor) (job file_index h : ℕ) (o : Option StagingDataCache)
    → r.slots.cache ≡ o
    → IsPlaced total r.slots [] []
    → Begins job r (load_cached w r job file_index h o)
unfolding load_cached
load_cached-Begins w r job file_index h none e v = load_uncached-Begins w r job file_index h v
load_cached-Begins w r job file_index h (some c) e v =
    load_found-Begins w r job file_index h (get c h) (got-IsPlaced r.slots c h [] [] e v)

pub load_file-Begins :
    {total : ℕ} (w : World) (r : Reactor) (job file_index h : ℕ)
    → IsPlaced total r.slots [] []
    → Begins job r (load_file w r job file_index h)
unfolding load_file
load_file-Begins w r job file_index h v =
    load_cached-Begins w r job file_index h r.slots.cache refl v
