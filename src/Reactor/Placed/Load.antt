-- ===== src/Reactor/Placed/Load.antt =====
-- Slots of py_kvcache/reactor.py when a file of a load is begun.
use py_kvcache.Prelude.{
  ℕ, ◌≡◌, refl, ap, sym, ◌∙◌, subst, Option-cases, inl, inr, Bool, true, false, List, ◌∷◌, Option,
  none, some, nat_eq, get_elem?, modify, ltb, not, ◌&&◌, if◌then◌else◌, arith,
}
use py_kvcache.Prelude.Count.{count}
use py_kvcache.Prelude.Dict.{lookup, lookup_or}
use py_kvcache.StagingCache.{StagingDataCache, CacheSlot, get, pin}
use py_kvcache.StagingCache.Residency.{IsValid, get-IsValid, pin-IsValid}
use py_kvcache.StagingCache.Slots.{indices, get-slots, indices-pin}
use py_kvcache.StagingCache.Pins.{pins_in, pins-pin}
use py_kvcache.Prelude.Int.{pos}
use py_kvcache.Reactor.State.{
  mapping_failed, Keeper, own, cached, SharedSlot, PreloadInfo, LoadCopy, Slots, Reactor,
}
use py_kvcache.Reactor.Demand.{cancel_one_pending, waiter_room, has_inflight}
use py_kvcache.Reactor.Places.{preload_cache_pop, unpin_in, has_cached_preload}
use py_kvcache.Reactor.Jobs.{
  World, Source, from_cache, from_preload, count_source, queued, load_mapping, chunks_of,
  queue_load_copy, submit_open_read,
}
use py_kvcache.Reactor.Complete.{or_uncount, queue_shared, req_of}
use py_kvcache.Reactor.Schedule.{
  begun, or_unpin, schedule_cache_hit, or_give_back, preload_done, schedule_preload_done,
  schedule_preload_inflight, or_unclaim, unclaim, claimed, shared_claim_from_cache, promote_pending,
  can_open, load_shared, cancelled, load_private, load_uncached, load_found, load_cached, load_file,
  info_for_job,
}
use py_kvcache.Reactor.Placed.{CacheIsValid, IsPlaced, is_live, cache_pins}
use py_kvcache.Reactor.Placed.Pool.{recached, repinned, with_slot}
use py_kvcache.Reactor.Placed.Kept.{popped, preload_cache_pop-IsPlaced}
use py_kvcache.Reactor.Placed.Shared.{maybe_release_shared-IsPlaced}
use py_kvcache.Reactor.Placed.Reserve.{shared_decref-IsPlaced}
use py_kvcache.Reactor.Placed.Copies.{unpinned}
use py_kvcache.Reactor.Placed.Submit.{submit_open_read-IsPlaced, submit_open_preload-IsPlaced}
use py_kvcache.Reactor.Placed.Queue.{
  copy_from, queue_own, queue_load_copy-IsPlaced, give_up-IsPlaced,
}
use py_kvcache.Reactor.Placed.SharedRead.{IsReading, queue_shared-IsReading}

queued-cache :
    (r : Reactor) (job file_index slot : ℕ) (keeper : Keeper) (o : Option ℕ)
    → (queued r job file_index slot keeper o).0.slots.cache ≡ r.slots.cache
unfolding queued
queued-cache r job file_index slot keeper none = refl
queued-cache r job file_index slot keeper (some _) = refl

queue_load_copy-cache :
    (r : Reactor) (job file_index slot : ℕ) (keeper : Keeper) (source : Source)
    → (queue_load_copy r job file_index slot keeper source).0.slots.cache ≡ r.slots.cache
unfolding queue_load_copy
queue_load_copy-cache r job file_index slot keeper source =
    queued-cache (record r { jobs = modify (count_source source) job r.jobs }) job file_index slot
      keeper (load_mapping r.storage_block_size_factor slot (chunks_of r.jobs job) file_index)

or_unpin-IsPlaced :
    {total : ℕ} (job h slot : ℕ) (c : StagingDataCache) (q : Reactor × Bool) (hand : List ℕ)
    (loads : List LoadCopy)
    → q.0.slots.cache ≡ some c
    → IsPlaced total q.0.slots hand (if q.1 then loads else copy_from slot (cached h) ∷ loads)
    → IsPlaced total (or_unpin job h c q).slots hand loads
unfolding or_unpin unpin_in
or_unpin-IsPlaced job h slot c (r, true) hand loads e v = v
or_unpin-IsPlaced job h slot c (r, false) hand loads e v =
    unpinned r.slots (copy_from slot (cached h)) h (some c) hand loads refl e v

-- The copy of a cache hit, with its pin.
pinned-IsPlaced :
    {total : ℕ} (s : Slots) (h : ℕ) (c c' : StagingDataCache) (slot : CacheSlot) (hand : List ℕ)
    (loads : List LoadCopy)
    → s.cache ≡ some c
    → IsValid c'
    → c'.slots ≡ c.slots
    → lookup h c.slots ≡ some slot
    → IsPlaced total s hand loads
    → IsPlaced total
        (record s { cache = some (pin c' h) })
        hand
        (copy_from slot.slot_index (cached h) ∷ loads)
pinned-IsPlaced s h c c' slot hand loads e valid same there v =
    repinned s c (pin c' h) hand loads (copy_from slot.slot_index (cached h) ∷ loads) e
      (pin-IsValid c' h valid) (indices-pin c' h ∙ ap indices same) (λ j. refl) (λ k. omega arith)
      (λ g i.
        pins-pin c' h g i _ slot (ap (lookup h) same ∙ there)
          (ap (λ d. pins_in i (lookup g d)) same ∙ ap (cache_pins g i) (sym e) ∙ v.pins_ok g i)
        ∙ ap pos (omega arith))
      v

schedule_cache_hit-IsPlaced :
    {total : ℕ} (r : Reactor) (job file_index h : ℕ) (c c' : StagingDataCache) (slot : CacheSlot)
    (hand : List ℕ) (loads : List LoadCopy)
    → r.slots.cache ≡ some c
    → IsValid c'
    → c'.slots ≡ c.slots
    → lookup h c.slots ≡ some slot
    → IsPlaced total r.slots hand loads
    → IsPlaced total (schedule_cache_hit r job file_index h c' slot).slots hand loads
unfolding schedule_cache_hit begun
schedule_cache_hit-IsPlaced r job file_index h c c' slot hand loads e valid same there v =
    let with_pin = begun (record r { slots = record (r.slots) { cache = some (pin c' h) } }) job in
    or_unpin-IsPlaced job h slot.slot_index (pin c' h)
      (queue_load_copy with_pin job file_index slot.slot_index (cached h) from_cache) hand loads
      (queue_load_copy-cache with_pin job file_index slot.slot_index (cached h) from_cache)
      (queue_load_copy-IsPlaced with_pin job file_index slot.slot_index (cached h) from_cache hand
        loads (pinned-IsPlaced r.slots h c c' slot hand loads e valid same there v))

or_give_back-IsPlaced :
    {total : ℕ} (job slot : ℕ) (q : Reactor × Bool) (hand : List ℕ) (loads : List LoadCopy)
    → IsPlaced total q.0.slots (if q.1 then hand else slot ∷ hand) loads
    → IsPlaced total (or_give_back job slot q).slots hand loads
unfolding or_give_back
or_give_back-IsPlaced job slot (r, true) hand loads v = v
or_give_back-IsPlaced job slot (r, false) hand loads v =
    give_up-IsPlaced mapping_failed r job slot hand loads v

preload_done-IsPlaced :
    {total : ℕ} (r : Reactor) (job file_index : ℕ) (p : Slots × Option (ℕ × PreloadInfo))
    (hand : List ℕ) (loads : List LoadCopy)
    → IsPlaced total r.slots hand loads
    → IsPlaced total p.0 (with_slot (popped p.1) hand) loads
    → IsPlaced total (preload_done r job file_index p).slots hand loads
unfolding preload_done begun
preload_done-IsPlaced r job file_index (s, none) hand loads before v = before
preload_done-IsPlaced r job file_index (s, some (slot, _)) hand loads before v =
    let r' = begun (record r { slots = s }) job in
    or_give_back-IsPlaced job slot (queue_load_copy r' job file_index slot own from_preload) hand
      loads (queue_own r' job file_index slot from_preload hand loads v)

schedule_preload_done-IsPlaced :
    {total : ℕ} (r : Reactor) (job file_index h : ℕ) (hand : List ℕ) (loads : List LoadCopy)
    → IsPlaced total r.slots hand loads
    → IsPlaced total (schedule_preload_done r job file_index h).slots hand loads
unfolding schedule_preload_done
schedule_preload_done-IsPlaced r job file_index h hand loads v =
    preload_done-IsPlaced r job file_index (preload_cache_pop r.slots h) hand loads v
      (preload_cache_pop-IsPlaced r.slots h hand loads v)

or_unclaim-IsPlaced :
    {total : ℕ} (job h handle : ℕ) (q : Reactor × Bool) (hand : List ℕ) (loads : List LoadCopy)
    → IsReading total (or_uncount job handle q).slots h handle true hand loads
    → IsPlaced total (or_unclaim job handle q).slots hand loads
unfolding or_unclaim unclaim or_uncount
or_unclaim-IsPlaced job h handle (r, true) hand loads (x, at, is_in, named, v) =
    let held : is_live x ≡ true = ground (arith, is_in) in rw held at v
or_unclaim-IsPlaced job h handle (r, false) hand loads (x, at, is_in, named, v) =
    maybe_release_shared-IsPlaced (or_uncount job handle (r, false)).slots handle x hand loads at v

claimed-IsPlaced :
    {total : ℕ} (r : Reactor) (job file_index h handle : ℕ) (o : Option SharedSlot) (hand : List ℕ)
    (loads : List LoadCopy)
    → get_elem? r.slots.heap handle ≡ o
    → lookup h r.slots.shared_cached ≡ some handle
    → IsPlaced total r.slots hand loads
    → IsPlaced total (claimed r job file_index h handle o).slots hand loads
unfolding claimed begun
claimed-IsPlaced r job file_index h handle none hand loads at found v = v
claimed-IsPlaced r job file_index h handle (some x) hand loads at found v =
    let (y, there, is_in, named) = v.shared_ok h handle found in
    let held : is_live y ≡ true = ground (arith, is_in) in
    let q = queue_shared (begun r job) job file_index x.slot_index handle in
    shared_decref-IsPlaced (or_unclaim job handle q) (req_of r.jobs job) h hand loads (
      or_unclaim-IsPlaced job h handle q hand loads (
        queue_shared-IsReading (begun r job) job file_index x.slot_index h handle true hand loads
          (y, there, is_in, named, rw held v)))

pub shared_claim_from_cache-IsPlaced :
    {total : ℕ} (r : Reactor) (job file_index h handle : ℕ) (hand : List ℕ) (loads : List LoadCopy)
    → lookup h r.slots.shared_cached ≡ some handle
    → IsPlaced total r.slots hand loads
    → IsPlaced total (shared_claim_from_cache r job file_index h handle).slots hand loads
unfolding shared_claim_from_cache
shared_claim_from_cache-IsPlaced r job file_index h handle hand loads found v =
    claimed-IsPlaced r job file_index h handle (get_elem? r.slots.heap handle) hand loads refl found
      v

promote_pending-IsPlaced :
    {total : ℕ} (w : World) (r : Reactor) (job file_index h : ℕ) (hand : List ℕ)
    (loads : List LoadCopy)
    → IsPlaced total r.slots hand loads
    → IsPlaced total (promote_pending w r job file_index h).slots hand loads
unfolding promote_pending schedule_preload_inflight begun
promote_pending-IsPlaced w r job file_index h hand loads v =
    submit_open_preload-IsPlaced w (record r { demand = (cancel_one_pending r.demand h).0 })
      (info_for_job r.jobs job file_index) hand loads v

-- A turn of a loop, whether it goes on or not.
pub turn-IsPlaced :
    {total : ℕ} (b : Bool) (p q : Reactor × Bool) (hand : List ℕ) (loads : List LoadCopy)
    → IsPlaced total p.0.slots hand loads
    → IsPlaced total q.0.slots hand loads
    → IsPlaced total (if b then p else q).0.slots hand loads
turn-IsPlaced true p q hand loads v w = v
turn-IsPlaced false p q hand loads v w = w

load_unshared :
    {total : ℕ} (w : World) (r : Reactor) (job file_index h : ℕ) (hand : List ℕ)
    (loads : List LoadCopy)
    → lookup h r.slots.shared_cached ≡ none
    → IsPlaced total r.slots hand loads
    → IsPlaced total (load_shared w r job file_index h).0.slots hand loads
unfolding load_shared schedule_preload_inflight begun
load_unshared w r job file_index h hand loads e v =
    simp (e, load_shared)
      (turn-IsPlaced (has_inflight r.demand h) _ _ hand loads v (
        turn-IsPlaced (not (can_open r)) _ _ hand loads v (
          turn-IsPlaced (ltb 0 (lookup_or h 0 r.demand.pending_count)) _ _ hand loads
            (promote_pending-IsPlaced w r job file_index h hand loads v)
            (shared_decref-IsPlaced (submit_open_read w r job file_index) (req_of r.jobs job) h hand
              loads (submit_open_read-IsPlaced w r job file_index hand loads v)))))

load_shared-IsPlaced :
    {total : ℕ} (w : World) (r : Reactor) (job file_index h : ℕ) (hand : List ℕ)
    (loads : List LoadCopy)
    → IsPlaced total r.slots hand loads
    → IsPlaced total (load_shared w r job file_index h).0.slots hand loads
unfolding load_shared
load_shared-IsPlaced w r job file_index h hand loads v =
    elim (Option-cases (lookup h r.slots.shared_cached)) [
      | inl e ↦ load_unshared w r job file_index h hand loads e v
      | inr (handle, e) ↦
          simp (e, load_shared)
            (shared_claim_from_cache-IsPlaced r job file_index h handle hand loads e v)
    ]

load_private-IsPlaced :
    {total : ℕ} (w : World) (r : Reactor) (job file_index h : ℕ) (hand : List ℕ)
    (loads : List LoadCopy)
    → IsPlaced total r.slots hand loads
    → IsPlaced total (load_private w r job file_index h).0.slots hand loads
unfolding load_private schedule_preload_inflight begun cancelled
load_private-IsPlaced w r job file_index h hand loads v =
    turn-IsPlaced (has_cached_preload r.slots h) _ _ hand loads
      (schedule_preload_done-IsPlaced r job file_index h hand loads v)
      (turn-IsPlaced (has_inflight r.demand h && waiter_room r.demand h) _ _ hand loads v (
        turn-IsPlaced (not (can_open r)) _ _ hand loads v
          (submit_open_read-IsPlaced w r job file_index hand loads v)))

load_uncached-IsPlaced :
    {total : ℕ} (w : World) (r : Reactor) (job file_index h : ℕ) (hand : List ℕ)
    (loads : List LoadCopy)
    → IsPlaced total r.slots hand loads
    → IsPlaced total (load_uncached w r job file_index h).0.slots hand loads
unfolding load_uncached
load_uncached-IsPlaced w r job file_index h hand loads v =
    turn-IsPlaced r.demand.share_preload _ _ hand loads
      (load_shared-IsPlaced w r job file_index h hand loads v)
      (load_private-IsPlaced w r job file_index h hand loads v)

-- The cache is left by `get` with the slots that it has.
pub got-IsPlaced :
    {total : ℕ} (s : Slots) (c : StagingDataCache) (h : ℕ) (hand : List ℕ) (loads : List LoadCopy)
    → s.cache ≡ some c
    → IsPlaced total s hand loads
    → IsPlaced total (record s { cache = some (get c h).0 }) hand loads
got-IsPlaced s c h hand loads e v =
    recached s c (get c h).0 hand hand loads e (get-IsValid c h (subst CacheIsValid e v.valid))
      (λ j. omega (arith, ap (λ d. count j (indices d)) (get-slots c h)))
      (λ g i n p. ap (λ d. pins_in i (lookup g d)) (get-slots c h) ∙ p) v

load_found-IsPlaced :
    {total : ℕ} (w : World) (r : Reactor) (job file_index h : ℕ) (c : StagingDataCache)
    (p : StagingDataCache × Option CacheSlot) (hand : List ℕ) (loads : List LoadCopy)
    → r.slots.cache ≡ some c
    → IsValid p.0
    → p.0.slots ≡ c.slots
    → lookup h c.slots ≡ p.1
    → IsPlaced total r.slots hand loads
    → IsPlaced total (load_found w r job file_index h p).0.slots hand loads
unfolding load_found
load_found-IsPlaced w r job file_index h c (c', some slot) hand loads e valid same there v =
    schedule_cache_hit-IsPlaced r job file_index h c c' slot hand loads e valid same there v
load_found-IsPlaced w r job file_index h c (c', none) hand loads e valid same there v =
    load_uncached-IsPlaced w (record r { slots = record (r.slots) { cache = some c' } }) job
      file_index h hand loads
      (recached r.slots c c' hand hand loads e valid
        (λ j. omega (arith, ap (λ d. count j (indices d)) same))
        (λ g i n p. ap (λ d. pins_in i (lookup g d)) same ∙ p) v)

load_cached-IsPlaced :
    {total : ℕ} (w : World) (r : Reactor) (job file_index h : ℕ) (o : Option StagingDataCache)
    (hand : List ℕ) (loads : List LoadCopy)
    → r.slots.cache ≡ o
    → IsPlaced total r.slots hand loads
    → IsPlaced total (load_cached w r job file_index h o).0.slots hand loads
unfolding load_cached get
load_cached-IsPlaced w r job file_index h none hand loads e v =
    load_uncached-IsPlaced w r job file_index h hand loads v
load_cached-IsPlaced w r job file_index h (some c) hand loads e v =
    load_found-IsPlaced w r job file_index h c (get c h) hand loads e
      (get-IsValid c h (subst CacheIsValid e v.valid)) (get-slots c h) refl v

pub load_file-IsPlaced :
    {total : ℕ} (w : World) (r : Reactor) (job file_index h : ℕ) (hand : List ℕ)
    (loads : List LoadCopy)
    → IsPlaced total r.slots hand loads
    → IsPlaced total (load_file w r job file_index h).0.slots hand loads
unfolding load_file
load_file-IsPlaced w r job file_index h hand loads v =
    load_cached-IsPlaced w r job file_index h r.slots.cache hand loads refl v
