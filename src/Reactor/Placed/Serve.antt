-- ===== src/Reactor/Placed/Serve.antt =====
-- Slots of py_kvcache/reactor.py when a preload that requests share is read: every waiter is served.
use Prim.Native.String.{String}
use mathlib.Core.Option.{some-injective}
use py_kvcache.Prelude.{
  ℕ, ◌≡◌, refl, sym, ap, subst, ◌∙◌, Bool-cases, Option-cases, inl, inr, false, List, [], ◌∷◌, ◌++◌,
  Option, none, some, ok, err, Result, nat_eq, nat_beq, get_elem?, modify, length, ltb,
  if◌then◌else◌, arith,
}
use py_kvcache.Prelude.Int.{ℤ, pos, inc}
use py_kvcache.Prelude.Keys.{Distinct, add-Distinct}
use py_kvcache.Prelude.Dict.{keys, lookup, lookup_or, insert, delete, keys-insert, lookup-insert}
use py_kvcache.Staging.{StagingPool, release}
use py_kvcache.StagingCache.{put}
use py_kvcache.Reactor.State.{SharedSlot, PreloadInfo, LoadCopy, Slots, Reactor}
use py_kvcache.Reactor.Demand.{drop_reference, inflight_remove}
use py_kvcache.Reactor.Places.{
  release_slot, give_back, release_or_cache, release_unused, maybe_release_shared, uncached,
  set_heap, shared_uncache, withdraw, withdraw_hash, shared_decref,
}
use py_kvcache.Reactor.Jobs.{World, fail_all_preload_waiters}
use py_kvcache.Reactor.Complete.{
  or_uncount, queue_shared, req_of, serve_each, cached_now, keep_shared, add_shared, shared_read,
  is_whole, on_shared_read, on_private_read, on_read_preload,
}
use py_kvcache.Reactor.Placed.{IsPlaced, IsCached, is_live}
use py_kvcache.Reactor.Placed.Pool.{if-IsPlaced, release_slot-IsPlaced}
use py_kvcache.Reactor.Placed.Heap.{
  modify_at, modify_away, live_slots-append, get_elem?-append, get_elem?_last, readers-append,
}
use py_kvcache.Reactor.Placed.Shared.{unused, reheaped, same_readers, maybe_release_shared-IsPlaced}
use py_kvcache.Reactor.Placed.Reserve.{shared_decref-IsPlaced}
use py_kvcache.Reactor.Placed.Submit.{async_close-IsPlaced}
use py_kvcache.Reactor.Placed.Queue.{on_private_read-IsPlaced}
use py_kvcache.Reactor.Placed.SharedRead.{IsReading, queue_shared-IsReading}

-- Slots that come back leave the heap alone.
returned-heap :
    (s : Slots) (o : Result StagingPool)
    → (elim o as (λ _. Slots) [ err _ ↦ s | ok p ↦ record s { pool = p } ]).heap ≡ s.heap
returned-heap s (err _) = refl
returned-heap s (ok p) = refl

release_slot-heap : (s : Slots) (i : ℕ) → (release_slot s i).heap ≡ s.heap
unfolding release_slot
release_slot-heap s i = returned-heap s (release s.pool (pos i))

give_back-heap : (s : Slots) (back : Option ℕ) → (give_back s back).heap ≡ s.heap
unfolding give_back
give_back-heap s none = refl
give_back-heap s (some i) = release_slot-heap s i

release_or_cache-heap : (s : Slots) (h i : ℕ) → (release_or_cache s h i).heap ≡ s.heap
unfolding release_or_cache
release_or_cache-heap s h i = elim (Option-cases s.cache) [
  | inl e ↦ simp (e, release_or_cache) (release_slot-heap s i)
  | inr (c, e) ↦
      simp (e, release_or_cache)
        (give_back-heap (record s { cache = some (put c h i).0 }) (put c h i).1)
]

release_unused-heap : (s : Slots) (o : Option SharedSlot) → (release_unused s o).heap ≡ s.heap
unfolding release_unused
release_unused-heap s none = refl
release_unused-heap s (some x) = elim (Bool-cases (is_live x)) [
  | inl e ↦ rw e refl
  | inr e ↦ rw e (release_or_cache-heap s x.block_hash x.slot_index)
]

-- What leaves the shared cache is another entry than one that is not in it.
withdrawn-heap :
    {total : ℕ} (s : Slots) (handle : ℕ) (x : SharedSlot) (h : ℕ) (o : Option ℕ) (hand : List ℕ)
    (loads : List LoadCopy)
    → get_elem? s.heap handle ≡ some x
    → x.cached ≡ false
    → lookup h s.shared_cached ≡ o
    → IsPlaced total s hand loads
    → get_elem? (withdraw_hash s o).heap handle ≡ some x
unfolding withdraw_hash withdraw shared_uncache set_heap maybe_release_shared
withdrawn-heap s handle x h none hand loads at out found v = at
withdrawn-heap s handle x h (some other) hand loads at out found v =
    let (y, there, cached, named) = v.shared_ok h other found in
    let apart : nat_beq other handle ≡ false = elim (Bool-cases (nat_beq other handle)) [
      | inl e ↦
          let same : x ≡ y =
            some-injective x y
              (sym at ∙ ap (get_elem? s.heap) (sym ((nat_eq.beq_iff other handle).0 e)) ∙ there) in
          cc (ap (λ (z : SharedSlot). z.cached) same, out, cached)
      | inr e ↦ e
    ] in
    subst (λ o. get_elem? (withdraw s other o).heap handle ≡ some x) (sym there)
      (ap (λ heap. get_elem? heap handle)
          (release_unused-heap (shared_uncache s other y)
            (get_elem? (modify uncached other s.heap) other))
        ∙ modify_away uncached other handle s.heap apart
        ∙ at)

shared_decref-heap :
    {total : ℕ} (r : Reactor) (req_id : String) (h handle : ℕ) (x : SharedSlot) (hand : List ℕ)
    (loads : List LoadCopy)
    → get_elem? r.slots.heap handle ≡ some x
    → x.cached ≡ false
    → IsPlaced total r.slots hand loads
    → get_elem? (shared_decref r req_id h).slots.heap handle ≡ some x
unfolding shared_decref
shared_decref-heap r req_id h handle x hand loads at out v =
    elim (Bool-cases (drop_reference r.demand req_id h).1) [
      | inl e ↦ rw e (
          withdrawn-heap r.slots handle x h (lookup h r.slots.shared_cached) hand loads at out refl
            v)
      | inr e ↦ rw e at
    ]

pub shared_decref-IsReading :
    {total : ℕ} (r : Reactor) (req_id : String) (h' h handle : ℕ) (hand : List ℕ)
    (loads : List LoadCopy)
    → IsReading total r.slots h handle false hand loads
    → IsReading total (shared_decref r req_id h').slots h handle false hand loads
shared_decref-IsReading r req_id h' h handle hand loads (x, at, out, named, v) = (
  x,
  shared_decref-heap r req_id h' handle x (unused x ++ hand) loads at out v,
  out,
  named,
  shared_decref-IsPlaced r req_id h' (unused x ++ hand) loads v,
)

serve_each-IsReading :
    {total : ℕ} (h slot handle : ℕ) (waiters : List (ℕ × ℕ)) (r : Reactor) (hand : List ℕ)
    (loads : List LoadCopy)
    → IsReading total r.slots h handle false hand loads
    → IsReading total (serve_each h slot handle waiters r).slots h handle false hand loads
unfolding serve_each
serve_each-IsReading h slot handle [] r hand loads v = v
serve_each-IsReading h slot handle ((job, file_index) ∷ waiters) r hand loads v =
    let served = or_uncount job handle (queue_shared r job file_index slot handle) in
    serve_each-IsReading h slot handle waiters (shared_decref served (req_of r.jobs job) h) hand
      loads
      (shared_decref-IsReading served (req_of r.jobs job) h h handle hand loads
        (queue_shared-IsReading r job file_index slot h handle false hand loads v))

-- The entry at a handle is put in the shared cache, under a hash that may lead to another one.
added-IsCached :
    (s : Slots) (h handle : ℕ) (x : SharedSlot)
    → get_elem? s.heap handle ≡ some x
    → x.block_hash ≡ h
    → ((i k : ℕ) → lookup i s.shared_cached ≡ some k → IsCached s.heap k i)
    → (i k : ℕ) → lookup i (insert h handle s.shared_cached) ≡ some k
    → IsCached (modify cached_now handle s.heap) k i
added-IsCached s h handle x at named cached_ok i k e =
    let found = sym (lookup-insert h i handle s.shared_cached) ∙ e in
    elim (Bool-cases (nat_beq h i)) [
      | inl same ↦
          let there : handle ≡ k =
            some-injective handle k
              (sym (ap (λ b. if b then some handle else lookup i s.shared_cached) same) ∙ found) in
          subst (λ k. IsCached (modify cached_now handle s.heap) k i) there
            (
              cached_now x,
              modify_at cached_now handle x s.heap at,
              refl,
              named ∙ (nat_eq.beq_iff h i).0 same,
            )
      | inr other ↦
          let (y, there, cached, name) =
            cached_ok i k
              (sym (ap (λ b. if b then some handle else lookup i s.shared_cached) other) ∙ found) in
          elim (Bool-cases (nat_beq handle k)) [
            | inl q ↦
                let here : handle ≡ k = (nat_eq.beq_iff handle k).0 q in
                let same : x ≡ y =
                  some-injective x y (sym at ∙ ap (get_elem? s.heap) here ∙ there) in
                subst (λ k. IsCached (modify cached_now handle s.heap) k i) here
                  (
                    cached_now x,
                    modify_at cached_now handle x s.heap at,
                    refl,
                    ap (λ (z : SharedSlot). z.block_hash) same ∙ name,
                  )
            | inr q ↦ (y, modify_away cached_now handle k s.heap q ∙ there, cached, name)
          ]
    ]

keep_shared-IsPlaced :
    {total : ℕ} (r : Reactor) (h handle : ℕ) (hand : List ℕ) (loads : List LoadCopy)
    → IsReading total r.slots h handle false hand loads
    → IsPlaced total (keep_shared r h handle).slots hand loads
unfolding keep_shared set_heap
keep_shared-IsPlaced r h handle hand loads (x, at, out, named, v) =
    elim (Bool-cases (if r.stop then false else ltb 0 (lookup_or h 0 r.demand.refcount))) [
      | inl e ↦ simp e (
          reheaped r.slots cached_now handle x (insert h handle r.slots.shared_cached)
            (inc r.slots.cached_total) (unused x ++ hand) hand loads loads at (λ j. ground arith)
            (subst Distinct (sym (keys-insert h handle r.slots.shared_cached))
              (add-Distinct h (keys r.slots.shared_cached) v.shared_keys))
            (added-IsCached r.slots h handle x at named v.shared_ok)
            (λ k. same_readers cached_now handle x r.slots.heap k at refl ∙ v.copies_ok k)
            (λ h i. refl) v)
      | inr e ↦ simp e (maybe_release_shared-IsPlaced r.slots handle x hand loads at v)
    ]

add_shared-IsReading :
    {total : ℕ} (s : Slots) (info : PreloadInfo) (slot : ℕ) (hand : List ℕ) (loads : List LoadCopy)
    → IsPlaced total s (slot ∷ hand) loads
    → IsReading total (add_shared s info slot) info.block_hash (length s.heap) false hand loads
unfolding add_shared
add_shared-IsReading s info slot hand loads v =
    let x : SharedSlot = record {
      block_hash = info.block_hash;
      slot_index = slot;
      preload_info = info;
      copies_inflight = pos 0;
      cached = false;
    } in
    (
      x,
      get_elem?_last s.heap x,
      refl,
      refl,
      record {
        is_open = v.is_open;
        size = v.size;
        valid = v.valid;
        once = λ j. omega (arith, v.once j, live_slots-append j s.heap x);
        private_keys = v.private_keys;
        op_keys = v.op_keys;
        fresh = v.fresh;
        shared_keys = v.shared_keys;
        shared_ok = λ h k e.
            let (y, there, cached, named) = v.shared_ok h k e in
            (y, get_elem?-append s.heap x y k there, cached, named);
        copies_ok = λ k. readers-append s.heap x k refl ∙ v.copies_ok k;
        pins_ok = v.pins_ok;
      },
    )

shared_read-IsPlaced :
    {total : ℕ} (r : Reactor) (info : PreloadInfo) (slot : ℕ) (hand : List ℕ)
    (loads : List LoadCopy)
    → IsPlaced total r.slots (slot ∷ hand) loads
    → IsPlaced total (shared_read r info slot).slots hand loads
unfolding shared_read
shared_read-IsPlaced r info slot hand loads v =
    let h = info.block_hash in
    let handle = length r.slots.heap in
    let waiters = lookup_or h [] r.demand.waiters in
    let added = record r {
      slots = add_shared r.slots info slot;
      demand = record (r.demand) { waiters = delete h r.demand.waiters };
    } in
    keep_shared-IsPlaced (serve_each h slot handle waiters added) h handle hand loads (
      serve_each-IsReading h slot handle waiters added hand loads
        (add_shared-IsReading r.slots info slot hand loads v))

on_shared_read-IsPlaced :
    {total : ℕ} (r : Reactor) (info : PreloadInfo) (slot : ℕ) (result : ℤ) (hand : List ℕ)
    (loads : List LoadCopy)
    → IsPlaced total r.slots (slot ∷ hand) loads
    → IsPlaced total (on_shared_read r info slot result).slots hand loads
unfolding on_shared_read fail_all_preload_waiters
on_shared_read-IsPlaced r info slot result hand loads v =
    let r' = record r { demand = inflight_remove r.demand info.block_hash } in
    elim (Bool-cases (is_whole r result)) [
      | inl e ↦ rw e (shared_read-IsPlaced r' info slot hand loads v)
      | inr e ↦ rw e (release_slot-IsPlaced r.slots slot hand loads v)
    ]

pub on_read_preload-IsPlaced :
    {total : ℕ} (w : World) (r : Reactor) (info : PreloadInfo) (slot fd : ℕ) (result : ℤ)
    (hand : List ℕ) (loads : List LoadCopy)
    → IsPlaced total r.slots (slot ∷ hand) loads
    → IsPlaced total (on_read_preload w r info slot fd result).slots hand loads
unfolding on_read_preload
on_read_preload-IsPlaced w r info slot fd result hand loads v =
    async_close-IsPlaced w _ fd hand loads (
      if-IsPlaced r.demand.share_preload (on_shared_read r info slot result)
        (on_private_read r info slot result) hand loads
        (on_shared_read-IsPlaced r info slot result hand loads v)
        (on_private_read-IsPlaced r info slot result hand loads v))
