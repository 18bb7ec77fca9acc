-- ===== src/Reactor/Placed/Reserve.antt =====
-- How py_kvcache/reactor.py makes room for a slot: from the pool, the cache or the preloads.
use Prim.Native.String.{String}
use mathlib.Core.Option.{some-injective}
use py_kvcache.Prelude.{
  ℕ, ◌≡◌, refl, sym, ap, ◌∙◌, Bool-cases, inl, inr, List, Option, none, some, nat_eq,
}
use py_kvcache.Prelude.Dict.{lookup}
use py_kvcache.Reactor.State.{SharedSlot, LoadCopy, Slots, Reactor}
use py_kvcache.Reactor.Demand.{drop_reference}
use py_kvcache.Reactor.Places.{
  first_unused, evict_shared, evict_one_shared_slot, evict_one_preload_slot, shared_uncache,
  reserve_evicting, foreground, reserve_foreground_slot, reserve_preload_slot, shared_decref,
}
use py_kvcache.Reactor.Placed.{IsPlaced}
use py_kvcache.Reactor.Placed.Pool.{
  with_slot, reserve-IsPlaced, release_slot-IsPlaced, reserve_preload_slot-IsPlaced,
}
use py_kvcache.Reactor.Placed.Kept.{evict_first-IsPlaced}
use py_kvcache.Reactor.Placed.Shared.{
  shared_uncache-IsPlaced, first_unused_lem, withdraw_hash-IsPlaced,
}

pub shared_decref-IsPlaced :
    {total : ℕ} (r : Reactor) (req_id : String) (h : ℕ) (hand : List ℕ) (loads : List LoadCopy)
    → IsPlaced total r.slots hand loads
    → IsPlaced total (shared_decref r req_id h).slots hand loads
unfolding shared_decref
shared_decref-IsPlaced r req_id h hand loads v =
    elim (Bool-cases (drop_reference r.demand req_id h).1) [
      | inl e ↦ rw e (withdraw_hash-IsPlaced r.slots h hand loads v)
      | inr e ↦ rw e v
    ]

evict_shared-IsPlaced :
    {total : ℕ} (r : Reactor) (o : Option (ℕ × SharedSlot)) (hand : List ℕ) (loads : List LoadCopy)
    → first_unused r.slots.heap r.slots.shared_cached ≡ o
    → IsPlaced total r.slots hand loads
    → IsPlaced total (evict_shared r o).0.slots hand loads
unfolding evict_shared
evict_shared-IsPlaced r none hand loads e v = v
evict_shared-IsPlaced r (some (handle, x)) hand loads e v =
    let (h, found, at, unread) =
      first_unused_lem r.slots.heap r.slots.shared_cached handle x v.shared_keys e in
    let (y, there, _, named) = v.shared_ok h handle found in
    let same : y ≡ x = some-injective y x (sym there ∙ at) in
    let freed =
      shared_uncache-IsPlaced r.slots handle x hand loads at
        (ap (λ k. lookup k r.slots.shared_cached)
            (sym (ap (λ (z : SharedSlot). z.block_hash) same) ∙ named)
          ∙ found)
        v in
    release_slot-IsPlaced (shared_uncache r.slots handle x) x.slot_index hand loads
      (rw unread at freed)

pub evict_one_preload_slot-IsPlaced :
    {total : ℕ} (r : Reactor) (hand : List ℕ) (loads : List LoadCopy)
    → IsPlaced total r.slots hand loads
    → IsPlaced total (evict_one_preload_slot r).0.slots hand loads
unfolding evict_one_preload_slot evict_one_shared_slot
evict_one_preload_slot-IsPlaced r hand loads v = elim (Bool-cases r.demand.share_preload) [
  | inl e ↦
      simp e (
        evict_shared-IsPlaced r (first_unused r.slots.heap r.slots.shared_cached) hand loads refl v)
  | inr e ↦ simp e (evict_first-IsPlaced r.slots r.slots.preload_slots hand loads v)
]

reserve_evicting-IsPlaced :
    {total : ℕ} (r : Reactor) (hand : List ℕ) (loads : List LoadCopy)
    → IsPlaced total r.slots hand loads
    → IsPlaced total (reserve_evicting r).0.slots (with_slot (reserve_evicting r).1 hand) loads
unfolding reserve_evicting
reserve_evicting-IsPlaced r hand loads v =
    let made = evict_one_preload_slot-IsPlaced r hand loads v in
    elim (Bool-cases (evict_one_preload_slot r).1) [
      | inl e ↦ rw e (reserve-IsPlaced (evict_one_preload_slot r).0.slots hand loads made)
      | inr e ↦ rw e made
    ]

foreground-IsPlaced :
    {total : ℕ} (r : Reactor) (p : Slots × Option ℕ) (hand : List ℕ) (loads : List LoadCopy)
    → IsPlaced total p.0 (with_slot p.1 hand) loads
    → IsPlaced total (foreground r p).0.slots (with_slot (foreground r p).1 hand) loads
unfolding foreground
foreground-IsPlaced r (s, some i) hand loads v = v
foreground-IsPlaced r (s, none) hand loads v =
    reserve_evicting-IsPlaced (record r { slots = s }) hand loads v

pub reserve_foreground_slot-IsPlaced :
    {total : ℕ} (r : Reactor) (hand : List ℕ) (loads : List LoadCopy)
    → IsPlaced total r.slots hand loads
    → IsPlaced total
        (reserve_foreground_slot r).0.slots
        (with_slot (reserve_foreground_slot r).1 hand)
        loads
unfolding reserve_foreground_slot
reserve_foreground_slot-IsPlaced r hand loads v =
    foreground-IsPlaced r (reserve_preload_slot r.slots) hand loads
      (reserve_preload_slot-IsPlaced r.slots hand loads v)
