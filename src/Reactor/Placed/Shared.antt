-- ===== src/Reactor/Placed/Shared.antt =====
-- Slots of py_kvcache/reactor.py that requests share: a slot leaves the shared cache, and is released
-- when no copy reads it.
use mathlib.Core.Option.{some-injective}
use py_kvcache.Prelude.{
  ℕ, ◌+◌, ◌≡◌, refl, sym, ap, subst, ◌∙◌, Bool-cases, Option-cases, inl, inr, true, false, List, [],
  ◌∷◌, ◌++◌, Option, none, some, get_elem?, modify, nat_beq, nat_eq, if◌then◌else◌, arith,
}
use py_kvcache.Prelude.Int.{ℤ, pos, is_positive}
use py_kvcache.Prelude.Count.{count}
use py_kvcache.Prelude.Keys.{Distinct, remove-Distinct, ==_refl}
use py_kvcache.Prelude.Dict.{
  Dict, keys, lookup, delete, lookup-delete, keys-delete, has, lookup-some-has,
}
use py_kvcache.Reactor.State.{SharedSlot, LoadCopy, Slots}
use py_kvcache.Reactor.Places.{
  set_heap, uncached, is_handle, shared_uncache, release_unused, maybe_release_shared, withdraw,
  withdraw_hash, first_unused,
}
use py_kvcache.Reactor.Placed.{
  IsPlaced, IsCached, is_live, copies_of, readers, reads, pending_reads, pinned, copied_slots,
}
use py_kvcache.Reactor.Placed.Pool.{release_or_cache-IsPlaced}
use py_kvcache.Reactor.Placed.Heap.{live, live_slots-modify, modify_at, modify_away}

-- The slot of an entry that nothing holds.
abbrev pub unused : SharedSlot → List ℕ
unused x = if is_live x then [] else x.slot_index ∷ []

-- One entry of the heap changes, and the shared cache with it.
pub reheaped :
    {total : ℕ} (s : Slots) (f : SharedSlot → SharedSlot) (handle : ℕ) (x : SharedSlot)
    (d : Dict ℕ ℕ) (t : ℤ) (hand hand' : List ℕ) (loads loads' : List LoadCopy)
    → get_elem? s.heap handle ≡ some x
    → ((j : ℕ)
        → live j (f x) + count j hand' + count j (copied_slots loads')
          ≡ live j x + count j hand + count j (copied_slots loads))
    → Distinct (keys d)
    → ((h k : ℕ) → lookup h d ≡ some k → IsCached (modify f handle s.heap) k h)
    → ((k : ℕ)
        → readers (modify f handle s.heap) k
          ≡ pos (reads k s.copy_ready + pending_reads k s.pending_copies + reads k loads'))
    → ((h i : ℕ) → pinned h i loads' ≡ pinned h i loads)
    → IsPlaced total s hand loads
    → IsPlaced total
        (record s { heap = modify f handle s.heap; shared_cached = d; cached_total = t })
        hand'
        loads'
reheaped s f handle x d t hand hand' loads loads' at moved once cached read pin v = record {
  is_open = v.is_open;
  size = v.size;
  valid = v.valid;
  once = λ j. omega (arith, v.once j, moved j, live_slots-modify j f handle x s.heap at);
  private_keys = v.private_keys;
  op_keys = v.op_keys;
  fresh = v.fresh;
  shared_keys = once;
  shared_ok = cached;
  copies_ok = read;
  pins_ok = λ h i. v.pins_ok h i ∙ ap pos (omega (arith, pin h i));
}

pub release_unused-IsPlaced :
    {total : ℕ} (s : Slots) (x : SharedSlot) (hand : List ℕ) (loads : List LoadCopy)
    → IsPlaced total s (unused x ++ hand) loads
    → IsPlaced total (release_unused s (some x)) hand loads
unfolding release_unused
release_unused-IsPlaced s x hand loads v = elim (Bool-cases (is_live x)) [
  | inl e ↦ rw e (rw e at v)
  | inr e ↦ rw e (release_or_cache-IsPlaced s x.block_hash x.slot_index hand loads (rw e at v))
]

-- A change that keeps the count of an entry keeps every count.
pub same_readers :
    (f : SharedSlot → SharedSlot) (handle : ℕ) (x : SharedSlot) (heap : List SharedSlot) (k : ℕ)
    → get_elem? heap handle ≡ some x
    → (f x).copies_inflight ≡ x.copies_inflight
    → readers (modify f handle heap) k ≡ readers heap k
same_readers f handle x heap k at same = elim (Bool-cases (nat_beq handle k)) [
  | inl e ↦
      let here : handle ≡ k = (nat_eq.beq_iff handle k).0 e in
      subst (λ i. readers (modify f handle heap) i ≡ readers heap i) here
        (ap copies_of (modify_at f handle x heap at) ∙ same ∙ sym (ap copies_of at))
  | inr e ↦ ap copies_of (modify_away f handle k heap e)
]

away :
    (handle k h : ℕ) (x y : SharedSlot) (heap : List SharedSlot)
    → get_elem? heap handle ≡ some x
    → get_elem? heap k ≡ some y
    → y.block_hash ≡ h
    → nat_beq x.block_hash h ≡ false
    → nat_beq handle k ≡ false
away handle k h x y heap at there named other = elim (Bool-cases (nat_beq handle k)) [
  | inl e ↦
      let here : handle ≡ k = (nat_eq.beq_iff handle k).0 e in
      let same : x ≡ y =
        some-injective x y (sym at ∙ subst (λ i. get_elem? heap i ≡ some y) (sym here) there) in
      ground (arith, ap (λ (z : SharedSlot). z.block_hash) same, named)
  | inr e ↦ e
]

others-IsCached :
    (f : SharedSlot → SharedSlot) (handle : ℕ) (x : SharedSlot) (heap : List SharedSlot)
    (d : Dict ℕ ℕ)
    → get_elem? heap handle ≡ some x
    → ((h k : ℕ) → lookup h d ≡ some k → IsCached heap k h)
    → (h k : ℕ) → lookup h (delete x.block_hash d) ≡ some k
    → IsCached (modify f handle heap) k h
others-IsCached f handle x heap d at ok h k e =
    let found = sym (lookup-delete x.block_hash h d) ∙ e in
    elim (Bool-cases (nat_beq x.block_hash h)) [
      | inl same ↦ cc (found)
      | inr other ↦
          let (y, there, cached, named) =
            ok h k (sym (ap (λ b. if b then none else lookup h d) other) ∙ found) in
          (
            y,
            modify_away f handle k heap (away handle k h x y heap at there named other) ∙ there,
            cached,
            named,
          )
    ]

-- The entry that a hash leads to leaves the shared cache.
pub shared_uncache-IsPlaced :
    {total : ℕ} (s : Slots) (handle : ℕ) (x : SharedSlot) (hand : List ℕ) (loads : List LoadCopy)
    → get_elem? s.heap handle ≡ some x
    → lookup x.block_hash s.shared_cached ≡ some handle
    → IsPlaced total s hand loads
    → IsPlaced total (shared_uncache s handle x) (unused (uncached x) ++ hand) loads
unfolding shared_uncache set_heap is_handle
shared_uncache-IsPlaced s handle x hand loads at found v =
    let here : is_handle handle (lookup x.block_hash s.shared_cached) ≡ true =
      ap (is_handle handle) found ∙ ==_refl handle in
    let (y, there, cached, named) = v.shared_ok x.block_hash handle found in
    let same : y ≡ x = some-injective y x (sym there ∙ at) in
    rw here (
      reheaped s uncached handle x (delete x.block_hash s.shared_cached) _ hand
        (unused (uncached x) ++ hand) loads loads at
        (λ j. ground (arith, sym (ap (λ (z : SharedSlot). z.cached) same) ∙ cached))
        (subst Distinct (sym (keys-delete x.block_hash s.shared_cached))
          (remove-Distinct x.block_hash (keys s.shared_cached) v.shared_keys))
        (λ h k e. others-IsCached uncached handle x s.heap s.shared_cached at v.shared_ok h k e)
        (λ k. same_readers uncached handle x s.heap k at refl ∙ v.copies_ok k) (λ h i. refl) v)

pub maybe_release_shared-IsPlaced :
    {total : ℕ} (s : Slots) (handle : ℕ) (x : SharedSlot) (hand : List ℕ) (loads : List LoadCopy)
    → get_elem? s.heap handle ≡ some x
    → IsPlaced total s (unused x ++ hand) loads
    → IsPlaced total (maybe_release_shared s handle) hand loads
unfolding maybe_release_shared
maybe_release_shared-IsPlaced {total} s handle x hand loads at v =
    subst (λ o. IsPlaced total (release_unused s o) hand loads) (sym at)
      (release_unused-IsPlaced s x hand loads v)

withdraw-IsPlaced :
    {total : ℕ} (s : Slots) (handle : ℕ) (x : SharedSlot) (hand : List ℕ) (loads : List LoadCopy)
    → get_elem? s.heap handle ≡ some x
    → lookup x.block_hash s.shared_cached ≡ some handle
    → IsPlaced total s hand loads
    → IsPlaced total (withdraw s handle (some x)) hand loads
unfolding withdraw shared_uncache set_heap
withdraw-IsPlaced s handle x hand loads at found v =
    maybe_release_shared-IsPlaced (shared_uncache s handle x) handle (uncached x) hand loads
      (modify_at uncached handle x s.heap at)
      (shared_uncache-IsPlaced s handle x hand loads at found v)

withdrawn-IsPlaced :
    {total : ℕ} (s : Slots) (h : ℕ) (o : Option ℕ) (hand : List ℕ) (loads : List LoadCopy)
    → lookup h s.shared_cached ≡ o
    → IsPlaced total s hand loads
    → IsPlaced total (withdraw_hash s o) hand loads
unfolding withdraw_hash
withdrawn-IsPlaced s h none hand loads found v = v
withdrawn-IsPlaced {total} s h (some handle) hand loads found v =
    let (x, at, _, named) = v.shared_ok h handle found in
    subst (λ o. IsPlaced total (withdraw s handle o) hand loads) (sym at)
      (withdraw-IsPlaced s handle x hand loads at (ap (λ k. lookup k s.shared_cached) named ∙ found)
        v)

pub withdraw_hash-IsPlaced :
    {total : ℕ} (s : Slots) (h : ℕ) (hand : List ℕ) (loads : List LoadCopy)
    → IsPlaced total s hand loads
    → IsPlaced total (withdraw_hash s (lookup h s.shared_cached)) hand loads
withdraw_hash-IsPlaced s h hand loads v =
    withdrawn-IsPlaced s h (lookup h s.shared_cached) hand loads refl v

lookup-behind :
    (h k handle other : ℕ) (d : Dict ℕ ℕ)
    → has k d ≡ false
    → lookup h d ≡ some handle
    → lookup h ((k, other) ∷ d) ≡ some handle
lookup-behind h k handle other d absent found =
    ground (arith, lookup-some-has h handle d found, nat_eq.beq_iff k h)

-- An entry that `first_unused` finds is in the shared cache, and no copy reads it.
pub first_unused_lem :
    (heap : List SharedSlot) (d : Dict ℕ ℕ) (handle : ℕ) (x : SharedSlot)
    → Distinct (keys d)
    → first_unused heap d ≡ some (handle, x)
    → (h : ℕ) × (lookup h d ≡ some handle)
      × (get_elem? heap handle ≡ some x)
      × (is_positive x.copies_inflight ≡ false)
unfolding first_unused
first_unused_lem heap [] handle x once e = cc
first_unused_lem heap ((k, other) ∷ d) handle x once e =
    elim (Option-cases (get_elem? heap other)) [
      | inl out ↦
          let (h, found, there, unread) =
            first_unused_lem heap d handle x once.1 (rw (out, first_unused) at e) in
          (h, lookup-behind h k handle other d once.0 found, there, unread)
      | inr (y, at) ↦ elim (Bool-cases (is_positive y.copies_inflight)) [
        | inl busy ↦
            let (h, found, there, unread) =
              first_unused_lem heap d handle x once.1 (rw (at, busy, first_unused) at e) in
            (h, lookup-behind h k handle other d once.0 found, there, unread)
        | inr idle ↦
            let same : (other, y) ≡ (handle, x) =
              some-injective (other, y) (handle, x) (rw (at, idle, first_unused) at e) in
            (
              k,
              rw (==_refl k) (ap (λ p. some p.0) same),
              ap (get_elem? heap) (sym (ap (λ p. p.0) same)) ∙ at ∙ ap (λ p. some p.1) same,
              ap (λ p. is_positive p.1.copies_inflight) (sym same) ∙ idle,
            )
      ]
    ]
