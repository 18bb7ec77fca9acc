-- ===== src/Reactor/Placed/Copies.antt =====
-- Slots of py_kvcache/reactor.py that a copy to the GPU reads: the copy keeps its slot itself, or reads
-- one that is shared or in the cache, and gives it back when it has ended.
use mathlib.Core.Option.{some-injective}
use py_kvcache.Prelude.{
  ℕ, suc, ◌+◌, ◌≡◌, refl, sym, ap, subst, ◌∙◌, Bool-cases, Option-cases, inl, inr, List, ◌∷◌, ◌++◌,
  Option, none, some, get_elem?, modify, nat_beq, nat_eq, if◌then◌else◌, arith,
}
use py_kvcache.Prelude.Int.{ℤ, pos, negsuc, dec, is_positive}
use py_kvcache.Prelude.Count.{count, count-append}
use py_kvcache.Prelude.Keys.{==_refl}
use py_kvcache.StagingCache.{StagingDataCache, unpin}
use py_kvcache.StagingCache.Residency.{unpin-IsValid}
use py_kvcache.StagingCache.Slots.{indices-unpin}
use py_kvcache.StagingCache.Pins.{same_pin, pos_lost, pins-unpin}
use py_kvcache.Reactor.State.{SharedSlot, Keeper, own, shared, cached, drained, LoadCopy, Slots}
use py_kvcache.Reactor.Places.{set_heap, copy_ended, unpin_in, settle_load_slot}
use py_kvcache.Reactor.Placed.{
  CacheIsValid, IsPlaced, IsCached, copies_of, readers, reads, refers, pending_reads, copied_slots,
  kept_by, pins_of, pinned, pending_pinned, cache_pins,
}
use py_kvcache.Reactor.Placed.Pool.{repinned, release_or_cache-IsPlaced}
use py_kvcache.Reactor.Placed.Heap.{modify_at, modify_away}
use py_kvcache.Reactor.Placed.Shared.{unused, reheaped, maybe_release_shared-IsPlaced}

pub cached_kept :
    (f : SharedSlot → SharedSlot) (handle : ℕ) (x : SharedSlot) (heap : List SharedSlot) (k h : ℕ)
    → get_elem? heap handle ≡ some x
    → (f x).cached ≡ x.cached
    → (f x).block_hash ≡ x.block_hash
    → IsCached heap k h
    → IsCached (modify f handle heap) k h
cached_kept f handle x heap k h at same named (y, there, c, n) =
    elim (Bool-cases (nat_beq handle k)) [
      | inl e ↦
          let here : handle ≡ k = (nat_eq.beq_iff handle k).0 e in
          let eq : x ≡ y = some-injective x y (sym at ∙ ap (get_elem? heap) here ∙ there) in
          (
            f x,
            subst (λ i. get_elem? (modify f handle heap) i ≡ some (f x)) here
                (modify_at f handle x heap at),
            same ∙ ap (λ (z : SharedSlot). z.cached) eq ∙ c,
            named ∙ ap (λ (z : SharedSlot). z.block_hash) eq ∙ n,
          )
      | inr e ↦ (y, modify_away f handle k heap e ∙ there, c, n)
    ]

pub readers-modify :
    (f : SharedSlot → SharedSlot) (handle : ℕ) (x : SharedSlot) (heap : List SharedSlot) (k : ℕ)
    → get_elem? heap handle ≡ some x
    → readers (modify f handle heap) k
      ≡ (if nat_beq handle k then (f x).copies_inflight else readers heap k)
readers-modify f handle x heap k at = elim (Bool-cases (nat_beq handle k)) [
  | inl e ↦
      let here : handle ≡ k = (nat_eq.beq_iff handle k).0 e in
      rw e (
        subst (λ i. readers (modify f handle heap) i ≡ (f x).copies_inflight) here
          (ap copies_of (modify_at f handle x heap at)))
  | inr e ↦ rw e (ap copies_of (modify_away f handle k heap e))
]

-- The slot that a copy reads is in the heap, with a count that is not zero.
pub reader :
    (heap : List SharedSlot) (handle n : ℕ)
    → readers heap handle ≡ pos (suc n)
    → (x : SharedSlot) × (get_elem? heap handle ≡ some x) × (x.copies_inflight ≡ pos (suc n))
reader heap handle n e = elim (Option-cases (get_elem? heap handle)) [
  | inl out ↦ cc (sym (ap copies_of out) ∙ e)
  | inr (x, at) ↦ (x, at, sym (ap copies_of at) ∙ e)
]

pos-injective : (m n : ℕ) → pos m ≡ pos n → m ≡ n
pos-injective m n e = ap (λ (z : ℤ). elim z [ pos k ↦ k | negsuc _ ↦ 0 ]) e

ended_readers :
    (f : SharedSlot → SharedSlot) (x : SharedSlot) (heap : List SharedSlot)
    (handle n k others left : ℕ) (keeper : Keeper)
    → get_elem? heap handle ≡ some x
    → (f x).copies_inflight ≡ dec x.copies_inflight
    → x.copies_inflight ≡ pos (suc n)
    → keeper ≡ shared handle
    → readers heap k ≡ pos (others + (refers k keeper + left))
    → readers (modify f handle heap) k ≡ pos (others + left)
ended_readers f x heap handle n k others left keeper at falls is keeps counted =
    elim (Bool-cases (nat_beq handle k)) [
      | inl e ↦
          let here : handle ≡ k = (nat_eq.beq_iff handle k).0 e in
          let all : pos (suc n) ≡ pos (others + (refers k keeper + left)) =
            sym is ∙ sym (ap copies_of at) ∙ ap (λ i. readers heap i) here ∙ counted in
          let one : refers k keeper ≡ 1 = ap (refers k) keeps ∙ ap (λ b. if b then 1 else 0) e in
          let few : n ≡ others + left = omega (arith, pos-injective _ _ all, one) in
          readers-modify f handle x heap k at
          ∙ ap (λ b. if b then (f x).copies_inflight else readers heap k) e
          ∙ falls
          ∙ ap dec is
          ∙ ap pos few
      | inr e ↦
          let no : refers k keeper ≡ 0 = ap (refers k) keeps ∙ ap (λ b. if b then 1 else 0) e in
          readers-modify f handle x heap k at
          ∙ ap (λ b. if b then (f x).copies_inflight else readers heap k) e
          ∙ counted
          ∙ ap pos (omega (arith, no))
    ]

-- A copy from a shared slot that has ended.
pub ended :
    {total : ℕ} (s : Slots) (c : LoadCopy) (handle n : ℕ) (x : SharedSlot) (hand : List ℕ)
    (loads : List LoadCopy)
    → c.keeper ≡ shared handle
    → get_elem? s.heap handle ≡ some x
    → x.copies_inflight ≡ pos (suc n)
    → IsPlaced total s hand (c ∷ loads)
    → IsPlaced total (set_heap copy_ended handle s) (unused (copy_ended x) ++ hand) loads
unfolding set_heap
ended s c handle n x hand loads keeps at some_left v =
    reheaped s copy_ended handle x s.shared_cached s.cached_total hand
      (unused (copy_ended x) ++ hand) (c ∷ loads) loads at
      (λ j. ground (
        arith,
        ap is_positive some_left,
        ap (λ k. count j (kept_by k c.slot_index ++ copied_slots loads)) keeps,
      ))
      v.shared_keys
      (λ h k e. cached_kept copy_ended handle x s.heap k h at refl refl (v.shared_ok h k e))
      (λ k.
        ended_readers copy_ended x s.heap handle n k _ (reads k loads) c.keeper at refl some_left
          keeps (v.copies_ok k))
      (λ h i. omega (arith, ap (λ k. pins_of h i k c.slot_index) keeps)) v

-- A copy that keeps its slot itself, or none, is put down.
pub put_down :
    {total : ℕ} (s : Slots) (c : LoadCopy) (hand : List ℕ) (loads : List LoadCopy)
    → ((k : ℕ) → refers k c.keeper ≡ 0)
    → ((h i : ℕ) → pins_of h i c.keeper c.slot_index ≡ 0)
    → IsPlaced total s hand (c ∷ loads)
    → IsPlaced total s (kept_by c.keeper c.slot_index ++ hand) loads
put_down s c hand loads apart free v = record {
  is_open = v.is_open;
  size = v.size;
  valid = v.valid;
  once = λ j. omega (
    arith,
    v.once j,
    count-append j (kept_by c.keeper c.slot_index) hand,
    count-append j (kept_by c.keeper c.slot_index) (copied_slots loads),
  );
  private_keys = v.private_keys;
  op_keys = v.op_keys;
  fresh = v.fresh;
  shared_keys = v.shared_keys;
  shared_ok = v.shared_ok;
  copies_ok = λ k. v.copies_ok k ∙ ap pos (omega (arith, apart k));
  pins_ok = λ h i. v.pins_ok h i ∙ ap pos (omega (arith, free h i));
}

-- A copy from the cache has a pin, among those of the others.
pin_of :
    {total : ℕ} (s : Slots) (c : LoadCopy) (h : ℕ) (o : Option StagingDataCache) (hand : List ℕ)
    (loads : List LoadCopy)
    → c.keeper ≡ cached h
    → s.cache ≡ o
    → IsPlaced total s hand (c ∷ loads)
    → (g i : ℕ)
    → cache_pins g i o
      ≡ pos (
          pinned g i s.copy_ready
          + pending_pinned g i s.pending_copies
          + pinned g i loads
          + same_pin h g c.slot_index i)
pin_of s c h o hand loads keeps e v g i =
    ap (cache_pins g i) (sym e)
    ∙ v.pins_ok g i
    ∙ ap pos (omega (arith, ap (λ k. pins_of g i k c.slot_index) keeps))

own_pin : (h i n : ℕ) → pos (n + same_pin h h i i) ≡ pos (n + 1)
own_pin h i n = ap pos (ground (arith, ==_refl h, ==_refl i))

-- A copy from the cache that has ended takes its pin with it.
pub unpinned :
    {total : ℕ} (s : Slots) (c : LoadCopy) (h : ℕ) (o : Option StagingDataCache) (hand : List ℕ)
    (loads : List LoadCopy)
    → c.keeper ≡ cached h
    → s.cache ≡ o
    → IsPlaced total s hand (c ∷ loads)
    → IsPlaced total (record s { cache = unpin_in h o }) hand loads
unfolding unpin_in
unpinned s c h none hand loads keeps e v =
    pos_lost _ (pin_of s c h none hand loads keeps e v h c.slot_index ∙ own_pin h c.slot_index _)
unpinned s c h (some held_by) hand loads keeps e v =
    let pin = pin_of s c h (some held_by) hand loads keeps e v in
    repinned s held_by (unpin held_by h) hand (c ∷ loads) loads e
      (unpin-IsValid held_by h (subst CacheIsValid e v.valid)) (indices-unpin held_by h)
      (λ j. sym (ap (λ k. count j (kept_by k c.slot_index ++ copied_slots loads)) keeps))
      (λ k. omega (arith, ap (refers k) keeps))
      (λ g i.
        pins-unpin held_by h c.slot_index g i _ _ (pin h c.slot_index ∙ own_pin h c.slot_index _)
          (pin g i))
      v

-- A copy that has ended gives back what it kept.
pub settle_load_slot-IsPlaced :
    {total : ℕ} (s : Slots) (c : LoadCopy) (h : ℕ) (k : Keeper) (hand : List ℕ)
    (loads : List LoadCopy)
    → c.keeper ≡ k
    → IsPlaced total s hand (c ∷ loads)
    → IsPlaced total (settle_load_slot s h c.slot_index k) hand loads
unfolding settle_load_slot set_heap
settle_load_slot-IsPlaced {total} s c h own hand loads e v =
    release_or_cache-IsPlaced s h c.slot_index hand loads (
      subst (λ k. IsPlaced total s (kept_by k c.slot_index ++ hand) loads) e
        (put_down s c hand loads (λ i. ap (refers i) e)
          (λ g i. ap (λ k. pins_of g i k c.slot_index) e) v))
settle_load_slot-IsPlaced s c h (shared handle) hand loads e v =
    let others = reads handle s.copy_ready + pending_reads handle s.pending_copies in
    let (x, at, is) = reader s.heap handle (others + reads handle loads) (
      v.copies_ok handle
      ∙ ap (λ t. pos (others + (t + reads handle loads)))
          (ap (refers handle) e ∙ ap (λ b. if b then 1 else 0) (==_refl handle))
      ∙ ap pos (omega arith)) in
    maybe_release_shared-IsPlaced (set_heap copy_ended handle s) handle (copy_ended x) hand loads
      (modify_at copy_ended handle x s.heap at)
      (ended s c handle (others + reads handle loads) x hand loads e at is v)
settle_load_slot-IsPlaced {total} s c h (cached hash) hand loads e v =
    unpinned s c hash s.cache hand loads e refl v
settle_load_slot-IsPlaced {total} s c h drained hand loads e v =
    subst (λ k. IsPlaced total s (kept_by k c.slot_index ++ hand) loads) e
      (put_down s c hand loads (λ i. ap (refers i) e)
        (λ g i. ap (λ k. pins_of g i k c.slot_index) e) v)
