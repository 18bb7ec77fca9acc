-- ===== src/Reactor/Placed/Unread.antt =====
-- Slots of py_kvcache/reactor.py that are in no place: no copy reads one from the cache or as shared.
use py_kvcache.Prelude.{
  ℕ, zero, suc, ◌+◌, ◌≡◌, refl, ap, sym, ◌∙◌, Bool-cases, Option-cases, inl, inr, true, false, List,
  [], ◌∷◌, Option, none, some, get_elem?, nat_beq, nat_eq, string_eq, if◌then◌else◌, arith,
}
use py_kvcache.Prelude.Int.{ℤ, pos, is_positive}
use py_kvcache.Prelude.Count.{count}
use py_kvcache.StagingCache.{StagingDataCache, CacheSlot}
use py_kvcache.StagingCache.Slots.{indices}
use py_kvcache.StagingCache.Pins.{pins_in}
use py_kvcache.Prelude.Dict.{Dict, lookup}
use mathlib.Core.Option.{some-injective}
use py_kvcache.Reactor.State.{SharedSlot, Slots}
use py_kvcache.Reactor.Placed.{
  cache_slots, live_slots, IsPlaced, copies_of, reads, pending_reads, pinned, pending_pinned,
  cache_pins,
}

-- A slot that is not in the cache has no pins there.
no_pins_outside :
    (h i : ℕ) (d : Dict ℕ CacheSlot) → count i (indices d) ≡ 0 → pins_in i (lookup h d) ≡ pos 0
no_pins_outside h i [] out = refl
no_pins_outside h i ((k, slot) ∷ d) out = elim (Bool-cases (nat_beq k h)) [
  | inl here ↦ rw here (ground (arith, out))
  | inr other ↦ rw other (no_pins_outside h i d (ground (arith, out)))
]

cache_pins_outside :
    (h i : ℕ) (o : Option StagingDataCache) → count i (cache_slots o) ≡ 0 → cache_pins h i o ≡ pos 0
cache_pins_outside h i none out = refl
cache_pins_outside h i (some c) out = no_pins_outside h i c.slots out

-- How many copies read the slot `i` from the cache, under the hash `h`.
abbrev pub cached_reads : ℕ → ℕ → Slots → ℕ
cached_reads i h s = pinned h i s.copy_ready + pending_pinned h i s.pending_copies

-- How many copies read the slot `i` as the shared slot at the handle `k`.
abbrev pub shared_reads : ℕ → ℕ → Slots → ℕ
shared_reads i k s = elim (get_elem? s.heap k) [
  | none ↦ 0
  | some x ↦
      if nat_beq x.slot_index i then reads k s.copy_ready + pending_reads k s.pending_copies else 0
]

not_live :
    (i k : ℕ) (x : SharedSlot) (heap : List SharedSlot)
    → count i (live_slots heap) ≡ 0
    → get_elem? heap k ≡ some x
    → nat_beq x.slot_index i ≡ true
    → is_positive x.copies_inflight ≡ false
not_live i k x [] out at same = cc
not_live i zero x (y ∷ heap) out at same =
    let here : y ≡ x = some-injective y x at in
    let free : is_positive y.copies_inflight ≡ false =
      ground (arith, ap (λ (z : SharedSlot). nat_beq z.slot_index i) here) in
    ap (λ (z : SharedSlot). is_positive z.copies_inflight) (sym here) ∙ free
not_live i (suc k) x (y ∷ heap) out at same = not_live i k x heap (ground (arith, out)) at same

pos-zero : (z : ℤ) (n : ℕ) → is_positive z ≡ false → z ≡ pos n → n ≡ 0
pos-zero z zero free e = refl
pos-zero z (suc n) free e = cc (sym (ap is_positive e) ∙ free)

pub no_shared_reads :
    {total : ℕ} (i k : ℕ) (s : Slots) {hand : List ℕ}
    → count i (live_slots s.heap) ≡ 0
    → IsPlaced total s hand []
    → shared_reads i k s ≡ 0
no_shared_reads i k s out v = elim (Option-cases (get_elem? s.heap k)) [
  | inl e ↦ rw (e, shared_reads) refl
  | inr (x, e) ↦
      rw (e, shared_reads)
        (elim (Bool-cases (nat_beq x.slot_index i)) [
          | inr other ↦ rw other refl
          | inl same ↦
              let others = reads k s.copy_ready + pending_reads k s.pending_copies in
              let none_left : others + 0 ≡ 0 =
                pos-zero x.copies_inflight (others + 0) (not_live i k x s.heap out e same)
                  (sym (ap copies_of e) ∙ v.copies_ok k) in
              rw same (omega (arith, none_left))
        ])
]

pub no_cached_reads :
    {total : ℕ} (i h : ℕ) (s : Slots) {hand : List ℕ}
    → count i (cache_slots s.cache) ≡ 0
    → IsPlaced total s hand []
    → cached_reads i h s ≡ 0
no_cached_reads i h s out v =
    let none_left : cached_reads i h s + 0 ≡ 0 =
      pos-zero (pos 0) (cached_reads i h s + 0) refl
        (sym (cache_pins_outside h i s.cache out) ∙ v.pins_ok h i) in
    omega (arith, none_left)
