-- ===== src/Reactor/Placed/Pool.antt =====
-- Slots of py_kvcache/reactor.py that go to the pool and the cache, or come from them.
use py_kvcache.Prelude.{
  ℕ, ◌+◌, ◌≡◌, refl, ap, ◌∙◌, subst, Bool, true, false, List, [], ◌∷◌, ◌++◌, Option, none, some, ok,
  if◌then◌else◌, ltb, nat_eq, arith, Bool-cases, Option-cases, inl, inr,
}
use py_kvcache.Prelude.Int.{pos}
use py_kvcache.Prelude.Count.{count, count-append}
use py_kvcache.Staging.{StagingPool, try_reserve, release}
use py_kvcache.StagingCache.{StagingDataCache, put, evict_one}
use py_kvcache.StagingCache.Residency.{IsValid, put-IsValid, evict_one-IsValid}
use py_kvcache.StagingCache.Slots.{indices, handed, put-conserves, evict_one-conserves}
use py_kvcache.StagingCache.Pins.{pins, pins-put, pins-evict_one}
use py_kvcache.Reactor.State.{LoadCopy, Slots, Reactor}
use py_kvcache.Reactor.Places.{
  release_slot, reserve, give_back, release_or_cache, evicted, evict_one_cache_slot, retry,
  reserve_preload_slot,
}
use py_kvcache.Reactor.Placed.{CacheIsValid, IsPlaced, copied_slots, reads, pinned, pending_pinned}

-- A choice keeps what both of its branches keep.
pub if-IsPlaced :
    {total : ℕ} (b : Bool) (r q : Reactor) (hand : List ℕ) (loads : List LoadCopy)
    → IsPlaced total r.slots hand loads
    → IsPlaced total q.slots hand loads
    → IsPlaced total (if b then r else q).slots hand loads
if-IsPlaced true r q hand loads v w = v
if-IsPlaced false r q hand loads v w = w

-- The pool after a slot of its own is released.
released :
    (p : StagingPool) (i : ℕ)
    → p.is_closed ≡ false
    → ltb i p.slot_count ≡ true
    → release p (pos i) ≡ ok (record p { free = i ∷ p.free })
unfolding release
released p i openeded below = ground arith

in_range :
    {total : ℕ} (s : Slots) (i : ℕ) (hand : List ℕ) (loads : List LoadCopy)
    → IsPlaced total s (i ∷ hand) loads
    → ltb i s.pool.slot_count ≡ true
in_range s i hand loads v = ground (arith, v.once i)

pub release_slot-IsPlaced :
    {total : ℕ} (s : Slots) (i : ℕ) (hand : List ℕ) (loads : List LoadCopy)
    → IsPlaced total s (i ∷ hand) loads
    → IsPlaced total (release_slot s i) hand loads
unfolding release_slot
release_slot-IsPlaced s i hand loads v =
    rw (released s.pool i v.is_open (in_range s i hand loads v), release_slot)
      (record {
        is_open = v.is_open;
        size = v.size;
        valid = v.valid;
        once = λ j. omega (arith, v.once j);
        private_keys = v.private_keys;
        op_keys = v.op_keys;
        fresh = v.fresh;
        shared_keys = v.shared_keys;
        shared_ok = v.shared_ok;
        copies_ok = v.copies_ok;
        pins_ok = v.pins_ok;
      })

-- What the step has in hand once a slot was reserved, or none.
abbrev pub with_slot : Option ℕ → List ℕ → List ℕ
with_slot none hand = hand
with_slot (some i) hand = i ∷ hand

taken :
    (p : StagingPool) (i : ℕ) (free : List ℕ)
    → p.is_closed ≡ false
    → p.free ≡ i ∷ free
    → try_reserve p ≡ ok (record p { free = free }, some i)
unfolding try_reserve
taken p i free opened e = ground arith

exhausted : (p : StagingPool) → p.is_closed ≡ false → p.free ≡ [] → try_reserve p ≡ ok (p, none)
unfolding try_reserve
exhausted p opened e = ground arith

reserved-IsPlaced :
    {total : ℕ} (s : Slots) (free : List ℕ) (hand : List ℕ) (loads : List LoadCopy)
    → s.pool.free ≡ free
    → IsPlaced total s hand loads
    → IsPlaced total (reserve s).0 (with_slot (reserve s).1 hand) loads
unfolding reserve
reserved-IsPlaced s [] hand loads e v = simp (exhausted s.pool v.is_open e, reserve) v
reserved-IsPlaced s (i ∷ free) hand loads e v =
    simp (taken s.pool i free v.is_open e, reserve)
      (record {
        is_open = v.is_open;
        size = v.size;
        valid = v.valid;
        once = λ j. ground (arith, v.once j);
        private_keys = v.private_keys;
        op_keys = v.op_keys;
        fresh = v.fresh;
        shared_keys = v.shared_keys;
        shared_ok = v.shared_ok;
        copies_ok = v.copies_ok;
        pins_ok = v.pins_ok;
      })

pub reserve-IsPlaced :
    {total : ℕ} (s : Slots) (hand : List ℕ) (loads : List LoadCopy)
    → IsPlaced total s hand loads
    → IsPlaced total (reserve s).0 (with_slot (reserve s).1 hand) loads
reserve-IsPlaced s hand loads v = reserved-IsPlaced s s.pool.free hand loads refl v

give_back-IsPlaced :
    {total : ℕ} (s : Slots) (back : Option ℕ) (hand : List ℕ) (loads : List LoadCopy)
    → IsPlaced total s (handed back ++ hand) loads
    → IsPlaced total (give_back s back) hand loads
unfolding give_back
give_back-IsPlaced s none hand loads v = v
give_back-IsPlaced s (some i) hand loads v = release_slot-IsPlaced s i hand loads v

-- The cache is replaced, and slots change hands with it.
pub recached :
    {total : ℕ} (s : Slots) (c c' : StagingDataCache) (hand hand' : List ℕ) (loads : List LoadCopy)
    → s.cache ≡ some c
    → IsValid c'
    → ((j : ℕ)
        → count j (indices c'.slots) + count j hand' ≡ count j (indices c.slots) + count j hand)
    → ((h i n : ℕ) → pins h i c ≡ pos n → pins h i c' ≡ pos n)
    → IsPlaced total s hand loads
    → IsPlaced total (record s { cache = some c' }) hand' loads
recached s c c' hand hand' loads e valid moved kept v = record {
  is_open = v.is_open;
  size = v.size;
  valid = valid;
  once = λ j. let o = v.once j in omega (arith, moved j, rw e at o);
  private_keys = v.private_keys;
  op_keys = v.op_keys;
  fresh = v.fresh;
  shared_keys = v.shared_keys;
  shared_ok = v.shared_ok;
  copies_ok = v.copies_ok;
  pins_ok = λ h i. let p = v.pins_ok h i in kept h i _ (rw e at p);
}

-- The pins of the cache are changed, and the copies with them.
pub repinned :
    {total : ℕ} (s : Slots) (c c' : StagingDataCache) (hand : List ℕ) (loads loads' : List LoadCopy)
    → s.cache ≡ some c
    → IsValid c'
    → indices c'.slots ≡ indices c.slots
    → ((j : ℕ) → count j (copied_slots loads') ≡ count j (copied_slots loads))
    → ((k : ℕ) → reads k loads' ≡ reads k loads)
    → ((h i : ℕ)
        → pins h i c'
          ≡ pos (pinned h i s.copy_ready + pending_pinned h i s.pending_copies + pinned h i loads'))
    → IsPlaced total s hand loads
    → IsPlaced total (record s { cache = some c' }) hand loads'
repinned s c c' hand loads loads' e valid same copied read pin v = record {
  is_open = v.is_open;
  size = v.size;
  valid = valid;
  once = λ j. let o = v.once j in omega (arith, ap (count j) same, copied j, rw e at o);
  private_keys = v.private_keys;
  op_keys = v.op_keys;
  fresh = v.fresh;
  shared_keys = v.shared_keys;
  shared_ok = v.shared_ok;
  copies_ok = λ k. v.copies_ok k ∙ ap pos (omega (arith, read k));
  pins_ok = pin;
}

pub release_or_cache-IsPlaced :
    {total : ℕ} (s : Slots) (h i : ℕ) (hand : List ℕ) (loads : List LoadCopy)
    → IsPlaced total s (i ∷ hand) loads
    → IsPlaced total (release_or_cache s h i) hand loads
unfolding release_or_cache
release_or_cache-IsPlaced s h i hand loads v = elim (Option-cases s.cache) [
  | inl e ↦ simp (e, release_or_cache) (release_slot-IsPlaced s i hand loads v)
  | inr (c, e) ↦
      let valid : IsValid c = subst CacheIsValid e v.valid in
      let put' = put c h i in
      simp (e, release_or_cache)
        (give_back-IsPlaced (record s { cache = some put'.0 }) put'.1 hand loads
          (recached s c put'.0 (i ∷ hand) (handed put'.1 ++ hand) loads e (put-IsValid c h i valid)
            (λ j. omega (arith, put-conserves c h i j valid, count-append j (handed put'.1) hand))
            (pins-put c h i) v))
]

evicted-IsPlaced :
    {total : ℕ} (s : Slots) (r : StagingDataCache × Option ℕ) (hand : List ℕ)
    (loads : List LoadCopy)
    → IsPlaced total (record s { cache = some r.0 }) (handed r.1 ++ hand) loads
    → IsPlaced total (evicted s r).0 hand loads
unfolding evicted
evicted-IsPlaced s (c, none) hand loads v = v
evicted-IsPlaced s (c, some i) hand loads v =
    release_slot-IsPlaced (record s { cache = some c }) i hand loads v

pub evict_one_cache_slot-IsPlaced :
    {total : ℕ} (s : Slots) (hand : List ℕ) (loads : List LoadCopy)
    → IsPlaced total s hand loads
    → IsPlaced total (evict_one_cache_slot s).0 hand loads
unfolding evict_one_cache_slot
evict_one_cache_slot-IsPlaced s hand loads v = elim (Option-cases s.cache) [
  | inl e ↦ simp (e, evict_one_cache_slot) v
  | inr (c, e) ↦
      let valid : IsValid c = subst CacheIsValid e v.valid in
      let r = evict_one c in
      simp (e, evict_one_cache_slot)
        (evicted-IsPlaced s r hand loads (
          recached s c r.0 hand (handed r.1 ++ hand) loads e (evict_one-IsValid c valid)
            (λ j. omega (arith, evict_one-conserves c j valid, count-append j (handed r.1) hand))
            (pins-evict_one c) v))
]

retry-IsPlaced :
    {total : ℕ} (r : Slots × Option ℕ) (hand : List ℕ) (loads : List LoadCopy)
    → IsPlaced total r.0 (with_slot r.1 hand) loads
    → IsPlaced total
        (retry r evict_one_cache_slot).0
        (with_slot (retry r evict_one_cache_slot).1 hand)
        loads
unfolding retry
retry-IsPlaced (s, some i) hand loads v = v
retry-IsPlaced (s, none) hand loads v =
    let made = evict_one_cache_slot-IsPlaced s hand loads v in
    elim (Bool-cases (evict_one_cache_slot s).1) [
      | inl e ↦ rw e (reserve-IsPlaced (evict_one_cache_slot s).0 hand loads made)
      | inr e ↦ rw e made
    ]

pub reserve_preload_slot-IsPlaced :
    {total : ℕ} (s : Slots) (hand : List ℕ) (loads : List LoadCopy)
    → IsPlaced total s hand loads
    → IsPlaced total (reserve_preload_slot s).0 (with_slot (reserve_preload_slot s).1 hand) loads
unfolding reserve_preload_slot
reserve_preload_slot-IsPlaced s hand loads v =
    retry-IsPlaced (reserve s) hand loads (reserve-IsPlaced s hand loads v)
