-- ===== src/StagingCache/Eviction.antt =====
-- `evict_one` of py_kvcache/staging_cache.py: which slot it drops.
use py_kvcache.Prelude.{
  ℕ, ◌≡◌, refl, ap, ◌⊎◌, inl, inr, true, false, List, [], ◌∷◌, ◌++◌, Option, none, some, nat_eq,
  nat_beq_iff, Bool-cases, All, arith,
}
use py_kvcache.Prelude.Int.{is_positive}
use py_kvcache.Prelude.Dict.{lookup, lookup-delete}
use py_kvcache.CachePolicy
use py_kvcache.StagingCache.{
  StagingDataCache, CacheSlot, drop_slot, is_skipped, index_of, evict_from, evict_one,
}

-- The cache holds no slot under the hash, or a slot with a copy in flight.
abbrev pub Skips : StagingDataCache → ℕ → Type 0
Skips c h = is_skipped (lookup h c.slots) ≡ true

pub record Victim (c : StagingDataCache) (hashes : List ℕ) : Type 0 where
  pub before : List ℕ
  pub hash : ℕ
  pub after : List ℕ
  pub slot : CacheSlot
  pub order : hashes ≡ before ++ hash ∷ after
  pub passed_over : All (Skips c) before
  pub is_cached : lookup hash c.slots ≡ some slot
  pub is_free : is_positive slot.copies_inflight ≡ false

-- What came of a search through the hashes: nothing, or a victim that was dropped.
abbrev pub Outcome : StagingDataCache → List ℕ → StagingDataCache × Option ℕ → Type 0
Outcome c hashes r =
    (All (Skips c) hashes × (r ≡ (c, none)))
    ⊎ ((v : Victim c hashes) × (r ≡ (drop_slot c v.hash, some v.slot.slot_index)))

not_skipped :
    (o : Option CacheSlot)
    → is_skipped o ≡ false
    → (slot : CacheSlot) × (o ≡ some slot) × (is_positive slot.copies_inflight ≡ false)
unfolding is_skipped
not_skipped none h = cc
not_skipped (some slot) h = (slot, refl, h)

module _ (c : StagingDataCache) (h : ℕ) (rest : List ℕ) where
  step_past : Skips c h → evict_from c (h ∷ rest) ≡ evict_from c rest
  unfolding evict_from
  step_past skip = rw skip

  step_drop :
      (slot : CacheSlot)
      → lookup h c.slots ≡ some slot
      → is_positive slot.copies_inflight ≡ false
      → evict_from c (h ∷ rest) ≡ (drop_slot c h, some slot.slot_index)
  unfolding evict_from is_skipped index_of
  step_drop slot e free = rw e (rw free)

  further :
      {r : StagingDataCache × Option ℕ} → Skips c h → Outcome c rest r → Outcome c (h ∷ rest) r
  further skip (inl (all, e)) = inl ((skip, all), e)
  further skip (inr (v, e)) = inr (
    record {
      before = h ∷ v.before;
      hash = v.hash;
      after = v.after;
      slot = v.slot;
      order = ap (◌∷◌ h) v.order;
      passed_over = (skip, v.passed_over);
      is_cached = v.is_cached;
      is_free = v.is_free;
    },
    e,
  )

  at_once :
      (slot : CacheSlot)
      → lookup h c.slots ≡ some slot
      → is_positive slot.copies_inflight ≡ false
      → Victim c (h ∷ rest)
  at_once slot e free = record {
    before = [];
    hash = h;
    after = rest;
    slot = slot;
    order = refl;
    passed_over = tt;
    is_cached = e;
    is_free = free;
  }

evict_from_nil : (c : StagingDataCache) → evict_from c [] ≡ (c, none)
unfolding evict_from
evict_from_nil c = refl

evict_from-Outcome :
    (c : StagingDataCache) (hashes : List ℕ) → Outcome c hashes (evict_from c hashes)
unfolding at_once
evict_from-Outcome c [] = inl (tt, evict_from_nil c)
evict_from-Outcome c (h ∷ rest) = elim (Bool-cases (is_skipped (lookup h c.slots))) [
  | inl skip ↦ rw (step_past c h rest skip) (further c h rest skip (evict_from-Outcome c rest))
  | inr take ↦
      let (slot, e, free) = not_skipped (lookup h c.slots) take in
      inr (at_once c h rest slot e free, step_drop c h rest slot e free)
]

-- `evict_one` drops the first hash, in the policy's order of victims, whose slot is cached with no
-- copy in flight, and returns that slot's index; it leaves the cache as it was, and returns none,
-- only if no victim has such a slot.
pub evict_one-Outcome :
    (c : StagingDataCache) → Outcome c (CachePolicy.victims c.policy) (evict_one c)
unfolding evict_one
evict_one-Outcome c = evict_from-Outcome c (CachePolicy.victims c.policy)

kept :
    (c : StagingDataCache) (h : ℕ) (s : CacheSlot) (hashes : List ℕ)
    (r : StagingDataCache × Option ℕ)
    → lookup h c.slots ≡ some s
    → is_positive s.copies_inflight ≡ true
    → Outcome c hashes r
    → lookup h r.0.slots ≡ some s
unfolding drop_slot
kept c h s hashes r e pinned (inl (_, unchanged)) = rw unchanged e
kept c h s hashes r e pinned (inr (v, dropped)) =
    rw dropped
      (ground (arith, lookup-delete v.hash h c.slots, nat_beq_iff v.hash h, v.is_cached, v.is_free))

-- A slot with a copy in flight stays in the cache, as it is, when a slot is evicted.
pub evict_one_keeps_pinned :
    (c : StagingDataCache) (h : ℕ) (s : CacheSlot)
    → lookup h c.slots ≡ some s
    → is_positive s.copies_inflight ≡ true
    → lookup h (evict_one c).0.slots ≡ some s
evict_one_keeps_pinned c h s e pinned =
    kept c h s (CachePolicy.victims c.policy) (evict_one c) e pinned (evict_one-Outcome c)
