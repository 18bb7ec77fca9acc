-- ===== src/Tests/Caches.antt =====
-- py_kvcache/staging_cache.py at caches of two slots.
use py_kvcache.Prelude.{ℕ, ◌≡◌, ◌↔◌, ◌+◌, refl, [], ◌∷◌, none, some, length, nat_eq, arith}
use py_kvcache.Prelude.Int.{pos}
use py_kvcache.Prelude.Count.{count}
use py_kvcache.Prelude.Dict.{lookup}
use py_kvcache.CachePolicy
use py_kvcache.CachePolicy.{EvictionPolicy, lru, arc}
use py_kvcache.CachePolicy.Arc
use py_kvcache.CachePolicy.Arc.{ArcPolicy}
use py_kvcache.CachePolicy.ArcInvariant.{IsArc, admit-IsArc}
use py_kvcache.StagingCache.{
  StagingDataCache, CacheSlot, init, get, put, evict_one, pin, unpin, drain,
}
use py_kvcache.StagingCache.Eviction.{Outcome, evict_one-Outcome, evict_one_keeps_pinned}
use py_kvcache.StagingCache.Residency.{IsValid, put-IsValid}
use py_kvcache.StagingCache.Bound.{
  AllPinned, WithinOne, evict_one-none, put-WithinOne, put_over_capacity,
}
use py_kvcache.StagingCache.Slots.{indices, handed, put-conserves}

abbrev slot : ℕ → ℕ → ℕ → CacheSlot
slot h i n = record { block_hash = h; slot_index = i; copies_inflight = pos n }

-- Two hashes, 7 in slot 0 and 8 in slot 1; 7 is the older.
abbrev two : StagingDataCache
two = record {
  capacity = 2;
  policy = lru (record { capacity = 2; od = 7 ∷ 8 ∷ [] });
  slots = (7, slot 7 0 0) ∷ (8, slot 8 1 0) ∷ [];
}

abbrev one_pinned : StagingDataCache
one_pinned = record two { slots = (7, slot 7 0 1) ∷ (8, slot 8 1 0) ∷ [] }

abbrev all_pinned : StagingDataCache
all_pinned = record {
  capacity = 1;
  policy = lru (record { capacity = 1; od = 7 ∷ [] });
  slots = (7, slot 7 0 1) ∷ [];
}

abbrev ghostly : ArcPolicy
ghostly = record { c = 2; p = 0; t1 = 7 ∷ []; t2 = 8 ∷ []; b1 = 9 ∷ []; b2 = [] }

program : Unit {0}
unfolding init get put evict_one pin unpin drain CachePolicy.make_policy CachePolicy.admit
    CachePolicy.touch CachePolicy.evict CachePolicy.victims CachePolicy.Lru.admit
    CachePolicy.Lru.touch CachePolicy.Lru.evict CachePolicy.Lru.victims Arc.admit Arc.touch
    Arc.evict Arc.victims
program = tt

-- The oldest hash without a copy in flight makes room.
put_evicts : put one_pinned 9 5 ≡ (
  record {
    capacity = 2;
    policy = lru (record { capacity = 2; od = 7 ∷ 9 ∷ [] });
    slots = (7, slot 7 0 1) ∷ (9, slot 9 5 0) ∷ [];
  },
  some 1,
)
unfolding program
put_evicts = refl

-- A ghost that comes back moves the target and is promoted.
admit_ghost : Arc.admit ghostly 9 ≡ record ghostly { p = 1; t2 = 8 ∷ 9 ∷ []; b1 = [] }
unfolding program
admit_ghost = refl

two-IsValid : IsValid two
two-IsValid = record { policy = λ k. ground arith; same = λ k. refl }

one_pinned-IsValid : IsValid one_pinned
one_pinned-IsValid = record { policy = λ k. ground arith; same = λ k. refl }

all_pinned-IsValid : IsValid all_pinned
all_pinned-IsValid = record { policy = λ k. ground arith; same = λ k. refl }

all_pinned-AllPinned : AllPinned all_pinned
all_pinned-AllPinned h s e = ground arith

ghostly-IsArc : IsArc ghostly
ghostly-IsArc = record {
  positive = omega arith;
  target = omega arith;
  ghosts1 = omega arith;
  ghosts2 = omega arith;
  once = λ k. ground arith;
}

admit-IsArc_example : IsArc (Arc.admit ghostly 9)
admit-IsArc_example = admit-IsArc ghostly 9 ghostly-IsArc refl refl

put-IsValid_example : IsValid (put one_pinned 9 5).0
put-IsValid_example = put-IsValid one_pinned 9 5 one_pinned-IsValid

evict_one-Outcome_example :
    Outcome one_pinned (CachePolicy.victims one_pinned.policy) (evict_one one_pinned)
evict_one-Outcome_example = evict_one-Outcome one_pinned

evict_one_keeps_pinned_example : lookup 7 (evict_one one_pinned).0.slots ≡ some (slot 7 0 1)
evict_one_keeps_pinned_example = evict_one_keeps_pinned one_pinned 7 (slot 7 0 1) refl refl

evict_one-none_example : ((evict_one all_pinned).1 ≡ none) ↔ AllPinned all_pinned
evict_one-none_example = evict_one-none all_pinned all_pinned-IsValid

put-WithinOne_example : WithinOne one_pinned (put one_pinned 9 5)
put-WithinOne_example = put-WithinOne one_pinned 9 5 one_pinned-IsValid (omega arith)

put_over_capacity_example :
    ((put all_pinned 9 5).1 ≡ none) × (length (put all_pinned 9 5).0.slots ≡ 2)
put_over_capacity_example =
    put_over_capacity all_pinned 9 5 all_pinned-AllPinned (omega arith) refl refl

put-conserves_example :
    count 1 (indices (put one_pinned 9 5).0.slots) + count 1 (handed (put one_pinned 9 5).1)
    ≡ count 1 (indices one_pinned.slots) + count 1 (5 ∷ [])
put-conserves_example = put-conserves one_pinned 9 5 1 one_pinned-IsValid
