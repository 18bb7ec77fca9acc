-- ===== src/Staging/Conservation.antt =====
-- The pool of py_kvcache/staging.py and the slots that its clients hold, as a step relation: clients
-- reserve, release what they hold, and close the pool.
use py_kvcache.Prelude.{
  ℕ, zero, suc, ◌+◌, ◌<◌, ◌≤◌, ◌≡◌, ◌↔◌, ◌⊎◌, inl, inr, true, false, List, [], ◌∷◌, Option, none,
  some, ok, if◌then◌else◌, ltb, length, nat_eq, arith,
}
use py_kvcache.Prelude.Int.{pos}
use py_kvcache.Prelude.Keys.{contains}
use py_kvcache.Prelude.Count.{count, take_out, count-take_out, length-take_out, contains-count}
use py_kvcache.Staging.{StagingPool, down_from, init, try_reserve, release, close}

pub record World : Type 0 where
  pub pool : StagingPool
  pub held : List ℕ

pub data Step (w : World) : World → Type 0 where
  reserves :
      {q : StagingPool} {i : ℕ}
      → try_reserve w.pool ≡ ok (q, some i)
      → Step w (record { pool = q; held = i ∷ w.held })
  waits : {q : StagingPool} → try_reserve w.pool ≡ ok (q, none) → Step w (record w { pool = q })
  releases :
      {q : StagingPool} (i : ℕ)
      → contains i w.held ≡ true
      → release w.pool (pos i) ≡ ok q
      → Step w (record { pool = q; held = take_out i w.held })
  closes : Step w (record w { pool = close w.pool })

pub data Reach (w : World) : World → Type 0 where
  here : Reach w w
  next : {u v : World} → Reach w u → Step u v → Reach w v

-- Each of the `n` slots is either free or held, once.
pub record IsShared (n : ℕ) (w : World) : Type 0 where
  pub is_open : w.pool.is_closed ≡ false
  pub size : w.pool.slot_count ≡ n
  pub once : (i : ℕ) → count i w.pool.free + count i w.held ≡ (if ltb i n then 1 else 0)
  pub total : length w.pool.free + length w.held ≡ n

count-down_from : (n i : ℕ) → count i (down_from n) ≡ (if ltb i n then 1 else 0)
count-down_from zero i = ground arith
count-down_from (suc n) i = ground (arith, count-down_from n i)

length-down_from : (n : ℕ) → length (down_from n) ≡ n
length-down_from zero = omega arith
length-down_from (suc n) = omega (arith, length-down_from n)

pub init-IsShared :
    (n : ℕ) {p : StagingPool} → init (pos n) ≡ ok p → IsShared n (record { pool = p; held = [] })
unfolding init
init-IsShared zero h = cc
init-IsShared (suc n) h = record {
  is_open = ground arith;
  size = ground arith;
  once = λ i. ground (arith, count-down_from (suc n) i);
  total = ground (arith, length-down_from (suc n));
}

-- A closed pool lends nothing more; what was held is held once, and may still be released.
pub record IsShut (n : ℕ) (w : World) : Type 0 where
  pub is_shut : w.pool.is_closed ≡ true
  pub empty : w.pool.free ≡ []
  pub at_most_once : (i : ℕ) → count i w.held ≤ (if ltb i n then 1 else 0)

Step-IsShared : (n : ℕ) {w v : World} → Step w v → IsShared n w → IsShared n v ⊎ IsShut n v
unfolding try_reserve release close
Step-IsShared n (reserves h) s = inl (record {
  is_open = ground arith;
  size = ground arith;
  once = λ i. ground (arith, s.once i);
  total = ground arith;
})
Step-IsShared n (waits h) s = inl (record {
  is_open = ground arith;
  size = ground arith;
  once = λ i. ground (arith, s.once i);
  total = ground arith;
})
Step-IsShared n {w} (releases i c h) s = inl (record {
  is_open = ground arith;
  size = ground arith;
  once = λ j. ground (arith, s.once j, count-take_out i j w.held);
  total = ground (arith, length-take_out i w.held);
})
Step-IsShared n {w} closes s = inr (record {
  is_shut = ground arith;
  empty = ground arith;
  at_most_once = λ i. omega (arith, s.once i);
})

Step-IsShut : (n : ℕ) {w v : World} → Step w v → IsShut n w → IsShut n v
unfolding try_reserve release close
Step-IsShut n (reserves h) s = absurd (ground arith)
Step-IsShut n (waits h) s = absurd (ground arith)
Step-IsShut n {w} (releases i c h) s = record {
  is_shut = ground arith;
  empty = ground arith;
  at_most_once = λ j. ground (arith, s.at_most_once j, count-take_out i j w.held);
}
Step-IsShut n closes s = record {
  is_shut = ground arith;
  empty = ground arith;
  at_most_once = s.at_most_once;
}

Reach-IsShared : (n : ℕ) {w v : World} → Reach w v → IsShared n w → IsShared n v ⊎ IsShut n v
Reach-IsShared n here s = inl s
Reach-IsShared n (next r st) s = elim (Reach-IsShared n r s) [
  | inl t ↦ Step-IsShared n st t
  | inr t ↦ inr (Step-IsShut n st t)
]

-- From a new pool of n > 0 slots, after any sequence in which clients reserve slots, release slots
-- that they hold, and close the pool: while the pool is open, each index below n is free or held,
-- exactly once, and no other index is either; once it is closed, nothing is free, each index below n
-- is held at most once, and no other index is held.
pub init-Reach-IsShared :
    (n : ℕ) {p : StagingPool} {w : World}
    → init (pos n) ≡ ok p
    → Reach (record { pool = p; held = [] }) w
    → IsShared n w ⊎ IsShut n w
init-Reach-IsShared n h r = Reach-IsShared n r (init-IsShared n h)

module _ (n : ℕ) {w : World} (s : IsShared n w) where
  -- In a pool that shares its n slots, `try_reserve` hands out a slot below n that nobody holds.
  pub try_reserve_fresh :
      (i : ℕ) {q : StagingPool}
      → try_reserve w.pool ≡ ok (q, some i)
      → (i < n) × (contains i w.held ≡ false)
  unfolding try_reserve
  try_reserve_fresh i h = ground (arith, s.once i, contains-count i w.held)

  -- In a pool that shares its n slots, `try_reserve` returns no slot exactly when all n are held.
  pub try_reserve_full :
      {q : StagingPool} {r : Option ℕ}
      → try_reserve w.pool ≡ ok (q, r)
      → (r ≡ none) ↔ (length w.held ≡ n)
  unfolding try_reserve
  try_reserve_full h = ground arith

  -- A slot that is held can be released, and is then the next to be reserved.
  pub release-try_reserve :
      (i : ℕ)
      → contains i w.held ≡ true
      → (q : StagingPool) × (release w.pool (pos i) ≡ ok q) × (try_reserve q ≡ ok (w.pool, some i))
  unfolding try_reserve release
  release-try_reserve i c = (
    record w.pool { free = i ∷ w.pool.free },
    ground (arith, s.once i, contains-count i w.held),
    ground arith,
  )
