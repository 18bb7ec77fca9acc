-- ===== src/Tests/Slots.antt =====
-- py_kvcache/staging.py at a pool of two slots.
use py_kvcache.Prelude.{◌≡◌, ◌⊎◌, inl, inr, ◌<◌, refl, false, [], ◌∷◌, ok, nat_eq}
use py_kvcache.Prelude.Int.{pos}
use py_kvcache.Prelude.Keys.{contains}
use py_kvcache.Staging.{StagingPool, init, compute_slot_count, try_reserve}
use py_kvcache.Staging.Conservation.{
  World, Reach, here, next, reserves, IsShared, IsShut, init-Reach-IsShared, try_reserve_fresh,
}

abbrev pool : StagingPool
pool = record { slot_count = 2; is_closed = false; free = 1 ∷ 0 ∷ [] }

abbrev one_left : StagingPool
one_left = record pool { free = 0 ∷ [] }

abbrev lent : World
lent = record { pool = one_left; held = 1 ∷ [] }

init_two : init (pos 2) ≡ ok pool
unfolding init
init_two = refl

slots_of_four_pages : compute_slot_count 16384 4096 1 ≡ ok 4
unfolding compute_slot_count
slots_of_four_pages = refl

lent-Reach : Reach (record { pool = pool; held = [] }) lent
unfolding try_reserve
lent-Reach = next here (reserves refl)

lent-IsShared : IsShared 2 lent
lent-IsShared = elim (init-Reach-IsShared 2 init_two lent-Reach) [
  | inl s ↦ s
  | inr s ↦ cc (s.is_shut)
]

init-Reach-IsShared_example : IsShared 2 lent ⊎ IsShut 2 lent
init-Reach-IsShared_example = init-Reach-IsShared 2 init_two lent-Reach

try_reserve_fresh_example : (0 < 2) × (contains 0 lent.held ≡ false)
unfolding try_reserve
try_reserve_fresh_example = try_reserve_fresh 2 lent-IsShared 0 {q = record pool { free = [] }} refl
