-- ===== src/Reactor/Placed/Start.antt =====
-- A new reactor of py_kvcache/reactor.py, and its slots after every sequence of steps.
use Prim.Native.String.{String}
use py_kvcache.Prelude.{
  ℕ, ◌-◌, ◌<◌, ◌≡◌, refl, ap, subst, Bool-cases, inl, inr, [], ◌∷◌, Option, none, some, Result, ok,
  err, ◌>>=◌, nat_eq, string_eq, ◌==◌, ◌||◌, ltb, if◌then◌else◌, arith,
}
use py_kvcache.Prelude.Int.{pos}
use py_kvcache.Prelude.Count.{count}
use py_kvcache.Staging.{StagingPool, init}
use py_kvcache.Staging.Conservation.{init-IsShared}
use py_kvcache.StagingCache
use py_kvcache.StagingCache.{StagingDataCache, CacheSlot}
use py_kvcache.StagingCache.Residency.{init-IsValid}
use py_kvcache.StagingCache.Slots.{indices, init-slots}
use py_kvcache.StagingCache.Pins.{pins_in}
use py_kvcache.Prelude.Dict.{lookup}
use py_kvcache.Reactor.State.{Reactor}
use py_kvcache.Reactor.Run.{make_cache, Settings, start, Reach}
use py_kvcache.Reactor.Placed.{CacheIsValid, cache_slots, IsPlaced, held, cache_pins}
use py_kvcache.Reactor.Places.{reserve_foreground_slot}
use py_kvcache.Reactor.Placed.Unread.{cached_reads, shared_reads, no_cached_reads, no_shared_reads}
use py_kvcache.Reactor.Placed.Pool.{with_slot}
use py_kvcache.Reactor.Placed.Reserve.{reserve_foreground_slot-IsPlaced}
use py_kvcache.Reactor.Placed.Steps.{Reach-IsPlaced}

-- A cache of a new reactor is valid, and empty.
abbrev IsNewCache : Option StagingDataCache → Type 0
IsNewCache cache =
    CacheIsValid cache
    × ((j : ℕ) → count j (cache_slots cache) ≡ 0)
    × ((h i : ℕ) → cache_pins h i cache ≡ pos 0)

kept_cache :
    (kind : String) (capacity : ℕ) (made : Result StagingDataCache)
    {cache : Option StagingDataCache}
    → StagingCache.init kind capacity ≡ made
    → (made >>= λ c. ok (some c)) ≡ ok cache
    → IsNewCache cache
kept_cache kind capacity (err _) is e = cc
kept_cache kind capacity (ok c) {cache} is e =
    let same : some c ≡ cache = cc in
    subst IsNewCache same (
      init-IsValid kind capacity is,
      λ j. ap (λ d. count j (indices d)) (init-slots kind capacity is),
      λ h i. ap (λ d. pins_in i (lookup h d)) (init-slots kind capacity is),
    )

made-IsNewCache :
    (kind : String) (slot_count iodepth : ℕ) {cache : Option StagingDataCache}
    → make_cache kind slot_count iodepth ≡ ok cache
    → IsNewCache cache
unfolding make_cache
made-IsNewCache kind slot_count iodepth {cache} e =
    elim (Bool-cases (kind == "off" || slot_count - iodepth == 0)) [
      | inl off ↦
          let same : none ≡ cache = cc (rw off at e) in
          subst IsNewCache same (tt, (λ j. refl), λ h i. refl)
      | inr on ↦
          kept_cache kind (slot_count - iodepth) (StagingCache.init kind (slot_count - iodepth))
            refl (rw on at e)
    ]

-- A new reactor has all its slots in the pool.
pub start-IsPlaced :
    (n : ℕ) {p : StagingPool} (kind : String) (settings : Settings)
    {cache : Option StagingDataCache}
    → init (pos n) ≡ ok p
    → make_cache kind n settings.iodepth ≡ ok cache
    → IsPlaced n (start p cache settings).slots [] []
unfolding start
start-IsPlaced n {p} kind settings {cache} made cached =
    let pool = init-IsShared n made in
    let (valid, empty, no_pins) = made-IsNewCache kind n settings.iodepth cached in
    record {
      is_open = pool.is_open;
      size = pool.size;
      valid = valid;
      once = λ j. omega (arith, pool.once j, empty j);
      private_keys = tt;
      op_keys = tt;
      fresh = λ u e. cc e;
      shared_keys = tt;
      shared_ok = λ h k e. cc e;
      copies_ok = λ k. refl;
      pins_ok = no_pins;
    }

-- From a new reactor with `n` slots, after any sequence of steps up to the order to stop, each of
-- the slots is in exactly one place: free in the pool, in the staging cache, held by a preload
-- under its hash, shared, read into or written from, or kept by a copy itself, where a copy that
-- reads from the cache or from a shared slot is no place of its own; and no other number is in any
-- place.
pub Reach-once :
    (n : ℕ) {p : StagingPool} (kind : String) (settings : Settings)
    {cache : Option StagingDataCache} {r : Reactor} (j : ℕ)
    → init (pos n) ≡ ok p
    → make_cache kind n settings.iodepth ≡ ok cache
    → Reach (start p cache settings) r
    → held j r.slots ≡ (if ltb j n then 1 else 0)
Reach-once n kind settings j made cached reach =
    omega (arith, (Reach-IsPlaced reach (start-IsPlaced n kind settings made cached)).once j)

-- Start a reactor with `n` slots, and let it take any sequence of steps up to the order to stop. A slot
-- that `_reserve_foreground_slot` then hands out is one of the `n`, and in no other place, whatever was
-- evicted for it: it is not free, nor in the cache, held by a preload or shared, no read or write in
-- flight and no copy has it as its own, no copy reads it from the cache under any hash, and no copy
-- reads a shared slot with that number.
pub reserve_foreground_slot-alone :
    (n : ℕ) {p : StagingPool} (kind : String) (settings : Settings)
    {cache : Option StagingDataCache} {r : Reactor} (i : ℕ)
    → init (pos n) ≡ ok p
    → make_cache kind n settings.iodepth ≡ ok cache
    → Reach (start p cache settings) r
    → (reserve_foreground_slot r).1 ≡ some i
    → (i < n)
      × (held i (reserve_foreground_slot r).0.slots ≡ 0)
      × ((h : ℕ) → cached_reads i h (reserve_foreground_slot r).0.slots ≡ 0)
      × ((handle : ℕ) → shared_reads i handle (reserve_foreground_slot r).0.slots ≡ 0)
reserve_foreground_slot-alone n kind settings {r = r} i made cached reach e =
    let before = Reach-IsPlaced reach (start-IsPlaced n kind settings made cached) in
    let s = (reserve_foreground_slot r).0.slots in
    let after : IsPlaced n s (i ∷ []) [] =
      subst (λ o. IsPlaced n s (with_slot o []) []) e
        (reserve_foreground_slot-IsPlaced r [] [] before) in
    let nowhere : held i s ≡ 0 = ground (arith, after.once i) in
    (
      ground (arith, after.once i),
      nowhere,
      (λ h. no_cached_reads i h s (omega (arith, nowhere)) after),
      λ handle. no_shared_reads i handle s (omega (arith, nowhere)) after,
    )
