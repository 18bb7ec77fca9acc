-- ===== src/CachePolicy/Resident.antt =====
-- What the methods of an `EvictionPolicy` (py_kvcache/staging_cache.py) do to the keys that it calls
-- resident: the laws that the cache relies on, whichever the policy is.
use py_kvcache.Prelude.{
  ℕ, ◌≤◌, ◌≡◌, refl, inl, inr, List, [], ◌++◌, if◌then◌else◌, nat_beq, nat_eq, Bool-cases, arith,
  Result, ok, err,
}
use py_kvcache.Prelude.Keys.{contains, remove, add, move_to_end}
use py_kvcache.Prelude.Count.{
  count, count-append, contains-count, count-remove, count-add, count-move_to_end, present-count,
  absent-count,
}
use Prim.Native.String.{String}
use text.Mathlib.Text.{◌==◌ as str_eq}
use py_kvcache.CachePolicy.Lru
use py_kvcache.CachePolicy.Arc
use py_kvcache.CachePolicy.Arc.{ArcPolicy}
use py_kvcache.CachePolicy.ArcInvariant.{IsArc, init-IsArc, admit-IsArc, evict-IsArc, touch-IsArc}
use py_kvcache.CachePolicy.{
  EvictionPolicy, lru, arc, make_policy, admit, touch, evict, victims, clear,
}

abbrev pub resident : EvictionPolicy → List ℕ
resident (lru s) = s.od
resident (arc s) = s.t1 ++ s.t2

abbrev pub IsPolicy : EvictionPolicy → Type 0
IsPolicy (lru s) = (k : ℕ) → count k s.od ≤ 1
IsPolicy (arc s) = IsArc s

-- How often the key `k` is resident.
abbrev pub times : ℕ → EvictionPolicy → ℕ
times k π = count k (resident π)

pub times-le : (k : ℕ) (π : EvictionPolicy) → IsPolicy π → times k π ≤ 1
times-le k (lru s) v = v k
times-le k (arc s) v = omega (arith, v.once k, count-append k s.t1 s.t2)

-- The victims are the resident keys, in some order.
pub count-victims : (k : ℕ) (π : EvictionPolicy) → count k (victims π) ≡ times k π
unfolding victims Lru.victims Arc.victims
count-victims k (lru s) = refl
count-victims k (arc s) = ground (arith, count-append k s.t1 s.t2, count-append k s.t2 s.t1)

module _ (j k : ℕ) where
  into_t2 :
      (s : ArcPolicy)
      → times k (arc s) ≡ 0
      → count j (s.t1 ++ add k s.t2) ≡ (if nat_beq k j then 1 else times j (arc s))
  into_t2 s h = ground (
    arith,
    count-append j s.t1 (add k s.t2),
    count-append j s.t1 s.t2,
    count-append k s.t1 s.t2,
    count-add k j s.t2,
  )

  pub times-admit :
      (π : EvictionPolicy)
      → IsPolicy π
      → times k π ≡ 0
      → times j (admit π k) ≡ (if nat_beq k j then 1 else times j π)
  unfolding admit Lru.admit Arc.admit Arc.promote Arc.trim_ghosts
  times-admit (lru s) v h = ground (arith, count-move_to_end k j (add k s.od), count-add k j s.od)
  times-admit (arc s) v h = elim (Bool-cases (contains k s.b1)) [
    | inl e ↦ rw e (into_t2 s h)
    | inr e ↦ rw e (elim (Bool-cases (contains k s.b2)) [
      | inl e' ↦ rw e' (into_t2 s h)
      | inr e' ↦ rw e' (
          ground (
            arith,
            count-append j (add k s.t1) s.t2,
            count-append j s.t1 s.t2,
            count-append k s.t1 s.t2,
            count-add k j s.t1,
          ))
    ])
  ]

  pub times-touch : (π : EvictionPolicy) → IsPolicy π → times j (touch π k) ≡ times j π
  unfolding touch Lru.touch Arc.touch
  times-touch (lru s) v =
      ground (arith, v k, v j, count-move_to_end k j s.od, contains-count k s.od)
  times-touch (arc s) v = elim (Bool-cases (contains k s.t1)) [
    | inl e ↦ rw e (
        ground (
          arith,
          v.once k,
          count-append j s.t1 s.t2,
          count-append j (remove k s.t1) (add k s.t2),
          count-remove k j s.t1,
          count-add k j s.t2,
          present-count k s.t1 e,
        ))
    | inr e ↦ rw e (elim (Bool-cases (contains k s.t2)) [
      | inl e' ↦ rw e' (
          ground (
            arith,
            v.once k,
            count-append j s.t1 s.t2,
            count-append j s.t1 (move_to_end k s.t2),
            count-move_to_end k j s.t2,
            present-count k s.t2 e',
          ))
      | inr e' ↦ rw e' refl
    ])
  ]

  pub times-evict :
      (π : EvictionPolicy)
      → IsPolicy π
      → times j (evict π k) ≡ (if nat_beq k j then 0 else times j π)
  unfolding evict Lru.evict Arc.evict Arc.demote Arc.trim_ghosts
  times-evict (lru s) v = count-remove k j s.od
  times-evict (arc s) v = elim (Bool-cases (contains k s.t1)) [
    | inl e ↦ rw e (
        ground (
          arith,
          v.once k,
          count-append j (remove k s.t1) s.t2,
          count-append j s.t1 s.t2,
          count-remove k j s.t1,
          present-count k s.t1 e,
        ))
    | inr e ↦ rw e (elim (Bool-cases (contains k s.t2)) [
      | inl e' ↦ rw e' (
          ground (
            arith,
            count-append j s.t1 (remove k s.t2),
            count-append j s.t1 s.t2,
            count-remove k j s.t2,
            absent-count k s.t1 e,
          ))
      | inr e' ↦
          rw e' (
            ground (arith, count-append j s.t1 s.t2, absent-count k s.t1 e, absent-count k s.t2 e'))
    ])
  ]

abbrev Made : Result EvictionPolicy → Type 0
Made (ok π) = IsPolicy π × (resident π ≡ [])
Made (err e) = Unit

make_policy-Made : (kind : String) (capacity : ℕ) → Made (make_policy kind capacity)
unfolding make_policy Lru.init Arc.init
make_policy-Made kind capacity = elim (Bool-cases (str_eq kind "lru")) [
  | inl e ↦ rw e ((λ k. omega arith), refl)
  | inr e ↦ rw e (elim (Bool-cases (str_eq kind "arc")) [
    | inl e' ↦ rw e' (init-IsArc capacity, refl)
    | inr e' ↦ rw e' tt
  ])
]

pub make_policy-IsPolicy :
    (kind : String) (capacity : ℕ) {π : EvictionPolicy}
    → make_policy kind capacity ≡ ok π
    → IsPolicy π × (resident π ≡ [])
make_policy-IsPolicy kind capacity h = rw h at (make_policy-Made kind capacity)

pub admit-IsPolicy :
    (π : EvictionPolicy) (k : ℕ) → IsPolicy π → times k π ≡ 0 → IsPolicy (admit π k)
unfolding admit Lru.admit
admit-IsPolicy (lru s) k v h =
    λ j. ground (arith, v j, count-move_to_end k j (add k s.od), count-add k j s.od)
admit-IsPolicy (arc s) k v h =
    admit-IsArc s k v (ground (arith, count-append k s.t1 s.t2, contains-count k s.t1))
      (ground (arith, count-append k s.t1 s.t2, contains-count k s.t2))

pub touch-IsPolicy : (π : EvictionPolicy) (k : ℕ) → IsPolicy π → IsPolicy (touch π k)
unfolding touch Lru.touch
touch-IsPolicy (lru s) k v = λ j. ground (arith, v j, count-move_to_end k j s.od)
touch-IsPolicy (arc s) k v = touch-IsArc s k v

pub evict-IsPolicy : (π : EvictionPolicy) (k : ℕ) → IsPolicy π → IsPolicy (evict π k)
unfolding evict Lru.evict
evict-IsPolicy (lru s) k v = λ j. ground (arith, v j, count-remove k j s.od)
evict-IsPolicy (arc s) k v = evict-IsArc s k v

pub clear-IsPolicy :
    (π : EvictionPolicy) → IsPolicy π → IsPolicy (clear π) × (resident (clear π) ≡ [])
unfolding clear Lru.clear Arc.clear
clear-IsPolicy (lru s) v = (λ k. omega arith, refl)
clear-IsPolicy (arc s) v = (
  record {
    positive = v.positive;
    target = omega arith;
    ghosts1 = omega arith;
    ghosts2 = omega arith;
    once = λ k. omega arith;
  },
  refl,
)
