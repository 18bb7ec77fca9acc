-- ===== src/CachePolicy/ArcInvariant.antt =====
-- The invariant of `ArcPolicy` (py_kvcache/staging_cache.py), and what its methods do to the four
-- lists.
use py_kvcache.Prelude.{
  ℕ, ◌+◌, ◌≤◌, ◌<◌, ◌≡◌, inl, inr, false, List, [], ◌∷◌, length, nat_eq, Bool-cases, arith,
}
use py_kvcache.Prelude.Keys.{contains}
use py_kvcache.Prelude.Count.{
  count, absent-count, present-count, count-remove, count-add, count-move_to_end,
}
use py_kvcache.CachePolicy.Arc.{
  ArcPolicy, init, trim, trim_ghosts, promote, demote, admit, touch, evict,
}

-- The target is within the capacity, the ghost lists too, and a key stands once in all four lists.
pub record IsArc (s : ArcPolicy) : Type 0 where
  pub positive : 0 < s.c
  pub target : s.p ≤ s.c
  pub ghosts1 : length s.b1 ≤ s.c
  pub ghosts2 : length s.b2 ≤ s.c
  pub once : (k : ℕ) → count k s.t1 + count k s.t2 + count k s.b1 + count k s.b2 ≤ 1

length-trim-le : (c : ℕ) (b : List ℕ) → length (trim c b) ≤ c
unfolding trim
length-trim-le c [] = omega arith
length-trim-le c (k ∷ b) = ground (arith, length-trim-le c b)

count-trim-le : (c k : ℕ) (b : List ℕ) → count k (trim c b) ≤ count k b
unfolding trim
count-trim-le c k [] = omega arith
count-trim-le c k (j ∷ b) = ground (arith, count-trim-le c k b)

pub init-IsArc : (capacity : ℕ) → IsArc (init capacity)
unfolding init
init-IsArc capacity = record {
  positive = omega arith;
  target = omega arith;
  ghosts1 = omega arith;
  ghosts2 = omega arith;
  once = λ k. omega arith;
}

-- What `trim_ghosts` needs of the state before it.
record IsUntrimmed (s : ArcPolicy) : Type 0 where
  positive : 0 < s.c
  target : s.p ≤ s.c
  once : (k : ℕ) → count k s.t1 + count k s.t2 + count k s.b1 + count k s.b2 ≤ 1

trim_ghosts-IsArc : {s : ArcPolicy} → IsUntrimmed s → IsArc (trim_ghosts s)
unfolding trim_ghosts
trim_ghosts-IsArc {s} u = record {
  positive = u.positive;
  target = u.target;
  ghosts1 = length-trim-le s.c s.b1;
  ghosts2 = length-trim-le s.c s.b2;
  once = λ k. omega (arith, u.once k, count-trim-le s.c k s.b1, count-trim-le s.c k s.b2);
}

module _ (s : ArcPolicy) (key : ℕ) (v : IsArc s) where
  promote-IsUntrimmed :
      contains key s.t1 ≡ false → contains key s.t2 ≡ false → IsUntrimmed (promote s key)
  unfolding promote
  promote-IsUntrimmed h1 h2 = elim (Bool-cases (contains key s.b1)) [
    | inl e ↦
        rw (e, promote)
          (record {
            positive = v.positive;
            target = omega arith;
            once = λ k. ground (
              arith,
              v.once k,
              v.once key,
              count-add key k s.t2,
              count-remove key k s.b1,
              present-count key s.b1 e,
            );
          })
    | inr e ↦ elim (Bool-cases (contains key s.b2)) [
      | inl e' ↦
          rw (e, e', promote)
            (record {
              positive = v.positive;
              target = omega (arith, v.target);
              once = λ k. ground (
                arith,
                v.once k,
                v.once key,
                count-add key k s.t2,
                count-remove key k s.b2,
                present-count key s.b2 e',
              );
            })
      | inr e' ↦
          rw (e, e', promote)
            (record {
              positive = v.positive;
              target = v.target;
              once = λ k. ground (
                arith,
                v.once k,
                count-add key k s.t1,
                absent-count key s.t1 h1,
                absent-count key s.t2 h2,
                absent-count key s.b1 e,
                absent-count key s.b2 e',
              );
            })
    ]
  ]

  demote-IsUntrimmed : IsUntrimmed (demote s key)
  unfolding demote
  demote-IsUntrimmed = elim (Bool-cases (contains key s.t1)) [
    | inl e ↦
        rw (e, demote)
          (record {
            positive = v.positive;
            target = v.target;
            once = λ k. ground (
              arith,
              v.once k,
              v.once key,
              count-add key k s.b1,
              count-remove key k s.t1,
              present-count key s.t1 e,
            );
          })
    | inr e ↦ elim (Bool-cases (contains key s.t2)) [
      | inl e' ↦
          rw (e, e', demote)
            (record {
              positive = v.positive;
              target = v.target;
              once = λ k. ground (
                arith,
                v.once k,
                v.once key,
                count-add key k s.b2,
                count-remove key k s.t2,
                present-count key s.t2 e',
              );
            })
      | inr e' ↦
          rw (e, e', demote) (record { positive = v.positive; target = v.target; once = v.once })
    ]
  ]

  -- `admit` of a key that is not resident, whether a ghost or new, keeps the invariant.
  pub admit-IsArc : contains key s.t1 ≡ false → contains key s.t2 ≡ false → IsArc (admit s key)
  unfolding admit
  admit-IsArc h1 h2 = trim_ghosts-IsArc (promote-IsUntrimmed h1 h2)

  pub evict-IsArc : IsArc (evict s key)
  unfolding evict
  evict-IsArc = trim_ghosts-IsArc demote-IsUntrimmed

  pub touch-IsArc : IsArc (touch s key)
  unfolding touch
  touch-IsArc = elim (Bool-cases (contains key s.t1)) [
    | inl e ↦
        rw (e, touch)
          (record {
            positive = v.positive;
            target = v.target;
            ghosts1 = v.ghosts1;
            ghosts2 = v.ghosts2;
            once = λ k. ground (
              arith,
              v.once k,
              v.once key,
              count-add key k s.t2,
              count-remove key k s.t1,
              present-count key s.t1 e,
            );
          })
    | inr e ↦ elim (Bool-cases (contains key s.t2)) [
      | inl e' ↦
          rw (e, e', touch)
            (record {
              positive = v.positive;
              target = v.target;
              ghosts1 = v.ghosts1;
              ghosts2 = v.ghosts2;
              once = λ k. ground (
                arith,
                v.once k,
                v.once key,
                count-move_to_end key k s.t2,
                present-count key s.t2 e',
              );
            })
      | inr e' ↦ rw (e, e', touch) v
    ]
  ]
