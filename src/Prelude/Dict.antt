-- ===== src/Prelude/Dict.antt =====
-- Python's `dict`: an association list in insertion order. A key stands in it once, so that to
-- delete a key is to delete every entry of it.
use mathlib.Core.Path.{◌≡◌, refl}
use mathlib.Core.Logic.{inl, inr}
use mathlib.Core.Bool.{Bool, true, false}
use mathlib.Core.Option.{Option, none, some}
use mathlib.Core.List.{List, [], ◌∷◌, ◌++◌}
use native.Mathlib.Omega.{arith}
use py_kvcache.Prelude.Tests.{Eq, ◌==◌, if◌then◌else◌, Option-cases}
use Prim.Native.Nat.{◌+◌, ◌≤◌, ◌<◌}
use py_kvcache.Prelude.Lists.{length}
use py_kvcache.Prelude.Keys.{contains, remove, add}

abbrev pub Dict : Type 0 → Type 0 → Type 0
Dict K V = List (K × V)

module _ {K V : Type 0} where
  abbrev pub keys : Dict K V → List K
  keys [] = []
  keys ((k, _) ∷ d) = k ∷ keys d

  abbrev pub values : Dict K V → List V
  values [] = []
  values ((_, v) ∷ d) = v ∷ values d

module _ {K V : Type 0} ⦃e : Eq K⦄ where
  -- `d.get(k)`
  abbrev pub lookup : K → Dict K V → Option V
  lookup k [] = none
  lookup k ((j, v) ∷ d) = if j == k then some v else lookup k d

  -- `d[k] = v`
  abbrev pub insert : K → V → Dict K V → Dict K V
  insert k v [] = (k, v) ∷ []
  insert k v ((j, w) ∷ d) = if j == k then (j, v) ∷ d else (j, w) ∷ insert k v d

  -- `d.pop(k, None)`
  abbrev pub delete : K → Dict K V → Dict K V
  delete k [] = []
  delete k ((j, w) ∷ d) = let rest = delete k d in if j == k then rest else (j, w) ∷ rest

  -- `k in d`
  abbrev pub has : K → Dict K V → Bool
  has k d = contains k (keys d)

  -- `d.get(k, v)`
  abbrev pub lookup_or : K → V → Dict K V → V
  lookup_or k v d = elim (lookup k d) [ none ↦ v | some w ↦ w ]

  pub lookup-insert :
      (k j : K) (v : V) (d : Dict K V)
      → lookup j (insert k v d) ≡ (if k == j then some v else lookup j d)
  lookup-insert k j v [] = refl
  lookup-insert k j v ((i, w) ∷ d) =
      ground (arith, e.beq_iff k j, e.beq_iff i k, e.beq_iff i j, lookup-insert k j v d)

  pub lookup-delete :
      (k j : K) (d : Dict K V) → lookup j (delete k d) ≡ (if k == j then none else lookup j d)
  lookup-delete k j [] = ground arith
  lookup-delete k j ((i, w) ∷ d) =
      ground (arith, e.beq_iff k j, e.beq_iff i k, e.beq_iff i j, lookup-delete k j d)

  pub keys-insert : (k : K) (v : V) (d : Dict K V) → keys (insert k v d) ≡ add k (keys d)
  keys-insert k v [] = refl
  keys-insert k v ((j, w) ∷ d) = ground (arith, keys-insert k v d)

  pub keys-delete : (k : K) (d : Dict K V) → keys (delete k d) ≡ remove k (keys d)
  keys-delete k [] = refl
  keys-delete k ((j, w) ∷ d) = ground (arith, keys-delete k d)

  pub lookup-none-has : (k : K) (d : Dict K V) → lookup k d ≡ none → has k d ≡ false
  lookup-none-has k [] h = refl
  lookup-none-has k ((j, w) ∷ d) h = ground (arith, lookup-none-has k d)

  pub has_not-lookup : (k : K) (d : Dict K V) → has k d ≡ false → lookup k d ≡ none
  has_not-lookup k [] h = refl
  has_not-lookup k ((j, w) ∷ d) h = ground (arith, has_not-lookup k d)

  pub lookup-some-has : (k : K) (v : V) (d : Dict K V) → lookup k d ≡ some v → has k d ≡ true
  lookup-some-has k v [] h = cc
  lookup-some-has k v ((j, w) ∷ d) h = ground (arith, lookup-some-has k v d)

  pub has-lookup : (k : K) (d : Dict K V) → has k d ≡ true → (v : V) × (lookup k d ≡ some v)
  has-lookup k d h = elim (Option-cases (lookup k d)) [
    | inl e ↦ cc (lookup-none-has k d e)
    | inr (v, e) ↦ (v, e)
  ]

  pub delete_absent : (k : K) (d : Dict K V) → has k d ≡ false → delete k d ≡ d
  delete_absent k [] h = refl
  delete_absent k ((j, w) ∷ d) h = ground (arith, delete_absent k d)

  pub length-insert_absent :
      (k : K) (v : V) (d : Dict K V) → has k d ≡ false → length (insert k v d) ≡ length d + 1
  length-insert_absent k v [] h = refl
  length-insert_absent k v ((j, w) ∷ d) h = ground (arith, length-insert_absent k v d)

  pub length-delete-le : (k : K) (d : Dict K V) → length (delete k d) ≤ length d
  length-delete-le k [] = omega arith
  length-delete-le k ((j, w) ∷ d) = ground (arith, length-delete-le k d)

  pub length-delete-lt : (k : K) (d : Dict K V) → has k d ≡ true → length (delete k d) < length d
  length-delete-lt k [] h = cc
  length-delete-lt k ((j, w) ∷ d) h = ground (arith, length-delete-lt k d, length-delete-le k d)

  pub insert_absent :
      (k : K) (v : V) (d : Dict K V) → has k d ≡ false → insert k v d ≡ d ++ (k, v) ∷ []
  insert_absent k v [] h = refl
  insert_absent k v ((j, w) ∷ d) h = ground (arith, insert_absent k v d)

  pub delete-append : (k : K) (d t : Dict K V) → delete k (d ++ t) ≡ delete k d ++ delete k t
  delete-append k [] t = refl
  delete-append k ((j, w) ∷ d) t = ground (arith, delete-append k d t)

  pub has-append : (k : K) (d t : Dict K V) → has k (d ++ t) ≡ (if has k d then true else has k t)
  has-append k [] t = refl
  has-append k ((j, w) ∷ d) t = ground (arith, has-append k d t)
