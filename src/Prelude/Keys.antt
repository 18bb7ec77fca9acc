-- ===== src/Prelude/Keys.antt =====
-- An insertion-ordered set of keys: Python's `OrderedDict[K, None]` and `set`. The head of the list
-- is the oldest key. A dictionary holds a key once, so that to remove a key is to remove every
-- occurrence of it.
use Prim.Native.Nat.{◌+◌, ◌≤◌, ◌<◌}
use mathlib.Core.Path.{◌≡◌, refl}
use mathlib.Core.Bool.{Bool, true, false}
use mathlib.Core.List.{List, [], ◌∷◌, ◌++◌}
use native.Mathlib.Omega.{arith}
use py_kvcache.Prelude.Tests.{Eq, ◌==◌, if◌then◌else◌}
use py_kvcache.Prelude.Lists.{length}

module _ {K : Type 0} ⦃e : Eq K⦄ where
  pub ==_refl : (k : K) → (k == k) ≡ true
  ==_refl k = (e.beq_iff k k).1 refl

  abbrev pub contains : K → List K → Bool
  contains k [] = false
  contains k (j ∷ l) = if j == k then true else contains k l

  -- `d.pop(k, None)`
  abbrev pub remove : K → List K → List K
  remove k [] = []
  remove k (j ∷ l) = let rest = remove k l in if j == k then rest else j ∷ rest

  -- `d[k] = None`: a key that is there keeps its place.
  abbrev pub add : K → List K → List K
  add k [] = k ∷ []
  add k (j ∷ l) = if j == k then j ∷ l else j ∷ add k l

  -- `d.move_to_end(k)`, for a key that is there.
  abbrev pub move_to_end : K → List K → List K
  move_to_end k l = remove k l ++ k ∷ []

  -- A key stands once in the list.
  abbrev pub Distinct : List K → Type 0
  Distinct [] = Unit
  Distinct (k ∷ l) = (contains k l ≡ false) × Distinct l

  pub contains-append :
      (k : K) (l m : List K) → contains k (l ++ m) ≡ (if contains k l then true else contains k m)
  contains-append k [] m = refl
  contains-append k (j ∷ l) m = ground (arith, contains-append k l m)

  pub contains-remove :
      (k j : K) (l : List K) → contains j (remove k l) ≡ (if k == j then false else contains j l)
  contains-remove k j [] = ground arith
  contains-remove k j (i ∷ l) =
      ground (arith, contains-remove k j l, e.beq_iff i k, e.beq_iff k j, e.beq_iff i j)

  pub contains-add :
      (k j : K) (l : List K) → contains j (add k l) ≡ (if k == j then true else contains j l)
  contains-add k j [] = ground arith
  contains-add k j (i ∷ l) =
      ground (arith, contains-add k j l, e.beq_iff i k, e.beq_iff k j, e.beq_iff i j)

  pub remove_absent : (k : K) (l : List K) → contains k l ≡ false → remove k l ≡ l
  remove_absent k [] h = refl
  remove_absent k (j ∷ l) h = ground (arith, remove_absent k l)

  pub add_absent : (k : K) (l : List K) → contains k l ≡ false → add k l ≡ l ++ k ∷ []
  add_absent k [] h = refl
  add_absent k (j ∷ l) h = ground (arith, add_absent k l)

  pub length-remove-le : (k : K) (l : List K) → length (remove k l) ≤ length l
  length-remove-le k [] = omega arith
  length-remove-le k (j ∷ l) = ground (arith, length-remove-le k l)

  pub length-remove-lt : (k : K) (l : List K) → contains k l ≡ true → length (remove k l) < length l
  length-remove-lt k [] h = cc
  length-remove-lt k (j ∷ l) h = ground (arith, length-remove-lt k l, length-remove-le k l)

  pub length-remove :
      (k : K) (l : List K) → Distinct l → contains k l ≡ true → length (remove k l) + 1 ≡ length l
  length-remove k [] d h = cc
  length-remove k (j ∷ l) d h = ground (arith, length-remove k l, remove_absent k l, e.beq_iff j k)

  pub length-add-le : (k : K) (l : List K) → length (add k l) ≤ length l + 1
  length-add-le k [] = omega arith
  length-add-le k (j ∷ l) = ground (arith, length-add-le k l)

  pub remove-Distinct : (k : K) (l : List K) → Distinct l → Distinct (remove k l)
  remove-Distinct k [] d = tt
  remove-Distinct k (j ∷ l) d =
      ground (arith, remove-Distinct k l, contains-remove k j l, e.beq_iff k j)

  pub add-Distinct : (k : K) (l : List K) → Distinct l → Distinct (add k l)
  add-Distinct k [] d = (refl, tt)
  add-Distinct k (j ∷ l) d =
      ground (arith, add-Distinct k l, contains-add k j l, e.beq_iff k j, e.beq_iff j k)

  pub append_one-Distinct :
      (k : K) (l : List K) → Distinct l → contains k l ≡ false → Distinct (l ++ k ∷ [])
  append_one-Distinct k [] d h = (refl, tt)
  append_one-Distinct k (j ∷ l) d h =
      ground
        (arith, append_one-Distinct k l, contains-append j l (k ∷ []), e.beq_iff k j, e.beq_iff j k)

  pub contains-move_to_end :
      (k j : K) (l : List K)
      → contains j (move_to_end k l) ≡ (if k == j then true else contains j l)
  contains-move_to_end k j l =
      ground (arith, contains-append j (remove k l) (k ∷ []), contains-remove k j l)

  pub move_to_end-Distinct : (k : K) (l : List K) → Distinct l → Distinct (move_to_end k l)
  move_to_end-Distinct k l d =
      append_one-Distinct k (remove k l) (remove-Distinct k l d)
        (ground (arith, contains-remove k k l, ==_refl k))
