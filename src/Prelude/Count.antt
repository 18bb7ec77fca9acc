-- ===== src/Prelude/Count.antt =====
-- How often a number stands in a list, and the removal of one occurrence.
use Prim.Native.Nat.{ℕ, ◌+◌, ◌<◌, max}
use mathlib.Core.Path.{◌≡◌}
use mathlib.Core.Bool.{true, false}
use mathlib.Core.List.{List, [], ◌∷◌, ◌++◌}
use native.Mathlib.Omega.{arith}
use py_kvcache.Prelude.Tests.{nat_beq, nat_eq, if◌then◌else◌}
use py_kvcache.Prelude.Lists.{length}
use py_kvcache.Prelude.Keys.{contains, remove, add, move_to_end}

abbrev pub count : ℕ → List ℕ → ℕ
count i [] = 0
count i (j ∷ l) = (if nat_beq j i then 1 else 0) + count i l

abbrev pub take_out : ℕ → List ℕ → List ℕ
take_out i [] = []
take_out i (j ∷ l) = if nat_beq j i then l else j ∷ take_out i l

pub count-append : (i : ℕ) (l m : List ℕ) → count i (l ++ m) ≡ count i l + count i m
count-append i [] m = omega arith
count-append i (j ∷ l) m = omega (arith, count-append i l m)

pub count-take_out :
    (i j : ℕ) (l : List ℕ)
    → contains i l ≡ true
    → count j (take_out i l) + (if nat_beq i j then 1 else 0) ≡ count j l
count-take_out i j [] h = cc
count-take_out i j (k ∷ l) h = ground (arith, count-take_out i j l)

pub length-take_out :
    (i : ℕ) (l : List ℕ) → contains i l ≡ true → length (take_out i l) + 1 ≡ length l
length-take_out i [] h = cc
length-take_out i (k ∷ l) h = ground (arith, length-take_out i l)

pub contains-count : (i : ℕ) (l : List ℕ) → contains i l ≡ true → 0 < count i l
contains-count i [] h = cc
contains-count i (j ∷ l) h = ground (arith, contains-count i l)

pub count-contains : (i : ℕ) (l : List ℕ) → 0 < count i l → contains i l ≡ true
count-contains i [] h = absurd (omega arith)
count-contains i (j ∷ l) h = ground (arith, count-contains i l)

pub count-remove :
    (k j : ℕ) (l : List ℕ) → count j (remove k l) ≡ (if nat_beq k j then 0 else count j l)
count-remove k j [] = ground arith
count-remove k j (i ∷ l) = ground (arith, count-remove k j l)

pub count-add :
    (k j : ℕ) (l : List ℕ)
    → count j (add k l) ≡ (if nat_beq k j then max 1 (count j l) else count j l)
count-add k j [] = ground arith
count-add k j (i ∷ l) = ground (arith, count-add k j l)

pub count-move_to_end :
    (k j : ℕ) (l : List ℕ) → count j (move_to_end k l) ≡ (if nat_beq k j then 1 else count j l)
count-move_to_end k j l = ground (arith, count-append j (remove k l) (k ∷ []), count-remove k j l)

pub absent-count : (k : ℕ) (l : List ℕ) → contains k l ≡ false → count k l ≡ 0
absent-count k l h = ground (arith, count-contains k l)

pub present-count : (k : ℕ) (l : List ℕ) → contains k l ≡ true → 0 < count k l
present-count k l h = contains-count k l h
