-- ===== src/Reactor/Placed/Heap.antt =====
-- The heap of shared slots in py_kvcache/reactor.py when one entry changes or one is added.
use py_kvcache.Prelude.{
  ℕ, zero, suc, ◌+◌, ◌≡◌, refl, ap, false, List, [], ◌∷◌, ◌++◌, none, some, get_elem?, modify,
  length, nat_beq, arith,
}
use mathlib.Core.Option.{some-injective}
use py_kvcache.Prelude.Int.{pos}
use py_kvcache.Prelude.Count.{count}
use py_kvcache.Reactor.State.{SharedSlot}
use py_kvcache.Reactor.Placed.{live_slots, readers}

-- The slot of one entry, if it is live.
abbrev pub live : ℕ → SharedSlot → ℕ
live j x = count j (live_slots (x ∷ []))

pub live_slots-modify :
    (j : ℕ) (f : SharedSlot → SharedSlot) (handle : ℕ) (x : SharedSlot) (heap : List SharedSlot)
    → get_elem? heap handle ≡ some x
    → count j (live_slots (modify f handle heap)) + live j x
      ≡ count j (live_slots heap) + live j (f x)
live_slots-modify j f handle x [] e = cc
live_slots-modify j f zero x (y ∷ heap) e =
    let same : y ≡ x = some-injective y x e in
    ground (arith, ap (live j) same, ap (λ z. live j (f z)) same)
live_slots-modify j f (suc i) x (y ∷ heap) e = ground (arith, live_slots-modify j f i x heap e)

pub live_slots-append :
    (j : ℕ) (heap : List SharedSlot) (x : SharedSlot)
    → count j (live_slots (heap ++ x ∷ [])) ≡ count j (live_slots heap) + live j x
live_slots-append j [] x = omega arith
live_slots-append j (y ∷ heap) x = ground (arith, live_slots-append j heap x)

pub modify_at :
    (f : SharedSlot → SharedSlot) (i : ℕ) (x : SharedSlot) (heap : List SharedSlot)
    → get_elem? heap i ≡ some x
    → get_elem? (modify f i heap) i ≡ some (f x)
modify_at f i x [] e = cc
modify_at f zero x (y ∷ heap) e = cc
modify_at f (suc i) x (y ∷ heap) e = modify_at f i x heap e

pub modify_away :
    (f : SharedSlot → SharedSlot) (i k : ℕ) (heap : List SharedSlot)
    → nat_beq i k ≡ false
    → get_elem? (modify f i heap) k ≡ get_elem? heap k
modify_away f i k [] e = refl
modify_away f zero zero (y ∷ heap) e = cc
modify_away f zero (suc k) (y ∷ heap) e = refl
modify_away f (suc i) zero (y ∷ heap) e = refl
modify_away f (suc i) (suc k) (y ∷ heap) e = modify_away f i k heap (ground arith)

pub modify_outside :
    (f : SharedSlot → SharedSlot) (i : ℕ) (heap : List SharedSlot)
    → get_elem? heap i ≡ none
    → modify f i heap ≡ heap
modify_outside f i [] e = refl
modify_outside f zero (y ∷ heap) e = cc
modify_outside f (suc i) (y ∷ heap) e = ap (λ t. y ∷ t) (modify_outside f i heap e)

pub get_elem?-append :
    (heap : List SharedSlot) (x y : SharedSlot) (i : ℕ)
    → get_elem? heap i ≡ some y
    → get_elem? (heap ++ x ∷ []) i ≡ some y
get_elem?-append [] x y i e = cc
get_elem?-append (z ∷ heap) x y zero e = e
get_elem?-append (z ∷ heap) x y (suc i) e = get_elem?-append heap x y i e

pub get_elem?_last :
    (heap : List SharedSlot) (x : SharedSlot) → get_elem? (heap ++ x ∷ []) (length heap) ≡ some x
get_elem?_last [] x = refl
get_elem?_last (y ∷ heap) x = get_elem?_last heap x

-- No copy reads a new entry.
pub readers-append :
    (heap : List SharedSlot) (x : SharedSlot) (i : ℕ)
    → x.copies_inflight ≡ pos 0
    → readers (heap ++ x ∷ []) i ≡ readers heap i
readers-append [] x zero e = e
readers-append [] x (suc i) e = refl
readers-append (y ∷ heap) x zero e = refl
readers-append (y ∷ heap) x (suc i) e = readers-append heap x i e
