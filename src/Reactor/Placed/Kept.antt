-- ===== src/Reactor/Placed/Kept.antt =====
-- Slots of py_kvcache/reactor.py that hold a preload of one request, under its hash.
use py_kvcache.Prelude.{
  ℕ, ◌+◌, ◌≡◌, refl, subst, sym, ap, Bool-cases, inl, inr, false, List, [], ◌∷◌, ◌++◌, Option, none,
  some, nat_eq, ◌==◌, arith,
}
use py_kvcache.Prelude.Int.{ℤ}
use py_kvcache.Prelude.Count.{count, count-append}
use py_kvcache.Prelude.Keys.{Distinct, add-Distinct, remove-Distinct}
use py_kvcache.Prelude.Dict.{
  Dict, keys, lookup_or, insert, delete, has, delete_absent, keys-insert, keys-delete,
}
use py_kvcache.Reactor.State.{PreloadInfo, LoadCopy, Slots}
use py_kvcache.Reactor.Places.{
  preload_cache_push, keep_slots, pop_slots, preload_cache_pop, evict_entry, evict_first,
}
use py_kvcache.Reactor.Placed.{IsPlaced, slots_in, private_slots}
use py_kvcache.Reactor.Placed.Pool.{with_slot, release_slot-IsPlaced}

slots_in-append :
    (j : ℕ) (l m : List (ℕ × PreloadInfo))
    → count j (slots_in (l ++ m)) ≡ count j (slots_in l) + count j (slots_in m)
slots_in-append j [] m = omega arith
slots_in-append j ((i, _) ∷ l) m = omega (arith, slots_in-append j l m)

private_slots-insert :
    (j h : ℕ) (l : List (ℕ × PreloadInfo)) (d : Dict ℕ (List (ℕ × PreloadInfo)))
    → count j (private_slots (insert h l d)) + count j (slots_in (lookup_or h [] d))
      ≡ count j (private_slots d) + count j (slots_in l)
private_slots-insert j h l [] = omega (arith, count-append j (slots_in l) [])
private_slots-insert j h l ((k, m) ∷ d) = ground (
  arith,
  private_slots-insert j h l d,
  count-append j (slots_in l) (private_slots d),
  count-append j (slots_in m) (private_slots d),
  count-append j (slots_in m) (private_slots (insert h l d)),
)

private_slots-delete :
    (j h : ℕ) (d : Dict ℕ (List (ℕ × PreloadInfo)))
    → Distinct (keys d)
    → count j (private_slots (delete h d)) + count j (slots_in (lookup_or h [] d))
      ≡ count j (private_slots d)
private_slots-delete j h [] once = omega arith
private_slots-delete j h ((k, m) ∷ d) once = elim (Bool-cases (k == h)) [
  | inl e ↦
      let absent : has h d ≡ false =
        subst (λ k. has k d ≡ false) ((nat_eq.beq_iff k h).0 e) once.0 in
      ground (
        arith,
        ap (λ (r : Dict ℕ (List (ℕ × PreloadInfo))). count j (private_slots r))
            (delete_absent h d absent),
        count-append j (slots_in m) (private_slots d),
      )
  | inr e ↦ ground (
    arith,
    private_slots-delete j h d once.1,
    count-append j (slots_in m) (private_slots (delete h d)),
    count-append j (slots_in m) (private_slots d),
  )
]

-- The preloads under a hash are replaced.
replaced :
    {total : ℕ} (s : Slots) (h : ℕ) (l : List (ℕ × PreloadInfo)) (hand hand' : List ℕ)
    (loads : List LoadCopy)
    → ((j : ℕ)
        → count j (slots_in l) + count j hand'
          ≡ count j (slots_in (lookup_or h [] s.preload_slots)) + count j hand)
    → IsPlaced total s hand loads
    → IsPlaced total (record s { preload_slots = insert h l s.preload_slots }) hand' loads
replaced s h l hand hand' loads moved v = record {
  is_open = v.is_open;
  size = v.size;
  valid = v.valid;
  once = λ j. omega (arith, v.once j, moved j, private_slots-insert j h l s.preload_slots);
  private_keys =
      subst Distinct (sym (keys-insert h l s.preload_slots))
        (add-Distinct h (keys s.preload_slots) v.private_keys);
  op_keys = v.op_keys;
  fresh = v.fresh;
  shared_keys = v.shared_keys;
  shared_ok = v.shared_ok;
  copies_ok = v.copies_ok;
  pins_ok = v.pins_ok;
}

-- The total is a count of its own, which says nothing of places.
recounted :
    {total : ℕ} (s : Slots) {t : ℤ} {hand : List ℕ} {loads : List LoadCopy}
    → IsPlaced total s hand loads
    → IsPlaced total (record s { cached_total = t }) hand loads
recounted s v = record {
  is_open = v.is_open;
  size = v.size;
  valid = v.valid;
  once = v.once;
  private_keys = v.private_keys;
  op_keys = v.op_keys;
  fresh = v.fresh;
  shared_keys = v.shared_keys;
  shared_ok = v.shared_ok;
  copies_ok = v.copies_ok;
  pins_ok = v.pins_ok;
}

pub preload_cache_push-IsPlaced :
    {total : ℕ} (s : Slots) (h i : ℕ) (info : PreloadInfo) (hand : List ℕ) (loads : List LoadCopy)
    → IsPlaced total s (i ∷ hand) loads
    → IsPlaced total (preload_cache_push s h i info) hand loads
unfolding preload_cache_push
preload_cache_push-IsPlaced s h i info hand loads v =
    let old = lookup_or h [] s.preload_slots in
    recounted _ (
      replaced s h (old ++ (i, info) ∷ []) (i ∷ hand) hand loads
        (λ j. omega (arith, slots_in-append j old ((i, info) ∷ []))) v)

keep_slots-IsPlaced :
    {total : ℕ} (s : Slots) (h : ℕ) (e : ℕ × PreloadInfo) (rest : List (ℕ × PreloadInfo))
    (hand : List ℕ) (loads : List LoadCopy)
    → lookup_or h [] s.preload_slots ≡ e ∷ rest
    → IsPlaced total s hand loads
    → IsPlaced total (keep_slots h rest s) (e.0 ∷ hand) loads
unfolding keep_slots
keep_slots-IsPlaced s h (i, info) [] hand loads found v =
    recounted (record s { preload_slots = delete h s.preload_slots })
      (record {
        is_open = v.is_open;
        size = v.size;
        valid = v.valid;
        once = λ j. omega (
          arith,
          v.once j,
          ap (λ (l : List (ℕ × PreloadInfo)). count j (slots_in l)) found,
          private_slots-delete j h s.preload_slots v.private_keys,
        );
        private_keys =
            subst Distinct (sym (keys-delete h s.preload_slots))
              (remove-Distinct h (keys s.preload_slots) v.private_keys);
        op_keys = v.op_keys;
        fresh = v.fresh;
        shared_keys = v.shared_keys;
        shared_ok = v.shared_ok;
        copies_ok = v.copies_ok;
        pins_ok = v.pins_ok;
      })
keep_slots-IsPlaced s h (i, info) (e ∷ rest) hand loads found v = recounted _ (
    replaced s h (e ∷ rest) hand (i ∷ hand) loads
      (λ j. omega (arith, ap (λ (l : List (ℕ × PreloadInfo)). count j (slots_in l)) found)) v)

-- The slot of an entry that was popped.
abbrev pub popped : Option (ℕ × PreloadInfo) → Option ℕ
popped none = none
popped (some (i, _)) = some i

pop_slots-IsPlaced :
    {total : ℕ} (s : Slots) (h : ℕ) (l : List (ℕ × PreloadInfo)) (hand : List ℕ)
    (loads : List LoadCopy)
    → lookup_or h [] s.preload_slots ≡ l
    → IsPlaced total s hand loads
    → IsPlaced total (pop_slots h l s).0 (with_slot (popped (pop_slots h l s).1) hand) loads
unfolding pop_slots
pop_slots-IsPlaced s h [] hand loads found v = v
pop_slots-IsPlaced s h (e ∷ rest) hand loads found v =
    keep_slots-IsPlaced s h e rest hand loads found v

pub preload_cache_pop-IsPlaced :
    {total : ℕ} (s : Slots) (h : ℕ) (hand : List ℕ) (loads : List LoadCopy)
    → IsPlaced total s hand loads
    → IsPlaced total
        (preload_cache_pop s h).0
        (with_slot (popped (preload_cache_pop s h).1) hand)
        loads
unfolding preload_cache_pop
preload_cache_pop-IsPlaced s h hand loads v =
    pop_slots-IsPlaced s h (lookup_or h [] s.preload_slots) hand loads refl v

evict_entry-IsPlaced :
    {total : ℕ} (r : Slots × Option (ℕ × PreloadInfo)) (hand : List ℕ) (loads : List LoadCopy)
    → IsPlaced total r.0 (with_slot (popped r.1) hand) loads
    → IsPlaced total (evict_entry r).0 hand loads
unfolding evict_entry
evict_entry-IsPlaced (s, none) hand loads v = v
evict_entry-IsPlaced (s, some (i, _)) hand loads v = release_slot-IsPlaced s i hand loads v

pub evict_first-IsPlaced :
    {total : ℕ} (s : Slots) (d : Dict ℕ (List (ℕ × PreloadInfo))) (hand : List ℕ)
    (loads : List LoadCopy)
    → IsPlaced total s hand loads
    → IsPlaced total (evict_first s d).0 hand loads
unfolding evict_first
evict_first-IsPlaced s [] hand loads v = v
evict_first-IsPlaced s ((h, _) ∷ _) hand loads v =
    evict_entry-IsPlaced (preload_cache_pop s h) hand loads
      (preload_cache_pop-IsPlaced s h hand loads v)
