-- ===== src/StagingCache/Pins.antt =====
-- The pins of a slot in `StagingDataCache` (py_kvcache/staging_cache.py), by its hash and index: only `pin` and
-- `unpin` change them, since a slot that is pinned is not evicted, and a new one has none.
use mathlib.Core.Option.{some-injective}
use py_kvcache.Prelude.{
  ℕ, zero, suc, List, ◌+◌, ◌≡◌, refl, ap, sym, ◌∙◌, Bool-cases, inl, inr, false, [], ◌∷◌, Option,
  none, some, nat_eq, nat_beq, nat_beq_iff, subst, if◌then◌else◌, arith,
}
use py_kvcache.Prelude.Int.{ℤ, pos, inc, dec, is_positive}
use py_kvcache.Prelude.Dict.{Dict, lookup, has, lookup-insert, lookup-delete, has_not-lookup}
use py_kvcache.StagingCache.{
  StagingDataCache, CacheSlot, drop_slot, evict_one, retain, put, set_copies, pin, unpin,
}
use py_kvcache.StagingCache.Eviction.{Outcome, evict_one-Outcome}
use py_kvcache.StagingCache.Residency.{
  Stored, given_back, stored, replaced, put-Stored, Outcome-has,
}

abbrev pub pins_in : ℕ → Option CacheSlot → ℤ
pins_in i none = pos 0
pins_in i (some slot) = if nat_beq slot.slot_index i then slot.copies_inflight else pos 0

-- How often the slot with an index is pinned under a hash: not at all if it is not there.
abbrev pub pins : ℕ → ℕ → StagingDataCache → ℤ
pins h i c = pins_in i (lookup h c.slots)

-- Whether two hashes and two indices agree, as a number.
abbrev pub same_pin : ℕ → ℕ → ℕ → ℕ → ℕ
same_pin h j k i = if nat_beq h j then (if nat_beq k i then 1 else 0) else 0

abbrev with_copies : (ℤ → ℤ) → Option CacheSlot → Option CacheSlot
with_copies f none = none
with_copies f (some slot) = some (record slot { copies_inflight = f slot.copies_inflight })

lookup-set_copies :
    (f : ℤ → ℤ) (h j : ℕ) (d : Dict ℕ CacheSlot)
    → lookup j (set_copies f h d) ≡ (if nat_beq h j then with_copies f (lookup j d) else lookup j d)
unfolding set_copies
lookup-set_copies f h j [] = ground arith
lookup-set_copies f h j ((k, slot) ∷ d) =
    ground (arith, lookup-set_copies f h j d, nat_beq_iff k h, nat_beq_iff k j, nat_beq_iff h j)

inc_pos : (z : ℤ) (n : ℕ) → z ≡ pos n → inc z ≡ pos (n + 1)
inc_pos z n e = ap inc e ∙ ap pos (omega arith)

dec_pos : (z : ℤ) (n : ℕ) → z ≡ pos (n + 1) → dec z ≡ pos n
dec_pos z n e = let one : n + 1 ≡ suc n = omega arith in ap dec (e ∙ ap pos one)

pub pos_lost : (n : ℕ) {A : Type 0} → pos 0 ≡ pos (n + 1) → A
pos_lost n e = let one : n + 1 ≡ suc n = omega arith in cc (ap is_positive (e ∙ ap pos one))

pins_in-inc :
    (o : Option CacheSlot) (slot : CacheSlot) (i n : ℕ)
    → o ≡ some slot
    → pins_in i o ≡ pos n
    → pins_in i (with_copies inc o) ≡ pos (n + (if nat_beq slot.slot_index i then 1 else 0))
pins_in-inc none slot i n there e = cc
pins_in-inc (some s) slot i n there e =
    let same : nat_beq s.slot_index i ≡ nat_beq slot.slot_index i =
      ap (λ (t : CacheSlot). nat_beq t.slot_index i) (some-injective s slot there) in
    elim (Bool-cases (nat_beq s.slot_index i)) [
      | inl here ↦ rw (sym same, here) (inc_pos s.copies_inflight n (rw here at e))
      | inr other ↦ rw (sym same, other) ((rw other at e) ∙ ap pos (omega arith))
    ]

-- `pin` of a hash that is cached adds a pin to its slot, and to no other.
pub pins-pin :
    (c : StagingDataCache) (h j i n : ℕ) (slot : CacheSlot)
    → lookup h c.slots ≡ some slot
    → pins j i c ≡ pos n
    → pins j i (pin c h) ≡ pos (n + same_pin h j slot.slot_index i)
unfolding pin
pins-pin c h j i n slot there e = elim (Bool-cases (nat_beq h j)) [
  | inl same ↦
      let here : lookup j c.slots ≡ some slot =
        subst (λ k. lookup k c.slots ≡ some slot) ((nat_beq_iff h j).0 same) there in
      rw (lookup-set_copies inc h j c.slots, same) (pins_in-inc (lookup j c.slots) slot i n here e)
  | inr apart ↦ rw (lookup-set_copies inc h j c.slots, apart) (e ∙ ap pos (omega arith))
]

pins_in-dec :
    (o : Option CacheSlot) (k i m n : ℕ)
    → pins_in k o ≡ pos (m + 1)
    → pins_in i o ≡ pos (n + (if nat_beq k i then 1 else 0))
    → pins_in i (with_copies dec o) ≡ pos n
pins_in-dec none k i m n at e = pos_lost m at
pins_in-dec (some s) k i m n at e = elim (Bool-cases (nat_beq s.slot_index k)) [
  | inr other ↦ pos_lost m (rw other at at)
  | inl here ↦
      let named : s.slot_index ≡ k = (nat_beq_iff s.slot_index k).0 here in
      let same : nat_beq s.slot_index i ≡ nat_beq k i = ap (λ t. nat_beq t i) named in
      elim (Bool-cases (nat_beq k i)) [
        | inl it ↦ rw (same, it) (dec_pos s.copies_inflight n (rw (same, it) at e))
        | inr away ↦ rw (same, away) ((rw (same, away) at e) ∙ ap pos (omega arith))
      ]
]

-- `unpin` of a hash takes a pin from its slot, where that has one, and from no other.
pub pins-unpin :
    (c : StagingDataCache) (h k j i m n : ℕ)
    → pins h k c ≡ pos (m + 1)
    → pins j i c ≡ pos (n + same_pin h j k i)
    → pins j i (unpin c h) ≡ pos n
unfolding unpin
pins-unpin c h k j i m n at e = elim (Bool-cases (nat_beq h j)) [
  | inl same ↦
      let here : pins j k c ≡ pos (m + 1) =
        subst (λ t. pins t k c ≡ pos (m + 1)) ((nat_beq_iff h j).0 same) at in
      rw (lookup-set_copies dec h j c.slots, same)
        (pins_in-dec (lookup j c.slots) k i m n here (rw same at e))
  | inr apart ↦
      rw (lookup-set_copies dec h j c.slots, apart) ((rw apart at e) ∙ ap pos (omega arith))
]

free_none :
    (slot : CacheSlot) (i n : ℕ)
    → is_positive slot.copies_inflight ≡ false
    → pins_in i (some slot) ≡ pos n
    → pos 0 ≡ pos n
free_none slot i zero free e = refl
free_none slot i (suc n) free e = elim (Bool-cases (nat_beq slot.slot_index i)) [
  | inl here ↦ cc (sym (ap is_positive (rw here at e)) ∙ free)
  | inr other ↦ rw other at e
]

Outcome-pins :
    (c : StagingDataCache) (r : StagingDataCache × Option ℕ) (h i n : ℕ) {hashes : List ℕ}
    → Outcome c hashes r
    → pins h i c ≡ pos n
    → pins h i r.0 ≡ pos n
unfolding drop_slot
Outcome-pins c r h i n (inl (_, unchanged)) e = rw unchanged e
Outcome-pins c r h i n (inr (v, dropped)) e = rw dropped (elim (Bool-cases (nat_beq v.hash h)) [
  | inl same ↦
      let there : lookup h c.slots ≡ some v.slot =
        subst (λ k. lookup k c.slots ≡ some v.slot) ((nat_beq_iff v.hash h).0 same) v.is_cached in
      rw (lookup-delete v.hash h c.slots, same)
        (free_none v.slot i n v.is_free (sym (ap (pins_in i) there) ∙ e))
  | inr apart ↦ rw (lookup-delete v.hash h c.slots, apart) e
])

-- `evict_one` changes no pins.
pub pins-evict_one :
    (c : StagingDataCache) (h i n : ℕ) → pins h i c ≡ pos n → pins h i (evict_one c).0 ≡ pos n
pins-evict_one c h i n e = Outcome-pins c (evict_one c) h i n (evict_one-Outcome c) e

none_new :
    (slot : CacheSlot) (i n : ℕ)
    → slot.copies_inflight ≡ pos 0
    → pos 0 ≡ pos n
    → pins_in i (some slot) ≡ pos n
none_new slot i n new e = elim (Bool-cases (nat_beq slot.slot_index i)) [
  | inl here ↦ rw here (new ∙ e)
  | inr other ↦ rw other e
]

pins-retain :
    (c : StagingDataCache) (h k j i n : ℕ)
    → has h c.slots ≡ false
    → pins j i c ≡ pos n
    → pins j i (retain c h k) ≡ pos n
unfolding retain
pins-retain c h k j i n new e =
    let slot : CacheSlot = record { block_hash = h; slot_index = k; copies_inflight = pos 0 } in
    elim (Bool-cases (nat_beq h j)) [
      | inl same ↦
          let absent : lookup j c.slots ≡ none =
            subst (λ t. lookup t c.slots ≡ none) ((nat_beq_iff h j).0 same)
              (has_not-lookup h c.slots new) in
          rw (lookup-insert h j slot c.slots, same)
            (none_new slot i n refl (sym (ap (pins_in i) absent) ∙ e))
      | inr apart ↦ rw (lookup-insert h j slot c.slots, apart) e
    ]

Stored-pins :
    {c : StagingDataCache} {h k : ℕ} {r : StagingDataCache × Option ℕ} (j i n : ℕ)
    → Stored c h k r
    → pins j i c ≡ pos n
    → pins j i r.0 ≡ pos n
Stored-pins j i n (given_back _) e = e
Stored-pins {c} {h} {k} j i n (stored _ new _) e = pins-retain c h k j i n new e
Stored-pins {c} {h} {k} j i n (replaced _ new _) e =
    pins-retain (evict_one c).0 h k j i n (Outcome-has h (evict_one-Outcome c) new)
      (pins-evict_one c j i n e)

-- `put` changes no pins.
pub pins-put :
    (c : StagingDataCache) (h k j i n : ℕ) → pins j i c ≡ pos n → pins j i (put c h k).0 ≡ pos n
pins-put c h k j i n e = Stored-pins j i n (put-Stored c h k) e
