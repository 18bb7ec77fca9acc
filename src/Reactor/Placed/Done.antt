-- ===== src/Reactor/Placed/Done.antt =====
-- Slots of py_kvcache/reactor.py when a copy or a write has ended.
use mathlib.Core.Option.{some-injective}
use py_kvcache.Prelude.{
  ℕ, zero, suc, ◌+◌, ◌≡◌, refl, ap, ◌∙◌, Bool-cases, Option-cases, inl, inr, Bool, false, List, [],
  ◌∷◌, ◌++◌, Option, none, some, nat_eq, ◌==◌, get_elem?, ltb, if◌then◌else◌, arith,
}
use py_kvcache.Prelude.Int.{ℤ, pos}
use py_kvcache.Prelude.Count.{count, count-append}
use py_kvcache.Prelude.Dict.{lookup_or}
use py_kvcache.Reactor.State.{
  Failure, copy_failed, write_failed, queue_failed, LoadCopy, CopyOp, store_copy, load_batch,
  write_store, Slots, Reactor,
}
use py_kvcache.Reactor.Jobs.{World, hash_of, new_user_data}
use py_kvcache.Reactor.Complete.{
  release_store_inflight, store_failed, data_done, is_whole, on_write, on_store_copy_done,
  settle_all, on_copy_done, without, drain_copy, mapping_total, flush_copy_batch,
}
use py_kvcache.Reactor.Placed.{
  IsPlaced, copied_slots, reads, pending_slots, all_pending, pending_reads, pinned, pending_pinned,
}
use py_kvcache.Reactor.Placed.Pool.{release_or_cache-IsPlaced}
use py_kvcache.Reactor.Placed.Copies.{settle_load_slot-IsPlaced}
use py_kvcache.Reactor.Placed.Submit.{new_user_data-IsPlaced, submitted-IsPlaced}
use py_kvcache.Reactor.Placed.Queue.{give_up-IsPlaced}

pub release_store_inflight-slots :
    (r : Reactor) (h : ℕ) (written : Bool) → (release_store_inflight r h written).slots ≡ r.slots
unfolding release_store_inflight
release_store_inflight-slots r h written =
    elim (Bool-cases (ltb 1 (lookup_or h 0 r.demand.store_inflight))) [
      | inl e ↦ simp e refl
      | inr e ↦ simp e refl
    ]

pub store_failed-IsPlaced :
    {total : ℕ} (e : Failure) (r : Reactor) (job file_index slot : ℕ) (hand : List ℕ)
    (loads : List LoadCopy)
    → IsPlaced total r.slots (slot ∷ hand) loads
    → IsPlaced total (store_failed e r job file_index slot).slots hand loads
unfolding store_failed
store_failed-IsPlaced e r job file_index slot hand loads v =
    rw release_store_inflight-slots (give_up-IsPlaced e r job slot hand loads v)

pub on_write-IsPlaced :
    {total : ℕ} (finishes : Bool) (r : Reactor) (job file_index slot : ℕ) (result : ℤ)
    (hand : List ℕ) (loads : List LoadCopy)
    → IsPlaced total r.slots (slot ∷ hand) loads
    → IsPlaced total (on_write finishes r job file_index slot result).slots hand loads
unfolding on_write
on_write-IsPlaced finishes r job file_index slot result hand loads v =
    elim (Bool-cases (if is_whole r result then finishes else false)) [
      | inl e ↦
          rw (e, release_store_inflight-slots)
            (release_or_cache-IsPlaced r.slots (hash_of r.jobs job file_index) slot hand loads v)
      | inr e ↦ rw e (store_failed-IsPlaced write_failed r job file_index slot hand loads v)
    ]

pub on_store_copy_done-IsPlaced :
    {total : ℕ} (w : World) (temp : Option ℕ) (r : Reactor) (job file_index slot : ℕ)
    (hand : List ℕ) (loads : List LoadCopy)
    → IsPlaced total r.slots (slot ∷ hand) loads
    → IsPlaced total (on_store_copy_done w temp r job file_index slot).slots hand loads
unfolding on_store_copy_done data_done
on_store_copy_done-IsPlaced w none r job file_index slot hand loads v =
    store_failed-IsPlaced write_failed (data_done r) job file_index slot hand loads v
on_store_copy_done-IsPlaced w (some fd) r job file_index slot hand loads v =
    let r' = new_user_data r in
    elim (Bool-cases (w.takes r'.slots.next_user_data)) [
      | inl e ↦ rw e (submitted-IsPlaced r (write_store job file_index slot fd) hand loads v)
      | inr e ↦ rw e (
          store_failed-IsPlaced queue_failed (data_done r') job file_index slot hand loads
            (new_user_data-IsPlaced r (slot ∷ hand) loads v))
    ]

pub settle_all-IsPlaced :
    {total : ℕ} (result : Option Failure) (copies : List LoadCopy) (r : Reactor) (hand : List ℕ)
    → IsPlaced total r.slots hand copies
    → IsPlaced total (settle_all result copies r).slots hand []
unfolding settle_all
settle_all-IsPlaced result [] r hand v = v
settle_all-IsPlaced result (c ∷ copies) r hand v = settle_all-IsPlaced result copies _ hand (
    settle_load_slot-IsPlaced r.slots c (hash_of r.jobs c.job c.file_index) c.keeper hand copies
      refl v)

pub all_pending-append :
    (j : ℕ) (l m : List CopyOp)
    → count j (all_pending (l ++ m)) ≡ count j (all_pending l) + count j (all_pending m)
all_pending-append j [] m = omega arith
all_pending-append j (c ∷ l) m = omega (
  arith,
  all_pending-append j l m,
  count-append j (pending_slots c) (all_pending l),
  count-append j (pending_slots c) (all_pending (l ++ m)),
)

pub pending_reads-append :
    (k : ℕ) (l m : List CopyOp) → pending_reads k (l ++ m) ≡ pending_reads k l + pending_reads k m
pending_reads-append k [] m = omega arith
pending_reads-append k (store_copy _ _ _ ∷ l) m = pending_reads-append k l m
pending_reads-append k (load_batch copies ∷ l) m = omega (arith, pending_reads-append k l m)

pub pending_pinned-append :
    (h i : ℕ) (l m : List CopyOp)
    → pending_pinned h i (l ++ m) ≡ pending_pinned h i l + pending_pinned h i m
pending_pinned-append h i [] m = omega arith
pending_pinned-append h i (store_copy _ _ _ ∷ l) m = pending_pinned-append h i l m
pending_pinned-append h i (load_batch copies ∷ l) m = omega (arith, pending_pinned-append h i l m)

-- The copies that are ready come into the hand, or are launched.
ready_taken :
    {total : ℕ} (s : Slots) (hand : List ℕ)
    → IsPlaced total s hand []
    → IsPlaced total (record s { copy_ready = [] }) hand s.copy_ready
ready_taken s hand v = record {
  is_open = v.is_open;
  size = v.size;
  valid = v.valid;
  once = λ j. omega (arith, v.once j);
  private_keys = v.private_keys;
  op_keys = v.op_keys;
  fresh = v.fresh;
  shared_keys = v.shared_keys;
  shared_ok = v.shared_ok;
  copies_ok = λ k. v.copies_ok k ∙ ap pos (omega arith);
  pins_ok = λ h i. v.pins_ok h i ∙ ap pos (omega arith);
}

launched-IsPlaced :
    {total : ℕ} (s : Slots) (hand : List ℕ)
    → IsPlaced total s hand []
    → IsPlaced total
        (record s {
          copy_ready = [];
          pending_copies = s.pending_copies ++ load_batch s.copy_ready ∷ [];
        })
        hand
        []
launched-IsPlaced s hand v = record {
  is_open = v.is_open;
  size = v.size;
  valid = v.valid;
  once = λ j. omega (
    arith,
    v.once j,
    all_pending-append j s.pending_copies (load_batch s.copy_ready ∷ []),
    count-append j (copied_slots s.copy_ready) [],
  );
  private_keys = v.private_keys;
  op_keys = v.op_keys;
  fresh = v.fresh;
  shared_keys = v.shared_keys;
  shared_ok = v.shared_ok;
  copies_ok = λ k.
      v.copies_ok k
      ∙ ap pos
          (omega (arith, pending_reads-append k s.pending_copies (load_batch s.copy_ready ∷ [])));
  pins_ok = λ h i.
      v.pins_ok h i
      ∙ ap pos (
          omega (arith, pending_pinned-append h i s.pending_copies (load_batch s.copy_ready ∷ [])));
}

pub flush_copy_batch-IsPlaced :
    {total : ℕ} (launched : Bool) (r : Reactor) (hand : List ℕ)
    → IsPlaced total r.slots hand []
    → IsPlaced total (flush_copy_batch launched r).slots hand []
unfolding flush_copy_batch
flush_copy_batch-IsPlaced launched r hand v =
    let taken = record r { slots = record (r.slots) { copy_ready = [] } } in
    let settled = λ (result : Option Failure).
      settle_all-IsPlaced result r.slots.copy_ready taken hand (ready_taken r.slots hand v) in
    elim (Bool-cases (mapping_total r.slots.copy_ready == 0)) [
      | inl e ↦ simp e (settled none)
      | inr e ↦ elim (Bool-cases launched) [
        | inl l ↦ simp (e, l) (launched-IsPlaced r.slots hand v)
        | inr l ↦ simp (e, l) (settled (some copy_failed))
      ]
    ]

-- A launched copy that has ended comes into the hand.
all_pending-without :
    (j i : ℕ) (l : List CopyOp) (c : CopyOp)
    → get_elem? l i ≡ some c
    → count j (all_pending (without i l)) + count j (pending_slots c) ≡ count j (all_pending l)
all_pending-without j i [] c e = cc
all_pending-without j zero (x ∷ l) c e = omega (
  arith,
  ap (λ (c : CopyOp). count j (pending_slots c)) (some-injective x c e),
  count-append j (pending_slots x) (all_pending l),
)
all_pending-without j (suc i) (x ∷ l) c e = omega (
  arith,
  all_pending-without j i l c e,
  count-append j (pending_slots x) (all_pending l),
  count-append j (pending_slots x) (all_pending (without i l)),
)

-- The copies of a batch.
abbrev pub batch : CopyOp → List LoadCopy
batch (store_copy _ _ _) = []
batch (load_batch copies) = copies

-- The slot of a store.
abbrev pub stored_slot : CopyOp → List ℕ
stored_slot (store_copy _ _ slot) = slot ∷ []
stored_slot (load_batch _) = []

pending_reads-without :
    (k i : ℕ) (l : List CopyOp) (c : CopyOp)
    → get_elem? l i ≡ some c
    → pending_reads k (without i l) + reads k (batch c) ≡ pending_reads k l
pending_reads-without k i [] c e = cc
pending_reads-without k zero (store_copy job file_index slot ∷ l) c e = omega (
  arith,
  ap (λ (c : CopyOp). reads k (batch c)) (some-injective (store_copy job file_index slot) c e),
)
pending_reads-without k zero (load_batch copies ∷ l) c e =
    omega (arith, ap (λ (c : CopyOp). reads k (batch c)) (some-injective (load_batch copies) c e))
pending_reads-without k (suc i) (store_copy _ _ _ ∷ l) c e = pending_reads-without k i l c e
pending_reads-without k (suc i) (load_batch copies ∷ l) c e =
    omega (arith, pending_reads-without k i l c e)

pending_pinned-without :
    (h j i : ℕ) (l : List CopyOp) (c : CopyOp)
    → get_elem? l i ≡ some c
    → pending_pinned h j (without i l) + pinned h j (batch c) ≡ pending_pinned h j l
pending_pinned-without h j i [] c e = cc
pending_pinned-without h j zero (store_copy job file_index slot ∷ l) c e = omega (
  arith,
  ap (λ (c : CopyOp). pinned h j (batch c)) (some-injective (store_copy job file_index slot) c e),
)
pending_pinned-without h j zero (load_batch copies ∷ l) c e =
    omega
      (arith, ap (λ (c : CopyOp). pinned h j (batch c)) (some-injective (load_batch copies) c e))
pending_pinned-without h j (suc i) (store_copy _ _ _ ∷ l) c e = pending_pinned-without h j i l c e
pending_pinned-without h j (suc i) (load_batch copies ∷ l) c e =
    omega (arith, pending_pinned-without h j i l c e)

pending_slots-split :
    (j : ℕ) (c : CopyOp)
    → count j (pending_slots c) ≡ count j (stored_slot c) + count j (copied_slots (batch c))
pending_slots-split j (store_copy _ _ _) = omega arith
pending_slots-split j (load_batch copies) = omega arith

ended-IsPlaced :
    {total : ℕ} (s : Slots) (i : ℕ) (c : CopyOp)
    → get_elem? s.pending_copies i ≡ some c
    → IsPlaced total s [] []
    → IsPlaced total
        (record s { pending_copies = without i s.pending_copies })
        (stored_slot c)
        (batch c)
ended-IsPlaced s i c at v = record {
  is_open = v.is_open;
  size = v.size;
  valid = v.valid;
  once = λ j.
      omega
        (arith, v.once j, all_pending-without j i s.pending_copies c at, pending_slots-split j c);
  private_keys = v.private_keys;
  op_keys = v.op_keys;
  fresh = v.fresh;
  shared_keys = v.shared_keys;
  shared_ok = v.shared_ok;
  copies_ok =
      λ k. v.copies_ok k ∙ ap pos (omega (arith, pending_reads-without k i s.pending_copies c at));
  pins_ok = λ h j.
      v.pins_ok h j ∙ ap pos (omega (arith, pending_pinned-without h j i s.pending_copies c at));
}

on_copy_done-IsPlaced :
    {total : ℕ} (w : World) (temp : Option ℕ) (r : Reactor) (c : CopyOp)
    → IsPlaced total r.slots (stored_slot c) (batch c)
    → IsPlaced total (on_copy_done w temp r c).slots [] []
unfolding on_copy_done
on_copy_done-IsPlaced w temp r (store_copy job file_index slot) v =
    on_store_copy_done-IsPlaced w temp r job file_index slot [] [] v
on_copy_done-IsPlaced w temp r (load_batch copies) v = settle_all-IsPlaced none copies r [] v

pub drain_copy-IsPlaced :
    {total : ℕ} (w : World) (temp : Option ℕ) (r : Reactor) (i : ℕ)
    → IsPlaced total r.slots [] []
    → IsPlaced total (drain_copy w temp r i).slots [] []
unfolding drain_copy
drain_copy-IsPlaced w temp r i v = elim (Option-cases (get_elem? r.slots.pending_copies i)) [
  | inl out ↦ simp (out, drain_copy) v
  | inr (c, at) ↦
      simp (at, drain_copy)
        (on_copy_done-IsPlaced w temp
          (record r {
            slots = record (r.slots) { pending_copies = without i r.slots.pending_copies };
          })
          c (ended-IsPlaced r.slots i c at v))
]
