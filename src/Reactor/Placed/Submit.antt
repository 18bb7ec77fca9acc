-- ===== src/Reactor/Placed/Submit.antt =====
-- Slots of py_kvcache/reactor.py when something is submitted to the ring, or completed by it.
use mathlib.Core.Option.{some-injective}
use py_kvcache.Prelude.{
  ℕ, ◌+◌, ◌≡◌, refl, sym, ap, subst, Bool-cases, inl, inr, false, List, [], ◌∷◌, ◌++◌, Option, none,
  some, nat_eq, ◌==◌, arith,
}
use py_kvcache.Prelude.Count.{count, count-append}
use py_kvcache.Prelude.Keys.{
  contains, Distinct, add-Distinct, remove-Distinct, contains-add, contains-remove,
}
use py_kvcache.Prelude.Dict.{
  Dict, keys, lookup, insert, delete, has, delete_absent, keys-insert, keys-delete,
}
use py_kvcache.Reactor.State.{
  Failure, RingOp, close_fd, open_load, open_preload, read_load, read_preload, PreloadInfo,
  LoadCopy, ReadyLoad, ReadyPreload, Slots, Demand, Reactor,
}
use py_kvcache.Reactor.Jobs.{
  World, new_user_data, submitted, async_close, submit_open_read, submit_open_preload,
  submit_read_load, submit_read_preload, fail_preload, fail_all_preload_waiters, fail_one_waiter,
  fail_popped,
}
use py_kvcache.Reactor.Demand.{waiter_pop}
use py_kvcache.Reactor.Placed.{IsPlaced, op_slots, inflight_slots}
use py_kvcache.Reactor.Placed.Pool.{release_slot-IsPlaced}

inflight_slots-insert :
    (j u : ℕ) (op : RingOp) (d : Dict ℕ RingOp)
    → has u d ≡ false
    → count j (inflight_slots (insert u op d)) ≡ count j (inflight_slots d) + count j (op_slots op)
inflight_slots-insert j u op [] absent = omega (arith, count-append j (op_slots op) [])
inflight_slots-insert j u op ((k, o) ∷ d) absent = ground (
  arith,
  inflight_slots-insert j u op d,
  count-append j (op_slots o) (inflight_slots d),
  count-append j (op_slots o) (inflight_slots (insert u op d)),
)

inflight_slots-delete :
    (j u : ℕ) (op : RingOp) (d : Dict ℕ RingOp)
    → Distinct (keys d)
    → lookup u d ≡ some op
    → count j (inflight_slots (delete u d)) + count j (op_slots op) ≡ count j (inflight_slots d)
inflight_slots-delete j u op [] once found = cc
inflight_slots-delete j u op ((k, o) ∷ d) once found = elim (Bool-cases (k == u)) [
  | inl e ↦
      let absent : has u d ≡ false =
        subst (λ k. has k d ≡ false) ((nat_eq.beq_iff k u).0 e) once.0 in
      ground (
        arith,
        ap (λ (r : Dict ℕ RingOp). count j (inflight_slots r)) (delete_absent u d absent),
        ap (λ (o : RingOp). count j (op_slots o)) (some-injective o op (rw e at found)),
        count-append j (op_slots o) (inflight_slots d),
      )
  | inr e ↦ ground (
    arith,
    inflight_slots-delete j u op d once.1 (rw e at found),
    count-append j (op_slots o) (inflight_slots (delete u d)),
    count-append j (op_slots o) (inflight_slots d),
  )
]

-- The number that is handed out next is not in use.
unused_number :
    {total : ℕ} (s : Slots) (hand : List ℕ) (loads : List LoadCopy)
    → IsPlaced total s hand loads
    → has (s.next_user_data + 1) s.inflight ≡ false
unused_number s hand loads v = elim (Bool-cases (has (s.next_user_data + 1) s.inflight)) [
  | inl e ↦ absurd (omega (arith, v.fresh (s.next_user_data + 1) e))
  | inr e ↦ e
]

pub new_user_data-IsPlaced :
    {total : ℕ} (r : Reactor) (hand : List ℕ) (loads : List LoadCopy)
    → IsPlaced total r.slots hand loads
    → IsPlaced total (new_user_data r).slots hand loads
unfolding new_user_data
new_user_data-IsPlaced r hand loads v = record {
  is_open = v.is_open;
  size = v.size;
  valid = v.valid;
  once = v.once;
  private_keys = v.private_keys;
  op_keys = v.op_keys;
  fresh = λ u e. omega (arith, v.fresh u e);
  shared_keys = v.shared_keys;
  shared_ok = v.shared_ok;
  copies_ok = v.copies_ok;
  pins_ok = v.pins_ok;
}

-- A submission takes the slots that it needs out of the hand.
pub submitted-IsPlaced :
    {total : ℕ} (r : Reactor) (op : RingOp) (hand : List ℕ) (loads : List LoadCopy)
    → IsPlaced total r.slots (op_slots op ++ hand) loads
    → IsPlaced total (submitted (new_user_data r) op).slots hand loads
unfolding submitted new_user_data
submitted-IsPlaced r op hand loads v =
    let u = r.slots.next_user_data + 1 in
    let absent = unused_number r.slots (op_slots op ++ hand) loads v in
    record {
      is_open = v.is_open;
      size = v.size;
      valid = v.valid;
      once = λ j. omega (
        arith,
        v.once j,
        inflight_slots-insert j u op r.slots.inflight absent,
        count-append j (op_slots op) hand,
      );
      private_keys = v.private_keys;
      op_keys =
          subst Distinct (sym (keys-insert u op r.slots.inflight))
            (add-Distinct u (keys r.slots.inflight) v.op_keys);
      fresh = λ k e. ground (
        arith,
        v.fresh k,
        contains-add u k (keys r.slots.inflight),
        ap (contains k) (keys-insert u op r.slots.inflight),
      );
      shared_keys = v.shared_keys;
      shared_ok = v.shared_ok;
      copies_ok = v.copies_ok;
      pins_ok = v.pins_ok;
    }

-- A submission that has completed hands over its slots.
pub completed-IsPlaced :
    {total : ℕ} (s : Slots) (u : ℕ) (op : RingOp) (hand : List ℕ) (loads : List LoadCopy)
    → lookup u s.inflight ≡ some op
    → IsPlaced total s hand loads
    → IsPlaced total (record s { inflight = delete u s.inflight }) (op_slots op ++ hand) loads
completed-IsPlaced s u op hand loads found v = record {
  is_open = v.is_open;
  size = v.size;
  valid = v.valid;
  once = λ j. omega (
    arith,
    v.once j,
    inflight_slots-delete j u op s.inflight v.op_keys found,
    count-append j (op_slots op) hand,
  );
  private_keys = v.private_keys;
  op_keys =
      subst Distinct (sym (keys-delete u s.inflight))
        (remove-Distinct u (keys s.inflight) v.op_keys);
  fresh = λ k e. ground (
    arith,
    v.fresh k,
    contains-remove u k (keys s.inflight),
    ap (contains k) (keys-delete u s.inflight),
  );
  shared_keys = v.shared_keys;
  shared_ok = v.shared_ok;
  copies_ok = v.copies_ok;
  pins_ok = v.pins_ok;
}

pub async_close-IsPlaced :
    {total : ℕ} (w : World) (r : Reactor) (fd : ℕ) (hand : List ℕ) (loads : List LoadCopy)
    → IsPlaced total r.slots hand loads
    → IsPlaced total (async_close w r fd).slots hand loads
unfolding async_close
async_close-IsPlaced w r fd hand loads v =
    elim (Bool-cases (w.takes (new_user_data r).slots.next_user_data)) [
      | inl e ↦ rw e (submitted-IsPlaced r (close_fd fd) hand loads v)
      | inr e ↦ rw e (new_user_data-IsPlaced r hand loads v)
    ]

pub submit_open_read-IsPlaced :
    {total : ℕ} (w : World) (r : Reactor) (job file_index : ℕ) (hand : List ℕ)
    (loads : List LoadCopy)
    → IsPlaced total r.slots hand loads
    → IsPlaced total (submit_open_read w r job file_index).slots hand loads
unfolding submit_open_read submitted new_user_data
submit_open_read-IsPlaced w r job file_index hand loads v =
    elim (Bool-cases (w.takes (new_user_data r).slots.next_user_data)) [
      | inl e ↦ rw e (submitted-IsPlaced r (open_load job file_index) hand loads v)
      | inr e ↦ rw e (new_user_data-IsPlaced r hand loads v)
    ]

pub submit_open_preload-IsPlaced :
    {total : ℕ} (w : World) (r : Reactor) (info : PreloadInfo) (hand : List ℕ)
    (loads : List LoadCopy)
    → IsPlaced total r.slots hand loads
    → IsPlaced total (submit_open_preload w r info).slots hand loads
unfolding submit_open_preload
submit_open_preload-IsPlaced w r info hand loads v =
    elim (Bool-cases (w.takes (new_user_data r).slots.next_user_data)) [
      | inl e ↦ rw e (submitted-IsPlaced r (open_preload info) hand loads v)
      | inr e ↦ rw e (new_user_data-IsPlaced r hand loads v)
    ]

pub submit_read_load-IsPlaced :
    {total : ℕ} (w : World) (r : Reactor) (ready : ReadyLoad) (slot : ℕ) (hand : List ℕ)
    (loads : List LoadCopy)
    → IsPlaced total r.slots (slot ∷ hand) loads
    → IsPlaced total (submit_read_load w r ready slot).slots hand loads
unfolding submit_read_load
submit_read_load-IsPlaced w r ready slot hand loads v =
    let r' = new_user_data r in
    elim (Bool-cases (w.takes r'.slots.next_user_data)) [
      | inl e ↦
          rw e
            (submitted-IsPlaced r (read_load ready.job ready.file_index slot ready.fd) hand loads v)
      | inr e ↦ rw e (
          release_slot-IsPlaced (async_close w r' ready.fd).slots slot hand loads (
            async_close-IsPlaced w r' ready.fd (slot ∷ hand) loads
              (new_user_data-IsPlaced r (slot ∷ hand) loads v)))
    ]

fail_popped-slots :
    (r : Reactor) (e : Failure) (p : Demand × Option (ℕ × ℕ)) → (fail_popped r e p).slots ≡ r.slots
unfolding fail_popped
fail_popped-slots r e (d, none) = refl
fail_popped-slots r e (d, some (job, _)) = refl

pub fail_one_waiter-slots :
    (r : Reactor) (h : ℕ) (e : Failure) → (fail_one_waiter r h e).slots ≡ r.slots
unfolding fail_one_waiter
fail_one_waiter-slots r h e = fail_popped-slots r e (waiter_pop r.demand h)

pub fail_preload-slots : (r : Reactor) (h : ℕ) (e : Failure) → (fail_preload r h e).slots ≡ r.slots
unfolding fail_preload fail_all_preload_waiters
fail_preload-slots r h e = elim (Bool-cases r.demand.share_preload) [
  | inl q ↦ simp q refl
  | inr q ↦ simp q (fail_one_waiter-slots r h e)
]

pub submit_read_preload-IsPlaced :
    {total : ℕ} (w : World) (r : Reactor) (ready : ReadyPreload) (slot : ℕ) (hand : List ℕ)
    (loads : List LoadCopy)
    → IsPlaced total r.slots (slot ∷ hand) loads
    → IsPlaced total (submit_read_preload w r ready slot).slots hand loads
unfolding submit_read_preload
submit_read_preload-IsPlaced w r ready slot hand loads v =
    let r' = new_user_data r in
    elim (Bool-cases (w.takes r'.slots.next_user_data)) [
      | inl e ↦ rw e (submitted-IsPlaced r (read_preload ready.info slot ready.fd) hand loads v)
      | inr e ↦
          rw (e, fail_preload-slots)
            (release_slot-IsPlaced (async_close w r' ready.fd).slots slot hand loads (
              async_close-IsPlaced w r' ready.fd (slot ∷ hand) loads
                (new_user_data-IsPlaced r (slot ∷ hand) loads v)))
    ]
