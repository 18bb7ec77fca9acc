-- ===== src/Reactor/Placed/Queue.antt =====
-- Slots of py_kvcache/reactor.py when a copy to the GPU is queued, and when a file fails or is read.
use py_kvcache.Prelude.{
  ℕ, ◌+◌, ◌≡◌, refl, ap, ◌∙◌, Bool-cases, inl, inr, Bool, true, false, List, [], ◌∷◌, ◌++◌, Option,
  none, some, nat_eq, if◌then◌else◌, arith,
}
use py_kvcache.Prelude.Int.{ℤ, pos}
use py_kvcache.Prelude.Count.{count, count-append}
use py_kvcache.Reactor.State.{
  Failure, mapping_failed, read_failed, Keeper, own, PreloadInfo, LoadCopy, Slots, Demand, Reactor,
}
use py_kvcache.Reactor.Demand.{waiter_pop, inflight_remove}
use py_kvcache.Reactor.Jobs.{World, Source, from_file, from_preload, queued, queue_load_copy}
use py_kvcache.Reactor.Complete.{
  give_up, or_give_up, on_read_load, is_whole, preload_failed, or_preload_failed, preload_read,
  on_private_read,
}
use py_kvcache.Reactor.Placed.{IsPlaced, copied_slots, kept_by, reads, refers, pins_of, pinned}
use py_kvcache.Reactor.Placed.Pool.{release_slot-IsPlaced}
use py_kvcache.Reactor.Placed.Kept.{preload_cache_push-IsPlaced}
use py_kvcache.Reactor.Placed.Copies.{put_down}
use py_kvcache.Reactor.Placed.Submit.{async_close-IsPlaced, fail_one_waiter-slots}

-- A copy, as far as slots go.
abbrev pub copy_from : ℕ → Keeper → LoadCopy
copy_from slot keeper = record {
  job = 0;
  file_index = 0;
  slot_index = slot;
  mapping_len = 0;
  keeper = keeper;
}

copied_slots-append :
    (j : ℕ) (l m : List LoadCopy)
    → count j (copied_slots (l ++ m)) ≡ count j (copied_slots l) + count j (copied_slots m)
copied_slots-append j [] m = omega arith
copied_slots-append j (c ∷ l) m = omega (
  arith,
  copied_slots-append j l m,
  count-append j (kept_by c.keeper c.slot_index) (copied_slots l),
  count-append j (kept_by c.keeper c.slot_index) (copied_slots (l ++ m)),
)

reads-append : (k : ℕ) (l m : List LoadCopy) → reads k (l ++ m) ≡ reads k l + reads k m
reads-append k [] m = omega arith
reads-append k (c ∷ l) m = omega (arith, reads-append k l m)

pinned-append : (h i : ℕ) (l m : List LoadCopy) → pinned h i (l ++ m) ≡ pinned h i l + pinned h i m
pinned-append h i [] m = omega arith
pinned-append h i (c ∷ l) m = omega (arith, pinned-append h i l m)

queued-IsPlaced :
    {total : ℕ} (r : Reactor) (job file_index slot : ℕ) (keeper : Keeper) (o : Option ℕ)
    (hand : List ℕ) (loads : List LoadCopy)
    → IsPlaced total r.slots hand (copy_from slot keeper ∷ loads)
    → IsPlaced total
        (queued r job file_index slot keeper o).0.slots
        hand
        (if (queued r job file_index slot keeper o).1 then loads else copy_from slot keeper ∷ loads)
unfolding queued
queued-IsPlaced r job file_index slot keeper none hand loads v = v
queued-IsPlaced r job file_index slot keeper (some n) hand loads v =
    let c : LoadCopy = record {
      job = job;
      file_index = file_index;
      slot_index = slot;
      mapping_len = n;
      keeper = keeper;
    } in
    record {
      is_open = v.is_open;
      size = v.size;
      valid = v.valid;
      once = λ j. omega (
        arith,
        v.once j,
        copied_slots-append j r.slots.copy_ready (c ∷ []),
        count-append j (kept_by keeper slot) [],
        count-append j (kept_by keeper slot) (copied_slots loads),
      );
      private_keys = v.private_keys;
      op_keys = v.op_keys;
      fresh = v.fresh;
      shared_keys = v.shared_keys;
      shared_ok = v.shared_ok;
      copies_ok =
          λ k. v.copies_ok k ∙ ap pos (omega (arith, reads-append k r.slots.copy_ready (c ∷ [])));
      pins_ok = λ h i.
          v.pins_ok h i ∙ ap pos (omega (arith, pinned-append h i r.slots.copy_ready (c ∷ [])));
    }

pub queue_load_copy-IsPlaced :
    {total : ℕ} (r : Reactor) (job file_index slot : ℕ) (keeper : Keeper) (source : Source)
    (hand : List ℕ) (loads : List LoadCopy)
    → IsPlaced total r.slots hand (copy_from slot keeper ∷ loads)
    → IsPlaced total (queue_load_copy r job file_index slot keeper source).0.slots hand (
        if (queue_load_copy r job file_index slot keeper source).1
        then loads
        else copy_from slot keeper ∷ loads)
unfolding queue_load_copy
queue_load_copy-IsPlaced r job file_index slot keeper source hand loads v =
    queued-IsPlaced _ job file_index slot keeper _ hand loads v

-- A copy takes from the hand what it keeps.
pub pick_up :
    {total : ℕ} (s : Slots) (c : LoadCopy) (hand : List ℕ) (loads : List LoadCopy)
    → ((k : ℕ) → refers k c.keeper ≡ 0)
    → ((h i : ℕ) → pins_of h i c.keeper c.slot_index ≡ 0)
    → IsPlaced total s (kept_by c.keeper c.slot_index ++ hand) loads
    → IsPlaced total s hand (c ∷ loads)
pick_up s c hand loads apart free v = record {
  is_open = v.is_open;
  size = v.size;
  valid = v.valid;
  once = λ j. omega (
    arith,
    v.once j,
    count-append j (kept_by c.keeper c.slot_index) hand,
    count-append j (kept_by c.keeper c.slot_index) (copied_slots loads),
  );
  private_keys = v.private_keys;
  op_keys = v.op_keys;
  fresh = v.fresh;
  shared_keys = v.shared_keys;
  shared_ok = v.shared_ok;
  copies_ok = λ k. v.copies_ok k ∙ ap pos (omega (arith, apart k));
  pins_ok = λ h i. v.pins_ok h i ∙ ap pos (omega (arith, free h i));
}

pub queue_own :
    {total : ℕ} (r : Reactor) (job file_index slot : ℕ) (source : Source) (hand : List ℕ)
    (loads : List LoadCopy)
    → IsPlaced total r.slots (slot ∷ hand) loads
    → IsPlaced total
        (queue_load_copy r job file_index slot own source).0.slots
        (if (queue_load_copy r job file_index slot own source).1 then hand else slot ∷ hand)
        loads
queue_own r job file_index slot source hand loads v =
    let q = queue_load_copy r job file_index slot own source in
    let held =
      queue_load_copy-IsPlaced r job file_index slot own source hand loads
        (pick_up r.slots (copy_from slot own) hand loads (λ k. refl) (λ h i. refl) v) in
    elim (Bool-cases q.1) [
      | inl e ↦ rw e (rw e at held)
      | inr e ↦ rw e (
          put_down q.0.slots (copy_from slot own) hand loads (λ k. refl) (λ h i. refl)
            (rw e at held))
    ]

pub give_up-IsPlaced :
    {total : ℕ} (e : Failure) (r : Reactor) (job slot : ℕ) (hand : List ℕ) (loads : List LoadCopy)
    → IsPlaced total r.slots (slot ∷ hand) loads
    → IsPlaced total (give_up e r job slot).slots hand loads
unfolding give_up
give_up-IsPlaced e r job slot hand loads v = release_slot-IsPlaced r.slots slot hand loads v

or_give_up-IsPlaced :
    {total : ℕ} (job slot : ℕ) (q : Reactor × Bool) (hand : List ℕ) (loads : List LoadCopy)
    → IsPlaced total q.0.slots (if q.1 then hand else slot ∷ hand) loads
    → IsPlaced total (or_give_up job slot q).slots hand loads
unfolding or_give_up
or_give_up-IsPlaced job slot (r, true) hand loads v = v
or_give_up-IsPlaced job slot (r, false) hand loads v =
    give_up-IsPlaced mapping_failed r job slot hand loads v

pub on_read_load-IsPlaced :
    {total : ℕ} (w : World) (r : Reactor) (job file_index slot fd : ℕ) (result : ℤ) (hand : List ℕ)
    (loads : List LoadCopy)
    → IsPlaced total r.slots (slot ∷ hand) loads
    → IsPlaced total (on_read_load w r job file_index slot fd result).slots hand loads
unfolding on_read_load
on_read_load-IsPlaced w r job file_index slot fd result hand loads v =
    async_close-IsPlaced w _ fd hand loads (elim (Bool-cases (is_whole r result)) [
      | inl e ↦ rw e (
          or_give_up-IsPlaced job slot (queue_load_copy r job file_index slot own from_file) hand
            loads (queue_own r job file_index slot from_file hand loads v))
      | inr e ↦ rw e (give_up-IsPlaced read_failed r job slot hand loads v)
    ])

preload_failed-IsPlaced :
    {total : ℕ} (e : Failure) (r : Reactor) (h slot : ℕ) (hand : List ℕ) (loads : List LoadCopy)
    → IsPlaced total r.slots (slot ∷ hand) loads
    → IsPlaced total (preload_failed e r h slot).slots hand loads
unfolding preload_failed
preload_failed-IsPlaced e r h slot hand loads v =
    rw fail_one_waiter-slots (release_slot-IsPlaced r.slots slot hand loads v)

or_preload_failed-IsPlaced :
    {total : ℕ} (h slot : ℕ) (q : Reactor × Bool) (hand : List ℕ) (loads : List LoadCopy)
    → IsPlaced total q.0.slots (if q.1 then hand else slot ∷ hand) loads
    → IsPlaced total (or_preload_failed h slot q).slots hand loads
unfolding or_preload_failed
or_preload_failed-IsPlaced h slot (r, true) hand loads v = v
or_preload_failed-IsPlaced h slot (r, false) hand loads v =
    preload_failed-IsPlaced mapping_failed r h slot hand loads v

preload_read-IsPlaced :
    {total : ℕ} (r : Reactor) (info : PreloadInfo) (slot : ℕ) (p : Demand × Option (ℕ × ℕ))
    (hand : List ℕ) (loads : List LoadCopy)
    → IsPlaced total r.slots (slot ∷ hand) loads
    → IsPlaced total (preload_read r info slot p).slots hand loads
unfolding preload_read
preload_read-IsPlaced r info slot (d, some (job, file_index)) hand loads v =
    or_preload_failed-IsPlaced info.block_hash slot _ hand loads
      (queue_own (record r { demand = d }) job file_index slot from_preload hand loads v)
preload_read-IsPlaced r info slot (d, none) hand loads v = elim (Bool-cases r.stop) [
  | inl e ↦ simp e (release_slot-IsPlaced r.slots slot hand loads v)
  | inr e ↦ simp e (preload_cache_push-IsPlaced r.slots info.block_hash slot info hand loads v)
]

pub on_private_read-IsPlaced :
    {total : ℕ} (r : Reactor) (info : PreloadInfo) (slot : ℕ) (result : ℤ) (hand : List ℕ)
    (loads : List LoadCopy)
    → IsPlaced total r.slots (slot ∷ hand) loads
    → IsPlaced total (on_private_read r info slot result).slots hand loads
unfolding on_private_read
on_private_read-IsPlaced r info slot result hand loads v =
    let r' = record r { demand = inflight_remove r.demand info.block_hash } in
    elim (Bool-cases (is_whole r result)) [
      | inl e ↦
          rw e
            (preload_read-IsPlaced r' info slot (waiter_pop r'.demand info.block_hash) hand loads v)
      | inr e ↦ rw e (preload_failed-IsPlaced read_failed r' info.block_hash slot hand loads v)
    ]
