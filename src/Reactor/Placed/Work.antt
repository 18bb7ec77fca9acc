-- ===== src/Reactor/Placed/Work.antt =====
-- Slots of py_kvcache/reactor.py through `_schedule_work` and its loops.
use py_kvcache.Prelude.{
  ℕ, zero, suc, ap, ◌∙◌, Option-cases, inl, inr, true, false, List, [], ◌∷◌, ◌++◌, Option, none,
  some, nat_eq, ◌&&◌, arith,
}
use py_kvcache.Prelude.Int.{pos}
use py_kvcache.Reactor.State.{copy_failed, LoadCopy, store_copy, Slots, Reactor}
use py_kvcache.Reactor.Places.{reserve_foreground_slot}
use py_kvcache.Reactor.Jobs.{World, is_set, hash_of, chunks_of, store_mapping}
use py_kvcache.Reactor.Schedule.{
  begun, load_file, next_file, load_files, files_left, is_of, schedule_loads, schedule_store_copy,
  schedule_reserved, schedule_one, store_files, schedule_stores, can_issue_store,
}
use py_kvcache.Reactor.Placed.{IsPlaced}
use py_kvcache.Reactor.Placed.Pool.{with_slot, if-IsPlaced}
use py_kvcache.Reactor.Placed.Reserve.{reserve_foreground_slot-IsPlaced}
use py_kvcache.Reactor.Placed.Done.{
  store_failed-IsPlaced, all_pending-append, pending_reads-append, pending_pinned-append,
}
use py_kvcache.Reactor.Placed.Load.{load_file-IsPlaced}

load_files-IsPlaced :
    {total : ℕ} (w : World) (fuel : ℕ) (r : Reactor) (job : ℕ) (hand : List ℕ)
    (copies : List LoadCopy)
    → IsPlaced total r.slots hand copies
    → IsPlaced total (load_files w fuel r job).slots hand copies
unfolding load_files
load_files-IsPlaced w zero r job hand copies v = v
load_files-IsPlaced w (suc fuel) r job hand copies v = elim (Option-cases (next_file r.jobs job)) [
  | inl e ↦ simp (e, load_files) v
  | inr (i, e) ↦
      let turn = load_file w r job i (hash_of r.jobs job i) in
      let placed = load_file-IsPlaced w r job i (hash_of r.jobs job i) hand copies v in
      simp (e, load_files)
        (if-IsPlaced turn.1 (load_files w fuel turn.0 job) turn.0 hand copies
          (load_files-IsPlaced w fuel turn.0 job hand copies placed) placed)
]

pub schedule_loads-IsPlaced :
    {total : ℕ} (w : World) (active : List ℕ) (r : Reactor) (hand : List ℕ) (copies : List LoadCopy)
    → IsPlaced total r.slots hand copies
    → IsPlaced total (schedule_loads w active r).slots hand copies
unfolding schedule_loads
schedule_loads-IsPlaced w [] r hand copies v = v
schedule_loads-IsPlaced w (job ∷ active) r hand copies v =
    schedule_loads-IsPlaced w active _ hand copies (
      if-IsPlaced (is_of false r.jobs job) (load_files w (files_left r.jobs job) r job) r hand
        copies (load_files-IsPlaced w (files_left r.jobs job) r job hand copies v) v)

-- A slot that a store fills is that of a copy.
stored :
    {total : ℕ} (s : Slots) (job file_index slot : ℕ) (hand : List ℕ) (copies : List LoadCopy)
    → IsPlaced total s (slot ∷ hand) copies
    → IsPlaced total
        (record s { pending_copies = s.pending_copies ++ store_copy job file_index slot ∷ [] })
        hand
        copies
stored s job file_index slot hand copies v = record {
  is_open = v.is_open;
  size = v.size;
  valid = v.valid;
  once = λ j. omega (
    arith,
    v.once j,
    all_pending-append j s.pending_copies (store_copy job file_index slot ∷ []),
  );
  private_keys = v.private_keys;
  op_keys = v.op_keys;
  fresh = v.fresh;
  shared_keys = v.shared_keys;
  shared_ok = v.shared_ok;
  copies_ok = λ k.
      v.copies_ok k
      ∙ ap pos (
          omega
            (arith, pending_reads-append k s.pending_copies (store_copy job file_index slot ∷ [])));
  pins_ok = λ h i.
      v.pins_ok h i
      ∙ ap pos (
          omega (
            arith,
            pending_pinned-append h i s.pending_copies (store_copy job file_index slot ∷ []),
          ));
}

schedule_store_copy-IsPlaced :
    {total : ℕ} (w : World) (r : Reactor) (job file_index slot : ℕ) (hand : List ℕ)
    (copies : List LoadCopy)
    → IsPlaced total r.slots (slot ∷ hand) copies
    → IsPlaced total (schedule_store_copy w r job file_index slot).slots hand copies
unfolding schedule_store_copy begun
schedule_store_copy-IsPlaced w r job file_index slot hand copies v =
    if-IsPlaced
      (is_set (store_mapping r.storage_block_size_factor slot (chunks_of r.jobs job) file_index)
        && w.launches slot)
      _ _ hand copies (stored r.slots job file_index slot hand copies v)
      (store_failed-IsPlaced copy_failed (begun r job) job file_index slot hand copies v)

schedule_reserved-IsPlaced :
    {total : ℕ} (w : World) (job file_index : ℕ) (p : Reactor × Option ℕ) (hand : List ℕ)
    (copies : List LoadCopy)
    → IsPlaced total p.0.slots (with_slot p.1 hand) copies
    → IsPlaced total (schedule_reserved w job file_index p).0.slots hand copies
unfolding schedule_reserved
schedule_reserved-IsPlaced w job file_index (r, none) hand copies v = v
schedule_reserved-IsPlaced w job file_index (r, some slot) hand copies v =
    schedule_store_copy-IsPlaced w r job file_index slot hand copies v

schedule_one-IsPlaced :
    {total : ℕ} (w : World) (r : Reactor) (job file_index : ℕ) (hand : List ℕ)
    (copies : List LoadCopy)
    → IsPlaced total r.slots hand copies
    → IsPlaced total (schedule_one w r job file_index).0.slots hand copies
unfolding schedule_one
schedule_one-IsPlaced w r job file_index hand copies v =
    schedule_reserved-IsPlaced w job file_index (reserve_foreground_slot r) hand copies
      (reserve_foreground_slot-IsPlaced r hand copies v)

store_files-IsPlaced :
    {total : ℕ} (w : World) (fuel : ℕ) (r : Reactor) (job : ℕ) (hand : List ℕ)
    (copies : List LoadCopy)
    → IsPlaced total r.slots hand copies
    → IsPlaced total (store_files w fuel r job).slots hand copies
unfolding store_files
store_files-IsPlaced w zero r job hand copies v = v
store_files-IsPlaced w (suc fuel) r job hand copies v = elim (Option-cases (next_file r.jobs job)) [
  | inl e ↦ simp (e, store_files) v
  | inr (i, e) ↦
      let turn = schedule_one w r job i in
      let placed = schedule_one-IsPlaced w r job i hand copies v in
      simp (e, store_files)
        (if-IsPlaced (can_issue_store r) _ r hand copies
          (if-IsPlaced turn.1 (store_files w fuel turn.0 job) turn.0 hand copies
            (store_files-IsPlaced w fuel turn.0 job hand copies placed) placed)
          v)
]

pub schedule_stores-IsPlaced :
    {total : ℕ} (w : World) (active : List ℕ) (r : Reactor) (hand : List ℕ) (copies : List LoadCopy)
    → IsPlaced total r.slots hand copies
    → IsPlaced total (schedule_stores w active r).slots hand copies
unfolding schedule_stores
schedule_stores-IsPlaced w [] r hand copies v = v
schedule_stores-IsPlaced w (job ∷ active) r hand copies v =
    schedule_stores-IsPlaced w active _ hand copies (
      if-IsPlaced (is_of true r.jobs job) (store_files w (files_left r.jobs job) r job) r hand
        copies (store_files-IsPlaced w (files_left r.jobs job) r job hand copies v) v)
