-- ===== src/Reactor/Placed/SharedRead.antt =====
-- Slots of py_kvcache/reactor.py when copies from a shared slot are queued, and when one is read.
use py_kvcache.Prelude.{
  ℕ, suc, ◌+◌, ◌≡◌, refl, sym, ap, ◌∙◌, Bool-cases, inl, inr, Bool, true, false, List, ◌∷◌, ◌++◌,
  Option, none, some, nat_eq, nat_beq, get_elem?, modify, if◌then◌else◌, arith,
}
use py_kvcache.Prelude.Int.{pos, inc, is_positive}
use py_kvcache.Reactor.State.{SharedSlot, Keeper, shared, LoadCopy, Slots, Reactor}
use py_kvcache.Reactor.Places.{set_heap, copy_ended}
use py_kvcache.Reactor.Jobs.{
  Source, count_source, load_mapping, chunks_of, queued, from_preload, queue_load_copy,
}
use py_kvcache.Reactor.Complete.{copy_begun, or_uncount, queue_shared}
use py_kvcache.Reactor.Placed.{IsPlaced, is_live, copies_of, readers, reads, refers, pending_reads}
use py_kvcache.Reactor.Placed.Heap.{modify_at}
use py_kvcache.Reactor.Placed.Shared.{unused, reheaped}
use py_kvcache.Reactor.Placed.Copies.{cached_kept, readers-modify, ended}
use py_kvcache.Reactor.Placed.Queue.{copy_from, queue_load_copy-IsPlaced}

-- One more copy reads an entry.
begun_readers :
    (x : SharedSlot) (heap : List SharedSlot) (handle k others left : ℕ)
    → get_elem? heap handle ≡ some x
    → readers heap k ≡ pos (others + left)
    → readers (modify copy_begun handle heap) k ≡ pos (others + (refers k (shared handle) + left))
begun_readers x heap handle k others left at counted = elim (Bool-cases (nat_beq handle k)) [
  | inl e ↦
      let here : handle ≡ k = (nat_eq.beq_iff handle k).0 e in
      let one : refers k (shared handle) ≡ 1 = ap (λ b. if b then 1 else 0) e in
      readers-modify copy_begun handle x heap k at
      ∙ ap (λ b. if b then inc x.copies_inflight else readers heap k) e
      ∙ ap inc (sym (ap copies_of at) ∙ ap (readers heap) here ∙ counted)
      ∙ ap pos (omega (arith, one))
  | inr e ↦
      let no : refers k (shared handle) ≡ 0 = ap (λ b. if b then 1 else 0) e in
      readers-modify copy_begun handle x heap k at
      ∙ ap (λ b. if b then inc x.copies_inflight else readers heap k) e
      ∙ counted
      ∙ ap pos (omega (arith, no))
]

-- A copy begins to read an entry of the heap, which is live from then on.
pub begun :
    {total : ℕ} (s : Slots) (slot handle : ℕ) (x : SharedSlot) (hand : List ℕ)
    (loads : List LoadCopy)
    → get_elem? s.heap handle ≡ some x
    → IsPlaced total s (unused x ++ hand) loads
    → IsPlaced total (set_heap copy_begun handle s) hand (copy_from slot (shared handle) ∷ loads)
unfolding set_heap
begun s slot handle x hand loads at v =
    let is : x.copies_inflight ≡ readers s.heap handle = sym (ap copies_of at) in
    reheaped s copy_begun handle x s.shared_cached s.cached_total (unused x ++ hand) hand loads
      (copy_from slot (shared handle) ∷ loads) at
      (λ j. ground (arith, ap is_positive (ap inc (is ∙ v.copies_ok handle)))) v.shared_keys
      (λ h k e. cached_kept copy_begun handle x s.heap k h at refl refl (v.shared_ok h k e))
      (λ k. begun_readers x s.heap handle k _ (reads k loads) at (v.copies_ok k))
      (λ h i. omega arith) v

-- The entry at a handle, which is under a hash, and in the shared cache or not; the step has its slot
-- in hand if it is not live.
abbrev pub IsReading : ℕ → Slots → ℕ → ℕ → Bool → List ℕ → List LoadCopy → Type 0
IsReading total s h handle in_cache hand loads =
    (x : SharedSlot) × (get_elem? s.heap handle ≡ some x)
    × (x.cached ≡ in_cache)
    × (x.block_hash ≡ h)
    × IsPlaced total s (unused x ++ hand) loads

queued-heap :
    (r : Reactor) (job file_index slot : ℕ) (keeper : Keeper) (o : Option ℕ)
    → (queued r job file_index slot keeper o).0.slots.heap ≡ r.slots.heap
unfolding queued
queued-heap r job file_index slot keeper none = refl
queued-heap r job file_index slot keeper (some _) = refl

queue_load_copy-heap :
    (r : Reactor) (job file_index slot : ℕ) (keeper : Keeper) (source : Source)
    → (queue_load_copy r job file_index slot keeper source).0.slots.heap ≡ r.slots.heap
unfolding queue_load_copy
queue_load_copy-heap r job file_index slot keeper source =
    queued-heap (record r { jobs = modify (count_source source) job r.jobs }) job file_index slot
      keeper (load_mapping r.storage_block_size_factor slot (chunks_of r.jobs job) file_index)

-- The outcome of queueing a copy from a shared slot.
uncounted :
    {total : ℕ} (job h handle : ℕ) (in_cache : Bool) (n : ℕ) (x : SharedSlot) (q : Reactor × Bool)
    (slot : ℕ) (hand : List ℕ) (loads : List LoadCopy)
    → get_elem? q.0.slots.heap handle ≡ some x
    → x.cached ≡ in_cache
    → x.block_hash ≡ h
    → x.copies_inflight ≡ pos (suc n)
    → IsPlaced total q.0.slots hand (if q.1 then loads else copy_from slot (shared handle) ∷ loads)
    → IsReading total (or_uncount job handle q).slots h handle in_cache hand loads
unfolding or_uncount set_heap
uncounted job h handle in_cache n x (r, true) slot hand loads at is_in named more v =
    let still : is_live x ≡ true = ground (arith, ap is_positive more) in
    (x, at, is_in, named, rw still v)
uncounted job h handle in_cache n x (r, false) slot hand loads at is_in named more v = (
  copy_ended x,
  modify_at copy_ended handle x r.slots.heap at,
  is_in,
  named,
  ended r.slots (copy_from slot (shared handle)) handle n x hand loads refl at more v,
)

pub queue_shared-IsReading :
    {total : ℕ} (r : Reactor) (job file_index slot h handle : ℕ) (in_cache : Bool) (hand : List ℕ)
    (loads : List LoadCopy)
    → IsReading total r.slots h handle in_cache hand loads
    → IsReading total
        (or_uncount job handle (queue_shared r job file_index slot handle)).slots
        h
        handle
        in_cache
        hand
        loads
unfolding queue_shared set_heap
queue_shared-IsReading r job file_index slot h handle in_cache hand loads (x, at, is_in, named, v) =
    let s = set_heap copy_begun handle r.slots in
    let n =
      reads handle r.slots.copy_ready
      + pending_reads handle r.slots.pending_copies
      + reads handle loads in
    uncounted job h handle in_cache n (copy_begun x) (queue_shared r job file_index slot handle)
      slot hand loads
      (ap (λ heap. get_elem? heap handle)
          (queue_load_copy-heap (record r { slots = s }) job file_index slot (shared handle)
            from_preload)
        ∙ modify_at copy_begun handle x r.slots.heap at)
      is_in named (ap inc (sym (ap copies_of at) ∙ v.copies_ok handle))
      (queue_load_copy-IsPlaced (record r { slots = s }) job file_index slot (shared handle)
        from_preload hand loads (begun r.slots slot handle x hand loads at v))
