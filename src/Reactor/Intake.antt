-- ===== src/Reactor/Intake.antt =====
-- `_intake` of py_kvcache/reactor.py: requests for preloads, jobs, and the order to stop.
use Prim.Native.String.{String}
use py_kvcache.Prelude.{
  ℕ, ◌+◌, ◌*◌, Bool, true, false, List, [], ◌∷◌, ◌++◌, Option, none, some, if◌then◌else◌, ltb,
  length, map, get_elem?, nat_eq, string_eq, ◌==◌, not, ◌&&◌,
}
use py_kvcache.Prelude.Int.{pos}
use py_kvcache.Prelude.Dict.{Dict, lookup_or, insert, delete, has, values}
use py_kvcache.StagingCache.{StagingDataCache, drain}
use py_kvcache.BreakEven.{enabled, should_load}
use py_kvcache.Reactor.State.{
  shutting_down, load_declined, Job, PreloadRequest, PreloadInfo, SharedSlot, own, shared, cached,
  drained, LoadCopy, CopyOp, store_copy, load_batch, Slots, Demand, Reactor,
}
use py_kvcache.Reactor.Demand.{preload_own, pending_push, park_last}
use py_kvcache.Reactor.Places.{
  release_slot, in_cache, preload_has_copy, has_any_shared_state, shared_decref,
}
use py_kvcache.Reactor.Jobs.{fail_each}

-- A demand that is counted, and pending if it is the first.
unfoldable pub demand_shared : Slots → Demand → PreloadInfo → Demand
unfolding has_any_shared_state pending_push
demand_shared s d info =
    let h = info.block_hash in
    let counted = record d { refcount = insert h (lookup_or h 0 d.refcount + 1) d.refcount } in
    if has_any_shared_state s counted h then counted else pending_push counted info

unfoldable pub demand_private : Demand → PreloadInfo → Demand
unfolding park_last pending_push
demand_private d info =
    if has info.block_hash d.known_missing
    then record d { known_missing = park_last info.block_hash info d.known_missing }
    else pending_push d info

demanded : Slots → PreloadInfo → Demand × Bool → Demand
unfolding demand_shared demand_private
demanded s info (d, false) = d
demanded s info (d, true) =
    if d.share_preload then demand_shared s d info else demand_private d info

-- A turn of the loop over the hashes of a request.
unfoldable pub intake_hash : Slots → PreloadInfo → Demand → Demand
unfolding in_cache demanded preload_own
intake_hash s info d =
    if in_cache s info.block_hash
    then d
    else demanded s info (preload_own d info.req_id info.block_hash)

unfoldable pub intake_hashes : Slots → PreloadRequest → ℕ → ℕ → List ℕ → Demand → Demand
unfolding intake_hash
intake_hashes s request total file_index [] d = d
intake_hashes s request total file_index (h ∷ hashes) d =
    intake_hashes s request total (file_index + 1) hashes (
      intake_hash s
        (record {
          block_hash = h;
          preload_id = request.preload_id;
          req_id = request.req_id;
          profile_tid = request.profile_tid;
          file_index = file_index;
          total_files = total;
        })
        d)

unfoldable pub intake_preload : Reactor → PreloadRequest → Reactor
unfolding intake_hashes
intake_preload r request = record r {
  demand =
      intake_hashes r.slots request (length request.block_hashes) 0 request.block_hashes r.demand;
}

unfoldable pub all_have_copy : Slots → Demand → List ℕ → Bool
unfolding preload_has_copy
all_have_copy s d [] = true
all_have_copy s d (h ∷ hashes) = preload_has_copy s d h && all_have_copy s d hashes

unfoldable pub should_decline_load : Reactor → Job → Bool
unfolding all_have_copy
should_decline_load r x =
    let prefix_tokens = x.total_files * r.storage_block_tokens in
    if prefix_tokens == 0
    then false
    else not
        (should_load prefix_tokens r.thresholds (all_have_copy r.slots r.demand x.block_hashes))

abbrev pub concat_ids : List (List ℕ) → List ℕ
concat_ids [] = []
concat_ids (chunk ∷ chunks) = chunk ++ concat_ids chunks

unfoldable pub decline_load : Job → Job
decline_load x = record x { outcome = some (load_declined (concat_ids x.block_chunks) x.req_id) }

unfoldable pub forget_missing : List ℕ → Dict ℕ (List PreloadInfo) → Dict ℕ (List PreloadInfo)
forget_missing [] known = known
forget_missing (h ∷ hashes) known = forget_missing hashes (delete h known)

-- A job at the end of the heap, active or not.
unfoldable pub add_job : Bool → Reactor → Job → Reactor
add_job active r x = record r {
  jobs = r.jobs ++ x ∷ [];
  active = if active then r.active ++ length r.jobs ∷ [] else r.active;
}

unfoldable pub intake_load : Reactor → Job → Reactor
unfolding should_decline_load decline_load add_job forget_missing
intake_load r x =
    if enabled r.thresholds && should_decline_load r x
    then add_job false r (decline_load x)
    else add_job true
        (record r {
          demand = record (r.demand) {
            known_missing = forget_missing x.block_hashes r.demand.known_missing;
          };
        })
        x

-- The copies of other requests.
unfoldable pub of_others : String → List PreloadInfo → List PreloadInfo
of_others producer [] = []
of_others producer (info ∷ infos) =
    let rest = of_others producer infos in if info.req_id == producer then rest else info ∷ rest

-- The missed copies of a hash that a store makes, as far as they are still demanded.
unfoldable pub rearmed : Demand → String → ℕ → List PreloadInfo → List PreloadInfo
unfolding of_others
rearmed d producer h missed =
    if d.share_preload
    then (if ltb 0 (lookup_or h 0 d.refcount) then missed else [])
    else of_others producer missed

unfoldable pub block_all : ℕ → List PreloadInfo → Demand → Demand
block_all h [] d = d
block_all h (info ∷ infos) d = record d {
  blocked_on_write =
      insert h (lookup_or h [] d.blocked_on_write ++ info ∷ infos) d.blocked_on_write;
}

-- What a store changes of the demand of one of its hashes.
unfoldable pub store_hash : String → ℕ → Demand → Demand
unfolding block_all rearmed
store_hash producer h d =
    let missed = lookup_or h [] d.known_missing in
    let d' =
      block_all h (rearmed d producer h missed)
        (record d { known_missing = delete h d.known_missing }) in
    record d' { store_inflight = insert h (lookup_or h 0 d'.store_inflight + 1) d'.store_inflight }

unfoldable pub withdrawn : Reactor → String → ℕ → Reactor
unfolding shared_decref
withdrawn r producer h = if r.demand.share_preload then shared_decref r producer h else r

unfoldable pub store_hashes : String → List ℕ → Reactor → Reactor
unfolding store_hash withdrawn
store_hashes producer [] r = r
store_hashes producer (h ∷ hashes) r =
    let r' = withdrawn r producer h in
    store_hashes producer hashes (record r' { demand = store_hash producer h r'.demand })

unfoldable pub intake_store : Reactor → Job → Reactor
unfolding store_hashes add_job
intake_store r x = add_job true (store_hashes x.req_id x.block_hashes r) x

unfoldable pub intake_job : Reactor → Job → Reactor
unfolding intake_load intake_store
intake_job r x = if x.is_store then intake_store r x else intake_load r x

unfoldable pub release_all : List ℕ → Slots → Slots
unfolding release_slot
release_all [] s = s
release_all (i ∷ slots) s = release_all slots (release_slot s i)

abbrev pub entries : List (List (ℕ × PreloadInfo)) → List ℕ
entries [] = []
entries (slots ∷ rest) = map (λ (e : ℕ × PreloadInfo). e.0) slots ++ entries rest

-- The slots of the shared cache.
abbrev pub shared_indices : List SharedSlot → List ℕ → List ℕ
shared_indices heap [] = []
shared_indices heap (handle ∷ handles) =
    let rest = shared_indices heap handles in
    elim (get_elem? heap handle) [ none ↦ rest | some x ↦ x.slot_index ∷ rest ]

-- A copy from a slot of the cache, once the cache is drained.
abbrev pub drained_copy : LoadCopy → LoadCopy
drained_copy c = record c {
  keeper = elim c.keeper [
    | own ↦ own
    | shared handle ↦ shared handle
    | cached _ ↦ drained
    | drained ↦ drained
  ];
}

abbrev pub drained_op : CopyOp → CopyOp
drained_op (store_copy job file_index slot) = store_copy job file_index slot
drained_op (load_batch copies) = load_batch (map drained_copy copies)

drain_cache : Slots → Option StagingDataCache → Slots
unfolding release_all
drain_cache s none = s
drain_cache s (some c) =
    let (c', slots) = drain c in
    release_all slots (record s {
      cache = some c';
      copy_ready = map drained_copy s.copy_ready;
      pending_copies = map drained_op s.pending_copies;
    })

-- The slots of preloads and of the cache go back to the pool.
unfoldable pub release_cached : Slots → Slots
unfolding release_all drain_cache
release_cached s =
    let private = release_all (entries (values s.preload_slots)) s in
    let both = release_all (shared_indices s.heap (values s.shared_cached)) private in
    drain_cache (record both { preload_slots = []; shared_cached = []; cached_total = pos 0 })
      s.cache

unfoldable pub waiting : List (List (ℕ × ℕ)) → List (ℕ × ℕ)
waiting [] = []
waiting (ws ∷ rest) = ws ++ waiting rest

-- `_intake` of the order to stop.
unfoldable pub intake_stop : Reactor → Reactor
unfolding release_cached waiting fail_each
intake_stop r = record r {
  stop = true;
  slots = release_cached r.slots;
  jobs = fail_each shutting_down (waiting (values r.demand.waiters)) r.jobs;
  demand = record (r.demand) {
    refcount = [];
    inflight_total = pos 0;
    pending = [];
    pending_count = [];
    pending_cancel = [];
    owned = [];
    blocked_on_write = [];
    known_missing = [];
    waiters = [];
  };
}
