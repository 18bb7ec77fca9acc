-- ===== src/Reactor/Demand.antt =====
-- The bookkeeping of preloads in py_kvcache/reactor.py: which reads are in flight, which requests wait
-- for them, and which demand is counted, pending, cancelled or parked.
use Prim.Native.String.{String}
use py_kvcache.Prelude.{
  ℕ, ◌+◌, ◌-◌, Bool, true, false, List, [], ◌∷◌, ◌++◌, Option, none, some, if◌then◌else◌, ltb, leb,
  length, drop, nat_eq, string_eq, pair_eq, ◌==◌,
}
use py_kvcache.Prelude.Int.{inc, dec}
use py_kvcache.Prelude.Keys.{contains, remove}
use py_kvcache.Prelude.Dict.{Dict, lookup_or, insert, delete}
use py_kvcache.Reactor.State.{PreloadInfo, Demand}

unfoldable pub inflight_add : Demand → ℕ → Demand
inflight_add d h = record d {
  inflight_hashes = insert h (lookup_or h 0 d.inflight_hashes + 1) d.inflight_hashes;
  inflight_total = inc d.inflight_total;
}

unfoldable pub inflight_remove : Demand → ℕ → Demand
inflight_remove d h =
    let count = lookup_or h 0 d.inflight_hashes in
    if count == 0 then d else record d {
      inflight_total = dec d.inflight_total;
      inflight_hashes =
          if count == 1 then delete h d.inflight_hashes else insert h (count - 1) d.inflight_hashes;
    }

unfoldable pub has_inflight : Demand → ℕ → Bool
has_inflight d h = ltb 0 (lookup_or h 0 d.inflight_hashes)

-- The job and the file that wait.
unfoldable pub waiter_add : Demand → ℕ → ℕ → ℕ → Demand
waiter_add d h job file_index = record d {
  waiters = insert h (lookup_or h [] d.waiters ++ (job, file_index) ∷ []) d.waiters;
}

-- The waiters that are left under a hash: no empty deque is kept.
unfoldable pub keep_waiters : Demand → ℕ → List (ℕ × ℕ) → Demand
keep_waiters d h [] = record d { waiters = delete h d.waiters }
keep_waiters d h (w ∷ rest) = record d { waiters = insert h (w ∷ rest) d.waiters }

pop_of : Demand → ℕ → List (ℕ × ℕ) → Demand × Option (ℕ × ℕ)
unfolding keep_waiters
pop_of d h [] = (d, none)
pop_of d h (w ∷ rest) = (keep_waiters d h rest, some w)

unfoldable pub waiter_pop : Demand → ℕ → Demand × Option (ℕ × ℕ)
unfolding pop_of
waiter_pop d h = pop_of d h (lookup_or h [] d.waiters)

unfoldable pub has_waiter : Demand → ℕ → Bool
has_waiter d h = ltb 0 (length (lookup_or h [] d.waiters))

unfoldable pub waiter_room : Demand → ℕ → Bool
waiter_room d h = ltb (length (lookup_or h [] d.waiters)) (lookup_or h 0 d.inflight_hashes)

-- `while len(owned) > max: popitem(last=False)`, after one key was added.
unfoldable pub preload_own : Demand → String → ℕ → Demand × Bool
preload_own d req_id h =
    let key : String × ℕ = (req_id, h) in
    if contains key d.owned then (d, false) else (
      record d { owned = drop (length (d.owned ++ key ∷ []) - d.max_owned) (d.owned ++ key ∷ []) },
      true,
    )

unfoldable pub pending_push : Demand → PreloadInfo → Demand
pending_push d info = record d {
  pending = d.pending ++ info ∷ [];
  pending_count =
      insert info.block_hash (lookup_or info.block_hash 0 d.pending_count + 1) d.pending_count;
}

-- A count is lowered, and its entry dropped at zero.
unfoldable pub lower : ℕ → Dict ℕ ℕ → Dict ℕ ℕ
lower h counts =
    let count = lookup_or h 0 counts in
    if leb count 1 then delete h counts else insert h (count - 1) counts

unfoldable pub pending_dec : Demand → ℕ → Demand
unfolding lower
pending_dec d h = record d { pending_count = lower h d.pending_count }

unfoldable pub consume_pending_cancel : Demand → ℕ → Demand
unfolding lower
consume_pending_cancel d h = record d { pending_cancel = lower h d.pending_cancel }

unfoldable pub cancel_one_pending : Demand → ℕ → Demand × Bool
cancel_one_pending d h =
    if leb (lookup_or h 0 d.pending_count) (lookup_or h 0 d.pending_cancel) then (d, false) else (
      record d { pending_cancel = insert h (lookup_or h 0 d.pending_cancel + 1) d.pending_cancel },
      true,
    )

-- The loop of `_drain_cancelled_pending`, over the pending copies.
unfoldable pub drain_cancelled : Demand → List PreloadInfo → Demand
unfolding pending_dec consume_pending_cancel
drain_cancelled d [] = record d { pending = [] }
drain_cancelled d (info ∷ rest) =
    let drained =
      drain_cancelled (pending_dec (consume_pending_cancel d info.block_hash) info.block_hash)
        rest in
    if ltb 0 (lookup_or info.block_hash 0 d.pending_cancel)
    then drained
    else record d { pending = info ∷ rest }

unfoldable pub drain_cancelled_pending : Demand → Demand
unfolding drain_cancelled
drain_cancelled_pending d = drain_cancelled d d.pending

-- The keys of other hashes.
unfoldable pub others : ℕ → List (String × ℕ) → List (String × ℕ)
others h [] = []
others h (key ∷ owned) = let rest = others h owned in if key.1 == h then rest else key ∷ rest

unfoldable pub purge_owned_for_hash : Demand → ℕ → Demand
unfolding others
purge_owned_for_hash d h = record d { owned = others h d.owned }

-- The deque of a hash, made if it is missing, gets one more copy.
unfoldable pub park : ℕ → PreloadInfo → Dict ℕ (List PreloadInfo) → Dict ℕ (List PreloadInfo)
park h info parked = insert h (lookup_or h [] parked ++ info ∷ []) parked

-- `OrderedDict.move_to_end` after `park`.
unfoldable pub park_last : ℕ → PreloadInfo → Dict ℕ (List PreloadInfo) → Dict ℕ (List PreloadInfo)
park_last h info parked = delete h parked ++ (h, lookup_or h [] parked ++ info ∷ []) ∷ []

-- `while len(known) > max: popitem(last=False)`, after at most one key was added.
unfoldable pub remember_known_missing : Demand → PreloadInfo → Demand
unfolding park_last
remember_known_missing d info =
    let known = park_last info.block_hash info d.known_missing in
    record d { known_missing = drop (length known - d.max_known_missing) known }

unfoldable pub block_on_write : Demand → PreloadInfo → Demand
unfolding park
block_on_write d info = record d { blocked_on_write = park info.block_hash info d.blocked_on_write }

-- `_shared_decref` of an owner, up to the slot: whether the last reference went.
unfoldable pub drop_owned : Demand → String → ℕ → Demand × Bool
drop_owned d req_id h =
    let count = lookup_or h 0 d.refcount in
    if ltb 1 count
    then (
      record d { owned = remove (req_id, h) d.owned; refcount = insert h (count - 1) d.refcount },
      false,
    )
    else (record d { owned = remove (req_id, h) d.owned; refcount = delete h d.refcount }, true)

unfoldable pub drop_reference : Demand → String → ℕ → Demand × Bool
unfolding drop_owned
drop_reference d req_id h =
    if contains (req_id, h) d.owned then drop_owned d req_id h else (d, false)
