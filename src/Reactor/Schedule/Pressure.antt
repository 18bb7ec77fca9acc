-- ===== src/Reactor/Schedule/Pressure.antt =====
-- What `_schedule_work` of py_kvcache/reactor.py asks before it begins something.
use py_kvcache.Prelude.{
  ℕ, ◌+◌, Bool, false, List, [], ◌∷◌, none, some, ltb, length, get_elem?, nat_eq, not, ◌&&◌, ◌||◌,
}
use py_kvcache.Prelude.Int.{pos, ◌+ℤ◌, is_below}
use py_kvcache.Prelude.Dict.{values}
use py_kvcache.Reactor.State.{
  Job, RingOp, open_load, open_preload, read_load, read_preload, write_store, close_fd, Reactor,
}
use py_kvcache.Reactor.Places.{preload_has_copy}
use py_kvcache.Reactor.Jobs.{is_set}

unfoldable pub can_issue_store : Reactor → Bool
can_issue_store r = is_below r.data_inflight r.iodepth

unfoldable pub can_open : Reactor → Bool
can_open r =
    is_below (r.open_inflight +ℤ pos (length r.ready_load + length r.ready_preload))
      r.open_lookahead

-- An open or a read of a load.
abbrev pub is_load_op : List Job → RingOp → Bool
is_load_op jobs (open_load job _) = elim (get_elem? jobs job) [
  | none ↦ false
  | some x ↦ not x.is_store
]
is_load_op jobs (open_preload _) = false
is_load_op jobs (read_load job _ _ _) = elim (get_elem? jobs job) [
  | none ↦ false
  | some x ↦ not x.is_store
]
is_load_op jobs (read_preload _ _ _) = false
is_load_op jobs (write_store _ _ _ _) = false
is_load_op jobs (close_fd _) = false

unfoldable pub any_load_op : List Job → List RingOp → Bool
any_load_op jobs [] = false
any_load_op jobs (op ∷ ops) = is_load_op jobs op || any_load_op jobs ops

-- A load whose next block has no copy in staging.
unfoldable pub wants_disk : Reactor → Job → Bool
unfolding preload_has_copy is_set
wants_disk r x =
    not (x.is_store || (is_set x.failed || is_set x.outcome))
    && (ltb x.next_file_index x.total_files && elim (get_elem? x.block_hashes x.next_file_index) [
      | none ↦ false
      | some h ↦ not (preload_has_copy r.slots r.demand h)
    ])

unfoldable pub any_wants_disk : Reactor → List ℕ → Bool
unfolding wants_disk
any_wants_disk r [] = false
any_wants_disk r (job ∷ active) =
    elim (get_elem? r.jobs job) [ none ↦ false | some x ↦ wants_disk r x ]
    || any_wants_disk r active

unfoldable pub has_real_load_pressure : Reactor → Bool
unfolding any_load_op any_wants_disk
has_real_load_pressure r =
    ltb 0 (length r.ready_load)
    || (any_load_op r.jobs (values r.slots.inflight) || any_wants_disk r r.active)

unfoldable pub preload_slots_available : Reactor → Bool
preload_slots_available r =
    is_below (r.slots.cached_total +ℤ r.demand.inflight_total) r.max_preload_slots
