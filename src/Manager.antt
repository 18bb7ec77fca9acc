-- ===== src/Manager.antt =====
-- `SharedStorageOffloadingManager` of py_kvcache/vllm.py, the scheduler's side. vLLM's offload keys
-- are parameters: a type with its group index and block hash. `os.path.exists` of a hash's file is the
-- argument `exists`, the file system as one operation sees it. An operation that raises returns the
-- exception alone. Events for the profiler are left out.
pub mod Lookup
pub mod Entries
pub mod Stores
pub mod Prefix
use Prim.Native.String.{String}
use py_kvcache.Prelude.{
  ℕ, ◌+◌, ◌-◌, Bool, true, false, List, [], ◌∷◌, map, Option, none, some, Result, ok, err,
  value_error, ◌>>=◌, if◌then◌else◌, ltb, length, nat_eq, string_eq, ◌==◌, not, ◌&&◌, ◌||◌,
}
use py_kvcache.Prelude.Keys.{contains, add, remove}
use py_kvcache.Prelude.Dict.{Dict, lookup, lookup_or, insert, delete, has}
use py_kvcache.Seconds.{Seconds}
use py_kvcache.LoadPlanner.State.{
  LoadDecision, admit, defer, decline, CandidateCostInput, PlanResult, LoadPlanner, reset,
}
use py_kvcache.LoadPlanner.{plan, decision_for}

-- What the code uses of vLLM's `OffloadKey`: `get_offload_group_idx` and `get_offload_block_hash`.
pub record OffloadKeys : Type 1 where
  pub Key : Type 0
  pub group_idx : Key → ℕ
  pub block_hash : Key → ℕ

pub data PlanDecision : Type 0 where
  plan_admit plan_defer plan_decline : PlanDecision

pub record PlanOutcome : Type 0 where
  pub decision : PlanDecision
  pub preload_blocks : ℕ

-- `_DECISION_TO_PLAN`
unfoldable pub decision_to_plan : LoadDecision → PlanDecision
decision_to_plan admit = plan_admit
decision_to_plan defer = plan_defer
decision_to_plan decline = plan_decline

unfoldable pub outcomes : Dict String PlanResult → Dict String PlanOutcome
unfolding decision_to_plan
outcomes [] = []
outcomes ((req_id, result) ∷ results) =
    (
      req_id,
      record {
        decision = decision_to_plan result.decision;
        preload_blocks = result.preload_blocks;
      },
    )
    ∷ outcomes results

module _ (s : Seconds) (k : OffloadKeys) where
  open k use {Key, group_idx, block_hash}

  pub record Manager : Type 0 where
    pub lookup_cache : Dict ℕ Bool
    pub probed_hashes : List ℕ
    pub last_io_req_id : Option String
    pub store_inflight : Dict ℕ ℕ
    pub planner : Option (LoadPlanner s)

  unfoldable pub init : Option (LoadPlanner s) → Manager
  init planner = record {
    lookup_cache = [];
    probed_hashes = [];
    last_io_req_id = none;
    store_inflight = [];
    planner = planner;
  }

  unfoldable pub get_block_hash : Key → Result ℕ
  get_block_hash key = if group_idx key == 0 then ok (block_hash key) else err value_error

  unfoldable pub same_req : Option String → Option String → Bool
  same_req none none = true
  same_req none (some b) = false
  same_req (some a) none = false
  same_req (some a) (some b) = a == b

  unfoldable pub maybe_flush_lookup_cache : Manager → Option String → Manager
  unfolding same_req
  maybe_flush_lookup_cache m req_id =
      if same_req req_id m.last_io_req_id
      then m
      else record m { lookup_cache = []; probed_hashes = []; last_io_req_id = req_id }

  -- The manager after, and whether the file exists and whether it is being written.
  unfoldable pub probe : (ℕ → Bool) → Manager → ℕ → Manager × Bool × Bool
  probe exists m h =
      if has h m.lookup_cache
      then (m, true, false)
      else if exists h
      then (
        record m {
          lookup_cache = insert h true m.lookup_cache;
          probed_hashes = add h m.probed_hashes;
        },
        true,
        false,
      )
      else (m, false, has h m.store_inflight)

  pub record PlanCandidate : Type 0 where
    pub position : ℕ
    pub req_id : String
    pub recompute_tokens : ℕ
    pub keys : List Key

  -- `loadable_hashes` and `blocked_on_store` of a candidate.
  pub record Scan : Type 0 where
    pub manager : Manager
    pub loadable_hashes : List ℕ
    pub blocked_on_store : Bool

  -- The hash in front of what is scanned behind it.
  unfoldable pub prepend : ℕ → Bool → Scan → Scan
  prepend h mid_write x = record x {
    loadable_hashes = h ∷ x.loadable_hashes;
    blocked_on_store = mid_write || x.blocked_on_store;
  }

  -- The loop over a candidate's keys; it breaks at the first that is neither on disk nor written.
  unfoldable pub scan_keys : (ℕ → Bool) → Manager → List Key → Result Scan
  unfolding get_block_hash probe prepend
  scan_keys exists m [] =
      ok (record { manager = m; loadable_hashes = []; blocked_on_store = false })
  scan_keys exists m (key ∷ keys) = elim (get_block_hash key) [
    | err e ↦ err e
    | ok h ↦
        let (m', found, mid_write) = probe exists m h in
        let rest = scan_keys exists m' keys in
        if found || mid_write
        then (do x ← rest; ok (prepend h mid_write x))
        else ok (record { manager = m'; loadable_hashes = []; blocked_on_store = false })
  ]

  unfoldable pub cost_input : PlanCandidate → Scan → CandidateCostInput
  cost_input c x = record {
    position = c.position;
    req_id = c.req_id;
    recompute_tokens = c.recompute_tokens;
    load_blocks = length x.loadable_hashes;
    loadable_hashes = x.loadable_hashes;
    blocked_on_store = x.blocked_on_store;
    predicted_dram_resident = false;
  }

  unfoldable pub cost_inputs :
      (ℕ → Bool) → Manager → List PlanCandidate → Result (Manager × List CandidateCostInput)
  unfolding scan_keys cost_input
  cost_inputs exists m [] = ok (m, [])
  cost_inputs exists m (c ∷ candidates) = do
    x ← scan_keys exists m c.keys
    (m', inputs) ← cost_inputs exists x.manager candidates
    ok (m', cost_input c x ∷ inputs)

  planned :
      s.Time
      → List ℕ
      → LoadPlanner s
      → Manager × List CandidateCostInput
      → Manager × Dict String PlanOutcome
  unfolding outcomes
  planned now outstanding p (m, inputs) =
      let (p', results) = plan s p now inputs outstanding in
      (record m { planner = some p' }, outcomes results)

  -- `now` is what the planner's time source returns.
  unfoldable pub plan_candidates :
      (ℕ → Bool)
      → s.Time
      → Manager
      → List PlanCandidate
      → List ℕ
      → Result (Manager × Dict String PlanOutcome)
  unfolding cost_inputs planned
  plan_candidates exists now m candidates outstanding = elim m.planner [
    | none ↦ ok (m, [])
    | some p ↦ do found ← cost_inputs exists m candidates; ok (planned now outstanding p found)
  ]

  -- `self._planner.decision_for(req_id)`, none without a planner or an id.
  unfoldable pub planner_decision : Option (LoadPlanner s) → Option String → Option LoadDecision
  planner_decision none req_id = none
  planner_decision (some p) none = none
  planner_decision (some p) (some req_id) = decision_for s p req_id

  -- The last lines of `lookup`.
  unfoldable pub gate : Option LoadDecision → Bool → Option Bool
  gate none cached = some cached
  gate (some admit) cached = some cached
  gate (some defer) cached = none
  gate (some decline) cached = some false

  -- What `lookup` does to the manager.
  unfoldable pub note_lookup : (ℕ → Bool) → Manager → ℕ → Manager
  note_lookup exists m h = record m {
    lookup_cache =
        if has h m.lookup_cache
        then m.lookup_cache
        else if exists h
        then insert h true m.lookup_cache
        else m.lookup_cache;
    probed_hashes = remove h m.probed_hashes;
  }

  unfoldable pub look_up : (ℕ → Bool) → Manager → ℕ → Option String → Manager × Option Bool
  unfolding planner_decision gate note_lookup
  look_up exists m h req_id =
      let cached = has h m.lookup_cache || exists h in
      (
        note_lookup exists m h,
        if not cached && has h m.store_inflight
            then none
            else gate (planner_decision m.planner req_id) cached,
      )

  -- `lookup`: the manager after, and the answer, `none` for `None`.
  unfoldable pub lookup_key :
      (ℕ → Bool) → Manager → Key → Option String → Result (Manager × Option Bool)
  unfolding get_block_hash look_up
  lookup_key exists m key req_id = do h ← get_block_hash key; ok (look_up exists m h req_id)

  unfoldable pub hashes_of : List Key → Result (List ℕ)
  unfolding get_block_hash
  hashes_of [] = ok []
  hashes_of (key ∷ keys) = do h ← get_block_hash key; hs ← hashes_of keys; ok (h ∷ hs)

  unfoldable pub prepare_load : Manager → List Key → Option String → Result (Manager × List ℕ)
  unfolding hashes_of maybe_flush_lookup_cache
  prepare_load m keys req_id = do hs ← hashes_of keys; ok (maybe_flush_lookup_cache m req_id, hs)

  pub record PrepareStoreOutput : Type 0 where
    pub keys_to_store : List Key
    pub block_hashes : List ℕ

  -- `self._store_inflight[h] = self._store_inflight.get(h, 0) + 1`
  unfoldable pub begin_store : Manager → ℕ → Manager
  begin_store m h = record m {
    store_inflight = insert h (lookup_or h 0 m.store_inflight + 1) m.store_inflight;
  }

  -- The loop of `prepare_store`.
  unfoldable pub store_keys :
      (ℕ → Bool) → Manager → List Key → Result (Manager × PrepareStoreOutput)
  unfolding get_block_hash begin_store
  store_keys exists m [] = ok (m, record { keys_to_store = []; block_hashes = [] })
  store_keys exists m (key ∷ keys) = do
    h ← get_block_hash key
    (m', out) ← store_keys exists (if exists h then m else begin_store m h) keys
    ok (
        if exists h then (m', out) else (
          m',
          record { keys_to_store = key ∷ out.keys_to_store; block_hashes = h ∷ out.block_hashes },
        ))

  unfoldable pub prepare_store :
      (ℕ → Bool) → Manager → List Key → Option String → Result (Manager × PrepareStoreOutput)
  unfolding store_keys maybe_flush_lookup_cache
  prepare_store exists m keys req_id = store_keys exists (maybe_flush_lookup_cache m req_id) keys

  -- The body of the loop of `complete_store`.
  unfoldable pub end_store : Manager → ℕ → Manager
  end_store m h =
      let count = lookup_or h 0 m.store_inflight - 1 in
      record m {
        store_inflight =
            if ltb 0 count then insert h count m.store_inflight else delete h m.store_inflight;
        lookup_cache = delete h m.lookup_cache;
        probed_hashes = remove h m.probed_hashes;
      }

  unfoldable pub complete_store : Manager → List Key → Result Manager
  unfolding get_block_hash end_store
  complete_store m [] = ok m
  complete_store m (key ∷ keys) = do h ← get_block_hash key; complete_store (end_store m h) keys

  reset_planner : Option (LoadPlanner s) → Option (LoadPlanner s)
  reset_planner none = none
  reset_planner (some p) = some (reset s p)

  unfoldable pub reset_cache : Manager → Manager
  unfolding reset_planner
  reset_cache m = record {
    lookup_cache = [];
    probed_hashes = [];
    last_io_req_id = none;
    store_inflight = [];
    planner = reset_planner m.planner;
  }
