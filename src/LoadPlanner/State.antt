-- ===== src/LoadPlanner/State.antt =====
-- The data of py_kvcache/load_planner.py, and the parts of `LoadPlanner` that keep its state between
-- calls of `plan`: the modelled storage queue, the staged hints and the defer deadlines. Events for
-- the profiler are left out.
use Prim.Native.String.{String}
use py_kvcache.Prelude.{
  ℕ, ◌+◌, Bool, List, [], ◌∷◌, ◌++◌, map, Option, none, some, if◌then◌else◌, ltb, string_eq, nat_eq,
}
use py_kvcache.Prelude.Keys.{contains}
use py_kvcache.Prelude.Dict.{Dict, keys, lookup, insert, delete, lookup_or}
use py_kvcache.Seconds.{Seconds, max_s, min_s, sum_from}
use py_kvcache.CostModel.{CostTables, service_s_of}

pub data LoadDecision : Type 0 where
  admit defer decline : LoadDecision

pub record CandidateCostInput : Type 0 where
  pub position : ℕ
  pub req_id : String
  pub recompute_tokens : ℕ
  pub load_blocks : ℕ
  pub loadable_hashes : List ℕ
  pub blocked_on_store : Bool
  pub predicted_dram_resident : Bool

pub record PlanResult : Type 0 where
  pub decision : LoadDecision
  pub preload_blocks : ℕ

-- `_STAGED_ABSENCE_LIMIT`
abbrev pub staged_absence_limit : ℕ
staged_absence_limit = 4

module _ (s : Seconds) where
  pub record Staging : Type 0 where
    pub req_id : String
    pub service_s : s.Time
    pub starts_at : s.Time
    pub ends_at : s.Time
    pub emitted_blocks : ℕ

  pub record LoadPlanner : Type 0 where
    pub tables : CostTables s
    pub max_preload_slots : ℕ
    pub defer_tolerance : s.Time
    pub defer_deadline_min_s : s.Time
    pub defer_deadline_max_s : s.Time
    pub entries : List Staging
    pub staging_by_req : Dict String Staging
    pub staged : Dict String ℕ
    pub deadline_at : Dict String s.Time
    pub deadline_absent : Dict String ℕ
    pub decisions : Dict String PlanResult

  unfoldable pub init : CostTables s → ℕ → s.Time → s.Time → s.Time → LoadPlanner
  init tables max_preload_slots tolerance max_deadline min_deadline = record {
    tables = tables;
    max_preload_slots = max_preload_slots;
    defer_tolerance = tolerance;
    defer_deadline_min_s = min_deadline;
    defer_deadline_max_s = max_deadline;
    entries = [];
    staging_by_req = [];
    staged = [];
    deadline_at = [];
    deadline_absent = [];
    decisions = [];
  }

  unfoldable pub reset : LoadPlanner → LoadPlanner
  reset p = record p {
    entries = [];
    staging_by_req = [];
    staged = [];
    deadline_at = [];
    deadline_absent = [];
    decisions = [];
  }

  -- The body of the loop of `_retire_shadow_entries`, for the first entry.
  unfoldable pub retire_one : LoadPlanner → Staging → LoadPlanner
  retire_one p entry = record p {
    staging_by_req = delete entry.req_id p.staging_by_req;
    staged = insert entry.req_id 0 p.staged;
  }

  unfoldable pub retire_from : s.Time → List Staging → LoadPlanner → LoadPlanner
  unfolding retire_one
  retire_from now [] p = record p { entries = [] }
  retire_from now (entry ∷ rest) p =
      let retired = retire_from now rest (retire_one p entry) in
      if s.le entry.ends_at now then retired else record p { entries = entry ∷ rest }

  unfoldable pub retire_shadow_entries : LoadPlanner → s.Time → LoadPlanner
  unfolding retire_from
  retire_shadow_entries p now = retire_from now p.entries p

  -- `self._entries[-1].ends_at`, or the default where the queue is empty.
  unfoldable pub last_end : s.Time → List Staging → s.Time
  last_end d [] = d
  last_end d (entry ∷ []) = entry.ends_at
  last_end d (entry ∷ next ∷ rest) = last_end d (next ∷ rest)

  residual_of : s.Time → List Staging → s.Time
  unfolding last_end
  residual_of now [] = s.of_nat 0
  residual_of now (entry ∷ rest) = max_s s (s.of_nat 0) (s.sub (last_end now (entry ∷ rest)) now)

  unfoldable pub shadow_residual : LoadPlanner → s.Time → s.Time
  unfolding residual_of
  shadow_residual p now = residual_of now p.entries

  unfoldable pub jobs_floor : LoadPlanner → List ℕ → s.Time
  jobs_floor p outstanding = sum_from s (s.of_nat 0) (map (service_s_of s p.tables) outstanding)

  unfoldable pub starts_after : s.Time → List Staging → s.Time
  unfolding last_end
  starts_after now [] = now
  starts_after now (entry ∷ rest) = max_s s now (last_end now (entry ∷ rest))

  unfoldable pub new_entry : LoadPlanner → String → s.Time → s.Time → ℕ → Staging
  unfolding starts_after
  new_entry p req_id service now emitted =
      let starts = starts_after now p.entries in
      record {
        req_id = req_id;
        service_s = service;
        starts_at = starts;
        ends_at = s.add starts service;
        emitted_blocks = emitted;
      }

  unfoldable pub append_shadow_entry : LoadPlanner → String → s.Time → s.Time → ℕ → LoadPlanner
  append_shadow_entry p req_id service now emitted =
      let entry = new_entry p req_id service now emitted in
      record p {
        entries = p.entries ++ entry ∷ [];
        staging_by_req = insert req_id entry p.staging_by_req;
      }

  unfoldable pub gc_absent : List String → Dict String ℕ → Dict String ℕ
  gc_absent ids [] = []
  gc_absent ids ((req_id, absent) ∷ d) =
      let rest = gc_absent ids d in
      if contains req_id ids
      then (req_id, 0) ∷ rest
      else if ltb staged_absence_limit (absent + 1)
      then rest
      else (req_id, absent + 1) ∷ rest

  unfoldable pub gc_staged : LoadPlanner → List String → LoadPlanner
  unfolding gc_absent
  gc_staged p ids = record p { staged = gc_absent ids p.staged }

  -- The body of the loop of `_gc_deadlines`.
  unfoldable pub gc_deadline : LoadPlanner → List String → String → LoadPlanner
  gc_deadline p ids req_id =
      let absent = lookup_or req_id 0 p.deadline_absent + 1 in
      if contains req_id ids
      then record p { deadline_absent = delete req_id p.deadline_absent }
      else if ltb staged_absence_limit absent
      then record p {
        deadline_at = delete req_id p.deadline_at;
        deadline_absent = delete req_id p.deadline_absent;
      }
      else record p { deadline_absent = insert req_id absent p.deadline_absent }

  unfoldable pub gc_each : LoadPlanner → List String → List String → LoadPlanner
  unfolding gc_deadline
  gc_each p ids [] = p
  gc_each p ids (req_id ∷ rest) = gc_each (gc_deadline p ids req_id) ids rest

  unfoldable pub gc_deadlines : LoadPlanner → List String → LoadPlanner
  unfolding gc_each
  gc_deadlines p ids = gc_each p ids (keys p.deadline_at)

  -- `min(max_s, max(min_s, tolerance * wait))`
  unfoldable pub grace : LoadPlanner → s.Time → s.Time
  grace p wait =
      min_s s p.defer_deadline_max_s (max_s s p.defer_deadline_min_s (s.mul p.defer_tolerance wait))

  unfoldable pub arm_unless :
      LoadPlanner → String → s.Time → s.Time → Option s.Time → LoadPlanner × s.Time
  unfolding grace
  arm_unless p req_id now wait (some existing) = (p, existing)
  arm_unless p req_id now wait none =
      let deadline = s.add now (grace p wait) in
      (record p { deadline_at = insert req_id deadline p.deadline_at }, deadline)

  unfoldable pub arm_deadline : LoadPlanner → String → s.Time → s.Time → LoadPlanner × s.Time
  unfolding arm_unless
  arm_deadline p req_id now wait = arm_unless p req_id now wait (lookup req_id p.deadline_at)
