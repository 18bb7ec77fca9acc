-- ===== src/LoadPlanner.antt =====
-- `LoadPlanner.plan` of py_kvcache/load_planner.py: what each branch of its loop over the candidates
-- does to the loop's variables and to the planner. `now` is what the time source returned at the start
-- of the call; events for the profiler are left out.
pub mod State
pub mod Branches
pub mod Decisions
pub mod Deadlines
pub mod Deferral
pub mod Queue
pub mod Reads
pub mod Outcomes
use Prim.Native.String.{String}
use py_kvcache.Prelude.{
  ℕ, ◌+◌, ◌-◌, ◌*◌, ◌/◌, Bool, true, false, List, [], ◌∷◌, map, Option, none, some, if◌then◌else◌,
  leb, ltb, length, take, string_eq, nat_eq, ◌==◌, ◌||◌,
}
use py_kvcache.Prelude.Dict.{Dict, keys, lookup, insert, delete, has}
use py_kvcache.Seconds.{Seconds, max_s, max_or}
use py_kvcache.CostModel.{recompute_s, load_mem_s, service_s_of}
use State.{
  LoadDecision, admit, defer, decline, CandidateCostInput, PlanResult, Staging, LoadPlanner,
  retire_shadow_entries, shadow_residual, jobs_floor, append_shadow_entry, gc_staged, gc_deadlines,
  arm_deadline,
}

-- `-(-tokens // block_tokens)`
unfoldable pub ceil_div : ℕ → ℕ → ℕ
ceil_div tokens block_tokens = (tokens + (block_tokens - 1)) / block_tokens

unfoldable pub decision_of : Option PlanResult → Option LoadDecision
decision_of none = none
decision_of (some result) = some result.decision

module _ (s : Seconds) where
  -- `_distinct_count`
  unfoldable pub distinct_count : List ℕ → Dict ℕ s.Time → ℕ
  distinct_count [] staged_at = 0
  distinct_count (h ∷ hashes) staged_at =
      (if has h staged_at then 0 else 1) + distinct_count hashes staged_at

  -- `previous is None or ready_in_s < previous`
  unfoldable pub is_earlier : s.Time → Option s.Time → Bool
  is_earlier ready none = true
  is_earlier ready (some previous) = s.lt ready previous

  -- The loop of `_record_staged`; `index` counts from 0.
  unfoldable pub record_from : s.Time → s.Time → ℕ → ℕ → List ℕ → Dict ℕ s.Time → Dict ℕ s.Time
  unfolding is_earlier
  record_from start span total index [] staged_at = staged_at
  record_from start span total index (h ∷ hashes) staged_at =
      let ready = s.add start (s.div (s.mul span (s.of_nat (index + 1))) (s.of_nat total)) in
      record_from start span total (index + 1) hashes
        (if is_earlier ready (lookup h staged_at) then insert h ready staged_at else staged_at)

  unfoldable pub record_staged : Dict ℕ s.Time → List ℕ → s.Time → s.Time → Dict ℕ s.Time
  unfolding record_from
  record_staged staged_at hashes start_in end_in =
      record_from start_in (max_s s (s.of_nat 0) (s.sub end_in start_in)) (length hashes) 0 hashes
        staged_at

  covered_times : List ℕ → Dict ℕ s.Time → List s.Time
  covered_times [] staged_at = []
  covered_times (h ∷ hashes) staged_at =
      let rest = covered_times hashes staged_at in
      elim (lookup h staged_at) [ none ↦ rest | some t ↦ t ∷ rest ]

  -- `_covered_ready_in_s`
  unfoldable pub covered_ready_in : List ℕ → Dict ℕ s.Time → s.Time
  unfolding covered_times
  covered_ready_in hashes staged_at = max_or s (s.of_nat 0) (covered_times hashes staged_at)

  unfoldable pub recompute_for_tokens : LoadPlanner s → ℕ → s.Time
  unfolding ceil_div
  recompute_for_tokens p tokens = recompute_s s p.tables (ceil_div tokens p.tables.block_tokens)

  -- The variables of `plan`'s loop, beside the planner itself.
  pub record Loop : Type 0 where
    pub planner : LoadPlanner s
    pub storage_wait : s.Time
    pub gpu_wait : s.Time
    pub budget : ℕ
    pub staged_at : Dict ℕ s.Time
    pub decisions : Dict String PlanResult

  -- `decisions[c.req_id] = PlanResult(decision, blocks)`
  unfoldable pub decide : Loop → CandidateCostInput → LoadDecision → ℕ → Loop
  decide l c decision blocks = record l {
    decisions =
        insert c.req_id (record { decision = decision; preload_blocks = blocks }) l.decisions;
  }

  -- `max(0.0, t - now)`
  unfoldable pub from_now : s.Time → s.Time → s.Time
  from_now now t = max_s s (s.of_nat 0) (s.sub t now)

  -- A read that is already modelled: its blocks are noted once more, and it is emitted again.
  unfoldable pub note_outstanding : s.Time → Loop → CandidateCostInput → Staging s → Loop
  unfolding from_now record_staged
  note_outstanding now l c o = record l {
    staged_at =
        record_staged l.staged_at (take o.emitted_blocks c.loadable_hashes)
          (from_now now o.starts_at) (from_now now o.ends_at);
  }

  -- `0.0 if distinct == 0 else self._tables.service_s_of(distinct)`
  unfoldable pub service_for : LoadPlanner s → ℕ → s.Time
  service_for p distinct = if distinct == 0 then s.of_nat 0 else service_s_of s p.tables distinct

  -- A blocked candidate whose read fits the budget: the read is modelled and charged.
  unfoldable pub plan_speculate : s.Time → Loop → CandidateCostInput → Loop
  unfolding decide service_for record_staged distinct_count
  plan_speculate now l c =
      let distinct = distinct_count c.loadable_hashes l.staged_at in
      let service = service_for l.planner distinct in
      let wait = s.add l.storage_wait service in
      decide
        (record l {
          budget = l.budget - distinct;
          storage_wait = wait;
          planner = append_shadow_entry s l.planner c.req_id service now c.load_blocks;
          staged_at = record_staged l.staged_at c.loadable_hashes l.storage_wait wait;
        })
        c defer c.load_blocks

  -- `c.blocked_on_store`, for a request without a modelled read.
  unfoldable pub plan_mid_write : s.Time → Loop → CandidateCostInput → Loop
  unfolding plan_speculate distinct_count decide
  plan_mid_write now l c =
      if leb (distinct_count c.loadable_hashes l.staged_at) l.budget
      then plan_speculate now l c
      else decide l c defer 0

  unfoldable pub plan_blocked : s.Time → Loop → CandidateCostInput → Option (Staging s) → Loop
  unfolding plan_mid_write note_outstanding decide
  plan_blocked now l c none = plan_mid_write now l c
  plan_blocked now l c (some o) = decide (note_outstanding now l c o) c defer o.emitted_blocks

  -- `c.load_blocks == 0`
  unfoldable pub plan_missing : Loop → CandidateCostInput → Loop
  unfolding decide recompute_for_tokens
  plan_missing l c =
      decide
        (record l {
          gpu_wait = s.add l.gpu_wait (recompute_for_tokens l.planner c.recompute_tokens);
        })
        c decline 0

  -- `self._staged.pop(c.req_id, None)` and an admission.
  unfoldable pub plan_resident : Loop → CandidateCostInput → Loop
  unfolding decide
  plan_resident l c =
      decide
        (record l { planner = record (l.planner) { staged = delete c.req_id l.planner.staged } }) c
        admit 0

  -- `deadline_at is not None and now >= deadline_at`
  unfoldable pub is_past : s.Time → Option s.Time → Bool
  is_past now none = false
  is_past now (some deadline) = s.le deadline now

  -- A candidate that is deferred already.
  unfoldable pub plan_outstanding : s.Time → Loop → CandidateCostInput → Staging s → Loop
  unfolding is_past plan_resident note_outstanding decide from_now
  plan_outstanding now l c o =
      if is_past now (lookup c.req_id l.planner.deadline_at)
      then plan_resident l c
      else decide
          (note_outstanding now
            (record l {
              planner = (arm_deadline s l.planner c.req_id now (from_now now o.ends_at)).0;
            })
            c o)
          c defer o.emitted_blocks

  unfoldable pub storage_done : Loop → CandidateCostInput → s.Time
  unfolding distinct_count covered_ready_in
  storage_done l c =
      let distinct = distinct_count c.loadable_hashes l.staged_at in
      let covered = covered_ready_in c.loadable_hashes l.staged_at in
      if distinct == 0
      then covered
      else max_s s covered (s.add l.storage_wait (service_s_of s l.planner.tables distinct))

  unfoldable pub t_load : Loop → CandidateCostInput → s.Time
  unfolding storage_done
  t_load l c =
      s.add (max_s s (storage_done l c) l.gpu_wait) (load_mem_s s l.planner.tables c.load_blocks)

  unfoldable pub t_recompute : Loop → CandidateCostInput → s.Time
  unfolding recompute_for_tokens
  t_recompute l c = s.add l.gpu_wait (recompute_for_tokens l.planner c.recompute_tokens)

  -- The candidate is deferred, and its read is modelled and charged.
  unfoldable pub plan_defer : s.Time → Loop → CandidateCostInput → Loop
  unfolding decide service_for record_staged distinct_count covered_ready_in storage_done
  plan_defer now l c =
      let distinct = distinct_count c.loadable_hashes l.staged_at in
      let covered = covered_ready_in c.loadable_hashes l.staged_at in
      let service = service_for l.planner distinct in
      let wait = s.add l.storage_wait service in
      let armed = (arm_deadline s l.planner c.req_id now (storage_done l c)).0 in
      decide
        (record l {
          budget = l.budget - distinct;
          storage_wait = wait;
          planner = append_shadow_entry s armed c.req_id service now c.load_blocks;
          staged_at =
              record_staged l.staged_at c.loadable_hashes
                (max_s s l.storage_wait (if distinct == 0 then covered else s.of_nat 0))
                (max_s s wait covered);
        })
        c defer c.load_blocks

  -- The candidate is admitted, and its read goes to the storage queue.
  unfoldable pub plan_admit : Loop → CandidateCostInput → Loop
  unfolding decide storage_done
  plan_admit l c = decide (record l { storage_wait = storage_done l c }) c admit 0

  -- A candidate with blocks to load that is scored anew.
  unfoldable pub plan_fresh : s.Time → Loop → CandidateCostInput → Loop
  unfolding t_load t_recompute plan_missing is_past plan_admit plan_defer distinct_count
  plan_fresh now l c =
      if s.le (t_recompute l c) (t_load l c)
      then plan_missing l c
      else if is_past now (lookup c.req_id l.planner.deadline_at)
      then plan_admit l c
      else if leb (distinct_count c.loadable_hashes l.staged_at) l.budget
      then plan_defer now l c
      else plan_admit l c

  unfoldable pub plan_known : s.Time → Loop → CandidateCostInput → Option (Staging s) → Loop
  unfolding plan_fresh plan_outstanding
  plan_known now l c none = plan_fresh now l c
  plan_known now l c (some o) = plan_outstanding now l c o

  -- The body of the loop.
  unfoldable pub plan_one : s.Time → Loop → CandidateCostInput → Loop
  unfolding plan_blocked plan_missing plan_resident plan_known
  plan_one now l c =
      let outstanding = lookup c.req_id l.planner.staging_by_req in
      if c.blocked_on_store
      then plan_blocked now l c outstanding
      else if c.load_blocks == 0
      then plan_missing l c
      else if c.predicted_dram_resident || has c.req_id l.planner.staged
      then plan_resident l c
      else plan_known now l c outstanding

  unfoldable pub plan_each : s.Time → Loop → List CandidateCostInput → Loop
  unfolding plan_one
  plan_each now l [] = l
  plan_each now l (c ∷ candidates) = plan_each now (plan_one now l c) candidates

  abbrev pub candidate_ids : List CandidateCostInput → List String
  candidate_ids = map (λ (c : CandidateCostInput). c.req_id)

  -- `plan` up to its loop: old reads retire, absent requests are forgotten, and the loop's variables
  -- are set.
  unfoldable pub start : LoadPlanner s → s.Time → List CandidateCostInput → List ℕ → Loop
  start p now candidates outstanding =
      let ids = candidate_ids candidates in
      let q = gc_deadlines s (gc_staged s (retire_shadow_entries s p now) ids) ids in
      record {
        planner = q;
        storage_wait = max_s s (shadow_residual s q now) (jobs_floor s q outstanding);
        gpu_wait = s.of_nat 0;
        budget = q.max_preload_slots;
        staged_at = [];
        decisions = [];
      }

  -- The planner after the call, and the decisions that it returns.
  unfoldable pub plan :
      LoadPlanner s
      → s.Time
      → List CandidateCostInput
      → List ℕ
      → LoadPlanner s × Dict String PlanResult
  unfolding start plan_each
  plan p now candidates outstanding =
      let l = plan_each now (start p now candidates outstanding) candidates in
      (record (l.planner) { decisions = l.decisions }, l.decisions)

  unfoldable pub decision_for : LoadPlanner s → String → Option LoadDecision
  unfolding decision_of
  decision_for p req_id = decision_of (lookup req_id p.decisions)
