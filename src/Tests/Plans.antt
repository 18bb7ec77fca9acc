-- ===== src/Tests/Plans.antt =====
-- py_kvcache/load_planner.py with times in whole ticks.
use Prim.Native.String.{String}
use py_kvcache.Prelude.{
  ℕ, ◌≡◌, ◌≢◌, ◌⊎◌, refl, false, true, List, [], ◌∷◌, ◌++◌, some, string_eq, nat_eq, arith, All,
}
use py_kvcache.Prelude.Dict.{lookup}
use py_kvcache.Seconds.{ticks, ticks-IsOrdered, max_or, sum_from}
use py_kvcache.CostModel.{CostTables, recompute_s, load_mem_s, service_s_of}
use py_kvcache.LoadPlanner.State.{
  defer, CandidateCostInput, Staging, LoadPlanner, init, retire_from, retire_shadow_entries,
  gc_staged, gc_deadlines, shadow_residual, jobs_floor, arm_deadline, append_shadow_entry,
}
use py_kvcache.LoadPlanner.{plan, plan_each, start, decision_for}
use py_kvcache.LoadPlanner.Queue.{retire_from-late, find_entry}
use py_kvcache.LoadPlanner.Reads.{Queued, NonNegative, plan-Queued}
use py_kvcache.LoadPlanner.Deadlines.{IsBounded}
use py_kvcache.LoadPlanner.Deferral.{plan-IsBounded, plan-expired, plan-armed, deferral_ends}
use py_kvcache.LoadPlanner.Decisions.{plan-idle}
use py_kvcache.LoadPlanner.Outcomes.{plan-mid_write}

-- A block takes 100 ticks to recompute, 10 to read and 1 to copy.
abbrev tables : CostTables ticks
tables = record {
  block_tokens = 16;
  f_s = 0 ∷ 100 ∷ 200 ∷ [];
  g_ssd_s = 0 ∷ 11 ∷ 21 ∷ [];
  g_mem_s = 0 ∷ 1 ∷ 1 ∷ [];
  service_s = 0 ∷ 10 ∷ 20 ∷ [];
  max_blocks = 2;
}

abbrev planner : LoadPlanner ticks
planner = record {
  tables = tables;
  max_preload_slots = 4;
  defer_tolerance = 2;
  defer_deadline_min_s = 5;
  defer_deadline_max_s = 50;
  entries = [];
  staging_by_req = [];
  staged = [];
  deadline_at = [];
  deadline_absent = [];
  decisions = [];
}

abbrev candidate : String → List ℕ → CandidateCostInput
candidate id hashes = record {
  position = 0;
  req_id = id;
  recompute_tokens = 32;
  load_blocks = 2;
  loadable_hashes = hashes;
  blocked_on_store = false;
  predicted_dram_resident = false;
}

abbrev first : CandidateCostInput
first = candidate "a" (1 ∷ 2 ∷ [])

abbrev second : CandidateCostInput
second = candidate "b" (1 ∷ 3 ∷ [])

abbrev writing : CandidateCostInput
writing = record second { blocked_on_store = true }

abbrev empty : CandidateCostInput
empty = record second { load_blocks = 0; loadable_hashes = [] }

abbrev overdue : LoadPlanner ticks
overdue = record planner { deadline_at = ("a", 90) ∷ [] }

program : Unit {0}
unfolding init plan decision_for retire_shadow_entries gc_staged gc_deadlines shadow_residual
    jobs_floor arm_deadline append_shadow_entry max_or sum_from start plan_each recompute_s
    load_mem_s service_s_of
program = tt

-- Both requests are deferred, the second for the block that the first does not read.
plan_two :
    (plan ticks planner 100 (first ∷ second ∷ []) []).1
    ≡ ("a", record { decision = defer; preload_blocks = 2 })
      ∷ ("b", record { decision = defer; preload_blocks = 2 })
      ∷ []
unfolding program
plan_two = refl

first_deferred :
    decision_for ticks (plan ticks planner 100 ([] ++ first ∷ []) []).0 "a" ≡ some defer
unfolding program
first_deferred = refl

planner-IsBounded : (now : ℕ) → IsBounded ticks planner now
planner-IsBounded now id d h = cc

plan-IsBounded_example : IsBounded ticks (plan ticks planner 100 (first ∷ []) []).0 100
plan-IsBounded_example =
    plan-IsBounded ticks ticks-IsOrdered planner 100 [] (first ∷ []) (planner-IsBounded 100)

plan-expired_example :
    decision_for ticks (plan ticks overdue 100 ([] ++ first ∷ []) []).0 "a" ≢ some defer
plan-expired_example =
    plan-expired ticks ticks-IsOrdered overdue 100 [] [] first [] 90 refl refl refl refl

plan-armed_example :
    (d : ℕ) × (lookup "a" (plan ticks planner 100 ([] ++ first ∷ []) []).0.deadline_at ≡ some d)
plan-armed_example =
    plan-armed ticks ticks-IsOrdered planner 100 [] [] first [] refl refl first_deferred

deferral_ends_example :
    decision_for ticks
      (plan ticks (plan ticks planner 100 ([] ++ first ∷ []) []).0 150 ([] ++ first ∷ []) []).0
      "a"
    ≢ some defer
deferral_ends_example =
    deferral_ends ticks ticks-IsOrdered planner 100 150 [] [] [] first [] [] first []
      (planner-IsBounded 100) refl refl first_deferred refl refl refl refl

plan-mid_write_example :
    decision_for ticks (plan ticks planner 100 ((first ∷ []) ++ writing ∷ []) []).0 "b" ≡ some defer
plan-mid_write_example = plan-mid_write ticks planner 100 [] (first ∷ []) writing [] refl refl

two_decided :
    lookup "b" (plan ticks planner 100 (first ∷ second ∷ []) []).1
    ≡ some (record { decision = defer; preload_blocks = 2 })
unfolding program
two_decided = refl

plan-idle_example : (defer ≡ defer) ⊎ (◌≡◌ {A = ℕ} 2 0)
plan-idle_example =
    plan-idle ticks planner 100 [] (first ∷ second ∷ []) "b"
      (record { decision = defer; preload_blocks = 2 }) two_decided

tables-NonNegative : NonNegative ticks tables
tables-NonNegative n = ground arith

planner-Queued : Queued ticks planner
unfolding find_entry
planner-Queued = record { once = tt; same = λ id. refl; in_turn = tt }

plan-Queued_example : Queued ticks (plan ticks planner 100 (first ∷ second ∷ []) []).0
plan-Queued_example =
    plan-Queued ticks ticks-IsOrdered planner 100 (first ∷ second ∷ []) [] tables-NonNegative
      planner-Queued

abbrev read : String → ℕ → ℕ → Staging ticks
read id starts ends = record {
  req_id = id;
  service_s = 10;
  starts_at = starts;
  ends_at = ends;
  emitted_blocks = 1;
}

abbrev reads : List (Staging ticks)
reads = read "a" 80 90 ∷ read "b" 90 110 ∷ []

retire_from-late_example :
    All
      (λ (f : Staging ticks). ticks.le f.ends_at 100 ≡ false)
      (retire_from ticks 100 reads planner).entries
retire_from-late_example =
    retire_from-late ticks ticks-IsOrdered 100 reads planner (refl, refl, refl)
