-- ===== src/LoadPlanner/Branches.antt =====
-- The branches of the loop of `LoadPlanner.plan` (py_kvcache/load_planner.py) with their conditions:
-- the proofs about `plan` go by these.
use py_kvcache.Prelude.{
  ◌≡◌, ◌≤◌, ◌<◌, inl, inr, true, false, none, some, leb, string_eq, nat_eq, ◌==◌, ◌||◌, Bool-cases,
  Option-cases, arith,
}
use py_kvcache.Prelude.Dict.{lookup, has}
use py_kvcache.Seconds.{Seconds}
use py_kvcache.LoadPlanner.State.{defer, CandidateCostInput, Staging, arm_deadline}
use py_kvcache.LoadPlanner.{
  Loop, decide, distinct_count, note_outstanding, plan_speculate, plan_mid_write, plan_blocked,
  plan_missing, plan_resident, is_past, from_now, plan_outstanding, t_load, t_recompute, plan_defer,
  plan_admit, plan_fresh, plan_known, plan_one,
}

module _ (s : Seconds) (now : s.Time) (l : Loop s) (c : CandidateCostInput) where
  -- Not being written, and not loaded already.
  pub record IsLoadable : Type 0 where
    pub written : c.blocked_on_store ≡ false
    pub some_blocks : (c.load_blocks == 0) ≡ false
    pub not_predicted : c.predicted_dram_resident ≡ false
    pub not_staged : has c.req_id l.planner.staged ≡ false

  pub data Branch : Loop s → Type 0 where
    mid_write :
        c.blocked_on_store ≡ true
        → lookup c.req_id l.planner.staging_by_req ≡ none
        → distinct_count s c.loadable_hashes l.staged_at ≤ l.budget
        → Branch (plan_speculate s now l c)
    mid_write_over :
        c.blocked_on_store ≡ true
        → lookup c.req_id l.planner.staging_by_req ≡ none
        → l.budget < distinct_count s c.loadable_hashes l.staged_at
        → Branch (decide s l c defer 0)
    mid_write_again :
        (o : Staging s)
        → c.blocked_on_store ≡ true
        → lookup c.req_id l.planner.staging_by_req ≡ some o
        → Branch (decide s (note_outstanding s now l c o) c defer o.emitted_blocks)
    missing : c.blocked_on_store ≡ false → (c.load_blocks == 0) ≡ true → Branch (plan_missing s l c)
    resident :
        c.blocked_on_store ≡ false
        → (c.load_blocks == 0) ≡ false
        → (c.predicted_dram_resident || has c.req_id l.planner.staged) ≡ true
        → Branch (plan_resident s l c)
    expired :
        (o : Staging s)
        → IsLoadable
        → lookup c.req_id l.planner.staging_by_req ≡ some o
        → is_past s now (lookup c.req_id l.planner.deadline_at) ≡ true
        → Branch (plan_resident s l c)
    again :
        (o : Staging s)
        → IsLoadable
        → lookup c.req_id l.planner.staging_by_req ≡ some o
        → is_past s now (lookup c.req_id l.planner.deadline_at) ≡ false
        → Branch (
            decide s
              (note_outstanding s now
                (record l {
                  planner = (arm_deadline s l.planner c.req_id now (from_now s now o.ends_at)).0;
                })
                c
                o)
              c
              defer
              o.emitted_blocks)
    cheaper :
        IsLoadable
        → lookup c.req_id l.planner.staging_by_req ≡ none
        → s.le (t_recompute s l c) (t_load s l c) ≡ true
        → Branch (plan_missing s l c)
    late :
        IsLoadable
        → lookup c.req_id l.planner.staging_by_req ≡ none
        → s.le (t_recompute s l c) (t_load s l c) ≡ false
        → is_past s now (lookup c.req_id l.planner.deadline_at) ≡ true
        → Branch (plan_admit s l c)
    deferred :
        IsLoadable
        → lookup c.req_id l.planner.staging_by_req ≡ none
        → s.le (t_recompute s l c) (t_load s l c) ≡ false
        → is_past s now (lookup c.req_id l.planner.deadline_at) ≡ false
        → distinct_count s c.loadable_hashes l.staged_at ≤ l.budget
        → Branch (plan_defer s now l c)
    over :
        IsLoadable
        → lookup c.req_id l.planner.staging_by_req ≡ none
        → s.le (t_recompute s l c) (t_load s l c) ≡ false
        → is_past s now (lookup c.req_id l.planner.deadline_at) ≡ false
        → l.budget < distinct_count s c.loadable_hashes l.staged_at
        → Branch (plan_admit s l c)

  blocked-Branch :
      c.blocked_on_store ≡ true
      → Branch (plan_blocked s now l c (lookup c.req_id l.planner.staging_by_req))
  unfolding plan_blocked plan_mid_write
  blocked-Branch b = elim (Option-cases (lookup c.req_id l.planner.staging_by_req)) [
    | inl e ↦
        rw e (elim (Bool-cases (leb (distinct_count s c.loadable_hashes l.staged_at) l.budget)) [
          | inl f ↦ rw f (mid_write b e (ground arith))
          | inr f ↦ rw f (mid_write_over b e (ground arith))
        ])
    | inr (o, e) ↦ rw e (mid_write_again o b e)
  ]

  fresh-Branch :
      IsLoadable → lookup c.req_id l.planner.staging_by_req ≡ none → Branch (plan_fresh s now l c)
  unfolding plan_fresh
  fresh-Branch a e = elim (Bool-cases (s.le (t_recompute s l c) (t_load s l c))) [
    | inl q ↦ rw q (cheaper a e q)
    | inr q ↦ rw q (elim (Bool-cases (is_past s now (lookup c.req_id l.planner.deadline_at))) [
      | inl p ↦ rw p (late a e q p)
      | inr p ↦
          rw p (elim (Bool-cases (leb (distinct_count s c.loadable_hashes l.staged_at) l.budget)) [
            | inl f ↦ rw f (deferred a e q p (ground arith))
            | inr f ↦ rw f (over a e q p (ground arith))
          ])
    ])
  ]

  outstanding-Branch :
      (o : Staging s)
      → IsLoadable
      → lookup c.req_id l.planner.staging_by_req ≡ some o
      → Branch (plan_outstanding s now l c o)
  unfolding plan_outstanding
  outstanding-Branch o a e =
      elim (Bool-cases (is_past s now (lookup c.req_id l.planner.deadline_at))) [
        | inl p ↦ rw p (expired o a e p)
        | inr p ↦ rw p (again o a e p)
      ]

  known-Branch :
      IsLoadable → Branch (plan_known s now l c (lookup c.req_id l.planner.staging_by_req))
  unfolding plan_known
  known-Branch a = elim (Option-cases (lookup c.req_id l.planner.staging_by_req)) [
    | inl e ↦ rw e (fresh-Branch a e)
    | inr (o, e) ↦ rw e (outstanding-Branch o a e)
  ]

  pub plan_one-Branch : Branch (plan_one s now l c)
  unfolding plan_one
  plan_one-Branch = elim (Bool-cases c.blocked_on_store) [
    | inl b ↦ simp b (blocked-Branch b)
    | inr b ↦ simp b (elim (Bool-cases (c.load_blocks == 0)) [
      | inl z ↦ simp z (missing b z)
      | inr z ↦
          simp z (elim (Bool-cases (c.predicted_dram_resident || has c.req_id l.planner.staged)) [
            | inl r ↦ simp r (resident b z r)
            | inr r ↦ simp r (
                known-Branch (record {
                  written = b;
                  some_blocks = z;
                  not_predicted = ground arith;
                  not_staged = ground arith;
                }))
          ])
    ])
  ]
