-- ===== src/LoadPlanner/Outcomes.antt =====
-- What `LoadPlanner.plan` (py_kvcache/load_planner.py) decides on a candidate by its own fields.
use py_kvcache.Prelude.{
  ℕ, ◌≡◌, ap, ◌∙◌, ◌⊎◌, inl, inr, true, false, List, ◌∷◌, ◌++◌, some, string_eq, nat_eq, ◌==◌,
  arith, if◌then◌else◌,
}
use py_kvcache.Prelude.Keys.{contains, ==_refl}
use py_kvcache.Prelude.Dict.{lookup-insert}
use py_kvcache.Seconds.{Seconds}
use py_kvcache.LoadPlanner.State.{admit, defer, decline, CandidateCostInput, LoadPlanner}
use py_kvcache.LoadPlanner.{
  Loop, decide, plan_one, plan_each, candidate_ids, start, plan, decision_for, decision_of,
  plan_speculate, plan_missing, plan_resident,
}
use py_kvcache.LoadPlanner.Branches.{
  Branch, mid_write, mid_write_over, mid_write_again, missing, resident, expired, again, cheaper,
  late, deferred, over, plan_one-Branch,
}
use py_kvcache.LoadPlanner.Decisions.{plan_each-turn}
use py_kvcache.LoadPlanner.Deadlines.{decided}

module _ (s : Seconds) where
  blocked-decided :
      {now : s.Time} {l : Loop s} {c : CandidateCostInput} {l' : Loop s}
      → Branch s now l c l'
      → c.blocked_on_store ≡ true
      → decided s l' c ≡ some defer
  unfolding plan_speculate decide decision_of
  blocked-decided (mid_write _ _ _) w = rw (lookup-insert, ==_refl)
  blocked-decided (mid_write_over _ _ _) w = rw (lookup-insert, ==_refl)
  blocked-decided (mid_write_again _ _ _) w = rw (lookup-insert, ==_refl)
  blocked-decided (missing f _) w = cc
  blocked-decided (resident f _ _) w = cc
  blocked-decided (expired _ a _ _) w = cc a.written
  blocked-decided (again _ a _ _) w = cc a.written
  blocked-decided (cheaper a _ _) w = cc a.written
  blocked-decided (late a _ _ _) w = cc a.written
  blocked-decided (deferred a _ _ _ _) w = cc a.written
  blocked-decided (over a _ _ _ _) w = cc a.written

  missing-decided :
      {now : s.Time} {l : Loop s} {c : CandidateCostInput} {l' : Loop s}
      → Branch s now l c l'
      → c.blocked_on_store ≡ false
      → c.load_blocks ≡ 0
      → decided s l' c ≡ some decline
  unfolding plan_missing decide decision_of
  missing-decided (mid_write w _ _) f z = cc
  missing-decided (mid_write_over w _ _) f z = cc
  missing-decided (mid_write_again _ w _) f z = cc
  missing-decided (missing _ _) f z = rw (lookup-insert, ==_refl)
  missing-decided (resident _ n _) f z = ground arith
  missing-decided (expired _ a _ _) f z = ground (arith, a.some_blocks)
  missing-decided (again _ a _ _) f z = ground (arith, a.some_blocks)
  missing-decided (cheaper a _ _) f z = ground (arith, a.some_blocks)
  missing-decided (late a _ _ _) f z = ground (arith, a.some_blocks)
  missing-decided (deferred a _ _ _ _) f z = ground (arith, a.some_blocks)
  missing-decided (over a _ _ _ _) f z = ground (arith, a.some_blocks)

  predicted-decided :
      {now : s.Time} {l : Loop s} {c : CandidateCostInput} {l' : Loop s}
      → Branch s now l c l'
      → c.blocked_on_store ≡ false
      → (c.load_blocks == 0) ≡ false
      → c.predicted_dram_resident ≡ true
      → decided s l' c ≡ some admit
  unfolding plan_resident decide decision_of
  predicted-decided (mid_write w _ _) f n r = cc
  predicted-decided (mid_write_over w _ _) f n r = cc
  predicted-decided (mid_write_again _ w _) f n r = cc
  predicted-decided (missing _ z) f n r = cc
  predicted-decided (resident _ _ _) f n r = rw (lookup-insert, ==_refl)
  predicted-decided (expired _ a _ _) f n r = cc a.not_predicted
  predicted-decided (again _ a _ _) f n r = cc a.not_predicted
  predicted-decided (cheaper a _ _) f n r = cc a.not_predicted
  predicted-decided (late a _ _ _) f n r = cc a.not_predicted
  predicted-decided (deferred a _ _ _ _) f n r = cc a.not_predicted
  predicted-decided (over a _ _ _ _) f n r = cc a.not_predicted

module _ (s : Seconds) (p : LoadPlanner s) (now : s.Time) (outstanding : List ℕ)
    (before : List CandidateCostInput) (c : CandidateCostInput) (after : List CandidateCostInput)
    (last : contains c.req_id (candidate_ids s after) ≡ false) where
  abbrev here : Loop s
  here = plan_each s now (start s p now (before ++ c ∷ after) outstanding) before

  turn :
      decision_for s (plan s p now (before ++ c ∷ after) outstanding).0 c.req_id
      ≡ decided s (plan_one s now here c) c
  unfolding plan decision_for
  turn =
      ap decision_of
        (plan_each-turn s now (start s p now (before ++ c ∷ after) outstanding) before c after last)

  -- The fence: a candidate some of whose blocks are still being written is deferred, whatever the
  -- planner's state, the costs and the budget. No later candidate has its id.
  pub plan-mid_write :
      c.blocked_on_store ≡ true
      → decision_for s (plan s p now (before ++ c ∷ after) outstanding).0 c.req_id ≡ some defer
  plan-mid_write w = turn ∙ blocked-decided s (plan_one-Branch s now here c) w

  -- A candidate with nothing to load is declined, for the GPU to recompute, and one that is predicted
  -- to be in DRAM is admitted, unless its blocks are still being written. No later candidate has its id.
  pub plan-by_blocks :
      c.blocked_on_store ≡ false
      → (c.load_blocks ≡ 0) ⊎ ((c.load_blocks == 0) ≡ false) × (c.predicted_dram_resident ≡ true)
      → decision_for s (plan s p now (before ++ c ∷ after) outstanding).0 c.req_id
        ≡ some (if c.load_blocks == 0 then decline else admit)
  plan-by_blocks f (inl z) = simp z (turn ∙ missing-decided s (plan_one-Branch s now here c) f z)
  plan-by_blocks f (inr (n, r)) =
      simp n (turn ∙ predicted-decided s (plan_one-Branch s now here c) f n r)
