-- ===== src/LoadPlanner/Deferral.antt =====
-- A deferral ends: `LoadPlanner.plan` (py_kvcache/load_planner.py) against its deadlines, over one
-- call and over two.
use py_kvcache.Prelude.{
  ℕ, ◌≡◌, ◌≢◌, refl, sym, ap, ◌∙◌, ◌⊎◌, inl, inr, true, false, List, [], ◌∷◌, ◌++◌, some, string_eq,
  nat_eq, arith,
}
use py_kvcache.Prelude.Keys.{contains, ==_refl}
use py_kvcache.Prelude.Dict.{lookup}
use py_kvcache.Seconds.{Seconds, IsOrdered}
use py_kvcache.LoadPlanner.State.{defer, CandidateCostInput, LoadPlanner}
use py_kvcache.LoadPlanner.{
  Loop, plan_one, plan_each, candidate_ids, start, plan, decision_for, decision_of, is_past,
}
use py_kvcache.LoadPlanner.Branches.{plan_one-Branch}
use py_kvcache.LoadPlanner.Decisions.{plan_each-turn, plan_each-append}
use py_kvcache.LoadPlanner.Deadlines.{
  IsBounded, plan_each-Arms, decided, start-Forgets, expired-decided, deferred-Armed,
}

contains-middle :
    (s : Seconds) (before : List CandidateCostInput) (c : CandidateCostInput)
    (after : List CandidateCostInput)
    → contains c.req_id (candidate_ids s (before ++ c ∷ after)) ≡ true
contains-middle s [] c after = rw ==_refl
contains-middle s (b ∷ before) c after = ground (arith, contains-middle s before c after)

module _ (s : Seconds) (o : IsOrdered s) (p : LoadPlanner s) (now : s.Time)
    (outstanding : List ℕ) where
  -- A call of `plan` keeps every armed deadline within the longest deferral from the call.
  pub plan-IsBounded :
      (candidates : List CandidateCostInput)
      → IsBounded s p now
      → IsBounded s (plan s p now candidates outstanding).0 now
  unfolding plan
  plan-IsBounded candidates b id d h =
      let x = start-Forgets s p now candidates outstanding in
      let y = plan_each-Arms s o now (start s p now candidates outstanding) candidates in
      rw (y.longest, x.longest) (settle (y.bounds id d h))
    where
      settle :
          (lookup id (start s p now candidates outstanding).planner.deadline_at ≡ some d)
            ⊎ (s.le d
                  (s.add now (start s p now candidates outstanding).planner.defer_deadline_max_s)
                ≡ true)
          → s.le d (s.add now p.defer_deadline_max_s) ≡ true
      settle (inl old) = b id d ((start-Forgets s p now candidates outstanding).older id d old)
      settle (inr new) = rw ((start-Forgets s p now candidates outstanding).longest) at new

  plan-longest :
      (candidates : List CandidateCostInput)
      → (plan s p now candidates outstanding).0.defer_deadline_max_s ≡ p.defer_deadline_max_s
  unfolding plan
  plan-longest candidates =
      (plan_each-Arms s o now (start s p now candidates outstanding) candidates).longest
      ∙ (start-Forgets s p now candidates outstanding).longest

  module _ (before : List CandidateCostInput) (c : CandidateCostInput)
      (after : List CandidateCostInput) where
    abbrev here : Loop s
    here = plan_each s now (start s p now (before ++ c ∷ after) outstanding) before

    turn_deadline :
        (d : s.Time)
        → lookup c.req_id p.deadline_at ≡ some d
        → lookup c.req_id here.planner.deadline_at ≡ some d
    turn_deadline d armed =
        let x = start-Forgets s p now (before ++ c ∷ after) outstanding in
        (plan_each-Arms s o now (start s p now (before ++ c ∷ after) outstanding) before).keeps
          c.req_id d (x.keeps c.req_id (contains-middle s before c after) ∙ armed)

    turn_decision :
        contains c.req_id (candidate_ids s after) ≡ false
        → decision_for s (plan s p now (before ++ c ∷ after) outstanding).0 c.req_id
          ≡ decided s (plan_one s now here c) c
    unfolding plan decision_for
    turn_decision last =
        ap decision_of (
          plan_each-turn s now (start s p now (before ++ c ∷ after) outstanding) before c after
            last)

    -- A request whose armed deadline has passed is not deferred by `plan`, unless its blocks are still
    -- being written; a later candidate with the same id is excluded.
    pub plan-expired :
        (d : s.Time)
        → lookup c.req_id p.deadline_at ≡ some d
        → s.le d now ≡ true
        → c.blocked_on_store ≡ false
        → contains c.req_id (candidate_ids s after) ≡ false
        → decision_for s (plan s p now (before ++ c ∷ after) outstanding).0 c.req_id ≢ some defer
    plan-expired d armed past free last h =
        expired-decided s (plan_one-Branch s now here c) free
          (unfold is_past in (rw (turn_deadline d armed, past) refl)) (sym (turn_decision last) ∙ h)

    -- A request that `plan` defers has a deadline after the call, unless its blocks are still being
    -- written; a later candidate with the same id is excluded.
    pub plan-armed :
        c.blocked_on_store ≡ false
        → contains c.req_id (candidate_ids s after) ≡ false
        → decision_for s (plan s p now (before ++ c ∷ after) outstanding).0 c.req_id ≡ some defer
        → (d : s.Time) × (lookup c.req_id
              (plan s p now (before ++ c ∷ after) outstanding).0.deadline_at
            ≡ some d)
    unfolding plan plan_each
    plan-armed free last h =
        let (d, e) =
          deferred-Armed s (plan_one-Branch s now here c) free (sym (turn_decision last) ∙ h) in
        (
          d,
          rw
              (plan_each-append s now (start s p now (before ++ c ∷ after) outstanding) before
                (c ∷ after))
              ((plan_each-Arms s o now (plan_one s now here c) after).keeps c.req_id d e),
        )

-- A deferral ends. Let `plan` defer a request at time t, while every armed deadline is within the
-- longest deferral of t; and let a next call, no earlier than t plus the longest deferral, have the
-- request among its candidates. That call does not defer it. In neither call are the request's blocks
-- still being written, or is there a later candidate with its id.
pub deferral_ends :
    (s : Seconds) (o : IsOrdered s) (p : LoadPlanner s) (t u : s.Time) (outstanding jobs : List ℕ)
    (before : List CandidateCostInput) (c : CandidateCostInput) (after : List CandidateCostInput)
    (before' : List CandidateCostInput) (c' : CandidateCostInput) (after' : List CandidateCostInput)
    → IsBounded s p t
    → c.blocked_on_store ≡ false
    → contains c.req_id (candidate_ids s after) ≡ false
    → decision_for s (plan s p t (before ++ c ∷ after) outstanding).0 c.req_id ≡ some defer
    → c'.req_id ≡ c.req_id
    → c'.blocked_on_store ≡ false
    → contains c'.req_id (candidate_ids s after') ≡ false
    → s.le (s.add t p.defer_deadline_max_s) u ≡ true
    → decision_for s
        (plan s (plan s p t (before ++ c ∷ after) outstanding).0 u (before' ++ c' ∷ after') jobs).0
        c'.req_id
      ≢ some defer
deferral_ends s o p t u outstanding jobs before c after before' c' after' b free last h same free'
      last' le =
    let q = (plan s p t (before ++ c ∷ after) outstanding).0 in
    let (d, e) = plan-armed s o p t outstanding before c after free last h in
    let bound = plan-IsBounded s o p t outstanding (before ++ c ∷ after) b c.req_id d e in
    plan-expired s o q u jobs before' c' after' d (rw same e)
      (o.le_trans d (s.add t q.defer_deadline_max_s) u bound
        (rw (plan-longest s o p t outstanding (before ++ c ∷ after)) le))
      free' last'
