-- ===== src/LoadPlanner/Decisions.antt =====
-- Which decision `LoadPlanner.plan` (py_kvcache/load_planner.py) returns for which candidate.
use Prim.Native.String.{String}
use py_kvcache.Prelude.{
  ℕ, ◌≡◌, refl, ap, ◌∙◌, ◌⊎◌, inl, inr, true, false, List, [], ◌∷◌, ◌++◌, some, if◌then◌else◌,
  string_eq, nat_eq, ◌==◌, arith,
}
use py_kvcache.Prelude.Keys.{contains, contains-add}
use py_kvcache.Prelude.Dict.{keys, lookup, insert, keys-insert, lookup-insert}
use py_kvcache.Seconds.{Seconds}
use py_kvcache.LoadPlanner.State.{
  LoadDecision, admit, defer, decline, CandidateCostInput, PlanResult, LoadPlanner,
}
use py_kvcache.LoadPlanner.{
  Loop, decide, note_outstanding, plan_speculate, plan_missing, plan_resident, plan_defer,
  plan_admit, plan_one, plan_each, candidate_ids, start, plan,
}
use py_kvcache.LoadPlanner.Branches.{
  Branch, mid_write, mid_write_over, mid_write_again, missing, resident, expired, again, cheaper,
  late, deferred, over, plan_one-Branch,
}

module _ (s : Seconds) where
  -- A turn of the loop records one result, under the candidate's id; only a deferral has blocks.
  pub record Records (l : Loop s) (c : CandidateCostInput) (l' : Loop s) : Type 0 where
    pub result : PlanResult
    pub recorded : l'.decisions ≡ insert c.req_id result l.decisions
    pub idle : (result.decision ≡ defer) ⊎ (result.preload_blocks ≡ 0)

  told :
      (l : Loop s) (c : CandidateCostInput) (d : LoadDecision) (n : ℕ)
      → (d ≡ defer) ⊎ (n ≡ 0)
      → (m : Loop s) → m.decisions ≡ l.decisions
      → Records l c (decide s m c d n)
  unfolding decide
  told l c d n i m e = record {
    result = record { decision = d; preload_blocks = n };
    recorded = rw e refl;
    idle = i;
  }

  Branch-Records :
      {now : s.Time} {l : Loop s} {c : CandidateCostInput} {l' : Loop s}
      → Branch s now l c l'
      → Records l c l'
  unfolding plan_speculate plan_missing plan_resident plan_defer plan_admit note_outstanding
  Branch-Records {l} {c} (mid_write b e f) = told l c defer _ (inl refl) _ refl
  Branch-Records {l} {c} (mid_write_over b e f) = told l c defer _ (inl refl) _ refl
  Branch-Records {l} {c} (mid_write_again o b e) = told l c defer _ (inl refl) _ refl
  Branch-Records {l} {c} (missing b z) = told l c decline 0 (inr refl) _ refl
  Branch-Records {l} {c} (resident b z r) = told l c admit 0 (inr refl) _ refl
  Branch-Records {l} {c} (expired o a e p) = told l c admit 0 (inr refl) _ refl
  Branch-Records {l} {c} (again o a e p) = told l c defer _ (inl refl) _ refl
  Branch-Records {l} {c} (cheaper a e q) = told l c decline 0 (inr refl) _ refl
  Branch-Records {l} {c} (late a e q p) = told l c admit 0 (inr refl) _ refl
  Branch-Records {l} {c} (deferred a e q p f) = told l c defer _ (inl refl) _ refl
  Branch-Records {l} {c} (over a e q p f) = told l c admit 0 (inr refl) _ refl

  plan_one-Records :
      (now : s.Time) (l : Loop s) (c : CandidateCostInput) → Records l c (plan_one s now l c)
  plan_one-Records now l c = Branch-Records (plan_one-Branch s now l c)

  plan_one-keys :
      (now : s.Time) (l : Loop s) (c : CandidateCostInput) (id : String)
      → contains id (keys (plan_one s now l c).decisions)
        ≡ (if c.req_id == id then true else contains id (keys l.decisions))
  plan_one-keys now l c id =
      let r = plan_one-Records now l c in
      rw (r.recorded, keys-insert) (contains-add c.req_id id (keys l.decisions))

  plan_one-lookup_ne :
      (now : s.Time) (l : Loop s) (c : CandidateCostInput) (id : String)
      → (c.req_id == id) ≡ false
      → lookup id (plan_one s now l c).decisions ≡ lookup id l.decisions
  plan_one-lookup_ne now l c id h =
      let r = plan_one-Records now l c in
      rw r.recorded (rw h at (lookup-insert c.req_id id r.result l.decisions))

  pub plan_each-append :
      (now : s.Time) (l : Loop s) (cs ds : List CandidateCostInput)
      → plan_each s now l (cs ++ ds) ≡ plan_each s now (plan_each s now l cs) ds
  unfolding plan_each
  plan_each-append now l [] ds = refl
  plan_each-append now l (c ∷ cs) ds = plan_each-append now (plan_one s now l c) cs ds

  plan_each-keys :
      (now : s.Time) (l : Loop s) (cs : List CandidateCostInput) (id : String)
      → contains id (keys (plan_each s now l cs).decisions)
        ≡ (if contains id (candidate_ids s cs) then true else contains id (keys l.decisions))
  unfolding plan_each
  plan_each-keys now l [] id = refl
  plan_each-keys now l (c ∷ cs) id =
      ground (arith, plan_each-keys now (plan_one s now l c) cs id, plan_one-keys now l c id)

  plan_each-keep :
      (now : s.Time) (l : Loop s) (cs : List CandidateCostInput) (id : String)
      → contains id (candidate_ids s cs) ≡ false
      → lookup id (plan_each s now l cs).decisions ≡ lookup id l.decisions
  unfolding plan_each
  plan_each-keep now l [] id h = refl
  plan_each-keep now l (c ∷ cs) id h =
      plan_each-keep now (plan_one s now l c) cs id (ground arith)
      ∙ plan_one-lookup_ne now l c id (ground arith)

  -- The decision on a candidate is made at its turn, unless its id comes again.
  pub plan_each-turn :
      (now : s.Time) (l : Loop s) (before : List CandidateCostInput) (c : CandidateCostInput)
      (after : List CandidateCostInput)
      → contains c.req_id (candidate_ids s after) ≡ false
      → lookup c.req_id (plan_each s now l (before ++ c ∷ after)).decisions
        ≡ lookup c.req_id (plan_one s now (plan_each s now l before) c).decisions
  unfolding plan_each
  plan_each-turn now l before c after h =
      rw (plan_each-append now l before (c ∷ after))
        (plan_each-keep now (plan_one s now (plan_each s now l before) c) after c.req_id h)

  plan_each-idle :
      (now : s.Time) (l : Loop s) (cs : List CandidateCostInput) (id : String) (r : PlanResult)
      → ((q : PlanResult)
          → lookup id l.decisions ≡ some q
          → (q.decision ≡ defer) ⊎ (q.preload_blocks ≡ 0))
      → lookup id (plan_each s now l cs).decisions ≡ some r
      → (r.decision ≡ defer) ⊎ (r.preload_blocks ≡ 0)
  unfolding plan_each
  plan_each-idle now l [] id r old h = old r h
  plan_each-idle now l (c ∷ cs) id r old h = plan_each-idle now (plan_one s now l c) cs id r here h
    where
      here :
          (q : PlanResult)
          → lookup id (plan_one s now l c).decisions ≡ some q
          → (q.decision ≡ defer) ⊎ (q.preload_blocks ≡ 0)
      here q e =
          let x = plan_one-Records now l c in
          ground (
            arith,
            x.idle,
            ap (lookup id) x.recorded,
            lookup-insert c.req_id id x.result l.decisions,
            old q,
          )

module _ (s : Seconds) (p : LoadPlanner s) (now : s.Time) (outstanding : List ℕ) where
  -- `plan` decides on exactly the requests among the candidates.
  pub plan-decides :
      (candidates : List CandidateCostInput) (id : String)
      → contains id (keys (plan s p now candidates outstanding).1)
        ≡ contains id (candidate_ids s candidates)
  unfolding plan start
  plan-decides candidates id =
      ground (arith, plan_each-keys s now (start s p now candidates outstanding) candidates id)

  -- Blocks are to be preloaded only for a request that is deferred: a result of `plan` with another
  -- decision has none.
  pub plan-idle :
      (candidates : List CandidateCostInput) (id : String) (r : PlanResult)
      → lookup id (plan s p now candidates outstanding).1 ≡ some r
      → (r.decision ≡ defer) ⊎ (r.preload_blocks ≡ 0)
  unfolding plan start
  plan-idle candidates id r h =
      plan_each-idle s now (start s p now candidates outstanding) candidates id r (λ q e. cc) h
