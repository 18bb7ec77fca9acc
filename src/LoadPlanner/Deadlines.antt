-- ===== src/LoadPlanner/Deadlines.antt =====
-- The defer deadlines of `LoadPlanner` (py_kvcache/load_planner.py): how they are armed and kept, and
-- that they end a deferral.
use Prim.Native.String.{String}
use py_kvcache.Prelude.{
  ℕ, ◌+◌, ltb, ◌≡◌, ◌≢◌, refl, ap, ◌∙◌, ◌⊎◌, inl, inr, true, false, List, [], ◌∷◌, Option, none,
  some, if◌then◌else◌, string_eq, nat_eq, ◌==◌, arith, Bool-cases,
}
use py_kvcache.Prelude.Keys.{contains, ==_refl}
use py_kvcache.Prelude.Dict.{keys, lookup, lookup-insert, lookup-delete, lookup_or}
use py_kvcache.Seconds.{Seconds, IsOrdered, max_s, min_s-le}
use py_kvcache.LoadPlanner.State.{
  staged_absence_limit, LoadDecision, admit, defer, decline, CandidateCostInput, Staging,
  LoadPlanner, grace, arm_deadline, arm_unless, append_shadow_entry, retire_from, retire_one,
  retire_shadow_entries, gc_staged, gc_deadline, gc_each, gc_deadlines,
}
use py_kvcache.LoadPlanner.{
  Loop, decide, note_outstanding, plan_speculate, plan_missing, plan_resident, plan_defer,
  plan_admit, plan_one, plan_each, candidate_ids, start, decision_of, is_past,
}
use py_kvcache.LoadPlanner.Branches.{
  Branch, mid_write, mid_write_over, mid_write_again, missing, resident, expired, again, cheaper,
  late, deferred, over, plan_one-Branch,
}

module _ (s : Seconds) where
  -- An armed deadline is at most the longest deferral away.
  abbrev pub IsBounded : LoadPlanner s → s.Time → Type 0
  IsBounded p now =
      (id : String) (d : s.Time)
      → lookup id p.deadline_at ≡ some d
      → s.le d (s.add now p.defer_deadline_max_s) ≡ true

  -- What a step may do to the deadlines: those that are armed stay, and new ones are bounded.
  pub record Arms (now : s.Time) (p q : LoadPlanner s) : Type 0 where
    pub longest : q.defer_deadline_max_s ≡ p.defer_deadline_max_s
    pub keeps :
        (id : String) (d : s.Time)
        → lookup id p.deadline_at ≡ some d
        → lookup id q.deadline_at ≡ some d
    pub bounds :
        (id : String) (d : s.Time)
        → lookup id q.deadline_at ≡ some d
        → (lookup id p.deadline_at ≡ some d) ⊎ (s.le d (s.add now p.defer_deadline_max_s) ≡ true)

  Arms-same :
      (now : s.Time) {p q : LoadPlanner s}
      → q.defer_deadline_max_s ≡ p.defer_deadline_max_s
      → q.deadline_at ≡ p.deadline_at
      → Arms now p q
  Arms-same now m e = record {
    longest = m;
    keeps = λ id d h. rw e h;
    bounds = λ id d h. inl (rw e at h);
  }

  Arms-to :
      (now : s.Time) {p q r : LoadPlanner s}
      → Arms now p q
      → r.defer_deadline_max_s ≡ q.defer_deadline_max_s
      → r.deadline_at ≡ q.deadline_at
      → Arms now p r
  Arms-to now x m e = record {
    longest = m ∙ x.longest;
    keeps = λ id d h. rw e (x.keeps id d h);
    bounds = λ id d h. x.bounds id d (rw e at h);
  }

  grace-le :
      IsOrdered s
      → (p : LoadPlanner s) (wait : s.Time) → s.le (grace s p wait) p.defer_deadline_max_s ≡ true
  unfolding grace
  grace-le o p wait =
      min_s-le s o p.defer_deadline_max_s
        (max_s s p.defer_deadline_min_s (s.mul p.defer_tolerance wait))

  module _ (o : IsOrdered s) (now : s.Time) where
    arm_unless-Arms :
        (p : LoadPlanner s) (id : String) (wait : s.Time) (e : Option s.Time)
        → lookup id p.deadline_at ≡ e
        → Arms now p (arm_unless s p id now wait e).0
    unfolding arm_unless
    arm_unless-Arms p id wait (some d) h = Arms-same now refl refl
    arm_unless-Arms p id wait none h = record {
      longest = refl;
      keeps = λ j d k. ground (
        arith,
        lookup-insert id j (s.add now (grace s p wait)) p.deadline_at,
        string_eq.beq_iff id j,
      );
      bounds = λ j d k. new_bound j d (rw lookup-insert at k);
    }
      where
        new_bound :
            (j : String) (d : s.Time)
            → (if id == j then some (s.add now (grace s p wait)) else lookup j p.deadline_at)
              ≡ some d
            → (lookup j p.deadline_at ≡ some d) ⊎ (s.le d (s.add now p.defer_deadline_max_s) ≡ true)
        new_bound j d k =
            ground
              (arith, o.add_mono now (grace s p wait) p.defer_deadline_max_s, grace-le o p wait)

    arm_deadline-Arms :
        (p : LoadPlanner s) (id : String) (wait : s.Time)
        → Arms now p (arm_deadline s p id now wait).0
    unfolding arm_deadline
    arm_deadline-Arms p id wait = arm_unless-Arms p id wait (lookup id p.deadline_at) refl

    Branch-Arms :
        {l : Loop s} {c : CandidateCostInput} {l' : Loop s}
        → Branch s now l c l'
        → Arms now l.planner l'.planner
    unfolding decide plan_speculate plan_missing plan_resident plan_defer plan_admit
        note_outstanding append_shadow_entry
    Branch-Arms (mid_write b e f) = Arms-same now refl refl
    Branch-Arms (mid_write_over b e f) = Arms-same now refl refl
    Branch-Arms (mid_write_again x b e) = Arms-same now refl refl
    Branch-Arms (missing b z) = Arms-same now refl refl
    Branch-Arms (resident b z r) = Arms-same now refl refl
    Branch-Arms (expired x a e p) = Arms-same now refl refl
    Branch-Arms {l} {c} (again x a e p) = arm_deadline-Arms l.planner c.req_id _
    Branch-Arms (cheaper a e q) = Arms-same now refl refl
    Branch-Arms (late a e q p) = Arms-same now refl refl
    Branch-Arms {l} {c} (deferred a e q p f) =
        Arms-to now (arm_deadline-Arms l.planner c.req_id _) refl refl
    Branch-Arms (over a e q p f) = Arms-same now refl refl

    Arms-trans : {p q r : LoadPlanner s} → Arms now p q → Arms now q r → Arms now p r
    Arms-trans {p} {q} {r} x y = record {
      longest = y.longest ∙ x.longest;
      keeps = λ id d h. y.keeps id d (x.keeps id d h);
      bounds = λ id d h. older id d (y.bounds id d h);
    }
      where
        older :
            (id : String) (d : s.Time)
            → (lookup id q.deadline_at ≡ some d)
              ⊎ (s.le d (s.add now q.defer_deadline_max_s) ≡ true)
            → (lookup id p.deadline_at ≡ some d)
              ⊎ (s.le d (s.add now p.defer_deadline_max_s) ≡ true)
        older id d (inl h) = x.bounds id d h
        older id d (inr h) = inr (rw x.longest at h)

    pub plan_each-Arms :
        (l : Loop s) (cs : List CandidateCostInput)
        → Arms now l.planner (plan_each s now l cs).planner
    unfolding plan_each
    plan_each-Arms l [] = Arms-same now refl refl
    plan_each-Arms l (c ∷ cs) =
        Arms-trans (Branch-Arms (plan_one-Branch s now l c))
          (plan_each-Arms (plan_one s now l c) cs)

  retire_from-same :
      (now : s.Time) (es : List (Staging s)) (p : LoadPlanner s)
      → ((retire_from s now es p).deadline_at ≡ p.deadline_at)
        × ((retire_from s now es p).defer_deadline_max_s ≡ p.defer_deadline_max_s)
  unfolding retire_from
  retire_from-same now [] p = (refl, refl)
  retire_from-same now (e ∷ es) p = elim (Bool-cases (s.le e.ends_at now)) [
    | inl h ↦ rw h (retire_from-same now es (retire_one s p e))
    | inr h ↦ rw h (refl, refl)
  ]

  -- What forgetting absent requests may do: deadlines go, but not those of the candidates.
  pub record Forgets (ids : List String) (p q : LoadPlanner s) : Type 0 where
    pub longest : q.defer_deadline_max_s ≡ p.defer_deadline_max_s
    pub keeps :
        (id : String) → contains id ids ≡ true → lookup id q.deadline_at ≡ lookup id p.deadline_at
    pub older :
        (id : String) (d : s.Time)
        → lookup id q.deadline_at ≡ some d
        → lookup id p.deadline_at ≡ some d

  gc_deadline-Forgets :
      (p : LoadPlanner s) (ids : List String) (req : String)
      → Forgets ids p (gc_deadline s p ids req)
  unfolding gc_deadline
  gc_deadline-Forgets p ids req = elim (Bool-cases (contains req ids)) [
    | inl h ↦ rw h (record { longest = refl; keeps = λ id k. refl; older = λ id d k. k })
    | inr h ↦
        rw h (elim (Bool-cases (ltb staged_absence_limit (lookup_or req 0 p.deadline_absent + 1))) [
          | inl n ↦ rw n (record {
            longest = refl;
            keeps = λ id k.
                ground (arith, lookup-delete req id p.deadline_at, string_eq.beq_iff req id);
            older = λ id d k. ground (arith, lookup-delete req id p.deadline_at);
          })
          | inr n ↦ rw n (record { longest = refl; keeps = λ id k. refl; older = λ id d k. k })
        ])
  ]

  gc_each-Forgets :
      (p : LoadPlanner s) (ids reqs : List String) → Forgets ids p (gc_each s p ids reqs)
  unfolding gc_each
  gc_each-Forgets p ids [] = record { longest = refl; keeps = λ id h. refl; older = λ id d h. h }
  gc_each-Forgets p ids (req ∷ reqs) =
      let x = gc_deadline-Forgets p ids req in
      let y = gc_each-Forgets (gc_deadline s p ids req) ids reqs in
      record {
        longest = y.longest ∙ x.longest;
        keeps = λ id h. y.keeps id h ∙ x.keeps id h;
        older = λ id d h. x.older id d (y.older id d h);
      }

  pub start-Forgets :
      (p : LoadPlanner s) (now : s.Time) (cs : List CandidateCostInput) (outstanding : List ℕ)
      → Forgets (candidate_ids s cs) p (start s p now cs outstanding).planner
  unfolding start gc_deadlines gc_staged retire_shadow_entries
  start-Forgets p now cs outstanding =
      let (e, m) = retire_from-same now p.entries p in
      let x =
        gc_each-Forgets (gc_staged s (retire_shadow_entries s p now) (candidate_ids s cs))
          (candidate_ids s cs) (keys (retire_shadow_entries s p now).deadline_at) in
      record {
        longest = x.longest ∙ m;
        keeps = λ id h. x.keeps id h ∙ ap (lookup id) e;
        older = λ id d h. rw e at (x.older id d h);
      }

  decide-lookup :
      (l : Loop s) (c : CandidateCostInput) (d : LoadDecision) (n : ℕ)
      → lookup c.req_id (decide s l c d n).decisions
        ≡ some (record { decision = d; preload_blocks = n })
  unfolding decide
  decide-lookup l c d n = rw (lookup-insert, ==_refl)

  abbrev pub decided : Loop s → CandidateCostInput → Option LoadDecision
  decided l c = decision_of (lookup c.req_id l.decisions)

  pub decided-decide :
      (l : Loop s) (c : CandidateCostInput) (d : LoadDecision) (n : ℕ)
      → decided (decide s l c d n) c ≡ some d
  unfolding decision_of
  decided-decide l c d n = rw (decide-lookup l c d n)

  -- Past its deadline a candidate that is not being written is not deferred.
  pub expired-decided :
      {now : s.Time} {l : Loop s} {c : CandidateCostInput} {l' : Loop s}
      → Branch s now l c l'
      → c.blocked_on_store ≡ false
      → is_past s now (lookup c.req_id l.planner.deadline_at) ≡ true
      → decided l' c ≢ some defer
  unfolding plan_missing plan_resident plan_admit
  expired-decided (mid_write b e f) w p = cc
  expired-decided (mid_write_over b e f) w p = cc
  expired-decided (mid_write_again x b e) w p = cc
  expired-decided {c} (missing b z) w p = λ h. cc (decided-decide _ c decline 0)
  expired-decided {l} {c} (resident b z r) w p = λ h. cc (decided-decide _ c admit 0)
  expired-decided {c} (expired x a e q) w p = λ h. cc (decided-decide _ c admit 0)
  expired-decided (again x a e q) w p = cc
  expired-decided {c} (cheaper a e q) w p = λ h. cc (decided-decide _ c decline 0)
  expired-decided {c} (late a e q r) w p = λ h. cc (decided-decide _ c admit 0)
  expired-decided (deferred a e q r f) w p = cc
  expired-decided {c} (over a e q r f) w p = cc

  arm_unless-armed :
      (p : LoadPlanner s) (id : String) (now wait : s.Time) (e : Option s.Time)
      → lookup id p.deadline_at ≡ e
      → (d : s.Time) × (lookup id (arm_unless s p id now wait e).0.deadline_at ≡ some d)
  unfolding arm_unless
  arm_unless-armed p id now wait (some d) h = (d, h)
  arm_unless-armed p id now wait none h = (s.add now (grace s p wait), rw (lookup-insert, ==_refl))

  arm_deadline-armed :
      (p : LoadPlanner s) (id : String) (now wait : s.Time)
      → (d : s.Time) × (lookup id (arm_deadline s p id now wait).0.deadline_at ≡ some d)
  unfolding arm_deadline
  arm_deadline-armed p id now wait = arm_unless-armed p id now wait (lookup id p.deadline_at) refl

  abbrev pub Armed : Loop s → CandidateCostInput → Type 0
  Armed l c = (d : s.Time) × (lookup c.req_id l.planner.deadline_at ≡ some d)

  pub deferred-Armed :
      {now : s.Time} {l : Loop s} {c : CandidateCostInput} {l' : Loop s}
      → Branch s now l c l'
      → c.blocked_on_store ≡ false
      → decided l' c ≡ some defer
      → Armed l' c
  unfolding plan_missing plan_resident plan_admit plan_defer decide note_outstanding
      append_shadow_entry
  deferred-Armed (mid_write b e f) w h = cc
  deferred-Armed (mid_write_over b e f) w h = cc
  deferred-Armed (mid_write_again x b e) w h = cc
  deferred-Armed {c} (missing b z) w h = cc (decided-decide _ c decline 0)
  deferred-Armed {c} (resident b z r) w h = cc (decided-decide _ c admit 0)
  deferred-Armed {c} (expired x a e q) w h = cc (decided-decide _ c admit 0)
  deferred-Armed {now} {l} {c} (again x a e q) w h = arm_deadline-armed l.planner c.req_id now _
  deferred-Armed {c} (cheaper a e q) w h = cc (decided-decide _ c decline 0)
  deferred-Armed {c} (late a e q r) w h = cc (decided-decide _ c admit 0)
  deferred-Armed {now} {l} {c} (deferred a e q r f) w h =
      arm_deadline-armed l.planner c.req_id now _
  deferred-Armed {c} (over a e q r f) w h = cc (decided-decide _ c admit 0)
