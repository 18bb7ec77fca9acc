-- ===== src/LoadPlanner/Reads.antt =====
-- `LoadPlanner.plan` (py_kvcache/load_planner.py) keeps its modelled storage queue well formed.
use Prim.Native.String.{String}
use py_kvcache.Prelude.{
  ℕ, ◌≡◌, refl, sym, ap, ◌∙◌, inl, inr, true, List, [], ◌∷◌, Option, none, some, string_eq, nat_eq,
  ◌==◌, arith, Bool-cases,
}
use py_kvcache.Prelude.Keys.{append_one-Distinct}
use py_kvcache.Prelude.Dict.{keys, lookup, lookup-insert}
use py_kvcache.Seconds.{Seconds, IsOrdered, max_s, le-max_s_right}
use py_kvcache.CostModel.{CostTables, service_s_of}
use py_kvcache.LoadPlanner.State.{
  CandidateCostInput, Staging, LoadPlanner, last_end, starts_after, new_entry, append_shadow_entry,
  arm_unless, arm_deadline, retire_shadow_entries, retire_from, retire_one, gc_staged, gc_deadline,
  gc_each, gc_deadlines,
}
use py_kvcache.LoadPlanner.Queue.{
  IsQueue, InTurn-append, entry_ids, entry_ids-append, find_entry-append, find_entry-contains,
  retire_from-IsQueue,
}
use py_kvcache.LoadPlanner.Branches.{
  Branch, mid_write, mid_write_over, mid_write_again, missing, resident, expired, again, cheaper,
  late, deferred, over, plan_one-Branch,
}
use py_kvcache.LoadPlanner.{
  Loop, decide, service_for, storage_done, plan_speculate, plan_missing, plan_resident, plan_defer,
  plan_admit, note_outstanding, plan_one, plan_each, start, plan, candidate_ids,
}

module _ (s : Seconds) where
  -- The queue is well formed.
  abbrev pub Queued : LoadPlanner s → Type 0
  Queued p = IsQueue s p.entries p

  -- No read takes negative time.
  abbrev pub NonNegative : CostTables s → Type 0
  NonNegative t = (n : ℕ) → s.le (s.of_nat 0) (service_s_of s t n) ≡ true

  last_end_default :
      (d d' : s.Time) (e : Staging s) (es : List (Staging s))
      → last_end s d (e ∷ es) ≡ last_end s d' (e ∷ es)
  unfolding last_end
  last_end_default d d' e [] = refl
  last_end_default d d' e (f ∷ es) = last_end_default d d' f es

  -- The same queue.
  record SameQueue (p q : LoadPlanner s) : Type 0 where
    entries : q.entries ≡ p.entries
    by_req : q.staging_by_req ≡ p.staging_by_req
    tables : q.tables ≡ p.tables

  SameQueue-Queued : {p q : LoadPlanner s} → SameQueue p q → Queued p → Queued q
  SameQueue-Queued x q = rw x.entries (record {
    once = q.once;
    same = λ id. ap (lookup id) x.by_req ∙ q.same id;
    in_turn = q.in_turn;
  })

  arm_unless-SameQueue :
      (p : LoadPlanner s) (id : String) (now wait : s.Time) (e : Option s.Time)
      → SameQueue p (arm_unless s p id now wait e).0
  unfolding arm_unless
  arm_unless-SameQueue p id now wait (some d) = record {
    entries = refl;
    by_req = refl;
    tables = refl;
  }
  arm_unless-SameQueue p id now wait none = record { entries = refl; by_req = refl; tables = refl }

  arm_deadline-SameQueue :
      (p : LoadPlanner s) (id : String) (now wait : s.Time)
      → SameQueue p (arm_deadline s p id now wait).0
  unfolding arm_deadline
  arm_deadline-SameQueue p id now wait =
      arm_unless-SameQueue p id now wait (lookup id p.deadline_at)

  gc_deadline-SameQueue :
      (p : LoadPlanner s) (ids : List String) (req : String) → SameQueue p (gc_deadline s p ids req)
  unfolding gc_deadline
  gc_deadline-SameQueue p ids req = record {
    entries = ground arith;
    by_req = ground arith;
    tables = ground arith;
  }

  SameQueue-trans : {p q r : LoadPlanner s} → SameQueue p q → SameQueue q r → SameQueue p r
  SameQueue-trans x y = record {
    entries = y.entries ∙ x.entries;
    by_req = y.by_req ∙ x.by_req;
    tables = y.tables ∙ x.tables;
  }

  gc_each-SameQueue :
      (p : LoadPlanner s) (ids reqs : List String) → SameQueue p (gc_each s p ids reqs)
  unfolding gc_each
  gc_each-SameQueue p ids [] = record { entries = refl; by_req = refl; tables = refl }
  gc_each-SameQueue p ids (req ∷ reqs) =
      SameQueue-trans (gc_deadline-SameQueue p ids req)
        (gc_each-SameQueue (gc_deadline s p ids req) ids reqs)

  retire_from-tables :
      (now : s.Time) (es : List (Staging s)) (p : LoadPlanner s)
      → (retire_from s now es p).tables ≡ p.tables
  unfolding retire_from retire_one
  retire_from-tables now [] p = refl
  retire_from-tables now (e ∷ es) p = ground (arith, retire_from-tables now es (retire_one s p e))

  start-Queued :
      (p : LoadPlanner s) (now : s.Time) (cs : List CandidateCostInput) (outstanding : List ℕ)
      → Queued p
      → Queued (start s p now cs outstanding).planner
        × ((start s p now cs outstanding).planner.tables ≡ p.tables)
  unfolding start gc_deadlines gc_staged retire_shadow_entries
  start-Queued p now cs outstanding q =
      let r = retire_shadow_entries s p now in
      let x =
        gc_each-SameQueue (gc_staged s r (candidate_ids s cs)) (candidate_ids s cs)
          (keys r.deadline_at) in
      let v = retire_from-IsQueue s now p.entries p q in
      (
        SameQueue-Queued x (record { once = v.once; same = v.same; in_turn = v.in_turn }),
        x.tables ∙ retire_from-tables now p.entries p,
      )

  module _ (o : IsOrdered s) where
    starts_after-last_end :
        (now : s.Time) (es : List (Staging s))
        → s.le (last_end s (starts_after s now es) es) (starts_after s now es) ≡ true
    unfolding last_end starts_after
    starts_after-last_end now [] = o.le_refl now
    starts_after-last_end now (e ∷ es) =
        rw (last_end_default (max_s s now (last_end s now (e ∷ es))) now e es)
          (le-max_s_right s o now (last_end s now (e ∷ es)))

    append-Queued :
        (p : LoadPlanner s) (id : String) (service now : s.Time) (emitted : ℕ)
        → s.le (s.of_nat 0) service ≡ true
        → lookup id p.staging_by_req ≡ none
        → Queued p
        → Queued (append_shadow_entry s p id service now emitted)
    unfolding append_shadow_entry new_entry
    append-Queued p id service now emitted pos new q =
        let e = new_entry s p id service now emitted in
        record {
          once = rw (entry_ids-append s e p.entries) (
              append_one-Distinct id (entry_ids s p.entries) q.once
                (find_entry-contains s id p.entries (sym (q.same id) ∙ new)));
          same = λ j.
              rw
                (lookup-insert, find_entry-append s j e p.entries (sym (q.same id) ∙ new), q.same j)
                refl;
          in_turn =
              InTurn-append s e p.entries (o.le-add (starts_after s now p.entries) service pos)
                (starts_after-last_end now p.entries) q.in_turn;
        }

    appended :
        (p : LoadPlanner s) (id : String) (service now : s.Time) (emitted : ℕ)
        → s.le (s.of_nat 0) service ≡ true
        → lookup id p.staging_by_req ≡ none
        → Queued p
        → Queued (append_shadow_entry s p id service now emitted)
          × ((append_shadow_entry s p id service now emitted).tables ≡ p.tables)
    unfolding append_shadow_entry
    appended p id service now emitted pos new q =
        (append-Queued p id service now emitted pos new q, refl)

    service_for-le :
        (p : LoadPlanner s) (n : ℕ)
        → NonNegative p.tables
        → s.le (s.of_nat 0) (service_for s p n) ≡ true
    unfolding service_for
    service_for-le p n pos = elim (Bool-cases (n == 0)) [
      | inl z ↦ rw z (o.le_refl (s.of_nat 0))
      | inr z ↦ rw z (pos n)
    ]

    Branch-Queued :
        {now : s.Time} {l : Loop s} {c : CandidateCostInput} {l' : Loop s}
        → Branch s now l c l'
        → NonNegative l.planner.tables
        → Queued l.planner
        → Queued l'.planner × (l'.planner.tables ≡ l.planner.tables)
    unfolding decide plan_speculate plan_missing plan_resident plan_defer plan_admit
        note_outstanding
    Branch-Queued {now} {l} {c} (mid_write b e f) pos q =
        appended l.planner c.req_id _ now _ (service_for-le l.planner _ pos) e q
    Branch-Queued (mid_write_over b e f) pos q = (q, refl)
    Branch-Queued (mid_write_again x b e) pos q = (q, refl)
    Branch-Queued (missing b z) pos q = (q, refl)
    Branch-Queued {l} (resident b z r) pos q =
        (SameQueue-Queued (record { entries = refl; by_req = refl; tables = refl }) q, refl)
    Branch-Queued {l} (expired x a e p) pos q =
        (SameQueue-Queued (record { entries = refl; by_req = refl; tables = refl }) q, refl)
    Branch-Queued {now} {l} {c} (again x a e p) pos q =
        let same = arm_deadline-SameQueue l.planner c.req_id now _ in
        (SameQueue-Queued same q, same.tables)
    Branch-Queued (cheaper a e p) pos q = (q, refl)
    Branch-Queued (late a e p r) pos q = (q, refl)
    Branch-Queued {now} {l} {c} (deferred a e p r f) pos q =
        let same = arm_deadline-SameQueue l.planner c.req_id now (storage_done s l c) in
        let armed = (arm_deadline s l.planner c.req_id now (storage_done s l c)).0 in
        let (v, t) =
          appended armed c.req_id _ now _ (service_for-le l.planner _ pos)
            (ap (lookup c.req_id) same.by_req ∙ e) (SameQueue-Queued same q) in
        (v, t ∙ same.tables)
    Branch-Queued (over a e p r f) pos q = (q, refl)

    plan_each-Queued :
        (now : s.Time) (l : Loop s) (cs : List CandidateCostInput)
        → NonNegative l.planner.tables
        → Queued l.planner
        → Queued (plan_each s now l cs).planner
    unfolding plan_each
    plan_each-Queued now l [] pos q = q
    plan_each-Queued now l (c ∷ cs) pos q =
        let (v, t) = Branch-Queued (plan_one-Branch s now l c) pos q in
        plan_each-Queued now (plan_one s now l c) cs (λ n. rw t (pos n)) v

    -- Where no table entry is negative, `plan` keeps the modelled storage queue well formed: the queue
    -- and the index by request hold the same reads, each request has one at most, and each read starts
    -- no earlier than the one before it ends.
    pub plan-Queued :
        (p : LoadPlanner s) (now : s.Time) (candidates : List CandidateCostInput)
        (outstanding : List ℕ)
        → NonNegative p.tables
        → Queued p
        → Queued (plan s p now candidates outstanding).0
    unfolding plan
    plan-Queued p now candidates outstanding pos q =
        let (v, t) = start-Queued p now candidates outstanding q in
        let w =
          plan_each-Queued now (start s p now candidates outstanding) candidates (λ n. rw t (pos n))
            v in
        record { once = w.once; same = w.same; in_turn = w.in_turn }
