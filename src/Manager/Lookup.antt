-- ===== src/Manager/Lookup.antt =====
-- `lookup` and `_probe` of `SharedStorageOffloadingManager` (py_kvcache/vllm.py) against the file
-- system: the lookup cache changes no answer.
use Prim.Native.String.{String}
use py_kvcache.Prelude.{
  ℕ, ◌≡◌, refl, ap, ◌∙◌, ◌↔◌, inl, inr, Bool, true, false, ◌⊎◌, Option, none, some, if◌then◌else◌,
  string_eq, nat_eq, ◌==◌, arith, Bool-cases, not, ◌&&◌, ◌||◌, nat_beq_iff, subst,
}
use py_kvcache.Prelude.Keys.{contains, contains-add}
use py_kvcache.Prelude.Dict.{Dict, keys, insert, has, keys-insert}
use py_kvcache.Seconds.{Seconds}
use py_kvcache.LoadPlanner.State.{LoadDecision, defer, decline, LoadPlanner}
use py_kvcache.LoadPlanner.{decision_for}
use py_kvcache.Manager.{OffloadKeys, Manager, probe, note_lookup, planner_decision, gate, look_up}

module _ (s : Seconds) (k : OffloadKeys) (exists : ℕ → Bool) where
  -- Only hashes whose file exists are in the lookup cache.
  abbrev pub CacheIsSound : Manager s k → Type 0
  CacheIsSound m = (h : ℕ) → has h m.lookup_cache ≡ true → exists h ≡ true

  insert_sound :
      (d : Dict ℕ Bool) (h j : ℕ)
      → exists h ≡ true
      → (has j d ≡ true → exists j ≡ true)
      → has j (insert h true d) ≡ true
      → exists j ≡ true
  insert_sound d h j e old i = elim (Bool-cases (h == j)) [
    | inl same ↦ subst (λ x. exists x ≡ true) ((nat_beq_iff h j).0 same) e
    | inr other ↦
        old (ground (arith, ap (contains j) (keys-insert h true d), contains-add h j (keys d)))
  ]

  pub probe_sound :
      (m : Manager s k) (h : ℕ) → CacheIsSound m → CacheIsSound (probe s k exists m h).0
  unfolding probe
  probe_sound m h v = elim (Bool-cases (has h m.lookup_cache)) [
    | inl c ↦ rw c v
    | inr c ↦ rw c (elim (Bool-cases (exists h)) [
      | inl e ↦ rw e (λ j. insert_sound m.lookup_cache h j e (v j))
      | inr e ↦ rw e v
    ])
  ]

  pub look_up_sound :
      (m : Manager s k) (h : ℕ) (r : Option String)
      → CacheIsSound m
      → CacheIsSound (look_up s k exists m h r).0
  unfolding look_up note_lookup
  look_up_sound m h r v = elim (Bool-cases (has h m.lookup_cache)) [
    | inl c ↦ rw c v
    | inr c ↦ rw c (elim (Bool-cases (exists h)) [
      | inl e ↦ rw e (λ j. insert_sound m.lookup_cache h j e (v j))
      | inr e ↦ rw e v
    ])
  ]

  -- What `lookup` is to answer: it knows the file, whether it is being written, and the planner.
  abbrev pub answer : Bool → Bool → Option String → Option (LoadPlanner s) → Option Bool
  answer on_disk written req_id planner =
      if not on_disk && written
      then none
      else gate s k (planner_decision s k planner req_id) on_disk

  cached-exists :
      (m : Manager s k) (h : ℕ) → CacheIsSound m → (has h m.lookup_cache || exists h) ≡ exists h
  cached-exists m h v = ground (arith, v h)

  look_up-by_answer :
      (m : Manager s k) (h : ℕ) (r : Option String)
      → CacheIsSound m
      → (look_up s k exists m h r).1 ≡ answer (exists h) (has h m.store_inflight) r m.planner
  unfolding look_up
  look_up-by_answer m h r v = simp (cached-exists m h v)

  -- With a sound cache, `lookup` answers `None` for a block that is being written and not on disk.
  pub look_up-fenced :
      (m : Manager s k) (h : ℕ) (r : Option String)
      → CacheIsSound m
      → exists h ≡ false
      → has h m.store_inflight ≡ true
      → (look_up s k exists m h r).1 ≡ none
  look_up-fenced m h r v absent written = look_up-by_answer m h r v ∙ rw (absent, written) refl

  -- The planner has a decision for the request: there is a planner, the request has an id, and the
  -- planner's last decision for that id is `d`.
  abbrev pub Decides : Option (LoadPlanner s) → Option String → LoadDecision → Type 0
  Decides none req_id d = ⊥
  Decides (some p) none d = ⊥
  Decides (some p) (some req_id) d = decision_for s p req_id ≡ some d

  -- What an answer says: `None` of a block in the middle of a write, or where the planner defers;
  -- `True` of one that is on disk, and else `False` of one that is not, or where the planner declines.
  abbrev pub Says : Bool → Bool → Option (LoadPlanner s) → Option String → Option Bool → Type 0
  Says on_disk written planner r a =
      ((a ≡ none) ↔ (((on_disk ≡ false) × (written ≡ true)) ⊎ Decides planner r defer))
      × ((a ≡ some true)
          ↔ ((on_disk ≡ true) × (¬ Decides planner r defer) × (¬ Decides planner r decline)))
      × ((a ≡ some false) ↔ (
          (¬ ((on_disk ≡ false) × (written ≡ true)))
          × (¬ Decides planner r defer)
          × ((on_disk ≡ false) ⊎ Decides planner r decline)))

  gate-Says :
      (on_disk written : Bool) (planner : Option (LoadPlanner s)) (r : Option String)
      → Says on_disk written planner r (answer on_disk written r planner)
  unfolding planner_decision gate
  gate-Says on_disk written none r = ground arith
  gate-Says on_disk written (some p) none = ground arith
  gate-Says on_disk written (some p) (some req_id) = ground arith

  -- With a sound cache, `lookup` answers by the file system, the stores in flight and the planner's
  -- decision for the request: `None` exactly where the block is being written and not yet on disk, or
  -- the planner defers the request; `True` exactly where the block is on disk and the planner neither
  -- defers nor declines; and `False` exactly in the other cases, where the block is not on disk or
  -- the planner declines.
  pub look_up-answer :
      (m : Manager s k) (h : ℕ) (r : Option String)
      → CacheIsSound m
      → Says (exists h) (has h m.store_inflight) m.planner r (look_up s k exists m h r).1
  look_up-answer m h r v =
      rw (look_up-by_answer m h r v) (gate-Says (exists h) (has h m.store_inflight) m.planner r)

  -- `_probe` agrees with `lookup`: it finds a block exactly when `lookup`, with no planner, answers
  -- `True`, and calls it mid-write exactly when that defers it.
  pub probe-look_up :
      (m : Manager s k) (h : ℕ) (r : Option String)
      → CacheIsSound m
      → (((probe s k exists m h).1 ≡ true)
          ↔ ((look_up s k exists (record m { planner = none }) h r).1 ≡ some true))
        × (((probe s k exists m h).2 ≡ true)
            ↔ ((look_up s k exists (record m { planner = none }) h r).1 ≡ none))
  unfolding probe look_up planner_decision gate
  probe-look_up m h r v = ground (arith, v h)

  -- What `_probe` finds, and that it leaves the stores in flight alone.
  pub probe-answer :
      (m : Manager s k) (h : ℕ)
      → CacheIsSound m
      → ((probe s k exists m h).1 ≡ exists h)
        × ((probe s k exists m h).2 ≡ (not (exists h) && has h m.store_inflight))
        × ((probe s k exists m h).0.store_inflight ≡ m.store_inflight)
  unfolding probe
  probe-answer m h v = ground (arith, v h)
