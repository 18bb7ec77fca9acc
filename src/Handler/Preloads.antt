-- ===== src/Handler/Preloads.antt =====
-- The window of preload ids that the handler of py_kvcache/vllm.py remembers.
use Prim.Native.String.{String}
use py_kvcache.Prelude.{
  ℕ, ◌-◌, ◌≤◌, ◌<◌, ◌≡◌, refl, sym, ap, subst, Bool, true, false, List, [], ◌∷◌, ◌++◌, Option, none,
  ok, err, runtime_error, string_eq, arith, Bool-cases, inl, inr, if◌then◌else◌, ltb, ltb→lt,
  length, length-append,
}
use py_kvcache.Prelude.Keys.{
  contains, contains-append, ==_refl, add_absent, length-remove, length-add-le,
  contains-move_to_end, add, remove, Distinct, contains-add, add-Distinct, move_to_end-Distinct,
}
use py_kvcache.Seconds.{Seconds}
use py_kvcache.Handler.{
  Handler, LoadStoreSpec, shared_storage_spec, pop_first, remember, preload_storage, preload_open,
  preload_async, gpu_spec, other_spec,
}

length-pop_first : (l : List String) → length (pop_first l) ≡ length l - 1
unfolding pop_first
length-pop_first [] = refl
length-pop_first (_ ∷ l) = omega arith

-- The id at the end is not the one that is dropped, where there is another.
contains-pop_first :
    (k : String) (l : List String) → 0 < length l → contains k (pop_first (l ++ k ∷ [])) ≡ true
unfolding pop_first
contains-pop_first k [] h = absurd (omega arith)
contains-pop_first k (j ∷ l) h = rw (contains-append k l (k ∷ []), ==_refl k) (ground arith)

pop_first-Distinct : (l : List String) → Distinct l → Distinct (pop_first l)
unfolding pop_first
pop_first-Distinct [] d = tt
pop_first-Distinct (_ ∷ l) d = d.1

module _ (s : Seconds) (Future : Type 0) where
  -- The ids are distinct, and no more than the bound.
  pub record IsWindow (h : Handler s Future) : Type 0 where
    pub once : Distinct h.submitted_preload_ids
    pub bounded : length h.submitted_preload_ids ≤ h.max_submitted_preload_ids

  remember-IsWindow :
      (h : Handler s Future) (k : String) → IsWindow h → IsWindow (remember s Future h k)
  unfolding remember
  remember-IsWindow h k w =
      elim (Bool-cases (ltb h.max_submitted_preload_ids (length (add k h.submitted_preload_ids)))) [
        | inl over ↦ record {
          once = rw over (
              pop_first-Distinct (add k h.submitted_preload_ids)
                (add-Distinct k h.submitted_preload_ids w.once));
          bounded =
              rw (over, length-pop_first (add k h.submitted_preload_ids))
                (omega (arith, length-add-le k h.submitted_preload_ids, w.bounded));
        }
        | inr fits ↦ record {
          once = rw fits (add-Distinct k h.submitted_preload_ids w.once);
          bounded = rw fits (ground arith);
        }
      ]

  preload_storage-IsWindow :
      (h : Handler s Future) (k : String) (hashes : List ℕ)
      → IsWindow h
      → IsWindow (preload_storage s Future h k hashes).0
  unfolding preload_storage
  preload_storage-IsWindow h k hashes w = elim (Bool-cases (contains k h.submitted_preload_ids)) [
    | inl known ↦ rw known (record {
      once = move_to_end-Distinct k h.submitted_preload_ids w.once;
      bounded =
          rw (length-append (remove k h.submitted_preload_ids) (k ∷ []))
            (omega (arith, length-remove k h.submitted_preload_ids w.once known, w.bounded));
    })
    | inr new ↦ rw new (remember-IsWindow h k w)
  ]

  -- A remembered id is still there when it has been remembered, and no second submission is made.
  remember-known :
      (h : Handler s Future) (k : String)
      → 0 < h.max_submitted_preload_ids
      → contains k h.submitted_preload_ids ≡ false
      → contains k (remember s Future h k).submitted_preload_ids ≡ true
  unfolding remember
  remember-known h k room new =
      elim (Bool-cases (ltb h.max_submitted_preload_ids (length (add k h.submitted_preload_ids)))) [
        | inl over ↦
            rw (over, add_absent k h.submitted_preload_ids new)
              (contains-pop_first k h.submitted_preload_ids
                (omega (arith, room, ltb→lt _ _ over, length-add-le k h.submitted_preload_ids)))
        | inr fits ↦ rw (fits, contains-add k k h.submitted_preload_ids, ==_refl k) refl
      ]

  preload_storage-known :
      (h : Handler s Future) (k : String) (hashes : List ℕ)
      → 0 < h.max_submitted_preload_ids
      → contains k (preload_storage s Future h k hashes).0.submitted_preload_ids ≡ true
  unfolding preload_storage
  preload_storage-known h k hashes room = elim (Bool-cases (contains k h.submitted_preload_ids)) [
    | inl known ↦ rw (known, contains-move_to_end k k h.submitted_preload_ids, ==_refl k) refl
    | inr new ↦ rw new (remember-known h k room new)
  ]

  opened :
      (h : Handler s Future) (k : String) (src : LoadStoreSpec)
      {r : Handler s Future × Option (List ℕ) × Bool}
      → preload_async s Future h k src ≡ ok r
      → (h.is_shutdown ≡ false) × (preload_open s Future h k src ≡ r)
  unfolding preload_async
  opened h k src e = ground arith

  preload_open-IsWindow :
      (h : Handler s Future) (k : String) (src : LoadStoreSpec)
      → IsWindow h
      → IsWindow (preload_open s Future h k src).0
  unfolding preload_open
  preload_open-IsWindow h k (gpu_spec _) w = w
  preload_open-IsWindow h k (shared_storage_spec hashes) w = preload_storage-IsWindow h k hashes w
  preload_open-IsWindow h k other_spec w = w

  -- `preload_async` keeps the window of remembered ids: they are distinct, and no more than the bound.
  pub preload_async-IsWindow :
      (h : Handler s Future) (k : String) (src : LoadStoreSpec)
      {r : Handler s Future × Option (List ℕ) × Bool}
      → IsWindow h
      → preload_async s Future h k src ≡ ok r
      → IsWindow r.0
  preload_async-IsWindow h k src w e =
      subst (λ r. IsWindow r.0) (opened h k src e).1 (preload_open-IsWindow h k src w)

  preload_storage-is_shutdown :
      (h : Handler s Future) (k : String) (hashes : List ℕ)
      → (preload_storage s Future h k hashes).0.is_shutdown ≡ h.is_shutdown
  unfolding preload_storage remember
  preload_storage-is_shutdown h k hashes = ground arith

  preload_open-known :
      (h : Handler s Future) (k : String) (src : LoadStoreSpec)
      → contains k h.submitted_preload_ids ≡ true
      → preload_open s Future h k src ≡ ((preload_open s Future h k src).0, none, false)
  unfolding preload_open preload_storage
  preload_open-known h k (gpu_spec _) known = refl
  preload_open-known h k (shared_storage_spec hashes) known = rw known refl
  preload_open-known h k other_spec known = refl

  again :
      (h : Handler s Future) (k : String) (src : LoadStoreSpec)
      → h.is_shutdown ≡ false
      → contains k h.submitted_preload_ids ≡ true
      → preload_async s Future h k src ≡ ok ((preload_open s Future h k src).0, none, false)
  unfolding preload_async
  again h k src up known =
      let opening = preload_open s Future h k src in
      subst (λ b. (if b then err runtime_error else ok opening) ≡ ok (opening.0, none, false))
        (sym up) (ap ok (preload_open-known h k src known))

  -- A preload is submitted once: after `preload_async` of an id with a shared-storage spec, on a
  -- handler whose bound is positive, the same id again is accepted, answers `False`, and submits
  -- nothing, whatever its spec.
  pub preload_async_again :
      (h : Handler s Future) (k : String) (hashes : List ℕ) (src : LoadStoreSpec)
      {r : Handler s Future × Option (List ℕ) × Bool}
      → 0 < h.max_submitted_preload_ids
      → preload_async s Future h k (shared_storage_spec hashes) ≡ ok r
      → (h' : Handler s Future) × (preload_async s Future r.0 k src ≡ ok (h', none, false))
  unfolding preload_open
  preload_async_again h k hashes src {r} room e =
      let (up, first) = opened h k (shared_storage_spec hashes) e in
      (
        (preload_open s Future r.0 k src).0,
        again r.0 k src
            (subst (λ x. x.0.is_shutdown ≡ false) first
              (rw (preload_storage-is_shutdown h k hashes) up))
            (subst (λ x. contains k x.0.submitted_preload_ids ≡ true) first
              (preload_storage-known h k hashes room)),
      )
