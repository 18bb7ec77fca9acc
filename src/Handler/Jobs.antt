-- ===== src/Handler/Jobs.antt =====
-- The life of a transfer job in the handler of py_kvcache/vllm.py: what `get_finished` reports and
-- what it leaves.
use py_kvcache.Prelude.{
  ℕ, ◌≡◌, refl, sym, ap, ◌∙◌, true, false, [], ◌∷◌, ◌++◌, Option, none, some, ok, nat_eq, arith,
  Option-cases, inl, inr,
}
use mathlib.Core.List.{append_assoc, append-nil}
use py_kvcache.Prelude.Keys.{contains, Distinct, ==_refl, add-Distinct}
use py_kvcache.Prelude.Dict.{
  Dict, keys, values, delete, has, insert_absent, delete-append, has-append, delete_absent,
  keys-insert,
}
use py_kvcache.Seconds.{Seconds}
use py_kvcache.Handler.{
  Ended, transferred, load_declined, raised, TransferResult, Active, Handler, LoadStoreSpec,
  transfer_result, note_declined, collect, collect_each, get_finished, transfer_async,
  transfer_type_of,
}

module _ (s : Seconds) (Future : Type 0) where
  -- No result is kept between calls, and a job is active once.
  pub record IsValid (h : Handler s Future) : Type 0 where
    pub collected : h.finished ≡ []
    pub once : Distinct (keys h.active)

  module _ (clock : ℕ → s.Time) (poll : Future → Option Ended) where
    -- The jobs that are not done.
    abbrev pub waiting : Dict ℕ (Active s Future) → Dict ℕ (Active s Future)
    waiting [] = []
    waiting ((job_id, a) ∷ items) =
        let rest = waiting items in
        elim (poll a.future) [ none ↦ (job_id, a) ∷ rest | some _ ↦ rest ]

    -- The results of those that are, in the order in which they were submitted.
    abbrev pub reported : Dict ℕ (Active s Future) → Dict ℕ (TransferResult s Future)
    reported [] = []
    reported ((job_id, a) ∷ items) =
        let rest = reported items in
        elim (poll a.future) [
          | none ↦ rest
          | some ended ↦ (job_id, transfer_result s Future clock job_id a ended) ∷ rest
        ]

    note_declined_active :
        (h : Handler s Future) (ended : Ended)
        → ((note_declined s Future h ended).active ≡ h.active)
          × ((note_declined s Future h ended).finished ≡ h.finished)
    unfolding note_declined
    note_declined_active h (transferred _) = (refl, refl)
    note_declined_active h (load_declined _ _) = (refl, refl)
    note_declined_active h (raised _) = (refl, refl)

    -- The jobs of `items` are neither in `done` nor in `finished`.
    Apart :
        Dict ℕ (Active s Future)
        → Dict ℕ (TransferResult s Future)
        → Dict ℕ (Active s Future)
        → Type 0
    Apart done finished items =
        (j : ℕ) → contains j (keys items) ≡ true → (has j done ≡ false) × (has j finished ≡ false)

    Apart-wait :
        (done : Dict ℕ (Active s Future)) (finished : Dict ℕ (TransferResult s Future)) (j : ℕ)
        (a : Active s Future) (items : Dict ℕ (Active s Future))
        → contains j (keys items) ≡ false
        → Apart done finished ((j, a) ∷ items)
        → Apart (done ++ (j, a) ∷ []) finished items
    unfolding Apart
    Apart-wait done finished j a items new apart i h =
        ground (arith, has-append i done ((j, a) ∷ []), apart i)

    Apart-collect :
        (done : Dict ℕ (Active s Future)) (finished : Dict ℕ (TransferResult s Future)) (j : ℕ)
        (a : Active s Future) (r : TransferResult s Future) (items : Dict ℕ (Active s Future))
        → contains j (keys items) ≡ false
        → Apart done finished ((j, a) ∷ items)
        → Apart done (finished ++ (j, r) ∷ []) items
    unfolding Apart
    Apart-collect done finished j a r items new apart i h =
        ground (arith, has-append i finished ((j, r) ∷ []), apart i)

    delete_first :
        (done : Dict ℕ (Active s Future)) (j : ℕ) (a : Active s Future)
        (items : Dict ℕ (Active s Future))
        → contains j (keys items) ≡ false
        → has j done ≡ false
        → delete j (done ++ (j, a) ∷ items) ≡ done ++ items
    delete_first done j a items new apart =
        rw
          (
            delete-append j done ((j, a) ∷ items),
            delete_absent j done apart,
            ==_refl j,
            delete_absent j items new,
          )
          refl

    collect-done :
        (h : Handler s Future) (done : Dict ℕ (Active s Future)) (j : ℕ) (a : Active s Future)
        (items : Dict ℕ (Active s Future)) (ended : Ended)
        → h.active ≡ done ++ (j, a) ∷ items
        → contains j (keys items) ≡ false
        → (has j done ≡ false) × (has j h.finished ≡ false)
        → ((collect s Future clock h j a (some ended)).active ≡ done ++ items)
          × ((collect s Future clock h j a (some ended)).finished
              ≡ h.finished ++ (j, transfer_result s Future clock j a ended) ∷ [])
    unfolding collect
    collect-done h done j a items ended e new (apart, fresh) =
        let (same_active, same_finished) = note_declined_active h ended in
        (
          rw (same_active, e) (delete_first done j a items new apart),
          rw same_finished
              (insert_absent j (transfer_result s Future clock j a ended) h.finished fresh),
        )

    collect_each_lem :
        (h : Handler s Future) (done items : Dict ℕ (Active s Future))
        → h.active ≡ done ++ items
        → Distinct (keys items)
        → Apart done h.finished items
        → ((collect_each s Future clock poll h items).active ≡ done ++ waiting items)
          × ((collect_each s Future clock poll h items).finished ≡ h.finished ++ reported items)
    unfolding collect_each collect Apart
    collect_each_lem h done [] e d apart = (e, sym (append-nil h.finished))
    collect_each_lem h done ((j, a) ∷ items) e d apart = elim (Option-cases (poll a.future)) [
      | inl busy ↦
          let (active, finished) =
            collect_each_lem h (done ++ (j, a) ∷ []) items
              (e ∙ sym (append_assoc done ((j, a) ∷ []) items)) d.1
              (Apart-wait done h.finished j a items d.0 apart) in
          rw (collect_each, waiting, reported, busy)
            (active ∙ append_assoc done ((j, a) ∷ []) (waiting items), finished)
      | inr (ended, over) ↦
          let r = transfer_result s Future clock j a ended in
          let (left, got) =
            collect-done h done j a items ended e d.0 (apart j (rw (==_refl j) refl)) in
          let (active, finished) =
            collect_each_lem (collect s Future clock h j a (some ended)) done items left d.1
              (rw got (Apart-collect done h.finished j a r items d.0 apart)) in
          rw (collect_each, waiting, reported, over)
            (
              active,
              finished
                  ∙ ap (λ l. l ++ reported items) got
                  ∙ append_assoc h.finished ((j, r) ∷ []) (reported items),
            )
    ]

    Distinct-waiting :
        (items : Dict ℕ (Active s Future)) (k : ℕ)
        → contains k (keys items) ≡ false
        → contains k (keys (waiting items)) ≡ false
    Distinct-waiting [] k h = refl
    Distinct-waiting ((j, a) ∷ items) k h = ground (arith, Distinct-waiting items k)

    waiting-Distinct :
        (items : Dict ℕ (Active s Future)) → Distinct (keys items) → Distinct (keys (waiting items))
    waiting-Distinct [] d = tt
    waiting-Distinct ((j, a) ∷ items) d =
        ground (arith, waiting-Distinct items, Distinct-waiting items j)

    -- `get_finished` on a valid handler reports each job that is done, in the order of submission, with
    -- the result of its future; it leaves exactly the others active, and the handler valid.
    pub get_finished-reports :
        (h : Handler s Future)
        → IsValid h
        → ((get_finished s Future clock poll h).1 ≡ values (reported h.active))
          × ((get_finished s Future clock poll h).0.active ≡ waiting h.active)
          × IsValid (get_finished s Future clock poll h).0
    unfolding get_finished Apart
    get_finished-reports h v =
        let (active, finished) =
          collect_each_lem h [] h.active refl v.once (λ j _. (refl, rw v.collected refl)) in
        (
          rw (finished, v.collected) refl,
          active,
          record { collected = refl; once = rw active (waiting-Distinct h.active v.once) },
        )

  -- `transfer_async` of a job that is not active, on a valid handler that is not shut down, accepts
  -- the job where the coordinator does.
  transfer_async-accepts :
      (h : Handler s Future) (job_id : ℕ) (src dst : LoadStoreSpec) (a : Active s Future)
      → IsValid h
      → h.is_shutdown ≡ false
      → has job_id h.active ≡ false
      → transfer_type_of src dst ≡ ok a.transfer_type
      → transfer_async s Future (ok a.future) a.started h job_id src dst
        ≡ ok (record h { active = h.active ++ (job_id, a) ∷ [] }, true)
  unfolding transfer_async
  transfer_async-accepts h job_id src dst a v up new kind =
      rw (up, new, v.collected, kind, insert_absent job_id a h.active new) refl

  reported-append :
      (clock : ℕ → s.Time) (poll : Future → Option Ended) (d t : Dict ℕ (Active s Future))
      → reported clock poll (d ++ t) ≡ reported clock poll d ++ reported clock poll t
  reported-append clock poll [] t = refl
  reported-append clock poll ((j, a) ∷ d) t = ground (arith, reported-append clock poll d t)

  values-append : (d t : Dict ℕ (TransferResult s Future)) → values (d ++ t) ≡ values d ++ values t
  values-append [] t = refl
  values-append ((j, r) ∷ d) t = ap (λ l. r ∷ l) (values-append d t)

  -- A job that is submitted is reported: on a valid handler that is not shut down, `transfer_async` of
  -- a job that is not active, between a GPU and a shared-storage spec, accepts it where the
  -- coordinator does; and `get_finished`, once the job's future is done, reports its result once,
  -- behind those of the jobs before it that are done.
  pub transfer_async-reported :
      (clock : ℕ → s.Time) (poll : Future → Option Ended) (h : Handler s Future) (job_id : ℕ)
      (src dst : LoadStoreSpec) (a : Active s Future) (ended : Ended)
      → IsValid h
      → h.is_shutdown ≡ false
      → has job_id h.active ≡ false
      → transfer_type_of src dst ≡ ok a.transfer_type
      → poll a.future ≡ some ended
      → (h' : Handler s Future) × (transfer_async s Future (ok a.future) a.started h job_id src dst
          ≡ ok (h', true))
        × ((get_finished s Future clock poll h').1
            ≡ (get_finished s Future clock poll h).1
              ++ transfer_result s Future clock job_id a ended ∷ [])
  transfer_async-reported clock poll h job_id src dst a ended v up new kind over =
      let next = record h { active = h.active ++ (job_id, a) ∷ [] } in
      let next_valid : IsValid next = record {
        collected = v.collected;
        once =
            rw (sym (insert_absent job_id a h.active new))
              (rw (keys-insert job_id a h.active) (add-Distinct job_id (keys h.active) v.once));
      } in
      (
        next,
        transfer_async-accepts h job_id src dst a v up new kind,
        rw
            (
              (get_finished-reports clock poll next next_valid).0,
              (get_finished-reports clock poll h v).0,
              reported-append clock poll h.active ((job_id, a) ∷ []),
              values-append (reported clock poll h.active) (reported clock poll ((job_id, a) ∷ [])),
              reported,
              over,
            )
            refl,
      )
