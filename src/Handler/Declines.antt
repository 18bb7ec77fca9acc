-- ===== src/Handler/Declines.antt =====
-- The declined loads that the handler of py_kvcache/vllm.py reports for recompute.
use py_kvcache.Prelude.{
  ℕ, ◌≡◌, refl, Bool, false, List, [], ◌∷◌, Option, none, some, nat_eq, arith, Option-cases, inl,
  inr, ◌||◌,
}
use py_kvcache.Prelude.Keys.{contains, add, contains-add}
use py_kvcache.Prelude.Dict.{Dict}
use py_kvcache.Seconds.{Seconds}
use py_kvcache.Handler.{
  Ended, transferred, load_declined, raised, Active, Handler, update, note_declined, collect,
  collect_each, get_finished, get_declined_block_ids,
}

contains-update :
    (b : ℕ) (set xs : List ℕ) → contains b (update set xs) ≡ (contains b set || contains b xs)
unfolding update
contains-update b set [] = ground arith
contains-update b set (x ∷ xs) =
    rw (contains-update b (add x set) xs, contains-add x b set) (ground arith)

abbrev pub declines : Ended → ℕ → Bool
declines (transferred _) b = false
declines (load_declined block_ids _) b = contains b block_ids
declines (raised _) b = false

note_declined-declines :
    (s : Seconds) (Future : Type 0) (h : Handler s Future) (ended : Ended) (b : ℕ)
    → contains b (note_declined s Future h ended).declined_block_ids
      ≡ (contains b h.declined_block_ids || declines ended b)
unfolding note_declined
note_declined-declines s Future h (transferred _) b = ground arith
note_declined-declines s Future h (load_declined block_ids req_id) b =
    contains-update b h.declined_block_ids block_ids
note_declined-declines s Future h (raised _) b = ground arith

module _ (s : Seconds) (Future : Type 0) (clock : ℕ → s.Time) (poll : Future → Option Ended) where
  -- Some job that is done was declined, and names the block.
  unfoldable pub any_declines : Dict ℕ (Active s Future) → ℕ → Bool
  any_declines [] b = false
  any_declines ((job_id, a) ∷ items) b =
      let rest = any_declines items b in
      elim (poll a.future) [ none ↦ rest | some ended ↦ declines ended b || rest ]

  collect_each-declines :
      (h : Handler s Future) (items : Dict ℕ (Active s Future)) (b : ℕ)
      → contains b (collect_each s Future clock poll h items).declined_block_ids
        ≡ (contains b h.declined_block_ids || any_declines items b)
  unfolding collect_each collect any_declines
  collect_each-declines h [] b = ground arith
  collect_each-declines h ((j, a) ∷ items) b = elim (Option-cases (poll a.future)) [
    | inl busy ↦ rw (collect_each, any_declines, busy) (collect_each-declines h items b)
    | inr (ended, over) ↦
        rw (collect_each, any_declines, over)
          (rw
            (
              collect_each-declines (collect s Future clock h j a (some ended)) items b,
              note_declined-declines s Future h ended b,
            )
            (ground arith))
  ]

  -- Every declined block is reported once: after `get_finished`, `get_declined_block_ids` returns
  -- exactly the blocks that were to be reported before it and those of the jobs that it found
  -- declined; a second call returns none.
  pub get_finished-declines :
      (h : Handler s Future) (b : ℕ)
      → let h' = (get_finished s Future clock poll h).0 in
        let (h'', reported) = get_declined_block_ids s Future h' in
        (contains b reported ≡ (contains b h.declined_block_ids || any_declines h.active b))
        × ((get_declined_block_ids s Future h'').1 ≡ [])
  unfolding get_finished get_declined_block_ids
  get_finished-declines h b = (collect_each-declines h h.active b, refl)
