-- ===== src/CostModel.antt =====
-- `CostTables` of py_kvcache/cost_model.py and its accessors. A table is a tuple with an entry for
-- each number of blocks up to `max_blocks`; a block count is a length, so that it is not negative.
use py_kvcache.Prelude.{ℕ, none, some, List, if◌then◌else◌, ltb, get_elem?}
use py_kvcache.Seconds.{Seconds}

module _ (s : Seconds) where
  pub record CostTables : Type 0 where
    pub block_tokens : ℕ
    pub f_s : List s.Time
    pub g_ssd_s : List s.Time
    pub g_mem_s : List s.Time
    pub service_s : List s.Time
    pub max_blocks : ℕ

  unfoldable pub clamp : CostTables → ℕ → ℕ
  clamp t nblocks = if ltb t.max_blocks nblocks then t.max_blocks else nblocks

  -- An index past the end, at which Python would raise, reads 0 here; `clamp` excludes it in tables
  -- that `build_cost_tables` makes.
  unfoldable pub at_index : List s.Time → ℕ → s.Time
  at_index l i = elim (get_elem? l i) [ none ↦ s.of_nat 0 | some x ↦ x ]

  unfoldable pub recompute_s : CostTables → ℕ → s.Time
  unfolding clamp at_index
  recompute_s t nblocks = at_index t.f_s (clamp t nblocks)

  unfoldable pub load_ssd_s : CostTables → ℕ → s.Time
  unfolding clamp at_index
  load_ssd_s t nblocks = at_index t.g_ssd_s (clamp t nblocks)

  unfoldable pub load_mem_s : CostTables → ℕ → s.Time
  unfolding clamp at_index
  load_mem_s t nblocks = at_index t.g_mem_s (clamp t nblocks)

  unfoldable pub service_s_of : CostTables → ℕ → s.Time
  unfolding clamp at_index
  service_s_of t nblocks = at_index t.service_s (clamp t nblocks)
