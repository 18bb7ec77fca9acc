-- ===== src/Tests/Transfers.antt =====
-- Divisions of block ids of py_kvcache/transfer.py.
use py_kvcache.Prelude.{some, inl, ℕ, ◌≡◌, refl, List, [], ◌∷◌, ok, arith}
use py_kvcache.Transfer.{
  GpuSpec, load_chunks, has_other_groups, range_from, expand_all, expand_from, expand_block_ids,
  shortfall, build_block_mapping,
}
use py_kvcache.Transfer.Split.{IsDivided, load_chunks-fits}
use py_kvcache.Transfer.Mapping.{IsFull, PairsAt, build_block_mapping-pairs}

program : Unit {0}
unfolding has_other_groups range_from expand_all expand_from expand_block_ids shortfall
    build_block_mapping
program = tt

abbrev ids : List ℕ
ids = 10 ∷ 11 ∷ 12 ∷ 13 ∷ 14 ∷ []

-- Two storage blocks of two sub-blocks, and three blocks of the GPU.
abbrev paired : List ℕ × List ℕ × ℕ
paired = (11 ∷ 12 ∷ 13 ∷ [], 7 ∷ 8 ∷ 9 ∷ [], 3)

mapped : build_block_mapping (5 ∷ 6 ∷ []) 2 (7 ∷ 8 ∷ 9 ∷ []) 1 ≡ ok paired
unfolding program
mapped = refl

-- The last places: sub-block 1 of block 6, and block 9.
build_block_mapping-pairs_example :
    IsFull (7 ∷ 8 ∷ 9 ∷ []) 1 paired × PairsAt (5 ∷ 6 ∷ []) 2 (7 ∷ 8 ∷ 9 ∷ []) 1 2 1 1 2 0 paired
build_block_mapping-pairs_example =
    build_block_mapping-pairs (5 ∷ 6 ∷ []) 2 (7 ∷ 8 ∷ 9 ∷ []) 1 2 1 1 2 0 mapped (omega arith)
      (omega arith) (omega arith) (omega arith) (omega arith)

abbrev spec : GpuSpec
spec = record { block_ids = some ids; group_sizes = some (5 ∷ []); block_indices = some (2 ∷ []) }

load_chunks-fits_example :
    (chunks : List (List ℕ)) × (load_chunks 4 spec 2 ≡ ok chunks) × IsDivided 4 ids 1 2 chunks
unfolding program
load_chunks-fits_example =
    load_chunks-fits 4 spec ids 1 2 refl refl (inl refl) (omega arith) (omega arith)
