-- ===== src/Transfer.antt =====
-- py_kvcache/transfer.py: how the block ids of a transfer are divided among files and expanded to
-- sub-blocks. An array of ids is a list; a column of `output` that is written is returned. The rest
-- of the file, which measures and copies tensors, is left out.
pub mod Split
pub mod Mapping
use py_kvcache.Prelude.{
  ℕ, zero, suc, Bool, true, false, Option, none, some, ◌+◌, ◌-◌, ◌*◌, ◌%◌, min, List, [], ◌∷◌, ◌++◌,
  Result, ok, err, value_error, zero_division_error, ◌>>=◌, ◌>>◌, raise_if, if◌then◌else◌, leb,
  length, take, drop, nat_eq, ◌==◌, not,
}

-- `base + numpy.arange(first, first + n)`
unfoldable pub range_from : ℕ → ℕ → List ℕ
range_from first zero = []
range_from first (suc n) = first ∷ range_from (suc first) n

-- The loop of `_expand_block_ids` from its second turn on.
unfoldable pub expand_all : ℕ → List ℕ → List ℕ
unfolding range_from
expand_all factor [] = []
expand_all factor (id ∷ ids) = range_from (id * factor) factor ++ expand_all factor ids

-- The loop, where the first id leaves out `skip` of its sub-blocks.
unfoldable pub expand_from : ℕ → ℕ → List ℕ → List ℕ
unfolding range_from expand_all
expand_from factor skip [] = []
expand_from factor skip (id ∷ ids) =
    range_from (id * factor + skip) (factor - skip) ++ expand_all factor ids

unfoldable pub expand_block_ids : List ℕ → ℕ → ℕ → Result (List ℕ)
unfolding expand_from
expand_block_ids block_ids factor skip =
    if leb factor skip then err value_error else ok (expand_from factor skip block_ids)

-- `-n % m`, for a positive m.
unfoldable pub shortfall : ℕ → ℕ → ℕ
shortfall n m = (m - n % m) % m

-- The two columns and the count. Where the source compares with a difference that may be negative,
-- the number that is subtracted stands on the other side.
unfoldable pub build_block_mapping : List ℕ → ℕ → List ℕ → ℕ → Result (List ℕ × List ℕ × ℕ)
unfolding expand_block_ids shortfall
build_block_mapping src_blocks src_factor dst_blocks dst_factor =
    if src_factor == 0 then err zero_division_error else (do
      raise_if
          (not (
            length dst_blocks * dst_factor + shortfall (length dst_blocks) src_factor
            == length src_blocks * src_factor))
          value_error
      src ← expand_block_ids src_blocks src_factor (shortfall (length dst_blocks) src_factor)
      dst ← expand_block_ids dst_blocks dst_factor 0
      ok (src, dst, length dst_blocks * dst_factor))

-- The loop of `split_block_ids_for_files` over `file_count` files, with the ids from `start` on: the
-- chunks, and the ids that are left.
unfoldable pub split_from : ℕ → ℕ → ℕ → List ℕ → List (List ℕ) × List ℕ
split_from blocks_per_file zero size ids = ([], ids)
split_from blocks_per_file (suc files) size ids =
    let (chunks, left) = split_from blocks_per_file files blocks_per_file (drop size ids) in
    (take size ids ∷ chunks, left)

-- `start != len(block_ids)` raises.
unfoldable pub all_split : List (List ℕ) × List ℕ → Result (List (List ℕ))
all_split (chunks, []) = ok chunks
all_split (chunks, (_ ∷ _)) = err value_error

unfoldable pub split_block_ids_for_files : ℕ → List ℕ → ℕ → ℕ → Result (List (List ℕ))
unfolding split_from all_split
split_block_ids_for_files blocks_per_file block_ids file_count first_block_index =
    if file_count == 0
    then ok []
    else if blocks_per_file == 0
    then err zero_division_error
    else all_split (
        split_from blocks_per_file file_count
          (min (length block_ids) (blocks_per_file - first_block_index % blocks_per_file))
          block_ids)

-- What the code reads of a GPU spec; an attribute that is missing is none.
pub record GpuSpec : Type 0 where
  pub block_ids : Option (List ℕ)
  pub group_sizes : Option (List ℕ)
  pub block_indices : Option (List ℕ)

unfoldable pub block_ids_of : GpuSpec → Result (List ℕ)
block_ids_of spec = elim spec.block_ids [ none ↦ err value_error | some ids ↦ ok ids ]

unfoldable pub safe_num_blocks : GpuSpec → ℕ
safe_num_blocks spec = elim spec.block_ids [ none ↦ 0 | some ids ↦ length ids ]

-- `group_sizes is not None and len(group_sizes) != 1`
unfoldable pub has_other_groups : Option (List ℕ) → Bool
has_other_groups none = false
has_other_groups (some sizes) = not (length sizes == 1)

unfoldable pub only_index : Option (List ℕ) → Result ℕ
only_index none = ok 0
only_index (some []) = err value_error
only_index (some (index ∷ [])) = ok index
only_index (some (_ ∷ _ ∷ _)) = err value_error

unfoldable pub first_group_block_index : GpuSpec → Result ℕ
unfolding has_other_groups only_index
first_group_block_index spec = do
  raise_if (has_other_groups spec.group_sizes) value_error
  only_index spec.block_indices

-- The chunks that `TransferCoordinator.submit_load` gives to its files.
unfoldable pub load_chunks : ℕ → GpuSpec → ℕ → Result (List (List ℕ))
unfolding block_ids_of first_group_block_index split_block_ids_for_files
load_chunks blocks_per_file spec total = if total == 0 then ok [] else (do
  ids ← block_ids_of spec
  first ← first_group_block_index spec
  split_block_ids_for_files blocks_per_file ids total first)
