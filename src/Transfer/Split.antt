-- ===== src/Transfer/Split.antt =====
-- `split_block_ids_for_files` of py_kvcache/transfer.py: which ids each file is given.
use py_kvcache.Prelude.{
  false, Option, none, some, ◌⊎◌, inl, inr, nat_eq, ◌==◌, ℕ, zero, suc, ◌+◌, ◌-◌, ◌*◌, ◌%◌, ◌≤◌,
  ◌<◌, ◌≡◌, refl, ap, sym, ◌∙◌, min, List, [], ◌∷◌, ◌++◌, ok, arith, length, take, drop,
  length-append,
}
use py_kvcache.Transfer.{
  GpuSpec, block_ids_of, has_other_groups, only_index, first_group_block_index, load_chunks,
  split_from, all_split, split_block_ids_for_files,
}
use mathlib.Core.List.{append_assoc}
use native.Mathlib.Nat.{mod-lt}

-- The chunks end to end.
abbrev pub concat : List (List ℕ) → List ℕ
concat [] = []
concat (c ∷ chunks) = c ++ concat chunks

take-drop : (n : ℕ) (ids : List ℕ) → take n ids ++ drop n ids ≡ ids
take-drop zero ids = refl
take-drop (suc n) [] = refl
take-drop (suc n) (x ∷ ids) = ap (λ l. x ∷ l) (take-drop n ids)

length-drop : (n : ℕ) (ids : List ℕ) → length (drop n ids) ≡ length ids - n
length-drop zero ids = omega arith
length-drop (suc n) [] = omega arith
length-drop (suc n) (x ∷ ids) = omega (arith, length-drop n ids)

concat-split_from :
    (bpf files size : ℕ) (ids : List ℕ)
    → concat (split_from bpf files size ids).0 ++ (split_from bpf files size ids).1 ≡ ids
unfolding split_from
concat-split_from bpf zero size ids = refl
concat-split_from bpf (suc files) size ids =
    let later = split_from bpf files bpf (drop size ids) in
    append_assoc (take size ids) (concat later.0) later.1
    ∙ ap (λ l. take size ids ++ l) (concat-split_from bpf files bpf (drop size ids))
    ∙ take-drop size ids

length-split_from :
    (bpf files size : ℕ) (ids : List ℕ) → length (split_from bpf files size ids).0 ≡ files
unfolding split_from
length-split_from bpf zero size ids = refl
length-split_from bpf (suc files) size ids =
    omega (arith, length-split_from bpf files bpf (drop size ids))

length-take : (n : ℕ) (ids : List ℕ) → length (take n ids) ≡ min n (length ids)
length-take zero ids = omega arith
length-take (suc n) [] = omega arith
length-take (suc n) (x ∷ ids) = omega (arith, length-take n ids)

-- Where the ids fit, the first file and `n` more hold as many ids as they have room for, or all.
length-concat-take :
    (bpf files size n : ℕ) (ids : List ℕ)
    → length ids ≤ size + files * bpf
    → length (concat (take (suc n) (split_from bpf (suc files) size ids).0))
      ≡ min (length ids) (size + n * bpf)
unfolding split_from
length-concat-take bpf files size zero ids h =
    omega (arith, length-append (take size ids) [], length-take size ids)
length-concat-take bpf zero size (suc n) ids h =
    omega (arith, h, length-append (take size ids) [], length-take size ids)
length-concat-take bpf (suc files) size (suc n) ids h =
    let later = split_from bpf (suc files) bpf (drop size ids) in
    omega (
      arith,
      length-append (take size ids) (concat (take (suc n) later.0)),
      length-take size ids,
      length-drop size ids,
      length-concat-take bpf files bpf n (drop size ids) (omega (arith, h, length-drop size ids)),
    )

left-split_from :
    (bpf files size : ℕ) (ids : List ℕ)
    → length (split_from bpf (suc files) size ids).1 ≡ length ids - (size + files * bpf)
unfolding split_from
left-split_from bpf zero size ids = omega (arith, length-drop size ids)
left-split_from bpf (suc files) size ids =
    omega (arith, left-split_from bpf files bpf (drop size ids), length-drop size ids)

no_length : (ids : List ℕ) → length ids ≡ 0 → ids ≡ []
no_length [] h = refl
no_length (x ∷ ids) h = absurd (omega (arith, h))

append_nil : (ids : List ℕ) → ids ++ [] ≡ ids
append_nil [] = refl
append_nil (x ∷ ids) = ap (λ l. x ∷ l) (append_nil ids)

none_left : (r : List (List ℕ) × List ℕ) → r.1 ≡ [] → all_split r ≡ ok r.0
unfolding all_split
none_left (chunks, []) e = refl
none_left (chunks, (_ ∷ _)) e = cc

split_open :
    (bpf : ℕ) (ids : List ℕ) (files first : ℕ)
    → 0 < bpf
    → split_block_ids_for_files bpf ids (suc files) first
      ≡ all_split (split_from bpf (suc files) (min (length ids) (bpf - first % bpf)) ids)
unfolding split_block_ids_for_files
split_open bpf ids files first positive = ground (arith, positive)

-- How the ids are divided: there is a chunk for each file, the chunks end to end are the ids, and the
-- chunks up to that of file `n` hold the ids up to the end of that file, of which each holds `bpf`
-- blocks, where the first id is the block `first % bpf` of the first file.
abbrev pub IsDivided : ℕ → List ℕ → ℕ → ℕ → List (List ℕ) → Type 0
IsDivided bpf ids files first chunks =
    (concat chunks ≡ ids)
    × (length chunks ≡ suc files)
    × ((n : ℕ)
        → length (concat (take (suc n) chunks)) ≡ min (length ids) (suc n * bpf - first % bpf))

-- Ids that fit are split: with a positive number of blocks to a file, and for one file or more,
-- `split_block_ids_for_files` succeeds if the ids are no more than the files hold, of which the
-- first has room from the index in it of the first block on. Then the chunks divide the ids.
pub split_block_ids_for_files-fits :
    (bpf : ℕ) (ids : List ℕ) (files first : ℕ)
    → 0 < bpf
    → length ids ≤ (bpf - first % bpf) + files * bpf
    → (chunks : List (List ℕ)) × (split_block_ids_for_files bpf ids (suc files) first ≡ ok chunks)
      × IsDivided bpf ids files first chunks
split_block_ids_for_files-fits bpf ids files first positive fits =
    let size = min (length ids) (bpf - first % bpf) in
    let r = split_from bpf (suc files) size ids in
    let left : r.1 ≡ [] = no_length r.1 (omega (arith, left-split_from bpf files size ids, fits)) in
    let whole =
      sym (append_nil (concat r.0))
      ∙ ap (λ l. concat r.0 ++ l) (sym left)
      ∙ concat-split_from bpf (suc files) size ids in
    (
      r.0,
      split_open bpf ids files first positive ∙ none_left r left,
      (
        whole,
        length-split_from bpf (suc files) size ids,
        λ n. omega (
          arith,
          length-concat-take bpf files size n ids (omega (arith, fits)),
          mod-lt first positive,
        ),
      ),
    )

index_of :
    (o : Option (List ℕ)) (first : ℕ)
    → (o ≡ some (first ∷ [])) ⊎ ((o ≡ none) × (first ≡ 0))
    → only_index o ≡ ok first
unfolding only_index
index_of o first (inl e) = rw e refl
index_of o first (inr (e, z)) = rw (e, z) refl

chunks_of :
    (bpf : ℕ) (spec : GpuSpec) (ids : List ℕ) (files first : ℕ)
    → spec.block_ids ≡ some ids
    → has_other_groups spec.group_sizes ≡ false
    → (spec.block_indices ≡ some (first ∷ [])) ⊎ ((spec.block_indices ≡ none) × (first ≡ 0))
    → load_chunks bpf spec (suc files) ≡ split_block_ids_for_files bpf ids (suc files) first
unfolding load_chunks block_ids_of first_group_block_index
chunks_of bpf spec ids files first given one at =
    let nonzero : (suc files == 0) ≡ false = ground arith in
    rw (nonzero, given, one, index_of spec.block_indices first at) refl

-- A load is divided among its files: for a spec of one KV cache group, with a block index if it has
-- any, files of one block or more, and ids that are no more than the files hold from that index on,
-- `submit_load` finds a chunk for each of its hashes; end to end the chunks are the spec's ids, in
-- order; and those up to the chunk of file `n` hold the ids up to the end of that file, where the
-- first id is the block of the first file that the index names, modulo the blocks in a file.
pub load_chunks-fits :
    (bpf : ℕ) (spec : GpuSpec) (ids : List ℕ) (files first : ℕ)
    → spec.block_ids ≡ some ids
    → has_other_groups spec.group_sizes ≡ false
    → (spec.block_indices ≡ some (first ∷ [])) ⊎ ((spec.block_indices ≡ none) × (first ≡ 0))
    → 0 < bpf
    → length ids ≤ (bpf - first % bpf) + files * bpf
    → (chunks : List (List ℕ)) × (load_chunks bpf spec (suc files) ≡ ok chunks)
      × IsDivided bpf ids files first chunks
load_chunks-fits bpf spec ids files first given one at some_blocks fits =
    let (chunks, split, divided) =
      split_block_ids_for_files-fits bpf ids files first some_blocks fits in
    (chunks, chunks_of bpf spec ids files first given one at ∙ split, divided)
