-- ===== src/Transfer/Mapping.antt =====
-- `build_block_mapping` of py_kvcache/transfer.py: which sub-blocks the two columns pair.
use py_kvcache.Prelude.{
  ℕ, zero, suc, ◌+◌, ◌-◌, ◌*◌, ◌≤◌, ◌<◌, ◌≡◌, refl, subst, ◌∙◌, List, [], ◌∷◌, ◌++◌, some, ok,
  value_error, ◌>>=◌, ◌>>◌, raise_if, bind_inv, raise_if_inv, ok_inv, else_inv, zero_division_error,
  arith, length, length-append, get_elem?, nat_eq, ◌==◌, not,
}
use py_kvcache.Transfer.{
  range_from, expand_all, expand_from, expand_block_ids, shortfall, build_block_mapping,
}

length-range_from : (first n : ℕ) → length (range_from first n) ≡ n
unfolding range_from
length-range_from first zero = refl
length-range_from first (suc n) = omega (arith, length-range_from (suc first) n)

length-expand_all :
    (factor : ℕ) (ids : List ℕ) → length (expand_all factor ids) ≡ length ids * factor
unfolding expand_all
length-expand_all factor [] = omega arith
length-expand_all factor (id ∷ ids) =
    rw
      (
        length-append (range_from (id * factor) factor) (expand_all factor ids),
        length-range_from (id * factor) factor,
        length-expand_all factor ids,
      )
      (omega arith)

-- Of the first id, `skip` sub-blocks are left out.
length-expand_from :
    (factor skip : ℕ) (ids : List ℕ)
    → skip ≤ factor
    → length (expand_from factor skip ids) ≡ length ids * factor - skip
unfolding expand_from
length-expand_from factor skip [] h = omega arith
length-expand_from factor skip (id ∷ ids) h =
    rw
      (
        length-append (range_from (id * factor + skip) (factor - skip)) (expand_all factor ids),
        length-range_from (id * factor + skip) (factor - skip),
        length-expand_all factor ids,
      )
      (omega (arith, h))

-- The column that `expand_block_ids` writes.
expand_block_ids_inv :
    (ids : List ℕ) (factor skip : ℕ) {column : List ℕ}
    → expand_block_ids ids factor skip ≡ ok column
    → (skip < factor) × (expand_from factor skip ids ≡ column)
unfolding expand_block_ids
expand_block_ids_inv ids factor skip e = ground arith

get_elem?-append_left :
    (xs ys : List ℕ) (i : ℕ) → i < length xs → get_elem? (xs ++ ys) i ≡ get_elem? xs i
get_elem?-append_left [] ys i h = absurd (omega (arith, h))
get_elem?-append_left (x ∷ xs) ys zero h = refl
get_elem?-append_left (x ∷ xs) ys (suc i) h = get_elem?-append_left xs ys i (omega (arith, h))

get_elem?-append_right :
    (xs ys : List ℕ) (i p : ℕ) → p ≡ length xs + i → get_elem? (xs ++ ys) p ≡ get_elem? ys i
get_elem?-append_right [] ys i p h =
    let same : i ≡ p = omega (arith, h) in subst (λ q. get_elem? ys q ≡ get_elem? ys i) same refl
get_elem?-append_right (x ∷ xs) ys i zero h = absurd (omega (arith, h))
get_elem?-append_right (x ∷ xs) ys i (suc p) h = get_elem?-append_right xs ys i p (omega (arith, h))

get_elem?-within : (xs : List ℕ) (i : ℕ) → i < length xs → (x : ℕ) × (get_elem? xs i ≡ some x)
get_elem?-within [] i h = absurd (omega (arith, h))
get_elem?-within (x ∷ xs) zero h = (x, refl)
get_elem?-within (x ∷ xs) (suc i) h = get_elem?-within xs i (omega (arith, h))

get_elem?-range_from :
    (first n i v : ℕ) → i < n → v ≡ first + i → get_elem? (range_from first n) i ≡ some v
unfolding range_from
get_elem?-range_from first zero i v h e = absurd (omega (arith, h))
get_elem?-range_from first (suc n) zero v h e = ground (arith, e)
get_elem?-range_from first (suc n) (suc i) v h e =
    get_elem?-range_from (suc first) n i v (omega (arith, h)) (omega (arith, e))

-- Sub-block `u` of the id at `a` stands at `a * factor + u`.
get_elem?-expand_all :
    (factor : ℕ) (ids : List ℕ) (a u p x : ℕ)
    → get_elem? ids a ≡ some x
    → u < factor
    → p ≡ a * factor + u
    → get_elem? (expand_all factor ids) p ≡ some (x * factor + u)
unfolding expand_all
get_elem?-expand_all factor [] a u p x at h e = cc
get_elem?-expand_all factor (id ∷ ids) zero u p x at h e =
    let same : id ≡ x = ground arith in
    get_elem?-append_left (range_from (id * factor) factor) (expand_all factor ids) p
      (omega (arith, h, e, length-range_from (id * factor) factor))
    ∙ get_elem?-range_from (id * factor) factor p (x * factor + u) (omega (arith, h, e))
        (rw same (omega (arith, e)))
get_elem?-expand_all factor (id ∷ ids) (suc a) u p x at h e =
    get_elem?-append_right (range_from (id * factor) factor) (expand_all factor ids)
      (a * factor + u) p (omega (arith, e, length-range_from (id * factor) factor))
    ∙ get_elem?-expand_all factor ids a u (a * factor + u) x at h refl

-- It stands `skip` places earlier where the first id leaves out `skip` of its sub-blocks.
get_elem?-expand_from :
    (factor skip : ℕ) (ids : List ℕ) (a u p x : ℕ)
    → skip < factor
    → get_elem? ids a ≡ some x
    → u < factor
    → p + skip ≡ a * factor + u
    → get_elem? (expand_from factor skip ids) p ≡ some (x * factor + u)
unfolding expand_from
get_elem?-expand_from factor skip [] a u p x s at h e = cc
get_elem?-expand_from factor skip (id ∷ ids) zero u p x s at h e =
    let same : id ≡ x = ground arith in
    let first = id * factor + skip in
    get_elem?-append_left (range_from first (factor - skip)) (expand_all factor ids) p
      (omega (arith, h, e, length-range_from first (factor - skip)))
    ∙ get_elem?-range_from first (factor - skip) p (x * factor + u) (omega (arith, h, e))
        (rw same (omega (arith, e)))
get_elem?-expand_from factor skip (id ∷ ids) (suc a) u p x s at h e =
    let first = id * factor + skip in
    get_elem?-append_right (range_from first (factor - skip)) (expand_all factor ids)
      (a * factor + u) p (omega (arith, s, e, length-range_from first (factor - skip)))
    ∙ get_elem?-expand_all factor ids a u (a * factor + u) x at h refl

mul_lt_inv : (a n factor u : ℕ) → a * factor + u < n * factor → a < n
mul_lt_inv a zero factor u h = absurd (omega (arith, h))
mul_lt_inv zero (suc n) factor u h = omega arith
mul_lt_inv (suc a) (suc n) factor u h =
    let less : a < n = mul_lt_inv a n factor u (omega (arith, h)) in omega (arith, less)

-- A column of ids that were expanded: its length, and what stands at each place of it.
expand_block_ids-column :
    (ids : List ℕ) (factor skip : ℕ) {column : List ℕ} (p a u : ℕ)
    → expand_block_ids ids factor skip ≡ ok column
    → p + skip < length ids * factor
    → u < factor
    → p + skip ≡ a * factor + u
    → (length column ≡ length ids * factor - skip)
      × ((x : ℕ) × (get_elem? ids a ≡ some x) × (get_elem? column p ≡ some (x * factor + u)))
expand_block_ids-column ids factor skip {column} p a u e inside h at =
    let (less, same) = expand_block_ids_inv ids factor skip e in
    let (x, here) =
      get_elem?-within ids a (mul_lt_inv a (length ids) factor u (omega (arith, inside, at))) in
    subst
      (λ c.
        (length c ≡ length ids * factor - skip)
        × ((x : ℕ) × (get_elem? ids a ≡ some x) × (get_elem? c p ≡ some (x * factor + u))))
      same
      (
        length-expand_from factor skip ids (omega (arith, less)),
        (x, here, get_elem?-expand_from factor skip ids a u p x less here h at),
      )

-- At place `i` the columns pair sub-block `u` of the source's block at `a` with sub-block `v` of the
-- destination's block at `b`.
abbrev pub PairsAt : List ℕ → ℕ → List ℕ → ℕ → ℕ → ℕ → ℕ → ℕ → ℕ → List ℕ × List ℕ × ℕ → Type 0
PairsAt src src_factor dst dst_factor i a u b v (sources, targets, _) =
    ((x : ℕ) × (get_elem? src a ≡ some x) × (get_elem? sources i ≡ some (x * src_factor + u)))
    × ((y : ℕ) × (get_elem? dst b ≡ some y) × (get_elem? targets i ≡ some (y * dst_factor + v)))

-- Each column has as many sub-blocks as is returned, those of the destination.
abbrev pub IsFull : List ℕ → ℕ → List ℕ × List ℕ × ℕ → Type 0
IsFull dst dst_factor (sources, targets, n) =
    (length sources ≡ n) × (length targets ≡ n) × (n ≡ length dst * dst_factor)

columns :
    (src : List ℕ) (src_factor : ℕ) (dst : List ℕ) (dst_factor : ℕ) {r : List ℕ × List ℕ × ℕ}
    (i a u b v : ℕ)
    → (raise_if
          (not (
            length dst * dst_factor + shortfall (length dst) src_factor == length src * src_factor))
          value_error
        >> (expand_block_ids src src_factor (shortfall (length dst) src_factor) >>= λ x.
            expand_block_ids dst dst_factor 0 >>= λ y. ok (x, y, length dst * dst_factor)))
      ≡ ok r
    → u < src_factor
    → v < dst_factor
    → i < length dst * dst_factor
    → i + length src * src_factor ≡ length dst * dst_factor + (a * src_factor + u)
    → i ≡ b * dst_factor + v
    → IsFull dst dst_factor r × PairsAt src src_factor dst dst_factor i a u b v r
columns src src_factor dst dst_factor {r} i a u b v e0 hu hv inside ends at =
    let skip = shortfall (length dst) src_factor in
    let (same, e1) =
      raise_if_inv (not (length dst * dst_factor + skip == length src * src_factor)) value_error
        e0 in
    let (c, of_c, e2) = bind_inv (expand_block_ids src src_factor skip) e1 in
    let (d, of_d, made) = bind_inv (expand_block_ids dst dst_factor 0) e2 in
    let total : length dst * dst_factor + skip ≡ length src * src_factor = ground (arith, same) in
    let (long_c, pair_c) =
      expand_block_ids-column src src_factor skip i a u of_c (omega (arith, total, inside)) hu
        (omega (arith, total, ends)) in
    let (long_d, pair_d) =
      expand_block_ids-column dst dst_factor 0 i b v of_d (omega (arith, inside)) hv
        (omega (arith, at)) in
    let goal : (List ℕ × List ℕ × ℕ) → Type 0 =
      λ x. IsFull dst dst_factor x × PairsAt src src_factor dst dst_factor i a u b v x in
    ok_inv goal made ((omega (arith, total, long_c), omega (arith, long_d), refl), (pair_c, pair_d))

-- Where `build_block_mapping` returns, each column has as many sub-blocks as it returns, which is
-- those of the destination, and the columns pair the sub-blocks in order, with their ends aligned:
-- the destination's sub-block `v` of the block at `b`, which is the `i`-th of all, is paired with the
-- source's sub-block `u` of the block at `a` that is as far from the end of the source. A sub-block
-- is numbered by its block's id times the factor, plus its place in the block.
pub build_block_mapping-pairs :
    (src : List ℕ) (src_factor : ℕ) (dst : List ℕ) (dst_factor : ℕ) {r : List ℕ × List ℕ × ℕ}
    (i a u b v : ℕ)
    → build_block_mapping src src_factor dst dst_factor ≡ ok r
    → u < src_factor
    → v < dst_factor
    → i < length dst * dst_factor
    → i + length src * src_factor ≡ length dst * dst_factor + (a * src_factor + u)
    → i ≡ b * dst_factor + v
    → IsFull dst dst_factor r × PairsAt src src_factor dst dst_factor i a u b v r
unfolding build_block_mapping
build_block_mapping-pairs src src_factor dst dst_factor i a u b v e =
    columns src src_factor dst dst_factor i a u b v
      (else_inv (src_factor == 0) zero_division_error e)
