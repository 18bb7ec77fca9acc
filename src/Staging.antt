-- ===== src/Staging.antt =====
-- py_kvcache/staging.py: the pool of staging slots. A slot is its index, and `_slots[index]` is the
-- slot with that index, so that `try_reserve` returns the index. The end of `_free`, from which
-- `pop` takes, is the head of the list here. Python's integers may be negative: an index that is
-- released is an integer `pos n` or `negsuc n`.
pub mod Conservation
use py_kvcache.Prelude.{
  ℕ, suc, zero, ◌/◌, max, Bool, true, false, List, [], ◌∷◌, Option, none, some, Result, ok, err,
  value_error, runtime_error, zero_division_error, if◌then◌else◌, leb, ◌==◌, nat_eq,
}
use py_kvcache.Prelude.Int.{ℤ, pos, negsuc}

pub record StagingPool : Type 0 where
  pub slot_count : ℕ
  pub is_closed : Bool
  pub free : List ℕ

-- The reverse of `list(range(n))`.
abbrev pub down_from : ℕ → List ℕ
down_from zero = []
down_from (suc n) = n ∷ down_from n

unfoldable pub init : ℤ → Result StagingPool
init (pos zero) = err value_error
init (pos (suc n)) = ok (record { slot_count = suc n; is_closed = false; free = down_from (suc n) })
init (negsuc n) = err value_error

-- `staging_bytes` is `int(staging_mem_gib * (1 << 30))`.
unfoldable pub compute_slot_count : ℕ → ℕ → ℕ → Result ℕ
compute_slot_count staging_bytes io_size min_slots =
    if io_size == 0
    then err zero_division_error
    else ok (max (max 1 min_slots) (max 1 (staging_bytes / io_size)))

take_free : StagingPool → List ℕ → StagingPool × Option ℕ
take_free p [] = (p, none)
take_free p (index ∷ rest) = (record p { free = rest }, some index)

unfoldable pub try_reserve : StagingPool → Result (StagingPool × Option ℕ)
unfolding take_free
try_reserve p = if p.is_closed then err runtime_error else ok (take_free p p.free)

release_open : StagingPool → ℤ → Result StagingPool
release_open p (negsuc n) = err value_error
release_open p (pos n) =
    if leb p.slot_count n then err value_error else ok (record p { free = n ∷ p.free })

unfoldable pub release : StagingPool → ℤ → Result StagingPool
unfolding release_open
release p slot_index = if p.is_closed then ok p else release_open p slot_index

unfoldable pub close : StagingPool → StagingPool
close p = if p.is_closed then p else record p { is_closed = true; free = [] }
