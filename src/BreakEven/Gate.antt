-- ===== src/BreakEven/Gate.antt =====
-- The load gate of py_kvcache/break_even.py, with the thresholds that the file gives.
use Prim.Native.String.{String}
use py_kvcache.Prelude.{
  ℕ, ◌+◌, ◌≤◌, ◌≡◌, refl, ◌⊎◌, ◌↔◌, Bool, true, false, Option, ok, arith, nat_eq,
}
use py_kvcache.Prelude.Int.{pos}
use py_kvcache.Seconds.{Seconds}
use py_kvcache.BreakEven.{
  BreakEvenThresholds, break_even_threshold, should_load, Json, integer, Fields, get_or,
  non_negative_int, with_margin, thresholds_in, load_break_even, is_no_path, read_and_validate,
}

-- The gate declines a prefix exactly when it is not empty and shorter than the threshold.
should_load_iff :
    (p : ℕ) (t : BreakEvenThresholds) (ram : Bool)
    → (should_load p t ram ≡ true) ↔ ((p ≡ 0) ⊎ (break_even_threshold t ram ≤ p))
unfolding should_load
should_load_iff p t ram = ground arith

module _ (s : Seconds) where
  -- The tokens under a name of the file, 0 where it is missing.
  abbrev Given : String → Fields s → ℕ → Type 0
  Given name fields n = non_negative_int s (get_or s name (integer (pos 0)) fields) ≡ ok n

  thresholds_in_lem :
      (fields : Fields s) (margin ssd mem : ℕ)
      → Given "safety_margin_tokens" fields margin
      → Given "break_even_ssd_tokens" fields ssd
      → Given "break_even_mem_tokens" fields mem
      → thresholds_in s fields
        ≡ ok (record { ssd_tokens = with_margin margin ssd; mem_tokens = with_margin margin mem })
  unfolding thresholds_in
  thresholds_in_lem fields margin ssd mem a b c = rw (a, b, c) refl

  with_margin-gates :
      (p margin tokens : ℕ)
      → ((p ≡ 0) ⊎ (with_margin margin tokens ≤ p))
        ↔ ((p ≡ 0) ⊎ (tokens ≡ 0) ⊎ (tokens + margin ≤ p))
  unfolding with_margin
  with_margin-gates p margin tokens = ground arith

  -- The gate with the thresholds of a valid break-even file: a load from SSD, or from memory, is
  -- declined exactly when its prefix is not empty, the file has a break-even length for that medium,
  -- and the prefix is shorter than that length and the safety margin together.
  pub load_break_even-gates :
      (path : Option String) (contents : Option (Json s)) (model_name : String) (fields : Fields s)
      (margin ssd mem p : ℕ)
      → is_no_path path ≡ false
      → read_and_validate s contents model_name ≡ ok fields
      → Given "safety_margin_tokens" fields margin
      → Given "break_even_ssd_tokens" fields ssd
      → Given "break_even_mem_tokens" fields mem
      → (t : BreakEvenThresholds) × (load_break_even s path contents model_name ≡ ok t)
        × ((should_load p t false ≡ true) ↔ ((p ≡ 0) ⊎ (ssd ≡ 0) ⊎ (ssd + margin ≤ p)))
        × ((should_load p t true ≡ true) ↔ ((p ≡ 0) ⊎ (mem ≡ 0) ⊎ (mem + margin ≤ p)))
  unfolding load_break_even should_load with_margin break_even_threshold
  load_break_even-gates path contents model_name fields margin ssd mem p given valid a b c = (
    record { ssd_tokens = with_margin margin ssd; mem_tokens = with_margin margin mem },
    rw (given, valid) (thresholds_in_lem fields margin ssd mem a b c),
    ground arith,
    ground arith,
  )
