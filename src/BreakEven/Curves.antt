-- ===== src/BreakEven/Curves.antt =====
-- The cost curves of py_kvcache/break_even.py: `_parse_curve`, `_parse_golden_point` and `load_curves`.
use Prim.Native.String.{String}
use py_kvcache.Prelude.{
  ℕ, zero, suc, Bool, true, false, List, [], ◌∷◌, map, Option, none, some, Result, ok, err,
  value_error, ◌>>=◌, ◌>>◌, raise_if, if◌then◌else◌, leb, length, nat_eq, string_eq, ◌==◌, not,
  ◌&&◌,
}
use py_kvcache.Prelude.Int.{ℤ, pos, negsuc}
use py_kvcache.Prelude.Keys.{contains}
use py_kvcache.Seconds.{Seconds}
use py_kvcache.BreakEven.{
  Json, null, boolean, integer, float, string, array, object, Items, empty_array, item, Fields,
  empty_object, field, get, mapping, set_of, is_no_path, read_and_validate,
}

-- `_CURVE_NAMES`
abbrev pub curve_names : List String
curve_names = "f" ∷ "g_ssd" ∷ "g_mem" ∷ []

unfoldable pub all_in : List String → List String → Bool
all_in [] names = true
all_in (x ∷ xs) names = contains x names && all_in xs names

unfoldable pub has_duplicates : List ℕ → Bool
unfolding set_of
has_duplicates tokens = not (length (set_of tokens) == length tokens)

module _ (s : Seconds) where
  abbrev pub Knot : Type 0
  Knot = ℕ × s.Time

  pub record Curve : Type 0 where
    pub floor : s.Time
    pub knots : List Knot

  pub record GoldenPoint : Type 0 where
    pub tokens : ℤ
    pub f : s.Time
    pub g_ssd : s.Time
    pub g_mem : s.Time

  pub record CurveData : Type 0 where
    pub f : Curve
    pub g_ssd : Curve
    pub g_mem : Curve
    pub golden : List GoldenPoint
    pub kv_bytes_per_token : Option ℕ

  -- `float(z)`
  unfoldable pub of_int : ℤ → s.Time
  of_int (pos n) = s.of_nat n
  of_int (negsuc n) = s.sub (s.of_nat 0) (s.of_nat (suc n))

  -- A value that is an int or a float and no bool, as a float.
  unfoldable pub numeric : Json s → Result s.Time
  unfolding of_int
  numeric null = err value_error
  numeric (boolean _) = err value_error
  numeric (integer z) = ok (of_int z)
  numeric (float t) = ok t
  numeric (string _) = err value_error
  numeric (array _) = err value_error
  numeric (object _) = err value_error

  -- A knot's key: an integer that is not negative.
  unfoldable pub token_of : Option ℤ → Result ℕ
  token_of none = err value_error
  token_of (some (pos n)) = ok n
  token_of (some (negsuc _)) = err value_error

  -- The loop over `knots_raw.items()`.
  unfoldable pub parse_knots : (String → Option ℤ) → Fields s → Result (List Knot)
  unfolding numeric token_of
  parse_knots int_of empty_object = ok []
  parse_knots int_of (field key value fields) = do
    token ← token_of (int_of key)
    x ← numeric value
    rest ← parse_knots int_of fields
    ok ((token, x) ∷ rest)

  -- `parsed.sort(key=lambda kv: kv[0])`, which is stable.
  unfoldable pub insert_knot : Knot → List Knot → List Knot
  insert_knot k [] = k ∷ []
  insert_knot k (j ∷ knots) =
      let rest = insert_knot k knots in if leb k.0 j.0 then k ∷ j ∷ knots else j ∷ rest

  unfoldable pub sort_knots : List Knot → List Knot
  unfolding insert_knot
  sort_knots [] = []
  sort_knots (k ∷ knots) = insert_knot k (sort_knots knots)

  abbrev pub tokens_seen : List Knot → List ℕ
  tokens_seen = map (λ (k : Knot). k.0)

  -- `len(parsed) < 2 and parsed[0][0] == 0`, of a list that is not empty.
  unfoldable pub is_lone_zero : List Knot → Bool
  is_lone_zero [] = false
  is_lone_zero (k ∷ []) = k.0 == 0
  is_lone_zero (_ ∷ _ ∷ _) = false

  unfoldable pub non_empty : Fields s → Result (Fields s)
  non_empty empty_object = err value_error
  non_empty (field key value fields) = ok (field key value fields)

  unfoldable pub check_knots : s.Time → List Knot → Result Curve
  unfolding has_duplicates is_lone_zero
  check_knots floor parsed = do
    raise_if (has_duplicates (tokens_seen parsed)) value_error
    raise_if (is_lone_zero parsed) value_error
    ok (record { floor = floor; knots = parsed })

  unfoldable pub parse_curve : (String → Option ℤ) → Json s → Result Curve
  unfolding mapping get numeric non_empty parse_knots sort_knots check_knots
  parse_curve int_of raw = do
    fields ← mapping s raw
    floor ← numeric (get s "floor" fields)
    knots_raw ← mapping s (get s "knots" fields)
    filled ← non_empty knots_raw
    parsed ← parse_knots int_of filled
    check_knots floor (sort_knots parsed)

  -- An int that is no bool.
  unfoldable pub int_value : Json s → Result ℤ
  int_value null = err value_error
  int_value (boolean _) = err value_error
  int_value (integer z) = ok z
  int_value (float _) = err value_error
  int_value (string _) = err value_error
  int_value (array _) = err value_error
  int_value (object _) = err value_error

  unfoldable pub parse_golden_point : Json s → Result GoldenPoint
  unfolding mapping get int_value numeric
  parse_golden_point raw = do
    fields ← mapping s raw
    tokens ← int_value (get s "tokens" fields)
    f ← numeric (get s "f" fields)
    g_ssd ← numeric (get s "g_ssd" fields)
    g_mem ← numeric (get s "g_mem" fields)
    ok (record { tokens = tokens; f = f; g_ssd = g_ssd; g_mem = g_mem })

  unfoldable pub parse_golden : Items s → Result (List GoldenPoint)
  unfolding parse_golden_point
  parse_golden empty_array = ok []
  parse_golden (item entry items) = do
    point ← parse_golden_point entry
    rest ← parse_golden items
    ok (point ∷ rest)

  unfoldable pub golden_in : Json s → Result (List GoldenPoint)
  unfolding parse_golden
  golden_in null = ok []
  golden_in (boolean _) = err value_error
  golden_in (integer _) = err value_error
  golden_in (float _) = err value_error
  golden_in (string _) = err value_error
  golden_in (array items) = parse_golden items
  golden_in (object _) = err value_error

  unfoldable pub kv_bytes_in : Json s → Result (Option ℕ)
  kv_bytes_in null = ok none
  kv_bytes_in (boolean _) = err value_error
  kv_bytes_in (integer (pos zero)) = err value_error
  kv_bytes_in (integer (pos (suc n))) = ok (some (suc n))
  kv_bytes_in (integer (negsuc _)) = err value_error
  kv_bytes_in (float _) = err value_error
  kv_bytes_in (string _) = err value_error
  kv_bytes_in (array _) = err value_error
  kv_bytes_in (object _) = err value_error

  unfoldable pub field_names : Fields s → List String
  field_names empty_object = []
  field_names (field key _ fields) = key ∷ field_names fields

  -- `set(curves_raw.keys()) != set(_CURVE_NAMES)`
  unfoldable pub has_other_names : Fields s → Bool
  unfolding all_in field_names
  has_other_names fields =
      not (all_in (field_names fields) curve_names && all_in curve_names (field_names fields))

  -- The rest of `load_curves`, where the file has curves.
  unfoldable pub curves_in : (String → Option ℤ) → Fields s → Json s → Result CurveData
  unfolding mapping has_other_names parse_curve golden_in kv_bytes_in get
  curves_in int_of fields raw = do
    curves ← mapping s raw
    raise_if (has_other_names curves) value_error
    f ← parse_curve int_of (get s "f" curves)
    g_ssd ← parse_curve int_of (get s "g_ssd" curves)
    g_mem ← parse_curve int_of (get s "g_mem" curves)
    golden ← golden_in (get s "golden" fields)
    kv_bytes ← kv_bytes_in (get s "kv_bytes_per_token" fields)
    ok (record {
      f = f;
      g_ssd = g_ssd;
      g_mem = g_mem;
      golden = golden;
      kv_bytes_per_token = kv_bytes;
    })

  unfoldable pub is_null : Json s → Bool
  is_null null = true
  is_null (boolean _) = false
  is_null (integer _) = false
  is_null (float _) = false
  is_null (string _) = false
  is_null (array _) = false
  is_null (object _) = false

  unfoldable pub present : Result CurveData → Result (Option CurveData)
  present (ok curves) = ok (some curves)
  present (err e) = err e

  -- A file without curves is no error.
  unfoldable pub optional_curves :
      (String → Option ℤ) → Fields s → Json s → Result (Option CurveData)
  unfolding is_null curves_in present
  optional_curves int_of fields raw =
      if is_null raw then ok none else present (curves_in int_of fields raw)

  unfoldable pub load_curves :
      (String → Option ℤ) → Option String → Option (Json s) → String → Result (Option CurveData)
  unfolding is_no_path read_and_validate optional_curves get
  load_curves int_of path contents model_name = if is_no_path path then ok none else (do
    fields ← read_and_validate s contents model_name
    optional_curves int_of fields (get s "curves" fields))
