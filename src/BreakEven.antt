-- ===== src/BreakEven.antt =====
-- py_kvcache/break_even.py: the break-even file, the thresholds of the load gate and the cost curves.
-- What the JSON parser makes of the file is an argument, none where the file cannot be read or is no
-- JSON. `int_of` is Python's `int` of a string, none where it raises. The warning about another data
-- type of the cache is left out, for it changes nothing.
pub mod Curves
pub mod Gate
pub mod Knots
use Prim.Native.String.{String}
use py_kvcache.Prelude.{
  ℕ, zero, suc, ◌+◌, Bool, true, false, List, [], ◌∷◌, map, Option, none, some, Result, ok, err,
  value_error, ◌>>=◌, ◌>>◌, raise_if, if◌then◌else◌, ltb, leb, length, nat_eq, string_eq, ◌==◌, not,
  ◌&&◌, ◌||◌,
}
use py_kvcache.Prelude.Int.{ℤ, pos, negsuc}
use py_kvcache.Prelude.Keys.{contains, add}
use py_kvcache.Seconds.{Seconds}

pub record BreakEvenThresholds : Type 0 where
  pub ssd_tokens : ℕ
  pub mem_tokens : ℕ

unfoldable pub enabled : BreakEvenThresholds → Bool
enabled t = ltb 0 t.ssd_tokens || ltb 0 t.mem_tokens

unfoldable pub break_even_threshold : BreakEvenThresholds → Bool → ℕ
break_even_threshold t ram_resident = if ram_resident then t.mem_tokens else t.ssd_tokens

unfoldable pub should_load : ℕ → BreakEvenThresholds → Bool → Bool
unfolding break_even_threshold
should_load prefix_tokens t ram_resident =
    let threshold = break_even_threshold t ram_resident in
    not (ltb 0 threshold && (ltb 0 prefix_tokens && ltb prefix_tokens threshold))

-- `len(set(tokens)) != len(tokens)` is of the length of this set.
unfoldable pub set_of : List ℕ → List ℕ
set_of [] = []
set_of (x ∷ xs) = add x (set_of xs)

-- `not path`
unfoldable pub is_no_path : Option String → Bool
is_no_path none = true
is_no_path (some path) = path == ""

-- `tokens + margin if tokens else 0`
unfoldable pub with_margin : ℕ → ℕ → ℕ
with_margin margin tokens = if tokens == 0 then 0 else tokens + margin

module _ (s : Seconds) where
  -- What `json.load` returns; a float is a `Time`.
  mutual
    pub data Json : Type 0 where
      null : Json
      boolean : Bool → Json
      integer : ℤ → Json
      float : s.Time → Json
      string : String → Json
      array : Items → Json
      object : Fields → Json

    pub data Items : Type 0 where
      empty_array : Items
      item : Json → Items → Items

    pub data Fields : Type 0 where
      empty_object : Fields
      field : String → Json → Fields → Fields

  -- `raw.get(name, default)`
  unfoldable pub get_or : String → Json → Fields → Json
  get_or name default empty_object = default
  get_or name default (field key value fields) =
      if key == name then value else get_or name default fields

  unfoldable pub get : String → Fields → Json
  unfolding get_or
  get name fields = get_or name null fields

  unfoldable pub non_negative_int : Json → Result ℕ
  non_negative_int null = err value_error
  non_negative_int (boolean _) = err value_error
  non_negative_int (integer (pos n)) = ok n
  non_negative_int (integer (negsuc _)) = err value_error
  non_negative_int (float _) = err value_error
  non_negative_int (string _) = err value_error
  non_negative_int (array _) = err value_error
  non_negative_int (object _) = err value_error

  -- `isinstance(value, Mapping)`
  unfoldable pub mapping : Json → Result Fields
  mapping null = err value_error
  mapping (boolean _) = err value_error
  mapping (integer _) = err value_error
  mapping (float _) = err value_error
  mapping (string _) = err value_error
  mapping (array _) = err value_error
  mapping (object fields) = ok fields

  -- `file_model is not None and file_model != model_name`
  unfoldable pub is_other_model : String → Json → Bool
  is_other_model model_name null = false
  is_other_model model_name (boolean _) = true
  is_other_model model_name (integer _) = true
  is_other_model model_name (float _) = true
  is_other_model model_name (string file_model) = not (file_model == model_name)
  is_other_model model_name (array _) = true
  is_other_model model_name (object _) = true

  unfoldable pub read_and_validate : Option Json → String → Result Fields
  unfolding mapping is_other_model get
  read_and_validate none model_name = err value_error
  read_and_validate (some data_read) model_name = do
    fields ← mapping data_read
    raise_if (is_other_model model_name (get "model_name" fields)) value_error
    ok fields

  unfoldable pub thresholds_in : Fields → Result BreakEvenThresholds
  unfolding non_negative_int get_or with_margin
  thresholds_in fields = do
    margin ← non_negative_int (get_or "safety_margin_tokens" (integer (pos 0)) fields)
    ssd ← non_negative_int (get_or "break_even_ssd_tokens" (integer (pos 0)) fields)
    mem ← non_negative_int (get_or "break_even_mem_tokens" (integer (pos 0)) fields)
    ok (record { ssd_tokens = with_margin margin ssd; mem_tokens = with_margin margin mem })

  -- `contents` is what the parser makes of the file at `path`.
  unfoldable pub load_break_even : Option String → Option Json → String → Result BreakEvenThresholds
  unfolding is_no_path read_and_validate thresholds_in
  load_break_even path contents model_name =
      if is_no_path path
      then ok (record { ssd_tokens = 0; mem_tokens = 0 })
      else (do fields ← read_and_validate contents model_name; thresholds_in fields)
