-- ===== src/FsConfig.antt =====
-- py_kvcache/fs_config.py: `SharedFileConfig.from_extra_config` and the coercions of its settings.
-- What the code uses of Python's strings are arguments: `normalize` is `strip().lower()`, `int_of` is
-- `int(value, 0)` and `float_of` is `float(value)`, none where these raise.
pub mod Usable
use Prim.Native.String.{String}
use py_kvcache.Prelude.{
  ℕ, zero, suc, Bool, true, false, List, [], ◌∷◌, Option, none, some, Result, ok, err, value_error,
  type_error, ◌>>=◌, ◌>>◌, raise_if, if◌then◌else◌, string_eq, ◌==◌, not,
}
use py_kvcache.Prelude.Int.{ℤ, pos, negsuc, is_positive}
use py_kvcache.Prelude.Keys.{contains}
use py_kvcache.Prelude.Dict.{Dict, lookup_or}
use py_kvcache.Seconds.{Seconds}

-- `value is None` or a default.
unfoldable pub or_else : {A : Type 0} → A → Option A → A
or_else default none = default
or_else default (some a) = a

-- `_validate_positive`
unfoldable pub validate_positive : Option ℤ → Result (Unit {0})
validate_positive none = ok tt
validate_positive (some z) = raise_if (not (is_positive z)) value_error

-- `bool(value)` of an int.
unfoldable pub is_nonzero : ℤ → Bool
is_nonzero (pos zero) = false
is_nonzero (pos (suc _)) = true
is_nonzero (negsuc _) = true

-- `if not root_dir`
unfoldable pub require : Option String → Result String
require none = err value_error
require (some root_dir) = if root_dir == "" then err value_error else ok root_dir

module _ (s : Seconds) where
  -- A setting: the classes of values that the coercions tell apart, `None` among them.
  pub data Setting : Type 0 where
    unset : Setting
    boolean : Bool → Setting
    integer : ℤ → Setting
    float : s.Time → Setting
    string : String → Setting
    other : Setting

  pub record SharedFileConfig : Type 0 where
    pub root_dir : String
    pub sync_on_store : Bool
    pub iodepth : ℤ
    pub staging_mem : s.Time
    pub enable_preload : Bool
    pub preload_share_staging : Bool
    pub open_lookahead : Option ℤ
    pub staging_cache : String
    pub prefix_cache_break_even_path : Option String
    pub load_planner : String
    pub load_planner_defer_tolerance : s.Time
    pub load_planner_defer_deadline_max_s : s.Time

  unfoldable pub setting : String → Dict String Setting → Setting
  setting name extra_config = lookup_or name unset extra_config

  unfoldable pub coerce_str : Setting → Result (Option String)
  coerce_str unset = ok none
  coerce_str (boolean _) = err type_error
  coerce_str (integer _) = err type_error
  coerce_str (float _) = err type_error
  coerce_str (string text) = ok (some text)
  coerce_str other = err type_error

  -- A string that was parsed, or did not parse.
  parsed : {A : Type 0} → Option A → Result (Option A)
  parsed none = err value_error
  parsed (some a) = ok (some a)

  unfoldable pub coerce_int : (String → Option ℤ) → Setting → Result (Option ℤ)
  unfolding parsed
  coerce_int int_of unset = ok none
  coerce_int int_of (boolean _) = err type_error
  coerce_int int_of (integer z) = ok (some z)
  coerce_int int_of (float _) = err type_error
  coerce_int int_of (string text) = parsed (int_of text)
  coerce_int int_of other = err type_error

  unfoldable pub of_int : ℤ → s.Time
  of_int (pos n) = s.of_nat n
  of_int (negsuc n) = s.sub (s.of_nat 0) (s.of_nat (suc n))

  unfoldable pub coerce_float : (String → Option s.Time) → Setting → Result (Option s.Time)
  unfolding parsed of_int
  coerce_float float_of unset = ok none
  coerce_float float_of (boolean _) = err type_error
  coerce_float float_of (integer z) = ok (some (of_int z))
  coerce_float float_of (float t) = ok (some t)
  coerce_float float_of (string text) = parsed (float_of text)
  coerce_float float_of other = err type_error

  unfoldable pub bool_of : String → Result (Option Bool)
  bool_of normalized =
      if contains normalized ("1" ∷ "true" ∷ "yes" ∷ "on" ∷ [])
      then ok (some true)
      else if contains normalized ("0" ∷ "false" ∷ "no" ∷ "off" ∷ [])
      then ok (some false)
      else err type_error

  unfoldable pub coerce_bool : (String → String) → Setting → Result (Option Bool)
  unfolding is_nonzero bool_of
  coerce_bool normalize unset = ok none
  coerce_bool normalize (boolean b) = ok (some b)
  coerce_bool normalize (integer z) = ok (some (is_nonzero z))
  coerce_bool normalize (float _) = err type_error
  coerce_bool normalize (string text) = bool_of (normalize text)
  coerce_bool normalize other = err type_error

  -- A setting that is off, or one of a few words.
  unfoldable pub choice : (String → String) → List String → Option String → Result String
  choice normalize words none = ok "off"
  choice normalize words (some text) =
      if contains (normalize text) words then ok (normalize text) else err value_error

  -- `value is not None and value <= 0` raises.
  unfoldable pub validate_above : Option s.Time → Result (Unit {0})
  validate_above none = ok tt
  validate_above (some t) = raise_if (s.le t (s.of_nat 0)) value_error

  -- `extra_config.get(...) is not None`
  unfoldable pub is_set : Setting → Bool
  is_set unset = false
  is_set (boolean _) = true
  is_set (integer _) = true
  is_set (float _) = true
  is_set (string _) = true
  is_set other = true

  -- The first settings that are read, up to `open_lookahead`.
  pub record StorageSettings : Type 0 where
    pub root_dir : String
    pub sync_on_store : Option Bool
    pub iodepth : Option ℤ
    pub staging_mem : Option s.Time
    pub enable_preload : Option Bool
    pub preload_share_staging : Option Bool
    pub open_lookahead : Option ℤ

  -- The others.
  pub record PlannerSettings : Type 0 where
    pub staging_cache : String
    pub prefix_cache_break_even_path : Option String
    pub load_planner : String
    pub tolerance : Option s.Time
    pub deadline_max : Option s.Time

  unfoldable pub read_storage :
      (String → String)
      → (String → Option ℤ)
      → (String → Option s.Time)
      → Dict String Setting
      → Result StorageSettings
  unfolding setting coerce_str require coerce_bool coerce_int coerce_float
  read_storage normalize int_of float_of config = do
    given_root ← coerce_str (setting "shared_storage_path" config)
    root_dir ← require given_root
    sync_on_store ← coerce_bool normalize (setting "sync_on_store" config)
    iodepth ← coerce_int int_of (setting "iodepth" config)
    staging_mem ← coerce_float float_of (setting "staging_mem" config)
    enable_preload ← coerce_bool normalize (setting "enable_preload" config)
    share_staging ← coerce_bool normalize (setting "preload_share_staging" config)
    open_lookahead ← coerce_int int_of (setting "open_lookahead" config)
    ok (record {
      root_dir = root_dir;
      sync_on_store = sync_on_store;
      iodepth = iodepth;
      staging_mem = staging_mem;
      enable_preload = enable_preload;
      preload_share_staging = share_staging;
      open_lookahead = open_lookahead;
    })

  unfoldable pub read_planner :
      (String → String) → (String → Option s.Time) → Dict String Setting → Result PlannerSettings
  unfolding setting coerce_str coerce_float choice is_set
  read_planner normalize float_of config = do
    given_cache ← coerce_str (setting "staging_cache" config)
    staging_cache ← choice normalize ("off" ∷ "lru" ∷ "arc" ∷ []) given_cache
    break_even_path ← coerce_str (setting "prefix_cache_break_even_path" config)
    given_planner ← coerce_str (setting "load_planner" config)
    load_planner ← choice normalize ("off" ∷ "on" ∷ []) given_planner
    raise_if (is_set (setting "load_planner_defer_deadline_steps" config)) value_error
    tolerance ← coerce_float float_of (setting "load_planner_defer_tolerance" config)
    deadline_max ← coerce_float float_of (setting "load_planner_defer_deadline_max_s" config)
    ok (record {
      staging_cache = staging_cache;
      prefix_cache_break_even_path = break_even_path;
      load_planner = load_planner;
      tolerance = tolerance;
      deadline_max = deadline_max;
    })

  -- The checks of the numbers, and the defaults.
  unfoldable pub accept : StorageSettings → PlannerSettings → Result SharedFileConfig
  unfolding validate_positive validate_above or_else
  accept storage planner = do
    validate_positive storage.iodepth
    validate_positive storage.open_lookahead
    validate_above planner.tolerance
    validate_above planner.deadline_max
    validate_above storage.staging_mem
    ok (record {
      root_dir = storage.root_dir;
      sync_on_store = or_else false storage.sync_on_store;
      iodepth = or_else (pos 16) storage.iodepth;
      staging_mem = or_else (s.of_nat 1) storage.staging_mem;
      enable_preload = or_else false storage.enable_preload;
      preload_share_staging = or_else true storage.preload_share_staging;
      open_lookahead = storage.open_lookahead;
      staging_cache = planner.staging_cache;
      prefix_cache_break_even_path = planner.prefix_cache_break_even_path;
      load_planner = planner.load_planner;
      load_planner_defer_tolerance = or_else (s.of_nat 2) planner.tolerance;
      load_planner_defer_deadline_max_s = or_else (s.of_nat 2) planner.deadline_max;
    })

  unfoldable pub from_extra_config :
      (String → String)
      → (String → Option ℤ)
      → (String → Option s.Time)
      → Dict String Setting
      → Result SharedFileConfig
  unfolding read_storage read_planner accept
  from_extra_config normalize int_of float_of config = do
    storage ← read_storage normalize int_of float_of config
    planner ← read_planner normalize float_of config
    accept storage planner
