-- ===== src/Tests/Settings.antt =====
-- A configuration of py_kvcache/fs_config.py.
use Prim.Native.String.{String}
use text.Mathlib.Text.{◌==◌ as str_eq}
use py_kvcache.Prelude.{ℕ, ◌≡◌, refl, true, false, [], ◌∷◌, Option, none, ok, if◌then◌else◌}
use py_kvcache.Prelude.Int.{ℤ, pos}
use py_kvcache.Prelude.Dict.{Dict}
use py_kvcache.Seconds.{ticks}
use py_kvcache.FsConfig.{
  Setting, integer, string, SharedFileConfig, or_else, validate_positive, require, setting,
  coerce_str, coerce_int, coerce_float, coerce_bool, bool_of, choice, validate_above, is_set,
  read_storage, read_planner, accept, from_extra_config,
}
use py_kvcache.FsConfig.Usable.{IsUsable, from_extra_config-IsUsable}

program : Unit {0}
unfolding or_else validate_positive require setting coerce_str coerce_int coerce_float coerce_bool
    bool_of choice validate_above is_set read_storage read_planner accept from_extra_config
program = tt

abbrev config : Dict String (Setting ticks)
config =
    ("shared_storage_path", string "/kv")
    ∷ ("staging_cache", string " LRU ")
    ∷ ("enable_preload", string "Yes")
    ∷ ("iodepth", integer (pos 32))
    ∷ []

-- `strip().lower()` of the two strings above.
abbrev normalize : String → String
normalize text = if str_eq text " LRU " then "lru" else if str_eq text "Yes" then "yes" else text

abbrev accepted : SharedFileConfig ticks
accepted = record {
  root_dir = "/kv";
  sync_on_store = false;
  iodepth = pos 32;
  staging_mem = 1;
  enable_preload = true;
  preload_share_staging = true;
  open_lookahead = none;
  staging_cache = "lru";
  prefix_cache_break_even_path = none;
  load_planner = "off";
  load_planner_defer_tolerance = 2;
  load_planner_defer_deadline_max_s = 2;
}

abbrev int_of : String → Option ℤ
int_of text = none

abbrev float_of : String → Option ℕ
float_of text = none

from_config : from_extra_config ticks normalize int_of float_of config ≡ ok accepted
unfolding program
from_config = refl

from_extra_config-IsUsable_example : IsUsable ticks accepted
from_extra_config-IsUsable_example =
    from_extra_config-IsUsable ticks normalize int_of float_of config refl refl from_config
