-- ===== src/Tests/Files.antt =====
-- Break-even files of py_kvcache/break_even.py, as the JSON parser returns them.
use Prim.Native.String.{String}
use text.Mathlib.Text.{◌==◌ as str_eq}
use py_kvcache.Prelude.{
  ℕ, ◌+◌, ◌≤◌, ◌≡◌, refl, ◌⊎◌, ◌↔◌, true, false, [], ◌∷◌, Option, none, some, ok, if◌then◌else◌,
}
use py_kvcache.Prelude.Int.{ℤ, pos}
use py_kvcache.Seconds.{ticks}
use py_kvcache.BreakEven.{
  BreakEvenThresholds, Json, integer, float, string, object, Fields, empty_object, field, get_or,
  get, non_negative_int, mapping, is_other_model, read_and_validate, is_no_path, with_margin,
  thresholds_in, load_break_even, should_load, set_of,
}
use py_kvcache.BreakEven.Curves.{
  Curve, load_curves, optional_curves, is_null, present, curves_in, has_other_names, all_in,
  field_names, parse_curve, non_empty, parse_knots, token_of, numeric, of_int, sort_knots,
  insert_knot, check_knots, has_duplicates, is_lone_zero, golden_in, kv_bytes_in,
}
use py_kvcache.BreakEven.Gate.{load_break_even-gates}
use py_kvcache.BreakEven.Knots.{AreCurves, load_curves-AreCurves}

program : Unit {0}
unfolding get_or get non_negative_int mapping is_other_model read_and_validate is_no_path
    with_margin thresholds_in load_break_even set_of load_curves optional_curves is_null present
    curves_in has_other_names all_in field_names parse_curve non_empty parse_knots token_of numeric
    of_int sort_knots insert_knot check_knots has_duplicates is_lone_zero golden_in kv_bytes_in
program = tt

abbrev fields : Fields ticks
fields = field "model_name" (string "m") (
    field "break_even_ssd_tokens" (integer (pos 512))
      (field "safety_margin_tokens" (integer (pos 64)) empty_object))

load_break_even-gates_example :
    (t : BreakEvenThresholds) × (load_break_even ticks (some "file") (some (object fields)) "m"
      ≡ ok t)
    × ((should_load 560 t false ≡ true)
        ↔ (◌≡◌ {A = ℕ} 560 0 ⊎ ◌≡◌ {A = ℕ} 512 0 ⊎ (512 + 64 ≤ 560)))
    × ((should_load 560 t true ≡ true) ↔ (◌≡◌ {A = ℕ} 560 0 ⊎ ◌≡◌ {A = ℕ} 0 0 ⊎ (0 + 64 ≤ 560)))
unfolding program
load_break_even-gates_example =
    load_break_even-gates ticks (some "file") (some (object fields)) "m" fields 64 512 0 560 refl
      refl refl refl refl

-- `int` of the three keys that stand in the file below.
abbrev int_of : String → Option ℤ
int_of key =
    if str_eq key "0"
    then some (pos 0)
    else if str_eq key "16"
    then some (pos 16)
    else if str_eq key "32"
    then some (pos 32)
    else none

-- The knots of a file need not be in order.
abbrev curve : Json ticks
curve = object (
    field "floor" (integer (pos 1)) (
      field "knots"
        (object
          (field "32" (float 9) (field "0" (integer (pos 1)) (field "16" (float 4) empty_object))))
        empty_object))

abbrev parsed : Curve ticks
parsed = record { floor = 1; knots = (0, 1) ∷ (16, 4) ∷ (32, 9) ∷ [] }

abbrev with_curves : Json ticks
with_curves = object (
    field "curves"
      (object (field "f" curve (field "g_ssd" curve (field "g_mem" curve empty_object))))
      empty_object)

loaded :
    load_curves ticks int_of (some "file") (some with_curves) "m"
    ≡ ok (
        some (record {
          f = parsed;
          g_ssd = parsed;
          g_mem = parsed;
          golden = [];
          kv_bytes_per_token = none;
        }))
unfolding program
loaded = refl

load_curves-AreCurves_example :
    AreCurves ticks (record {
      f = parsed;
      g_ssd = parsed;
      g_mem = parsed;
      golden = [];
      kv_bytes_per_token = none;
    })
load_curves-AreCurves_example =
    load_curves-AreCurves ticks int_of (some "file") (some with_curves) "m" loaded
