-- ===== src/FsConfig/Usable.antt =====
-- What `SharedFileConfig.from_extra_config` of py_kvcache/fs_config.py guarantees of the settings that
-- it accepts.
use Prim.Native.String.{String}
use py_kvcache.Prelude.{
  ◌≡◌, refl, subst, true, false, List, [], ◌∷◌, Option, none, some, ok, value_error, bind_inv,
  raise_if_inv, ok_inv, Bool-cases, inl, inr, arith, string_eq, ◌==◌,
}
use py_kvcache.Prelude.Int.{ℤ, pos, is_positive}
use py_kvcache.Prelude.Keys.{contains}
use py_kvcache.Prelude.Dict.{Dict}
use py_kvcache.Seconds.{Seconds}
use py_kvcache.FsConfig.{
  or_else, validate_positive, require, Setting, SharedFileConfig, setting, coerce_str, coerce_int,
  coerce_float, coerce_bool, choice, validate_above, is_set, from_extra_config, StorageSettings,
  PlannerSettings, read_storage, read_planner, accept,
}

require_inv : (o : Option String) {root : String} → require o ≡ ok root → (root == "") ≡ false
unfolding require
require_inv none e = cc
require_inv (some path) {root} e = elim (Bool-cases (path == "")) [
  | inl empty ↦ absurd (ground arith)
  | inr given ↦ let same : path ≡ root = ground arith in subst (λ r. (r == "") ≡ false) same given
]

validate_positive-or_else :
    (o : Option ℤ) {u : Unit {0}}
    → validate_positive o ≡ ok u
    → is_positive (or_else (pos 16) o) ≡ true
unfolding validate_positive or_else
validate_positive-or_else none e = refl
validate_positive-or_else (some z) e = ground arith

validate_positive-some :
    (o : Option ℤ) {u : Unit {0}} (z : ℤ)
    → validate_positive o ≡ ok u
    → o ≡ some z
    → is_positive z ≡ true
unfolding validate_positive
validate_positive-some none z e h = cc
validate_positive-some (some y) z e h = ground arith

module _ (s : Seconds) where
  -- The settings that the other components rely on.
  pub record IsUsable (c : SharedFileConfig s) : Type 0 where
    pub root_dir : (c.root_dir == "") ≡ false
    pub iodepth : is_positive c.iodepth ≡ true
    pub open_lookahead : (z : ℤ) → c.open_lookahead ≡ some z → is_positive z ≡ true
    pub staging_mem : s.le c.staging_mem (s.of_nat 0) ≡ false
    pub staging_cache : contains c.staging_cache ("off" ∷ "lru" ∷ "arc" ∷ []) ≡ true
    pub load_planner : contains c.load_planner ("off" ∷ "on" ∷ []) ≡ true
    pub tolerance : s.le c.load_planner_defer_tolerance (s.of_nat 0) ≡ false
    pub deadline_max : s.le c.load_planner_defer_deadline_max_s (s.of_nat 0) ≡ false

  choice_inv :
      (normalize : String → String) (words : List String) (o : Option String) {w : String}
      → contains "off" words ≡ true
      → choice s normalize words o ≡ ok w
      → contains w words ≡ true
  unfolding choice
  choice_inv normalize words none {w} off e =
      let same : "off" ≡ w = cc in subst (λ x. contains x words ≡ true) same off
  choice_inv normalize words (some text) {w} off e =
      elim (Bool-cases (contains (normalize text) words)) [
        | inl known ↦
            let same : normalize text ≡ w = ground arith in
            subst (λ x. contains x words ≡ true) same known
        | inr unknown ↦ absurd (ground arith)
      ]

  validate_above-or_else :
      (d : s.Time) (o : Option s.Time) {u : Unit {0}}
      → s.le d (s.of_nat 0) ≡ false
      → validate_above s o ≡ ok u
      → s.le (or_else d o) (s.of_nat 0) ≡ false
  unfolding validate_above or_else
  validate_above-or_else d none above e = above
  validate_above-or_else d (some t) above e = ground arith

  read_storage-root_dir :
      (normalize : String → String) (int_of : String → Option ℤ) (float_of : String → Option s.Time)
      (config : Dict String (Setting s)) {st : StorageSettings s}
      → read_storage s normalize int_of float_of config ≡ ok st
      → (st.root_dir == "") ≡ false
  unfolding read_storage
  read_storage-root_dir normalize int_of float_of config e0 =
      let (given, _, e1) = bind_inv (coerce_str s (setting s "shared_storage_path" config)) e0 in
      let (root, of_root, e2) = bind_inv (require given) e1 in
      let (_, _, e3) = bind_inv (coerce_bool s normalize (setting s "sync_on_store" config)) e2 in
      let (_, _, e4) = bind_inv (coerce_int s int_of (setting s "iodepth" config)) e3 in
      let (_, _, e5) = bind_inv (coerce_float s float_of (setting s "staging_mem" config)) e4 in
      let (_, _, e6) = bind_inv (coerce_bool s normalize (setting s "enable_preload" config)) e5 in
      let (_, _, e7) =
        bind_inv (coerce_bool s normalize (setting s "preload_share_staging" config)) e6 in
      let (_, _, made) = bind_inv (coerce_int s int_of (setting s "open_lookahead" config)) e7 in
      ok_inv (λ (x : StorageSettings s). (x.root_dir == "") ≡ false) made
        (require_inv given of_root)

  read_planner-words :
      (normalize : String → String) (float_of : String → Option s.Time)
      (config : Dict String (Setting s)) {pl : PlannerSettings s}
      → read_planner s normalize float_of config ≡ ok pl
      → (contains pl.staging_cache ("off" ∷ "lru" ∷ "arc" ∷ []) ≡ true)
        × (contains pl.load_planner ("off" ∷ "on" ∷ []) ≡ true)
  unfolding read_planner
  read_planner-words normalize float_of config e0 =
      let caches = "off" ∷ "lru" ∷ "arc" ∷ [] in
      let planners = "off" ∷ "on" ∷ [] in
      let (given_cache, _, e1) = bind_inv (coerce_str s (setting s "staging_cache" config)) e0 in
      let (cache, of_cache, e2) = bind_inv (choice s normalize caches given_cache) e1 in
      let (_, _, e3) =
        bind_inv (coerce_str s (setting s "prefix_cache_break_even_path" config)) e2 in
      let (given, _, e4) = bind_inv (coerce_str s (setting s "load_planner" config)) e3 in
      let (planner, of_planner, e5) = bind_inv (choice s normalize planners given) e4 in
      let (_, e6) =
        raise_if_inv (is_set s (setting s "load_planner_defer_deadline_steps" config)) value_error
          e5 in
      let (_, _, e7) =
        bind_inv (coerce_float s float_of (setting s "load_planner_defer_tolerance" config)) e6 in
      let (_, _, made) =
        bind_inv (coerce_float s float_of (setting s "load_planner_defer_deadline_max_s" config))
          e7 in
      ok_inv
        (λ (x : PlannerSettings s).
          (contains x.staging_cache caches ≡ true) × (contains x.load_planner planners ≡ true))
        made
        (
          choice_inv normalize caches given_cache refl of_cache,
          choice_inv normalize planners given refl of_planner,
        )

  accept-IsUsable :
      (st : StorageSettings s) (pl : PlannerSettings s) {c : SharedFileConfig s}
      → s.le (s.of_nat 1) (s.of_nat 0) ≡ false
      → s.le (s.of_nat 2) (s.of_nat 0) ≡ false
      → (st.root_dir == "") ≡ false
      → (contains pl.staging_cache ("off" ∷ "lru" ∷ "arc" ∷ []) ≡ true)
        × (contains pl.load_planner ("off" ∷ "on" ∷ []) ≡ true)
      → accept s st pl ≡ ok c
      → IsUsable c
  unfolding accept
  accept-IsUsable st pl one two root words e0 =
      let (_, of_iodepth, e1) = bind_inv (validate_positive st.iodepth) e0 in
      let (_, of_ahead, e2) = bind_inv (validate_positive st.open_lookahead) e1 in
      let (_, of_tolerance, e3) = bind_inv (validate_above s pl.tolerance) e2 in
      let (_, of_most, e4) = bind_inv (validate_above s pl.deadline_max) e3 in
      let (_, of_mem, made) = bind_inv (validate_above s st.staging_mem) e4 in
      ok_inv IsUsable made (record {
        root_dir = root;
        iodepth = validate_positive-or_else st.iodepth of_iodepth;
        open_lookahead = λ z h. validate_positive-some st.open_lookahead z of_ahead h;
        staging_mem = validate_above-or_else (s.of_nat 1) st.staging_mem one of_mem;
        staging_cache = words.0;
        load_planner = words.1;
        tolerance = validate_above-or_else (s.of_nat 2) pl.tolerance two of_tolerance;
        deadline_max = validate_above-or_else (s.of_nat 2) pl.deadline_max two of_most;
      })

  -- Settings that are accepted are usable: the storage path is not empty, the I/O depth and a given
  -- look-ahead are positive, the staging memory, the tolerance and the longest deferral are not 0 or
  -- less, and the cache and the planner are among the words the program knows. The defaults 1.0 and
  -- 2.0 are not 0 or less.
  pub from_extra_config-IsUsable :
      (normalize : String → String) (int_of : String → Option ℤ) (float_of : String → Option s.Time)
      (config : Dict String (Setting s)) {c : SharedFileConfig s}
      → s.le (s.of_nat 1) (s.of_nat 0) ≡ false
      → s.le (s.of_nat 2) (s.of_nat 0) ≡ false
      → from_extra_config s normalize int_of float_of config ≡ ok c
      → IsUsable c
  unfolding from_extra_config
  from_extra_config-IsUsable normalize int_of float_of config one two e =
      let (st, of_st, e1) = bind_inv (read_storage s normalize int_of float_of config) e in
      let (pl, of_pl, e2) = bind_inv (read_planner s normalize float_of config) e1 in
      accept-IsUsable st pl one two (read_storage-root_dir normalize int_of float_of config of_st)
        (read_planner-words normalize float_of config of_pl) e2
