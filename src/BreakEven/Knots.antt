-- ===== src/BreakEven/Knots.antt =====
-- The knots of a curve that `load_curves` of py_kvcache/break_even.py returns.
use Prim.Native.String.{String}
use py_kvcache.Prelude.{
  ℕ, ◌≤◌, ◌<◌, ◌≡◌, refl, ap, sym, subst, ◌∙◌, bind_inv, raise_if_inv, inl, inr, Bool, true, false,
  List, [], ◌∷◌, Option, some, none, Result, ok, err, value_error, ◌>>=◌, arith, Bool-cases,
  if◌then◌else◌, leb, leb→le, length, nat_eq,
}
use py_kvcache.Prelude.Int.{ℤ}
use py_kvcache.Prelude.Keys.{contains, add, Distinct, contains-add, length-add-le}
use py_kvcache.Seconds.{Seconds}
use py_kvcache.BreakEven.{Json, Fields, set_of, mapping, get, is_no_path, read_and_validate}
use py_kvcache.BreakEven.Curves.{
  Knot, Curve, insert_knot, sort_knots, tokens_seen, has_duplicates, is_lone_zero, check_knots,
  parse_curve, parse_knots, numeric, non_empty, CurveData, curves_in, present, optional_curves,
  is_null, load_curves, has_other_names, golden_in, kv_bytes_in,
}

contains-set_of : (k : ℕ) (l : List ℕ) → contains k (set_of l) ≡ contains k l
unfolding set_of
contains-set_of k [] = refl
contains-set_of k (x ∷ l) = rw (contains-add x k (set_of l), contains-set_of k l) refl

length-set_of-le : (l : List ℕ) → length (set_of l) ≤ length l
unfolding set_of
length-set_of-le [] = omega arith
length-set_of-le (x ∷ l) = omega (arith, length-add-le x (set_of l), length-set_of-le l)

length-add_present : (k : ℕ) (l : List ℕ) → contains k l ≡ true → length (add k l) ≡ length l
length-add_present k [] h = cc
length-add_present k (j ∷ l) h = ground (arith, length-add_present k l)

-- A list as long as its set has no element twice.
set_of-Distinct : (l : List ℕ) → length (set_of l) ≡ length l → Distinct l
unfolding set_of
set_of-Distinct [] h = tt
set_of-Distinct (x ∷ l) h = elim (Bool-cases (contains x l)) [
  | inl twice ↦ absurd (
      omega (
        arith,
        h,
        length-set_of-le l,
        length-add_present x (set_of l) (contains-set_of x l ∙ twice),
      ))
  | inr once ↦
      (once, set_of-Distinct l (omega (arith, h, length-set_of-le l, length-add-le x (set_of l))))
]

no_duplicates-Distinct : (l : List ℕ) → has_duplicates l ≡ false → Distinct l
unfolding has_duplicates
no_duplicates-Distinct l h = set_of-Distinct l (ground arith)

module _ (s : Seconds) where
  -- Each token count is below all that follow.
  abbrev pub Below : ℕ → List (Knot s) → Type 0
  Below n [] = Unit
  Below n (k ∷ knots) = (n < k.0) × Below n knots

  abbrev pub Ascending : List (Knot s) → Type 0
  Ascending [] = Unit
  Ascending (k ∷ knots) = Below k.0 knots × Ascending knots

  abbrev AtLeast : ℕ → List (Knot s) → Type 0
  AtLeast n [] = Unit
  AtLeast n (k ∷ knots) = (n ≤ k.0) × AtLeast n knots

  abbrev Sorted : List (Knot s) → Type 0
  Sorted [] = Unit
  Sorted (k ∷ knots) = AtLeast k.0 knots × Sorted knots

  AtLeast-trans : (m n : ℕ) (knots : List (Knot s)) → m ≤ n → AtLeast n knots → AtLeast m knots
  AtLeast-trans m n [] h a = tt
  AtLeast-trans m n (k ∷ knots) h a = (omega (arith, h, a.0), AtLeast-trans m n knots h a.1)

  insert_knot-AtLeast :
      (n : ℕ) (k : Knot s) (knots : List (Knot s))
      → n ≤ k.0
      → AtLeast n knots
      → AtLeast n (insert_knot s k knots)
  unfolding insert_knot
  insert_knot-AtLeast n k [] h a = (h, tt)
  insert_knot-AtLeast n k (j ∷ knots) h a = elim (Bool-cases (leb k.0 j.0)) [
    | inl first ↦ rw first (h, a)
    | inr later ↦ rw later (a.0, insert_knot-AtLeast n k knots h a.1)
  ]

  insert_knot-Sorted :
      (k : Knot s) (knots : List (Knot s)) → Sorted knots → Sorted (insert_knot s k knots)
  unfolding insert_knot
  insert_knot-Sorted k [] a = (tt, tt)
  insert_knot-Sorted k (j ∷ knots) a = elim (Bool-cases (leb k.0 j.0)) [
    | inl first ↦
        rw first ((leb→le _ _ first, AtLeast-trans k.0 j.0 knots (leb→le _ _ first) a.0), a)
    | inr later ↦
        rw later
          (insert_knot-AtLeast j.0 k knots (ground arith) a.0, insert_knot-Sorted k knots a.1)
  ]

  sort_knots-Sorted : (knots : List (Knot s)) → Sorted (sort_knots s knots)
  unfolding sort_knots
  sort_knots-Sorted [] = tt
  sort_knots-Sorted (k ∷ knots) =
      insert_knot-Sorted k (sort_knots s knots) (sort_knots-Sorted knots)

  AtLeast-Below :
      (n : ℕ) (knots : List (Knot s))
      → contains n (tokens_seen s knots) ≡ false
      → AtLeast n knots
      → Below n knots
  AtLeast-Below n [] h a = tt
  AtLeast-Below n (k ∷ knots) h a = (ground arith, AtLeast-Below n knots (ground arith) a.1)

  Sorted-Ascending :
      (knots : List (Knot s)) → Distinct (tokens_seen s knots) → Sorted knots → Ascending knots
  Sorted-Ascending [] d a = tt
  Sorted-Ascending (k ∷ knots) d a =
      (AtLeast-Below k.0 knots d.0 a.0, Sorted-Ascending knots d.1 a.1)

  -- The knots of a curve that `_parse_curve` accepts ascend, and a lone knot is not at token 0.
  pub IsCurve : Curve s → Type 0
  IsCurve c = Ascending c.knots × (is_lone_zero s c.knots ≡ false)

  check_knots-IsCurve :
      (floor : s.Time) (parsed : List (Knot s)) {c : Curve s}
      → check_knots s floor (sort_knots s parsed) ≡ ok c
      → IsCurve c
  unfolding check_knots IsCurve
  check_knots-IsCurve floor parsed {c} e =
      let knots = sort_knots s parsed in
      let (distinct, rest) = raise_if_inv (has_duplicates (tokens_seen s knots)) value_error e in
      let (more, made) = raise_if_inv (is_lone_zero s knots) value_error rest in
      let same : record { floor = floor; knots = knots } ≡ c = cc in
      rw (sym (ap (λ (x : Curve s). x.knots) same)) (
        Sorted-Ascending knots (no_duplicates-Distinct (tokens_seen s knots) distinct)
            (sort_knots-Sorted parsed),
        more,
      )

  parse_curve-IsCurve :
      (int_of : String → Option ℤ) (raw : Json s) {c : Curve s}
      → parse_curve s int_of raw ≡ ok c
      → IsCurve c
  unfolding parse_curve
  parse_curve-IsCurve int_of raw e =
      let (fields, _, e1) = bind_inv (mapping s raw) e in
      let (floor, _, e2) = bind_inv (numeric s (get s "floor" fields)) e1 in
      let (knots_raw, _, e3) = bind_inv (mapping s (get s "knots" fields)) e2 in
      let (filled, _, e4) = bind_inv (non_empty s knots_raw) e3 in
      let (parsed, _, e5) = bind_inv (parse_knots s int_of filled) e4 in
      check_knots-IsCurve floor parsed e5

  pub AreCurves : CurveData s → Type 0
  AreCurves d = IsCurve d.f × IsCurve d.g_ssd × IsCurve d.g_mem

  curves_in-AreCurves :
      (int_of : String → Option ℤ) (fields : Fields s) (raw : Json s) {d : CurveData s}
      → curves_in s int_of fields raw ≡ ok d
      → AreCurves d
  unfolding curves_in AreCurves
  curves_in-AreCurves int_of fields raw {d} e =
      let (curves, _, e1) = bind_inv (mapping s raw) e in
      let (_, e2) = raise_if_inv (has_other_names s curves) value_error e1 in
      let (f, of_f, e3) = bind_inv (parse_curve s int_of (get s "f" curves)) e2 in
      let (g_ssd, of_ssd, e4) = bind_inv (parse_curve s int_of (get s "g_ssd" curves)) e3 in
      let (g_mem, of_mem, e5) = bind_inv (parse_curve s int_of (get s "g_mem" curves)) e4 in
      let (golden, _, e6) = bind_inv (golden_in s (get s "golden" fields)) e5 in
      let (kv_bytes, _, made) = bind_inv (kv_bytes_in s (get s "kv_bytes_per_token" fields)) e6 in
      let same : record {
        f = f;
        g_ssd = g_ssd;
        g_mem = g_mem;
        golden = golden;
        kv_bytes_per_token = kv_bytes;
      }
          ≡ d =
        cc in
      subst AreCurves same (
        parse_curve-IsCurve int_of (get s "f" curves) of_f,
        parse_curve-IsCurve int_of (get s "g_ssd" curves) of_ssd,
        parse_curve-IsCurve int_of (get s "g_mem" curves) of_mem,
      )

  present_inv : (m : Result (CurveData s)) {d : CurveData s} → present s m ≡ ok (some d) → m ≡ ok d
  unfolding present
  present_inv (ok _) e = cc
  present_inv (err _) e = cc

  otherwise :
      (test : Bool) (m : Result (Option (CurveData s))) {d : CurveData s}
      → (if test then ok none else m) ≡ ok (some d)
      → m ≡ ok (some d)
  otherwise true m e = cc
  otherwise false m e = e

  optional_curves_inv :
      (int_of : String → Option ℤ) (fields : Fields s) (raw : Json s) {d : CurveData s}
      → optional_curves s int_of fields raw ≡ ok (some d)
      → curves_in s int_of fields raw ≡ ok d
  unfolding optional_curves
  optional_curves_inv int_of fields raw e =
      present_inv (curves_in s int_of fields raw)
        (otherwise (is_null s raw) (present s (curves_in s int_of fields raw)) e)

  -- The curves of a break-even file that loads: in each of the three, the token counts of the knots
  -- ascend, none twice, and a lone knot is not at token 0.
  pub load_curves-AreCurves :
      (int_of : String → Option ℤ) (path : Option String) (contents : Option (Json s))
      (model_name : String) {d : CurveData s}
      → load_curves s int_of path contents model_name ≡ ok (some d)
      → AreCurves d
  unfolding load_curves
  load_curves-AreCurves int_of path contents model_name e =
      let (fields, _, found) = bind_inv (read_and_validate s contents model_name) (
        otherwise (is_no_path path)
          (read_and_validate s contents model_name >>= λ fields.
            optional_curves s int_of fields (get s "curves" fields))
          e) in
      curves_in-AreCurves int_of fields (get s "curves" fields)
        (optional_curves_inv int_of fields (get s "curves" fields) found)
