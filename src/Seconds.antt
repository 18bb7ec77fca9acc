-- ===== src/Seconds.antt =====
-- Times and costs. The program computes them as floats, which are a parameter here: a type with the
-- operations that the source applies to its floats. What a theorem needs of them is a hypothesis,
-- and the laws hold of IEEE numbers that are not NaN.
use py_kvcache.Prelude.{
  ℕ, ◌+◌, ◌-◌, ◌*◌, ◌/◌, ◌≡◌, inl, inr, Bool, true, false, List, [], ◌∷◌, if◌then◌else◌, leb, ltb,
  not, arith, Bool-cases,
}

pub record Seconds : Type 1 where
  pub Time : Type 0
  pub of_nat : ℕ → Time
  pub add : Time → Time → Time
  pub sub : Time → Time → Time
  pub mul : Time → Time → Time
  pub div : Time → Time → Time
  pub le : Time → Time → Bool
  pub lt : Time → Time → Bool

-- Comparison is a total order, and a sum with what is not negative is no less.
pub record IsOrdered (s : Seconds) : Type 0 where
  pub le_refl : (a : s.Time) → s.le a a ≡ true
  pub le_trans : (a b c : s.Time) → s.le a b ≡ true → s.le b c ≡ true → s.le a c ≡ true
  pub lt-le : (a b : s.Time) → s.lt a b ≡ not (s.le b a)
  pub le_total : (a b : s.Time) → s.le a b ≡ false → s.le b a ≡ true
  pub le-add : (a b : s.Time) → s.le (s.of_nat 0) b ≡ true → s.le a (s.add a b) ≡ true
  pub add_mono : (a b c : s.Time) → s.le b c ≡ true → s.le (s.add a b) (s.add a c) ≡ true

module _ (s : Seconds) where
  -- Python's `max(a, b)`: the first unless the second is greater.
  abbrev pub max_s : s.Time → s.Time → s.Time
  max_s a b = if s.lt a b then b else a

  -- Python's `min(a, b)`: the first unless the second is less.
  abbrev pub min_s : s.Time → s.Time → s.Time
  min_s a b = if s.lt b a then b else a

  max_from : s.Time → List s.Time → s.Time
  max_from m [] = m
  max_from m (x ∷ xs) = max_from (max_s m x) xs

  -- `max(xs, default=d)`
  unfoldable pub max_or : s.Time → List s.Time → s.Time
  unfolding max_from
  max_or d [] = d
  max_or d (x ∷ xs) = max_from x xs

  -- `sum(xs)`, from the left.
  unfoldable pub sum_from : s.Time → List s.Time → s.Time
  sum_from a [] = a
  sum_from a (x ∷ xs) = sum_from (s.add a x) xs

module _ (s : Seconds) (o : IsOrdered s) where
  pub not_less-le : (a b : s.Time) → s.lt a b ≡ false → s.le b a ≡ true
  not_less-le a b h = ground (arith, o.lt-le a b)

  pub less-le : (a b : s.Time) → s.lt a b ≡ true → s.le a b ≡ true
  less-le a b h = o.le_total b a (ground (arith, o.lt-le a b))

  pub min_s-le : (a b : s.Time) → s.le (min_s s a b) a ≡ true
  min_s-le a b = elim (Bool-cases (s.lt b a)) [
    | inl e ↦ rw e (less-le b a e)
    | inr e ↦ rw e (o.le_refl a)
  ]

  pub le-max_s_left : (a b : s.Time) → s.le a (max_s s a b) ≡ true
  le-max_s_left a b = elim (Bool-cases (s.lt a b)) [
    | inl e ↦ rw e (less-le a b e)
    | inr e ↦ rw e (o.le_refl a)
  ]

  pub le-max_s_right : (a b : s.Time) → s.le b (max_s s a b) ≡ true
  le-max_s_right a b = elim (Bool-cases (s.lt a b)) [
    | inl e ↦ rw e (o.le_refl b)
    | inr e ↦ rw e (not_less-le a b e)
  ]

-- Whole ticks, as an instance: what the laws ask can be met.
abbrev pub ticks : Seconds
ticks = record {
  Time = ℕ;
  of_nat = λ n. n;
  add = λ a b. a + b;
  sub = λ a b. a - b;
  mul = λ a b. a * b;
  div = λ a b. a / b;
  le = leb;
  lt = ltb;
}

pub ticks-IsOrdered : IsOrdered ticks
ticks-IsOrdered = record {
  le_refl = λ a. ground arith;
  le_trans = λ a b c h k. ground arith;
  lt-le = λ a b. ground arith;
  le_total = λ a b h. ground arith;
  le-add = λ a b h. ground arith;
  add_mono = λ a b c h. ground arith;
}
