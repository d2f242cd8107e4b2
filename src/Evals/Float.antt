-- ===== src/Evals/Float.antt =====
-- What evals/*.py does with a `float`: Python's arithmetic, `math.fsum`, `math.isfinite`,
-- `math.log2` and the comparisons, as an interface over a type of floats.
use pufferlab.Prelude.{ℕ, Bool, List, ◌&&◌}

pub record Float (F : Type 0) : Type 0 where
  pub nought : F
  pub one : F
  pub le : F → F → Bool
  pub lt : F → F → Bool
  pub same : F → F → Bool
  pub is_finite : F → Bool
  pub neg : F → F
  pub add : F → F → F
  pub sub : F → F → F
  pub mul : F → F → F
  pub div : F → F → F
  -- An int where a float is asked for, and the quotient of two ints.
  pub of_nat : ℕ → F
  pub ratio : ℕ → ℕ → F
  -- `2.0 ** -n`, and `1.0 / math.log2(rank + 1)`
  pub exp2_neg : ℕ → F
  pub discount : ℕ → F
  pub fsum : List F → F
  -- `sum` of floats, from the int 0.
  pub sum : List F → F
  -- `math.floor` and `math.ceil` of a number that is not negative.
  pub floor : F → ℕ
  pub ceil : F → ℕ
  -- The literals 0.50 and 0.95.
  pub half : F
  pub p95 : F

module _ {F : Type 0} ⦃f : Float F⦄ where
  -- `math.isfinite(value) and 0.0 <= value <= 1.0`
  abbrev pub is_unit : F → Bool
  is_unit x = f.is_finite x && f.le f.nought x && f.le x f.one

  -- `math.isfinite(value) and -1.0 <= value <= 1.0`
  abbrev pub is_signed_unit : F → Bool
  is_signed_unit x = f.is_finite x && f.le (f.neg f.one) x && f.le x f.one

  -- `math.isfinite(value) and value >= 0`
  abbrev pub is_duration : F → Bool
  is_duration x = f.is_finite x && f.le f.nought x
