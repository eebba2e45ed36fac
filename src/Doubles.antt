-- ===== src/Doubles.antt =====
-- The `double` of C++ as an interface: the operations that the program applies to measured values.
-- Arithmetic rounds, so no law of exact numbers is assumed anywhere; the laws that some theorems
-- use are those of comparisons and signs that IEEE 754 documents.
use dbus_cgwacs.Prelude.{Bool, true, false, ◌≡◌}
use dbus_cgwacs.Prelude.Int.{ℤ}

pub record Doubles (D : Type 0) : Type 0 where
  pub nan : D
  pub zero : D
  -- The literals 0.1 and 0.001 (1e-3).
  pub tenth : D
  pub thousandth : D
  pub of_int : ℤ → D
  pub neg : D → D
  pub abs : D → D
  pub add : D → D → D
  pub sub : D → D → D
  pub mul : D → D → D
  pub div : D → D → D
  pub less : D → D → Bool
  pub less_eq : D → D → Bool
  pub equal : D → D → Bool
  pub is_nan : D → Bool
  pub is_finite : D → Bool

-- What IEEE 754 says of NaN and of comparisons.
pub record NanLaws {D : Type 0} (f : Doubles D) : Type 0 where
  pub nan_is_nan : f.is_nan f.nan ≡ true
  pub nan_not_finite : f.is_finite f.nan ≡ false
  pub zero_not_nan : f.is_nan f.zero ≡ false
  pub equal_refl : (x : D) → f.is_nan x ≡ false → f.equal x x ≡ true
  pub equal_nan_right : (x y : D) → f.is_nan y ≡ true → f.equal x y ≡ false

-- What IEEE 754 says of the order: rounding is monotone, and keeps signs.
pub record OrderLaws {D : Type 0} (f : Doubles D) : Type 0 where
  pub less_eq_refl : (x : D) → f.is_nan x ≡ false → f.less_eq x x ≡ true
  pub finite_not_nan : (x : D) → f.is_finite x ≡ true → f.is_nan x ≡ false
  -- A term that is not negative does not make a sum smaller than its other term.
  pub add_grows :
      (x y : D) → f.is_finite x ≡ true → f.less_eq f.zero y ≡ true → f.less_eq x (f.add x y) ≡ true
  -- A finite quotient of a number that is not at most 0 by one that is not negative is not
  -- negative: a NaN gives no finite quotient.
  pub div_nonneg :
      (x y : D)
      → f.less_eq x f.zero ≡ false
      → f.less_eq f.zero y ≡ true
      → f.is_finite (f.div x y) ≡ true
      → f.less_eq f.zero (f.div x y) ≡ true
  pub mul_nonneg :
      (x y : D)
      → f.is_finite x ≡ true
      → f.is_finite y ≡ true
      → f.less_eq f.zero x ≡ true
      → f.less_eq f.zero y ≡ true
      → f.less_eq f.zero (f.mul x y) ≡ true
  -- Taking a negative number from a number that is not negative leaves one that is not negative.
  pub sub_negative :
      (x y : D)
      → f.is_finite x ≡ true
      → f.less_eq f.zero x ≡ true
      → f.less y f.zero ≡ true
      → f.less_eq f.zero (f.sub x y) ≡ true
  pub zero_nonneg : f.less_eq f.zero f.zero ≡ true
