-- ===== src/Base/Float.antt =====
-- `float64` as an interface: the operations that the source uses, and facts of IEEE 754 arithmetic.
use package.shinzo_scheduler_service.Base.Int.{ℤ, pos, ◌≤ℤ◌, IsInt64}
use package.shinzo_scheduler_service.Base.Tests.{ltb}
use Prim.Native.Nat.{ℕ, suc, ◌<◌, ◌≤◌, ◌^◌}
use mathlib.Core.Path.{◌≡◌}
use mathlib.Core.Bool.{Bool, true, false, not}

pub record Float64 (F : Type 0) : Type 0 where
  -- `float64(n)`
  pub of_int : ℤ → F
  -- A literal, in tenths: `tenths 3` is 0.3.
  pub tenths : ℕ → F
  pub add : F → F → F
  pub sub : F → F → F
  pub mul : F → F → F
  pub div : F → F → F
  pub lt : F → F → Bool
  pub le : F → F → Bool
  pub eq : F → F → Bool
  pub is_finite : F → Bool

module _ {F : Type 0} ⦃fl : Float64 F⦄ where
  infixl 65 ◌+F◌ ◌-F◌
  infixl 70 ◌*F◌ ◌/F◌
  infix 50 ◌<F◌ ◌≤F◌
  abbrev pub ◌+F◌ : F → F → F
  a +F b = fl.add a b

  abbrev pub ◌-F◌ : F → F → F
  a -F b = fl.sub a b

  abbrev pub ◌*F◌ : F → F → F
  a *F b = fl.mul a b

  abbrev pub ◌/F◌ : F → F → F
  a /F b = fl.div a b

  abbrev pub ◌<F◌ : F → F → Bool
  a <F b = fl.lt a b

  abbrev pub ◌≤F◌ : F → F → Bool
  a ≤F b = fl.le a b

  abbrev pub ne_F : F → F → Bool
  ne_F a b = not (fl.eq a b)

  abbrev pub zero_F : F
  zero_F = fl.tenths 0

  abbrev pub one_F : F
  one_F = fl.tenths 10

-- Facts that hold of IEEE 754 doubles, infinities and NaN included: a comparison with NaN is
-- false, rounding is monotone, and a finite number less any number that is no NaN is no NaN.
pub record IsIeee {F : Type 0} (fl : Float64 F) : Type 0 where
  pub lt_irrefl : (a : F) → fl.lt a a ≡ false
  pub le_of_lt : (a b : F) → fl.lt a b ≡ true → fl.le a b ≡ true
  pub not-lt_of_le : (a b : F) → fl.le a b ≡ true → fl.lt b a ≡ false
  pub le_trans : (a b c : F) → fl.le a b ≡ true → fl.le b c ≡ true → fl.le a c ≡ true
  pub le_refl : (a : F) → fl.is_finite a ≡ true → fl.le a a ≡ true
  pub le_left : (a b : F) → fl.le a b ≡ true → fl.le a a ≡ true
  pub le_right : (a b : F) → fl.le a b ≡ true → fl.le b b ≡ true
  -- A number that is no NaN is at most itself.
  pub le_of_not_lt :
      (a b : F) → fl.le a a ≡ true → fl.le b b ≡ true → fl.lt a b ≡ false → fl.le b a ≡ true
  pub tenths_finite : (n : ℕ) → n < 2 ^ 53 → fl.is_finite (fl.tenths n) ≡ true
  pub of_int_finite : (n : ℤ) → IsInt64 n → fl.is_finite (fl.of_int n) ≡ true
  pub of_int_mono : (m n : ℤ) → m ≤ℤ n → fl.le (fl.of_int m) (fl.of_int n) ≡ true
  pub mul_mono :
      (a b p : F)
      → fl.is_finite a ≡ true
      → fl.is_finite b ≡ true
      → fl.is_finite p ≡ true
      → fl.le (fl.tenths 0) p ≡ true
      → fl.le a b ≡ true
      → fl.le (fl.mul a p) (fl.mul b p) ≡ true
  pub sub_mono :
      (a b c : F)
      → fl.is_finite a ≡ true
      → fl.le b c ≡ true
      → fl.le (fl.sub a c) (fl.sub a b) ≡ true
  pub add_nonneg :
      (a b : F)
      → fl.lt a (fl.tenths 0) ≡ false
      → fl.lt b (fl.tenths 0) ≡ false
      → fl.lt (fl.add a b) (fl.tenths 0) ≡ false

-- Further facts of IEEE 754 doubles: products with 0 and 1 are exact, sums of finite numbers are
-- monotone, and the nearest doubles to 0.9 and 0.1 add up to 1.
pub record HasExactUnits {F : Type 0} (fl : Float64 F) : Type 0 where
  pub finite_between :
      (a : F) → fl.le (fl.tenths 0) a ≡ true → fl.le a (fl.tenths 10) ≡ true → fl.is_finite a ≡ true
  pub mul_comm : (a b : F) → fl.mul a b ≡ fl.mul b a
  pub mul_one : (a : F) → fl.is_finite a ≡ true → fl.mul (fl.tenths 10) a ≡ a
  -- The product is 0, or -0 if the other factor is that.
  pub zero_mul_nonneg :
      (a : F)
      → fl.is_finite a ≡ true
      → fl.le (fl.tenths 0) a ≡ true
      → fl.le (fl.tenths 0) (fl.mul (fl.tenths 0) a) ≡ true
  pub zero-add_zero : fl.add (fl.tenths 0) (fl.tenths 0) ≡ fl.tenths 0
  pub tenths_mono : (m n : ℕ) → m ≤ n → n < 2 ^ 53 → fl.le (fl.tenths m) (fl.tenths n) ≡ true
  pub nine_and_one : fl.le (fl.add (fl.tenths 9) (fl.tenths 1)) (fl.tenths 10) ≡ true
  pub add_mono :
      (a b c d : F)
      → fl.is_finite a ≡ true
      → fl.is_finite b ≡ true
      → fl.is_finite c ≡ true
      → fl.is_finite d ≡ true
      → fl.le a b ≡ true
      → fl.le c d ≡ true
      → fl.le (fl.add a c) (fl.add b d) ≡ true

-- Integers below 2^53 are exact: their order, their predecessors, and sums and quotients with 0.
pub record HasExactIntegers {F : Type 0} (fl : Float64 F) : Type 0 where
  pub of_int_zero : fl.of_int (pos 0) ≡ fl.tenths 0
  pub of_int_one : fl.of_int (pos 1) ≡ fl.tenths 10
  pub of_int_lt :
      (m n : ℕ) → m < 2 ^ 53 → n < 2 ^ 53 → fl.lt (fl.of_int (pos m)) (fl.of_int (pos n)) ≡ ltb m n
  pub of_int_pred :
      (n : ℕ)
      → suc n < 2 ^ 53
      → fl.sub (fl.of_int (pos (suc n))) (fl.of_int (pos 1)) ≡ fl.of_int (pos n)
  pub zero_div :
      (n : ℕ)
      → 0 < n
      → n < 2 ^ 53
      → fl.div (fl.of_int (pos 0)) (fl.of_int (pos n)) ≡ fl.of_int (pos 0)
  pub add_zero :
      (n : ℕ) → n < 2 ^ 53 → fl.add (fl.of_int (pos n)) (fl.of_int (pos 0)) ≡ fl.of_int (pos n)
  pub add_zero_mul :
      (n : ℕ) (a : F)
      → n < 2 ^ 53
      → fl.is_finite a ≡ true
      → fl.le (fl.tenths 0) a ≡ true
      → fl.add (fl.of_int (pos n)) (fl.mul (fl.tenths 0) a) ≡ fl.of_int (pos n)
