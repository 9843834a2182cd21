-- ===== src/Tests/Numbers.antt =====
-- The integers as a number format: literals are rounded down to whole numbers, nothing overflows.
use package.shinzo_scheduler_service.Base.{
  ap, zero, suc, ℕ, ◌/◌, ◌≡◌, refl, true, arith, ◌+◌, ◌*◌, ◌≤◌,
}
use package.shinzo_scheduler_service.Base.Int.{
  ℤ, pos, negsuc, +ℤ_parts, ◌+ℤ◌, ◌-ℤ◌, ◌*ℤ◌, ltb_ℤ, leb_ℤ, eqb_ℤ, pos_part, neg_part,
}
use package.shinzo_scheduler_service.Base.Float.{Float64, IsIeee, HasExactUnits, HasExactIntegers}

-- The quotient, rounded towards 0.
abbrev quotient : ℤ → ℤ → ℤ
quotient (pos a) (pos b) = pos (a / b)
quotient a b = pos 0 -ℤ pos (pos_part a + neg_part a / (pos_part b + neg_part b))

instance unfoldable pub whole : Float64 ℤ
whole = record {
  of_int = λ n. n;
  tenths = λ n. pos (n / 10);
  add = λ a b. a +ℤ b;
  sub = λ a b. a -ℤ b;
  mul = λ a b. a *ℤ b;
  div = quotient;
  lt = ltb_ℤ;
  le = leb_ℤ;
  eq = eqb_ℤ;
  is_finite = λ a. true;
}

mul_le : (a b n : ℕ) → a ≤ b → a * n ≤ b * n
mul_le a b zero h = omega arith
mul_le a b (suc n) h = omega (arith, mul_le a b n h)

mul-le : (a b p : ℤ) → leb_ℤ (pos 0) p ≡ true → leb_ℤ a b ≡ true → leb_ℤ (a *ℤ p) (b *ℤ p) ≡ true
unfolding ◌*ℤ◌
mul-le (pos a) (pos b) (pos n) h le = ground (arith, mul_le a b n)
mul-le (pos a) (negsuc b) (pos n) h le = absurd (ground (arith, le))
mul-le (negsuc a) (pos b) (pos n) h le = ground arith
mul-le (negsuc a) (negsuc b) (pos n) h le = ground (arith, mul_le b a n)
mul-le a b (negsuc n) h le = absurd (ground (arith, h))

pub whole-IsIeee : IsIeee whole
unfolding whole ◌+ℤ◌ ◌-ℤ◌
whole-IsIeee = record {
  lt_irrefl = λ a. ground arith;
  le_of_lt = λ a b h. ground arith;
  not-lt_of_le = λ a b h. ground arith;
  le_trans = λ a b c h h'. ground arith;
  le_refl = λ a h. ground arith;
  le_left = λ a b h. ground arith;
  le_right = λ a b h. ground arith;
  le_of_not_lt = λ a b ra rb h. ground arith;
  tenths_finite = λ n h. refl;
  of_int_finite = λ n h. refl;
  of_int_mono = λ m n h. ground arith;
  mul_mono = λ a b p fa fb fp h le. mul-le a b p h le;
  sub_mono = λ a b c fa h. ground arith;
  add_nonneg = λ a b ha hb. ground arith;
}

whole-add_mono :
    (a b c d : ℤ) → leb_ℤ a b ≡ true → leb_ℤ c d ≡ true → leb_ℤ (a +ℤ c) (b +ℤ d) ≡ true
whole-add_mono a b c d h k = ground (arith, +ℤ_parts a c, +ℤ_parts b d)

whole-mul_comm : (a b : ℤ) → a *ℤ b ≡ b *ℤ a
unfolding ◌*ℤ◌
whole-mul_comm (pos a) (pos b) = grind arith
whole-mul_comm (pos a) (negsuc b) = grind arith
whole-mul_comm (negsuc a) (pos b) = grind arith
whole-mul_comm (negsuc a) (negsuc b) = grind arith

whole-mul_one : (a : ℤ) → pos 1 *ℤ a ≡ a
unfolding ◌*ℤ◌
whole-mul_one (pos a) = ground arith
whole-mul_one (negsuc a) = ground arith

whole-zero_mul : (a : ℤ) → pos 0 *ℤ a ≡ pos 0
unfolding ◌*ℤ◌
whole-zero_mul (pos a) = ground arith
whole-zero_mul (negsuc a) = ground arith

pub whole-HasExactUnits : HasExactUnits whole
unfolding whole ◌+ℤ◌
whole-HasExactUnits = record {
  finite_between = λ a h k. refl;
  mul_comm = whole-mul_comm;
  mul_one = λ a h. whole-mul_one a;
  zero_mul_nonneg = λ a h k. rw (whole-zero_mul a) refl;
  zero-add_zero = refl;
  tenths_mono = λ m n h k. ground arith;
  nine_and_one = refl;
  add_mono = λ a b c d fa fb fc fd h k. whole-add_mono a b c d h k;
}

zero-quotient : (n : ℕ) → 0 / n ≡ 0
zero-quotient zero = refl
zero-quotient (suc n) = grind arith

pub whole-HasExactIntegers : HasExactIntegers whole
unfolding whole ◌+ℤ◌ ◌-ℤ◌
whole-HasExactIntegers = record {
  of_int_zero = refl;
  of_int_one = refl;
  of_int_lt = λ m n h k. ground arith;
  of_int_pred = λ n h. ground arith;
  zero_div = λ n h k. ap pos (zero-quotient n);
  add_zero = λ n h. ground arith;
  add_zero_mul = λ n a h k l. rw (whole-zero_mul a) (ground arith);
}
