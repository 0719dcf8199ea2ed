-- ===== src/Floats/Fixed.antt =====
-- Fixed-point numbers of zero or more, with four decimals: a concrete type that meets the laws of
-- `Floats`, for evaluation.
use native.Mathlib.Nat.{le-div_iff_mul-le, mul-le-mul_right, div-mul-le_self, le_trans}
use fishing_deal_tracker.Prelude.{ℕ, ◌+◌, ◌-◌, ◌*◌, ◌/◌, ◌≤◌, ◌<◌, ◌≡◌, false, arith, ltb}
use fishing_deal_tracker.Prelude.Int.{ℤ, pos, pos_part, ◌≤ℤ◌, ◌<ℤ◌}
use fishing_deal_tracker.Floats.{Floats, FloatLaws}

abbrev pub scale : ℕ
scale = 10000

abbrev pub fixed_div_int : ℤ → ℤ → ℕ
fixed_div_int a b = pos_part a * scale / pos_part b

abbrev pub fixed : Floats ℕ
fixed = record {
  of_int = λ a. pos_part a * scale;
  div_int = fixed_div_int;
  add = λ a b. a + b;
  sub = λ a b. a - b;
  mul = λ a b. a * b / scale;
  div = λ a b. a * scale / b;
  round2 = λ a. (a + 50) / 100 * 100;
  abs = λ a. a;
  lt = ltb;
}

div_mono : (a b c : ℕ) → a ≤ b → 0 < c → a / c ≤ b / c
div_mono a b c h p = (le-div_iff_mul-le p).1 (le_trans (div-mul-le_self a c) h)

div_anti : (a b c : ℕ) → 0 < b → b ≤ c → a / c ≤ a / b
div_anti a b c p h = (le-div_iff_mul-le p).1 (le_trans (grind arith) (div-mul-le_self a c))

ge_false : (a b : ℕ) → a ≤ b → ltb b a ≡ false
ge_false a b h = ground arith

le_of_false : (a b : ℕ) → ltb b a ≡ false → a ≤ b
le_of_false a b h = ground arith

parts_mono : (a b : ℤ) → a ≤ℤ b → pos_part a ≤ pos_part b
parts_mono a b h = ground arith

parts_pos : (a : ℤ) → pos 0 <ℤ a → 0 < pos_part a
parts_pos a h = ground arith

int_mono : (a b c : ℤ) → a ≤ℤ b → pos 0 <ℤ c → ltb (fixed_div_int b c) (fixed_div_int a c) ≡ false
int_mono a b c h p = ge_false _ _ (
    div_mono (pos_part a * scale) (pos_part b * scale) (pos_part c)
      (omega (arith, parts_mono a b h)) (parts_pos c p))

int_anti : (a b c : ℤ) → pos 0 <ℤ b → b ≤ℤ c → ltb (fixed_div_int a b) (fixed_div_int a c) ≡ false
int_anti a b c p h =
    ge_false _ _
      (div_anti (pos_part a * scale) (pos_part b) (pos_part c) (parts_pos b p) (parts_mono b c h))

product_mono : (a b c : ℕ) → ltb b a ≡ false → ltb (b * c / scale) (a * c / scale) ≡ false
product_mono a b c h =
    ge_false _ _
      (div_mono (a * c) (b * c) scale (mul-le-mul_right c (le_of_false a b h)) (omega arith))

difference_anti : (a b c : ℕ) → ltb b a ≡ false → ltb (c - a) (c - b) ≡ false
difference_anti a b c h = ground arith

round_mono : (a b : ℕ) → ltb b a ≡ false → ltb ((b + 50) / 100 * 100) ((a + 50) / 100 * 100) ≡ false
round_mono a b h = ground arith

of_int_le : (a b : ℤ) → a ≤ℤ b → ltb (pos_part b * scale) (pos_part a * scale) ≡ false
of_int_le a b h = ge_false _ _ (omega (arith, parts_mono a b h))

pub fixed_laws : FloatLaws ℕ fixed
fixed_laws = record {
  lt_asymm = λ a b h. ground arith;
  le_trans = λ a b c h k. ground arith;
  of_int_mono = of_int_le;
  of_int_strict = λ a b h k. ground arith;
  div_int_mono = int_mono;
  div_int_anti = λ a b c _ p h. int_anti a b c p h;
  sub_anti = difference_anti;
  mul_mono = λ a b c h _. product_mono a b c h;
  round2_mono = round_mono;
}
