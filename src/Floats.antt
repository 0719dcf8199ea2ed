-- ===== src/Floats.antt =====
-- Python's floats, as the program uses them: a type and its operations, which are parameters of
-- the model, and the documented laws of IEEE 754 doubles that the proofs rely on. A value of `F`
-- is never NaN: the program makes floats from integers and from the configuration's numbers only.
pub mod Fixed
use fishing_deal_tracker.Prelude.{ℕ, ◌<◌, ◌^◌, ◌≡◌, Bool, true, false}
use fishing_deal_tracker.Prelude.Int.{ℤ, pos, ◌≤ℤ◌, ◌<ℤ◌}

pub record Floats (F : Type 0) : Type 0 where
  -- `float(n)`, also the conversion of an int that meets a float
  pub of_int : ℤ → F
  -- `a / b` on two ints
  pub div_int : ℤ → ℤ → F
  pub add : F → F → F
  pub sub : F → F → F
  pub mul : F → F → F
  pub div : F → F → F
  -- `round(x, 2)`
  pub round2 : F → F
  -- `abs(x)`
  pub abs : F → F
  -- `a < b`
  pub lt : F → F → Bool

-- Rounding to nearest keeps order, so each operation is monotone where the exact one is.
-- `lt b a ≡ false` says that a ≤ b.
pub record FloatLaws (F : Type 0) (fl : Floats F) : Type 0 where
  pub lt_asymm : (a b : F) → fl.lt a b ≡ true → fl.lt b a ≡ false
  pub le_trans : (a b c : F) → fl.lt b a ≡ false → fl.lt c b ≡ false → fl.lt c a ≡ false
  pub of_int_mono : (a b : ℤ) → a ≤ℤ b → fl.lt (fl.of_int b) (fl.of_int a) ≡ false
  -- the ints up to 2 ^ 53 are exact
  pub of_int_strict :
      (a b : ℕ) → a < b → b < 2 ^ 53 → fl.lt (fl.of_int (pos a)) (fl.of_int (pos b)) ≡ true
  pub div_int_mono :
      (a b c : ℤ) → a ≤ℤ b → pos 0 <ℤ c → fl.lt (fl.div_int b c) (fl.div_int a c) ≡ false
  pub div_int_anti :
      (a b c : ℤ)
      → pos 0 ≤ℤ a
      → pos 0 <ℤ b
      → b ≤ℤ c
      → fl.lt (fl.div_int a b) (fl.div_int a c) ≡ false
  pub sub_anti : (a b c : F) → fl.lt b a ≡ false → fl.lt (fl.sub c a) (fl.sub c b) ≡ false
  pub mul_mono :
      (a b c : F)
      → fl.lt b a ≡ false
      → fl.lt c (fl.of_int (pos 0)) ≡ false
      → fl.lt (fl.mul b c) (fl.mul a c) ≡ false
  pub round2_mono : (a b : F) → fl.lt b a ≡ false → fl.lt (fl.round2 b) (fl.round2 a) ≡ false
