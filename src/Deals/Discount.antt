-- ===== src/Deals/Discount.antt =====
-- `_discount_pct` of fpt/deals/detect.py: the discount of a price against a reference.
use fishing_deal_tracker.Prelude.{◌≡◌, false, arith, if◌then◌else◌}
use fishing_deal_tracker.Prelude.Int.{ℤ, pos, ◌≤ℤ◌, ◌<ℤ◌, leb_ℤ}
use fishing_deal_tracker.Floats.{Floats, FloatLaws}

module _ {F : Type 0} ⦃fl : Floats F⦄ where
  -- `round((1 - (price / reference)) * 100, 2)`
  unfoldable pub percent_off : ℤ → ℤ → F
  percent_off price_cents reference_cents = fl.round2 (
      fl.mul (fl.sub (fl.of_int (pos 1)) (fl.div_int price_cents reference_cents))
        (fl.of_int (pos 100)))

  unfoldable pub discount_pct : ℤ → ℤ → F
  discount_pct price_cents reference_cents =
      if leb_ℤ reference_cents (pos 0)
      then fl.of_int (pos 0)
      else percent_off price_cents reference_cents

module _ {F : Type 0} ⦃fl : Floats F⦄ (laws : FloatLaws F fl) where
  -- A smaller ratio of price to reference is a larger discount.
  percent_mono :
      (p r q s : ℤ)
      → fl.lt (fl.div_int p r) (fl.div_int q s) ≡ false
      → fl.lt (percent_off q s) (percent_off p r) ≡ false
  unfolding percent_off
  percent_mono p r q s h = laws.round2_mono _ _ (
      laws.mul_mono _ _ _ (laws.sub_anti _ _ _ h)
        (laws.of_int_mono (pos 0) (pos 100) (omega arith)))

  -- A lower price has no smaller discount against the same positive reference.
  pub percent_off_price :
      (p q r : ℤ) → q ≤ℤ p → pos 0 <ℤ r → fl.lt (percent_off q r) (percent_off p r) ≡ false
  percent_off_price p q r h k = percent_mono p r q r (laws.div_int_mono q p r h k)

  -- A higher reference gives the same price no smaller discount.
  pub percent_off_reference :
      (p r s : ℤ)
      → pos 0 ≤ℤ p
      → pos 0 <ℤ r
      → r ≤ℤ s
      → fl.lt (percent_off p s) (percent_off p r) ≡ false
  percent_off_reference p r s n k h = percent_mono p r p s (laws.div_int_anti p r s n k h)

  zero_refl : (a : ℤ) → fl.lt (fl.of_int a) (fl.of_int a) ≡ false
  zero_refl a = laws.of_int_mono a a (omega arith)

  pub discount_pct_price :
      (p q r : ℤ) → q ≤ℤ p → fl.lt (discount_pct q r) (discount_pct p r) ≡ false
  unfolding discount_pct
  discount_pct_price p q r h = ground (arith, zero_refl (pos 0), percent_off_price p q r h)
