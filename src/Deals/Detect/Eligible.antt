-- ===== src/Deals/Detect/Eligible.antt =====
-- What holds of every candidate of fpt/deals/detect.py, and which observations give one.
use fishing_deal_tracker.Prelude.{
  ◌≡◌, ◌≢◌, ◌↔◌, ◌⊎◌, Bool, true, false, Option, none, some, or_default, arith,
}
use fishing_deal_tracker.Prelude.Int.{ℤ, ◌-ℤ◌, ◌≤ℤ◌}
use fishing_deal_tracker.Floats.{Floats}
use fishing_deal_tracker.Domain.{Condition, Availability, Rule, Lane}
use fishing_deal_tracker.Deals.Discount.{discount_pct}
use fishing_deal_tracker.Deals.Detect.{
  DealRules, DealCandidate, min_discount, min_saving, candidate_if_deep, detect_deep_discount_new,
  detect_deep_discount_claimed, detect_used_vs_current_new,
}

-- The rules' own conditions, in the words of the architecture.
abbrev pub IsSellable : Availability → Type 0
IsSellable availability =
    (availability ≡ Availability.in_stock) ⊎ (availability ≡ Availability.store_only)

abbrev pub IsHeadlineUsed : Condition → Type 0
IsHeadlineUsed condition = (condition ≢ Condition.new) × (condition ≢ Condition.used_acceptable)

module _ {F : Type 0} ⦃fl : Floats F⦄ where
  -- A price that may be published against a reference under the rules `r`.
  pub record IsDeep (r : DealRules F) (price_cents reference_cents : ℤ) : Type 0 where
    pub saving : min_saving r ≤ℤ reference_cents -ℤ price_cents
    pub discount : fl.lt (discount_pct price_cents reference_cents) (min_discount r) ≡ false

  abbrev pub deep_candidate : Rule → Lane → ℤ → ℤ → DealCandidate F
  deep_candidate rule lane p ref = record {
    rule = rule;
    lane = lane;
    price_cents = p;
    reference_cents = ref;
    discount_pct = discount_pct p ref;
  }

  -- The shared end gives the candidate exactly for a deep price.
  pub candidate_if_deep_iff :
      (r : DealRules F) (rule : Rule) (lane : Lane) (p ref : ℤ) (c : DealCandidate F)
      → (candidate_if_deep r rule lane p ref ≡ some c)
        ↔ (IsDeep r p ref × (c ≡ deep_candidate rule lane p ref))
  unfolding candidate_if_deep
  candidate_if_deep_iff r rule lane p ref c = (λ h. ground arith, λ h. ground arith)

  -- DEEP_DISCOUNT_NEW: the candidates are exactly those of a new, sellable item whose price is deep
  -- against a verified reference, and they record that price, reference and discount.
  pub detect_deep_discount_new_iff :
      (config : DealRules F) (condition : Condition) (availability : Availability) (p : ℤ)
      → (verified : Option ℤ) (rules : Option (DealRules F)) (c : DealCandidate F)
      → (detect_deep_discount_new config condition availability p verified rules ≡ some c) ↔ (
          (condition ≡ Condition.new)
          × IsSellable availability
          × (verified ≡ some c.reference_cents)
          × IsDeep (or_default rules config) p c.reference_cents
          × (c ≡ deep_candidate Rule.deep_discount_new Lane.verified p c.reference_cents))
  unfolding detect_deep_discount_new
  detect_deep_discount_new_iff config condition availability p none rules c =
      (λ h. ground arith, λ h. ground arith)
  detect_deep_discount_new_iff config condition availability p (some ref) rules c =
      let end =
        candidate_if_deep_iff (or_default rules config) Rule.deep_discount_new Lane.verified p ref
          c in
      (λ h. ground (arith, end), λ h. ground (arith, end))

  -- DEEP_DISCOUNT_CLAIMED: the candidates are exactly those of a new item on clearance, without a
  -- verified reference, whose price is deep against the retailer's own claim, and they record that
  -- price, claim and discount.
  pub detect_deep_discount_claimed_iff :
      (config : DealRules F) (condition : Condition) (p : ℤ) (claimed : Option ℤ)
      → (on_clearance has_verified : Bool) (rules : Option (DealRules F)) (c : DealCandidate F)
      → (detect_deep_discount_claimed config condition p claimed on_clearance has_verified rules
          ≡ some c)
        ↔ ((condition ≡ Condition.new)
            × (has_verified ≡ false)
            × (on_clearance ≡ true)
            × (claimed ≡ some c.reference_cents)
            × IsDeep (or_default rules config) p c.reference_cents
            × (c ≡ deep_candidate Rule.deep_discount_claimed Lane.claimed p c.reference_cents))
  unfolding detect_deep_discount_claimed
  detect_deep_discount_claimed_iff config condition p none on_clearance has_verified rules c =
      (λ h. ground arith, λ h. ground arith)
  detect_deep_discount_claimed_iff config condition p (some ref) on_clearance has_verified rules c =
      let end =
        candidate_if_deep_iff (or_default rules config) Rule.deep_discount_claimed Lane.claimed p
          ref c in
      (λ h. ground (arith, end), λ h. ground (arith, end))

  -- USED_VS_CURRENT_NEW: the candidates are exactly those of a used, open-box or refurbished item
  -- in stock, other than USED_ACCEPTABLE, whose landed price is deep against the current new
  -- price, and they record that price, reference and discount.
  pub detect_used_vs_current_new_iff :
      (config : DealRules F) (condition : Condition) (availability : Availability) (p : ℤ)
      → (current_new : Option ℤ) (rules : Option (DealRules F)) (c : DealCandidate F)
      → (detect_used_vs_current_new config condition availability p current_new rules ≡ some c) ↔ (
          IsHeadlineUsed condition
          × (availability ≡ Availability.in_stock)
          × (current_new ≡ some c.reference_cents)
          × IsDeep (or_default rules config) p c.reference_cents
          × (c ≡ deep_candidate Rule.used_vs_current_new Lane.used_lane p c.reference_cents))
  unfolding detect_used_vs_current_new
  detect_used_vs_current_new_iff config condition availability p none rules c =
      (λ h. ground arith, λ h. ground arith)
  detect_used_vs_current_new_iff config condition availability p (some ref) rules c =
      let end =
        candidate_if_deep_iff (or_default rules config) Rule.used_vs_current_new Lane.used_lane p
          ref c in
      (λ h. ground (arith, end), λ h. ground (arith, end))
