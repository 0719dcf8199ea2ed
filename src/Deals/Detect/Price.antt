-- ===== src/Deals/Detect/Price.antt =====
-- How the rules of fpt/deals/detect.py answer to a lower price and to a higher reference, and that
-- no observation backs deals of two rules.
use fishing_deal_tracker.Prelude.{
  ◌≡◌, refl, ap, true, false, Bool, Option, some, or_default, is_some, arith,
}
use fishing_deal_tracker.Prelude.Int.{ℤ, pos, ◌≤ℤ◌, ◌<ℤ◌, int_laws}
use fishing_deal_tracker.Floats.{Floats, FloatLaws}
use fishing_deal_tracker.Domain.{Condition, Availability, Rule, Lane}
use fishing_deal_tracker.Deals.Discount.{discount_pct, discount_pct_price, percent_off_reference}
use fishing_deal_tracker.Deals.Detect.{
  DealRules, DealCandidate, detect_deep_discount_new, detect_deep_discount_claimed,
  detect_used_vs_current_new,
}
use fishing_deal_tracker.Deals.Detect.Eligible.{
  IsDeep, deep_candidate, detect_deep_discount_new_iff, detect_used_vs_current_new_iff,
  detect_deep_discount_claimed_iff,
}

module _ {F : Type 0} ⦃fl : Floats F⦄ (laws : FloatLaws F fl) where
  IsDeep-cheaper : (r : DealRules F) (p q ref : ℤ) → q ≤ℤ p → IsDeep r p ref → IsDeep r q ref
  IsDeep-cheaper r p q ref h d = record {
    saving = omega (int_laws, d.saving);
    discount = laws.le_trans _ _ _ d.discount (discount_pct_price laws p q ref h);
  }

  discount_pct_reference :
      (p r s : ℤ)
      → pos 0 ≤ℤ p
      → pos 0 <ℤ r
      → r ≤ℤ s
      → fl.lt (discount_pct p s) (discount_pct p r) ≡ false
  unfolding discount_pct
  discount_pct_reference p r s n k h = ground (arith, percent_off_reference laws p r s n k h)

  pub IsDeep-higher :
      (r : DealRules F) (p low high : ℤ)
      → pos 0 ≤ℤ p
      → pos 0 <ℤ low
      → low ≤ℤ high
      → IsDeep r p low
      → IsDeep r p high
  IsDeep-higher r p low high n k h d = record {
    saving = omega (int_laws, d.saving);
    discount = laws.le_trans _ _ _ d.discount (discount_pct_reference p low high n k h);
  }

  -- A price cut keeps a used deal: at a lower landed price the rule still gives a candidate, with
  -- the same reference and a discount that is no smaller.
  pub detect_used_vs_current_new_cheaper :
      (config : DealRules F) (condition : Condition) (availability : Availability) (p q : ℤ)
      → (current_new : Option ℤ) (rules : Option (DealRules F)) (c : DealCandidate F) → q ≤ℤ p
      → detect_used_vs_current_new config condition availability p current_new rules ≡ some c
      → (c' : DealCandidate F) × (detect_used_vs_current_new config condition availability q
            current_new rules
          ≡ some c')
        × (c'.reference_cents ≡ c.reference_cents)
        × (fl.lt c'.discount_pct c.discount_pct ≡ false)
  detect_used_vs_current_new_cheaper config condition availability p q current_new rules c h e =
      let ref = c.reference_cents in
      let c' : DealCandidate F = deep_candidate Rule.used_vs_current_new Lane.used_lane q ref in
      let k =
        (detect_used_vs_current_new_iff config condition availability p current_new rules c).0 e in
      (
        c',
        (detect_used_vs_current_new_iff config condition availability q current_new rules c').1
            (k.0, k.1, k.2, IsDeep-cheaper (or_default rules config) p q ref h k.3, refl),
        refl,
        rw (ap (λ (x : DealCandidate F). x.discount_pct) k.4) (discount_pct_price laws p q ref h),
      )

  -- A price cut keeps a new deal: at a lower price the rule still gives a candidate, with the same
  -- verified reference and a discount that is no smaller.
  pub detect_deep_discount_new_cheaper :
      (config : DealRules F) (condition : Condition) (availability : Availability) (p q : ℤ)
      → (verified : Option ℤ) (rules : Option (DealRules F)) (c : DealCandidate F) → q ≤ℤ p
      → detect_deep_discount_new config condition availability p verified rules ≡ some c
      → (c' : DealCandidate F) × (detect_deep_discount_new config condition availability q verified
            rules
          ≡ some c')
        × (c'.reference_cents ≡ c.reference_cents)
        × (fl.lt c'.discount_pct c.discount_pct ≡ false)
  detect_deep_discount_new_cheaper config condition availability p q verified rules c h e =
      let ref = c.reference_cents in
      let c' : DealCandidate F = deep_candidate Rule.deep_discount_new Lane.verified q ref in
      let k = (detect_deep_discount_new_iff config condition availability p verified rules c).0 e in
      (
        c',
        (detect_deep_discount_new_iff config condition availability q verified rules c').1
            (k.0, k.1, k.2, IsDeep-cheaper (or_default rules config) p q ref h k.3, refl),
        refl,
        rw (ap (λ (x : DealCandidate F). x.discount_pct) k.4) (discount_pct_price laws p q ref h),
      )

  -- A verified reference errs on the safe side by being low: a new deal that is found against a
  -- positive reference is found against every higher one.
  pub detect_deep_discount_new_higher :
      (config : DealRules F) (condition : Condition) (availability : Availability) (p low high : ℤ)
      → (rules : Option (DealRules F)) (c : DealCandidate F) → pos 0 ≤ℤ p
      → pos 0 <ℤ low
      → low ≤ℤ high
      → detect_deep_discount_new config condition availability p (some low) rules ≡ some c
      → detect_deep_discount_new config condition availability p (some high) rules
        ≡ some (deep_candidate Rule.deep_discount_new Lane.verified p high)
  detect_deep_discount_new_higher config condition availability p low high rules c n k h e =
      let c' : DealCandidate F = deep_candidate Rule.deep_discount_new Lane.verified p high in
      let d =
        (detect_deep_discount_new_iff config condition availability p (some low) rules c).0 e in
      let same : c.reference_cents ≡ low = cc d.2 in
      (detect_deep_discount_new_iff config condition availability p (some high) rules c').1 (
        d.0,
        d.1,
        refl,
        IsDeep-higher (or_default rules config) p low high n k h (rw same at d.3),
        refl,
      )

module _ {F : Type 0} ⦃fl : Floats F⦄ where
  -- Where `has_verified_reference` says whether a reference is verified: with a verified reference the
  -- claimed rule gives no candidate, also where the price is not deep against the reference; the rule
  -- of used offers gives none for a NEW one; and no observation backs candidates of two rules.
  pub one_rule :
      (config : DealRules F) (condition : Condition) (availability : Availability)
      → (p landed : ℤ) (verified claimed current_new : Option ℤ) (on_clearance : Bool)
      → (rules : Option (DealRules F)) (c d e : DealCandidate F)
      → let new = detect_deep_discount_new config condition availability p verified rules in
        let claim =
          detect_deep_discount_claimed config condition p claimed on_clearance
            (is_some verified)
            rules in
        let used =
          detect_used_vs_current_new config condition availability landed current_new rules in
        ¬ ((is_some verified ≡ true) × (claim ≡ some d))
        × ¬ ((condition ≡ Condition.new) × (used ≡ some e))
        × ¬ ((new ≡ some c) × (claim ≡ some d))
        × ¬ ((new ≡ some c) × (used ≡ some e))
        × ¬ ((claim ≡ some d) × (used ≡ some e))
  one_rule config condition availability p landed verified claimed current_new on_clearance rules c
        d e =
      let n = (detect_deep_discount_new_iff config condition availability p verified rules c).0 in
      let l =
        (detect_deep_discount_claimed_iff config condition p claimed on_clearance (is_some verified)
          rules d).0 in
      let u =
        (detect_used_vs_current_new_iff config condition availability landed current_new rules
          e).0 in
      (
        λ h. let (a, b) = h in ground (arith, a, l b),
        λ h. let (a, b) = h in ground (arith, a, u b),
        λ h. let (a, b) = h in ground (arith, n a, l b),
        λ h. let (a, b) = h in ground (arith, n a, u b),
        λ h. let (a, b) = h in ground (arith, l a, u b),
      )
