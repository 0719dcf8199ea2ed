-- ===== src/Deals/References/Safe.antt =====
-- The verified reference is the lowest source, so it never makes a deal that another source denies.
use fishing_deal_tracker.Prelude.{◌≡◌, Option, some}
use fishing_deal_tracker.Prelude.Int.{ℤ, pos, ◌≤ℤ◌, ◌<ℤ◌}
use fishing_deal_tracker.Floats.{Floats, FloatLaws}
use fishing_deal_tracker.Domain.{Condition, Availability, Rule, Lane}
use fishing_deal_tracker.Deals.References.{
  OwnHistoryResult, CrossRetailerCandidate, VerifiedReference, resolve_verified_reference,
}
use fishing_deal_tracker.Deals.References.Lowest.{resolve_verified_reference-IsLowest}
use fishing_deal_tracker.Deals.Detect.{DealRules, DealCandidate, detect_deep_discount_new}
use fishing_deal_tracker.Deals.Detect.Eligible.{deep_candidate}
use fishing_deal_tracker.Deals.Detect.Price.{detect_deep_discount_new_higher}

module _ {F : Type 0} ⦃fl : Floats F⦄ (laws : FloatLaws F fl) where
  -- A new deal that is found against the verified reference, which is positive, is found against
  -- the offer's own history and against the cross-retailer price too, where there is one.
  pub verified_deal_safe :
      (config : DealRules F) (condition : Condition) (availability : Availability) (p : ℤ)
      → (rules : Option (DealRules F)) (own : Option OwnHistoryResult)
      → (cross : Option CrossRetailerCandidate) (api : Option ℤ) (v : VerifiedReference)
      → (c : DealCandidate F) → pos 0 ≤ℤ p
      → pos 0 <ℤ v.cents
      → resolve_verified_reference own cross api ≡ some v
      → detect_deep_discount_new config condition availability p (some v.cents) rules ≡ some c
      → ((o : OwnHistoryResult)
          → own ≡ some o
          → detect_deep_discount_new config condition availability p (some o.median_cents) rules
            ≡ some (deep_candidate Rule.deep_discount_new Lane.verified p o.median_cents))
        × ((x : CrossRetailerCandidate)
            → cross ≡ some x
            → detect_deep_discount_new config condition availability p (some x.price_cents) rules
              ≡ some (deep_candidate Rule.deep_discount_new Lane.verified p x.price_cents))
  verified_deal_safe config condition availability p rules own cross api v c n k e d =
      let low = resolve_verified_reference-IsLowest own cross api v e in
      let higher = λ (high : ℤ) (h : v.cents ≤ℤ high).
        detect_deep_discount_new_higher laws config condition availability p v.cents high rules c n
          k h d in
      (
        λ o same. higher o.median_cents (low.below_own o same),
        λ x same. higher x.price_cents (low.below_cross x same),
      )
