-- ===== src/Deals/Confirm/Tests.antt =====
-- A run of the confirmation, and the theorems at it.
use fishing_deal_tracker.Prelude.{ℕ, ◌*◌, ◌≡◌, ◌↔◌, refl, true, false, none, some, [], ◌∷◌, is_some}
use fishing_deal_tracker.Prelude.Int.{pos}
use fishing_deal_tracker.Floats.{Floats}
use fishing_deal_tracker.Floats.Fixed.{fixed}
use fishing_deal_tracker.Domain.{ConditionGroup, DetectedVia, PageType, Quality, Reason}
use fishing_deal_tracker.Deals.Confirm.{
  ConfirmContext, ConfirmStatus, RejectReason, minute, too_soon, not_from_product_page,
  identity_differs, variant_differs, unit_count_differs, reference_out_of_scope, exceeds_tolerance,
  check_price, confirm_candidate,
}
use fishing_deal_tracker.Deals.Confirm.Verdict.{
  IsConfirmed, confirm_candidate-active_iff, confirm_candidate-held_iff, confirm_candidate-reasons,
}

instance abbrev numbers : Floats ℕ
numbers = fixed

-- Detected on a grid at $40.00 against $100.00, confirmed on the product page 15 minutes later.
abbrev sale : ConfirmContext ℕ
sale = record {
  detected_at = 0;
  confirming_observed_at = 15 * minute;
  detected_via = DetectedVia.discovery_grid;
  confirming_page_type = PageType.product;
  detected_retailer_sku = "SKU-1";
  confirming_retailer_sku = "SKU-1";
  detected_offer_key = "k";
  confirming_offer_key = "k";
  detected_condition = "NEW";
  confirming_condition = "NEW";
  detected_seller_key = "s";
  confirming_seller_key = "s";
  detected_variant_key_observed = some "v";
  confirming_variant_key_observed = some "v";
  listing_variant_key_observed = some "v";
  detected_unit_count = some (pos 1);
  confirming_unit_count = some (pos 1);
  listing_unit_count = some (pos 1);
  confirming_quality = Quality.suspect;
  confirming_quality_reasons = Reason.large_move ∷ [];
  detected_price_cents = pos 4000;
  confirming_price_cents = pos 4000;
  recomputed_discount_pct = 600000;
  recomputed_reference_variant_key = some "v";
  recomputed_reference_condition_group = some ConditionGroup.new_group;
  offer_variant_key = some "v";
  offer_condition_group = ConditionGroup.new_group;
  confirming_price_cents_for_floor = pos 4000;
  category_floor_cents = some (pos 500);
  recomputed_reference_unit_count = none;
  offer_unit_count = some (pos 1);
  reference_cents = some (pos 10000);
  min_delay_minutes = 10;
  max_price_increase_pct = 20000;
  min_discount_pct = 500000;
  held_review_upper_pct = 850000;
  implausible_discount_pct = 950000;
}

sale_is_active : (confirm_candidate sale).status ≡ ConfirmStatus.active
unfolding confirm_candidate too_soon not_from_product_page identity_differs variant_differs
    unit_count_differs check_price exceeds_tolerance reference_out_of_scope
sale_is_active = refl

abbrev early : ConfirmContext ℕ
early = record sale { confirming_observed_at = 9 * minute }

early_is_rejected : (confirm_candidate early).reject_reason ≡ some RejectReason.confirm_too_soon
unfolding confirm_candidate too_soon
early_is_rejected = refl

confirm_candidate-active_iff_example :
    ((confirm_candidate sale).status ≡ ConfirmStatus.active)
    ↔ (IsConfirmed sale × (numbers.lt 850000 600000 ≡ false))
confirm_candidate-active_iff_example = confirm_candidate-active_iff sale

abbrev steep : ConfirmContext ℕ
steep = record sale { recomputed_discount_pct = 900000 }

confirm_candidate-held_iff_example :
    ((confirm_candidate steep).status ≡ ConfirmStatus.held_review)
    ↔ (IsConfirmed steep × (numbers.lt 850000 900000 ≡ true))
confirm_candidate-held_iff_example = confirm_candidate-held_iff steep

confirm_candidate-reasons_example :
    let r = confirm_candidate early in
    ((r.status ≡ ConfirmStatus.rejected) ↔ (is_some r.reject_reason ≡ true))
    × ((r.status ≡ ConfirmStatus.held_review) ↔ (is_some r.hold_reason ≡ true))
confirm_candidate-reasons_example = confirm_candidate-reasons early
