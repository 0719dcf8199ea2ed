-- ===== src/Deals/Confirm/Context.antt =====
-- The records of fpt/deals/confirm.py.
use fishing_deal_tracker.Prelude.{ℕ, String, Option, none, some, List}
use fishing_deal_tracker.Prelude.Int.{ℤ}
use fishing_deal_tracker.Domain.{ConditionGroup, DetectedVia, PageType, Quality, Reason}

pub record ConfirmContext (F : Type 0) : Type 0 where
  pub detected_at : ℕ
  pub confirming_observed_at : ℕ
  pub detected_via : DetectedVia
  pub confirming_page_type : PageType
  pub detected_retailer_sku : String
  pub confirming_retailer_sku : String
  pub detected_offer_key : String
  pub confirming_offer_key : String
  pub detected_condition : String
  pub confirming_condition : String
  pub detected_seller_key : String
  pub confirming_seller_key : String
  pub detected_variant_key_observed : Option String
  pub confirming_variant_key_observed : Option String
  pub listing_variant_key_observed : Option String
  pub detected_unit_count : Option ℤ
  pub confirming_unit_count : Option ℤ
  pub listing_unit_count : Option ℤ
  pub confirming_quality : Quality
  pub confirming_quality_reasons : List Reason
  pub detected_price_cents : ℤ
  pub confirming_price_cents : ℤ
  pub recomputed_discount_pct : F
  pub recomputed_reference_variant_key : Option String
  pub recomputed_reference_condition_group : Option ConditionGroup
  pub offer_variant_key : Option String
  pub offer_condition_group : ConditionGroup
  pub confirming_price_cents_for_floor : ℤ
  pub category_floor_cents : Option ℤ
  pub recomputed_reference_unit_count : Option ℤ
  pub offer_unit_count : Option ℤ
  pub reference_cents : Option ℤ
  pub min_delay_minutes : ℕ
  pub max_price_increase_pct : F
  pub min_discount_pct : F
  pub held_review_upper_pct : F
  pub implausible_discount_pct : F

pub data ConfirmStatus : Type 0 where
  active held_review rejected : ConfirmStatus

-- `quality reason` is the string f"quality:{reason}".
pub data RejectReason : Type 0 where
  confirm_too_soon confirm_not_from_product_page offer_identity_mismatch variant_mismatch
        quality_rejected price_changed below_threshold_on_confirm reference_scope_mismatch
        below_floor implausible_discount confirm_deadline_missed :
      RejectReason
  quality : Reason → RejectReason

pub data HoldReason : Type 0 where
  discount_85_to_95 : HoldReason

pub record ConfirmResult : Type 0 where
  pub status : ConfirmStatus
  pub reject_reason : Option RejectReason
  pub hold_reason : Option HoldReason

abbrev pub reject : RejectReason → ConfirmResult
reject reason = record {
  status = ConfirmStatus.rejected;
  reject_reason = some reason;
  hold_reason = none;
}
