-- ===== src/Deals/Confirm.antt =====
-- fpt/deals/confirm.py: the two-fetch confirmation, checks 1 to 10. A datetime is a number of
-- microseconds, so `later - earlier < gap` is `later < earlier + gap`.
mod Context
pub mod Checks
pub mod Verdict
mod Tests
pub use Context.*
use fishing_deal_tracker.Prelude.{
  ℕ, ◌+◌, ◌*◌, String, Bool, true, false, not, ◌&&◌, ◌||◌, Option, none, some, List, [], ◌∷◌, ltb,
  length, is_some, if◌then◌else◌,
}
use fishing_deal_tracker.Prelude.Int.{ℤ, pos, ltb_ℤ}
use fishing_deal_tracker.Prelude.Eq.{◌==◌, string_eq, int_eq, option_eq, to_set}
use fishing_deal_tracker.Floats.{Floats}
use fishing_deal_tracker.Domain.{
  ConditionGroup, DetectedVia, PageType, Quality, Reason, condition_groups, get_str, group_beq,
  is_product,
}

abbrev pub minute : ℕ
minute = 60_000_000

abbrev pub is_discovery_grid : DetectedVia → Bool
is_discovery_grid DetectedVia.discovery_grid = true
is_discovery_grid _ = false

abbrev pub is_large_move : Reason → Bool
is_large_move Reason.large_move = true
is_large_move _ = false

-- `[r for r in reasons if r != "large_move"]`
abbrev pub other_reasons : List Reason → List Reason
other_reasons [] = []
other_reasons (r ∷ rs) = let rest = other_reasons rs in if is_large_move r then rest else r ∷ rest

-- Both known, and different.
abbrev pub known_differ_text : Option String → Option String → Bool
known_differ_text (some a) (some b) = not (a == b)
known_differ_text _ _ = false

abbrev pub known_differ_count : Option ℤ → Option ℤ → Bool
known_differ_count (some a) (some b) = not (a == b)
known_differ_count _ _ = false

abbrev pub known_differ_group : Option ConditionGroup → ConditionGroup → Bool
known_differ_group (some a) b = not (group_beq a b)
known_differ_group none b = false

-- Check 5: the reason to reject for, if any.
abbrev pub first_other : List Reason → Option RejectReason
first_other [] = none
first_other (r ∷ rs) = some (RejectReason.quality r)

abbrev pub quality_reject : Quality → List Reason → Option RejectReason
quality_reject Quality.rejected reasons = some RejectReason.quality_rejected
quality_reject Quality.suspect reasons = first_other (other_reasons reasons)
quality_reject Quality.ok reasons = none

-- Check 10
abbrev pub below : Option ℤ → ℤ → Bool
below none price = false
below (some floor) price = ltb_ℤ price floor

module _ {F : Type 0} where
  -- Check 1
  pub too_soon : ConfirmContext F → Bool
  too_soon ctx = ltb ctx.confirming_observed_at (ctx.detected_at + ctx.min_delay_minutes * minute)

  -- Check 2
  pub not_from_product_page : ConfirmContext F → Bool
  not_from_product_page ctx =
      is_discovery_grid ctx.detected_via && not (is_product ctx.confirming_page_type)

  -- Check 3
  pub identity_differs : ConfirmContext F → Bool
  identity_differs ctx =
      not (ctx.detected_retailer_sku == ctx.confirming_retailer_sku)
      || not (ctx.detected_offer_key == ctx.confirming_offer_key)
      || not (ctx.detected_condition == ctx.confirming_condition)
      || not (ctx.detected_seller_key == ctx.confirming_seller_key)

  -- Check 4: `len({detected, confirming, listing}) > 1`
  pub variant_differs : ConfirmContext F → Bool
  variant_differs ctx = ltb 1 (
      length (
        to_set (
          ctx.detected_variant_key_observed ∷ ctx.confirming_variant_key_observed
          ∷ ctx.listing_variant_key_observed ∷ [])))

  pub unit_count_differs : ConfirmContext F → Bool
  unit_count_differs ctx = ltb 1 (
      length (
        to_set (ctx.detected_unit_count ∷ ctx.confirming_unit_count ∷ ctx.listing_unit_count ∷ [])))

  -- Check 8
  pub reference_out_of_scope : ConfirmContext F → Bool
  reference_out_of_scope ctx =
      known_differ_text ctx.recomputed_reference_variant_key ctx.offer_variant_key
      || known_differ_count ctx.recomputed_reference_unit_count ctx.offer_unit_count
      || known_differ_group ctx.recomputed_reference_condition_group ctx.offer_condition_group

-- `condition_group(condition)`
pub condition_group : String → ConditionGroup
condition_group condition = get_str condition_groups condition ConditionGroup.used

module _ {F : Type 0} ⦃fl : Floats F⦄ where
  -- Check 6: `price > detected * (1 + max_increase / 100.0)`
  unfoldable pub exceeds_tolerance : ℤ → ℤ → F → Bool
  exceeds_tolerance price detected max_increase =
      fl.lt
        (fl.mul (fl.of_int detected)
          (fl.add (fl.of_int (pos 1)) (fl.div max_increase (fl.of_int (pos 100)))))
        (fl.of_int price)

  -- Check 9
  abbrev pub band : ConfirmContext F → ConfirmResult
  band ctx =
      if fl.lt ctx.implausible_discount_pct ctx.recomputed_discount_pct
      then reject RejectReason.implausible_discount
      else if fl.lt ctx.held_review_upper_pct ctx.recomputed_discount_pct
      then record {
        status = ConfirmStatus.held_review;
        reject_reason = none;
        hold_reason = some HoldReason.discount_85_to_95;
      }
      else record { status = ConfirmStatus.active; reject_reason = none; hold_reason = none }

  -- Checks 6 to 10, once the identity and the quality are settled.
  unfoldable pub check_price : ConfirmContext F → ConfirmResult
  check_price ctx =
      if exceeds_tolerance ctx.confirming_price_cents ctx.detected_price_cents
        ctx.max_price_increase_pct
      then reject RejectReason.price_changed
      else if fl.lt ctx.recomputed_discount_pct ctx.min_discount_pct
      then reject RejectReason.below_threshold_on_confirm
      else if reference_out_of_scope ctx
      then reject RejectReason.reference_scope_mismatch
      else if below ctx.category_floor_cents ctx.confirming_price_cents_for_floor
      then reject RejectReason.below_floor
      else band ctx

  unfoldable pub confirm_candidate : ConfirmContext F → ConfirmResult
  confirm_candidate ctx =
      if too_soon ctx
      then reject RejectReason.confirm_too_soon
      else if not_from_product_page ctx
      then reject RejectReason.confirm_not_from_product_page
      else if identity_differs ctx
      then reject RejectReason.offer_identity_mismatch
      else if variant_differs ctx
      then reject RejectReason.variant_mismatch
      else if unit_count_differs ctx
      then reject RejectReason.variant_mismatch
      else elim (quality_reject ctx.confirming_quality ctx.confirming_quality_reasons) [
        | some reason ↦ reject reason
        | none ↦ check_price ctx
      ]
