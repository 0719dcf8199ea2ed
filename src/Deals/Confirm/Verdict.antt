-- ===== src/Deals/Confirm/Verdict.antt =====
-- The verdict of `confirm_candidate` against the architecture's table of checks.
use fishing_deal_tracker.Prelude.{◌≡◌, ◌≢◌, ◌↔◌, Bool, true, false, none, some, arith, is_some}
use fishing_deal_tracker.Prelude.Int.{ℤ, ◌≤ℤ◌}
use fishing_deal_tracker.Floats.{Floats}
use fishing_deal_tracker.Deals.Confirm.{
  ConfirmContext, ConfirmStatus, ConfirmResult, HoldReason, too_soon, not_from_product_page,
  identity_differs, variant_differs, unit_count_differs, quality_reject, exceeds_tolerance,
  check_price, confirm_candidate,
}
use fishing_deal_tracker.Deals.Confirm.Checks.{
  IsSameOffer, IsScoped, IsUsable, too_soon_iff, not_from_product_page_iff, identity_differs_iff,
  variant_differs_iff, unit_count_differs_iff, quality_reject_iff, reference_out_of_scope_iff,
  below_iff,
}

-- What a verdict other than a rejection says of the discount band.
abbrev pub verdict : Bool → ConfirmResult
verdict true = record {
  status = ConfirmStatus.held_review;
  reject_reason = none;
  hold_reason = some HoldReason.discount_85_to_95;
}
verdict false = record { status = ConfirmStatus.active; reject_reason = none; hold_reason = none }

module _ {F : Type 0} ⦃fl : Floats F⦄ where
  -- Checks 6 to 8, check 10, and the upper bound of check 9.
  pub record IsPriced (ctx : ConfirmContext F) : Type 0 where
    pub near :
        exceeds_tolerance ctx.confirming_price_cents ctx.detected_price_cents
          ctx.max_price_increase_pct
        ≡ false
    pub deep : fl.lt ctx.recomputed_discount_pct ctx.min_discount_pct ≡ false
    pub scoped : IsScoped ctx
    pub floor :
        (f : ℤ) → ctx.category_floor_cents ≡ some f → f ≤ℤ ctx.confirming_price_cents_for_floor
    pub plausible : fl.lt ctx.implausible_discount_pct ctx.recomputed_discount_pct ≡ false

  -- Checks 1 to 8 and check 10, and a plausible discount.
  pub record IsConfirmed (ctx : ConfirmContext F) : Type 0 where
    pub same_offer : IsSameOffer ctx
    pub usable : IsUsable ctx.confirming_quality ctx.confirming_quality_reasons
    pub priced : IsPriced ctx

  check_price-passed :
      (ctx : ConfirmContext F)
      → IsPriced ctx
      → check_price ctx ≡ verdict (fl.lt ctx.held_review_upper_pct ctx.recomputed_discount_pct)
  unfolding check_price
  check_price-passed ctx h =
      let scoped = (reference_out_of_scope_iff ctx).1 h.scoped in
      let floor =
        (below_iff ctx.category_floor_cents ctx.confirming_price_cents_for_floor).1 h.floor in
      ground (arith, scoped, floor)

  check_price-kept :
      (ctx : ConfirmContext F) → (check_price ctx).status ≢ ConfirmStatus.rejected → IsPriced ctx
  unfolding check_price
  check_price-kept ctx h = record {
    near = ground arith;
    deep = ground arith;
    scoped = (reference_out_of_scope_iff ctx).0 (ground arith);
    floor =
        (below_iff ctx.category_floor_cents ctx.confirming_price_cents_for_floor).0 (ground arith);
    plausible = ground arith;
  }

  confirm_candidate-passed :
      (ctx : ConfirmContext F)
      → IsConfirmed ctx
      → confirm_candidate ctx
        ≡ verdict (fl.lt ctx.held_review_upper_pct ctx.recomputed_discount_pct)
  unfolding confirm_candidate
  confirm_candidate-passed ctx h =
      let o = h.same_offer in
      ground (
        arith,
        (too_soon_iff ctx).1 o.later,
        (not_from_product_page_iff ctx).1 o.product_page,
        (identity_differs_iff ctx).1 (o.retailer_sku, o.offer_key, o.condition, o.seller_key),
        (variant_differs_iff ctx).1 (o.variant_confirmed, o.variant_listed),
        (unit_count_differs_iff ctx).1 (o.unit_count_confirmed, o.unit_count_listed),
        (quality_reject_iff ctx.confirming_quality ctx.confirming_quality_reasons).1 h.usable,
        check_price-passed ctx h.priced,
      )

  -- The tests of checks 1 to 5 that a context which is not rejected has passed.
  passed_tests :
      (ctx : ConfirmContext F)
      → (confirm_candidate ctx).status ≢ ConfirmStatus.rejected
      → (too_soon ctx ≡ false)
        × (not_from_product_page ctx ≡ false)
        × (identity_differs ctx ≡ false)
        × (variant_differs ctx ≡ false)
        × (unit_count_differs ctx ≡ false)
        × (quality_reject ctx.confirming_quality ctx.confirming_quality_reasons ≡ none)
        × ((check_price ctx).status ≢ ConfirmStatus.rejected)
  unfolding confirm_candidate
  passed_tests ctx h = ground arith

  pub confirm_candidate-kept :
      (ctx : ConfirmContext F)
      → (confirm_candidate ctx).status ≢ ConfirmStatus.rejected
      → IsConfirmed ctx
  confirm_candidate-kept ctx h =
      let t = passed_tests ctx h in
      let identity = (identity_differs_iff ctx).0 t.2 in
      let variant = (variant_differs_iff ctx).0 t.3 in
      let units = (unit_count_differs_iff ctx).0 t.4 in
      record {
        same_offer = record {
          later = (too_soon_iff ctx).0 t.0;
          product_page = (not_from_product_page_iff ctx).0 t.1;
          retailer_sku = identity.0;
          offer_key = identity.1;
          condition = identity.2;
          seller_key = identity.3;
          variant_confirmed = variant.0;
          variant_listed = variant.1;
          unit_count_confirmed = units.0;
          unit_count_listed = units.1;
        };
        usable = (quality_reject_iff ctx.confirming_quality ctx.confirming_quality_reasons).0 t.5;
        priced = check_price-kept ctx t.6;
      }

  -- A candidate becomes ACTIVE exactly when all of checks 1 to 8 and check 10 hold, its discount is not
  -- implausible, and the discount does not pass the upper bound of the unreviewed band.
  pub confirm_candidate-active_iff :
      (ctx : ConfirmContext F)
      → ((confirm_candidate ctx).status ≡ ConfirmStatus.active)
        ↔ (IsConfirmed ctx × (fl.lt ctx.held_review_upper_pct ctx.recomputed_discount_pct ≡ false))
  confirm_candidate-active_iff ctx = (
    λ h.
        let k = confirm_candidate-kept ctx (ground arith) in
        (k, ground (arith, confirm_candidate-passed ctx k)),
    λ h. ground (arith, confirm_candidate-passed ctx h.0),
  )

  -- A candidate is held for review exactly when checks 1 to 8 and check 10 hold, its discount is
  -- not implausible, and the discount passes the upper bound of the unreviewed band.
  pub confirm_candidate-held_iff :
      (ctx : ConfirmContext F)
      → ((confirm_candidate ctx).status ≡ ConfirmStatus.held_review)
        ↔ (IsConfirmed ctx × (fl.lt ctx.held_review_upper_pct ctx.recomputed_discount_pct ≡ true))
  confirm_candidate-held_iff ctx = (
    λ h.
        let k = confirm_candidate-kept ctx (ground arith) in
        (k, ground (arith, confirm_candidate-passed ctx k)),
    λ h. ground (arith, confirm_candidate-passed ctx h.0),
  )

  -- Every verdict carries the reason that its status calls for, and no other: a reject reason
  -- exactly on REJECTED, a hold reason exactly on HELD_REVIEW.
  pub confirm_candidate-reasons :
      (ctx : ConfirmContext F)
      → let r = confirm_candidate ctx in
        ((r.status ≡ ConfirmStatus.rejected) ↔ (is_some r.reject_reason ≡ true))
        × ((r.status ≡ ConfirmStatus.held_review) ↔ (is_some r.hold_reason ≡ true))
  unfolding confirm_candidate check_price
  confirm_candidate-reasons ctx =
      ((λ h. ground arith, λ h. ground arith), (λ h. ground arith, λ h. ground arith))
