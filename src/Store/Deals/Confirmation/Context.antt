-- ===== src/Store/Deals/Confirmation/Context.antt =====
-- `build_confirm_context` of fpt/store/deals.py.
use fishing_deal_tracker.Prelude.{
  ℕ, String, Bool, false, not, Option, none, some, List, if◌then◌else◌,
}
use fishing_deal_tracker.Prelude.Int.{ℤ, pos, ltb_ℤ}
use fishing_deal_tracker.Prelude.Eq.{◌==◌, int_eq, string_eq}
use fishing_deal_tracker.Prelude.Query.{◌>>=◌}
use fishing_deal_tracker.Floats.{Floats}
use fishing_deal_tracker.Domain.{ConditionGroup, Lane, PageType, Quality, Reason}
use fishing_deal_tracker.Deals.Discount.{percent_off}
use fishing_deal_tracker.Deals.References.{ReferenceDetail, ReferenceKind, VerifiedReference}
use fishing_deal_tracker.Deals.Confirm.{ConfirmContext, condition_group}
use fishing_deal_tracker.Store.Database.{Db}
use fishing_deal_tracker.Store.Queries.{
  OfferContext, CurrentNewReference, get_offer_context, get_observation_identity,
  resolve_current_new_reference_with_identity, resolve_verified_reference_for_offer,
}
use fishing_deal_tracker.Store.Deals.Rows.{OpenDeal}

-- The arguments of `build_confirm_context` that come from the confirming fetch.
pub record Confirming : Type 0 where
  pub observation_id : ℕ
  pub observed_at : ℕ
  pub page_type : PageType
  pub price_cents : ℤ
  pub quality : Quality
  pub quality_reasons : List Reason
  pub retailer_sku : String
  pub offer_key : String
  pub condition : String
  pub seller_key : String
  pub variant_key_observed : Option String
  pub unit_count : Option ℤ
  pub category_floor_cents : Option ℤ
  pub claimed_reference_cents : Option ℤ

-- The reference as it is resolved for a confirmation, with its identity.
pub record Recomputed : Type 0 where
  pub reference_cents : Option ℤ
  pub variant_key : Option String
  pub unit_count : Option ℤ
  pub condition_group : Option ConditionGroup

abbrev pub nothing_found : Recomputed
nothing_found = record {
  reference_cents = none;
  variant_key = none;
  unit_count = none;
  condition_group = none;
}

-- `a or b`, where an empty text is false too.
abbrev pub text_or : Option String → Option String → Option String
text_or none b = b
text_or (some a) b = if a == "" then b else some a

abbrev pub some_or {ℓ} : {A : Type ℓ} → Option A → Option A → Option A
some_or none b = b
some_or (some a) b = some a

-- `if x:` of an optional number: neither None nor zero.
abbrev pub nonzero : Option ℤ → Bool
nonzero none = false
nonzero (some a) = not (a == pos 0)

abbrev pub from_current_new : Option CurrentNewReference → Recomputed
from_current_new none = nothing_found
from_current_new (some r) = record {
  reference_cents = some r.cents;
  variant_key = r.variant_key_observed;
  unit_count = r.unit_count;
  condition_group = some ConditionGroup.new_group;
}

abbrev pub own_identity : ℤ → Option String → Option ℤ → Recomputed
own_identity cents key units = record {
  reference_cents = some cents;
  variant_key = key;
  unit_count = units;
  condition_group = some ConditionGroup.new_group;
}

-- `detail.get("variant_key_observed")` and `detail.get("unit_count")`
abbrev pub detail_key : ReferenceDetail → Option String
detail_key (ReferenceDetail.cross retailer status key units) = key
detail_key _ = none

abbrev pub detail_units : ReferenceDetail → Option ℤ
detail_units (ReferenceDetail.cross retailer status key units) = units
detail_units _ = none

-- The identity of a verified reference: the other listing's, or the offer's own.
abbrev pub from_verified : ReferenceKind → VerifiedReference → Option String → Option ℤ → Recomputed
from_verified ReferenceKind.cross_retailer_new v key units = record {
  reference_cents = some v.cents;
  variant_key = detail_key v.detail;
  unit_count = detail_units v.detail;
  condition_group = some ConditionGroup.new_group;
}
from_verified _ v key units = own_identity v.cents key units

-- Where no reference is verified, a CLAIMED deal has the retailer's own claim.
abbrev pub from_claim : Lane → Option ℤ → Option String → Option ℤ → Recomputed
from_claim Lane.claimed (some claimed) key units =
    if nonzero (some claimed) then own_identity claimed key units else nothing_found
from_claim _ _ key units = nothing_found

abbrev pub of_context {ℓ} :
    {A : Type ℓ} → Option OfferContext → (OfferContext → Option A) → Option A
of_context none f = none
of_context (some ctx) f = f ctx

abbrev pub unmatched :
    Lane → Option VerifiedReference → Option ℤ → Option String → Option ℤ → Recomputed
unmatched lane (some v) claimed key units = from_verified v.kind v key units
unmatched lane none claimed key units = from_claim lane claimed key units

module _ {F : Type 0} (db : Db F) where
  unfoldable pub recompute :
      Lane
      → (offer_id : ℕ) → Option OfferContext
      → (claimed : Option ℤ) → (offer_variant_key : Option String) (offer_unit_count : Option ℤ)
      → Recomputed
  recompute Lane.used_lane offer_id ctx claimed key units =
      from_current_new (
        resolve_current_new_reference_with_identity db (of_context ctx (λ c. c.variant_id))
          offer_id)
  recompute lane offer_id ctx claimed key units =
      unmatched lane (resolve_verified_reference_for_offer db offer_id) claimed key units

-- The offer's group as stored, or that of the fetched condition.
abbrev pub offer_group : Option OfferContext → String → ConditionGroup
offer_group none condition = condition_group condition
offer_group (some ctx) condition = ctx.condition_group

module _ {F : Type 0} ⦃fl : Floats F⦄ where
  -- The discount against the recomputed reference, or 0.0 where there is none.
  abbrev pub recomputed_discount : ℤ → Option ℤ → F
  recomputed_discount price none = fl.of_int (pos 0)
  recomputed_discount price (some reference) =
      if ltb_ℤ (pos 0) reference then percent_off price reference else fl.of_int (pos 0)

  unfoldable pub build_confirm_context :
      Db F → OpenDeal → (offer_id : ℕ) → Confirming → ConfirmContext F
  build_confirm_context db open_deal offer_id fetch =
      let ctx = get_offer_context db offer_id in
      let detected = get_observation_identity db (some open_deal.detected_observation_id) in
      let listing_key = of_context ctx (λ c. c.variant_key_observed) in
      let listing_units = of_context ctx (λ c. c.unit_count) in
      let key = text_or fetch.variant_key_observed listing_key in
      let units = some_or fetch.unit_count listing_units in
      let found =
        recompute db open_deal.lane offer_id ctx fetch.claimed_reference_cents key units in
      record {
        detected_at = open_deal.detected_at;
        confirming_observed_at = fetch.observed_at;
        detected_via = open_deal.detected_via;
        confirming_page_type = fetch.page_type;
        detected_retailer_sku = fetch.retailer_sku;
        confirming_retailer_sku = fetch.retailer_sku;
        detected_offer_key = fetch.offer_key;
        confirming_offer_key = fetch.offer_key;
        detected_condition = fetch.condition;
        confirming_condition = fetch.condition;
        detected_seller_key = fetch.seller_key;
        confirming_seller_key = fetch.seller_key;
        detected_variant_key_observed = (do d ← detected; d.variant_key_observed);
        confirming_variant_key_observed = fetch.variant_key_observed;
        listing_variant_key_observed = listing_key;
        detected_unit_count = (do d ← detected; d.unit_count);
        confirming_unit_count = fetch.unit_count;
        listing_unit_count = listing_units;
        confirming_quality = fetch.quality;
        confirming_quality_reasons = fetch.quality_reasons;
        detected_price_cents = open_deal.price_cents;
        confirming_price_cents = fetch.price_cents;
        recomputed_discount_pct = recomputed_discount fetch.price_cents found.reference_cents;
        recomputed_reference_variant_key = found.variant_key;
        recomputed_reference_condition_group = found.condition_group;
        recomputed_reference_unit_count = found.unit_count;
        offer_variant_key = key;
        offer_condition_group = offer_group ctx fetch.condition;
        offer_unit_count = units;
        confirming_price_cents_for_floor = fetch.price_cents;
        category_floor_cents = fetch.category_floor_cents;
        reference_cents = found.reference_cents;
        min_delay_minutes = 10;
        max_price_increase_pct = fl.of_int (pos 2);
        min_discount_pct = fl.of_int (pos 50);
        held_review_upper_pct = fl.of_int (pos 85);
        implausible_discount_pct = fl.of_int (pos 95);
      }
